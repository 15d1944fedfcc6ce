-- ===== src/Schedule/Isolation.antt =====
-- Tick: a definition that fails does not stop the others, and every new run is due.
use orbitjob.Prelude.{ℕ, ◌+◌, ◌≡◌, refl, String, true, List, [], ◌∷◌, All}
use orbitjob.Prelude.Int.{ℤ}
use orbitjob.Prelude.Result.{Result, ok, err}
use orbitjob.Trace.{Keeps, Keeps-bind, continue}
use orbitjob.Schedule.Fire.{
  Revision, FireEffect, FireError, create_occurrence, list_revisions, list_open_runs,
  count_open_runs, publish, Scheduler, F, ask, fire_definition,
}
use orbitjob.Schedule.Pass.{Due, Keeps-ask, Keeps-fire}
use orbitjob.Schedule.Tick.{effective_grace, absorb, fire_all, tick_from, tick}

-- A computation that succeeds, whatever came before.
abbrev Succeeds : F ℕ → Type 0
Succeeds m = (h : List FireEffect) → (n : ℕ) × ((m h).0 ≡ ok n)

fire_all-Succeeds :
    (s : Scheduler) (revs : List Revision) (now grace created : ℕ)
    → Succeeds (fire_all s revs now grace created)
unfolding fire_all
fire_all-Succeeds s [] now grace created h = (created, refl)
fire_all-Succeeds s (rev ∷ revs) now grace created h =
    go (fire_definition s rev now grace h) (λ made. fire_all-Succeeds s revs now grace made)
  where
    go :
        (r : Result FireError ℕ × List FireEffect)
        → ((made : ℕ) → Succeeds (fire_all s revs now grace made))
        → (n : ℕ) × ((absorb r created (fire_all s revs now grace)).0 ≡ ok n)
    go (ok n, g) k = k (created + n) g
    go (err e, g) k = k created g

continue-Succeeds :
    (r : Result FireError ℕ × List FireEffect) (f : ℕ → F ℕ) (n : ℕ)
    → r.0 ≡ ok n
    → ((made : ℕ) → Succeeds (f made))
    → (m : ℕ) × ((continue r f).0 ≡ ok m)
continue-Succeeds (ok x, g) f n e k = k x g
continue-Succeeds (err x, g) f n e k = cc

tick_from-Succeeds :
    (s : Scheduler) (tenants : List String) (now grace created : ℕ)
    → ((h : List FireEffect) (tenant : String) → s.ledger.accepts h (list_revisions tenant) ≡ true)
    → Succeeds (tick_from s tenants now grace created)
unfolding tick_from
tick_from-Succeeds s [] now grace created l h = (created, refl)
tick_from-Succeeds s (tenant ∷ tenants) now grace created l h =
    let g : List FireEffect = list_revisions tenant ∷ h in
    let (n, e) = fire_all-Succeeds s (s.ledger.revisions g) now grace created g in
    rw (l h tenant) (
      continue-Succeeds (fire_all s (s.ledger.revisions g) now grace created g)
        (tick_from s tenants now grace) n e (λ made. tick_from-Succeeds s tenants now grace made l))

-- If the tenants' revisions can be listed, a tick succeeds, whatever fails at the definitions: one
-- that does not decode or parse, or a refused call, never ends the tick for the others.
pub tick_total :
    (s : Scheduler) (tenants : List String) (now : ℕ) (grace : ℤ) (h : List FireEffect)
    → ((g : List FireEffect) (tenant : String) → s.ledger.accepts g (list_revisions tenant) ≡ true)
    → (n : ℕ) × ((tick s tenants now grace h).0 ≡ ok n)
unfolding tick
tick_total s tenants now grace h l = tick_from-Succeeds s tenants now (effective_grace grace) 0 l h

-- A new run is due for some definition.
abbrev pub DueForSome : Scheduler → ℕ → ℤ → FireEffect → Type 0
DueForSome s now grace (create_occurrence uid revision key trigger phase attempts actor) =
    (rev : Revision) × Due s rev now (effective_grace grace)
      (create_occurrence uid revision key trigger phase attempts actor)
DueForSome s now grace _ = Unit

due_for_some :
    (s : Scheduler) (now : ℕ) (grace : ℤ) (rev : Revision) (e : FireEffect)
    → Due s rev now (effective_grace grace) e
    → DueForSome s now grace e
due_for_some s now grace rev (create_occurrence uid revision key trigger phase attempts actor) d =
    (rev, d)
due_for_some s now grace rev (list_revisions tenant) d = tt
due_for_some s now grace rev (list_open_runs uid) d = tt
due_for_some s now grace rev (count_open_runs uid) d = tt
due_for_some s now grace rev (publish o) d = tt

module _ (s : Scheduler) (now : ℕ) (grace : ℤ) where
  abbrev P : FireEffect → Type 0
  P = DueForSome s now grace

  absorbed :
      (r : Result FireError ℕ × List FireEffect) (created : ℕ) (next : ℕ → F ℕ)
      → All P r.1
      → ((made : ℕ) → Keeps P (next made))
      → All P (absorb r created next).1
  absorbed (ok n, g) created next q k = k (created + n) g q
  absorbed (err e, g) created next q k = k created g q

  Keeps-fire_all :
      (revs : List Revision) (created : ℕ)
      → Keeps P (fire_all s revs now (effective_grace grace) created)
  unfolding fire_all
  Keeps-fire_all [] created h q = q
  Keeps-fire_all (rev ∷ revs) created h q =
      absorbed (fire_definition s rev now (effective_grace grace) h) created
        (fire_all s revs now (effective_grace grace))
        (Keeps-fire P s rev now (effective_grace grace) (due_for_some s now grace rev) h q)
        (λ made. Keeps-fire_all revs made)

  Keeps-tick_from :
      (tenants : List String) (created : ℕ)
      → Keeps P (tick_from s tenants now (effective_grace grace) created)
  unfolding tick_from
  Keeps-tick_from [] created = λ h q. q
  Keeps-tick_from (tenant ∷ tenants) created =
      Keeps-bind P (ask s (list_revisions tenant)) _ (Keeps-ask P s (list_revisions tenant) tt) λ u.
        Keeps-bind P (λ h. fire_all s (s.ledger.revisions h) now (effective_grace grace) created h)
          _ (λ h q. Keeps-fire_all (s.ledger.revisions h) created h q)
          (λ made. Keeps-tick_from tenants made)

-- Every run that a tick creates, for whatever tenant and whatever fails on the way, is due for some
-- definition: an instant that the definition's schedule matches, within the lookback and not after
-- now, under the key of that instant.
pub tick-DueForSome :
    (s : Scheduler) (tenants : List String) (now : ℕ) (grace : ℤ)
    → All (DueForSome s now grace) (tick s tenants now grace []).1
unfolding tick
tick-DueForSome s tenants now grace = Keeps-tick_from s now grace tenants 0 [] tt
