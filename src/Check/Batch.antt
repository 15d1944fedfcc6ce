-- ===== src/Check/Batch.antt =====
-- A batch fires every due check, whatever fails at single ones.
use orbitjob.Prelude.{
  ℕ, ◌+◌, ◌≤◌, ◌≡◌, refl, Bool, true, false, not, ◌&&◌, List, [], ◌∷◌, Option, none, some, arith,
  inl, inr, Bool-cases, length, if◌then◌else◌,
}
use orbitjob.Prelude.Int.{ℤ}
use orbitjob.Prelude.Result.{Result, ok, err}
use orbitjob.Trace.{continue}
use orbitjob.Run
use orbitjob.Check.{Snapshot, check_source_uid}
use orbitjob.Check.Fire.{
  CheckCall, list_due, CheckError, UseCase, C, ask, repair_open_runs, apply_check, publish_stored,
  fire_occurrence, fire_check, absorb, fire_each, effective_limit, run_batch,
}

-- At most n runs are reported.
abbrev AtMost : ℕ → Result CheckError ℕ → Type 0
AtMost n (ok m) = m ≤ n
AtMost n (err e) = Unit

AtMost-continue :
    {A : Type 0} (r : Result CheckError A × List CheckCall) (f : A → C ℕ) (n : ℕ)
    → ((a : A) (h : List CheckCall) → AtMost n (f a h).0)
    → AtMost n (continue r f).0
AtMost-continue (ok a, h) f n k = k a h
AtMost-continue (err e, h) f n k = tt

one_fired :
    (u : UseCase) (c : Snapshot) (now : ℕ) (h : List CheckCall) → AtMost 1 (fire_check u c now h).0
unfolding fire_check fire_occurrence publish_stored
one_fired u c now h =
    AtMost-continue (repair_open_runs u (check_source_uid c.id) h) _ 1
      λ v g. AtMost-continue (apply_check u c g) _ 1 (fired c.next_run_at)
  where
    counted : (new : Bool) → (if new then 1 else 0) ≤ 1
    counted true = omega arith
    counted false = omega arith

    fired :
        (o : Option ℕ) (revision_id : ℕ) (h : List CheckCall)
        → AtMost 1 (fire_occurrence u c now o revision_id h).0
    fired none revision_id h = tt
    fired (some at) revision_id h = AtMost-continue (ask u _ h) _ 1 λ v g.
        elim (Bool-cases (not (u.env.is_new g) && Run.terminal (u.env.stored_phase g))) [
          | inl e ↦ rw e (omega arith)
          | inr e ↦ rw e (
              AtMost-continue (ask u _ g) _ 1
                λ w k. AtMost-continue (ask u _ k) _ 1 λ x l. counted (u.env.is_new g))
        ]

-- The loop always ends in a count.
abbrev Counted : ℕ → Result CheckError ℕ → Type 0
Counted most r = (n : ℕ) × (r ≡ ok n) × (n ≤ most)

Counted-absorb :
    (r : Result CheckError ℕ × List CheckCall) (created most : ℕ) (next : ℕ → C ℕ)
    → AtMost 1 r.0
    → ((n : ℕ) (h : List CheckCall) → n ≤ created + 1 → Counted most (next n h).0)
    → Counted most (absorb r created next).0
Counted-absorb (ok n, h) created most next a k = k (created + n) h (omega arith)
Counted-absorb (err e, h) created most next a k = k created h (omega arith)

Counted-fire_each :
    (u : UseCase) (cs : List Snapshot) (now created most : ℕ) (h : List CheckCall)
    → created + length cs ≤ most
    → Counted most (fire_each u cs now created h).0
unfolding fire_each
Counted-fire_each u [] now created most h l = (created, refl, omega arith)
Counted-fire_each u (c ∷ cs) now created most h l =
    Counted-absorb (fire_check u c now h) created most (fire_each u cs now) (one_fired u c now h)
      λ n g m. Counted-fire_each u cs now n most g (omega arith)

-- If the due checks can be listed, a batch succeeds, whatever fails at single checks, and reports at
-- most one new run for each due check.
pub run_batch_total :
    (u : UseCase) (limit : ℤ)
    → u.env.accepts [] (list_due (effective_limit limit)) ≡ true
    → (n : ℕ) × ((run_batch u limit []).0 ≡ ok n)
      × (n ≤ length (u.env.due (list_due (effective_limit limit) ∷ [])))
run_batch_total u limit e =
    unfold run_batch in
    rw e (
      Counted-fire_each u (u.env.due (list_due (effective_limit limit) ∷ [])) (u.env.clock []) 0 _
        (list_due (effective_limit limit) ∷ []) (omega arith))
