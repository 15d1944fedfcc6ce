-- ===== src/Schedule/Limits.antt =====
-- How many runs a pass of fireDefinition may create, and when it creates none.
use orbitjob.Prelude.{
  ℕ, suc, ◌+◌, ◌≤◌, ◌≡◌, refl, Bool, true, false, not, ◌&&◌, ◌||◌, List, [], ◌∷◌, Option, none,
  some, arith, eqb, length, ◌==◌, if◌then◌else◌,
}
use orbitjob.Prelude.Result.{Result, ok, err}
use orbitjob.Trace.{pure, continue, ◌>>=◌}
use orbitjob.Run
use orbitjob.Run.{OpenRun}
use orbitjob.Schedule.{catch_up_limit, select_occurrences}
use orbitjob.Schedule.Choice.{catches_up, length-select_occurrences}
use orbitjob.Schedule.Fire.{
  always_allows, JobSpec, Revision, FireEffect, FireError, create_occurrence, publish,
  list_open_runs, count_open_runs, Scheduler, F, ask, republish, repair_open_runs,
  concurrency_allows, publish_stored, publish_created, fire_each, fire_allowed, fire_due,
  fire_parsed, fire_decoded, fire_definition,
}

abbrev pub is_create : FireEffect → Bool
is_create (create_occurrence uid revision key trigger phase attempts actor) = true
is_create _ = false

-- The creations in a trace.
abbrev pub creations : List FireEffect → ℕ
creations [] = 0
creations (e ∷ es) = let rest = creations es in if is_create e then suc rest else rest

-- At most `n` creations, whatever came before and whatever the answers are.
abbrev AddsAtMost : {A : Type 0} → ℕ → F A → Type 0
AddsAtMost n m = (h : List FireEffect) → creations (m h).1 ≤ creations h + n

adds_continue :
    {A B : Type 0} (k low total : ℕ) (r : Result FireError A × List FireEffect) (f : A → F B)
    → creations r.1 ≤ low
    → low + k ≤ total
    → ((a : A) → AddsAtMost k (f a))
    → creations (continue r f).1 ≤ total
adds_continue k low total (ok x, g) f c d b = omega (arith, b x g)
adds_continue k low total (err e, g) f c d b = omega arith

adds_bind :
    {A B : Type 0} (n k total : ℕ) (m : F A) (f : A → F B)
    → n + k ≤ total
    → AddsAtMost n m
    → ((a : A) → AddsAtMost k (f a))
    → AddsAtMost total (m >>= f)
adds_bind n k total m f t a b h =
    adds_continue k (creations h + n) (creations h + total) (m h) f (a h) (omega arith) b

adds_if :
    {A : Type 0} (k : ℕ) (b : Bool) (m n : F A)
    → (b ≡ true → AddsAtMost k m)
    → (b ≡ false → AddsAtMost k n)
    → AddsAtMost k (if b then m else n)
adds_if k true m n p q = p refl
adds_if k false m n p q = q refl

adds_ask : (s : Scheduler) (e : FireEffect) → AddsAtMost (if is_create e then 1 else 0) (ask s e)
adds_ask s e h = ground arith

module _ (s : Scheduler) (rev : Revision) (spec : JobSpec) where
  adds_republish : (runs : List OpenRun) → AddsAtMost 0 (republish s rev spec runs)
  unfolding republish
  adds_republish [] = λ h. omega arith
  adds_republish (run ∷ runs) =
      adds_bind 0 0 0 (ask s (publish _)) _ (omega arith) (adds_ask s (publish _))
        (λ u. adds_republish runs)

  adds_repair : AddsAtMost 0 (repair_open_runs s rev spec)
  unfolding repair_open_runs
  adds_repair =
      adds_if 0 (not s.lists_open_runs) (pure tt) _ (λ e h. omega arith)
        λ e.
          adds_bind 0 0 0 (ask s (list_open_runs rev.source_uid)) _ (omega arith)
            (adds_ask s (list_open_runs rev.source_uid))
            λ u h. adds_republish (s.ledger.open_runs h) h

  adds_stored :
      (t created : ℕ) (new : Bool) (revision_id : ℕ) (over : Bool)
      → AddsAtMost 0 (publish_stored s rev spec t created new revision_id over)
  unfolding publish_stored
  adds_stored t created new revision_id over =
      adds_if 0 (not new && over) (pure created) _ (λ e h. omega arith)
        λ e.
          adds_bind 0 0 0 (ask s (publish _)) _ (omega arith) (adds_ask s (publish _))
            (λ u h. omega arith)

  adds_created : (t created : ℕ) → AddsAtMost 0 (publish_created s rev spec t created)
  unfolding publish_created
  adds_created t created h =
      adds_stored t created (s.ledger.is_new h) (s.ledger.stored_revision h)
        (Run.terminal (s.ledger.stored_phase h)) h

  adds_each : (ts : List ℕ) (created : ℕ) → AddsAtMost (length ts) (fire_each s rev spec ts created)
  unfolding fire_each
  adds_each [] created = λ h. omega arith
  adds_each (t ∷ ts) created =
      adds_bind 1 (length ts) (suc (length ts)) (ask s (create_occurrence _ _ _ _ _ _ _)) _
        (omega arith) (adds_ask s (create_occurrence _ _ _ _ _ _ _))
        (λ u.
          adds_bind 0 (length ts) (length ts) (publish_created s rev spec t created) _ (omega arith)
            (adds_created t created) (λ made. adds_each ts made))

  adds_counted : AddsAtMost 0 (concurrency_allows s rev.source_uid spec.concurrency)
  unfolding concurrency_allows
  adds_counted =
      adds_if 0 (always_allows spec.concurrency) (pure true) _ (λ e h. omega arith)
        λ e.
          adds_bind 0 0 0 (ask s (count_open_runs rev.source_uid)) _ (omega arith)
            (adds_ask s (count_open_runs rev.source_uid)) (λ u h. omega arith)

  adds_allowed : (ts : List ℕ) (b : Bool) → AddsAtMost (length ts) (fire_allowed s rev spec ts b)
  adds_allowed ts true = adds_each ts 0
  adds_allowed ts false = λ h. omega arith

  adds_due : (ts : List ℕ) → AddsAtMost (length ts) (fire_due s rev spec ts)
  unfolding fire_due
  adds_due [] = λ h. omega arith
  adds_due (t ∷ ts) =
      adds_bind 0 (suc (length ts)) (suc (length ts))
        (concurrency_allows s rev.source_uid spec.concurrency) _ (omega arith) adds_counted
        (adds_allowed (t ∷ ts))

  abbrev pub limit : ℕ
  limit = if catches_up spec.misfire then catch_up_limit s.max_catch_up else 1

  adds_parsed :
      (o : Option (ℕ → Bool)) (now grace : ℕ)
      → AddsAtMost limit (fire_parsed s rev spec o now grace)
  unfolding fire_parsed
  adds_parsed none now grace = λ h. omega arith
  adds_parsed (some matches) now grace =
      adds_bind 0 (length due) limit (repair_open_runs s rev spec) _
        (omega (arith, length-select_occurrences matches spec.misfire now grace s.max_catch_up))
        adds_repair (λ u. adds_due due)
    where
      due : List ℕ
      due = select_occurrences matches spec.misfire now grace s.max_catch_up

  adds_decoded : (now grace : ℕ) → AddsAtMost limit (fire_decoded s rev (some spec) now grace)
  unfolding fire_decoded
  adds_decoded now grace =
      adds_if limit (spec.suspend || spec.expression == "") (pure 0) _ (λ e h. omega arith)
        λ e. adds_parsed (s.parse spec.expression) now grace

  -- One pass over a definition asks the ledger for at most one new run, and under the catch-up
  -- policy for at most as many as the scheduler may catch up.
  pub fire_definition_limited :
      (now grace : ℕ)
      → rev.spec ≡ some spec
      → creations (fire_definition s rev now grace []).1 ≤ limit
  unfolding fire_definition
  fire_definition_limited now grace e = decoded rev.spec e
    where
      decoded :
          (o : Option JobSpec)
          → o ≡ some spec
          → creations (fire_decoded s rev o now grace []).1 ≤ limit
      decoded o f = rw f (omega (arith, adds_decoded now grace []))

  -- Blocked by open runs: the policy counts them and there always are some.
  record Blocked : Type 0 where
    counts : always_allows spec.concurrency ≡ false
    some_open : (h : List FireEffect) → eqb (s.ledger.open_count h) 0 ≡ false

  adds_blocked_due : (ts : List ℕ) → Blocked → AddsAtMost 0 (fire_due s rev spec ts)
  unfolding fire_due concurrency_allows
  adds_blocked_due [] b h = omega arith
  adds_blocked_due (t ∷ ts) b h =
      ground (arith, b.counts, b.some_open (count_open_runs rev.source_uid ∷ h))

  adds_blocked_parsed :
      (o : Option (ℕ → Bool)) (now grace : ℕ)
      → Blocked
      → AddsAtMost 0 (fire_parsed s rev spec o now grace)
  unfolding fire_parsed
  adds_blocked_parsed none now grace b = λ h. omega arith
  adds_blocked_parsed (some matches) now grace b =
      adds_bind 0 0 0 (repair_open_runs s rev spec) _ (omega arith) adds_repair
        (λ u. adds_blocked_due _ b)

  adds_blocked : (now grace : ℕ) → Blocked → AddsAtMost 0 (fire_decoded s rev (some spec) now grace)
  unfolding fire_decoded
  adds_blocked now grace b =
      adds_if 0 (spec.suspend || spec.expression == "") (pure 0) _ (λ e h. omega arith)
        λ e. adds_blocked_parsed (s.parse spec.expression) now grace b

  -- While a definition has open runs, a policy other than `Allow` and the unset one creates none:
  -- if the ledger counts some whenever it is asked, a pass asks for no new run.
  pub fire_definition_blocked :
      (now grace : ℕ)
      → rev.spec ≡ some spec
      → always_allows spec.concurrency ≡ false
      → ((h : List FireEffect) → eqb (s.ledger.open_count h) 0 ≡ false)
      → creations (fire_definition s rev now grace []).1 ≡ 0
  unfolding fire_definition
  fire_definition_blocked now grace e p n =
      rw e (omega (arith, adds_blocked now grace (record { counts = p; some_open = n }) []))
