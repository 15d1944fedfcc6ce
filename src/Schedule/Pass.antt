-- ===== src/Schedule/Pass.antt =====
-- What fireDefinition may ask for: which runs it creates, how many, and when none.
use orbitjob.Prelude.{
  ℕ, ◌-◌, ◌%◌, ◌≤◌, ◌≡◌, refl, Bool, true, false, not, ◌&&◌, ◌||◌, List, [], ◌∷◌, Option, none,
  some, arith, inl, inr, All, ◌==◌, eqb_iff, Bool-cases,
}
use orbitjob.Prelude.Int.{ℤ, pos, ltb_ℤ}
use orbitjob.Trace.{Keeps, Keeps-request, Keeps-bind, Keeps-if, pure}
use orbitjob.Run
use orbitjob.Run.{Phase, Trigger, OpenRun}
use orbitjob.Schedule.{minute, truncate, select_occurrences}
use orbitjob.Schedule.Window.{member}
use orbitjob.Schedule.Choice.{select_occurrences_due}
use orbitjob.Schedule.Fire.{
  always_allows, JobSpec, Revision, FireEffect, create_occurrence, publish, list_open_runs,
  count_open_runs, refused, Scheduler, ask, scheduler_actor, effective_max_attempts, republish,
  repair_open_runs, concurrency_allows, publish_stored, publish_created, fire_each, fire_allowed,
  fire_due, fire_parsed, fire_decoded, fire_definition,
}

module _ (P : FireEffect → Type 0) (s : Scheduler) where
  pub Keeps-ask : (e : FireEffect) → P e → Keeps P (ask s e)
  Keeps-ask e p = Keeps-request P s.ledger.accepts refused e p

  Keeps-republish :
      (rev : Revision) (spec : JobSpec) (runs : List OpenRun)
      → ((o : _) → P (publish o))
      → Keeps P (republish s rev spec runs)
  unfolding republish
  Keeps-republish rev spec [] p = λ h q. q
  Keeps-republish rev spec (run ∷ runs) p =
      Keeps-bind P (ask s _) _ (Keeps-ask _ (p _)) (λ u. Keeps-republish rev spec runs p)

  Keeps-repair :
      (rev : Revision) (spec : JobSpec)
      → P (list_open_runs rev.source_uid)
      → ((o : _) → P (publish o))
      → Keeps P (repair_open_runs s rev spec)
  unfolding repair_open_runs
  Keeps-repair rev spec l p =
      Keeps-if P (not s.lists_open_runs) (pure tt) _ (λ e h q. q)
        λ e.
          Keeps-bind P (ask s (list_open_runs rev.source_uid)) _ (Keeps-ask _ l)
            λ u h q. Keeps-republish rev spec (s.ledger.open_runs h) p h q

  Keeps-publish_stored :
      (rev : Revision) (spec : JobSpec) (t created : ℕ) (new : Bool) (revision_id : ℕ) (over : Bool)
      → ((o : _) → P (publish o))
      → Keeps P (publish_stored s rev spec t created new revision_id over)
  unfolding publish_stored
  Keeps-publish_stored rev spec t created new revision_id over p =
      Keeps-if P (not new && over) (pure created) _ (λ e h q. q)
        (λ e. Keeps-bind P (ask s _) _ (Keeps-ask _ (p _)) (λ u h q. q))

  Keeps-publish_created :
      (rev : Revision) (spec : JobSpec) (t created : ℕ)
      → ((o : _) → P (publish o))
      → Keeps P (publish_created s rev spec t created)
  unfolding publish_created
  Keeps-publish_created rev spec t created p h q =
      Keeps-publish_stored rev spec t created (s.ledger.is_new h) (s.ledger.stored_revision h)
        (Run.terminal (s.ledger.stored_phase h)) p h q

  abbrev pub Creates : Revision → JobSpec → ℕ → Type 0
  Creates rev spec t = P (
      create_occurrence rev.source_uid rev.id (s.occurrence_key rev.source_uid rev.id t)
        Trigger.schedule Phase.pending (effective_max_attempts spec.max_attempts)
        (scheduler_actor s))

  Keeps-fire_each :
      (rev : Revision) (spec : JobSpec) (ts : List ℕ) (created : ℕ)
      → ((t : ℕ) → member t ts ≡ true → Creates rev spec t)
      → ((o : _) → P (publish o))
      → Keeps P (fire_each s rev spec ts created)
  unfolding fire_each
  Keeps-fire_each rev spec [] created k p = λ h q. q
  Keeps-fire_each rev spec (t ∷ ts) created k p =
      Keeps-bind P (ask s _) _ (Keeps-ask _ (k t (ground (arith, eqb_iff t t)))) λ u.
        Keeps-bind P (publish_created s rev spec t created) _
          (Keeps-publish_created rev spec t created p)
          λ made. Keeps-fire_each rev spec ts made (λ v m. k v (ground arith)) p

  Keeps-fire_due :
      (rev : Revision) (spec : JobSpec) (ts : List ℕ)
      → ((t : ℕ) → member t ts ≡ true → Creates rev spec t)
      → ((o : _) → P (publish o))
      → P (count_open_runs rev.source_uid)
      → Keeps P (fire_due s rev spec ts)
  unfolding fire_due concurrency_allows
  Keeps-fire_due rev spec [] k p c = λ h q. q
  Keeps-fire_due rev spec (t ∷ ts) k p c =
      Keeps-bind P (concurrency_allows s rev.source_uid spec.concurrency) _ counted allowed
    where
      counted : Keeps P (concurrency_allows s rev.source_uid spec.concurrency)
      counted =
          Keeps-if P (always_allows spec.concurrency) (pure true) _ (λ e h q. q)
            λ e.
              Keeps-bind P (ask s (count_open_runs rev.source_uid)) _ (Keeps-ask _ c) (λ u h q. q)

      allowed : (b : Bool) → Keeps P (fire_allowed s rev spec (t ∷ ts) b)
      allowed true = Keeps-fire_each rev spec (t ∷ ts) 0 k p
      allowed false = λ h q. q

  pub Keeps-fire_definition :
      (rev : Revision) (now grace : ℕ)
      → ((spec : JobSpec) (matches : ℕ → Bool) (t : ℕ)
          → rev.spec ≡ some spec
          → (spec.suspend || spec.expression == "") ≡ false
          → s.parse spec.expression ≡ some matches
          → member t (select_occurrences matches spec.misfire now grace s.max_catch_up) ≡ true
          → Creates rev spec t)
      → ((o : _) → P (publish o))
      → P (count_open_runs rev.source_uid)
      → P (list_open_runs rev.source_uid)
      → Keeps P (fire_definition s rev now grace)
  unfolding fire_definition fire_decoded fire_parsed
  Keeps-fire_definition rev now grace k p c l = decoded rev.spec refl
    where
      parsed :
          (spec : JobSpec) (o : Option (ℕ → Bool))
          → rev.spec ≡ some spec
          → (spec.suspend || spec.expression == "") ≡ false
          → s.parse spec.expression ≡ o
          → Keeps P (fire_parsed s rev spec o now grace)
      parsed spec none e a f = λ h q. q
      parsed spec (some matches) e a f =
          Keeps-bind P (repair_open_runs s rev spec) _ (Keeps-repair rev spec l p)
            λ u. Keeps-fire_due rev spec _ (λ t m. k spec matches t e a f m) p c

      decoded : (o : Option JobSpec) → rev.spec ≡ o → Keeps P (fire_decoded s rev o now grace)
      decoded none e = λ h q. q
      decoded (some spec) e =
          Keeps-if P (spec.suspend || spec.expression == "") (pure 0) _ (λ a h q. q)
            λ a. parsed spec (s.parse spec.expression) e a refl

-- A new run belongs to a definition that decodes, is not suspended and has a schedule that parses;
-- it stands for an instant that is due, under that instant's own key and the revision that was read,
-- pending, with at least one attempt and a named actor.
abbrev pub Due : Scheduler → Revision → ℕ → ℕ → FireEffect → Type 0
Due s rev now grace (create_occurrence uid revision key trigger phase attempts actor) =
    (spec : JobSpec) × (matches : ℕ → Bool) × (t : ℕ) × (rev.spec ≡ some spec)
    × (spec.suspend ≡ false)
    × (s.parse spec.expression ≡ some matches)
    × (matches t ≡ true)
    × (t % minute ≡ 0)
    × (truncate (now - grace) ≤ t)
    × (t ≤ now)
    × (uid ≡ rev.source_uid)
    × (revision ≡ rev.id)
    × (key ≡ s.occurrence_key rev.source_uid rev.id t)
    × (phase ≡ Phase.pending)
    × (ltb_ℤ attempts (pos 1) ≡ false)
    × ((actor == "") ≡ false)
Due s rev now grace _ = Unit

actor_named : (s : Scheduler) → (scheduler_actor s == "") ≡ false
unfolding scheduler_actor
actor_named s = elim (Bool-cases (s.trim s.configured_actor == "")) [
  | inl e ↦ rw e refl
  | inr n ↦ rw n n
]

pub attempts_positive : (n : ℤ) → ltb_ℤ (effective_max_attempts n) (pos 1) ≡ false
unfolding effective_max_attempts
attempts_positive n = elim (Bool-cases (ltb_ℤ n (pos 1))) [ inl e ↦ rw e refl | inr k ↦ rw k k ]

-- What holds of the due requests holds of all that a pass makes.
pub Keeps-fire :
    (P : FireEffect → Type 0) (s : Scheduler) (rev : Revision) (now grace : ℕ)
    → ((e : FireEffect) → Due s rev now grace e → P e)
    → Keeps P (fire_definition s rev now grace)
Keeps-fire P s rev now grace k =
    Keeps-fire_definition P s rev now grace
      (λ spec matches t e a f m.
        let due = select_occurrences_due matches spec.misfire now grace s.max_catch_up t m in
        k _ (
          spec,
          matches,
          t,
          e,
          ground arith,
          f,
          due.0,
          due.1,
          due.2,
          due.3,
          refl,
          refl,
          refl,
          refl,
          attempts_positive spec.max_attempts,
          actor_named s,
        ))
      (λ o. k (publish o) tt) (k (count_open_runs rev.source_uid) tt)
      (k (list_open_runs rev.source_uid) tt)

-- Whatever the ledger and Kubernetes answer, a pass over a definition creates runs only for due
-- instants of a live schedule: the definition decodes and is not suspended, its schedule parses and
-- matches the instant, which is a whole minute within the lookback and not after now; the run is
-- filed under that instant's key and the revision read, pending, with at least one attempt and an
-- actor that is not blank.
pub fire_definition-Due :
    (s : Scheduler) (rev : Revision) (now grace : ℕ)
    → All (Due s rev now grace) (fire_definition s rev now grace []).1
fire_definition-Due s rev now grace =
    Keeps-fire (Due s rev now grace) s rev now grace (λ e d. d) [] tt
