-- ===== src/Schedule/Fire.antt =====
-- fireDefinition and what it calls: repairOpenRuns, concurrencyAllows, jobRunObject and actor. The
-- ledger, Kubernetes, the cron parser, the trimming of white space and the digest of an occurrence
-- are parameters; a definition that does not decode has no spec. The ledger's calls are made for one
-- tenant, the last whose revisions were listed. On an error the count of the runs so far, which no
-- caller reads, is dropped.
use orbitjob.Prelude.{
  ℕ, ◌+◌, String, Bool, true, false, not, ◌&&◌, ◌||◌, List, [], ◌∷◌, Option, none, some, ◌==◌, eqb,
  if◌then◌else◌,
}
use orbitjob.Prelude.Int.{ℤ, pos, ltb_ℤ}
use orbitjob.Trace
use orbitjob.Trace.{pure, throw, ◌>>=◌, ◌>>◌}
use orbitjob.Run.{Phase, Trigger, OpenRun}
use orbitjob.Run
use orbitjob.Walker.Sweep.{run_object_name}
use orbitjob.Schedule.{MisfirePolicy, select_occurrences}

pub data ConcurrencyPolicy : Type 0 where
  unset allow forbid replace : ConcurrencyPolicy
  other_concurrency : String → ConcurrencyPolicy

-- The fields of ScheduledJobSpec that the scheduler reads.
pub record JobSpec : Type 0 where
  pub suspend : Bool
  pub expression : String
  pub concurrency : ConcurrencyPolicy
  pub misfire : MisfirePolicy
  pub max_attempts : ℤ
  pub timeout_seconds : ℤ

pub record Revision : Type 0 where
  pub id : ℕ
  pub source_uid : String
  pub namespace : String
  pub name : String
  pub spec : Option JobSpec

-- What the scheduler puts in a JobRun object; its owner reference repeats the definition's name and
-- uid. The instant 0 is the absent annotation of a repaired run.
pub record RunObject : Type 0 where
  pub name : String
  pub namespace : String
  pub tenant_label : String
  pub definition_label : String
  pub scheduled_at : ℕ
  pub definition_name : String
  pub definition_uid : String
  pub definition_revision : ℕ
  pub trigger : Trigger
  pub actor : String
  pub occurrence_key : String
  pub timeout_seconds : ℤ

pub data FireEffect : Type 0 where
  list_revisions list_open_runs count_open_runs : String → FireEffect
  create_occurrence :
      (source_uid : String) (revision_id : ℕ) (occurrence_key : String)
      → Trigger
      → Phase
      → (max_attempts : ℤ) (actor : String) → FireEffect
  publish : RunObject → FireEffect

pub data FireError : Type 0 where
  undecodable_revision invalid_schedule : String → FireError
  refused : FireEffect → FireError

-- What the environment answers after the requests so far.
pub record Ledger : Type 0 where
  pub accepts : List FireEffect → FireEffect → Bool
  pub revisions : List FireEffect → List Revision
  pub open_runs : List FireEffect → List OpenRun
  pub open_count : List FireEffect → ℕ
  pub stored_revision : List FireEffect → ℕ
  pub stored_phase : List FireEffect → Phase
  pub is_new : List FireEffect → Bool

-- `lists_open_runs` is whether the recorder implements OpenRunLister.
pub record Scheduler : Type 0 where
  pub ledger : Ledger
  pub lists_open_runs : Bool
  pub configured_actor : String
  pub trim : String → String
  pub parse : String → Option (ℕ → Bool)
  pub occurrence_key : String → ℕ → ℕ → String
  pub max_catch_up : ℤ

abbrev pub F : Type 0 → Type 0
F = Trace.M FireError FireEffect

abbrev pub ask : Scheduler → FireEffect → F (Unit {0})
ask s e = Trace.request s.ledger.accepts refused e

abbrev pub actor_scheduler : String
actor_scheduler = "orbitjob-scheduler"

unfoldable pub scheduler_actor : Scheduler → String
scheduler_actor s = let v = s.trim s.configured_actor in if v == "" then actor_scheduler else v

unfoldable pub effective_max_attempts : ℤ → ℤ
effective_max_attempts n = if ltb_ℤ n (pos 1) then pos 1 else n

unfoldable pub job_run_object : Scheduler → Revision → JobSpec → ℕ → String → ℕ → RunObject
unfolding run_object_name scheduler_actor
job_run_object s rev spec revision_id key scheduled_at = record {
  name = run_object_name rev.name key;
  namespace = rev.namespace;
  tenant_label = rev.namespace;
  definition_label = rev.source_uid;
  scheduled_at = scheduled_at;
  definition_name = rev.name;
  definition_uid = rev.source_uid;
  definition_revision = revision_id;
  trigger = Trigger.schedule;
  actor = scheduler_actor s;
  occurrence_key = key;
  timeout_seconds = spec.timeout_seconds;
}

unfoldable pub republish : Scheduler → Revision → JobSpec → List OpenRun → F (Unit {0})
unfolding job_run_object
republish s rev spec [] = pure tt
republish s rev spec (run ∷ runs) =
    ask s (publish (job_run_object s rev spec run.revision_id run.occurrence_key 0))
    >> republish s rev spec runs

unfoldable pub repair_open_runs : Scheduler → Revision → JobSpec → F (Unit {0})
unfolding republish
repair_open_runs s rev spec =
    if not s.lists_open_runs
    then pure tt
    else ask s (list_open_runs rev.source_uid) >> λ h. republish s rev spec (s.ledger.open_runs h) h

abbrev pub always_allows : ConcurrencyPolicy → Bool
always_allows ConcurrencyPolicy.unset = true
always_allows ConcurrencyPolicy.allow = true
always_allows _ = false

unfoldable pub concurrency_allows : Scheduler → String → ConcurrencyPolicy → F Bool
concurrency_allows s source_uid policy =
    if always_allows policy
    then pure true
    else ask s (count_open_runs source_uid) >> λ h. pure (eqb (s.ledger.open_count h) 0) h

-- After the row: an object is published unless the run was there and is over.
unfoldable pub publish_stored :
    Scheduler
    → Revision
    → JobSpec
    → ℕ
    → ℕ
    → (is_new : Bool) → (revision_id : ℕ) → (over : Bool) → F ℕ
unfolding job_run_object
publish_stored s rev spec t created is_new revision_id over =
    if not is_new && over
    then pure created
    else ask s (
        publish
          (job_run_object s rev spec revision_id (s.occurrence_key rev.source_uid rev.id t) t))
      >> pure (if is_new then created + 1 else created)

unfoldable pub publish_created : Scheduler → Revision → JobSpec → ℕ → ℕ → F ℕ
unfolding Run.terminal publish_stored
publish_created s rev spec t created h =
    publish_stored s rev spec t created (s.ledger.is_new h) (s.ledger.stored_revision h)
      (Run.terminal (s.ledger.stored_phase h)) h

-- The loop over the occurrences.
unfoldable pub fire_each : Scheduler → Revision → JobSpec → List ℕ → ℕ → F ℕ
unfolding publish_created scheduler_actor effective_max_attempts
fire_each s rev spec [] created = pure created
fire_each s rev spec (t ∷ ts) created =
    ask s (
      create_occurrence rev.source_uid rev.id (s.occurrence_key rev.source_uid rev.id t)
        Trigger.schedule Phase.pending (effective_max_attempts spec.max_attempts)
        (scheduler_actor s))
    >> (publish_created s rev spec t created >>= λ made. fire_each s rev spec ts made)

abbrev pub fire_allowed : Scheduler → Revision → JobSpec → List ℕ → Bool → F ℕ
fire_allowed s rev spec due true = fire_each s rev spec due 0
fire_allowed s rev spec due false = pure 0

unfoldable pub fire_due : Scheduler → Revision → JobSpec → List ℕ → F ℕ
unfolding concurrency_allows fire_each
fire_due s rev spec [] = pure 0
fire_due s rev spec (t ∷ ts) =
    concurrency_allows s rev.source_uid spec.concurrency >>= fire_allowed s rev spec (t ∷ ts)

unfoldable pub fire_parsed : Scheduler → Revision → JobSpec → Option (ℕ → Bool) → ℕ → ℕ → F ℕ
unfolding repair_open_runs fire_due
fire_parsed s rev spec none now grace = throw (invalid_schedule rev.name)
fire_parsed s rev spec (some matches) now grace =
    repair_open_runs s rev spec
    >> fire_due s rev spec (select_occurrences matches spec.misfire now grace s.max_catch_up)

unfoldable pub fire_decoded : Scheduler → Revision → Option JobSpec → ℕ → ℕ → F ℕ
unfolding fire_parsed
fire_decoded s rev none now grace = throw (undecodable_revision rev.name)
fire_decoded s rev (some spec) now grace =
    if spec.suspend || spec.expression == ""
    then pure 0
    else fire_parsed s rev spec (s.parse spec.expression) now grace

unfoldable pub fire_definition : Scheduler → Revision → ℕ → ℕ → F ℕ
unfolding fire_decoded
fire_definition s rev now grace = fire_decoded s rev rev.spec now grace
