-- ===== src/Check/Fire.antt =====
-- internal/core/app/checkschedule/scheduler.go: RunBatch, fireCheck, repairOpenRuns, jobRunObject and
-- nextRunAt, with ApplyCheck of the projection. The ledger, the cron parser, the digests and the
-- encoding of a spec are parameters. The use case is wired: the check for absent dependencies is not
-- modelled. On an error the count so far is dropped, as the callers do.
use orbitjob.Prelude.{
  ℕ, ◌+◌, ◌-◌, ◌*◌, String, Bool, not, ◌&&◌, List, [], ◌∷◌, Option, none, some, ◌==◌, if◌then◌else◌,
}
use orbitjob.Prelude.Int.{ℤ, pos, negsuc, ltb_ℤ}
use orbitjob.Prelude.Result.{Result, ok, err}
use orbitjob.Trace
use orbitjob.Trace.{pure, throw, ◌>>=◌, ◌>>◌}
use orbitjob.Run
use orbitjob.Run.{Phase, Trigger, OpenRun}
use orbitjob.Walker.Sweep.{run_object_name}
use orbitjob.Schedule.Fire.{RunObject}
use orbitjob.Check.{
  ScheduleType, cron, interval, Snapshot, check_source_uid, RevisionError, NewRevision,
  new_revision,
}
use orbitjob.Check.Probe.{CheckSpec, check_job_spec, next_ℤ}

pub record Scope : Type 0 where
  pub tenant : String
  pub namespace : String

pub data CheckCall : Type 0 where
  list_due : (limit : ℤ) → CheckCall
  list_open_runs : (source_uid : String) → CheckCall
  apply_revision : NewRevision → CheckCall
  create_occurrence :
      (source_uid : String) (revision_id : ℕ) (occurrence_key : String)
      → Trigger
      → Phase
      → (scheduled_for : ℕ) (max_attempts : ℤ) (actor : String) → CheckCall
  publish : RunObject → CheckCall
  update_next_run_at : (id next : ℕ) → CheckCall

pub data CheckError : Type 0 where
  tenant_required namespace_required invalid_probe no_next_run_at : CheckError
  bad_revision : RevisionError → CheckError
  refused : CheckCall → CheckError

-- What the environment answers after the calls so far; all calls are for the scope's tenant.
pub record Env : Type 0 where
  pub accepts : List CheckCall → CheckCall → Bool
  pub due : List CheckCall → List Snapshot
  pub open_runs : List CheckCall → List OpenRun
  pub revision_id : List CheckCall → ℕ
  pub stored_revision : List CheckCall → ℕ
  pub stored_phase : List CheckCall → Phase
  pub is_new : List CheckCall → Bool
  pub clock : List CheckCall → ℕ

-- `parse_cron` has the next activation after an instant, or none for a text that does not parse.
pub record UseCase : Type 0 where
  pub env : Env
  pub scope : Scope
  pub trim : String → String
  pub digest : String → String
  pub encode : CheckSpec → String
  pub parse_cron : String → Option (ℕ → ℕ)
  pub occurrence_key : String → ℕ → ℕ → String

abbrev pub C : Type 0 → Type 0
C = Trace.M CheckError CheckCall

abbrev pub ask : UseCase → CheckCall → C (Unit {0})
ask u c = Trace.request u.env.accepts refused c

abbrev pub actor_check_scheduler : String
actor_check_scheduler = "orbitjob-check-scheduler"

abbrev pub second : ℕ
second = 1000000000

-- now.Add(n * time.Second)
abbrev pub after_seconds : ℕ → ℤ → ℕ
after_seconds now (pos n) = now + n * second
after_seconds now (negsuc n) = now - (n + 1) * second

abbrev pub next_parsed : Option (ℕ → ℕ) → ℕ → ℕ
next_parsed none now = now + 60 * second
next_parsed (some next) now = next now

abbrev pub next_of : (String → Option (ℕ → ℕ)) → ScheduleType → Option String → Option ℤ → ℕ → ℕ
next_of parse cron (some e) seconds now = next_parsed (parse e) now
next_of parse interval e (some n) now = after_seconds now n
next_of parse _ e seconds now = now + 60 * second

unfoldable pub next_run_at : UseCase → Snapshot → ℕ → ℕ
next_run_at u c now = next_of u.parse_cron c.schedule_type c.cron_expr c.interval_sec now

-- The object of a check's run: it has no owner reference and no timeout of its own.
unfoldable pub job_run_object : UseCase → String → ℕ → String → ℕ → RunObject
unfolding run_object_name
job_run_object u uid revision_id key scheduled_at = record {
  name = run_object_name uid key;
  namespace = u.scope.namespace;
  tenant_label = u.scope.namespace;
  definition_label = uid;
  scheduled_at = scheduled_at;
  definition_name = uid;
  definition_uid = uid;
  definition_revision = revision_id;
  trigger = Trigger.check;
  actor = actor_check_scheduler;
  occurrence_key = key;
  timeout_seconds = pos 0;
}

unfoldable pub republish : UseCase → String → List OpenRun → C (Unit {0})
unfolding job_run_object
republish u uid [] = pure tt
republish u uid (run ∷ runs) =
    ask u (publish (job_run_object u uid run.revision_id run.occurrence_key run.scheduled_for))
    >> republish u uid runs

unfoldable pub repair_open_runs : UseCase → String → C (Unit {0})
unfolding republish
repair_open_runs u uid = ask u (list_open_runs uid) >> λ h. republish u uid (u.env.open_runs h) h

abbrev pub apply_new : UseCase → Result RevisionError NewRevision → C ℕ
apply_new u (err e) = throw (bad_revision e)
apply_new u (ok rev) = ask u (apply_revision rev) >> λ h. pure (u.env.revision_id h) h

abbrev pub apply_spec : UseCase → Snapshot → Option CheckSpec → C ℕ
apply_spec u c none = throw invalid_probe
apply_spec u c (some spec) = λ h.
    apply_new u
      (new_revision u.trim u.digest
        (record {
          source_mode = "check";
          source_uid = check_source_uid c.id;
          namespace = u.scope.namespace;
          name = check_source_uid c.id;
        })
        c.version (u.encode spec) actor_check_scheduler c.resource_group_id (u.env.clock h))
      h

unfoldable pub apply_check : UseCase → Snapshot → C ℕ
unfolding check_source_uid new_revision check_job_spec
apply_check u c =
    if u.scope.tenant == ""
    then throw tenant_required
    else if u.scope.namespace == ""
    then throw namespace_required
    else apply_spec u c (check_job_spec c)

-- The row is there: the object is published unless the run is over, and the cursor moves last.
unfoldable pub publish_stored :
    UseCase
    → Snapshot
    → (now : ℕ) → (key : String) → (at : ℕ) → (is_new over : Bool) → (revision_id : ℕ) → C ℕ
unfolding job_run_object next_run_at check_source_uid
publish_stored u c now key at is_new over revision_id =
    if not is_new && over
    then pure 0
    else ask u (publish (job_run_object u (check_source_uid c.id) revision_id key at))
      >> (ask u (update_next_run_at c.id (next_run_at u c now)) >> pure (if is_new then 1 else 0))

unfoldable pub fire_occurrence : UseCase → Snapshot → ℕ → Option ℕ → ℕ → C ℕ
unfolding publish_stored Run.terminal check_source_uid
fire_occurrence u c now none revision_id = throw no_next_run_at
fire_occurrence u c now (some at) revision_id =
    let key = u.occurrence_key (check_source_uid c.id) revision_id at in
    ask u (
      create_occurrence (check_source_uid c.id) revision_id key Trigger.check Phase.pending at
        (next_ℤ c.retry_limit) actor_check_scheduler)
    >> λ h.
        publish_stored u c now key at (u.env.is_new h) (Run.terminal (u.env.stored_phase h))
          (u.env.stored_revision h) h

unfoldable pub fire_check : UseCase → Snapshot → ℕ → C ℕ
unfolding repair_open_runs apply_check fire_occurrence check_source_uid
fire_check u c now =
    repair_open_runs u (check_source_uid c.id)
    >> (apply_check u c >>= fire_occurrence u c now c.next_run_at)

-- The count after a check: an error adds nothing and does not spread.
abbrev pub absorb :
    Result CheckError ℕ × List CheckCall → ℕ → (ℕ → C ℕ) → Result CheckError ℕ × List CheckCall
absorb (ok n, h) created next = next (created + n) h
absorb (err e, h) created next = next created h

unfoldable pub fire_each : UseCase → List Snapshot → ℕ → ℕ → C ℕ
unfolding fire_check
fire_each u [] now created = pure created
fire_each u (c ∷ cs) now created = λ h. absorb (fire_check u c now h) created (fire_each u cs now)

-- A limit below 1 is 50.
abbrev pub effective_limit : ℤ → ℤ
effective_limit n = if ltb_ℤ n (pos 1) then pos 50 else n

unfoldable pub run_batch : UseCase → ℤ → C ℕ
unfolding fire_each
run_batch u limit h =
    (ask u (list_due (effective_limit limit)) >> λ g. fire_each u (u.env.due g) (u.env.clock h) 0 g)
      h
