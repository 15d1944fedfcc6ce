-- ===== src/Reconcile/Drive.antt =====
-- ReconcileJobRun and materializeManualRun of runtime.go.
use orbitjob.Prelude.{
  ℕ, String, Bool, true, false, not, ◌||◌, Option, none, some, ◌==◌, if◌then◌else◌,
}
use orbitjob.Prelude.Int.{ℤ, pos}
use orbitjob.Prelude.Result.{Result, ok, err}
use orbitjob.Trace.{pure, throw, ◌>>=◌, ◌>>◌}
use orbitjob.Run
use orbitjob.Run.{
  Phase, creating_attempt, running, failed, Trigger, JobRun, Attempt, StoredRun, TransitionError,
  transition, is_cancel_requested, next_attempt, attempt_in_flight, can_start_attempt,
}
use orbitjob.Execution.{
  Identity, Template, Job, itoa, build_job, OwnershipError, validate_ownership,
}
use orbitjob.Schedule.Fire.{effective_max_attempts}
use orbitjob.Reconcile.{
  RunSpec, RunResource, Declared, PinnedRevision, ledger, cluster, read_run, read_revision,
  create_occurrence, create_attempt, ensure_job, Runtime, ReconcileError, no_spec, incomplete_spec,
  no_actor, no_tenant, foreign_revision, undecodable_revision, no_job_uid, not_owned, R, ask,
  unless, is_run_over, in_phase, write_run, patch_run_status,
}
use orbitjob.Reconcile.Outcomes.{record_outcome, record_function_outcome}
use orbitjob.Reconcile.Cancel.{with_phase, reconcile_cancellation}

-- jobRunSpecFromUnstructured
unfoldable pub decode_spec : Runtime → Option RunSpec → Result ReconcileError RunSpec
decode_spec rt none = err no_spec
decode_spec rt (some spec) =
    if spec.source_uid == "" || spec.occurrence_key == ""
    then err incomplete_spec
    else if rt.trim spec.actor == ""
    then err no_actor
    else ok spec

abbrev pub cr_first : Trigger → Bool
cr_first Trigger.manual = true
cr_first Trigger.function = true
cr_first _ = false

unfoldable pub materialize_declared :
    Runtime → String → RunSpec → Option Declared → R (Option StoredRun)
unfolding effective_max_attempts
materialize_declared rt tenant spec none = throw undecodable_revision
materialize_declared rt tenant spec (some declared) =
    ask rt (
      ledger tenant (
        create_occurrence spec.source_uid spec.definition_revision spec.occurrence_key spec.trigger
          (effective_max_attempts declared.max_attempts) spec.actor))
    >> λ h. pure (some (rt.env.created_run h)) h

-- The run is none when it is not the operator's to create.
unfoldable pub materialize_manual_run : Runtime → String → RunSpec → R (Option StoredRun)
unfolding materialize_declared
materialize_manual_run rt tenant spec =
    if not (cr_first spec.trigger)
    then pure none
    else ask rt (ledger tenant (read_revision spec.definition_revision)) >> λ h.
        (if not ((rt.env.revision h).source_uid == spec.source_uid)
            then throw foreign_revision
            else materialize_declared rt tenant spec (rt.env.revision h).declared)
          h

-- No attempt may start: the budget is spent.
unfoldable pub fail_run :
    Runtime → String → RunResource → StoredRun → Result TransitionError JobRun → R (Unit {0})
unfolding write_run record_outcome record_function_outcome patch_run_status
fail_run rt tenant obj s (err e) = pure tt
fail_run rt tenant obj s (ok run) = write_run rt tenant s.id run.phase s.attempt >>= λ changed.
    record_outcome rt tenant s.id run.phase changed
    >> (record_function_outcome rt tenant s.id run.phase changed
        >> patch_run_status rt obj (with_phase s run.phase))

abbrev pub new_attempt : Job → ℕ → ℕ → Attempt
new_attempt job number now = record {
  id = "";
  job_run_id = "";
  kubernetes_job_name = job.name;
  kubernetes_job_uid = job.uid;
  observed_resource_version = job.resource_version;
  number = pos number;
  phase = creating_attempt;
  started_at = now;
}

abbrev pub started : StoredRun → StoredRun
started s = record s { phase = running; attempt = next_attempt s }

-- The Job is there: its ownership, its uid, and the row.
unfoldable pub adopt_job :
    Runtime
    → String
    → RunResource
    → StoredRun
    → Option Job
    → Result OwnershipError (Unit {0})
    → R (Unit {0})
unfolding next_attempt patch_run_status
adopt_job rt tenant obj s _ (err e) = throw (not_owned e)
adopt_job rt tenant obj s none (ok u) = throw no_job_uid
adopt_job rt tenant obj s (some job) (ok u) = if job.uid == "" then throw no_job_uid else λ h.
    unless is_run_over
      (ask rt
        (ledger tenant
          (create_attempt s.id (new_attempt job (next_attempt s) (rt.env.now h)) running))
        h)
      λ v. patch_run_status rt obj (started s)

unfoldable pub attempt_identity : RunResource → PinnedRevision → StoredRun → Identity
unfolding itoa next_attempt
attempt_identity obj rev s = record {
  run_name = obj.name;
  run_uid = obj.uid;
  revision_id = itoa rev.id;
  attempt = next_attempt s;
}

abbrev pub template : Declared → ℤ → Template
template d timeout = record {
  image = d.image;
  command = d.command;
  args = d.args;
  backoff_limit = d.backoff_limit;
  active_deadline_seconds = timeout;
}

unfoldable pub start_declared :
    Runtime
    → String
    → RunResource
    → RunSpec
    → StoredRun
    → PinnedRevision
    → Option Declared
    → R (Unit {0})
unfolding attempt_identity build_job adopt_job validate_ownership
start_declared rt tenant obj spec s rev none = throw undecodable_revision
start_declared rt tenant obj spec s rev (some d) =
    ask rt (
      cluster obj.namespace (
        ensure_job (
          build_job rt.digest (attempt_identity obj rev s) obj.namespace
            (template d spec.timeout_seconds))))
    >> λ h.
        adopt_job rt tenant obj s (rt.env.ensured h)
          (validate_ownership (rt.env.ensured h) (attempt_identity obj rev s)) h

unfoldable pub start_next : Runtime → String → RunResource → RunSpec → StoredRun → R (Unit {0})
unfolding start_declared
start_next rt tenant obj spec s = ask rt (ledger tenant (read_revision s.revision_id)) >> λ h.
    start_declared rt tenant obj spec s (rt.env.revision h) (rt.env.revision h).declared h

-- The branches over a stored run, in the order of the code.
unfoldable pub drive_run : Runtime → String → RunResource → RunSpec → StoredRun → R (Unit {0})
unfolding Run.terminal attempt_in_flight can_start_attempt transition reconcile_cancellation
    fail_run start_next patch_run_status
drive_run rt tenant obj spec s =
    if Run.terminal s.phase
    then patch_run_status rt obj s
    else if is_cancel_requested s.phase || spec.cancel_requested
    then reconcile_cancellation rt tenant obj s
    else if attempt_in_flight s
    then patch_run_status rt obj s
    else if not (can_start_attempt s)
    then fail_run rt tenant obj s (transition (in_phase s.phase) failed)
    else start_next rt tenant obj spec s

unfoldable pub drive_found :
    Runtime → String → RunResource → RunSpec → Option StoredRun → R (Unit {0})
unfolding drive_run
drive_found rt tenant obj spec none = pure tt
drive_found rt tenant obj spec (some s) = drive_run rt tenant obj spec s

abbrev pub or_materialize : Runtime → String → RunSpec → Option StoredRun → R (Option StoredRun)
or_materialize rt tenant spec (some s) = pure (some s)
or_materialize rt tenant spec none = materialize_manual_run rt tenant spec

unfoldable pub reconcile_spec : Runtime → Option String → RunResource → RunSpec → R (Unit {0})
unfolding drive_found materialize_manual_run
reconcile_spec rt none obj spec = throw no_tenant
reconcile_spec rt (some tenant) obj spec =
    ask rt (ledger tenant (read_run spec.source_uid spec.occurrence_key))
    >> ((λ h. or_materialize rt tenant spec (rt.env.found_run h) h)
        >>= drive_found rt tenant obj spec)

abbrev pub reconcile_decoded : Runtime → RunResource → Result ReconcileError RunSpec → R (Unit {0})
reconcile_decoded rt obj (err e) = throw e
reconcile_decoded rt obj (ok spec) = reconcile_spec rt (rt.resolve obj.namespace) obj spec

unfoldable pub reconcile_job_run : Runtime → RunResource → R (Unit {0})
unfolding decode_spec reconcile_spec
reconcile_job_run rt obj = reconcile_decoded rt obj (decode_spec rt obj.spec)
