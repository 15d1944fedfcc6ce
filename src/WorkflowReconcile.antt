-- ===== src/WorkflowReconcile.antt =====
-- internal/operator/workflow.go: the reconciliation of a WorkflowRun object (ReconcileWorkflowRun,
-- materializeWorkflowRun, workflowStatus) with WorkflowRunSpec.Validate. The ledger and the Kubernetes
-- API answer from an environment over the calls so far. The runtime is wired: the check for absent
-- dependencies is not modelled.
pub mod Spec
pub mod Status
pub mod Stored
pub mod Calls
pub mod Tests
use orbitjob.Prelude.{
  ℕ, String, Bool, true, false, not, ◌&&◌, ◌||◌, List, [], ◌∷◌, Option, none, some, ◌==◌, eqb, ltb,
  if◌then◌else◌,
}
use orbitjob.Prelude.Int.{ℤ}
use orbitjob.Prelude.Assoc.{Assoc, lookup}
use orbitjob.Prelude.Result.{Result, ok, err}
use orbitjob.Trace
use orbitjob.Trace.{pure, throw, ◌>>=◌, ◌>>◌}
use orbitjob.Run.{Phase, Trigger}
use orbitjob.Workflow
use orbitjob.Workflow.{
  WorkflowPhase, FailPolicy, fail_fast, continue, Reason, TaskDecision, WorkflowRun, StepRun,
  Condition, Task, Dag,
}
use orbitjob.Workflow.Graph.{DagError, validate_dag}
use orbitjob.Walker.Facts.{step_occurrence_key, by_key}
use orbitjob.WorkflowReconcile.Spec.{
  TaskSpec, WorkflowSpec, tasks_from_spec, dag_from_spec, RunSpec, RunResource, PinnedWorkflow,
  StepStatus, RunStatus, WorkflowCall, TenantCall, WorkflowError, Env, Runtime, W, ask, read_run,
  read_revision, create_run, update_phase, list_steps, patch_status, no_spec, no_workflow_ref,
  no_revision, not_manual, actor_required, key_required, blank_actor, no_tenant, not_materialized,
  foreign_revision, undecodable_revision, bad_dag, refused,
}

abbrev pub is_manual : Trigger → Bool
is_manual Trigger.manual = true
is_manual _ = false

-- WorkflowRunSpec.Validate
unfoldable pub validate_spec : RunSpec → Result WorkflowError (Unit {0})
validate_spec s =
    if s.workflow_name == "" || s.workflow_uid == ""
    then err no_workflow_ref
    else if ltb s.definition_revision 1
    then err no_revision
    else if not (is_manual s.trigger)
    then err not_manual
    else if s.actor == ""
    then err actor_required
    else if s.occurrence_key == ""
    then err key_required
    else ok tt

abbrev pub checked :
    Runtime → RunSpec → Result WorkflowError (Unit {0}) → Result WorkflowError RunSpec
checked rt s (err e) = err e
checked rt s (ok u) = if rt.trim s.actor == "" then err blank_actor else ok s

-- workflowRunSpecFromUnstructured
unfoldable pub decode_spec : Runtime → Option RunSpec → Result WorkflowError RunSpec
unfolding validate_spec
decode_spec rt none = err no_spec
decode_spec rt (some s) = checked rt s (validate_spec s)

-- A new row; the ledger fills in the rest, the tenant of the call included.
abbrev pub new_run : RunSpec → WorkflowRun
new_run spec = record {
  id = 0;
  tenant_id = "";
  source_uid = spec.workflow_uid;
  revision_id = spec.definition_revision;
  occurrence_key = spec.occurrence_key;
  trigger = Trigger.manual;
  actor = spec.actor;
  phase = WorkflowPhase.pending;
  task_decisions = [];
  created_at = 0;
  updated_at = 0;
}

abbrev pub create_valid :
    Runtime → String → RunSpec → Result DagError (Unit {0}) → W (Option WorkflowRun)
create_valid rt tenant spec (err e) = throw (bad_dag e)
create_valid rt tenant spec (ok u) =
    ask rt tenant (create_run (new_run spec)) >> λ h. pure (some (rt.env.created_run h)) h

abbrev pub create_declared :
    Runtime → String → RunSpec → Option WorkflowSpec → W (Option WorkflowRun)
create_declared rt tenant spec none = throw undecodable_revision
create_declared rt tenant spec (some d) =
    create_valid rt tenant spec (validate_dag (dag_from_spec d))

-- The run is none when it is not the operator's to create.
unfoldable pub materialize_workflow_run : Runtime → String → RunSpec → W (Option WorkflowRun)
unfolding dag_from_spec validate_dag
materialize_workflow_run rt tenant spec =
    if not (is_manual spec.trigger)
    then pure none
    else ask rt tenant (read_revision spec.definition_revision) >> λ h.
        (if not ((rt.env.revision h).source_uid == spec.workflow_uid)
            then throw foreign_revision
            else create_declared rt tenant spec (rt.env.revision h).declared)
          h

abbrev pub is_stopping : WorkflowPhase → Bool
is_stopping WorkflowPhase.cancel_requested = true
is_stopping WorkflowPhase.cancel_unknown = true
is_stopping _ = false

abbrev pub decided : Option TaskDecision → Option Reason
decided (some (d)) = if d.skipped then d.reason else none
decided none = none

abbrev pub is_skipped : Option TaskDecision → Bool
is_skipped (some d) = d.skipped
is_skipped none = false

-- One turn of the loop of workflowStatus.
unfoldable pub step_status : WorkflowRun → TaskSpec → String → Option StepRun → StepStatus
step_status row t key (some step) = record {
  task = t.name;
  phase = some step.phase;
  attempt = step.attempt;
  occurrence_key = key;
  skipped = false;
  skip_reason = none;
}
step_status row t key none = record {
  task = t.name;
  phase = none;
  attempt = orbitjob.Prelude.Int.pos 0;
  occurrence_key = key;
  skipped = is_skipped (lookup t.name row.task_decisions);
  skip_reason = decided (lookup t.name row.task_decisions);
}

unfoldable pub step_statuses :
    Runtime → WorkflowRun → Assoc StepRun → List TaskSpec → List StepStatus
unfolding step_status step_occurrence_key lookup
step_statuses rt row steps [] = []
step_statuses rt row steps (t ∷ ts) =
    let key = step_occurrence_key rt.digest row.source_uid row.occurrence_key t.name in
    step_status row t key (lookup key steps) ∷ step_statuses rt row steps ts

unfoldable pub status_of : Runtime → WorkflowRun → List StepRun → WorkflowSpec → RunStatus
unfolding step_statuses by_key Workflow.terminal
status_of rt row steps d = record {
  phase = row.phase;
  started_at = row.created_at;
  completed_at = if Workflow.terminal row.phase then some row.updated_at else none;
  steps = step_statuses rt row (by_key steps []) d.tasks;
}

abbrev pub patch_declared :
    Runtime → String → RunResource → WorkflowRun → Option WorkflowSpec → W (Unit {0})
patch_declared rt tenant obj row none = throw undecodable_revision
patch_declared rt tenant obj row (some d) = ask rt tenant (list_steps row.id) >> λ h.
    ask rt "" (patch_status obj.namespace obj.name (status_of rt row (rt.env.steps h) d)) h

-- workflowStatus and the patch of its result
unfoldable pub patch_workflow_status : Runtime → String → RunResource → WorkflowRun → W (Unit {0})
unfolding status_of
patch_workflow_status rt tenant obj row = ask rt tenant (read_revision row.revision_id) >> λ h.
    patch_declared rt tenant obj row (rt.env.revision h).declared h

-- The row carries the request to stop before anything else acts on the run.
unfoldable pub project_run : Runtime → String → RunResource → RunSpec → WorkflowRun → W (Unit {0})
unfolding patch_workflow_status Workflow.terminal
project_run rt tenant obj spec row =
    if spec.cancel_requested && (not (is_stopping row.phase) && not (Workflow.terminal row.phase))
    then ask rt tenant (update_phase row.id WorkflowPhase.cancel_requested)
      >> patch_workflow_status rt tenant obj (record row { phase = WorkflowPhase.cancel_requested })
    else patch_workflow_status rt tenant obj row

abbrev pub project_found :
    Runtime → String → RunResource → RunSpec → Option WorkflowRun → W (Unit {0})
project_found rt tenant obj spec none = throw not_materialized
project_found rt tenant obj spec (some row) = project_run rt tenant obj spec row

abbrev pub or_materialize : Runtime → String → RunSpec → Option WorkflowRun → W (Option WorkflowRun)
or_materialize rt tenant spec (some row) = pure (some row)
or_materialize rt tenant spec none = materialize_workflow_run rt tenant spec

abbrev pub reconcile_spec : Runtime → Option String → RunResource → RunSpec → W (Unit {0})
reconcile_spec rt none obj spec = throw no_tenant
reconcile_spec rt (some tenant) obj spec =
    ask rt tenant (read_run spec.workflow_uid spec.occurrence_key)
    >> ((λ h. or_materialize rt tenant spec (rt.env.found_run h) h)
        >>= project_found rt tenant obj spec)

abbrev pub reconcile_decoded : Runtime → RunResource → Result WorkflowError RunSpec → W (Unit {0})
reconcile_decoded rt obj (err e) = throw e
reconcile_decoded rt obj (ok spec) = reconcile_spec rt (rt.resolve obj.namespace) obj spec

unfoldable pub reconcile_workflow_run : Runtime → RunResource → W (Unit {0})
unfolding decode_spec materialize_workflow_run project_run
reconcile_workflow_run rt obj = reconcile_decoded rt obj (decode_spec rt obj.spec)
