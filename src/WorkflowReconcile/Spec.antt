-- ===== src/WorkflowReconcile/Spec.antt =====
-- The objects, the rows and the calls of internal/operator/workflow.go: the specs of
-- api/kubernetes/workloads/v1alpha1/types.go with DAGFromSpec of internal/core/domain/workflow/dag.go,
-- and the environment that answers a call from the calls so far.
use orbitjob.Prelude.{ℕ, String, Bool, List, [], ◌∷◌, Option, ◌==◌, if◌then◌else◌}
use orbitjob.Prelude.Int.{ℤ}
use orbitjob.Trace
use orbitjob.Trace.{pure, throw, ◌>>=◌, ◌>>◌}
use orbitjob.Run.{Phase, Trigger}
use orbitjob.Workflow.{
  WorkflowPhase, fail_fast, continue, Reason, WorkflowRun, StepRun, Condition, Task, Dag,
}
use orbitjob.Workflow.Graph.{DagError}

-- WorkflowTaskSpec; its condition has the shape of the domain's, field by field.
pub record TaskSpec : Type 0 where
  pub name : String
  pub job_ref : String
  pub depends_on : List String
  pub condition : Option Condition

-- The fields of WorkflowJobSpec that the operator reads; the fail policy is its text.
pub record WorkflowSpec : Type 0 where
  pub fail_policy : String
  pub timeout_seconds : ℤ
  pub tasks : List TaskSpec

unfoldable pub tasks_from_spec : List TaskSpec → List Task
tasks_from_spec [] = []
tasks_from_spec (t ∷ ts) =
    (record { name = t.name; job_ref = t.job_ref; depends_on = t.depends_on; gate = t.condition })
    ∷ tasks_from_spec ts

unfoldable pub dag_from_spec : WorkflowSpec → Dag
unfolding tasks_from_spec
dag_from_spec spec = record {
  fail_policy = if spec.fail_policy == "Continue" then continue else fail_fast;
  timeout_seconds = spec.timeout_seconds;
  tasks = tasks_from_spec spec.tasks;
}

pub record RunSpec : Type 0 where
  pub workflow_name : String
  pub workflow_uid : String
  pub definition_revision : ℕ
  pub trigger : Trigger
  pub actor : String
  pub occurrence_key : String
  pub cancel_requested : Bool

-- A WorkflowRun object; a spec that is absent or does not decode is none.
pub record RunResource : Type 0 where
  pub name : String
  pub namespace : String
  pub spec : Option RunSpec

pub record PinnedWorkflow : Type 0 where
  pub id : ℕ
  pub source_uid : String
  pub declared : Option WorkflowSpec

-- The status of one task: its step's facts, or why it never ran.
pub record StepStatus : Type 0 where
  pub task : String
  pub phase : Option Phase
  pub attempt : ℤ
  pub occurrence_key : String
  pub skipped : Bool
  pub skip_reason : Option Reason

pub record RunStatus : Type 0 where
  pub phase : WorkflowPhase
  pub started_at : ℕ
  pub completed_at : Option ℕ
  pub steps : List StepStatus

pub data WorkflowCall : Type 0 where
  read_run : (source_uid occurrence_key : String) → WorkflowCall
  read_revision : ℕ → WorkflowCall
  create_run : WorkflowRun → WorkflowCall
  update_phase : (run : ℕ) → WorkflowPhase → WorkflowCall
  list_steps : (run : ℕ) → WorkflowCall
  patch_status : (namespace name : String) → RunStatus → WorkflowCall

-- A ledger call is made for a tenant, which is the empty text for the patch.
pub record TenantCall : Type 0 where
  pub tenant : String
  pub call : WorkflowCall

pub data WorkflowError : Type 0 where
  no_spec no_workflow_ref no_revision not_manual actor_required key_required : WorkflowError
  blank_actor no_tenant not_materialized foreign_revision undecodable_revision : WorkflowError
  bad_dag : DagError → WorkflowError
  refused : TenantCall → WorkflowError

pub record Env : Type 0 where
  pub accepts : List TenantCall → TenantCall → Bool
  pub found_run : List TenantCall → Option WorkflowRun
  pub revision : List TenantCall → PinnedWorkflow
  pub created_run : List TenantCall → WorkflowRun
  pub steps : List TenantCall → List StepRun

pub record Runtime : Type 0 where
  pub env : Env
  pub resolve : String → Option String
  pub trim : String → String
  pub digest : String → String

abbrev pub W : Type 0 → Type 0
W = Trace.M WorkflowError TenantCall

abbrev pub ask : Runtime → String → WorkflowCall → W (Unit {0})
ask rt tenant c = Trace.request rt.env.accepts refused (record { tenant = tenant; call = c })
