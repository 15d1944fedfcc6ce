-- ===== src/Walker/Effects.antt =====
-- The requests of a pass and the state of one: errors and the trace so far.
use orbitjob.Prelude.{ℕ, String, Bool, List}
use orbitjob.Prelude.Int.{ℤ}
use orbitjob.Prelude.Assoc.{Assoc}
use orbitjob.Trace
use orbitjob.Run.{Trigger}
use orbitjob.Workflow.{WorkflowPhase, TaskDecision}
use orbitjob.Workflow.Gate.{ConditionError}
use orbitjob.Workflow.Graph.{DagError}

-- The fields of the JobRun object that the walker chooses; labels, owner and reference repeat the
-- definition's name, namespace and uid.
pub record StepObject : Type 0 where
  pub name : String
  pub namespace : String
  pub definition_name : String
  pub definition_uid : String
  pub definition_revision : ℕ
  pub trigger : Trigger
  pub actor : String
  pub occurrence_key : String
  pub timeout_seconds : ℤ

pub data Effect : Type 0 where
  create_step :
      (task source_uid : String) (revision_id : ℕ) (occurrence_key : String)
      → (max_attempts : ℤ) (actor : String) → Effect
  publish : StepObject → Effect
  request_cancel : (namespace name : String) → Effect
  update_phase : WorkflowPhase → Assoc TaskDecision → Effect
  project_status : WorkflowPhase → Assoc TaskDecision → Effect

pub data WalkError : Type 0 where
  bad_dag : DagError → WalkError
  unknown_definition undecodable_definition unknown_task : String → WalkError
  bad_condition : ConditionError → WalkError
  refused : Effect → WalkError

-- What the environment answers to a request, given the requests before it.
pub record Oracle : Type 0 where
  pub accepts : List Effect → Effect → Bool
  pub changes : List Effect → Bool

abbrev pub M : Type 0 → Type 0
M = Trace.M WalkError Effect

abbrev pub emit : Oracle → Effect → M (Unit {0})
emit o e = Trace.request o.accepts refused e
