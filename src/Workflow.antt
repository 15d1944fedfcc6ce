-- ===== src/Workflow.antt =====
-- internal/core/domain/workflow: the pure view of a workflow execution (workflow.go). The `string`
-- types whose values come from a custom resource keep a constructor for a text that is none of the
-- constants; the phases and skip reasons are the closed sets that the program writes.
pub mod Gate
pub mod Derive
pub mod Graph
pub mod Tests
use orbitjob.Prelude.{ℕ, String, Bool, true, false, List, Option}
use orbitjob.Prelude.Int.{ℤ}
use orbitjob.Prelude.Assoc.{Assoc}
use orbitjob.Run.{Phase, Trigger}

pub data WorkflowPhase : Type 0 where
  pending running cancel_requested succeeded failed canceled cancel_unknown : WorkflowPhase

unfoldable pub terminal : WorkflowPhase → Bool
terminal WorkflowPhase.succeeded = true
terminal WorkflowPhase.failed = true
terminal WorkflowPhase.canceled = true
terminal _ = false

pub data FailPolicy : Type 0 where
  fail_fast continue : FailPolicy

pub data Reason : Type 0 where
  canceled fail_fast condition deadline : Reason

-- The empty reason of a decision that skips nothing is `none`.
pub record TaskDecision : Type 0 where
  pub skipped : Bool
  pub reason : Option Reason

pub record WorkflowRun : Type 0 where
  pub id : ℕ
  pub tenant_id : String
  pub source_uid : String
  pub revision_id : ℕ
  pub occurrence_key : String
  pub trigger : Trigger
  pub actor : String
  pub phase : WorkflowPhase
  pub task_decisions : Assoc TaskDecision
  pub created_at : ℕ
  pub updated_at : ℕ

pub record StepRun : Type 0 where
  pub id : ℕ
  pub workflow_run_id : ℕ
  pub source_uid : String
  pub revision_id : ℕ
  pub occurrence_key : String
  pub trigger : Trigger
  pub phase : Phase
  pub attempt : ℤ
  pub created_at : ℕ
  pub updated_at : ℕ

pub record StepState : Type 0 where
  pub phase : Phase
  pub attempt : ℤ
  pub duration_ms : ℤ

pub data ConditionType : Type 0 where
  every some_rule : ConditionType
  other_type : String → ConditionType

pub data Field : Type 0 where
  phase attempts duration_ms : Field
  other_field : String → Field

pub data Operator : Type 0 where
  eq ne one_of not_in lt le gt ge : Operator
  other_operator : String → Operator

pub record Rule : Type 0 where
  pub task : String
  pub field : Field
  pub operator : Operator
  pub values : List String
  pub number : Option ℤ

pub record Condition : Type 0 where
  pub type : ConditionType
  pub rules : List Rule

pub record Task : Type 0 where
  pub name : String
  pub job_ref : String
  pub depends_on : List String
  pub gate : Option Condition

pub record Dag : Type 0 where
  pub fail_policy : FailPolicy
  pub timeout_seconds : ℤ
  pub tasks : List Task
