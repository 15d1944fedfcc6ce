-- ===== src/Workflow/Derive.antt =====
-- internal/core/domain/workflow/derive.go: the phase of a workflow run from its steps' facts.
pub mod Laws
use orbitjob.Prelude.{String, Bool, true, false, List, [], ◌∷◌, Option, none, some, if◌then◌else◌}
use orbitjob.Prelude.Assoc.{Assoc, lookup}
use orbitjob.Run.{Phase}
use orbitjob.Workflow.{WorkflowPhase, TaskDecision, StepState, Reason}

-- The four flags of the loop.
pub record Roll : Type 0 where
  pub unknown : Bool
  pub failed : Bool
  pub canceled : Bool
  pub accounted : Bool

-- The inner switch: a step in another phase changes no flag.
mark_step : Phase → Roll → Roll
mark_step Phase.cancel_unknown r = record r { unknown = true }
mark_step Phase.failed r = record r { failed = true }
mark_step Phase.canceled r = record r { canceled = true }
mark_step _ r = r

abbrev pub is_canceled_reason : Option Reason → Bool
is_canceled_reason (some Reason.canceled) = true
is_canceled_reason _ = false

-- The default case: a task with no step.
mark_decision : Option TaskDecision → Roll → Roll
mark_decision none r = record r { accounted = false }
mark_decision (some d) r =
    if d.skipped
    then if is_canceled_reason d.reason then record r { canceled = true } else r
    else record r { accounted = false }

pub mark : Assoc StepState → Assoc TaskDecision → String → Roll → Roll
unfolding mark_step mark_decision
mark steps decisions task r = elim (lookup task steps) [
  | some state ↦ mark_step state.phase r
  | none ↦ mark_decision (lookup task decisions) r
]

pub roll : Assoc StepState → Assoc TaskDecision → List String → Roll → Roll
roll steps decisions [] r = r
roll steps decisions (t ∷ ts) r = roll steps decisions ts (mark steps decisions t r)

verdict : Roll → WorkflowPhase × Bool
verdict r =
    if r.unknown
    then (WorkflowPhase.cancel_unknown, false)
    else if not_accounted r.accounted
    then (WorkflowPhase.running, false)
    else if r.failed
    then (WorkflowPhase.failed, true)
    else if r.canceled
    then (WorkflowPhase.canceled, true)
    else (WorkflowPhase.succeeded, true)
  where
    not_accounted : Bool → Bool
    not_accounted true = false
    not_accounted false = true

unfoldable pub derive_phase :
    List String → Assoc StepState → Assoc TaskDecision → WorkflowPhase × Bool
unfolding verdict
derive_phase tasks steps decisions = verdict (
    roll steps decisions tasks
      (record { unknown = false; failed = false; canceled = false; accounted = true }))
