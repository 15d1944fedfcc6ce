-- ===== src/Walker/Sweep.antt =====
-- The sweep over the tasks in topological order: advanceRun's loop, sweepStopReason,
-- dependenciesResolved, taskSkipReason, createStep and stepObject; RunObjectName is that of
-- api/kubernetes/workloads/v1alpha1/naming.go.
use Prim.Native.String.{◌++◌ as str_append}
use orbitjob.Prelude.{
  ℕ, zero, suc, ◌+◌, String, Bool, true, false, not, List, [], ◌∷◌, Option, none, some, ◌==◌,
  if◌then◌else◌,
}
use orbitjob.Prelude.Assoc.{Assoc, lookup, insert, is_some}
use orbitjob.Prelude.Result.{Result, ok, err}
use orbitjob.Run.{Trigger}
use orbitjob.Workflow.{StepRun, StepState, TaskDecision, Reason, Task}
use orbitjob.Workflow.Gate.{evaluate_condition}
use orbitjob.Trace.{pure, throw, ◌>>◌}
use orbitjob.Walker.Effects.{
  create_step, publish, StepObject, WalkError, unknown_definition, undecodable_definition,
  bad_condition, Oracle, M, emit,
}
use orbitjob.Walker.Facts.{Spec, Definition, step_occurrence_key, dag_task}

unfoldable pub sweep_stop_reason : Bool → Bool → Bool → Option Reason
sweep_stop_reason canceling fail_fast_tripped deadline_passed =
    if canceling
    then some Reason.canceled
    else if fail_fast_tripped
    then some Reason.fail_fast
    else if deadline_passed
    then some Reason.deadline
    else none

abbrev pub is_skip : Option TaskDecision → Bool
is_skip none = false
is_skip (some d) = d.skipped

unfoldable pub dependencies_resolved :
    List String → Assoc StepState → Assoc TaskDecision → Assoc TaskDecision → Bool
dependencies_resolved [] states stored passed = true
dependencies_resolved (d ∷ ds) states stored passed =
    let rest = dependencies_resolved ds states stored passed in
    if is_some (lookup d states)
    then rest
    else if is_skip (lookup d stored)
    then rest
    else if is_some (lookup d passed)
    then rest
    else false

-- The loop of taskSkipReason: whether a dependency was skipped.
unfoldable pub depends_on_skipped :
    List String → Assoc StepState → Assoc TaskDecision → Assoc TaskDecision → Bool
depends_on_skipped [] states stored passed = false
depends_on_skipped (d ∷ ds) states stored passed =
    let rest = depends_on_skipped ds states stored passed in
    if is_some (lookup d states)
    then rest
    else if is_skip (lookup d stored)
    then true
    else if is_some (lookup d passed)
    then true
    else rest

-- An absent condition needs no call: `evaluate_condition none` passes.
unfoldable pub task_skip_reason :
    Task
    → Assoc StepState
    → Assoc TaskDecision
    → Assoc TaskDecision
    → Result WalkError (Option Reason)
unfolding depends_on_skipped
task_skip_reason task states stored passed =
    if depends_on_skipped task.depends_on states stored passed
    then ok (some Reason.condition)
    else elim (evaluate_condition task.gate states) [
      | err e ↦ err (bad_condition e)
      | ok true ↦ ok none
      | ok false ↦ ok (some Reason.condition)
    ]

-- What the body of the loop does with one task.
pub data Verdict : Type 0 where
  settled waits : Verdict
  skips : Reason → Verdict
  runs : Task → Verdict
  fails : WalkError → Verdict

pub record View : Type 0 where
  pub tasks : List Task
  pub step_by_task : Assoc StepRun
  pub states : Assoc StepState
  pub stored : Assoc TaskDecision
  pub stop : Option Reason

unfoldable pub judge_ready : View → Assoc TaskDecision → Task → Verdict
unfolding dependencies_resolved task_skip_reason
judge_ready view passed task =
    if not (dependencies_resolved task.depends_on view.states view.stored passed)
    then waits
    else elim view.stop [
      | some reason ↦ skips reason
      | none ↦ elim (task_skip_reason task view.states view.stored passed) [
        | err e ↦ fails e
        | ok (some reason) ↦ skips reason
        | ok none ↦ runs task
      ]
    ]

unfoldable pub judge : View → Assoc TaskDecision → String → Verdict
unfolding judge_ready dag_task
judge view passed name =
    if is_some (lookup name view.step_by_task)
    then settled
    else if is_some (lookup name view.stored)
    then settled
    else elim (dag_task view.tasks name) [
      | err e ↦ fails e
      | ok task ↦ judge_ready view passed task
    ]

-- The first eight characters; an occurrence key is ASCII.
unfoldable pub shorten : ℕ → String → String
shorten zero s = String.[]
shorten (suc n) String.[] = String.[]
shorten (suc n) (String.◌∷◌ c s) = String.◌∷◌ c (shorten n s)

unfoldable pub run_object_name : String → String → String
unfolding shorten
run_object_name definition key =
    let suffix = shorten 8 key in
    str_append definition (str_append "-" (if suffix == "" then "unknown" else suffix))

-- What the writer of a step is given besides the task.
pub record Writer : Type 0 where
  pub oracle : Oracle
  pub digest : String → String
  pub actor : String
  pub index : Assoc Definition
  pub source_uid : String
  pub occurrence_key : String

unfoldable pub step_key : Writer → String → String
unfolding step_occurrence_key
step_key w task = step_occurrence_key w.digest w.source_uid w.occurrence_key task

unfoldable pub step_object : Writer → Definition → Spec → String → StepObject
unfolding run_object_name
step_object w d spec key = record {
  name = run_object_name d.name key;
  namespace = d.namespace;
  definition_name = d.name;
  definition_uid = d.source_uid;
  definition_revision = d.id;
  trigger = Trigger.workflow;
  actor = w.actor;
  occurrence_key = key;
  timeout_seconds = spec.timeout_seconds;
}

unfoldable pub write_step : Writer → Task → Definition → Spec → M (Unit {0})
unfolding step_key step_object
write_step w task d spec =
    emit w.oracle
      (create_step task.name d.source_uid d.id (step_key w task.name) spec.max_attempts w.actor)
    >> emit w.oracle (publish (step_object w d spec (step_key w task.name)))

-- A definition whose stored spec does not decode is an error.
unfoldable pub write_decoded : Writer → Task → Definition → Option Spec → M (Unit {0})
unfolding write_step
write_decoded w task d none = throw (undecodable_definition d.name)
write_decoded w task d (some spec) = write_step w task d spec

unfoldable pub write_found : Writer → Task → Option Definition → M (Unit {0})
unfolding write_decoded
write_found w task none = throw (unknown_definition task.job_ref)
write_found w task (some d) = write_decoded w task d d.spec

unfoldable pub create_step_of : Writer → Task → M (Unit {0})
unfolding write_found
create_step_of w task = write_found w task (lookup (str_append "name:" task.job_ref) w.index)

abbrev pub skip_for : Reason → TaskDecision
skip_for reason = record { skipped = true; reason = some reason }

unfoldable pub sweep :
    Writer → View → List String → Assoc TaskDecision → ℕ → M (Assoc TaskDecision × ℕ)
unfolding judge create_step_of
sweep w view [] passed created = pure (passed, created)
sweep w view (n ∷ ns) passed created = elim (judge view passed n) [
  | settled ↦ sweep w view ns passed created
  | waits ↦ sweep w view ns passed created
  | skips reason ↦ sweep w view ns (insert n (skip_for reason) passed) created
  | runs task ↦ create_step_of w task >> sweep w view ns passed (created + 1)
  | fails e ↦ throw e
]
