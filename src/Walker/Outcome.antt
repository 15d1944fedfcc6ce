-- ===== src/Walker/Outcome.antt =====
-- recordOutcome and fanCancel: the stop request to the steps in flight, the phase of the run, and
-- the projection onto its custom resource.
use Prim.Native.String.{◌++◌ as str_append}
use orbitjob.Prelude.{
  ℕ, Bool, true, false, not, ◌&&◌, ◌||◌, List, [], ◌∷◌, Option, none, some, ltb, eqb, length,
  if◌then◌else◌,
}
use orbitjob.Prelude.Assoc.{Assoc, lookup}
use orbitjob.Workflow.{WorkflowPhase, StepRun, StepState, TaskDecision, Task, WorkflowRun}
use orbitjob.Workflow.Derive.{derive_phase}
use orbitjob.Trace.{pure, ◌>>◌}
use orbitjob.Walker.Effects.{request_cancel, update_phase, project_status, M, emit}
use orbitjob.Walker.Facts.{Definition, by_key, is_resolved, task_names, merge_decisions}
use orbitjob.Walker.Sweep.{Writer, step_key, run_object_name}

-- The step of a task that a stop request may reach.
unfoldable pub in_flight : Writer → Assoc StepRun → Task → Option StepRun
unfolding is_resolved step_key
in_flight w rows t = elim (lookup (step_key w t.name) rows) [
  | none ↦ none
  | some s ↦ if is_resolved s.phase then none else some s
]

-- A step whose definition is gone has nothing to patch.
unfoldable pub cancel_step : Writer → Task → Option StepRun → Option Definition → M (Unit {0})
unfolding run_object_name
cancel_step w t none d = pure tt
cancel_step w t (some s) none = pure tt
cancel_step w t (some s) (some d) =
    emit w.oracle (request_cancel d.namespace (run_object_name d.name (step_key w t.name)))

unfoldable pub fan_cancel : Writer → Assoc StepRun → List Task → M (Unit {0})
unfolding in_flight cancel_step
fan_cancel w rows [] = pure tt
fan_cancel w rows (t ∷ ts) =
    cancel_step w t (in_flight w rows t) (lookup (str_append "name:" t.job_ref) w.index)
    >> fan_cancel w rows ts

abbrev is_pending : WorkflowPhase → Bool
is_pending WorkflowPhase.pending = true
is_pending _ = false

abbrev is_cancel_unknown : WorkflowPhase → Bool
is_cancel_unknown WorkflowPhase.cancel_unknown = true
is_cancel_unknown _ = false

-- The switch of recordOutcome; `moved` is whether there are steps, decisions or new steps.
unfoldable pub next_phase : WorkflowPhase → WorkflowPhase × Bool → Bool → WorkflowPhase
next_phase now (phase, terminal) moved =
    if terminal
    then phase
    else if is_cancel_unknown phase
    then phase
    else if is_pending now && moved
    then WorkflowPhase.running
    else now

unfoldable pub same_phase : WorkflowPhase → WorkflowPhase → Bool
same_phase WorkflowPhase.pending WorkflowPhase.pending = true
same_phase WorkflowPhase.running WorkflowPhase.running = true
same_phase WorkflowPhase.cancel_requested WorkflowPhase.cancel_requested = true
same_phase WorkflowPhase.succeeded WorkflowPhase.succeeded = true
same_phase WorkflowPhase.failed WorkflowPhase.failed = true
same_phase WorkflowPhase.canceled WorkflowPhase.canceled = true
same_phase WorkflowPhase.cancel_unknown WorkflowPhase.cancel_unknown = true
same_phase _ _ = false

-- UpdatePhase answers whether it changed the row, when it does not fail.
unfoldable pub write_phase :
    Writer → Bool → WorkflowPhase → Assoc TaskDecision → Assoc TaskDecision → M (Unit {0})
write_phase w projects next decisions merged = emit w.oracle (update_phase next decisions) >> λ h.
    if not (w.oracle.changes h) && eqb (length decisions) 0
    then pure tt h
    else if not projects
    then pure tt h
    else emit w.oracle (project_status next merged) h

abbrev pub when : Bool → M (Unit {0}) → M (Unit {0})
when true m = m
when false m = pure tt

unfoldable pub record_outcome :
    Writer
    → Bool
    → WorkflowRun
    → List Task
    → List StepRun
    → Assoc StepState
    → Assoc TaskDecision
    → ℕ
    → Bool
    → M (Unit {0})
unfolding fan_cancel next_phase same_phase write_phase
record_outcome w projects run tasks steps states decisions created fans =
    when fans (fan_cancel w (by_key steps []) tasks)
    >> (let merged = merge_decisions run.task_decisions decisions in
        let moved = ltb 0 (length steps) || (ltb 0 (length decisions) || ltb 0 created) in
        let next = next_phase run.phase (derive_phase (task_names tasks) states merged) moved in
        if same_phase next run.phase && eqb (length decisions) 0
        then pure tt
        else write_phase w projects next decisions merged)
