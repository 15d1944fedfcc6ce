-- ===== src/Walker/Advance.antt =====
-- advanceRun and pinnedDAG: the whole pass over one run.
use orbitjob.Prelude.{ℕ, ◌+◌, ◌*◌, Bool, true, false, ◌&&◌, ◌||◌, List, [], Option, none, some, ltb}
use orbitjob.Prelude.Int.{ℤ, pos, negsuc}
use orbitjob.Prelude.Result.{Result, ok, err}
use orbitjob.Workflow.{WorkflowPhase, FailPolicy, StepRun, Dag, WorkflowRun}
use orbitjob.Workflow.Graph.{DagError, validate_dag, topological_sort}
use orbitjob.Trace.{pure, throw, ◌>>=◌, ◌>>◌}
use orbitjob.Walker.Effects.{bad_dag, M}
use orbitjob.Walker.Facts.{
  Facts, by_key, step_state, collect_facts, dag_has_duration_rules, any_step_failed,
}
use orbitjob.Walker.Sweep.{Writer, View, step_key, sweep, sweep_stop_reason}
use orbitjob.Walker.Outcome.{record_outcome}

-- What a pass has read: the run, its pinned DAG as decoded, its steps, the timing reader if one is
-- wired, the clock in nanoseconds, and whether a projection is wired.
pub record Pass : Type 0 where
  pub writer : Writer
  pub run : WorkflowRun
  pub dag : Dag
  pub steps : List StepRun
  pub timing : Option (ℕ → Option ℤ)
  pub now : ℕ
  pub projects : Bool

abbrev is_stopping : WorkflowPhase → Bool
is_stopping WorkflowPhase.cancel_requested = true
is_stopping WorkflowPhase.cancel_unknown = true
is_stopping _ = false

unfoldable pub canceling : Pass → Bool
canceling p = is_stopping p.run.phase

abbrev is_fail_fast : FailPolicy → Bool
is_fail_fast FailPolicy.fail_fast = true
is_fail_fast _ = false

unfoldable pub fail_fast_tripped : Pass → Bool
unfolding any_step_failed
fail_fast_tripped p = is_fail_fast p.dag.fail_policy && any_step_failed p.steps

abbrev exceeded : ℤ → ℕ → ℕ → Bool
exceeded (pos seconds) created now = ltb 0 seconds && ltb (created + seconds * 1000000000) now
exceeded (negsuc _) created now = false

unfoldable pub deadline_passed : Pass → Bool
deadline_passed p = exceeded p.dag.timeout_seconds p.run.created_at p.now

abbrev pub has_reader : Option (ℕ → Option ℤ) → Bool
has_reader none = false
has_reader (some _) = true

abbrev pub reader_of : Option (ℕ → Option ℤ) → ℕ → Option ℤ
reader_of none id = none
reader_of (some f) id = f id

unfoldable pub step_facts : Pass → Facts
unfolding by_key collect_facts dag_has_duration_rules step_state step_key
step_facts p =
    collect_facts (step_key p.writer) (by_key p.steps [])
      (step_state (dag_has_duration_rules p.dag.tasks && has_reader p.timing) (reader_of p.timing))
      p.dag.tasks (record { step_by_task = []; states = [] })

unfoldable pub view_of : Pass → View
unfolding step_facts sweep_stop_reason canceling fail_fast_tripped deadline_passed
view_of p = record {
  tasks = p.dag.tasks;
  step_by_task = (step_facts p).step_by_task;
  states = (step_facts p).states;
  stored = p.run.task_decisions;
  stop = sweep_stop_reason (canceling p) (fail_fast_tripped p) (deadline_passed p);
}

abbrev pub lift : {A : Type 0} → Result DagError A → M A
lift (ok a) = pure a
lift (err e) = throw (bad_dag e)

unfoldable pub advance_run : Pass → M ℕ
unfolding view_of sweep record_outcome
advance_run p = do
  lift (validate_dag p.dag)
  order ← lift (topological_sort p.dag)
  swept ← sweep p.writer (view_of p) order [] 0
  record_outcome p.writer p.projects p.run p.dag.tasks p.steps (step_facts p).states swept.0 swept.1
      (canceling p || deadline_passed p)
  pure swept.1
