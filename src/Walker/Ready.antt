-- ===== src/Walker/Ready.antt =====
-- When the sweep runs a task (dependenciesResolved, taskSkipReason and the condition).

use orbitjob.Prelude.{◌≡◌, refl, String, true, false, List, [], ◌∷◌, none, arith, all, eq_iff}
use orbitjob.Prelude.Assoc.{Assoc, lookup, is_some}
use orbitjob.Prelude.Result.{Result, ok, err}
use orbitjob.Workflow.{TaskDecision, StepState, Task}
use orbitjob.Workflow.Gate.{evaluate_condition}
use orbitjob.Walker.Effects.{WalkError}
use orbitjob.Walker.Facts.{dag_task}
use orbitjob.Walker.Sweep.{
  View, runs, judge, judge_ready, dependencies_resolved, depends_on_skipped,
}

-- A task is ready when it has neither a step nor a decision, each of its dependencies has a
-- resolved step, its condition passes on their states, and nothing stops the run.
pub record Ready (view : View) (t : Task) : Type 0 where
  pub declared : dag_task view.tasks t.name ≡ ok t
  pub no_step : is_some (lookup t.name view.step_by_task) ≡ false
  pub no_decision : is_some (lookup t.name view.stored) ≡ false
  pub upstream : all (λ d. is_some (lookup d view.states)) t.depends_on ≡ true
  pub gate_passes : evaluate_condition t.gate view.states ≡ ok true
  pub not_stopped : view.stop ≡ none

dag_task-name : (ts : List Task) (n : String) (t : Task) → dag_task ts n ≡ ok t → t.name ≡ n
unfolding dag_task
dag_task-name [] n t e = cc
dag_task-name (u ∷ ts) n t e = ground (arith, eq_iff u.name n, dag_task-name ts n t)

resolved_not_skipped :
    (ds : List String) (states : Assoc StepState) (stored passed : Assoc TaskDecision)
    → dependencies_resolved ds states stored passed ≡ true
    → depends_on_skipped ds states stored passed ≡ false
    → all (λ d. is_some (lookup d states)) ds ≡ true
unfolding dependencies_resolved depends_on_skipped
resolved_not_skipped [] states stored passed h k = refl
resolved_not_skipped (d ∷ ds) states stored passed h k =
    ground (arith, resolved_not_skipped ds states stored passed)

judge_ready-Ready :
    (view : View) (passed : Assoc TaskDecision) (t u : Task)
    → judge_ready view passed t ≡ runs u
    → (t ≡ u)
      × (all (λ d. is_some (lookup d view.states)) t.depends_on ≡ true)
      × (evaluate_condition t.gate view.states ≡ ok true)
      × (view.stop ≡ none)
unfolding judge_ready
judge_ready-Ready view passed t u e = (
  ground arith,
  ground (arith, resolved_not_skipped t.depends_on view.states view.stored passed),
  ground arith,
  ground arith,
)

pub judge-Ready :
    (view : View) (passed : Assoc TaskDecision) (n : String) (t : Task)
    → judge view passed n ≡ runs t
    → Ready view t
unfolding judge
judge-Ready view passed n t e = go (dag_task view.tasks n) refl
  where
    go : (r : Result WalkError Task) → dag_task view.tasks n ≡ r → Ready view t
    go (err x) f = ground (arith, f)
    go (ok u) f =
        let same : t.name ≡ n =
          ground (arith, f, dag_task-name view.tasks n u, judge_ready-Ready view passed u t) in
        record {
          declared = ground (arith, f, same, judge_ready-Ready view passed u t);
          no_step = ground (arith, f, same);
          no_decision = ground (arith, f, same);
          upstream = ground (arith, f, judge_ready-Ready view passed u t);
          gate_passes = ground (arith, f, judge_ready-Ready view passed u t);
          not_stopped = ground (arith, f, judge_ready-Ready view passed u t);
        }
