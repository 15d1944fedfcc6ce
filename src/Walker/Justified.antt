-- ===== src/Walker/Justified.antt =====
-- What a pass may ask for: new steps, stop requests and phases.

use Prim.Native.String.{◌++◌ as str_append}
use orbitjob.Prelude.{
  ℕ, ◌≡◌, ◌≢◌, refl, String, Bool, true, false, ◌||◌, List, [], ◌∷◌, none, some, arith, All, all,
  contains,
}
use orbitjob.Prelude.Assoc.{Assoc, lookup, is_some}
use orbitjob.Prelude.Result.{Result, ok, err}
use orbitjob.Workflow.{TaskDecision, StepRun, Task}
use orbitjob.Workflow.Graph.{DagError, validate_dag, topological_sort}
use orbitjob.Trace.{Keeps, Keeps-bind}
use orbitjob.Walker.Effects.{
  Effect, create_step, publish, request_cancel, update_phase, project_status,
}
use orbitjob.Walker.Facts.{
  Spec, Definition, task_names, by_key, dag_task, is_resolved, merge_decisions,
}
use orbitjob.Walker.Sweep.{
  Writer, runs, judge, step_key, step_object, run_object_name, sweep, sweep_stop_reason,
}
use orbitjob.Walker.Outcome.{in_flight, record_outcome}
use orbitjob.Walker.Advance.{
  Pass, canceling, fail_fast_tripped, deadline_passed, step_facts, view_of, lift, advance_run,
}
use orbitjob.Walker.Steps.{is_over}
use orbitjob.Walker.Known.{task_step, states-is_over, step_by_task-none}
use orbitjob.Walker.Traces.{Creates, Cancels, Keeps-sweep, recorded, Keeps-record_outcome}
use orbitjob.Walker.Ready.{Ready, judge-Ready}

module _ (P : Effect → Type 0) (p : Pass) where
  Keeps-lift : {A : Type 0} (r : Result DagError A) → Keeps P (lift r)
  Keeps-lift (ok a) = λ h q. q
  Keeps-lift (err e) = λ h q. q

  pub Keeps-advance :
      ((passed : Assoc TaskDecision) (n : String) (t : Task)
        → judge (view_of p) passed n ≡ runs t
        → Creates P p.writer t)
      → ((canceling p || deadline_passed p) ≡ true
          → (t : Task) → Cancels P p.writer (by_key p.steps []) t)
      → ((decisions : Assoc TaskDecision) (created : ℕ)
          → let next =
              recorded P p.run p.dag.tasks p.steps (step_facts p).states decisions created in
            P (update_phase next decisions)
            × P (project_status next (merge_decisions p.run.task_decisions decisions)))
      → Keeps P (advance_run p)
  unfolding advance_run
  Keeps-advance creates cancels phases =
      Keeps-bind P (lift (validate_dag p.dag)) _ (Keeps-lift (validate_dag p.dag)) λ u.
        Keeps-bind P (lift (topological_sort p.dag)) _ (Keeps-lift (topological_sort p.dag))
          λ order.
            Keeps-bind P (sweep p.writer (view_of p) order [] 0) _
              (Keeps-sweep P p.writer (view_of p) order [] 0 creates)
              λ swept.
                Keeps-bind P
                  (record_outcome p.writer p.projects p.run p.dag.tasks p.steps
                    (step_facts p).states swept.0 swept.1 (canceling p || deadline_passed p))
                  _
                  (Keeps-record_outcome P p.writer p.projects p.run p.dag.tasks p.steps
                    (step_facts p).states swept.0 swept.1 (canceling p || deadline_passed p) cancels
                    (phases swept.0 swept.1).0 (phases swept.0 swept.1).1)
                  λ v h q. q

dag_task-contains :
    (ts : List Task) (n : String) (t : Task)
    → dag_task ts n ≡ ok t
    → contains (task_names ts) n ≡ true
unfolding dag_task task_names
dag_task-contains [] n t e = absurd (ground (arith, e))
dag_task-contains (u ∷ ts) n t e = ground (arith, dag_task-contains ts n t)

all_over :
    (p : Pass) (ds : List String)
    → all (λ d. is_some (lookup d (step_facts p).states)) ds ≡ true
    → all (λ d. is_over (task_step p d)) ds ≡ true
all_over p [] h = refl
all_over p (d ∷ ds) h = ground (arith, states-is_over p d, all_over p ds)

-- A pass may start a task by a definition: the task is ready, no step was read with its key, the
-- last step read of each of its dependencies is over, and the definition is one that `R` admits for
-- the task, with a spec that decodes.
pub record Start (R : Task → Definition → Type 0) (p : Pass) (t : Task) (d : Definition)
    (spec : Spec) : Type 0 where
  pub ready : Ready (view_of p) t
  pub unstarted : task_step p t.name ≡ none
  pub upstream_over : all (λ u. is_over (task_step p u)) t.depends_on ≡ true
  pub admitted : R t d
  pub decoded : d.spec ≡ some spec

judge-Start :
    (R : Task → Definition → Type 0) (p : Pass) (passed : Assoc TaskDecision) (n : String)
    (t : Task) (d : Definition) (spec : Spec)
    → judge (view_of p) passed n ≡ runs t
    → R t d
    → d.spec ≡ some spec
    → Start R p t d spec
judge-Start R p passed n t d spec e r f =
    let ready = judge-Ready (view_of p) passed n t e in
    record {
      ready = ready;
      unstarted =
          step_by_task-none p t.name
            (dag_task-contains p.dag.tasks t.name t (unfold view_of in ready.declared))
            (unfold view_of in ready.no_step);
      upstream_over = all_over p t.depends_on (unfold view_of in ready.upstream);
      admitted = r;
      decoded = f;
    }

-- A new step or a published object belongs to a task that the pass may start, under the task's own
-- key, and carries the identity of the definition that it is started by.
abbrev pub StartsReady : (Task → Definition → Type 0) → Pass → Effect → Type 0
StartsReady R p (create_step task uid revision key attempts actor) =
    (t : Task) × (d : Definition) × (spec : Spec) × Start R p t d spec
    × (task ≡ t.name)
    × (uid ≡ d.source_uid)
    × (revision ≡ d.id)
    × (key ≡ step_key p.writer t.name)
    × (attempts ≡ spec.max_attempts)
StartsReady R p (publish o) =
    (t : Task) × (d : Definition) × (spec : Spec) × Start R p t d spec
    × (o.definition_name ≡ d.name)
    × (o.definition_uid ≡ d.source_uid)
    × (o.definition_revision ≡ d.id)
    × (o.namespace ≡ d.namespace)
    × (o.occurrence_key ≡ step_key p.writer t.name)
StartsReady R p _ = Unit

-- Whatever fails on the way, a pass creates and publishes steps only for ready tasks: tasks of the
-- DAG with neither a step nor a stored decision, whose dependencies all have steps that are over,
-- whose condition passes on those, in a run that nothing stops; and each under its own occurrence
-- key, by a definition of the index that has the name that the task refers to.
pub advance_run-StartsReady :
    (R : Task → Definition → Type 0) (p : Pass)
    → ((t : Task) (d : Definition)
        → lookup (str_append "name:" t.job_ref) p.writer.index ≡ some d
        → R t d)
    → All (StartsReady R p) (advance_run p []).1
advance_run-StartsReady R p r =
    Keeps-advance (StartsReady R p) p
      (λ passed n t e d spec g f.
        let s = judge-Start R p passed n t d spec e (r t d g) f in
        (
          (t, d, spec, s, refl, refl, refl, refl, refl),
          unfold step_object in (t, d, spec, s, refl, refl, refl, refl, refl),
        ))
      (λ e t s d f. tt) (λ decisions created. (tt, tt)) [] tt

abbrev pub new_work : Effect → Bool
new_work (create_step task uid revision key attempts actor) = true
new_work (publish o) = true
new_work _ = false

none_new :
    (p : Pass) (es : List Effect)
    → (view_of p).stop ≢ none
    → All (StartsReady (λ t d. Unit) p) es
    → All (λ e. new_work e ≡ false) es
none_new p [] s h = tt
none_new p (create_step task uid revision key attempts actor ∷ es) s h =
    absurd (s h.0.3.ready.not_stopped)
none_new p (publish o ∷ es) s h = absurd (s h.0.3.ready.not_stopped)
none_new p (request_cancel ns name ∷ es) s h = (refl, none_new p es s h.1)
none_new p (update_phase ph ds ∷ es) s h = (refl, none_new p es s h.1)
none_new p (project_status ph ds ∷ es) s h = (refl, none_new p es s h.1)

-- A run that is being canceled, whose fail policy has tripped, or whose deadline has passed starts
-- no work: the pass makes no request to create or publish a step.
pub stopped_run_starts_nothing :
    (p : Pass)
    → (canceling p || (fail_fast_tripped p || deadline_passed p)) ≡ true
    → All (λ e. new_work e ≡ false) (advance_run p []).1
stopped_run_starts_nothing p h =
    none_new p (advance_run p []).1
      (unfold view_of in unfold sweep_stop_reason in (λ e. ground arith))
      (advance_run-StartsReady (λ t d. Unit) p (λ t d e. tt))

-- A stop request reaches a step in flight.
abbrev pub CancelsLive : Pass → Effect → Type 0
CancelsLive p (request_cancel namespace name) =
    ((canceling p || deadline_passed p) ≡ true)
    × ((t : Task) × (s : StepRun) × (d : Definition) × (lookup (step_key p.writer t.name)
            (by_key p.steps [])
          ≡ some s)
        × (is_resolved s.phase ≡ false)
        × (name ≡ run_object_name d.name (step_key p.writer t.name)))
CancelsLive p _ = Unit

in_flight-live :
    (w : Writer) (rows : Assoc StepRun) (t : Task) (s : StepRun)
    → in_flight w rows t ≡ some s
    → (lookup (step_key w t.name) rows ≡ some s) × (is_resolved s.phase ≡ false)
unfolding in_flight
in_flight-live w rows t s e = (ground arith, ground arith)

-- A pass asks a step to stop only in a run that is being canceled or is past its deadline, and only
-- a step of the run that is neither terminal nor in `cancel_unknown`, under the object name of its
-- definition and key.
pub advance_run-CancelsLive : (p : Pass) → All (CancelsLive p) (advance_run p []).1
advance_run-CancelsLive p =
    Keeps-advance (CancelsLive p) p (λ passed n t e d spec g f. (tt, tt))
      (λ e t s d f.
        let l = in_flight-live p.writer (by_key p.steps []) t s f in (e, (t, s, d, l.0, l.1, refl)))
      (λ decisions created. (tt, tt)) [] tt
