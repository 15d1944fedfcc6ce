-- ===== src/Walker/Traces.antt =====
-- Properties of every request of a trace, and how the parts of a pass keep them.
use Prim.Native.String.{◌++◌ as str_append}
use orbitjob.Prelude.{
  ℕ, ◌+◌, ◌≡◌, refl, String, Bool, true, false, ◌||◌, ltb, length, List, [], ◌∷◌, Option, none,
  some, arith,
}
use orbitjob.Prelude.Assoc.{Assoc, insert, lookup}
use orbitjob.Workflow.{WorkflowPhase, WorkflowRun, TaskDecision, StepRun, StepState, Task}
use orbitjob.Trace.{Keeps, Keeps-request, Keeps-bind, Keeps-if, pure, throw, ◌>>◌}
use orbitjob.Walker.Effects.{
  Effect, create_step, publish, request_cancel, update_phase, project_status, refused, Oracle, M,
  emit,
}
use orbitjob.Walker.Facts.{Spec, Definition, by_key, task_names, merge_decisions}
use orbitjob.Walker.Sweep.{
  Writer, View, Verdict, settled, waits, skips, runs, fails, judge, step_key, step_object,
  write_step, write_decoded, write_found, create_step_of, skip_for, sweep, run_object_name,
}
use orbitjob.Walker.Outcome.{
  in_flight, cancel_step, fan_cancel, when, write_phase, next_phase, record_outcome,
}
use orbitjob.Workflow.Derive.{derive_phase}

module _ (P : Effect → Type 0) where
  Keeps-emit : (o : Oracle) (e : Effect) → P e → Keeps P (emit o e)
  Keeps-emit o e p = Keeps-request P o.accepts refused e p

  abbrev pub Creates : Writer → Task → Type 0
  Creates w t =
      (d : Definition) (spec : Spec)
      → lookup (str_append "name:" t.job_ref) w.index ≡ some d
      → d.spec ≡ some spec
      → P (create_step t.name d.source_uid d.id (step_key w t.name) spec.max_attempts w.actor)
        × P (publish (step_object w d spec (step_key w t.name)))

  Keeps-write_step :
      (w : Writer) (t : Task) (d : Definition) (spec : Spec)
      → lookup (str_append "name:" t.job_ref) w.index ≡ some d
      → d.spec ≡ some spec
      → Creates w t
      → Keeps P (write_step w t d spec)
  unfolding write_step
  Keeps-write_step w t d spec e f k =
      Keeps-bind P (emit w.oracle _) _ (Keeps-emit w.oracle _ (k d spec e f).0)
        (λ u. Keeps-emit w.oracle _ (k d spec e f).1)

  Keeps-write_decoded :
      (w : Writer) (t : Task) (d : Definition) (spec : Option Spec)
      → lookup (str_append "name:" t.job_ref) w.index ≡ some d
      → d.spec ≡ spec
      → Creates w t
      → Keeps P (write_decoded w t d spec)
  unfolding write_decoded
  Keeps-write_decoded w t d none e f k = λ h q. q
  Keeps-write_decoded w t d (some spec) e f k = Keeps-write_step w t d spec e f k

  Keeps-write_found :
      (w : Writer) (t : Task) (d : Option Definition)
      → lookup (str_append "name:" t.job_ref) w.index ≡ d
      → Creates w t
      → Keeps P (write_found w t d)
  unfolding write_found
  Keeps-write_found w t none e k = λ h q. q
  Keeps-write_found w t (some d) e k = Keeps-write_decoded w t d d.spec e refl k

  Keeps-create_step : (w : Writer) (t : Task) → Creates w t → Keeps P (create_step_of w t)
  unfolding create_step_of
  Keeps-create_step w t k = Keeps-write_found w t _ refl k

  -- The sweep keeps what each task that it runs keeps.
  pub Keeps-sweep :
      (w : Writer) (view : View) (ns : List String) (passed : Assoc TaskDecision) (created : ℕ)
      → ((passed : Assoc TaskDecision) (n : String) (t : Task)
          → judge view passed n ≡ runs t
          → Creates w t)
      → Keeps P (sweep w view ns passed created)
  unfolding sweep
  Keeps-sweep w view [] passed created k = λ h q. q
  Keeps-sweep w view (n ∷ ns) passed created k =
      go (judge view passed n) refl (λ passed' created'. Keeps-sweep w view ns passed' created' k)
    where
      go :
          (v : Verdict)
          → judge view passed n ≡ v
          → ((passed' : Assoc TaskDecision) (created' : ℕ)
              → Keeps P (sweep w view ns passed' created'))
          → Keeps P (elim v [
            | settled ↦ sweep w view ns passed created
            | waits ↦ sweep w view ns passed created
            | skips reason ↦ sweep w view ns (insert n (skip_for reason) passed) created
            | runs task ↦ create_step_of w task >> sweep w view ns passed (created + 1)
            | fails e ↦ throw e
          ])
      go settled e rest = rest passed created
      go waits e rest = rest passed created
      go (skips reason) e rest = rest (insert n (skip_for reason) passed) created
      go (runs task) e rest =
          Keeps-bind P (create_step_of w task) _ (Keeps-create_step w task (k passed n task e))
            (λ u. rest passed (created + 1))
      go (fails error) e rest = λ h q. q

  abbrev pub Cancels : Writer → Assoc StepRun → Task → Type 0
  Cancels w rows t =
      (s : StepRun) (d : Definition)
      → in_flight w rows t ≡ some s
      → P (request_cancel d.namespace (run_object_name d.name (step_key w t.name)))

  Keeps-cancel_step :
      (w : Writer) (t : Task) (s : Option StepRun) (d : Option Definition)
      → ((s' : StepRun) (d' : Definition)
          → s ≡ some s'
          → P (request_cancel d'.namespace (run_object_name d'.name (step_key w t.name))))
      → Keeps P (cancel_step w t s d)
  unfolding cancel_step
  Keeps-cancel_step w t none d k = λ h q. q
  Keeps-cancel_step w t (some s) none k = λ h q. q
  Keeps-cancel_step w t (some s) (some d) k = Keeps-emit w.oracle _ (k s d refl)

  pub Keeps-fan_cancel :
      (w : Writer) (rows : Assoc StepRun) (ts : List Task)
      → ((t : Task) → Cancels w rows t)
      → Keeps P (fan_cancel w rows ts)
  unfolding fan_cancel
  Keeps-fan_cancel w rows [] k = λ h q. q
  Keeps-fan_cancel w rows (t ∷ ts) k =
      Keeps-bind P (cancel_step w t _ _) _ (Keeps-cancel_step w t _ _ (k t))
        (λ u. Keeps-fan_cancel w rows ts k)

  Keeps-when : (b : Bool) (m : M (Unit {0})) → (b ≡ true → Keeps P m) → Keeps P (when b m)
  Keeps-when true m k = k refl
  Keeps-when false m k = λ h q. q

  Keeps-write_phase :
      (w : Writer) (projects : Bool) (next : WorkflowPhase) (decisions merged : Assoc TaskDecision)
      → P (update_phase next decisions)
      → P (project_status next merged)
      → Keeps P (write_phase w projects next decisions merged)
  unfolding write_phase
  Keeps-write_phase w projects next decisions merged p q =
      Keeps-bind P (emit w.oracle (update_phase next decisions)) _ (Keeps-emit w.oracle _ p)
        (λ u h k. ground (arith, Keeps-emit w.oracle (project_status next merged) q h k))

  -- The phase that a pass would write.
  abbrev pub recorded :
      WorkflowRun
      → List Task
      → List StepRun
      → Assoc StepState
      → Assoc TaskDecision
      → ℕ
      → WorkflowPhase
  recorded run tasks steps states decisions created =
      next_phase run.phase
        (derive_phase (task_names tasks) states (merge_decisions run.task_decisions decisions))
        (ltb 0 (length steps) || (ltb 0 (length decisions) || ltb 0 created))

  pub Keeps-record_outcome :
      (w : Writer) (projects : Bool) (run : WorkflowRun) (tasks : List Task) (steps : List StepRun)
      (states : Assoc StepState) (decisions : Assoc TaskDecision) (created : ℕ) (fans : Bool)
      → (fans ≡ true → (t : Task) → Cancels w (by_key steps []) t)
      → P (update_phase (recorded run tasks steps states decisions created) decisions)
      → P (
          project_status
            (recorded run tasks steps states decisions created)
            (merge_decisions run.task_decisions decisions))
      → Keeps P (record_outcome w projects run tasks steps states decisions created fans)
  unfolding record_outcome
  Keeps-record_outcome w projects run tasks steps states decisions created fans c p q =
      Keeps-bind P (when fans (fan_cancel w (by_key steps []) tasks)) _
        (Keeps-when fans _ (λ e. Keeps-fan_cancel w (by_key steps []) tasks (c e)))
        (λ u.
          Keeps-if P _ (pure tt) _ (λ e h k. k)
            (λ e. Keeps-write_phase w projects _ decisions _ p q))
