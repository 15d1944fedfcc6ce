-- ===== src/Walker/Requests.antt =====
-- The phases that a pass writes, and the order of a step's row and its object.
use orbitjob.Prelude.{
  ℕ, ◌≡◌, refl, String, Bool, true, false, not, ◌&&◌, ◌||◌, List, [], ◌∷◌, arith, All, any, all,
  contains, eq_iff,
}
use orbitjob.Prelude.Assoc.{Assoc, lookup}
use orbitjob.Workflow.{WorkflowPhase, terminal, TaskDecision}
use orbitjob.Workflow.Derive.Laws.{accounted_task, unknown_task, derive_phase_done}
use orbitjob.Walker.Effects.{Effect, update_phase, project_status}
use orbitjob.Walker.Facts.{task_names, merge_decisions}
use orbitjob.Walker.Outcome.{next_phase}
use orbitjob.Walker.Advance.{Pass, step_facts, advance_run}
use orbitjob.Walker.Sweep.{is_skip}
use orbitjob.Walker.Steps.{is_over}
use orbitjob.Walker.Known.{is_unsure, task_step, unknown_task-is_unsure, accounted_task-is_over}
use orbitjob.Walker.Traces.{recorded}
use orbitjob.Walker.Justified.{Keeps-advance}

abbrev pub is_running : WorkflowPhase → Bool
is_running WorkflowPhase.running = true
is_running _ = false

abbrev pub may_run : WorkflowPhase → Bool
may_run WorkflowPhase.pending = true
may_run WorkflowPhase.running = true
may_run _ = false

-- Every task has a step that is over or a skip, and no task's step is in `cancel_unknown`. The step
-- of a task is the last that was read with its occurrence key.
abbrev pub decided : Pass → Assoc TaskDecision → Bool
decided p merged =
    not (any (λ n. is_unsure (task_step p n)) (task_names p.dag.tasks))
    && all (λ n. is_over (task_step p n) || is_skip (lookup n merged)) (task_names p.dag.tasks)

any_agrees :
    (f g : String → Bool) (ns : List String)
    → ((n : String) → contains ns n ≡ true → f n ≡ g n)
    → any f ns ≡ any g ns
any_agrees f g [] h = refl
any_agrees f g (n ∷ ns) h =
    ground
      (arith, h n (ground (arith, eq_iff n n)), any_agrees f g ns (λ m k. h m (ground (arith, k))))

all_agrees :
    (f g : String → Bool) (ns : List String)
    → ((n : String) → contains ns n ≡ true → f n ≡ g n)
    → all f ns ≡ all g ns
all_agrees f g [] h = refl
all_agrees f g (n ∷ ns) h =
    ground
      (arith, h n (ground (arith, eq_iff n n)), all_agrees f g ns (λ m k. h m (ground (arith, k))))

decided-facts :
    (p : Pass) (merged : Assoc TaskDecision)
    → (not (any (unknown_task (step_facts p).states merged) (task_names p.dag.tasks))
        && all (accounted_task (step_facts p).states merged) (task_names p.dag.tasks))
      ≡ decided p merged
decided-facts p merged =
    rw
      (
        any_agrees (unknown_task (step_facts p).states merged) (λ n. is_unsure (task_step p n))
            (task_names p.dag.tasks) (unknown_task-is_unsure p merged),
        all_agrees (accounted_task (step_facts p).states merged)
            (λ n. is_over (task_step p n) || is_skip (lookup n merged)) (task_names p.dag.tasks)
            (accounted_task-is_over p merged),
      )
      refl

abbrev pub Honest : Pass → Effect → Type 0
Honest p (update_phase next decisions) =
    (terminal next ≡ decided p (merge_decisions p.run.task_decisions decisions))
    × ((is_running next && not (may_run p.run.phase)) ≡ false)
Honest p (project_status next merged) = terminal next ≡ decided p merged
Honest p _ = Unit

recorded_honest :
    (p : Pass) (decisions : Assoc TaskDecision) (created : ℕ)
    → terminal p.run.phase ≡ false
    → let next =
        recorded (λ e. Unit) p.run p.dag.tasks p.steps (step_facts p).states decisions created in
      (terminal next ≡ decided p (merge_decisions p.run.task_decisions decisions))
      × ((is_running next && not (may_run p.run.phase)) ≡ false)
unfolding next_phase terminal
recorded_honest p decisions created h =
    let merged = merge_decisions p.run.task_decisions decisions in
    let done = derive_phase_done (step_facts p).states merged (task_names p.dag.tasks) in
    let facts = decided-facts p merged in (ground (arith, done, facts), ground (arith, done))

-- For an open run, every phase that a pass writes or projects is terminal exactly when each task of
-- the DAG has a step that is over (succeeded, failed, canceled or `cancel_unknown`) or a recorded
-- skip, and no task's step is in `cancel_unknown`, where the step of a task is the last that was
-- read with the task's occurrence key; and a pass writes `running` only over `pending` or `running`, never over a stop.
pub advance_run_records_honestly :
    (p : Pass) → terminal p.run.phase ≡ false → All (Honest p) (advance_run p []).1
advance_run_records_honestly p h =
    Keeps-advance (Honest p) p (λ passed n t e d spec g f. (tt, tt)) (λ e t s d f. tt)
      (λ decisions created. let r = recorded_honest p decisions created h in ((r.0, r.1), r.0)) []
      tt
