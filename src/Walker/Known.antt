-- ===== src/Walker/Known.antt =====
-- What the facts of a pass (stepFacts) say of its tasks, by the steps that the pass has read.
use orbitjob.Prelude.{
  ◌≡◌, refl, String, Bool, true, false, ◌&&◌, ◌||◌, [], Option, none, some, arith, inl, inr,
  Bool-cases, contains, if◌then◌else◌, sym, ◌∙◌, ap,
}
use orbitjob.Prelude.Assoc.{Assoc, lookup, is_some}
use orbitjob.Run.{Phase}
use orbitjob.Workflow.{StepRun, StepState, TaskDecision}
use orbitjob.Workflow.Derive.Laws.{is_accounted, accounted_task, is_unknown, unknown_task}
use orbitjob.Walker.Facts.{by_key, dag_has_duration_rules, task_names, step_state}
use orbitjob.Walker.Sweep.{step_key, is_skip}
use orbitjob.Walker.Advance.{Pass, has_reader, reader_of, step_facts}
use orbitjob.Walker.Steps.{
  later, step_of, lookup-by_key, has_ended, is_resolved-has_ended, is_over, resolved_state,
  resolved_state-is_over, collect_facts-states, collect_facts-step_by_task,
}

abbrev pub cannot_be_told : Phase → Bool
cannot_be_told Phase.cancel_unknown = true
cannot_be_told _ = false

abbrev pub is_unsure : Option StepRun → Bool
is_unsure none = false
is_unsure (some s) = cannot_be_told s.phase

resolved_unknown :
    (q : Phase) (s : StepState)
    → s.phase ≡ q
    → is_unknown (if has_ended q then some s else none) ≡ cannot_be_told q
resolved_unknown Phase.pending s e = refl
resolved_unknown Phase.creating_attempt s e = refl
resolved_unknown Phase.running s e = refl
resolved_unknown Phase.retry_waiting s e = refl
resolved_unknown Phase.succeeded s e = rw e refl
resolved_unknown Phase.failed s e = rw e refl
resolved_unknown Phase.cancel_requested s e = refl
resolved_unknown Phase.canceled s e = rw e refl
resolved_unknown Phase.cancel_unknown s e = rw e refl

module _ (p : Pass) where
  -- The step of a task: the last one that was read with the task's occurrence key.
  abbrev pub task_step : String → Option StepRun
  task_step n = step_of (step_key p.writer n) p.steps

  abbrev state_of : StepRun → StepState
  state_of =
      step_state (dag_has_duration_rules p.dag.tasks && has_reader p.timing) (reader_of p.timing)

  later-none {ℓ} : {A : Type ℓ} (o : Option A) → later o none ≡ o
  later-none none = refl
  later-none (some x) = refl

  row_of : (n : String) → lookup (step_key p.writer n) (by_key p.steps []) ≡ task_step n
  row_of n =
      lookup-by_key (step_key p.writer n) p.steps [] ∙ (unfold lookup in later-none (task_step n))

  states_of :
      (n : String)
      → lookup n (step_facts p).states ≡ (
          if contains (task_names p.dag.tasks) n
          then resolved_state state_of (task_step n)
          else none)
  unfolding step_facts
  states_of n =
      collect_facts-states (step_key p.writer) (by_key p.steps []) state_of p.dag.tasks
        (record { step_by_task = []; states = [] }) n
      ∙ rw (row_of n)
          (unfold lookup in rw (later-none (resolved_state state_of (task_step n))) refl)

  step_by_task_of :
      (n : String)
      → lookup n (step_facts p).step_by_task
        ≡ (if contains (task_names p.dag.tasks) n then task_step n else none)
  unfolding step_facts
  step_by_task_of n =
      collect_facts-step_by_task (step_key p.writer) (by_key p.steps []) state_of p.dag.tasks
        (record { step_by_task = []; states = [] }) n
      ∙ rw (row_of n) (unfold lookup in rw (later-none (task_step n)) refl)

  outside :
      (n : String)
      → contains (task_names p.dag.tasks) n ≡ false
      → lookup n (step_facts p).states ≡ none
  outside n y = states_of n ∙ rw y refl

  inside :
      (n : String)
      → contains (task_names p.dag.tasks) n ≡ true
      → lookup n (step_facts p).states ≡ resolved_state state_of (task_step n)
  inside n y = states_of n ∙ rw y refl

  -- A task that has a state has a step that is over.
  pub states-is_over :
      (n : String) → is_some (lookup n (step_facts p).states) ≡ true → is_over (task_step n) ≡ true
  states-is_over n e = elim (Bool-cases (contains (task_names p.dag.tasks) n)) [
    | inl y ↦ ground (arith, e, inside n y, resolved_state-is_over state_of (task_step n))
    | inr y ↦ ground (arith, e, outside n y)
  ]

  -- A task that the facts hold no step of has none.
  pub step_by_task-none :
      (n : String)
      → contains (task_names p.dag.tasks) n ≡ true
      → is_some (lookup n (step_facts p).step_by_task) ≡ false
      → task_step n ≡ none
  step_by_task-none n y e =
      nothing (task_step n)
        (ap (λ (o : Option StepRun). is_some o) (sym (step_by_task_of n ∙ rw y refl)) ∙ e)
    where
      nothing : (o : Option StepRun) → is_some o ≡ false → o ≡ none
      nothing none f = refl
      nothing (some s) f = absurd (ground (arith, f))

  module _ (merged : Assoc TaskDecision) (n : String)
      (y : contains (task_names p.dag.tasks) n ≡ true) where
    pub accounted_task-is_over :
        accounted_task (step_facts p).states merged n
        ≡ (is_over (task_step n) || is_skip (lookup n merged))
    accounted_task-is_over =
        ap (λ (o : Option StepState). is_accounted o (lookup n merged)) (inside n y)
        ∙ accounted (task_step n)
      where
        accounted :
            (o : Option StepRun)
            → is_accounted (resolved_state state_of o) (lookup n merged)
              ≡ (is_over o || is_skip (lookup n merged))
        accounted none = refl
        accounted (some s) = ground (arith, is_resolved-has_ended s.phase)

    pub unknown_task-is_unsure :
        unknown_task (step_facts p).states merged n ≡ is_unsure (task_step n)
    unfolding step_state
    unknown_task-is_unsure =
        ap (λ (o : Option StepState). is_unknown o) (inside n y) ∙ unsure (task_step n)
      where
        unsure : (o : Option StepRun) → is_unknown (resolved_state state_of o) ≡ is_unsure o
        unsure none = refl
        unsure (some s) =
            rw (is_resolved-has_ended s.phase) (resolved_unknown s.phase (state_of s) refl)
