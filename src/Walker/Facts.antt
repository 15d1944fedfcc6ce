-- ===== src/Walker/Facts.antt =====
-- What a pass reads off the steps: definitionIndex, stepFacts, dagHasDurationRules, anyStepFailed,
-- taskNames, dagTask, actor and mergeDecisions.
use Prim.Native.String.{◌++◌ as str_append}
use orbitjob.Prelude.{
  ℕ, String, Bool, true, false, ◌&&◌, ◌||◌, List, [], ◌∷◌, Option, none, some, ◌==◌, if◌then◌else◌,
}
use orbitjob.Prelude.Int.{ℤ, pos}
use orbitjob.Prelude.Assoc.{Assoc, lookup, insert}
use orbitjob.Prelude.Result.{Result, ok, err}
use orbitjob.Run.{Phase}
use orbitjob.Run
use orbitjob.Workflow.{StepRun, StepState, TaskDecision, Rule, Field, Condition, Task}
use orbitjob.Walker.Effects.{WalkError, unknown_task}

-- A revision with its decoded spec: the retry budget already resolved, and the deadline. The spec
-- is `none` where the stored text does not decode.
pub record Spec : Type 0 where
  pub max_attempts : ℤ
  pub timeout_seconds : ℤ

pub record Definition : Type 0 where
  pub id : ℕ
  pub source_uid : String
  pub namespace : String
  pub name : String
  pub spec : Option Spec

unfoldable pub definition_index : List Definition → Assoc Definition → Assoc Definition
definition_index [] index = index
definition_index (d ∷ ds) index =
    definition_index ds
      (insert (str_append "uid:" d.source_uid) d (insert (str_append "name:" d.name) d index))

abbrev pub actor_workflow_walker : String
actor_workflow_walker = "orbitjob-workflow-walker"

unfoldable pub actor_of : String → String
actor_of configured = if configured == "" then actor_workflow_walker else configured

-- StepOccurrenceKey of internal/core/domain/workflow/dag.go; `digest` is the hexadecimal sha256.
unfoldable pub step_occurrence_key : (digest : String → String) → String → String → String → String
step_occurrence_key digest source_uid occurrence_key task = digest (
    str_append "wfstep|"
      (str_append source_uid (str_append "|" (str_append occurrence_key (str_append "|" task)))))

unfoldable pub by_key : List StepRun → Assoc StepRun → Assoc StepRun
by_key [] m = m
by_key (s ∷ ss) m = by_key ss (insert s.occurrence_key s m)

abbrev is_duration : Field → Bool
is_duration Field.duration_ms = true
is_duration _ = false

abbrev rules_read_duration : List Rule → Bool
rules_read_duration [] = false
rules_read_duration (r ∷ rs) = is_duration r.field || rules_read_duration rs

abbrev gate_reads_duration : Option Condition → Bool
gate_reads_duration none = false
gate_reads_duration (some c) = rules_read_duration c.rules

unfoldable pub dag_has_duration_rules : List Task → Bool
dag_has_duration_rules [] = false
dag_has_duration_rules (t ∷ ts) = gate_reads_duration t.gate || dag_has_duration_rules ts

abbrev is_unknown_phase : Phase → Bool
is_unknown_phase Phase.cancel_unknown = true
is_unknown_phase _ = false

-- A step that still runs has no state.
unfoldable pub is_resolved : Phase → Bool
unfolding Run.terminal
is_resolved p = Run.terminal p || is_unknown_phase p

abbrev duration_or_zero : Option ℤ → ℤ
duration_or_zero none = pos 0
duration_or_zero (some d) = d

-- `timing` is the reader of terminal outcomes: `none` where it fails or an instant is missing.
unfoldable pub step_state : Bool → (ℕ → Option ℤ) → StepRun → StepState
unfolding Run.terminal
step_state need_durations timing s = record {
  phase = s.phase;
  attempt = s.attempt;
  duration_ms =
      if need_durations && Run.terminal s.phase then duration_or_zero (timing s.id) else pos 0;
}

pub record Facts : Type 0 where
  pub step_by_task : Assoc StepRun
  pub states : Assoc StepState

-- The loop of stepFacts over the tasks; `key` is the step's occurrence key of a task.
unfoldable pub collect_facts :
    (String → String) → Assoc StepRun → (StepRun → StepState) → List Task → Facts → Facts
unfolding is_resolved
collect_facts key rows state_of [] f = f
collect_facts key rows state_of (t ∷ ts) f =
    collect_facts key rows state_of ts (elim (lookup (key t.name) rows) [
      | none ↦ f
      | some s ↦
          if is_resolved s.phase
          then record {
            step_by_task = insert t.name s f.step_by_task;
            states = insert t.name (state_of s) f.states;
          }
          else record f { step_by_task = insert t.name s f.step_by_task }
    ])

abbrev is_failed_phase : Phase → Bool
is_failed_phase Phase.failed = true
is_failed_phase _ = false

unfoldable pub any_step_failed : List StepRun → Bool
any_step_failed [] = false
any_step_failed (s ∷ ss) = is_failed_phase s.phase || any_step_failed ss

unfoldable pub task_names : List Task → List String
task_names [] = []
task_names (t ∷ ts) = t.name ∷ task_names ts

unfoldable pub dag_task : List Task → String → Result WalkError Task
dag_task [] name = err (unknown_task name)
dag_task (t ∷ ts) name = if t.name == name then ok t else dag_task ts name

-- The later map wins at a key that both hold.
unfoldable pub merge_decisions : Assoc TaskDecision → Assoc TaskDecision → Assoc TaskDecision
merge_decisions stored [] = stored
merge_decisions stored ((k, d) ∷ ds) = merge_decisions (insert k d stored) ds
