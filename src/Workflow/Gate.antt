-- ===== src/Workflow/Gate.antt =====
-- internal/core/domain/workflow/condition.go: the gate of a task.
pub mod Laws
use orbitjob.Prelude.{
  String, Bool, true, false, not, ◌||◌, List, [], ◌∷◌, Option, none, some, ◌==◌, contains,
  if◌then◌else◌,
}
use orbitjob.Prelude.Int.{ℤ, ltb_ℤ, leb_ℤ}
use orbitjob.Prelude.Result.{Result, ok, err}
use orbitjob.Prelude.Assoc.{Assoc, lookup}
use orbitjob.Run.{phase_name}
use orbitjob.Workflow.{
  StepState, ConditionType, every, some_rule, other_type, Field, Operator, eq, ne, one_of, not_in,
  lt, le, gt, ge, other_operator, Rule, Condition,
}

pub data ConditionError : Type 0 where
  no_recorded_state unknown_type : String → ConditionError
  wrong_field takes_values one_value some_value unknown_operator needs_number : ConditionError

unfoldable pub is_string_operator : Operator → Bool
is_string_operator eq = true
is_string_operator ne = true
is_string_operator one_of = true
is_string_operator not_in = true
is_string_operator _ = false

unfoldable pub is_numeric_operator : Operator → Bool
is_numeric_operator lt = true
is_numeric_operator le = true
is_numeric_operator gt = true
is_numeric_operator ge = true
is_numeric_operator _ = false

abbrev pub is_phase_field : Field → Bool
is_phase_field Field.phase = true
is_phase_field _ = false

abbrev pub exactly_one : List String → Result ConditionError String
exactly_one (v ∷ []) = ok v
exactly_one _ = err one_value

abbrev pub at_least_one : List String → Result ConditionError (List String)
at_least_one [] = err some_value
at_least_one (v ∷ vs) = ok (v ∷ vs)

-- The switch over the string operators.
phase_test : Operator → List String → String → Result ConditionError Bool
phase_test eq vs p = elim (exactly_one vs) [ ok v ↦ ok (p == v) | err e ↦ err e ]
phase_test ne vs p = elim (exactly_one vs) [ ok v ↦ ok (not (p == v)) | err e ↦ err e ]
phase_test one_of vs p = elim (at_least_one vs) [ ok ws ↦ ok (contains ws p) | err e ↦ err e ]
phase_test not_in vs p = elim (at_least_one vs) [ ok ws ↦ ok (not (contains ws p)) | err e ↦ err e ]
phase_test _ vs p = err unknown_operator

string_rule : Rule → StepState → Result ConditionError Bool
unfolding phase_test
string_rule rule state =
    if not (is_phase_field rule.field) then err wrong_field else elim rule.number [
      | some _ ↦ err takes_values
      | none ↦ phase_test rule.operator rule.values (phase_name state.phase)
    ]

numeric_operand : Field → StepState → Result ConditionError ℤ
numeric_operand Field.attempts state = ok state.attempt
numeric_operand Field.duration_ms state = ok state.duration_ms
numeric_operand _ state = err wrong_field

-- The switch over the numeric operators.
number_test : Operator → ℤ → ℤ → Result ConditionError Bool
number_test lt a n = ok (ltb_ℤ a n)
number_test le a n = ok (leb_ℤ a n)
number_test gt a n = ok (ltb_ℤ n a)
number_test ge a n = ok (leb_ℤ n a)
number_test _ a n = err unknown_operator

numeric_rule : Rule → StepState → Result ConditionError Bool
unfolding numeric_operand number_test is_numeric_operator
numeric_rule rule state =
    if not (is_numeric_operator rule.operator)
    then err unknown_operator
    else if is_phase_field rule.field
    then err wrong_field
    else elim rule.number [
      | none ↦ err needs_number
      | some n ↦ elim (numeric_operand rule.field state) [
        | ok a ↦ number_test rule.operator a n
        | err e ↦ err e
      ]
    ]

unfoldable pub evaluate_rule : Rule → Assoc StepState → Result ConditionError Bool
unfolding string_rule numeric_rule is_string_operator
evaluate_rule rule states = elim (lookup rule.task states) [
  | none ↦ err (no_recorded_state rule.task)
  | some state ↦
      if is_string_operator rule.operator then string_rule rule state else numeric_rule rule state
]

unfoldable pub every_rule : List Rule → Assoc StepState → Result ConditionError Bool
every_rule [] states = ok true
every_rule (r ∷ rs) states = elim (evaluate_rule r states) [
  | err e ↦ err e
  | ok false ↦ ok false
  | ok true ↦ every_rule rs states
]

unfoldable pub any_rule : List Rule → Assoc StepState → Result ConditionError Bool
any_rule [] states = ok false
any_rule (r ∷ rs) states = elim (evaluate_rule r states) [
  | err e ↦ err e
  | ok true ↦ ok true
  | ok false ↦ any_rule rs states
]

combine : ConditionType → List Rule → Assoc StepState → Result ConditionError Bool
combine _ [] states = ok true
combine every (r ∷ rs) states = every_rule (r ∷ rs) states
combine some_rule (r ∷ rs) states = any_rule (r ∷ rs) states
combine (other_type t) (r ∷ rs) states = err (unknown_type t)

unfoldable pub evaluate_condition : Option Condition → Assoc StepState → Result ConditionError Bool
unfolding combine
evaluate_condition none states = ok true
evaluate_condition (some c) states = combine c.type c.rules states
