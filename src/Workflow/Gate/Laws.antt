-- ===== src/Workflow/Gate/Laws.antt =====
-- What a condition evaluates to, and when it is refused.
use orbitjob.Prelude.{
  String, ◌≡◌, refl, Bool, true, false, not, ◌&&◌, List, [], ◌∷◌, none, some, arith, All, all, any,
}
use orbitjob.Prelude.Result.{ok, is_ok}
use orbitjob.Prelude.Assoc.{Assoc, lookup, is_some}
use orbitjob.Workflow.{
  StepState, ConditionType, every, some_rule, Field, Operator, eq, ne, one_of, not_in,
  other_operator, Rule,
}
use orbitjob.Workflow.Gate.{evaluate_rule, every_rule, any_rule, evaluate_condition}

-- The grammar of a rule: a string operator reads the phase against as many values as it takes and
-- no number; a numeric operator reads attempts or duration against a number.
abbrev is_single : List String → Bool
is_single (v ∷ []) = true
is_single _ = false

abbrev is_filled : List String → Bool
is_filled [] = false
is_filled _ = true

abbrev is_numeric_field : Field → Bool
is_numeric_field Field.attempts = true
is_numeric_field Field.duration_ms = true
is_numeric_field _ = false

abbrev is_phase : Field → Bool
is_phase Field.phase = true
is_phase _ = false

abbrev pub keeps_grammar : Operator → Rule → Bool
keeps_grammar eq r = is_phase r.field && (not (is_some r.number) && is_single r.values)
keeps_grammar ne r = is_phase r.field && (not (is_some r.number) && is_single r.values)
keeps_grammar one_of r = is_phase r.field && (not (is_some r.number) && is_filled r.values)
keeps_grammar not_in r = is_phase r.field && (not (is_some r.number) && is_filled r.values)
keeps_grammar (other_operator _) r = false
keeps_grammar _ r = is_numeric_field r.field && is_some r.number

-- A rule has a verdict exactly when its task has a recorded state and the rule keeps the grammar
-- of its operator; in every other case it is an error, never a silent pass or failure.
pub evaluate_rule-is_ok :
    (r : Rule) (states : Assoc StepState)
    → is_ok (evaluate_rule r states)
      ≡ (is_some (lookup r.task states) && keeps_grammar r.operator r)
unfolding evaluate_rule
evaluate_rule-is_ok r states = ground arith

module _ (states : Assoc StepState) (verdict : Rule → Bool) where
  abbrev pub Decides : List Rule → Type 0
  Decides = All (λ r. evaluate_rule r states ≡ ok (verdict r))

  every_rule-all : (rs : List Rule) → Decides rs → every_rule rs states ≡ ok (all verdict rs)
  unfolding every_rule
  every_rule-all [] h = refl
  every_rule-all (r ∷ rs) h = ground (arith, every_rule-all rs h.1)

  any_rule-any : (rs : List Rule) → Decides rs → any_rule rs states ≡ ok (any verdict rs)
  unfolding any_rule
  any_rule-any [] h = refl
  any_rule-any (r ∷ rs) h = ground (arith, any_rule-any rs h.1)

  -- Where every rule has a verdict, a non-empty `all` condition is their conjunction, a non-empty
  -- `any` condition is their disjunction, and an empty condition of any type, as well as an absent
  -- one, passes.
  pub evaluate_condition_lem :
      (r : Rule) (rs : List Rule) (t : ConditionType)
      → Decides (r ∷ rs)
      → (evaluate_condition (some (record { type = every; rules = r ∷ rs })) states
          ≡ ok (all verdict (r ∷ rs)))
        × (evaluate_condition (some (record { type = some_rule; rules = r ∷ rs })) states
            ≡ ok (any verdict (r ∷ rs)))
        × (evaluate_condition (some (record { type = t; rules = [] })) states ≡ ok true)
        × (evaluate_condition none states ≡ ok true)
  unfolding evaluate_condition
  evaluate_condition_lem r rs t h = (every_rule-all (r ∷ rs) h, any_rule-any (r ∷ rs) h, refl, refl)
