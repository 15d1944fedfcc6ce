-- ===== src/Check/Criteria.antt =====
-- internal/core/app/checkobserve/criteria.go: whether an outcome is a good event. A Go map is visited
-- in any order, so the criteria are the list of the order taken. A number of JSON is a parameter with
-- its tests; an operand that does not convert to one is none.
use orbitjob.Prelude.{
  String, Bool, true, false, not, ◌||◌, List, [], ◌∷◌, Option, none, some, ◌==◌, if◌then◌else◌,
}
use orbitjob.Prelude.Int.{ℤ}
use orbitjob.Prelude.Result.{Result, ok, err}

pub data SliType : Type 0 where
  availability latency quality : SliType
  other_sli : String → SliType

pub data CriteriaError : Type 0 where
  criteria_required status_not_text missing_op missing_value : CriteriaError
  unsupported_operator unknown_key : String → CriteriaError

-- The numbers of JSON, float64: the tests of the language. `of_ms` converts a whole number of
-- milliseconds.
pub record Floats : Type 1 where
  pub Float : Type 0
  pub less : Float → Float → Bool
  pub same : Float → Float → Bool
  pub of_ms : ℤ → Float

-- The shapes of a decoded JSON value that the code tells apart; an object is read at its keys op and
-- value only.
pub data Value (F : Type 0) : Type 0 where
  text : String → Value F
  number : F → Value F
  object : (op : Option String) → (value : Option F) → Value F
  other_value : Value F

-- A duration, where the run has timing, is the number of its milliseconds.
pub record OutcomeEvent : Type 0 where
  pub status : String
  pub duration : Option ℤ

module _ (f : Floats) where
  abbrev pub compare_op : String → f.Float → f.Float → Result CriteriaError Bool
  compare_op op a t =
      if op == "<"
      then ok (f.less a t)
      else if op == "<="
      then ok (f.less a t || f.same a t)
      else if op == ">"
      then ok (f.less t a)
      else if op == ">="
      then ok (f.less t a || f.same a t)
      else if op == "=="
      then ok (f.same a t)
      else if op == "!="
      then ok (not (f.same a t))
      else err (unsupported_operator op)

  unfoldable pub evaluate_numeric_condition : f.Float → Value f.Float → Result CriteriaError Bool
  evaluate_numeric_condition a (number t) = ok (f.same a t)
  evaluate_numeric_condition a (object none value) = err missing_op
  evaluate_numeric_condition a (object (some op) none) = err missing_value
  evaluate_numeric_condition a (object (some op) (some t)) = compare_op op a t
  evaluate_numeric_condition a _ = err missing_value

  abbrev pub evaluate_status : OutcomeEvent → Value f.Float → Result CriteriaError Bool
  evaluate_status e (text s) = ok (e.status == s)
  evaluate_status e _ = err status_not_text

  abbrev pub evaluate_duration : Option ℤ → Value f.Float → Result CriteriaError Bool
  evaluate_duration none v = ok false
  evaluate_duration (some ms) v = evaluate_numeric_condition (f.of_ms ms) v

  -- One turn of the loop: false and errors end it.
  unfoldable pub evaluate_key : OutcomeEvent → String → Value f.Float → Result CriteriaError Bool
  unfolding evaluate_numeric_condition
  evaluate_key e key v =
      if key == "status"
      then evaluate_status e v
      else if key == "duration_ms"
      then evaluate_duration e.duration v
      else err (unknown_key key)

  abbrev pub and_then :
      Result CriteriaError Bool → Result CriteriaError Bool → Result CriteriaError Bool
  and_then (err x) rest = err x
  and_then (ok false) rest = ok false
  and_then (ok true) rest = rest

  unfoldable pub evaluate_criteria :
      OutcomeEvent → List (String × Value f.Float) → Result CriteriaError Bool
  unfolding evaluate_key
  evaluate_criteria e [] = ok true
  evaluate_criteria e ((key, v) ∷ rest) = and_then (evaluate_key e key v) (evaluate_criteria e rest)

  unfoldable pub is_good_event :
      OutcomeEvent → SliType → List (String × Value f.Float) → Result CriteriaError Bool
  unfolding evaluate_criteria
  is_good_event e availability [] = ok (e.status == "success")
  is_good_event e latency [] = err criteria_required
  is_good_event e quality [] = err criteria_required
  is_good_event e t criteria = evaluate_criteria e criteria
