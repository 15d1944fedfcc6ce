-- ===== src/Workflow/Tests.antt =====
-- The theorems on admission, order, gates and roll-up at a workflow of three tasks.
use orbitjob.Prelude.{
  ℕ, ◌<◌, ◌≡◌, refl, inl, inr, Bool-cases, String, Bool, true, List, [], ◌∷◌, none, some,
  occurrences, contains, ◌==◌, eq_iff, arith,
}
use orbitjob.Prelude.Int.{pos}
use orbitjob.Prelude.Assoc.{Assoc, lookup}
use orbitjob.Prelude.Result.{ok}
use orbitjob.Run.{Phase, phase_name}
use orbitjob.Workflow.{
  FailPolicy, Reason, TaskDecision, StepState, every, Field, eq, Rule, Task, Dag,
}
use orbitjob.Workflow.Gate.{evaluate_rule}
use orbitjob.Workflow.Derive.{derive_phase}
use orbitjob.Workflow.Derive.Laws.{specified, derive_phase_lem}
use orbitjob.Workflow.Graph.{validate_dag, has_cycle, topological_sort}
use orbitjob.Workflow.Graph.Degrees.{names, dependencies}
use orbitjob.Workflow.Graph.Order.{Unique, Respects, Ranked}
use orbitjob.Workflow.Graph.Admission.{Admitted, validate_dag-Admitted}
use orbitjob.Workflow.Graph.Cycles.{has_cycle_total}
use orbitjob.Workflow.Graph.Converse.{validate_dag_complete}
use orbitjob.Workflow.Graph.Accepted.{validated_dag_sorts}

abbrev build_succeeded : Rule
build_succeeded = record {
  task = "build";
  field = Field.phase;
  operator = eq;
  values = "Succeeded" ∷ [];
  number = none;
}

-- `ship` waits for `build` and `test`, and runs if `build` succeeded; it is listed first.
abbrev pub ship : Task
ship = record {
  name = "ship";
  job_ref = "ship-job";
  depends_on = "build" ∷ "test" ∷ [];
  gate = some (record { type = every; rules = build_succeeded ∷ [] });
}

abbrev pub build : Task
build = record { name = "build"; job_ref = "build-job"; depends_on = []; gate = none }

abbrev pub test : Task
test = record { name = "test"; job_ref = "test-job"; depends_on = "build" ∷ []; gate = none }

abbrev pub pipeline : Dag
pipeline = record {
  fail_policy = FailPolicy.fail_fast;
  timeout_seconds = pos 60;
  tasks = ship ∷ build ∷ test ∷ [];
}

accepted : validate_dag pipeline ≡ ok tt
unfolding validate_dag
accepted = refl

sorted : topological_sort pipeline ≡ ok ("build" ∷ "test" ∷ "ship" ∷ [])
unfolding topological_sort
sorted = refl

pipeline_Unique : Unique (pipeline.tasks)
pipeline_Unique = (validate_dag-Admitted pipeline accepted).unique

validated_dag_sorts_example :
    (order : List String) × (topological_sort pipeline ≡ ok order)
    × Respects pipeline.tasks [] order
    × ((v : String) → occurrences v order ≡ occurrences v (names pipeline.tasks))
validated_dag_sorts_example = validated_dag_sorts pipeline accepted

abbrev stage : String → ℕ
stage v = occurrences v ("test" ∷ "ship" ∷ "ship" ∷ [])

ranked_below_ship :
    (d : String)
    → 0 < occurrences d ("build" ∷ "test" ∷ [])
    → (contains (names pipeline.tasks) d ≡ true) × (stage d < 2)
ranked_below_ship d h = elim (Bool-cases ("build" == d)) [
  | inl e ↦ rw (← (eq_iff "build" d).0 e) (refl, omega arith)
  | inr ne ↦ elim (Bool-cases ("test" == d)) [
    | inl e ↦ rw (← (eq_iff "test" d).0 e) (refl, omega arith)
    | inr ne' ↦ ground arith
  ]
]

ranked_below_test :
    (d : String)
    → 0 < occurrences d ("build" ∷ [])
    → (contains (names pipeline.tasks) d ≡ true) × (stage d < 1)
ranked_below_test d h = elim (Bool-cases ("build" == d)) [
  | inl e ↦ rw (← (eq_iff "build" d).0 e) (refl, omega arith)
  | inr ne ↦ ground arith
]

stage-Ranked : Ranked (pipeline.tasks) stage
unfolding dependencies
stage-Ranked v d h = elim (Bool-cases ("ship" == v)) [
  | inl e ↦
      let v_is : "ship" ≡ v = (eq_iff "ship" v).0 e in
      rw (← v_is) (ranked_below_ship d (rw (← v_is) at h))
  | inr ns ↦ elim (Bool-cases ("test" == v)) [
    | inl e ↦
        let v_is : "test" ≡ v = (eq_iff "test" v).0 e in
        rw (← v_is) (ranked_below_test d (rw (← v_is) at h))
    | inr nt ↦ elim (Bool-cases ("build" == v)) [ inl e ↦ ground arith | inr nb ↦ ground arith ]
  ]
]

admitted : Admitted pipeline
admitted = validate_dag-Admitted pipeline accepted

validate_dag_complete_example : validate_dag pipeline ≡ ok tt
validate_dag_complete_example =
    validate_dag_complete pipeline stage admitted.non_empty admitted.named admitted.unique
      admitted.tasks_admitted stage-Ranked

has_cycle_total_example : (b : Bool) × (has_cycle pipeline ≡ some b)
has_cycle_total_example = has_cycle_total pipeline

abbrev built : Assoc StepState
built = ("build", record { phase = Phase.succeeded; attempt = pos 1; duration_ms = pos 0 }) ∷ []

abbrev holds : Rule → Bool
holds r = true

rule_holds : evaluate_rule build_succeeded built ≡ ok true
unfolding evaluate_rule phase_name lookup
rule_holds = refl

abbrev gated : Assoc TaskDecision
gated = ("ship", record { skipped = true; reason = some Reason.condition }) ∷ []

derive_phase_lem_example :
    derive_phase ("ship" ∷ "build" ∷ []) built gated ≡ specified built gated ("ship" ∷ "build" ∷ [])
derive_phase_lem_example = derive_phase_lem built gated ("ship" ∷ "build" ∷ [])
