-- ===== src/Workflow/Graph/Admission.antt =====
-- ValidateDAG in internal/core/domain/workflow/dag.go: what an admitted DAG has.
use orbitjob.Prelude.{
  ◌+◌, ◌≤◌, ◌<◌, ◌≡◌, inl, inr, String, Bool, true, false, not, ◌&&◌, List, [], ◌∷◌, Option, none,
  some, arith, ◌==◌, eq_iff, contains, length, occurrences, contains-occurrences, all, All,
  all_of_occurrences, test_of_all, eqb, Bool-cases,
}
use orbitjob.Prelude.Result.{ok, refuse, >>=-eq-ok}
use orbitjob.Workflow.{ConditionType, other_type, Rule, Condition, Task, Dag}
use orbitjob.Workflow.Graph.{
  collect_names, check_dependencies, check_rules, check_condition, check_task, check_tasks,
  has_cycle, validate_dag,
}
use orbitjob.Workflow.Graph.Degrees.{names}
use orbitjob.Workflow.Graph.Order.{Unique}

-- The first loop accepts exactly the lists whose names are non-empty and new, and collects them.
pub collect_names-lem :
    (seen : List String) (ts : List Task) (ns : List String)
    → collect_names seen ts ≡ ok ns
    → (v : String)
    → (occurrences v ns ≡ occurrences v (names ts) + occurrences v seen)
      × ((occurrences v seen ≤ 1) → occurrences v ns ≤ 1)
      × (0 < occurrences v (names ts) → (v == "") ≡ false)
unfolding collect_names
collect_names-lem seen [] ns h v = (ground arith, ground arith, λ p. absurd (omega arith))
collect_names-lem seen (t ∷ ts) ns h v = elim (Bool-cases (t.name == "")) [
  | inl e ↦ ground arith
  | inr ne ↦ elim (Bool-cases (contains seen t.name)) [
    | inl e ↦ ground arith
    | inr fresh ↦
        let ih = collect_names-lem (t.name ∷ seen) ts ns (ground arith) v in
        (
          ground (arith, ih.0),
          ground (arith, ih.1, contains-occurrences seen t.name, eq_iff t.name v),
          ground (arith, ih.2, eq_iff t.name v, eq_iff t.name ""),
        )
  ]
]

pub check_dependencies-lem :
    (ns : List String) (task : String) (seen ds out : List String)
    → check_dependencies ns task seen ds ≡ ok out
    → (v : String)
    → (occurrences v out ≡ occurrences v ds + occurrences v seen)
      × ((occurrences v seen ≤ 1) → occurrences v out ≤ 1)
      × (0 < occurrences v ds → ((v == task) ≡ false) × (contains ns v ≡ true))
unfolding check_dependencies
check_dependencies-lem ns task seen [] out h v =
    (ground arith, ground arith, λ p. absurd (omega arith))
check_dependencies-lem ns task seen (d ∷ ds) out h v = elim (Bool-cases (d == task)) [
  | inl e ↦ ground arith
  | inr other ↦ elim (Bool-cases (contains ns d)) [
    | inr e ↦ ground arith
    | inl known ↦ elim (Bool-cases (contains seen d)) [
      | inl e ↦ ground arith
      | inr fresh ↦
          let ih = check_dependencies-lem ns task (d ∷ seen) ds out (ground arith) v in
          (
            ground (arith, ih.0),
            ground (arith, ih.1, contains-occurrences seen d, eq_iff d v),
            λ p. ground (arith, ih.2, eq_iff d v, eq_iff d task, eq_iff v task),
          )
    ]
  ]
]

abbrev pub ReadsOnly : List String → Rule → Type 0
ReadsOnly deps r = contains deps r.task ≡ true

check_rules-lem :
    (task : String) (deps : List String) (rs : List Rule)
    → check_rules task deps rs ≡ ok tt
    → All (ReadsOnly deps) rs
unfolding check_rules
check_rules-lem task deps [] h = tt
check_rules-lem task deps (r ∷ rs) h = (ground arith, check_rules-lem task deps rs (ground arith))

-- A gate has a known type, at least one rule, and rules that read dependencies of its task only.
abbrev is_known : ConditionType → Bool
is_known (other_type _) = false
is_known _ = true

abbrev pub GateAdmitted : List String → Option Condition → Type 0
GateAdmitted deps none = Unit
GateAdmitted deps (some c) =
    (is_known c.type ≡ true) × (1 ≤ length c.rules) × All (ReadsOnly deps) c.rules

pub record TaskAdmitted (ns : List String) (t : Task) : Type 0 where
  pub has_job : (t.job_ref == "") ≡ false
  pub known : all (λ v. not (v == t.name) && contains ns v) t.depends_on ≡ true
  pub once : (v : String) → occurrences v t.depends_on ≤ 1
  pub gate_admitted : GateAdmitted t.depends_on t.gate

pub ReadsOnly-contains :
    (xs ys : List String) (rs : List Rule)
    → ((v : String) → contains xs v ≡ contains ys v)
    → All (ReadsOnly xs) rs
    → All (ReadsOnly ys) rs
ReadsOnly-contains xs ys [] e h = tt
ReadsOnly-contains xs ys (r ∷ rs) e h =
    (ground (arith, e r.task), ReadsOnly-contains xs ys rs e h.1)

check_condition-lem :
    (task : String) (out deps : List String) (g : Option Condition)
    → ((v : String) → contains out v ≡ contains deps v)
    → check_condition task out g ≡ ok tt
    → GateAdmitted deps g
unfolding check_condition
check_condition-lem task out deps none e h = tt
check_condition-lem task out deps (some c) e h = (
  ground arith,
  ground arith,
  ReadsOnly-contains out deps c.rules e (check_rules-lem task out c.rules (ground arith)),
)

check_task-lem : (ns : List String) (t : Task) → check_task ns t ≡ ok tt → TaskAdmitted ns t
unfolding check_task
check_task-lem ns t h =
    let (u, e, rest) = >>=-eq-ok (refuse (t.job_ref == "") _) _ h in
    let (out, deps, gate) = >>=-eq-ok (check_dependencies ns t.name [] t.depends_on) _ rest in
    let lem = check_dependencies-lem ns t.name [] t.depends_on out deps in
    record {
      has_job = ground arith;
      known =
          all_of_occurrences (λ v. not (v == t.name) && contains ns v) t.depends_on
            λ v p. ground (arith, (lem v).2 p);
      once = λ v. ground (arith, lem v);
      gate_admitted =
          check_condition-lem t.name out t.depends_on t.gate
            (λ v.
              ground
                (arith, lem v, contains-occurrences out v, contains-occurrences t.depends_on v))
            gate;
    }

check_tasks-lem :
    (ns : List String) (ts : List Task) → check_tasks ns ts ≡ ok tt → All (TaskAdmitted ns) ts
unfolding check_tasks
check_tasks-lem ns [] h = tt
check_tasks-lem ns (t ∷ ts) h =
    let (u, e, rest) = >>=-eq-ok (check_task ns t) _ h in
    (check_task-lem ns t (ground (arith, e)), check_tasks-lem ns ts rest)

-- What ValidateDAG promises of the DAG that it accepts.
pub record Admitted (dag : Dag) : Type 0 where
  pub non_empty : 1 ≤ length dag.tasks
  pub named : all (λ v. not (v == "")) (names dag.tasks) ≡ true
  pub unique : Unique dag.tasks
  pub tasks_admitted : All (TaskAdmitted (names dag.tasks)) dag.tasks
  pub no_cycle : has_cycle dag ≡ some false

pub known-contains :
    (ns ms : List String) (ts : List Task)
    → ((v : String) → contains ns v ≡ contains ms v)
    → All (TaskAdmitted ns) ts
    → All (TaskAdmitted ms) ts
known-contains ns ms [] e h = tt
known-contains ns ms (t ∷ ts) e h = (
  record {
    has_job = h.0.has_job;
    known =
        all_of_occurrences (λ v. not (v == t.name) && contains ms v) t.depends_on
          λ v p. ground (
            arith,
            e v,
            test_of_all (λ v. not (v == t.name) && contains ns v) t.depends_on v h.0.known p,
          );
    once = h.0.once;
    gate_admitted = h.0.gate_admitted;
  },
  known-contains ns ms ts e h.1,
)

-- An accepted DAG has at least one task, task names that are non-empty and differ, for each task a
-- job reference, dependencies that are other tasks of the DAG and are listed once, and a gate (if
-- any) of a known type whose rules, at least one, read only the task's own dependencies; and the
-- cycle search found no cycle.
pub validate_dag-Admitted : (dag : Dag) → validate_dag dag ≡ ok tt → Admitted dag
unfolding validate_dag
validate_dag-Admitted dag h =
    let (u, filled, rest) = >>=-eq-ok (refuse (eqb (length dag.tasks) 0) _) _ h in
    let (ns, collected, rest') = >>=-eq-ok (collect_names [] dag.tasks) _ rest in
    let (u', checked, searched) = >>=-eq-ok (check_tasks ns dag.tasks) _ rest' in
    let lem = collect_names-lem [] dag.tasks ns collected in
    record {
      non_empty = ground arith;
      named =
          all_of_occurrences (λ v. not (v == "")) (names dag.tasks)
            λ v p. ground (arith, (lem v).2 p);
      unique = λ v. ground (arith, lem v);
      tasks_admitted =
          known-contains ns (names dag.tasks) dag.tasks
            (λ v.
              ground
                (arith, lem v, contains-occurrences ns v, contains-occurrences (names dag.tasks) v))
            (check_tasks-lem ns dag.tasks (ground (arith, checked)));
      no_cycle = ground arith;
    }
