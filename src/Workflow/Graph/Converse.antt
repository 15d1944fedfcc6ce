-- ===== src/Workflow/Graph/Converse.antt =====
-- ValidateDAG in internal/core/domain/workflow/dag.go: what it accepts.
use orbitjob.Prelude.{
  ℕ, ◌+◌, ◌≤◌, ◌≡◌, refl, String, true, false, not, ◌&&◌, List, [], ◌∷◌, Option, none, some, arith,
  ◌==◌, eq_iff, contains, length, occurrences, contains-occurrences, all, All, test_of_all, eqb,
}
use orbitjob.Prelude.Result.{ok}
use orbitjob.Workflow.{Rule, Condition, Task, Dag}
use orbitjob.Workflow.Graph.{
  collect_names, check_dependencies, check_rules, check_condition, check_task, check_tasks,
  validate_dag,
}
use orbitjob.Workflow.Graph.Degrees.{names}
use orbitjob.Workflow.Graph.Order.{Unique, Ranked}
use orbitjob.Workflow.Graph.Admission.{
  ReadsOnly, ReadsOnly-contains, GateAdmitted, TaskAdmitted, known-contains, collect_names-lem,
  check_dependencies-lem,
}
use orbitjob.Workflow.Graph.Acyclic.{has_cycle-Ranked}

collects :
    (seen : List String) (ts : List Task)
    → all (λ v. not (v == "")) (names ts) ≡ true
    → ((v : String) → occurrences v (names ts) + occurrences v seen ≤ 1)
    → (ns : List String) × (collect_names seen ts ≡ ok ns)
unfolding collect_names
collects seen [] h u = (seen, refl)
collects seen (t ∷ ts) h u =
    let fresh : contains seen t.name ≡ false =
      ground (arith, u t.name, contains-occurrences seen t.name, eq_iff t.name t.name) in
    let filled : (t.name == "") ≡ false = ground arith in
    let (ns, e) = collects (t.name ∷ seen) ts (ground arith) (λ v. ground (arith, u v)) in
    (ns, rw (filled, fresh) e)

abbrev Independent : List String → String → List String → Type 0
Independent ns task ds = all (λ v. not (v == task) && contains ns v) ds ≡ true

takes_dependencies :
    (ns : List String) (task : String) (seen ds : List String)
    → Independent ns task ds
    → ((v : String) → occurrences v ds + occurrences v seen ≤ 1)
    → (out : List String) × (check_dependencies ns task seen ds ≡ ok out)
unfolding check_dependencies
takes_dependencies ns task seen [] h u = (seen, refl)
takes_dependencies ns task seen (d ∷ ds) h u =
    let fresh : contains seen d ≡ false =
      ground (arith, u d, contains-occurrences seen d, eq_iff d d) in
    let other : (d == task) ≡ false = ground arith in
    let known : contains ns d ≡ true = ground arith in
    let (out, e) =
      takes_dependencies ns task (d ∷ seen) ds (ground arith) (λ v. ground (arith, u v)) in
    (out, rw (other, known, fresh) e)

takes_rules :
    (task : String) (deps : List String) (rs : List Rule)
    → contains deps "" ≡ false
    → All (ReadsOnly deps) rs
    → check_rules task deps rs ≡ ok tt
unfolding check_rules
takes_rules task deps [] e h = refl
takes_rules task deps (r ∷ rs) e h =
    let filled : (r.task == "") ≡ false = ground (arith, h.0, eq_iff r.task "") in
    rw (filled, h.0) (takes_rules task deps rs e h.1)

takes_gate :
    (task : String) (out deps : List String) (g : Option Condition)
    → ((v : String) → contains deps v ≡ contains out v)
    → contains deps "" ≡ false
    → GateAdmitted deps g
    → check_condition task out g ≡ ok tt
unfolding check_condition
takes_gate task out deps none e n h = refl
takes_gate task out deps (some c) e n h =
    let rules =
      takes_rules task out c.rules (ground (arith, e "", n))
        (ReadsOnly-contains deps out c.rules e h.2) in
    ground (arith, h.0, h.1, rules)

takes_task :
    (ns : List String) (t : Task)
    → contains ns "" ≡ false
    → TaskAdmitted ns t
    → check_task ns t ≡ ok tt
unfolding check_task
takes_task ns t n a =
    let (out, e) =
      takes_dependencies ns t.name [] t.depends_on a.known (λ v. ground (arith, a.once v)) in
    let lem = check_dependencies-lem ns t.name [] t.depends_on out e in
    let agree : (v : String) → contains t.depends_on v ≡ contains out v =
      λ v. ground (arith, lem v, contains-occurrences out v, contains-occurrences t.depends_on v) in
    let plain : contains t.depends_on "" ≡ false = ground (
      arith,
      contains-occurrences t.depends_on "",
      test_of_all (λ v. not (v == t.name) && contains ns v) t.depends_on "" a.known,
    ) in
    rw (a.has_job, e) (takes_gate t.name out t.depends_on t.gate agree plain a.gate_admitted)

takes_tasks :
    (ns : List String) (ts : List Task)
    → contains ns "" ≡ false
    → All (TaskAdmitted ns) ts
    → check_tasks ns ts ≡ ok tt
unfolding check_tasks
takes_tasks ns [] n h = refl
takes_tasks ns (t ∷ ts) n h = rw (takes_task ns t n h.0) (takes_tasks ns ts n h.1)

-- ValidateDAG refuses no proper DAG: it accepts at least one task with non-empty names that differ,
-- where each task has a job reference, lists other tasks of the DAG as its dependencies, each once
-- and of a lower rank (so that there is no cycle), and has a gate, if any, of a known type with at
-- least one rule, all of them on its own dependencies.
pub validate_dag_complete :
    (dag : Dag) (rank : String → ℕ)
    → 1 ≤ length dag.tasks
    → all (λ v. not (v == "")) (names dag.tasks) ≡ true
    → Unique dag.tasks
    → All (TaskAdmitted (names dag.tasks)) dag.tasks
    → Ranked dag.tasks rank
    → validate_dag dag ≡ ok tt
unfolding validate_dag
validate_dag_complete dag rank one named u admitted ranked =
    let (ns, e) = collects [] dag.tasks named (λ v. ground (arith, u v)) in
    let lem = collect_names-lem [] dag.tasks ns e in
    let agree : (v : String) → contains (names dag.tasks) v ≡ contains ns v = λ v.
      ground (arith, lem v, contains-occurrences ns v, contains-occurrences (names dag.tasks) v) in
    let plain : contains ns "" ≡ false = ground (
      arith,
      agree "",
      contains-occurrences (names dag.tasks) "",
      test_of_all (λ v. not (v == "")) (names dag.tasks) "" named,
      eq_iff "" "",
    ) in
    let some_task : eqb (length dag.tasks) 0 ≡ false = ground arith in
    let checked =
      takes_tasks ns dag.tasks plain
        (known-contains (names dag.tasks) ns dag.tasks agree admitted) in
    rw (some_task, e, checked, has_cycle-Ranked dag rank ranked) refl
