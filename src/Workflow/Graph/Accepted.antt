-- ===== src/Workflow/Graph/Accepted.antt =====
-- What the admission gate gives the walker: ValidateDAG before TopologicalSort, in
-- internal/core/domain/workflow/dag.go.
use orbitjob.Prelude.{
  ◌<◌, ◌≡◌, String, true, List, [], ◌∷◌, arith, ◌==◌, contains, occurrences, occurrences-append,
  not, ◌&&◌, test_of_all, All,
}
use orbitjob.Prelude.Result.{ok}
use orbitjob.Workflow.{Task, Dag}
use orbitjob.Workflow.Graph.{topological_sort, validate_dag}
use orbitjob.Workflow.Graph.Degrees.{names, dependencies}
use orbitjob.Workflow.Graph.Order.{Respects, topological_sort_sound, topological_sort_complete}
use orbitjob.Workflow.Graph.Admission.{TaskAdmitted, Admitted, validate_dag-Admitted}
use orbitjob.Workflow.Graph.Cycles.{rank_of_no_cycle}

known_dependencies :
    (ns : List String) (ts : List Task)
    → All (TaskAdmitted ns) ts
    → (v d : String) → 0 < occurrences d (dependencies ts v)
    → contains ns d ≡ true
unfolding dependencies
known_dependencies ns [] h v d o = absurd (omega arith)
known_dependencies ns (t ∷ ts) h v d o = ground (
  arith,
  occurrences-append d t.depends_on (dependencies ts v),
  known_dependencies ns ts h.1 v d,
  test_of_all (λ e. not (e == t.name) && contains ns e) t.depends_on d h.0.known,
)

-- A DAG that ValidateDAG accepts is one that TopologicalSort orders: it returns no error, its order
-- lists every task after all of its dependencies, and it holds exactly the tasks, each once.
pub validated_dag_sorts :
    (dag : Dag)
    → validate_dag dag ≡ ok tt
    → (order : List String) × (topological_sort dag ≡ ok order)
      × Respects dag.tasks [] order
      × ((v : String) → occurrences v order ≡ occurrences v (names dag.tasks))
validated_dag_sorts dag h =
    let a : Admitted dag = validate_dag-Admitted dag h in
    let known = known_dependencies (names dag.tasks) dag.tasks a.tasks_admitted in
    let (rank, rises) = rank_of_no_cycle dag a.no_cycle in
    let (order, sorted) =
      topological_sort_complete dag rank a.unique
        (λ v d o. let k = known v d o in (k, rises d v k o)) in
    let sound = topological_sort_sound dag order a.unique sorted in
    (order, sorted, sound.0, sound.1)
