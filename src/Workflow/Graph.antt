-- ===== src/Workflow/Graph.antt =====
-- internal/core/domain/workflow/dag.go: admission of a DAG, its cycle search and its order. A Go
-- map that is only read by key is a function or a list of its keys; `graph[d]` lists the tasks
-- that depend on `d` in the order in which the loop appends them.
pub mod Admission
pub mod Degrees
pub mod Order
pub mod Depth
pub mod Cycles
pub mod Acyclic
pub mod Accepted
pub mod Converse
use orbitjob.Prelude.{
  ℕ, zero, suc, ◌+◌, String, Bool, true, false, not, ◌||◌, ◌&&◌, List, [], ◌∷◌, ◌++◌, Option, none,
  some, ◌==◌, contains, length, eqb, if◌then◌else◌, map,
}
use orbitjob.Prelude.Int.{ℤ, pos, pred_ℤ, is_zero_ℤ}
use orbitjob.Prelude.Result.{Result, ok, err, ◌>>=◌, ◌>>◌, refuse}
use orbitjob.Workflow.{ConditionType, every, some_rule, other_type, Rule, Condition, Task, Dag}

pub data DagError : Type 0 where
  no_tasks empty_name : DagError
  duplicate_name no_job_ref self_dependency : String → DagError
  unknown_dependency repeated_dependency : String → String → DagError
  unknown_condition_type no_rules empty_rule_task : String → DagError
  foreign_rule : String → String → DagError
  cycle out_of_fuel : DagError

-- The first loop of ValidateDAG; `names` are the keys of the map so far.
unfoldable pub collect_names : List String → List Task → Result DagError (List String)
collect_names names [] = ok names
collect_names names (t ∷ ts) = do
  refuse (t.name == "") empty_name
  refuse (contains names t.name) (duplicate_name t.name)
  collect_names (t.name ∷ names) ts

-- The loop over a task's dependsOn; `seen` are the keys of `dependencies` so far.
unfoldable pub check_dependencies :
    List String → String → List String → List String → Result DagError (List String)
check_dependencies names task seen [] = ok seen
check_dependencies names task seen (d ∷ ds) = do
  refuse (d == task) (self_dependency task)
  refuse (not (contains names d)) (unknown_dependency task d)
  refuse (contains seen d) (repeated_dependency task d)
  check_dependencies names task (d ∷ seen) ds

unfoldable pub check_rules : String → List String → List Rule → Result DagError (Unit {0})
check_rules task dependencies [] = ok tt
check_rules task dependencies (r ∷ rs) = do
  refuse (r.task == "") (empty_rule_task task)
  refuse (not (contains dependencies r.task)) (foreign_rule task r.task)
  check_rules task dependencies rs

abbrev is_known_type : ConditionType → Bool
is_known_type (other_type _) = false
is_known_type _ = true

abbrev has_no_rules : List Rule → Bool
has_no_rules [] = true
has_no_rules _ = false

unfoldable pub check_condition :
    String → List String → Option Condition → Result DagError (Unit {0})
unfolding check_rules
check_condition task dependencies none = ok tt
check_condition task dependencies (some c) = do
  refuse (not (is_known_type c.type)) (unknown_condition_type task)
  refuse (has_no_rules c.rules) (no_rules task)
  check_rules task dependencies c.rules

unfoldable pub check_task : List String → Task → Result DagError (Unit {0})
unfolding check_dependencies check_condition
check_task names t = do
  refuse (t.job_ref == "") (no_job_ref t.name)
  dependencies ← check_dependencies names t.name [] t.depends_on
  check_condition t.name dependencies t.gate

unfoldable pub check_tasks : List String → List Task → Result DagError (Unit {0})
unfolding check_task
check_tasks names [] = ok tt
check_tasks names (t ∷ ts) = do check_task names t; check_tasks names ts

-- graph[d] after the tasks' dependency loops: one entry for each time a task lists `d`.
unfoldable pub edges_from : String → List String → String → List String
edges_from task [] d = []
edges_from task (e ∷ es) d = let rest = edges_from task es d in if e == d then task ∷ rest else rest

unfoldable pub neighbors : List Task → String → List String
unfolding edges_from
neighbors [] d = []
neighbors (t ∷ ts) d = edges_from t.name t.depends_on d ++ neighbors ts d

-- `visited` and `recStack` of the search: the keys that are true.
pub record Search : Type 0 where
  pub visited : List String
  pub stack : List String

abbrev pub without : String → List String → List String
without k [] = []
without k (x ∷ xs) = let rest = without k xs in if x == k then rest else x ∷ rest

-- The loop over the neighbors, with the recursive call as an argument. The answer is the state and
-- whether a cycle was found; `none` is a search that ran out of fuel.
unfoldable pub visit_each :
    (String → Search → Option (Search × Bool)) → List String → Search → Option (Search × Bool)
visit_each go [] s = some (s, false)
visit_each go (n ∷ ns) s =
    let rest = visit_each go ns s in
    if not (contains s.visited n)
    then elim (go n s) [
      | none ↦ none
      | some (s', true) ↦ some (s', true)
      | some (s', false) ↦ visit_each go ns s'
    ]
    else if contains s.stack n
    then some (s, true)
    else rest

unfoldable pub dfs : List Task → ℕ → String → Search → Option (Search × Bool)
unfolding visit_each neighbors
dfs ts zero node s = none
dfs ts (suc fuel) node s =
    elim (visit_each (dfs ts fuel) (neighbors ts node)
      (record { visited = node ∷ s.visited; stack = node ∷ s.stack })) [
        | none ↦ none
        | some (s', true) ↦ some (s', true)
        | some (s', false) ↦ some (record s' { stack = without node s'.stack }, false)
      ]

-- The outer loop over the tasks.
unfoldable pub search_from :
    (String → Search → Option (Search × Bool)) → List Task → Search → Option Bool
search_from go [] s = some false
search_from go (t ∷ ts) s =
    let rest = search_from go ts s in
    if contains s.visited t.name then rest else elim (go t.name s) [
      | none ↦ none
      | some (s', true) ↦ some true
      | some (s', false) ↦ search_from go ts s'
    ]

-- A call of the search marks a task that was not marked before, so the calls nest at most as deep
-- as there are tasks.
unfoldable pub has_cycle : Dag → Option Bool
unfolding search_from dfs
has_cycle dag =
    search_from (dfs dag.tasks (length dag.tasks + 1)) dag.tasks
      (record { visited = []; stack = [] })

unfoldable pub validate_dag : Dag → Result DagError (Unit {0})
unfolding collect_names check_tasks has_cycle
validate_dag dag = do
  refuse (eqb (length dag.tasks) 0) no_tasks
  names ← collect_names [] dag.tasks
  check_tasks names dag.tasks
  elim (has_cycle dag) [ none ↦ err out_of_fuel | some true ↦ err cycle | some false ↦ ok tt ]

-- inDegree[v] after the loops: the dependencies that the tasks named `v` list.
unfoldable pub dependency_count : List Task → String → ℕ
dependency_count [] v = 0
dependency_count (t ∷ ts) v =
    let rest = dependency_count ts v in if t.name == v then length t.depends_on + rest else rest

abbrev pub update : (String → ℤ) → String → ℤ → String → ℤ
update f k v j = if k == j then v else f j

-- The initial queue.
unfoldable pub roots : (String → ℤ) → List Task → List String
roots degree [] = []
roots degree (t ∷ ts) =
    let rest = roots degree ts in if is_zero_ℤ (degree t.name) then t.name ∷ rest else rest

-- The loop over graph[current].
unfoldable pub release : List String → (String → ℤ) → List String → (String → ℤ) × List String
release [] degree queue = (degree, queue)
release (n ∷ ns) degree queue =
    let left = pred_ℤ (degree n) in
    release ns (update degree n left) (if is_zero_ℤ left then queue ++ n ∷ [] else queue)

unfoldable pub drain :
    List Task → ℕ → (String → ℤ) → List String → List String → Option (List String)
unfolding release neighbors
drain ts fuel degree [] order = some order
drain ts zero degree (current ∷ queue) order = none
drain ts (suc fuel) degree (current ∷ queue) order =
    let (degree', queue') = release (neighbors ts current) degree queue in
    drain ts fuel degree' queue' (order ++ current ∷ [])

-- Every pop of the queue is of a task that enters it once.
unfoldable pub topological_sort : Dag → Result DagError (List String)
unfolding dependency_count roots drain
topological_sort dag =
    let degree = λ (v : String). pos (dependency_count dag.tasks v) in
    elim (drain dag.tasks (length dag.tasks) degree (roots degree dag.tasks) []) [
      | none ↦ err out_of_fuel
      | some order ↦ if eqb (length order) (length dag.tasks) then ok order else err cycle
    ]
