-- ===== src/Workflow/Graph/Order.antt =====
-- Kahn's algorithm (TopologicalSort in internal/core/domain/workflow/dag.go): its order respects
-- the dependencies, and an acyclic set of tasks has one.
use orbitjob.Prelude.{
  ℕ, zero, suc, ◌+◌, ◌≤◌, ◌<◌, ◌≡◌, refl, ap, ◌⊎◌, inl, inr, String, true, false, List, [], ◌∷◌,
  ◌++◌, Option, none, some, arith, eq_iff, contains, length, length-append, occurrences,
  occurrences-append, contains-occurrences, all, if◌then◌else◌, eqb, append_assoc, append-nil,
  Bool-cases, length-le_of_occurrences, occurrences-eq_of_length, all_of_occurrences,
}
use orbitjob.Prelude.Int.{ℤ, pos, is_zero_ℤ}
use orbitjob.Prelude.Result.{ok, err}
use orbitjob.Workflow.{Task, Dag}
use orbitjob.Workflow.Graph.{
  cycle, neighbors, dependency_count, roots, release, drain, topological_sort,
}
use orbitjob.Workflow.Graph.Degrees.{
  names, dependencies, dependency_count-length, occurrences-neighbors, names_of_dependency,
  remaining, remaining-snoc, remaining-nil, remaining-zero, all-remaining, Settled, Counts, Named,
  release_inv,
}

-- Each task of the order comes after all of its dependencies; `done` comes before the order.
abbrev pub Respects : List Task → List String → List String → Type 0
Respects ts done [] = Unit {0}
Respects ts done (v ∷ vs) =
    (all (contains done) (dependencies ts v) ≡ true) × Respects ts (done ++ v ∷ []) vs

Respects-snoc :
    (ts : List Task) (done vs : List String) (v : String)
    → Respects ts done vs
    → all (contains (done ++ vs)) (dependencies ts v) ≡ true
    → Respects ts done (vs ++ v ∷ [])
Respects-snoc ts done [] v h k = (rw append-nil at k, tt)
Respects-snoc ts done (w ∷ vs) v h k =
    (h.0, Respects-snoc ts (done ++ w ∷ []) vs v h.1 (rw append_assoc k))

module _ (ts : List Task) where
  -- What holds at the head of the loop.
  record Inv (degree : String → ℤ) (queue order : List String) : Type 0 where
    counted : (v : String) → degree v ≡ pos (remaining order (dependencies ts v))
    settled : Settled (names ts) degree queue order
    ordered : Respects ts [] order

  pop_fresh :
      (degree : String → ℤ) (current : String) (queue order : List String)
      → Settled (names ts) degree (current ∷ queue) order
      → (contains order current ≡ false) × (is_zero_ℤ (degree current) ≡ true)
  pop_fresh degree current queue order s = (
    ground (arith, s current, eq_iff current current, contains-occurrences order current),
    ground (arith, s current, eq_iff current current),
  )

  module _ (degree : String → ℤ) (current : String) (queue order : List String)
      (inv : Inv degree (current ∷ queue) order) where
    fresh : contains order current ≡ false
    fresh = (pop_fresh degree current queue order inv.settled).0

    left : String → ℕ
    left v = remaining (order ++ current ∷ []) (dependencies ts v)

    Counts-before : Counts left degree (neighbors ts current)
    unfolding left
    Counts-before v = ground (
      arith,
      inv.counted v,
      remaining-snoc order current (dependencies ts v) fresh,
      occurrences-neighbors ts current v,
    )

    named : Named (names ts) (neighbors ts current)
    named v h = names_of_dependency ts current v (omega (arith, occurrences-neighbors ts current v))

    Settled-before : Settled (names ts) degree queue (order ++ current ∷ [])
    Settled-before v = ground (arith, inv.settled v, occurrences-append v order (current ∷ []))

    after :
        let r = release (neighbors ts current) degree queue in
        Counts left r.0 [] × Settled (names ts) r.0 r.1 (order ++ current ∷ [])
    after =
        release_inv (names ts) left (neighbors ts current) degree queue (order ++ current ∷ [])
          Counts-before named Settled-before

    all_done : all (contains order) (dependencies ts current) ≡ true
    all_done =
        remaining-zero order (dependencies ts current) (
          ground (arith, inv.counted current, (pop_fresh degree current queue order inv.settled).1))

    step-Inv :
        let r = release (neighbors ts current) degree queue in Inv r.0 r.1 (order ++ current ∷ [])
    unfolding left
    step-Inv = record {
      counted = λ v. ground (arith, after.0 v);
      settled = after.1;
      ordered = Respects-snoc ts [] order current inv.ordered all_done;
    }

  -- The tasks in the queue and in the order are never more than the tasks.
  room :
      (degree : String → ℤ) (queue order : List String)
      → Settled (names ts) degree queue order
      → length queue + length order ≤ length (names ts)
  room degree queue order s = omega (
    arith,
    length-append queue order,
    length-le_of_occurrences (queue ++ order) (names ts) λ v.
        ground (arith, occurrences-append v queue order, s v, contains-occurrences (names ts) v),
  )

  -- What holds at the end of the loop.
  abbrev Drained : List String → Type 0
  Drained order = (degree : String → ℤ) × Inv degree [] order

  abbrev Ends : Option (List String) → Type 0
  Ends none = ⊥
  Ends (some order) = Drained order

  drain-Ends :
      (fuel : ℕ) (degree : String → ℤ) (queue order : List String)
      → Inv degree queue order
      → length (names ts) ≤ fuel + length order
      → Ends (drain ts fuel degree queue order)
  unfolding drain
  drain-Ends zero degree [] order inv h = (degree, inv)
  drain-Ends (suc fuel) degree [] order inv h = (degree, inv)
  drain-Ends zero degree (current ∷ queue) order inv h =
      absurd (omega (arith, room degree (current ∷ queue) order inv.settled))
  drain-Ends (suc fuel) degree (current ∷ queue) order inv h =
      drain-Ends fuel _ _ (order ++ current ∷ []) (step-Inv degree current queue order inv)
        (omega (arith, length-append order (current ∷ [])))

-- No two tasks have one name.
abbrev pub Unique : List Task → Type 0
Unique ts = (v : String) → occurrences v (names ts) ≤ 1

occurrences-roots :
    (degree : String → ℤ) (ts : List Task) (v : String)
    → occurrences v (roots degree ts)
      ≡ (if is_zero_ℤ (degree v) then occurrences v (names ts) else 0)
unfolding roots
occurrences-roots degree [] v = ground arith
occurrences-roots degree (t ∷ ts) v = ground (arith, occurrences-roots degree ts v, eq_iff t.name v)

length-names : (ts : List Task) → length (names ts) ≡ length ts
length-names [] = refl
length-names (t ∷ ts) = ap suc (length-names ts)

abbrev start_degree : List Task → String → ℤ
start_degree ts v = pos (dependency_count ts v)

start-Inv : (ts : List Task) → Unique ts → Inv ts (start_degree ts) (roots (start_degree ts) ts) []
start-Inv ts u = record {
  counted = λ v. ground (arith, dependency_count-length ts v, remaining-nil (dependencies ts v));
  settled = λ v.
      ground
        (arith, occurrences-roots (start_degree ts) ts v, u v, contains-occurrences (names ts) v);
  ordered = tt;
}

-- The order that the loop of an admitted DAG ends with.
loop_result : (ts : List Task) → Option (List String)
loop_result ts = drain ts (length ts) (start_degree ts) (roots (start_degree ts) ts) []

loop-Ends : (ts : List Task) → Unique ts → Ends ts (loop_result ts)
unfolding loop_result
loop-Ends ts u = drain-Ends ts (length ts) _ _ [] (start-Inv ts u) (omega (arith, length-names ts))

loop-Drained :
    (ts : List Task)
    → Unique ts
    → (order : List String) × (loop_result ts ≡ some order) × Drained ts order
loop-Drained ts u = go (loop_result ts) (loop-Ends ts u)
  where
    go : (o : Option (List String)) → Ends ts o → (r : List String) × (o ≡ some r) × Drained ts r
    go none e = absurd e
    go (some r) e = (r, refl, e)

order_le :
    (ts : List Task) (degree : String → ℤ) (order : List String)
    → Inv ts degree [] order
    → (v : String) → occurrences v order ≤ occurrences v (names ts)
order_le ts degree order inv v = ground (arith, inv.settled v, contains-occurrences (names ts) v)

sort_of_loop :
    (dag : Dag) (r : List String)
    → loop_result dag.tasks ≡ some r
    → topological_sort dag ≡ (if eqb (length r) (length dag.tasks) then ok r else err cycle)
unfolding topological_sort loop_result
sort_of_loop dag r e = ground arith

-- With task names that differ, an order that TopologicalSort returns lists every task after all of
-- its dependencies, and holds exactly the tasks, each once.
pub topological_sort_sound :
    (dag : Dag) (order : List String)
    → Unique dag.tasks
    → topological_sort dag ≡ ok order
    → Respects dag.tasks [] order
      × ((v : String) → occurrences v order ≡ occurrences v (names dag.tasks))
topological_sort_sound dag order u h =
    let (r, e, d) = loop-Drained dag.tasks u in
    let inv : Inv dag.tasks d.0 [] r = d.1 in
    let full : (length r ≡ length dag.tasks) × (r ≡ order) = ground (arith, sort_of_loop dag r e) in
    rw (← full.1) (
      inv.ordered,
      occurrences-eq_of_length r (names dag.tasks) (order_le dag.tasks d.0 r inv)
          (omega (arith, full.0, length-names dag.tasks)),
    )

-- The dependencies of a task are tasks of a lower rank, so that the tasks have no cycle.
abbrev pub Ranked : List Task → (String → ℕ) → Type 0
Ranked ts rank =
    (v d : String)
    → 0 < occurrences d (dependencies ts v)
    → (contains (names ts) d ≡ true) × (rank d < rank v)

reached :
    (ts : List Task) (rank : String → ℕ) (degree : String → ℤ) (order : List String)
    → Ranked ts rank
    → Inv ts degree [] order
    → (k : ℕ) (v : String) → rank v < k
    → contains (names ts) v ≡ true
    → contains order v ≡ true
reached ts rank degree order ranked inv zero v h c = absurd (omega arith)
reached ts rank degree order ranked inv (suc k) v h c = ground (
  arith,
  inv.counted v,
  inv.settled v,
  contains-occurrences order v,
  all-remaining order (dependencies ts v) (
      all_of_occurrences (contains order) (dependencies ts v) λ d p.
        let q = ranked v d p in
        reached ts rank degree order ranked inv k d (omega (arith, q.1)) q.0),
)

-- Tasks with different names that depend only on tasks, and on none in a cycle, have an order:
-- TopologicalSort succeeds on them, and its loop does not run out of the fuel that it is given.
pub topological_sort_complete :
    (dag : Dag) (rank : String → ℕ)
    → Unique dag.tasks
    → Ranked dag.tasks rank
    → (order : List String) × (topological_sort dag ≡ ok order)
topological_sort_complete dag rank u ranked =
    let (r, e, d) = loop-Drained dag.tasks u in
    let inv : Inv dag.tasks d.0 [] r = d.1 in
    let all_in : (v : String) → occurrences v (names dag.tasks) ≤ occurrences v r = λ v. ground (
      arith,
      u v,
      contains-occurrences (names dag.tasks) v,
      contains-occurrences r v,
      reached dag.tasks rank d.0 r ranked inv (suc (rank v)) v (omega arith),
    ) in
    (
      r,
      ground (
        arith,
        sort_of_loop dag r e,
        length-names dag.tasks,
        length-le_of_occurrences (names dag.tasks) r all_in,
        length-le_of_occurrences r (names dag.tasks) (order_le dag.tasks d.0 r inv),
      ),
    )

-- With task names that differ, TopologicalSort returns an order or reports a cycle: the fuel of
-- its model, one round for each task, is enough.
pub topological_sort_total :
    (dag : Dag)
    → Unique dag.tasks
    → ((order : List String) × (topological_sort dag ≡ ok order))
      ⊎ (topological_sort dag ≡ err cycle)
topological_sort_total dag u =
    let (r, e, d) = loop-Drained dag.tasks u in
    elim (Bool-cases (eqb (length r) (length dag.tasks))) [
      | inl full ↦ inl (r, rw (sort_of_loop dag r e, full))
      | inr short ↦ inr (rw (sort_of_loop dag r e, short))
    ]
