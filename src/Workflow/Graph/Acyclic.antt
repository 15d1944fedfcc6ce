-- ===== src/Workflow/Graph/Acyclic.antt =====
-- hasCycle in internal/core/domain/workflow/dag.go: it reports no cycle where there is none.
use orbitjob.Prelude.{
  ℕ, zero, suc, ◌+◌, ◌<◌, ◌≡◌, refl, ap, subst, ◌∙◌, inl, inr, String, Bool, true, false, List, [],
  ◌∷◌, Option, none, some, arith, eq_iff, contains, length, all, all_of_occurrences, leb,
  Bool-cases,
}
use orbitjob.Workflow.{Task, Dag}
use orbitjob.Workflow.Graph.{neighbors, Search, without, visit_each, dfs, search_from, has_cycle}
use orbitjob.Workflow.Graph.Degrees.{occurrences-neighbors}
use orbitjob.Workflow.Graph.Depth.{Within, contains-without}
use orbitjob.Workflow.Graph.Order.{Ranked}
use orbitjob.Workflow.Graph.Cycles.{has_cycle_total}

module _ (ts : List Task) (rank : String → ℕ) (ranked : Ranked ts rank) where
  -- No cycle is reported, and the stack is left as it was found.
  abbrev Quiet : Search → Option (Search × Bool) → Type 0
  Quiet s none = Unit
  Quiet s (some (s', true)) = ⊥
  Quiet s (some (s', false)) = Within s'.stack s.stack

  abbrev Below : Search → ℕ → Type 0
  Below s r = (v : String) → contains s.stack v ≡ true → rank v < r

  abbrev Calm : (String → Search → Option (Search × Bool)) → Type 0
  Calm go = (n : String) (s : Search) → Below s (rank n) → Quiet s (go n s)

  after-Quiet :
      (go : String → Search → Option (Search × Bool)) (ns : List String) (s : Search)
      (r : Option (Search × Bool))
      → ((s' : Search) → Within s'.stack s.stack → Quiet s (visit_each go ns s'))
      → Quiet s r
      → Quiet s (elim r [
        | none ↦ none
        | some (s', true) ↦ some (s', true)
        | some (s', false) ↦ visit_each go ns s'
      ])
  after-Quiet go ns s none k q = tt
  after-Quiet go ns s (some (s', true)) k q = q
  after-Quiet go ns s (some (s', false)) k q = k s' q

  widen-Quiet :
      (s s' : Search) (r : Option (Search × Bool))
      → Within s'.stack s.stack
      → Quiet s' r
      → Quiet s r
  widen-Quiet s s' none w q = tt
  widen-Quiet s s' (some (t, true)) w q = q
  widen-Quiet s s' (some (t, false)) w q = λ v p. w v (q v p)

  -- The loop over neighbors that all rank above the stack.
  each-Quiet :
      (go : String → Search → Option (Search × Bool)) (r : ℕ) (ns : List String) (s : Search)
      → Calm go
      → all (λ n. leb r (rank n)) ns ≡ true
      → Below s r
      → Quiet s (visit_each go ns s)
  unfolding visit_each
  each-Quiet go r [] s calm a b = λ v p. p
  each-Quiet go r (n ∷ ns) s calm a b = elim (Bool-cases (contains s.visited n)) [
    | inr new ↦ rw new (
        after-Quiet go ns s (go n s)
          (λ s' w.
            widen-Quiet s s' (visit_each go ns s') w
              (each-Quiet go r ns s' calm (ground arith) (λ v p. b v (w v p))))
          (calm n s (λ v p. ground (arith, b v p))))
    | inl old ↦ rw old (elim (Bool-cases (contains s.stack n)) [
      | inl on_stack ↦ absurd (ground (arith, b n on_stack))
      | inr off ↦ rw off (each-Quiet go r ns s calm (ground arith) b)
    ])
  ]

  neighbors_above : (d : String) → all (λ n. leb (suc (rank d)) (rank n)) (neighbors ts d) ≡ true
  neighbors_above d =
      all_of_occurrences (λ n. leb (suc (rank d)) (rank n)) (neighbors ts d)
        λ v p. ground (arith, ranked v d (omega (arith, occurrences-neighbors ts d v)))

  abbrev entering : String → Search → Search
  entering node s = record { visited = node ∷ s.visited; stack = node ∷ s.stack }

  leave-Quiet :
      (node : String) (s : Search) (r : Option (Search × Bool))
      → Quiet (entering node s) r
      → Quiet s (elim r [
        | none ↦ none
        | some (s', true) ↦ some (s', true)
        | some (s', false) ↦ some (record s' { stack = without node s'.stack }, false)
      ])
  leave-Quiet node s none q = tt
  leave-Quiet node s (some (s', true)) q = q
  leave-Quiet node s (some (s', false)) q =
      λ v p. ground (arith, q v, contains-without node v s'.stack)

  dfs-Quiet : (fuel : ℕ) → Calm (dfs ts fuel)
  unfolding dfs
  dfs-Quiet zero node s b = tt
  dfs-Quiet (suc fuel) node s b =
      leave-Quiet node s (visit_each (dfs ts fuel) (neighbors ts node) (entering node s)) (
        each-Quiet (dfs ts fuel) (suc (rank node)) (neighbors ts node) (entering node s)
          (dfs-Quiet fuel) (neighbors_above node) (λ v p. ground (arith, b v, eq_iff node v)))

  abbrev Clear : Option Bool → Type 0
  Clear none = Unit
  Clear (some b) = b ≡ false

  search-Quiet :
      (go : String → Search → Option (Search × Bool)) (us : List Task) (s : Search)
      → Calm go
      → Within s.stack []
      → Clear (search_from go us s)
  unfolding search_from
  search-Quiet go [] s calm e = refl
  search-Quiet go (u ∷ us) s calm e = elim (Bool-cases (contains s.visited u.name)) [
    | inl old ↦ rw old (search-Quiet go us s calm e)
    | inr new ↦ rw new (
        next (go u.name s) (λ s' w. search-Quiet go us s' calm (λ v p. e v (w v p)))
          (calm u.name s (λ v p. absurd (false_of (e v p)))))
  ]
    where
      false_of : false ≡ true → ⊥
      false_of h = cc

      next :
          (r : Option (Search × Bool))
          → ((s' : Search) → Within s'.stack s.stack → Clear (search_from go us s'))
          → Quiet s r
          → Clear (elim r [
            | none ↦ none
            | some (s', true) ↦ some true
            | some (s', false) ↦ search_from go us s'
          ])
      next none k q = tt
      next (some (s', true)) k q = absurd q
      next (some (s', false)) k q = k s' q

answer :
    (dag : Dag) (rank : String → ℕ) (ranked : Ranked dag.tasks rank)
    → Clear dag.tasks rank ranked (has_cycle dag)
unfolding has_cycle
answer dag rank ranked =
    search-Quiet dag.tasks rank ranked (dfs dag.tasks (length dag.tasks + 1)) dag.tasks
      (record { visited = []; stack = [] }) (dfs-Quiet dag.tasks rank ranked (length dag.tasks + 1))
      (λ v p. p)

-- Tasks that depend only on tasks of a lower rank, so on none in a cycle, are found to have no cycle.
pub has_cycle-Ranked :
    (dag : Dag) (rank : String → ℕ) → Ranked dag.tasks rank → has_cycle dag ≡ some false
has_cycle-Ranked dag rank ranked =
    let (b, e) = has_cycle_total dag in
    let clear : b ≡ false = subst (Clear dag.tasks rank ranked) e (answer dag rank ranked) in
    e ∙ ap some clear
