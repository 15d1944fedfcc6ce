-- ===== src/Workflow/Graph/Cycles.antt =====
-- hasCycle in internal/core/domain/workflow/dag.go: the depth-first search has fuel enough, and
-- where it finds no cycle the tasks can be ranked.
use orbitjob.Prelude.{
  ℕ, suc, ◌+◌, ◌<◌, ◌≡◌, refl, subst, inl, inr, String, Bool, true, false, List, [], ◌∷◌, Option,
  none, some, arith, ◌==◌, eq_iff, contains, length, occurrences, contains-occurrences, all,
  contains_of_all, if◌then◌else◌, Bool-cases,
}
use orbitjob.Workflow.{Task, Dag}
use orbitjob.Workflow.Graph.{neighbors, Search, dfs, search_from, has_cycle}
use orbitjob.Workflow.Graph.Degrees.{
  names, dependencies, occurrences-neighbors, remaining, remaining-nil,
}
use orbitjob.Workflow.Graph.Depth.{
  Within, Closed, Good, Post, Calls, remaining_mono, visited_mono, dfs_post,
}

module _ (ts : List Task) where
  -- The answer of the outer loop: with no cycle, every task is finished.
  abbrev Answer : List String → List Task → Option Bool → Type 0
  Answer fin us none = ⊥
  Answer fin us (some true) = Unit
  Answer fin us (some false) =
      (fin' : List String) × Closed ts fin'
      × Within fin fin'
      × (all (contains fin') (names us) ≡ true)

  add_task :
      (fin fin' : List String) (u : Task) (us : List Task) (r : Option Bool)
      → Within fin fin'
      → contains fin' u.name ≡ true
      → Answer fin' us r
      → Answer fin (u ∷ us) r
  add_task fin fin' u us none h e p = p
  add_task fin fin' u us (some true) h e p = tt
  add_task fin fin' u us (some false) h e (fin'', c, w, q) =
      (fin'', c, λ v p. w v (h v p), ground (arith, w u.name))

  abbrev Empty : Search → Type 0
  Empty s = (v : String) → contains s.stack v ≡ false

  after_root :
      (go : String → Search → Option (Search × Bool)) (k : ℕ) (u : Task) (us : List Task)
      (s : Search) (fin : List String) (r : Option (Search × Bool))
      → ((s' : Search) (fin' : List String)
          → Good ts s' fin'
          → Empty s'
          → remaining s'.visited (names ts) < k
          → Answer fin' us (search_from go us s'))
      → Good ts s fin
      → Empty s
      → remaining s.visited (names ts) < k
      → Post ts s fin (u.name ∷ []) r
      → Answer fin (u ∷ us) (elim r [
        | none ↦ none
        | some (s', true) ↦ some true
        | some (s', false) ↦ search_from go us s'
      ])
  after_root go k u us s fin none rest g e b p = p
  after_root go k u us s fin (some (s', true)) rest g e b p = tt
  after_root go k u us s fin (some (s', false)) rest g e b (fin', h, q) =
      add_task fin fin' u us (search_from go us s') h.more (ground arith) (
        rest s' fin' h.good (λ v. ground (arith, h.same_stack v, e v))
          (omega (
            arith,
            remaining_mono s.visited s'.visited (names ts) (visited_mono ts s s' fin fin' g h),
          )))

  search_post :
      (go : String → Search → Option (Search × Bool)) (k : ℕ) (us : List Task) (s : Search)
      (fin : List String)
      → Calls ts go k
      → all (contains (names ts)) (names us) ≡ true
      → Good ts s fin
      → Empty s
      → remaining s.visited (names ts) < k
      → Answer fin us (search_from go us s)
  unfolding search_from
  search_post go k [] s fin calls a g e b = (fin, g.closed, λ v p. p, refl)
  search_post go k (u ∷ us) s fin calls a g e b = elim (Bool-cases (contains s.visited u.name)) [
    | inl old ↦ rw old (
        add_task fin fin u us (search_from go us s) (λ v p. p)
          (ground (arith, g.visited_split u.name, e u.name))
          (search_post go k us s fin calls (ground arith) g e b))
    | inr new ↦ rw new (
        after_root go k u us s fin (go u.name s)
          (λ s' fin' g' e' b'. search_post go k us s' fin' calls (ground arith) g' e' b') g e b
          (calls u.name s fin g new (ground arith) b))
  ]

  -- How far from the newest a finished task stands.
  position : List String → String → ℕ
  position [] v = 0
  position (w ∷ fin) v = if w == v then 0 else suc (position fin v)

  finished_after :
      (fin : List String) (d v : String)
      → Closed ts fin
      → contains fin d ≡ true
      → 0 < occurrences v (neighbors ts d)
      → (contains fin v ≡ true) × (position fin d < position fin v)
  unfolding position
  finished_after [] d v c h o = cc
  finished_after (w ∷ fin) d v c h o = elim (Bool-cases (w == d)) [
    | inl e ↦
        let w_is_d : w ≡ d = (eq_iff w d).0 e in
        let v_in : contains fin v ≡ true =
          contains_of_all fin (neighbors ts w) v c.1 (rw w_is_d o) in
        ground (arith, v_in, eq_iff w v, eq_iff w d)
    | inr ne ↦
        let ih = finished_after fin d v c.2 (ground arith) o in
        ground (arith, ih.0, ih.1, eq_iff w v)
  ]

all_self : (ys xs : List String) → Within xs ys → all (contains ys) xs ≡ true
all_self ys [] h = refl
all_self ys (x ∷ xs) h = ground (arith, h x, eq_iff x x, all_self ys xs (λ v p. h v (ground arith)))

-- The search of `has_cycle` ends within its fuel, and if it answers that there is no cycle, the
-- finished tasks are a list in which each task comes before the tasks that depend on it.
has_cycle-Answer : (dag : Dag) → Answer dag.tasks [] dag.tasks (has_cycle dag)
unfolding has_cycle
has_cycle-Answer dag =
    search_post dag.tasks (dfs dag.tasks (length dag.tasks + 1)) (length dag.tasks + 1) dag.tasks
      (record { visited = []; stack = [] }) [] (dfs_post dag.tasks (length dag.tasks + 1))
      (all_self (names dag.tasks) (names dag.tasks) (λ v p. p))
      (record { visited_split = λ v. refl; apart = λ v p. refl; closed = tt }) (λ v. refl)
      (omega (arith, remaining-nil (names dag.tasks), length-names dag.tasks))
  where
    length-names : (ts : List Task) → length (names ts) ≡ length ts
    length-names = elim [ [] ↦ refl | t ∷ (ts → ih) ↦ ground (arith, ih) ]

-- The cycle search always answers: the fuel of its model is enough.
pub has_cycle_total : (dag : Dag) → (b : Bool) × (has_cycle dag ≡ some b)
has_cycle_total dag = go (has_cycle dag) (has_cycle-Answer dag)
  where
    go : (o : Option Bool) → Answer dag.tasks [] dag.tasks o → (b : Bool) × (o ≡ some b)
    go none a = absurd a
    go (some b) a = (b, refl)

-- If no cycle is found, some rank of the tasks rises from each dependency to its dependents.
pub rank_of_no_cycle :
    (dag : Dag)
    → has_cycle dag ≡ some false
    → (rank : String → ℕ) × ((d v : String)
        → contains (names dag.tasks) d ≡ true
        → 0 < occurrences d (dependencies dag.tasks v)
        → rank d < rank v)
rank_of_no_cycle dag e = finish (has_cycle-Answer dag)
  where
    finish :
        Answer dag.tasks [] dag.tasks (has_cycle dag)
        → (rank : String → ℕ) × ((d v : String)
            → contains (names dag.tasks) d ≡ true
            → 0 < occurrences d (dependencies dag.tasks v)
            → rank d < rank v)
    finish a =
        let (fin, c, w, q) = subst (Answer dag.tasks [] dag.tasks) e a in
        (
          position dag.tasks fin,
          λ d v k o.
              (finished_after dag.tasks fin d v c
                (contains_of_all fin (names dag.tasks) d q
                  (ground (arith, contains-occurrences (names dag.tasks) d)))
                (omega (arith, occurrences-neighbors dag.tasks d v))).1,
        )
