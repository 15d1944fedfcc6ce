-- ===== src/Workflow/Graph/Depth.antt =====
-- hasCycle in internal/core/domain/workflow/dag.go: what the depth-first search keeps, and that its
-- fuel suffices.
use orbitjob.Prelude.{
  ℕ, zero, suc, ◌≤◌, ◌<◌, ◌≡◌, refl, inl, inr, String, Bool, true, false, not, ◌&&◌, ◌||◌, List, [],
  ◌∷◌, Option, none, some, arith, ◌==◌, eq_iff, contains, all, all_of_occurrences, Bool-cases,
}
use orbitjob.Workflow.{Task}
use orbitjob.Workflow.Graph.{neighbors, Search, without, visit_each, dfs}
use orbitjob.Workflow.Graph.Degrees.{names, occurrences-neighbors, names_of_dependency, remaining}

pub contains-without :
    (k v : String) (xs : List String) → contains (without k xs) v ≡ (contains xs v && not (k == v))
contains-without k v [] = refl
contains-without k v (x ∷ xs) =
    ground (arith, contains-without k v xs, eq_iff x k, eq_iff x v, eq_iff k v)

abbrev pub Within : List String → List String → Type 0
Within xs ys = (v : String) → contains xs v ≡ true → contains ys v ≡ true

all_mono :
    (xs ys zs : List String)
    → Within xs ys
    → all (contains xs) zs ≡ true
    → all (contains ys) zs ≡ true
all_mono xs ys [] h k = refl
all_mono xs ys (z ∷ zs) h k = ground (arith, h z, all_mono xs ys zs h)

pub remaining_mono : (xs ys zs : List String) → Within xs ys → remaining ys zs ≤ remaining xs zs
unfolding remaining
remaining_mono xs ys [] h = omega arith
remaining_mono xs ys (z ∷ zs) h = ground (arith, h z, remaining_mono xs ys zs h)

remaining_falls :
    (c : String) (done zs : List String)
    → contains done c ≡ false
    → contains zs c ≡ true
    → remaining (c ∷ done) zs < remaining done zs
unfolding remaining
remaining_falls c done [] h k = cc
remaining_falls c done (z ∷ zs) h k = ground (
  arith,
  eq_iff c z,
  eq_iff z c,
  remaining_falls c done zs h,
  remaining_mono done (c ∷ done) zs (λ v p. ground arith),
)

module _ (ts : List Task) where
  -- The tasks that the search has finished, the newest first: each new, and after its neighbors.
  abbrev pub Closed : List String → Type 0
  Closed [] = Unit {0}
  Closed (w ∷ fin) =
      (contains fin w ≡ false) × (all (contains fin) (neighbors ts w) ≡ true) × Closed fin

  pub record Good (s : Search) (fin : List String) : Type 0 where
    pub visited_split : (v : String) → contains s.visited v ≡ (contains s.stack v || contains fin v)
    pub apart : (v : String) → contains s.stack v ≡ true → contains fin v ≡ false
    pub closed : Closed fin

  pub record Grown (s : Search) (fin : List String) (s' : Search) (fin' : List String)
      : Type 0 where
    pub good : Good s' fin'
    pub same_stack : (v : String) → contains s'.stack v ≡ contains s.stack v
    pub more : Within fin fin'

  abbrev pub Post : Search → List String → List String → Option (Search × Bool) → Type 0
  Post s fin ns none = ⊥
  Post s fin ns (some (s', true)) = Unit
  Post s fin ns (some (s', false)) =
      (fin' : List String) × Grown s fin s' fin' × (all (contains fin') ns ≡ true)

  abbrev pub Calls : (String → Search → Option (Search × Bool)) → ℕ → Type 0
  Calls go k =
      (n : String) (s : Search) (fin : List String)
      → Good s fin
      → contains s.visited n ≡ false
      → contains (names ts) n ≡ true
      → remaining s.visited (names ts) < k
      → Post s fin (n ∷ []) (go n s)

  pub visited_mono :
      (s s' : Search) (fin fin' : List String)
      → Good s fin
      → Grown s fin s' fin'
      → Within s.visited s'.visited
  visited_mono s s' fin fin' g h v p =
      ground (arith, g.visited_split v, h.good.visited_split v, h.same_stack v, h.more v)

  -- One call followed by the rest of the loop.
  after_call :
      (go : String → Search → Option (Search × Bool)) (k : ℕ) (n : String) (ns : List String)
      (s : Search) (fin : List String) (r : Option (Search × Bool))
      → ((s' : Search) (fin' : List String)
          → Good s' fin'
          → remaining s'.visited (names ts) < k
          → Post s' fin' ns (visit_each go ns s'))
      → Good s fin
      → remaining s.visited (names ts) < k
      → Post s fin (n ∷ []) r
      → Post s fin (n ∷ ns) (elim r [
        | none ↦ none
        | some (s', true) ↦ some (s', true)
        | some (s', false) ↦ visit_each go ns s'
      ])
  after_call go k n ns s fin none rest g b p = p
  after_call go k n ns s fin (some (s', true)) rest g b p = tt
  after_call go k n ns s fin (some (s', false)) rest g b (fin', h, q) =
      widen (visit_each go ns s') (
        rest s' fin' h.good (
          omega (
            arith,
            remaining_mono s.visited s'.visited (names ts) (visited_mono s s' fin fin' g h),
          )))
    where
      widen : (r : Option (Search × Bool)) → Post s' fin' ns r → Post s fin (n ∷ ns) r
      widen none p = p
      widen (some (s'', true)) p = tt
      widen (some (s'', false)) (fin'', h', q') = (
        fin'',
        record {
          good = h'.good;
          same_stack = λ v. ground (arith, h.same_stack v, h'.same_stack v);
          more = λ v p. h'.more v (h.more v p);
        },
        ground (arith, h'.more n),
      )

  each-Post :
      (go : String → Search → Option (Search × Bool)) (k : ℕ) (ns : List String) (s : Search)
      (fin : List String)
      → Calls go k
      → all (contains (names ts)) ns ≡ true
      → Good s fin
      → remaining s.visited (names ts) < k
      → Post s fin ns (visit_each go ns s)
  unfolding visit_each
  each-Post go k [] s fin calls a g b =
      (fin, record { good = g; same_stack = λ v. refl; more = λ v p. p }, refl)
  each-Post go k (n ∷ ns) s fin calls a g b = elim (Bool-cases (contains s.visited n)) [
    | inr new ↦ rw new (
        after_call go k n ns s fin (go n s)
          (λ s' fin' g' b'. each-Post go k ns s' fin' calls (ground arith) g' b') g b
          (calls n s fin g new (ground arith) b))
    | inl old ↦ rw old (elim (Bool-cases (contains s.stack n)) [
      | inl on_stack ↦ rw on_stack tt
      | inr off ↦ rw off (
          add_done (visit_each go ns s) (each-Post go k ns s fin calls (ground arith) g b)
            (ground (arith, g.visited_split n)))
    ])
  ]
    where
      add_done :
          (r : Option (Search × Bool))
          → Post s fin ns r
          → contains fin n ≡ true
          → Post s fin (n ∷ ns) r
      add_done none p e = p
      add_done (some (s'', true)) p e = tt
      add_done (some (s'', false)) (fin'', h', q') e = (fin'', h', ground (arith, h'.more n))

  neighbors_named : (node : String) → all (contains (names ts)) (neighbors ts node) ≡ true
  neighbors_named node =
      all_of_occurrences (contains (names ts)) (neighbors ts node)
        λ v h. names_of_dependency ts node v (omega (arith, occurrences-neighbors ts node v))

  abbrev entered : String → Search → Search
  entered node s = record { visited = node ∷ s.visited; stack = node ∷ s.stack }

  entered-Good :
      (node : String) (s : Search) (fin : List String)
      → Good s fin
      → contains s.visited node ≡ false
      → Good (entered node s) fin
  entered-Good node s fin g new = record {
    visited_split = λ v. ground (arith, g.visited_split v, eq_iff node v);
    apart = λ v p. ground (arith, g.apart v, g.visited_split v, eq_iff node v);
    closed = g.closed;
  }

  leave :
      (node : String) (s : Search) (fin : List String) (r : Option (Search × Bool))
      → Good s fin
      → contains s.visited node ≡ false
      → Post (entered node s) fin (neighbors ts node) r
      → Post s fin (node ∷ []) (elim r [
        | none ↦ none
        | some (s', true) ↦ some (s', true)
        | some (s', false) ↦ some (record s' { stack = without node s'.stack }, false)
      ])
  leave node s fin none g new p = p
  leave node s fin (some (s', true)) g new p = tt
  leave node s fin (some (s', false)) g new (fin', h, q) = (
    node ∷ fin',
    record {
      good = record {
        visited_split = λ v. ground (
          arith,
          h.good.visited_split v,
          contains-without node v s'.stack,
          h.same_stack v,
          eq_iff node v,
        );
        apart =
            λ v p. ground (arith, h.good.apart v, contains-without node v s'.stack, eq_iff node v);
        closed = (
          h.good.apart node (ground (arith, h.same_stack node, eq_iff node node)),
          q,
          h.good.closed,
        );
      };
      same_stack = λ v. ground (
        arith,
        h.same_stack v,
        contains-without node v s'.stack,
        g.visited_split v,
        eq_iff node v,
      );
      more = λ v p. ground (arith, h.more v);
    },
    ground (arith, eq_iff node node),
  )

  pub dfs_post : (fuel : ℕ) → Calls (dfs ts fuel) fuel
  unfolding dfs
  dfs_post zero node s fin g new known b = absurd (omega arith)
  dfs_post (suc fuel) node s fin g new known b =
      leave node s fin (visit_each (dfs ts fuel) (neighbors ts node) (entered node s)) g new (
        each-Post (dfs ts fuel) fuel (neighbors ts node) (entered node s) fin (dfs_post fuel)
          (neighbors_named node) (entered-Good node s fin g new)
          (omega (arith, remaining_falls node s.visited (names ts) new known)))
