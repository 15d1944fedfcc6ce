-- ===== src/Workflow/Graph/Degrees.antt =====
-- The loop over the tasks that wait for a popped task (TopologicalSort in
-- internal/core/domain/workflow/dag.go): what it does to the in-degrees and to the queue.
use orbitjob.Prelude.{
  ℕ, suc, ◌+◌, ◌<◌, ◌≡◌, refl, String, Bool, true, false, ◌&&◌, List, [], ◌∷◌, ◌++◌, arith, ◌==◌,
  eq_iff, contains, length, length-append, occurrences, occurrences-append, contains-occurrences,
  all, if◌then◌else◌, ltb,
}
use orbitjob.Prelude.Int.{ℤ, pos, pred_ℤ, is_zero_ℤ}
use orbitjob.Workflow.{Task}
use orbitjob.Workflow.Graph.{edges_from, neighbors, dependency_count, update, release}

abbrev pub names : List Task → List String
names [] = []
names (t ∷ ts) = t.name ∷ names ts

-- The dependencies that the tasks of a name list.
unfoldable pub dependencies : List Task → String → List String
dependencies [] v = []
dependencies (t ∷ ts) v =
    let rest = dependencies ts v in if t.name == v then t.depends_on ++ rest else rest

pub dependency_count-length :
    (ts : List Task) (v : String) → dependency_count ts v ≡ length (dependencies ts v)
unfolding dependency_count dependencies
dependency_count-length [] v = refl
dependency_count-length (t ∷ ts) v =
    ground (arith, dependency_count-length ts v, length-append t.depends_on (dependencies ts v))

occurrences-edges_from :
    (task : String) (ds : List String) (d v : String)
    → occurrences v (edges_from task ds d) ≡ (if task == v then occurrences d ds else 0)
unfolding edges_from
occurrences-edges_from task [] d v = ground arith
occurrences-edges_from task (e ∷ es) d v = ground (arith, occurrences-edges_from task es d v)

-- Each edge is counted from both ends.
pub occurrences-neighbors :
    (ts : List Task) (d v : String)
    → occurrences v (neighbors ts d) ≡ occurrences d (dependencies ts v)
unfolding neighbors dependencies
occurrences-neighbors [] d v = refl
occurrences-neighbors (t ∷ ts) d v = ground (
  arith,
  occurrences-append v (edges_from t.name t.depends_on d) (neighbors ts d),
  occurrences-append d t.depends_on (dependencies ts v),
  occurrences-edges_from t.name t.depends_on d v,
  occurrences-neighbors ts d v,
)

-- A text that has dependencies is the name of a task.
pub names_of_dependency :
    (ts : List Task) (d v : String)
    → 0 < occurrences d (dependencies ts v)
    → contains (names ts) v ≡ true
unfolding dependencies
names_of_dependency [] d v h = absurd (omega arith)
names_of_dependency (t ∷ ts) d v h =
    ground
      (arith, occurrences-append d t.depends_on (dependencies ts v), names_of_dependency ts d v)

-- Entries of `ds` that `done` does not hold.
unfoldable pub remaining : List String → List String → ℕ
remaining done [] = 0
remaining done (d ∷ ds) = let rest = remaining done ds in if contains done d then rest else suc rest

contains-snoc :
    (done : List String) (c d : String)
    → ltb 0 (occurrences d (done ++ c ∷ [])) ≡ (if c == d then true else ltb 0 (occurrences d done))
contains-snoc done c d = ground (arith, occurrences-append d done (c ∷ []))

-- To finish `c` takes its occurrences off what remains.
pub remaining-snoc :
    (done : List String) (c : String) (ds : List String)
    → contains done c ≡ false
    → remaining (done ++ c ∷ []) ds + occurrences c ds ≡ remaining done ds
unfolding remaining
remaining-snoc done c [] h = refl
remaining-snoc done c (d ∷ ds) h = ground (
  arith,
  remaining-snoc done c ds h,
  contains-occurrences (done ++ c ∷ []) d,
  contains-occurrences done d,
  contains-snoc done c d,
  eq_iff c d,
  eq_iff d c,
)

pub remaining-nil : (ds : List String) → remaining [] ds ≡ length ds
unfolding remaining
remaining-nil [] = refl
remaining-nil (d ∷ ds) = ground (arith, remaining-nil ds)

pub remaining-zero : (done ds : List String) → remaining done ds ≡ 0 → all (contains done) ds ≡ true
unfolding remaining
remaining-zero done [] h = refl
remaining-zero done (d ∷ ds) h = ground (arith, remaining-zero done ds)

pub all-remaining : (done ds : List String) → all (contains done) ds ≡ true → remaining done ds ≡ 0
unfolding remaining
all-remaining done [] h = refl
all-remaining done (d ∷ ds) h = ground (arith, all-remaining done ds)

-- Exactly the tasks whose in-degree has come to 0 have been queued, each once.
abbrev pub mark : Bool → ℕ
mark true = 1
mark false = 0

abbrev pub SettledAt : List String → (String → ℤ) → List String → List String → String → Type 0
SettledAt ns degree queue order v =
    occurrences v queue + occurrences v order ≡ mark (is_zero_ℤ (degree v) && contains ns v)

abbrev pub Settled : List String → (String → ℤ) → List String → List String → Type 0
Settled ns degree queue order = (v : String) → SettledAt ns degree queue order v

-- The in-degrees count what is given by `m`, and besides it the edges still to be taken off.
abbrev pub Counts : (String → ℕ) → (String → ℤ) → List String → Type 0
Counts m degree es = (v : String) → degree v ≡ pos (m v + occurrences v es)

abbrev pub Named : List String → List String → Type 0
Named ns es = (v : String) → 0 < occurrences v es → contains ns v ≡ true

module _ (ns : List String) (m : String → ℕ) where
  step_degree : (String → ℤ) → String → String → ℤ
  step_degree degree e = update degree e (pred_ℤ (degree e))

  step_queue : (String → ℤ) → List String → String → List String
  step_queue degree queue e = if is_zero_ℤ (pred_ℤ (degree e)) then queue ++ e ∷ [] else queue

  step-Counts :
      (degree : String → ℤ) (e : String) (es : List String)
      → Counts m degree (e ∷ es)
      → Counts m (step_degree degree e) es
  unfolding step_degree
  step-Counts degree e es h v = ground (arith, h v, h e, eq_iff e v, eq_iff e e)

  step-Settled :
      (degree : String → ℤ) (queue order : List String) (e : String) (es : List String)
      → Counts m degree (e ∷ es)
      → contains ns e ≡ true
      → Settled ns degree queue order
      → Settled ns (step_degree degree e) (step_queue degree queue e) order
  unfolding step_degree step_queue
  step-Settled degree queue order e es h k s v =
      ground
        (arith, h v, h e, s v, s e, eq_iff e v, eq_iff e e, occurrences-append v queue (e ∷ []))

  step-Named : (e : String) (es : List String) → Named ns (e ∷ es) → Named ns es
  step-Named e es h v p = h v (ground arith)

  pub release_inv :
      (es : List String) (degree : String → ℤ) (queue order : List String)
      → Counts m degree es
      → Named ns es
      → Settled ns degree queue order
      → Counts m (release es degree queue).0 []
        × Settled ns (release es degree queue).0 (release es degree queue).1 order
  unfolding release step_degree step_queue
  release_inv [] degree queue order h k s = (h, s)
  release_inv (e ∷ es) degree queue order h k s =
      release_inv es (step_degree degree e) (step_queue degree queue e) order
        (step-Counts degree e es h) (step-Named e es k)
        (step-Settled degree queue order e es h (k e (ground (arith, eq_iff e e))) s)
