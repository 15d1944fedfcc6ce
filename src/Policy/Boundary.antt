-- ===== src/Policy/Boundary.antt =====
-- Intersect (internal/core/domain/policy/intersect.go) only narrows.
use orbitjob.Prelude.{
  ◌≡◌, refl, inl, inr, String, true, false, not, ◌&&◌, ◌||◌, List, [], ◌∷◌, ◌++◌, arith, any-append,
  append-nil, Bool-cases, Bytes, ◌==◌, contains,
}
use orbitjob.Policy.{
  Statement, Document, Request, is_deny, wildcard_action, any_resource, matches, evaluate,
}
use orbitjob.Policy.Grants.{
  concrete_target, permits_at, atom, atoms_of_action, atoms, kept, filled, denies, intersect,
}
use orbitjob.Policy.Decision.{statements, denied, granted, evaluate_lem}
use orbitjob.Policy.Probes.{
  unprobed, granted_at_pattern, any_resource-cons, matches_lem, matches-atom,
}

statements-filled :
    (d : Document) (ds : List Document) → statements (filled d ds) ≡ d.statement ++ statements ds
statements-filled d ds = go d.statement refl
  where
    go :
        (sts : List Statement)
        → d.statement ≡ sts
        → statements (filled d ds) ≡ d.statement ++ statements ds
    go [] e = ground (arith, e)
    go (st ∷ sts) e = ground (arith, e)

-- What survives of a list of statements.
module _ (bd : List Document) (r : Request) where
  denied-append : (xs ys : List Statement) → denied (xs ++ ys) r ≡ (denied xs r || denied ys r)
  denied-append xs ys = any-append (λ st. matches st r && is_deny st.effect) xs ys

  granted-append : (xs ys : List Statement) → granted (xs ++ ys) r ≡ (granted xs r || granted ys r)
  granted-append xs ys = any-append (λ st. matches st r && not (is_deny st.effect)) xs ys

  denied-atoms_of_action :
      (a : String) (rs : List Bytes) → denied (atoms_of_action bd a rs) r ≡ false
  unfolding atoms_of_action
  denied-atoms_of_action a [] = refl
  denied-atoms_of_action a (s ∷ rs) = ground (arith, denied-atoms_of_action a rs)

  denied-atoms : (actions : List String) (rs : List Bytes) → denied (atoms bd actions rs) r ≡ false
  unfolding atoms
  denied-atoms [] rs = refl
  denied-atoms (a ∷ actions) rs = ground (
    arith,
    denied-atoms_of_action a rs,
    denied-atoms actions rs,
    denied-append (atoms_of_action bd a rs) (atoms bd actions rs),
  )

  denied-kept : (sts : List Statement) → denied (kept bd sts) r ≡ denied sts r
  unfolding kept
  denied-kept [] = refl
  denied-kept (st ∷ sts) = ground (
    arith,
    denied-kept sts,
    denied-atoms st.action st.resource,
    denied-append (atoms bd st.action st.resource) (kept bd sts),
  )

  denied-denies : (sts : List Statement) → denied (denies sts) r ≡ denied sts r
  unfolding denies
  denied-denies [] = refl
  denied-denies (st ∷ sts) = ground (arith, denied-denies sts)

  granted-denies : (sts : List Statement) → granted (denies sts) r ≡ false
  unfolding denies
  granted-denies [] = refl
  granted-denies (st ∷ sts) = ground (arith, granted-denies sts)

  -- An atom that grants the request comes from an action and a pattern that the statement has, and
  -- that the boundary grants.
  granted-atoms_of_action :
      (a : String) (rs : List Bytes)
      → unprobed (statements bd) ≡ true
      → granted (atoms_of_action bd a rs) r ≡ true
      → ((a == r.action || a == wildcard_action) ≡ true)
        × (any_resource rs r.resource ≡ true)
        × (granted (statements bd) r ≡ true)
  unfolding atoms_of_action
  granted-atoms_of_action a [] u g = cc
  granted-atoms_of_action a (s ∷ rs) u g = elim (Bool-cases (matches (atom a s) r)) [
    | inl hit ↦ elim (Bool-cases (permits_at bd a (concrete_target s))) [
      | inl p ↦ (
        ground (arith, matches-atom a s r),
        ground (arith, matches-atom a s r, any_resource-cons s rs r.resource),
        ground (arith, matches-atom a s r, granted_at_pattern bd a s r p),
      )
      | inr n ↦
          let ih = granted-atoms_of_action a rs u (ground arith) in
          (ih.0, ground (arith, ih.1, any_resource-cons s rs r.resource), ih.2)
    ]
    | inr miss ↦
        let ih = granted-atoms_of_action a rs u (ground arith) in
        (ih.0, ground (arith, ih.1, any_resource-cons s rs r.resource), ih.2)
  ]

  granted-atoms :
      (actions : List String) (rs : List Bytes)
      → unprobed (statements bd) ≡ true
      → granted (atoms bd actions rs) r ≡ true
      → ((contains actions r.action || contains actions wildcard_action) ≡ true)
        × (any_resource rs r.resource ≡ true)
        × (granted (statements bd) r ≡ true)
  unfolding atoms
  granted-atoms [] rs u g = cc
  granted-atoms (a ∷ actions) rs u g = elim (Bool-cases (granted (atoms_of_action bd a rs) r)) [
    | inl hit ↦ let h = granted-atoms_of_action a rs u hit in (ground (arith, h.0), h.1, h.2)
    | inr miss ↦
        let h =
          granted-atoms actions rs u
            (ground (arith, granted-append (atoms_of_action bd a rs) (atoms bd actions rs))) in
        (ground (arith, h.0), h.1, h.2)
  ]

  granted-kept :
      (sts : List Statement)
      → unprobed (statements bd) ≡ true
      → granted (kept bd sts) r ≡ true
      → (granted sts r ≡ true) × (granted (statements bd) r ≡ true)
  unfolding kept
  granted-kept [] u g = cc
  granted-kept (st ∷ sts) u g = elim (Bool-cases (is_deny st.effect)) [
    | inl d ↦ let ih = granted-kept sts u (ground arith) in (ground (arith, ih.0), ih.1)
    | inr n ↦ elim (Bool-cases (granted (atoms bd st.action st.resource) r)) [
      | inl hit ↦
          let h = granted-atoms st.action st.resource u hit in
          (ground (arith, h.0, h.1, matches_lem st r), h.2)
      | inr miss ↦
          let ih =
            granted-kept sts u
              (ground (arith, granted-append (atoms bd st.action st.resource) (kept bd sts))) in
          (ground (arith, ih.0), ih.1)
    ]
  ]

module _ (boundary : Document) (r : Request) where
  abbrev ceiling : List Document
  ceiling = boundary ∷ []

  statements-ceiling : statements ceiling ≡ boundary.statement
  statements-ceiling = append-nil boundary.statement

  denied-intersect :
      (ds : List Document)
      → denied (statements (intersect ds boundary)) r
        ≡ (denied (statements ds) r || denied boundary.statement r)
  unfolding intersect
  denied-intersect [] =
      rw (statements-filled (record boundary { statement = denies boundary.statement }) []) (
        ground (
          arith,
          append-nil (denies boundary.statement),
          denied-denies ceiling r boundary.statement,
        ))
  denied-intersect (d ∷ ds) =
      rw
        (statements-filled (record d { statement = kept ceiling d.statement })
          (intersect ds boundary))
        (ground (
          arith,
          denied-intersect ds,
          denied-kept ceiling r d.statement,
          denied-append ceiling r (kept ceiling d.statement) (statements (intersect ds boundary)),
          denied-append ceiling r d.statement (statements ds),
        ))

  granted-intersect :
      (ds : List Document)
      → unprobed boundary.statement ≡ true
      → granted (statements (intersect ds boundary)) r ≡ true
      → (granted (statements ds) r ≡ true) × (granted boundary.statement r ≡ true)
  unfolding intersect
  granted-intersect [] u g =
      let e : granted (statements (intersect [] boundary)) r ≡ false =
        rw (statements-filled (record boundary { statement = denies boundary.statement }) []) (
          ground (
            arith,
            append-nil (denies boundary.statement),
            granted-denies ceiling r boundary.statement,
          )) in
      cc
  granted-intersect (d ∷ ds) u g =
      let e : granted (statements (intersect (d ∷ ds) boundary)) r ≡ (
          granted (kept ceiling d.statement) r || granted (statements (intersect ds boundary)) r) =
        rw
          (statements-filled (record d { statement = kept ceiling d.statement })
            (intersect ds boundary))
          (granted-append ceiling r (kept ceiling d.statement)
            (statements (intersect ds boundary))) in
      elim (Bool-cases (granted (kept ceiling d.statement) r)) [
        | inl hit ↦
            let h = granted-kept ceiling r d.statement (rw statements-ceiling u) hit in
            (
              ground (arith, h.0, granted-append ceiling r d.statement (statements ds)),
              rw statements-ceiling at h.1,
            )
        | inr miss ↦
            let h = granted-intersect ds u (ground arith) in
            (ground (arith, h.0, granted-append ceiling r d.statement (statements ds)), h.1)
      ]

-- A permission boundary only narrows: a request that the surviving documents allow is allowed by
-- the original documents and by the boundary alone. (The boundary's patterns do not name the text
-- that stands in for a wildcard.)
pub intersect_narrows :
    (ds : List Document) (boundary : Document) (r : Request)
    → unprobed boundary.statement ≡ true
    → evaluate (intersect ds boundary) r ≡ true
    → (evaluate ds r ≡ true) × (evaluate (boundary ∷ []) r ≡ true)
intersect_narrows ds boundary r u e =
    let open_ = evaluate_lem (intersect ds boundary) r in
    let d = denied-intersect boundary r ds in
    let g = granted-intersect boundary r ds u (ground arith) in
    (
      ground (arith, evaluate_lem ds r, g.0),
      ground (arith, evaluate_lem (boundary ∷ []) r, statements-ceiling boundary r, g.1),
    )
