-- ===== src/Policy/Delegation.antt =====
-- Permits, CheckGrantable and PropagateBoundary (internal/core/domain/policy/subset.go, guard.go):
-- what delegation guarantees, and where it does not.
use orbitjob.Prelude.{
  ◌≡◌, refl, ◌∙◌, ◌⊎◌, inl, inr, String, Bool, true, false, not, ◌&&◌, ◌||◌, List, [], ◌∷◌, Option,
  none, some, arith, any-append, all, all-append, append-nil, Bool-cases, Bytes, same_iff, eq_iff,
  ◌==◌, contains,
}
use orbitjob.Prelude.Result.{ok}
use orbitjob.Policy.{
  Arn, star, parse_arn, segment_matches, group_matches, arn_matches, Statement, Document, Request,
  Effect, allow, deny, is_deny, is_allow, wildcard_action, any_resource, matches, evaluate,
}
use orbitjob.Policy.Grants.{
  probe_of, probe_of_group, probe, concrete_target, action_effective, every_atom_effective,
  permits_statements, permits, check_grantable, propagate_boundary,
}
use orbitjob.Policy.Decision.{statements, denied, granted, evaluate_lem}
use orbitjob.Policy.Probes.{unprobed, granted_at_pattern, any_resource-cons, matches_lem}

-- Effects that ParseDocument lets through.
abbrev pub known_effects : List Statement → Bool
known_effects = all (λ st. is_allow st.effect || is_deny st.effect)

abbrev pub deny_free : List Statement → Bool
deny_free = all (λ st. not (is_deny st.effect))

pub not_denied : (sts : List Statement) (r : Request) → deny_free sts ≡ true → denied sts r ≡ false
not_denied [] r h = refl
not_denied (st ∷ sts) r h = ground (arith, not_denied sts r)

module _ (superset : List Document) (r : Request) (u : unprobed (statements superset) ≡ true) where
  action_effective-granted :
      (a : String) (ps : List Bytes)
      → action_effective a ps superset ≡ true
      → any_resource ps r.resource ≡ true
      → (a == r.action || a == wildcard_action) ≡ true
      → granted (statements superset) r ≡ true
  unfolding action_effective
  action_effective-granted a [] h k c = unfold any_resource in cc
  action_effective-granted a (p ∷ ps) h k c = ground (
    arith,
    any_resource-cons p ps r.resource,
    action_effective-granted a ps,
    granted_at_pattern superset a p r,
  )

  every_atom-granted :
      (actions : List String) (ps : List Bytes)
      → every_atom_effective actions ps superset ≡ true
      → any_resource ps r.resource ≡ true
      → (contains actions r.action || contains actions wildcard_action) ≡ true
      → granted (statements superset) r ≡ true
  unfolding every_atom_effective
  every_atom-granted [] ps h k c = cc
  every_atom-granted (a ∷ actions) ps h k c =
      ground (arith, action_effective-granted a ps, every_atom-granted actions ps)

  statements-granted :
      (sts : List Statement)
      → permits_statements sts superset ≡ true
      → known_effects sts ≡ true
      → granted sts r ≡ true
      → granted (statements superset) r ≡ true
  unfolding permits_statements
  statements-granted [] h e g = cc
  statements-granted (st ∷ sts) h e g =
      ground
        (arith, statements-granted sts, every_atom-granted st.action st.resource, matches_lem st r)

  pub permits-granted :
      (ds : List Document)
      → permits ds superset ≡ true
      → known_effects (statements ds) ≡ true
      → granted (statements ds) r ≡ true
      → granted (statements superset) r ≡ true
  unfolding permits
  permits-granted [] h e g = cc
  permits-granted (d ∷ ds) h e g = ground (
    arith,
    permits-granted ds,
    statements-granted d.statement,
    any-append (λ st. matches st r && not (is_deny st.effect)) d.statement (statements ds),
    all-append (λ st. is_allow st.effect || is_deny st.effect) d.statement (statements ds),
  )

-- For a caller whose documents deny nothing, delegation is sound: if CheckGrantable accepts the
-- granted documents, every request that they allow is one that the caller's own documents allow.
-- (The granted documents have effects that ParseDocument admits, and the caller's patterns do not
-- name the text that stands in for a wildcard.)
pub check_grantable_sound :
    (caller requested : List Document) (r : Request)
    → deny_free (statements caller) ≡ true
    → unprobed (statements caller) ≡ true
    → known_effects (statements requested) ≡ true
    → check_grantable caller requested ≡ ok tt
    → evaluate requested r ≡ true
    → evaluate caller r ≡ true
unfolding check_grantable
check_grantable_sound caller requested r d u k h e = ground (
  arith,
  evaluate_lem caller r,
  evaluate_lem requested r,
  not_denied (statements caller) r,
  permits-granted caller r u requested,
)

-- The boundary of a new key: an unbounded caller's choice stands; under a ceiling that denies
-- nothing there is always a boundary, and it allows no request that the ceiling does not allow.
pub propagate_boundary_narrows :
    (ceiling : Document) (requested result : Option Document) (r : Request)
    → deny_free ceiling.statement ≡ true
    → unprobed ceiling.statement ≡ true
    → ((d : Document) → requested ≡ some d → known_effects d.statement ≡ true)
    → propagate_boundary (some ceiling) requested ≡ ok result
    → (propagate_boundary none requested ≡ ok requested)
      × ((b : Document) × (result ≡ some b)
          × ((evaluate (b ∷ []) r ≡ false) ⊎ (evaluate (ceiling ∷ []) r ≡ true)))
unfolding propagate_boundary
propagate_boundary_narrows ceiling none result r d u k h =
    (refl, (ceiling, ground arith, ground arith))
propagate_boundary_narrows ceiling (some b) result r d u k h = (
  refl,
  (
    b,
    ground arith,
    elim (Bool-cases (evaluate (b ∷ []) r)) [
      | inr n ↦ inl n
      | inl e ↦ inr (
          check_grantable_sound (ceiling ∷ []) (b ∷ []) r (rw (append-nil ceiling.statement) d)
            (rw (append-nil ceiling.statement) u) (rw (append-nil b.statement) (k b refl))
            (unfold check_grantable in ground arith) e)
    ],
  ),
)

segment_at_own_probe : (s : Bytes) → segment_matches s (probe_of s) ≡ true
unfolding segment_matches
segment_at_own_probe s = ground (arith, same_iff s star, same_iff s s)

group_at_own_probe : (s : Bytes) → group_matches s (probe_of_group s) ≡ true
unfolding group_matches
group_at_own_probe s = ground (arith, same_iff s star, same_iff s s)

covers_own_probe : (a : Arn) → arn_matches a (probe a) ≡ true
unfolding arn_matches probe
covers_own_probe a = ground (
  arith,
  segment_at_own_probe a.tenant,
  group_at_own_probe a.group,
  segment_at_own_probe a.type,
  segment_at_own_probe a.id,
)

abbrev pub on : Effect → String → Bytes → Statement
on effect action pattern = record { effect = effect; action = action ∷ []; resource = pattern ∷ [] }

abbrev pub one_document : List Statement → List Document
one_document sts = record { version = "1"; statement = sts } ∷ []

any_resource_of_parse :
    (pattern : Bytes) (arn target : Arn)
    → parse_arn pattern ≡ ok arn
    → any_resource (pattern ∷ []) target ≡ arn_matches arn target
unfolding any_resource
any_resource_of_parse pattern arn target p = ground (arith, p)

concrete_target_of_parse :
    (pattern : Bytes) (arn : Arn)
    → parse_arn pattern ≡ ok arn
    → concrete_target pattern ≡ some (probe arn)
unfolding concrete_target
concrete_target_of_parse pattern arn p = ground (arith, p)

-- The decision for the two statements of the example.
decide_pair :
    (action asked : String) (pattern : Bytes) (target : Arn)
    → any_resource (pattern ∷ []) target ≡ true
    → evaluate
        (one_document (on allow "*" pattern ∷ on deny action pattern ∷ []))
        (record { action = asked; resource = target })
      ≡ not (action == asked || action == wildcard_action)
decide_pair action asked pattern target h = ground (
  arith,
  evaluate_lem (one_document (on allow "*" pattern ∷ on deny action pattern ∷ []))
      (record { action = asked; resource = target }),
  matches_lem (on allow "*" pattern) (record { action = asked; resource = target }),
  matches_lem (on deny action pattern) (record { action = asked; resource = target }),
)

decide_wildcard :
    (asked : String) (pattern : Bytes) (target : Arn)
    → any_resource (pattern ∷ []) target ≡ true
    → evaluate
        (one_document (on allow "*" pattern ∷ []))
        (record { action = asked; resource = target })
      ≡ true
decide_wildcard asked pattern target h = ground (
  arith,
  evaluate_lem (one_document (on allow "*" pattern ∷ []))
      (record { action = asked; resource = target }),
  matches_lem (on allow "*" pattern) (record { action = asked; resource = target }),
)

-- A caller that holds the wildcard action on a pattern and is denied one action there may still
-- hand out the wildcard without the denial: CheckGrantable accepts it, the new documents allow the
-- denied action on every resource that the pattern covers, and the caller's own documents do not.
pub denied_action_delegated :
    (action : String) (pattern : Bytes) (arn target : Arn)
    → (action == wildcard_action) ≡ false
    → parse_arn pattern ≡ ok arn
    → arn_matches arn target ≡ true
    → let caller = one_document (on allow "*" pattern ∷ on deny action pattern ∷ []) in
      let handed = one_document (on allow "*" pattern ∷ []) in
      let req : Request = record { action = action; resource = target } in
      (check_grantable caller handed ≡ ok tt)
      × (evaluate handed req ≡ true)
      × (evaluate caller req ≡ false)
unfolding check_grantable permits permits_statements every_atom_effective action_effective
denied_action_delegated action pattern arn target n p c =
    let at_probe = any_resource_of_parse pattern arn (probe arn) p ∙ covers_own_probe arn in
    let at_target = any_resource_of_parse pattern arn target p ∙ c in
    (
      ground (
        arith,
        concrete_target_of_parse pattern arn p,
        decide_pair action "*" pattern (probe arn) at_probe,
      ),
      decide_wildcard action pattern target at_target,
      ground (arith, decide_pair action action pattern target at_target, eq_iff action action),
    )
