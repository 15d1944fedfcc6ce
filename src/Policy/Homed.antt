-- ===== src/Policy/Homed.antt =====
-- Patterns of one tenant: what a stored tenant document reaches after its resolution
-- (internal/core/domain/policy: actions.go, self.go, evaluate.go).
use orbitjob.Prelude.{
  ◌≡◌, refl, inl, inr, Bool, true, false, ◌||◌, List, [], ◌∷◌, arith, all, map, Bytes, same,
  same_iff, Bool-cases, sym, ◌∙◌,
}
use orbitjob.Prelude.Result.{Result, ok, err, is_ok}
use orbitjob.Policy.{
  Arn, PolicyError, colon, star, parse_arn, segment_matches, arn_matches, pattern_matches,
  any_resource, Statement, Document, Request,
}
use orbitjob.Policy.Text.{lacks}
use orbitjob.Policy.Known.{resolve_pattern, resolve_self, validate_tenant_document}
use orbitjob.Policy.Parsed.{parse_arn-Renderable}
use orbitjob.Policy.Decision.{granted}
use orbitjob.Policy.Probes.{matches_lem}
use orbitjob.Policy.Storing.{
  names_self, storable, parse_arn-resolve_pattern, validate_tenant_document-is_ok,
}

abbrev pub names : Bytes → Result PolicyError Arn → Bool
names tenant (err e) = false
names tenant (ok a) = same a.tenant tenant

abbrev pub homed : Bytes → Statement → Bool
homed tenant st = all (λ p. names tenant (parse_arn p)) st.resource

module _ (tenant : Bytes) where
  homed-pattern :
      (target : Arn) (p : Result PolicyError Arn)
      → same tenant star ≡ false
      → names tenant p ≡ true
      → pattern_matches p target ≡ true
      → target.tenant ≡ tenant
  unfolding pattern_matches arn_matches segment_matches
  homed-pattern target (err e) n h m = absurd (ground (arith, h))
  homed-pattern target (ok a) n h m =
      let home : a.tenant ≡ tenant = (same_iff a.tenant tenant).0 h in
      let reached : (same a.tenant star || same a.tenant target.tenant) ≡ true =
        ground (arith, m) in
      let other : same a.tenant star ≡ false = rw home n in
      let equal : same a.tenant target.tenant ≡ true = ground (arith, reached, other) in
      sym ((same_iff a.tenant target.tenant).0 equal) ∙ home

  homed-any_resource :
      (target : Arn) (ps : List Bytes)
      → same tenant star ≡ false
      → all (λ p. names tenant (parse_arn p)) ps ≡ true
      → any_resource ps target ≡ true
      → target.tenant ≡ tenant
  unfolding any_resource
  homed-any_resource target [] n h m = cc
  homed-any_resource target (p ∷ ps) n h m =
      elim (Bool-cases (pattern_matches (parse_arn p) target)) [
        | inl e ↦ homed-pattern target (parse_arn p) n (ground (arith, h)) e
        | inr e ↦ homed-any_resource target ps n (ground (arith, h)) (ground (arith, m, e))
      ]

  -- Statements whose patterns all name one tenant grant nothing outside it.
  pub homed-granted :
      (r : Request) (sts : List Statement)
      → same tenant star ≡ false
      → all (homed tenant) sts ≡ true
      → granted sts r ≡ true
      → r.resource.tenant ≡ tenant
  homed-granted r [] n h g = cc
  homed-granted r (st ∷ sts) n h g = elim (Bool-cases (any_resource st.resource r.resource)) [
    | inl e ↦ homed-any_resource r.resource st.resource n (ground (arith, h)) e
    | inr e ↦ homed-granted r sts n (ground (arith, h)) (ground (arith, g, e, matches_lem st r))
  ]

  homed-resolve_pattern :
      (p : Bytes)
      → lacks colon tenant ≡ true
      → names_self (parse_arn p) ≡ true
      → names tenant (parse_arn (resolve_pattern tenant p)) ≡ true
  homed-resolve_pattern p l h = parsed (parse_arn p) refl h
    where
      parsed :
          (o : Result PolicyError Arn)
          → parse_arn p ≡ o
          → names_self o ≡ true
          → names tenant (parse_arn (resolve_pattern tenant p)) ≡ true
      parsed (err e) q h = absurd (ground (arith, h))
      parsed (ok a) q h =
          rw (parse_arn-resolve_pattern tenant p a l (parse_arn-Renderable p a q) q)
            (ground (arith, h, same_iff tenant tenant))

  homed-map :
      (ps : List Bytes)
      → lacks colon tenant ≡ true
      → all (λ p. names_self (parse_arn p)) ps ≡ true
      → all (λ p. names tenant (parse_arn p)) (map (resolve_pattern tenant) ps) ≡ true
  homed-map [] l h = refl
  homed-map (p ∷ ps) l h = ground (arith, homed-resolve_pattern p l, homed-map ps l)

  homed-statements :
      (sts : List Statement)
      → lacks colon tenant ≡ true
      → all storable sts ≡ true
      → all (homed tenant) (
          map
            (λ (st : Statement). record st { resource = map (resolve_pattern tenant) st.resource })
            sts)
        ≡ true
  homed-statements [] l h = refl
  homed-statements (st ∷ sts) l h = ground (arith, homed-map st.resource l, homed-statements sts l)

  -- A document that a tenant may store names only that tenant once it is resolved for it.
  pub homed-resolve_self :
      (doc : Document)
      → lacks colon tenant ≡ true
      → is_ok (validate_tenant_document doc) ≡ true
      → all (homed tenant) (resolve_self doc tenant).statement ≡ true
  unfolding resolve_self
  homed-resolve_self doc l h =
      homed-statements doc.statement l (sym (validate_tenant_document-is_ok doc) ∙ h)
