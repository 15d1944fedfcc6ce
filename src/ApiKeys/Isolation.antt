-- ===== src/ApiKeys/Isolation.antt =====
-- A key whose policies are all its tenant's own, against the resources of other tenants: Require of
-- internal/admin/http/middleware/authorize.go over the documents of a key.
use orbitjob.Prelude.{
  ◌≡◌, ◌⊎◌, refl, String, true, false, ◌&&◌, List, [], ◌∷◌, Option, none, some, arith, inl, inr,
  All, all, all-append, Bool-cases, contains, Bytes, same, same_iff, ap, subst, sym, ◌∙◌,
}
use orbitjob.Prelude.Result.{ok, is_ok, >>=-eq-ok}
use orbitjob.Policy.{Arn, colon, star, Document, Request, evaluate}
use orbitjob.Policy.Text.{lacks}
use orbitjob.Policy.Known.{check_document, validate_tenant_document, resolve_self}
use orbitjob.Policy.Decision.{statements, evaluate_lem}
use orbitjob.Policy.Probes.{unprobed}
use orbitjob.Policy.Homed.{homed, homed-granted, homed-resolve_self}
use orbitjob.ApiKeys.{
  PolicyRow, KeyRow, Tables, Admin, bound_policies, key_boundary, reach, wrap, unparsable, visible,
  is_preset, resolved_document,
}
use orbitjob.ApiKeys.Effective.{
  find_key, bound_rows, resolved_documents, policies_of, boundary_of, narrowed, effective_documents,
  forbidden, require, or_star, tenant_resource, api_key_resource,
}
use orbitjob.ApiKeys.Rows.{wrap-eq-ok, check_document_ok}
use orbitjob.ApiKeys.Delegated.{Plain, Plain-boundary, narrowed_within}
use orbitjob.ApiKeys.Stored.{Checked, Reached, Reached-Stored}

abbrev pub Owned : PolicyRow → Type 0
Owned p = is_preset p.owner ≡ false

bound_rows-Checked :
    (tenant : Bytes) (ids : List String) (ps : List PolicyRow)
    → All Checked ps
    → All Checked (bound_rows tenant ids ps)
unfolding bound_rows
bound_rows-Checked tenant ids [] h = tt
bound_rows-Checked tenant ids (p ∷ ps) (h, hs) =
    elim (Bool-cases (contains ids p.id && visible tenant p)) [
      | inl e ↦ rw e (h, bound_rows-Checked tenant ids ps hs)
      | inr e ↦ rw e (bound_rows-Checked tenant ids ps hs)
    ]

homed-resolved_document :
    (tenant : Bytes) (p : PolicyRow) (d : Document)
    → lacks colon tenant ≡ true
    → Checked p
    → Owned p
    → resolved_document tenant p ≡ ok d
    → all (homed tenant) d.statement ≡ true
unfolding resolved_document
homed-resolved_document tenant p d l c o h =
    let (doc, read, out) = >>=-eq-ok (wrap (unparsable p.id) (check_document p.document)) _ h in
    let same_doc =
      (check_document_ok p.document doc
        (wrap-eq-ok (unparsable p.id) (check_document p.document) doc read)).0 in
    let resolved : resolve_self doc tenant ≡ d = ground (arith, out) in
    let valid : is_ok (validate_tenant_document p.document) ≡ true = ground (arith, c, o) in
    subst (λ (x : Document). all (homed tenant) x.statement ≡ true) resolved
      (homed-resolve_self tenant doc l (rw (← same_doc) valid))

homed-resolved_documents :
    (tenant : Bytes) (rows : List PolicyRow) (docs : List Document)
    → lacks colon tenant ≡ true
    → All Checked rows
    → All Owned rows
    → resolved_documents tenant rows ≡ ok docs
    → all (homed tenant) (statements docs) ≡ true
unfolding resolved_documents
homed-resolved_documents tenant [] docs l c o h =
    let none_read : [] ≡ docs = ground (arith, h) in
    subst (λ (x : List Document). all (homed tenant) (statements x) ≡ true) none_read refl
homed-resolved_documents tenant (p ∷ rows) docs l (c, cs) (o, os) h =
    let (d, read, h) = >>=-eq-ok (resolved_document tenant p) _ h in
    let (ds, rest, out) = >>=-eq-ok (resolved_documents tenant rows) _ h in
    let listed : d ∷ ds ≡ docs = ground (arith, out) in
    subst (λ (x : List Document). all (homed tenant) (statements x) ≡ true) listed
      (ground (
        arith,
        all-append (homed tenant) d.statement (statements ds),
        homed-resolved_document tenant p d l c o read,
        homed-resolved_documents tenant rows ds l cs os rest,
      ))

Plain-cap :
    (tenant : Bytes) (t : Tables) (key : Option KeyRow) (d : Document)
    → Plain tenant t.policies
    → boundary_of tenant t key ≡ ok (some d)
    → unprobed d.statement ≡ true
Plain-cap tenant t none d l h = absurd (ground (arith, h))
Plain-cap tenant t (some row) d l h = Plain-boundary tenant t row d l h

module _ (b : Admin) (t : Tables) (tenant : Bytes) (id action : String) (docs : List Document)
    (h : Reached t) (l : Plain tenant t.policies) (c : lacks colon tenant ≡ true)
    (n : same tenant star ≡ false)
    (o : All Owned (bound_rows tenant (policies_of (find_key tenant id t.keys)) t.policies))
    (e : effective_documents b t tenant id ≡ ok docs) where
  allowed_home : (r : Request) → evaluate docs r ≡ true → r.resource.tenant ≡ tenant
  unfolding effective_documents
  allowed_home r allowed =
      let key = find_key tenant id t.keys in
      let rows = bound_rows tenant (policies_of key) t.policies in
      let (u, up, e) = >>=-eq-ok (reach b (bound_policies tenant id)) _ e in
      let (bound, read, e) = >>=-eq-ok (resolved_documents tenant rows) _ e in
      let (v, up_too, e) = >>=-eq-ok (reach b (key_boundary tenant id)) _ e in
      let (boundary, capped, out) = >>=-eq-ok (boundary_of tenant t key) _ e in
      let whole : narrowed bound boundary ≡ docs = ground (arith, out) in
      let within =
        narrowed_within bound boundary r (λ d m. Plain-cap tenant t key d l (capped ∙ ap ok m))
          (subst (λ (x : List Document). evaluate x r ≡ true) (sym whole) allowed) in
      let home =
        homed-resolved_documents tenant rows bound c
          (bound_rows-Checked tenant (policies_of key) t.policies (Reached-Stored h).1) o read in
      homed-granted tenant r (statements bound) n home
        (ground (arith, within.0, evaluate_lem bound r))

  barred_or_home :
      (target : Arn)
      → (require action (some docs) (some target) ≡ forbidden) ⊎ (target.tenant ≡ tenant)
  unfolding require
  barred_or_home target =
      elim (Bool-cases (evaluate docs (record { action = action; resource = target }))) [
        | inl y ↦ inr (allowed_home (record { action = action; resource = target }) y)
        | inr m ↦ inl (rw m refl)
      ]

  named_home : {A : Type 0} (other : Bytes) → A ⊎ (or_star other ≡ tenant) → A ⊎ (other ≡ tenant)
  named_home other (inl x) = inl x
  named_home other (inr q) = inr (ground (arith, q, n, same_iff tenant star))

  -- In tables that the commands made from presets alone, a key whose policies are all its tenant's
  -- own is refused by the guard of every route whose resource is not of that tenant: at the routes of
  -- tenants and of their keys where the path names another tenant or none, too. (The tenant's id
  -- holds no colon and is not the wildcard, and no document names the text that stands in for a
  -- wildcard.)
  pub tenant_policies_stay_home :
      (target : Arn) (other key : Bytes)
      → ((require action (some docs) (some target) ≡ forbidden) ⊎ (target.tenant ≡ tenant))
        × ((require action (some docs) (some (tenant_resource other)) ≡ forbidden)
            ⊎ (other ≡ tenant))
        × ((require action (some docs) (some (api_key_resource other key)) ≡ forbidden)
            ⊎ (other ≡ tenant))
  tenant_policies_stay_home target other key = (
    barred_or_home target,
    named_home other (unfold tenant_resource in barred_or_home (tenant_resource other)),
    named_home other (unfold api_key_resource in barred_or_home (api_key_resource other key)),
  )
