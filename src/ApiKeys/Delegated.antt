-- ===== src/ApiKeys/Delegated.antt =====
-- What a new key may do, against what its maker may do.
use orbitjob.Prelude.{
  ◌≡◌, refl, String, true, false, not, ◌&&◌, ◌||◌, List, [], ◌∷◌, Option, none, some, arith, inl,
  inr, All, Among, any-append, all-append, Bool-cases, contains, ◌==◌, Bytes, ap, sym, subst, ◌∙◌,
}
use orbitjob.Prelude.Result.{ok, >>=-eq-ok}
use orbitjob.Policy.{Document, Request, is_deny, is_allow, matches, evaluate}
use orbitjob.Policy.Grants.{check_grantable}
use orbitjob.Policy.Decision.{statements, granted, evaluate_lem}
use orbitjob.Policy.Probes.{unprobed}
use orbitjob.Policy.Boundary.{intersect_narrows}
use orbitjob.Policy.Delegation.{known_effects, deny_free, not_denied, permits-granted}
use orbitjob.ApiKeys.{
  PolicyRow, KeyRow, Tables, Admin, K, visible, find_policy, resolved_document, document_of,
  load_policy,
}
use orbitjob.ApiKeys.Create.{CreateInput, resolve_policies, boundary_id_of, key_row, create_key}
use orbitjob.ApiKeys.Effective.{
  bound_rows, resolved_documents, boundary_of, optional_document, narrowed, effective_documents,
}
use orbitjob.ApiKeys.Rows.{
  Unique, All-Among, Among-find_policy, find_policy-Among, Among-bound_rows,
  known_effects-resolved_document, load_policy-found, granted-resolve_policies,
}
use orbitjob.ApiKeys.Made.{Created, create_key-Created, Assembled, assembled}

module _ (a : Admin) (t : Tables) (tenant : Bytes) (u : Unique t.policies) (r : Request) where
  -- What the rows of a key's policies grant, the policies grant as they were read for the creation.
  granted-rows :
      (ids : List String) (given : List Document)
      → resolve_policies a t tenant ids ≡ ok given
      → (rows : List PolicyRow)
      → ((p : PolicyRow)
          → Among p rows
          → Among p t.policies × (contains ids p.id ≡ true) × (visible tenant p ≡ true))
      → (docs : List Document) → resolved_documents tenant rows ≡ ok docs
      → granted (statements docs) r ≡ true
      → granted (statements given) r ≡ true
  unfolding resolved_documents
  granted-rows ids given e [] m docs h g = absurd (ground (arith, h, g))
  granted-rows ids given e (p ∷ rows) m docs h g =
      let (d, read, h) = >>=-eq-ok (resolved_document tenant p) _ h in
      let (ds, rest, out) = >>=-eq-ok (resolved_documents tenant rows) _ h in
      let listed : d ∷ ds ≡ docs = ground (arith, out) in
      let split =
        any-append (λ st. matches st r && not (is_deny st.effect)) d.statement (statements ds) in
      let (there, bound, seen) = m p (inl refl) in
      let (f, loaded, k) = granted-resolve_policies a t tenant r ids given p.id e bound in
      let same_doc =
        load_policy-found a t tenant p.id (some p) f
          (find_policy-Among tenant t.policies p u there seen) loaded in
      let same_file : f ≡ d = ground (arith, same_doc, read) in
      let first : granted d.statement r ≡ true → granted (statements given) r ≡ true =
        subst (λ (x : Document). granted x.statement r ≡ true → granted (statements given) r ≡ true)
          same_file k in
      let later = granted-rows ids given e rows (λ q i. m q (inr i)) ds rest in
      let either : (granted d.statement r || granted (statements ds) r) ≡ true =
        sym split ∙ subst (λ (x : List Document). granted (statements x) r ≡ true) (sym listed) g in
      elim (Bool-cases (granted d.statement r)) [
        | inl y ↦ first y
        | inr n ↦ later (ground (arith, either, n))
      ]

pub known_effects-load_policy :
    (a : Admin) (t : Tables) (tenant : Bytes) (id : String) (d : Document)
    → load_policy a t tenant id ≡ ok d
    → known_effects d.statement ≡ true
known_effects-load_policy a t tenant id d h =
    found (find_policy tenant id t.policies)
      (load_policy-found a t tenant id (find_policy tenant id t.policies) d refl h)
  where
    found :
        (o : Option PolicyRow) → document_of tenant id o ≡ ok d → known_effects d.statement ≡ true
    found none e = absurd (ground (arith, e))
    found (some p) e = known_effects-resolved_document tenant p d e

known_effects-resolve_policies :
    (a : Admin) (t : Tables) (tenant : Bytes) (ids : List String) (docs : List Document)
    → resolve_policies a t tenant ids ≡ ok docs
    → known_effects (statements docs) ≡ true
unfolding resolve_policies
known_effects-resolve_policies a t tenant [] docs h =
    let none_read : [] ≡ docs = ground (arith, h) in
    subst (λ (x : List Document). known_effects (statements x) ≡ true) none_read refl
known_effects-resolve_policies a t tenant (id ∷ ids) docs h =
    let (d, first, h) = >>=-eq-ok (load_policy a t tenant id) _ h in
    let (ds, rest, out) = >>=-eq-ok (resolve_policies a t tenant ids) _ h in
    let listed : d ∷ ds ≡ docs = ground (arith, out) in
    subst (λ (x : List Document). known_effects (statements x) ≡ true) listed
      (ground (
        arith,
        all-append (λ st. is_allow st.effect || is_deny st.effect) d.statement (statements ds),
        known_effects-load_policy a t tenant id d first,
        known_effects-resolve_policies a t tenant ids ds rest,
      ))

-- No document read for a tenant names the text that stands in for a wildcard.
abbrev pub Plain : Bytes → List PolicyRow → Type 0
Plain tenant =
    All (λ p. (d : Document) → resolved_document tenant p ≡ ok d → unprobed d.statement ≡ true)

pub Plain-boundary :
    (tenant : Bytes) (t : Tables) (row : KeyRow) (d : Document)
    → Plain tenant t.policies
    → boundary_of tenant t (some row) ≡ ok (some d)
    → unprobed d.statement ≡ true
Plain-boundary tenant t row d l h = elim (Bool-cases (row.boundary_id == "")) [
  | inl e ↦ absurd (none_some d (rw (← h, e) refl))
  | inr e ↦ read (find_policy tenant row.boundary_id t.policies) refl (sym (by_row e) ∙ h)
]
  where
    by_row :
        (row.boundary_id == "") ≡ false
        → boundary_of tenant t (some row)
          ≡ optional_document tenant (find_policy tenant row.boundary_id t.policies)
    by_row e = rw e refl

    none_some : (d : Document) → ◌≡◌ {A = K (Option Document)} (ok none) (ok (some d)) → ⊥
    none_some d e = cc

    read :
        (o : Option PolicyRow)
        → find_policy tenant row.boundary_id t.policies ≡ o
        → optional_document tenant o ≡ ok (some d)
        → unprobed d.statement ≡ true
    read none f e = absurd (none_some d e)
    read (some p) f e =
        let (x, is, out) = >>=-eq-ok (resolved_document tenant p) (λ x. ok (some x)) e in
        let same_doc : x ≡ d = ground (arith, out) in
        All-Among
          (λ q. (d : Document) → resolved_document tenant q ≡ ok d → unprobed d.statement ≡ true)
          t.policies p l (Among-find_policy tenant row.boundary_id t.policies p f) d
          (subst (λ (y : Document). resolved_document tenant p ≡ ok y) same_doc is)

abbrev AtTop : Option Document → Request → Type 0
AtTop none r = Unit
AtTop (some d) r = evaluate (d ∷ []) r ≡ true

pub narrowed_within :
    (bound : List Document) (boundary : Option Document) (r : Request)
    → ((d : Document) → boundary ≡ some d → unprobed d.statement ≡ true)
    → evaluate (narrowed bound boundary) r ≡ true
    → (evaluate bound r ≡ true) × ((d : Document) → boundary ≡ some d → evaluate (d ∷ []) r ≡ true)
narrowed_within bound none r u e = (e, λ d m. absurd (ground arith))
narrowed_within bound (some boundary) r u e =
    let both = intersect_narrows bound boundary r (u boundary refl) e in
    (both.0, λ d m. subst (λ (o : Option Document). AtTop o r) m both.1)

module _ (a b : Admin) (t t' : Tables) (i : CreateInput) (c : Created a t i t')
    (u : Unique t.policies) (l : Plain i.tenant t.policies) (docs : List Document)
    (e : effective_documents b t' i.tenant a.fresh_id ≡ ok docs) (r : Request)
    (allowed : evaluate docs r ≡ true) where
  abbrev row : KeyRow
  row = key_row a i (boundary_id_of i c.requested c.boundary) c.key c.hash

  pub parts : Assembled t i.tenant row docs
  parts = assembled b t i.tenant row docs refl (
      subst (λ (x : Tables). effective_documents b x i.tenant a.fresh_id ≡ ok docs) (sym c.filed) e)

  pub bound_allowed :
      (evaluate parts.bound r ≡ true)
      × ((d : Document) → parts.boundary ≡ some d → evaluate (d ∷ []) r ≡ true)
  bound_allowed =
      narrowed_within parts.bound parts.boundary r
        (λ d m. Plain-boundary i.tenant t row d l (parts.capped ∙ ap ok m))
        (subst (λ (x : List Document). evaluate x r ≡ true) (sym parts.whole) allowed)

  pub caller_allowed :
      deny_free (statements i.caller.documents) ≡ true
      → unprobed (statements i.caller.documents) ≡ true
      → evaluate i.caller.documents r ≡ true
  caller_allowed d k =
      let given =
        granted-rows a t i.tenant u r i.policy_ids c.granted_documents c.resolved
          (bound_rows i.tenant i.policy_ids t.policies)
          (Among-bound_rows i.tenant i.policy_ids t.policies) parts.bound parts.read
          (ground (arith, bound_allowed.0, evaluate_lem parts.bound r)) in
      let ours =
        permits-granted i.caller.documents r k c.granted_documents
          (unfold check_grantable in ground (arith, c.grantable))
          (known_effects-resolve_policies a t i.tenant i.policy_ids c.granted_documents c.resolved)
          given in
      ground (
        arith,
        ours,
        evaluate_lem i.caller.documents r,
        not_denied (statements i.caller.documents) r d,
      )

module _ (a b : Admin) (t t' : Tables) (i : CreateInput) (secret : Bytes) where
  -- A key that is created can do nothing that its maker cannot: every request that the new key's
  -- effective documents allow is one that the maker's documents allow. (The maker's documents deny
  -- nothing, and no document names the text that stands in for a wildcard. Policies have different
  -- ids.)
  pub created_key_within_caller :
      (docs : List Document) (r : Request)
      → Unique t.policies
      → Plain i.tenant t.policies
      → deny_free (statements i.caller.documents) ≡ true
      → unprobed (statements i.caller.documents) ≡ true
      → create_key a t i ≡ ok (t', secret)
      → effective_documents b t' i.tenant a.fresh_id ≡ ok docs
      → evaluate docs r ≡ true
      → evaluate i.caller.documents r ≡ true
  created_key_within_caller docs r u l d k h e allowed =
      caller_allowed a b t t' i (create_key-Created a t i t' secret h).0 u l docs e r allowed d k
