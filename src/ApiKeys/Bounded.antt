-- ===== src/ApiKeys/Bounded.antt =====
-- The boundary of a new key, against that of its maker.
use orbitjob.Prelude.{
  ◌≡◌, refl, String, true, false, List, [], ◌∷◌, Option, none, some, arith, inl, inr, append-nil,
  Bool-cases, ◌==◌, Bytes, ap, sym, subst, ◌∙◌,
}
use orbitjob.Prelude.Result.{ok, ◌>>=◌, >>=-eq-ok}
use orbitjob.Policy.{Document, Request, evaluate}
use orbitjob.Policy.Grants.{check_grantable, propagate_boundary, permits}
use orbitjob.Policy.Probes.{unprobed}
use orbitjob.Policy.Delegation.{deny_free, check_grantable_sound}
use orbitjob.ApiKeys.{PolicyRow, KeyRow, Tables, Admin, K, find_policy, document_of, load_policy}
use orbitjob.ApiKeys.Create.{CreateInput, load_boundary, boundary_id_of, key_row, create_key}
use orbitjob.ApiKeys.Effective.{boundary_of, optional_document, effective_documents}
use orbitjob.ApiKeys.Rows.{Unique, load_policy-found}
use orbitjob.ApiKeys.Made.{Created, create_key-Created}
use orbitjob.ApiKeys.Delegated.{Plain, parts, bound_allowed, known_effects-load_policy}

-- The boundary of a key that names a policy which the tenant can read.
boundary_known :
    (a : Admin) (t : Tables) (tenant : Bytes) (row : KeyRow) (d : Document)
    → (row.boundary_id == "") ≡ false
    → load_policy a t tenant row.boundary_id ≡ ok d
    → boundary_of tenant t (some row) ≡ ok (some d)
boundary_known a t tenant row d n h = rw n (
    there (find_policy tenant row.boundary_id t.policies)
      (load_policy-found a t tenant row.boundary_id _ d refl h))
  where
    there :
        (o : Option PolicyRow)
        → document_of tenant row.boundary_id o ≡ ok d
        → optional_document tenant o ≡ ok (some d)
    there none e = absurd (ground (arith, e))
    there (some p) e = rw e refl

load_boundary-some :
    (a : Admin) (t : Tables) (tenant : Bytes) (id : String) (d : Document)
    → load_boundary a t tenant id ≡ ok (some d)
    → ((id == "") ≡ false) × (load_policy a t tenant id ≡ ok d)
unfolding load_boundary
load_boundary-some a t tenant id d h = elim (Bool-cases (id == "")) [
  | inl e ↦ absurd (none_some (rw (← h, e) refl))
  | inr e ↦
      let (x, is, out) =
        >>=-eq-ok (load_policy a t tenant id) (λ x. ok (some x)) (sym (rest e) ∙ h) in
      let same_doc : x ≡ d = ground (arith, out) in
      (e, subst (λ (y : Document). load_policy a t tenant id ≡ ok y) same_doc is)
]
  where
    none_some : ◌≡◌ {A = K (Option Document)} (ok none) (ok (some d)) → ⊥
    none_some e = cc

    rest :
        (id == "") ≡ false
        → load_boundary a t tenant id ≡ (load_policy a t tenant id >>= λ x. ok (some x))
    rest e = rw e refl

load_boundary_lem :
    (a : Admin) (t : Tables) (tenant : Bytes) (id : String) (d : Document)
    → (id == "") ≡ false
    → load_policy a t tenant id ≡ ok d
    → load_boundary a t tenant id ≡ ok (some d)
unfolding load_boundary
load_boundary_lem a t tenant id d n h = rw (n, h) refl

module _ (a b : Admin) (t t' : Tables) (i : CreateInput) (c : Created a t i t')
    (u : Unique t.policies) (l : Plain i.tenant t.policies) (docs : List Document)
    (e : effective_documents b t' i.tenant a.fresh_id ≡ ok docs) (r : Request)
    (allowed : evaluate docs r ≡ true) where
  abbrev new_row : KeyRow
  new_row = key_row a i (boundary_id_of i c.requested c.boundary) c.key c.hash

  -- The policy under the new key's boundary id caps the key.
  capped_by :
      (id : String) (d : Document)
      → boundary_id_of i c.requested c.boundary ≡ id
      → (id == "") ≡ false
      → load_policy a t i.tenant id ≡ ok d
      → evaluate (d ∷ []) r ≡ true
  capped_by id d same_id n h =
      let known = boundary_known a t i.tenant new_row d (rw same_id n) (rw same_id h) in
      let all = parts a b t t' i c u l docs e r allowed in
      (bound_allowed a b t t' i c u l docs e r allowed).1 d (ground (arith, all.capped, known))

  under_ceiling :
      (ceiling : Document) (q o : Option Document)
      → (i.caller.boundary_id == "") ≡ false
      → load_policy a t i.tenant i.caller.boundary_id ≡ ok ceiling
      → deny_free ceiling.statement ≡ true
      → unprobed ceiling.statement ≡ true
      → c.requested ≡ q
      → c.boundary ≡ o
      → propagate_boundary (some ceiling) q ≡ ok o
      → evaluate (ceiling ∷ []) r ≡ true
  unfolding propagate_boundary
  under_ceiling ceiling none o named held d k rq bd h =
      let kept : some ceiling ≡ o = ground (arith, h) in
      capped_by i.caller.boundary_id ceiling (rw (rq, bd, ← kept) refl) named held
  under_ceiling ceiling (some x) o named held d k rq bd h =
      let fits : permits (x ∷ []) (ceiling ∷ []) ≡ true = ground (arith, h) in
      let kept : some x ≡ o = ground (arith, h, fits) in
      let (asked, loaded) =
        load_boundary-some a t i.tenant i.boundary_id x (c.requested_loaded ∙ ap ok rq) in
      let below = capped_by i.boundary_id x (rw (rq, bd, ← kept) refl) asked loaded in
      check_grantable_sound (ceiling ∷ []) (x ∷ []) r (rw (append-nil ceiling.statement) d)
        (rw (append-nil ceiling.statement) k)
        (rw (append-nil x.statement)
          (known_effects-load_policy a t i.tenant i.boundary_id x loaded))
        (unfold check_grantable in ground (arith, fits)) below

module _ (a b : Admin) (t t' : Tables) (i : CreateInput) (secret : Bytes) (docs : List Document)
    (r : Request) where
  -- A key that a bounded maker creates in its own tenant stays under the maker's boundary: every
  -- request that the new key's effective documents allow is one that the boundary policy allows, also
  -- if the maker names another boundary for the key or none. (The boundary denies nothing, and no
  -- document names the text that stands in for a wildcard. Policies have different ids.)
  pub created_key_stays_bounded :
      (ceiling : Document)
      → Unique t.policies
      → Plain i.tenant t.policies
      → i.caller.tenant ≡ i.tenant
      → (i.caller.boundary_id == "") ≡ false
      → load_policy a t i.tenant i.caller.boundary_id ≡ ok ceiling
      → deny_free ceiling.statement ≡ true
      → unprobed ceiling.statement ≡ true
      → create_key a t i ≡ ok (t', secret)
      → effective_documents b t' i.tenant a.fresh_id ≡ ok docs
      → evaluate docs r ≡ true
      → evaluate (ceiling ∷ []) r ≡ true
  created_key_stays_bounded ceiling u l here named held d k h e allowed =
      let c = (create_key-Created a t i t' secret h).0 in
      let local =
        subst (λ (x : Bytes). load_boundary a t x i.caller.boundary_id ≡ ok (some ceiling))
          (sym here) (load_boundary_lem a t i.tenant i.caller.boundary_id ceiling named held) in
      let same_held : c.held ≡ some ceiling = ground (arith, local, c.held_loaded) in
      under_ceiling a b t t' i c u l docs e r allowed ceiling c.requested c.boundary named held d k
        refl refl
        (subst (λ (x : Option Document). propagate_boundary x c.requested ≡ ok c.boundary) same_held
          c.propagated)
