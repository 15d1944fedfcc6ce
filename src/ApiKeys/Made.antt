-- ===== src/ApiKeys/Made.antt =====
-- A key that was created: what its creation went through, and what its documents are made of.
use orbitjob.Prelude.{
  ◌≡◌, refl, true, String, List, ◌∷◌, Option, some, arith, eq_iff, same_iff, Bytes, subst,
}
use orbitjob.Prelude.Result.{ok, refuse, >>=-eq-ok}
use orbitjob.Policy.{Document}
use orbitjob.Policy.Grants.{check_grantable, propagate_boundary}
use orbitjob.ApiKeys.{
  KeyRow, is_owner, Tables, Admin, policy_refused, bound_policies, key_boundary, insert_key, reach,
  wrap, key_clashes,
}
use orbitjob.ApiKeys.Create.{
  CreateInput, check_group, resolve_policies, load_boundary, boundary_id_of, generate_key, hash_of,
  clashes, key_row, create_key,
}
use orbitjob.ApiKeys.Effective.{
  find_key, bound_rows, resolved_documents, policies_of, boundary_of, narrowed, effective_documents,
}
use orbitjob.ApiKeys.Rows.{wrap-eq-ok}

-- What a successful creation went through.
pub record Created (a : Admin) (t : Tables) (i : CreateInput) (t' : Tables) : Type 0 where
  pub granted_documents : List Document
  pub held : Option Document
  pub requested : Option Document
  pub boundary : Option Document
  pub key : Bytes
  pub hash : String
  pub in_group : check_group a i ≡ ok tt
  pub resolved : resolve_policies a t i.tenant i.policy_ids ≡ ok granted_documents
  pub grantable : check_grantable i.caller.documents granted_documents ≡ ok tt
  pub held_loaded : load_boundary a t i.caller.tenant i.caller.boundary_id ≡ ok held
  pub requested_loaded : load_boundary a t i.tenant i.boundary_id ≡ ok requested
  pub propagated : propagate_boundary held requested ≡ ok boundary
  pub told : generate_key a.random_text ≡ ok key
  pub hashed : hash_of (a.hash key) ≡ ok hash
  pub filed :
      record t { keys = key_row a i (boundary_id_of i requested boundary) key hash ∷ t.keys } ≡ t'

pub create_key-Created :
    (a : Admin) (t : Tables) (i : CreateInput) (t' : Tables) (s : Bytes)
    → create_key a t i ≡ ok (t', s)
    → (c : Created a t i t') × (c.key ≡ s)
unfolding create_key
create_key-Created a t i t' s h =
    let (u, group, h) = >>=-eq-ok (check_group a i) _ h in
    let (docs, resolved, h) = >>=-eq-ok (resolve_policies a t i.tenant i.policy_ids) _ h in
    let (v, grantable, h) =
      >>=-eq-ok (wrap policy_refused (check_grantable i.caller.documents docs)) _ h in
    let (held, held_loaded, h) =
      >>=-eq-ok (load_boundary a t i.caller.tenant i.caller.boundary_id) _ h in
    let (requested, asked, h) = >>=-eq-ok (load_boundary a t i.tenant i.boundary_id) _ h in
    let (boundary, propagated, h) =
      >>=-eq-ok (wrap policy_refused (propagate_boundary held requested)) _ h in
    let (key, told, h) = >>=-eq-ok (generate_key a.random_text) _ h in
    let (hash, hashed, h) = >>=-eq-ok (hash_of (a.hash key)) _ h in
    let (w, up, h) = >>=-eq-ok (reach a (insert_key i.tenant a.fresh_id)) _ h in
    let (x, free, h) =
      >>=-eq-ok (refuse (clashes a.fresh_id i.policy_ids t.keys) (key_clashes a.fresh_id)) _ h in
    (
      record {
        granted_documents = docs;
        held = held;
        requested = requested;
        boundary = boundary;
        key = key;
        hash = hash;
        in_group = group;
        resolved = resolved;
        grantable = wrap-eq-ok policy_refused (check_grantable i.caller.documents docs) v grantable;
        held_loaded = held_loaded;
        requested_loaded = asked;
        propagated =
            wrap-eq-ok policy_refused (propagate_boundary held requested) boundary propagated;
        told = told;
        hashed = hashed;
        filed = ground (arith, h);
      },
      ground (arith, h),
    )

-- What the documents of a key just filed are made of.
pub record Assembled (t : Tables) (tenant : Bytes) (row : KeyRow) (docs : List Document)
    : Type 0 where
  pub bound : List Document
  pub boundary : Option Document
  pub read : resolved_documents tenant (bound_rows tenant row.policies t.policies) ≡ ok bound
  pub capped : boundary_of tenant t (some row) ≡ ok boundary
  pub whole : narrowed bound boundary ≡ docs

pub find_key_first :
    (tenant : Bytes) (row : KeyRow) (keys : List KeyRow)
    → row.tenant ≡ some tenant
    → find_key tenant row.id (row ∷ keys) ≡ some row
unfolding find_key
find_key_first tenant row keys e =
    let ours : is_owner tenant row.tenant ≡ true = rw e ((same_iff tenant tenant).1 refl) in
    ground (arith, eq_iff row.id row.id, ours)

pub assembled :
    (b : Admin) (t : Tables) (tenant : Bytes) (row : KeyRow) (docs : List Document)
    → row.tenant ≡ some tenant
    → effective_documents b (record t { keys = row ∷ t.keys }) tenant row.id ≡ ok docs
    → Assembled t tenant row docs
unfolding effective_documents
assembled b t tenant row docs owned h =
    let (u, up, h) = >>=-eq-ok (reach b (bound_policies tenant row.id)) _ h in
    let (bound, read, h) =
      >>=-eq-ok
        (resolved_documents tenant
          (bound_rows tenant (policies_of (find_key tenant row.id (row ∷ t.keys))) t.policies))
        _ h in
    let (v, up_too, h) = >>=-eq-ok (reach b (key_boundary tenant row.id)) _ h in
    let (boundary, capped, h) =
      >>=-eq-ok
        (boundary_of tenant (record t { keys = row ∷ t.keys })
          (find_key tenant row.id (row ∷ t.keys)))
        _ h in
    record {
      bound = bound;
      boundary = boundary;
      read =
          subst
            (λ (k : Option KeyRow).
              resolved_documents tenant (bound_rows tenant (policies_of k) t.policies) ≡ ok bound)
            (find_key_first tenant row t.keys owned) read;
      capped =
          subst
            (λ (k : Option KeyRow).
              boundary_of tenant (record t { keys = row ∷ t.keys }) k ≡ ok boundary)
            (find_key_first tenant row t.keys owned) capped;
      whole = ground (arith, h);
    }
