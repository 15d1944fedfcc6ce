-- ===== src/ApiKeys/Stored.antt =====
-- The tables that the commands leave, from a database that holds presets only.
use orbitjob.Prelude.{
  not, any, ◌≡◌, refl, String, true, false, ◌&&◌, ◌||◌, List, [], ◌∷◌, Option, none, some, arith,
  inl, inr, All, Bool-cases, ◌==◌, Bytes, subst, sym,
}
use orbitjob.Prelude.Result.{ok, is_ok, refuse, >>=-eq-ok}
use orbitjob.Policy.{Document}
use orbitjob.Policy.Known.{check_document, validate_tenant_document}
use orbitjob.ApiKeys.{
  revoking, key_tenant, key_not_found, PolicyRow, Tables, Admin, delete_policy, insert_policy,
  policy_name_taken, bad_document, reach, wrap, is_owner, is_preset, find_policy, name_taken,
  create_policy, without_policy, is_boundary, delete_found, remove_policy,
}
use orbitjob.ApiKeys.Create.{CreateInput, create_key}
use orbitjob.ApiKeys.Access.{is_live, revoke, find_key_tenant, revoke_found, revoke_cross_tenant}
use orbitjob.ApiKeys.Rows.{Unique, wrap-eq-ok, check_document_ok}
use orbitjob.ApiKeys.Made.{Created, create_key-Created}

-- A preset, or a document that ValidateTenantDocument passes.
abbrev pub Checked : PolicyRow → Type 0
Checked p = (is_preset p.owner || is_ok (validate_tenant_document p.document)) ≡ true

pub data Reached : Tables → Type 0 where
  seeded :
      {t : Tables} → All (λ p. is_preset p.owner ≡ true) t.policies → Unique t.policies → Reached t
  policy_created :
      {t t' : Tables} (a : Admin) (tenant : Bytes) (name : String) (document : Document)
      → Reached t
      → create_policy a t tenant name document ≡ ok t'
      → Reached t'
  policy_removed :
      {t t' : Tables} (a : Admin) (tenant : Bytes) (id : String)
      → Reached t
      → remove_policy a t tenant id ≡ ok t'
      → Reached t'
  key_created :
      {t t' : Tables} (a : Admin) (i : CreateInput) (secret : Bytes)
      → Reached t
      → create_key a t i ≡ ok (t', secret)
      → Reached t'
  key_revoked :
      {t t' : Tables} (a : Admin) (tenant : Bytes) (id : String)
      → Reached t
      → revoke a t tenant id ≡ ok t'
      → Reached t'
  key_revoked_anywhere :
      {t t' : Tables} (a : Admin) (id : String)
      → Reached t
      → revoke_cross_tenant a t id ≡ ok t'
      → Reached t'

abbrev pub Stored : List PolicyRow → Type 0
Stored ps = Unique ps × All Checked ps

presets-Checked : (ps : List PolicyRow) → All (λ p. is_preset p.owner ≡ true) ps → All Checked ps
presets-Checked [] h = tt
presets-Checked (p ∷ ps) (h, hs) = (ground (arith, h), presets-Checked ps hs)

fresh-name_taken :
    (tenant : Bytes) (id name : String) (ps : List PolicyRow)
    → name_taken tenant id name ps ≡ false
    → All (λ q. (q.id == id) ≡ false) ps
unfolding name_taken
fresh-name_taken tenant id name [] h = tt
fresh-name_taken tenant id name (p ∷ ps) h =
    (ground (arith, h), fresh-name_taken tenant id name ps (ground (arith, h)))

create_policy-Stored :
    (a : Admin) (t t' : Tables) (tenant : Bytes) (name : String) (document : Document)
    → Stored t.policies
    → create_policy a t tenant name document ≡ ok t'
    → Stored t'.policies
unfolding create_policy
create_policy-Stored a t t' tenant name document (u, s) h =
    let (doc, shaped, h) = >>=-eq-ok (wrap bad_document (check_document document)) _ h in
    let (v, valid, h) = >>=-eq-ok (wrap bad_document (validate_tenant_document doc)) _ h in
    let (w, up, h) = >>=-eq-ok (refuse (a.fails (insert_policy tenant a.fresh_id)) _) _ h in
    let (x, free, h) =
      >>=-eq-ok (refuse (name_taken tenant a.fresh_id name t.policies) (policy_name_taken name)) _
        h in
    let same_doc =
      (check_document_ok document doc
        (wrap-eq-ok bad_document (check_document document) doc shaped)).0 in
    let passed = wrap-eq-ok bad_document (validate_tenant_document doc) v valid in
    let rows : record { id = a.fresh_id; owner = some tenant; name = name; document = document }
          ∷ t.policies
        ≡ t'.policies =
      ground (arith, h) in
    rw (← rows) (
      (fresh-name_taken tenant a.fresh_id name t.policies (ground (arith, free)), u),
      (rw (same_doc, passed) refl, s),
    )

drop_policy :
    (P : PolicyRow → Type 0) (tenant : Bytes) (id : String) (ps : List PolicyRow)
    → All P ps
    → All P (without_policy tenant id ps)
unfolding without_policy
drop_policy P tenant id [] h = tt
drop_policy P tenant id (p ∷ ps) (h, hs) =
    elim (Bool-cases (p.id == id && is_owner tenant p.owner)) [
      | inl e ↦ rw e (drop_policy P tenant id ps hs)
      | inr e ↦ rw e (h, drop_policy P tenant id ps hs)
    ]

without_policy-Unique :
    (tenant : Bytes) (id : String) (ps : List PolicyRow)
    → Unique ps
    → Unique (without_policy tenant id ps)
unfolding without_policy
without_policy-Unique tenant id [] u = tt
without_policy-Unique tenant id (p ∷ ps) (h, u) =
    elim (Bool-cases (p.id == id && is_owner tenant p.owner)) [
      | inl e ↦ rw e (without_policy-Unique tenant id ps u)
      | inr e ↦ rw e (
        drop_policy (λ q. (q.id == p.id) ≡ false) tenant id ps h,
        without_policy-Unique tenant id ps u,
      )
    ]

remove_policy-Stored :
    (a : Admin) (t t' : Tables) (tenant : Bytes) (id : String)
    → Stored t.policies
    → remove_policy a t tenant id ≡ ok t'
    → Stored t'.policies
unfolding remove_policy
remove_policy-Stored a t t' tenant id (u, s) h =
    let (v, up, h) = >>=-eq-ok (reach a (delete_policy tenant id)) _ h in
    let gone = removed (find_policy tenant id t.policies) h in
    rw (← gone)
      (without_policy-Unique tenant id t.policies u, drop_policy Checked tenant id t.policies s)
  where
    removed :
        (o : Option PolicyRow)
        → delete_found t tenant id o ≡ ok t'
        → without_policy tenant id t.policies ≡ t'.policies
    removed none e = absurd (ground (arith, e))
    removed (some p) e = elim (Bool-cases (is_preset p.owner)) [
      | inl y ↦ absurd (ground (arith, e, y))
      | inr n ↦ elim (Bool-cases (is_boundary id t.keys)) [
        | inl y ↦ absurd (ground (arith, e, n, y))
        | inr m ↦ ground (arith, e, n, m)
      ]
    ]

create_key-policies :
    (a : Admin) (t t' : Tables) (i : CreateInput) (c : Created a t i t') → t'.policies ≡ t.policies
create_key-policies a t t' i c = ground (arith, c.filed)

revoke-policies :
    (a : Admin) (t t' : Tables) (tenant : Bytes) (id : String)
    → revoke a t tenant id ≡ ok t'
    → t'.policies ≡ t.policies
unfolding revoke
revoke-policies a t t' tenant id h =
    let (u, up, h) = >>=-eq-ok (reach a (revoking tenant id)) _ h in
    let (v, live, h) =
      >>=-eq-ok (refuse (not (any (is_live tenant id) t.keys)) (key_not_found id)) _ h in
    ground (arith, h)

revoke_cross_tenant-policies :
    (a : Admin) (t t' : Tables) (id : String)
    → revoke_cross_tenant a t id ≡ ok t'
    → t'.policies ≡ t.policies
unfolding revoke_cross_tenant
revoke_cross_tenant-policies a t t' id h =
    let (u, up, h) = >>=-eq-ok (reach a (key_tenant id)) _ h in found (find_key_tenant id t.keys) h
  where
    found : (o : Option (Option Bytes)) → revoke_found a t id o ≡ ok t' → t'.policies ≡ t.policies
    found none e = absurd (ground (arith, e))
    found (some none) e = absurd (ground (arith, e))
    found (some (some tenant)) e = revoke-policies a t t' tenant id e

-- Whatever the commands did, the policies have different ids, and those with an owner passed the
-- check of tenant documents.
pub Reached-Stored : {t : Tables} → Reached t → Stored t.policies
Reached-Stored {t} (seeded h u) = (u, presets-Checked t.policies h)
Reached-Stored (policy_created {t} {t'} a tenant name document r h) =
    create_policy-Stored a t t' tenant name document (Reached-Stored r) h
Reached-Stored (policy_removed {t} {t'} a tenant id r h) =
    remove_policy-Stored a t t' tenant id (Reached-Stored r) h
Reached-Stored (key_created {t} {t'} a i secret r h) =
    subst Stored (sym (create_key-policies a t t' i (create_key-Created a t i t' secret h).0))
      (Reached-Stored r)
Reached-Stored (key_revoked {t} {t'} a tenant id r h) =
    subst Stored (sym (revoke-policies a t t' tenant id h)) (Reached-Stored r)
Reached-Stored (key_revoked_anywhere {t} {t'} a id r h) =
    subst Stored (sym (revoke_cross_tenant-policies a t t' id h)) (Reached-Stored r)
