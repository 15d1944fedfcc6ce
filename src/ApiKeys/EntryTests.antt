-- ===== src/ApiKeys/EntryTests.antt =====
-- The theorems on entering keys at the tenant of the tests.
use orbitjob.Prelude.{
  ◌≡◌, ◌⊎◌, refl, none, true, false, [], ◌∷◌, ◌++◌, some, arith, Among, Bytes, codes, same, drop,
  String, eq_iff,
}
use orbitjob.Prelude.Result.{ok}
use orbitjob.Policy.Grants.{intersect}
use orbitjob.ApiKeys.{kind_tenant, KeyRow, Tables}
use orbitjob.ApiKeys.Create.{key_row}
use orbitjob.ApiKeys.Effective.{effective_documents}
use orbitjob.ApiKeys.Access.{
  Principal, tenant_or_empty, is_public_path, principal_from_row, auth_rows, first_match,
  validate_api_key, resolve_key, entered, enter, revoke_each, revoke,
}
use orbitjob.ApiKeys.Entered.{Valid, entered_by_live_key, is_named}
use orbitjob.ApiKeys.Issued.{issued_key_enters_until_revoked}
use orbitjob.ApiKeys.Tests.{
  acme, acme_reads, admin, new_key, with_policy, with_key, wanted, made, key_documents,
}

abbrev bearer : Bytes
bearer = codes "Bearer " ++ new_key

abbrev key_principal : Principal
key_principal = record {
  tenant = acme;
  kind = kind_tenant;
  key_id = "k1";
  group = "";
  boundary_id = "p2";
}

key_enters :
    enter (admin "k1") with_key 5 "/api/v1/jobs" bearer
    ≡ entered key_principal (intersect (acme_reads ∷ []) acme_reads)
unfolding enter resolve_key validate_api_key auth_rows first_match same
key_enters = rw key_documents refl

entered_by_live_key_example :
    (is_public_path "/api/v1/jobs" ≡ false)
    × ((k : KeyRow) × Among k with_key.keys
        × (principal_from_row k ≡ key_principal)
        × Valid (admin "k1") 5 (drop 7 bearer) k
        × ((k.tenant ≡ none)
            ⊎ ((tenant : Bytes) × (k.tenant ≡ some tenant)
                × ((admin "k1").is_active tenant ≡ true)))
        × (effective_documents (admin "k1") with_key (tenant_or_empty k.tenant) k.id
            ≡ ok (intersect (acme_reads ∷ []) acme_reads)))
entered_by_live_key_example =
    entered_by_live_key (admin "k1") with_key 5 "/api/v1/jobs" bearer key_principal
      (intersect (acme_reads ∷ []) acme_reads) key_enters

abbrev with_revoked : Tables
with_revoked = record with_policy {
  keys = record (key_row (admin "k1") wanted "p2" new_key "hash") { revoked = true } ∷ [];
}

key_revoked : revoke (admin "k1") with_key acme "k1" ≡ ok with_revoked
unfolding revoke revoke_each same
key_revoked = refl

hash_accepted :
    (h : String) (x : Bytes) → (admin "k1").hash x ≡ some h → (admin "k1").compare_hash h x ≡ true
hash_accepted h x e = ground (arith, e, eq_iff h "hash")

issued_key_enters_until_revoked_example :
    ((p : Principal) × (enter (admin "k1") with_key 5 "/api/v1/jobs" bearer
        ≡ entered p (intersect (acme_reads ∷ []) acme_reads))
      × (p.tenant ≡ acme)
      × (p.kind ≡ kind_tenant)
      × (p.key_id ≡ "k1")
      × (p.group ≡ wanted.group))
    × (is_named acme "k1" (resolve_key (admin "k1") with_revoked 9 bearer) ≡ false)
issued_key_enters_until_revoked_example =
    issued_key_enters_until_revoked (admin "k1") (admin "k1") with_policy with_key with_revoked
      wanted new_key "/api/v1/jobs" bearer (intersect (acme_reads ∷ []) acme_reads) 5 9
      hash_accepted made refl refl refl refl key_documents key_revoked
