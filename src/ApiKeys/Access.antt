-- ===== src/ApiKeys/Access.antt =====
-- Who a request is: internal/admin/http/middleware/auth.go over the function orbitjob_auth_api_key of
-- db/migrations/0001_baseline.up.sql, and the revocation of a key in
-- internal/admin/store/postgres/apikey_repository.go. The database and the loader of documents are
-- wired.
use orbitjob.Prelude.{
  ℕ, String, Bool, true, false, not, ◌&&◌, ◌||◌, List, [], ◌∷◌, Option, none, some, ◌==◌, Bytes,
  codes, same, any, ltb, length, take, drop, if◌then◌else◌,
}
use orbitjob.Prelude.Result.{ok, err, ◌>>◌, refuse}
use orbitjob.Policy.{Document}
use orbitjob.ApiKeys.{
  KeyKind, KeyRow, Tables, revoking, key_tenant, auth_keys, key_not_found, tenant_unread, Admin, K,
  reach, is_owner,
}
use orbitjob.ApiKeys.Effective.{effective_documents}

-- The tenant is empty for a principal of the platform.
pub record Principal : Type 0 where
  pub tenant : Bytes
  pub kind : KeyKind
  pub key_id : String
  pub group : String
  pub boundary_id : String

-- Of a key of the platform, the empty text.
abbrev pub tenant_or_empty : Option Bytes → Bytes
tenant_or_empty none = []
tenant_or_empty (some tenant) = tenant

abbrev pub principal_from_row : KeyRow → Principal
principal_from_row k = record {
  tenant = tenant_or_empty k.tenant;
  kind = k.kind;
  key_id = k.id;
  group = k.group;
  boundary_id = k.boundary_id;
}

abbrev pub starts_with : Bytes → Bytes → Bool
starts_with prefix s = same (take (length prefix) s) prefix

abbrev pub is_expired : ℕ → Option ℕ → Bool
is_expired now none = false
is_expired now (some at) = ltb at now

-- ak.tenant_id IS NULL OR EXISTS (an active tenant of this id)
abbrev pub admits_tenant : Admin → Option Bytes → Bool
admits_tenant a none = true
admits_tenant a (some tenant) = a.is_active tenant

-- The rows of orbitjob_auth_api_key.
unfoldable pub auth_rows : Admin → Bytes → List KeyRow → List KeyRow
auth_rows a prefix [] = []
auth_rows a prefix (k ∷ ks) =
    let rest = auth_rows a prefix ks in
    if same k.prefix prefix && (not k.revoked && admits_tenant a k.tenant) then k ∷ rest else rest

unfoldable pub first_match : Admin → ℕ → Bytes → List KeyRow → Option KeyRow
first_match a now key [] = none
first_match a now key (k ∷ ks) =
    let rest = first_match a now key ks in
    if k.revoked || is_expired now k.expires_at
    then rest
    else if a.compare_hash k.hash key
    then some k
    else rest

unfoldable pub validate_api_key : Admin → Tables → ℕ → Bytes → Option KeyRow
unfolding auth_rows first_match
validate_api_key a t now key =
    if not (starts_with (codes "otj_") key) || ltb (length key) 12
    then none
    else if a.fails (auth_keys (take 12 key))
    then none
    else first_match a now key (auth_rows a (take 12 key) t.keys)

-- The key that the header of the request names.
unfoldable pub resolve_key : Admin → Tables → ℕ → Bytes → Option KeyRow
unfolding validate_api_key
resolve_key a t now header =
    if starts_with (codes "Bearer ") header then validate_api_key a t now (drop 7 header) else none

pub data Entry : Type 0 where
  public_path unauthorized permissions_unread : Entry
  entered : Principal → List Document → Entry

abbrev pub with_documents : Principal → K (List Document) → Entry
with_documents p (err e) = permissions_unread
with_documents p (ok docs) = entered p docs

abbrev pub entry_of : Admin → Tables → Option KeyRow → Entry
entry_of a t none = unauthorized
entry_of a t (some k) =
    let p = principal_from_row k in with_documents p (effective_documents a t p.tenant p.key_id)

abbrev pub is_public_path : String → Bool
is_public_path path = path == "/healthz" || (path == "/openapi.json" || path == "/metrics")

-- Auth.Middleware: a public path goes on without a principal.
unfoldable pub enter : Admin → Tables → ℕ → (path : String) (header : Bytes) → Entry
unfolding resolve_key effective_documents
enter a t now path header =
    if is_public_path path then public_path else entry_of a t (resolve_key a t now header)

abbrev pub is_live : Bytes → String → KeyRow → Bool
is_live tenant id k = k.id == id && (is_owner tenant k.tenant && not k.revoked)

unfoldable pub revoke_each : Bytes → String → List KeyRow → List KeyRow
revoke_each tenant id [] = []
revoke_each tenant id (k ∷ ks) =
    let rest = revoke_each tenant id ks in
    if is_live tenant id k then record k { revoked = true } ∷ rest else k ∷ rest

unfoldable pub revoke : Admin → Tables → Bytes → String → K Tables
unfolding revoke_each
revoke a t tenant id = do
  reach a (revoking tenant id)
  refuse (not (any (is_live tenant id) t.keys)) (key_not_found id)
  ok (record t { keys = revoke_each tenant id t.keys })

unfoldable pub find_key_tenant : String → List KeyRow → Option (Option Bytes)
find_key_tenant id [] = none
find_key_tenant id (k ∷ ks) =
    if k.id == id && not k.revoked then some k.tenant else find_key_tenant id ks

-- A NULL tenant does not scan into a string.
abbrev pub revoke_found : Admin → Tables → String → Option (Option Bytes) → K Tables
revoke_found a t id none = err (key_not_found id)
revoke_found a t id (some none) = err (tenant_unread id)
revoke_found a t id (some (some tenant)) = revoke a t tenant id

unfoldable pub revoke_cross_tenant : Admin → Tables → String → K Tables
unfolding revoke find_key_tenant
revoke_cross_tenant a t id = do
  reach a (key_tenant id)
  revoke_found a t id (find_key_tenant id t.keys)
