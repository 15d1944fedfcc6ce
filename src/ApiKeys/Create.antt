-- ===== src/ApiKeys/Create.antt =====
-- internal/admin/app/apikey/command/create.go: Creator.Create with its guards, and the insert of
-- apikey_repository.go. The readers are wired: the checks for absent ones are not modelled.
use orbitjob.Prelude.{
  String, Bool, false, not, ◌&&◌, ◌||◌, ◌++◌, List, any, contains, codes, ltb, length, take, [],
  ◌∷◌, Option, none, some, ◌==◌, Bytes, if◌then◌else◌,
}
use orbitjob.Prelude.Result.{ok, err, ◌>>=◌, ◌>>◌, refuse}
use orbitjob.Policy.{Document}
use orbitjob.Policy.Grants.{check_grantable, propagate_boundary}
use orbitjob.ApiKeys.{
  KeyRow, kind_tenant, Tables, group_exists, insert_key, policy_refused, outside_group,
  foreign_group, no_secret, key_clashes, no_hash, Admin, K, reach, wrap, load_policy,
}

pub record Caller : Type 0 where
  pub tenant : Bytes
  pub key_id : String
  pub group : String
  pub documents : List Document
  pub boundary_id : String

pub record CreateInput : Type 0 where
  pub tenant : Bytes
  pub group : String
  pub policy_ids : List String
  pub boundary_id : String
  pub caller : Caller

unfoldable pub check_group : Admin → CreateInput → K (Unit {0})
check_group a i =
    let held = a.trim i.caller.group in
    let requested = a.trim i.group in
    if not (held == "") && not (requested == held)
    then err (outside_group requested)
    else if requested == ""
    then ok tt
    else do
      reach a (group_exists i.tenant requested)
      refuse (not (a.has_group i.tenant requested)) (foreign_group requested)

unfoldable pub resolve_policies : Admin → Tables → Bytes → List String → K (List Document)
unfolding load_policy
resolve_policies a t tenant [] = ok []
resolve_policies a t tenant (id ∷ ids) = do
  doc ← load_policy a t tenant id
  docs ← resolve_policies a t tenant ids
  ok (doc ∷ docs)

-- callerBoundary and resolveBoundary: the empty id names no policy.
unfoldable pub load_boundary : Admin → Tables → Bytes → String → K (Option Document)
unfolding load_policy
load_boundary a t tenant id =
    if id == "" then ok none else do doc ← load_policy a t tenant id; ok (some doc)

abbrev pub boundary_id_of : CreateInput → Option Document → Option Document → String
boundary_id_of i none (some _) = i.caller.boundary_id
boundary_id_of i _ _ = i.boundary_id

abbrev pub generate_key : Option Bytes → K Bytes
generate_key none = err no_secret
generate_key (some text) = ok (codes "otj_" ++ text)

abbrev pub key_prefix : Bytes → Bytes
key_prefix key = if ltb (length key) 12 then key else take 12 key

abbrev pub hash_of : Option String → K String
hash_of none = err no_hash
hash_of (some s) = ok s

abbrev pub key_row : Admin → CreateInput → String → Bytes → String → KeyRow
key_row a i boundary_id key hash = record {
  id = a.fresh_id;
  tenant = some i.tenant;
  kind = kind_tenant;
  group = i.group;
  boundary_id = boundary_id;
  policies = i.policy_ids;
  hash = hash;
  prefix = key_prefix key;
  bound_by = i.caller.tenant;
  revoked = false;
  expires_at = none;
}

abbrev pub repeats : List String → Bool
repeats [] = false
repeats (id ∷ ids) = contains ids id || repeats ids

-- The primary keys of api_keys and key_policies
unfoldable pub clashes : String → List String → List KeyRow → Bool
clashes id policy_ids keys = any (λ k. k.id == id) keys || repeats policy_ids

-- The tables with the new key, and its text, which is told once.
unfoldable pub create_key : Admin → Tables → CreateInput → K (Tables × Bytes)
unfolding clashes check_group resolve_policies load_boundary check_grantable propagate_boundary
create_key a t i = do
  check_group a i
  granted ← resolve_policies a t i.tenant i.policy_ids
  wrap policy_refused (check_grantable i.caller.documents granted)
  held ← load_boundary a t i.caller.tenant i.caller.boundary_id
  requested ← load_boundary a t i.tenant i.boundary_id
  boundary ← wrap policy_refused (propagate_boundary held requested)
  key ← generate_key a.random_text
  hash ← hash_of (a.hash key)
  reach a (insert_key i.tenant a.fresh_id)
  refuse (clashes a.fresh_id i.policy_ids t.keys) (key_clashes a.fresh_id)
  ok (record t { keys = key_row a i (boundary_id_of i requested boundary) key hash ∷ t.keys }, key)
