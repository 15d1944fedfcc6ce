-- ===== src/ApiKeys/Effective.antt =====
-- What a key may do: EffectiveDocuments and boundaryDocument of
-- internal/admin/store/postgres/policy_repository.go, and Require of
-- internal/admin/http/middleware/authorize.go with the targets of internal/admin/http/resource_arn.go.
use orbitjob.Prelude.{
  String, ◌&&◌, List, [], ◌∷◌, Option, none, some, ◌==◌, Bytes, codes, contains, if◌then◌else◌,
}
use orbitjob.Prelude.Result.{ok, ◌>>=◌, ◌>>◌}
use orbitjob.Policy.{Arn, Document, star, is_empty, evaluate}
use orbitjob.Policy.Grants.{intersect}
use orbitjob.ApiKeys.{
  PolicyRow, KeyRow, Tables, bound_policies, key_boundary, Admin, K, reach, is_owner, visible,
  find_policy, resolved_document,
}

unfoldable pub find_key : Bytes → String → List KeyRow → Option KeyRow
find_key tenant id [] = none
find_key tenant id (k ∷ ks) =
    if k.id == id && is_owner tenant k.tenant then some k else find_key tenant id ks

-- The rows that the join of the bindings and the policies yields.
unfoldable pub bound_rows : Bytes → List String → List PolicyRow → List PolicyRow
bound_rows tenant ids [] = []
bound_rows tenant ids (p ∷ ps) =
    let rest = bound_rows tenant ids ps in
    if contains ids p.id && visible tenant p then p ∷ rest else rest

unfoldable pub resolved_documents : Bytes → List PolicyRow → K (List Document)
unfolding resolved_document
resolved_documents tenant [] = ok []
resolved_documents tenant (p ∷ ps) = do
  doc ← resolved_document tenant p
  docs ← resolved_documents tenant ps
  ok (doc ∷ docs)

abbrev pub policies_of : Option KeyRow → List String
policies_of none = []
policies_of (some k) = k.policies

abbrev pub optional_document : Bytes → Option PolicyRow → K (Option Document)
optional_document tenant none = ok none
optional_document tenant (some p) = do doc ← resolved_document tenant p; ok (some doc)

-- A boundary that is not there, or that the tenant cannot see, is none.
abbrev pub boundary_of : Bytes → Tables → Option KeyRow → K (Option Document)
boundary_of tenant t none = ok none
boundary_of tenant t (some k) =
    if k.boundary_id == ""
    then ok none
    else optional_document tenant (find_policy tenant k.boundary_id t.policies)

abbrev pub narrowed : List Document → Option Document → List Document
narrowed docs none = docs
narrowed docs (some boundary) = intersect docs boundary

unfoldable pub effective_documents : Admin → Tables → Bytes → String → K (List Document)
unfolding find_key bound_rows resolved_documents find_policy intersect
effective_documents a t tenant id =
    let key = find_key tenant id t.keys in
    do
      reach a (bound_policies tenant id)
      docs ← resolved_documents tenant (bound_rows tenant (policies_of key) t.policies)
      reach a (key_boundary tenant id)
      boundary ← boundary_of tenant t key
      ok (narrowed docs boundary)

pub data Verdict : Type 0 where
  pass no_context malformed forbidden : Verdict

abbrev pub judged : List Document → String → Option Arn → Verdict
judged docs action none = malformed
judged docs action (some arn) =
    if evaluate docs (record { action = action; resource = arn }) then pass else forbidden

-- The documents are none where the request went past the authentication.
unfoldable pub require : String → Option (List Document) → Option Arn → Verdict
unfolding evaluate
require action none target = no_context
require action (some docs) target = judged docs action target

abbrev pub or_star : Bytes → Bytes
or_star s = if is_empty s then star else s

-- `id` and `run_id` are the parameters of the path, empty where it has none.
unfoldable pub tenant_scoped : (type tenant group id run_id : Bytes) → Arn
tenant_scoped type tenant group id run_id = record {
  tenant = tenant;
  group = or_star group;
  type = type;
  id = if is_empty id then or_star run_id else id;
}

unfoldable pub tenant_resource : Bytes → Arn
tenant_resource id = record {
  tenant = or_star id;
  group = star;
  type = codes "tenant";
  id = or_star id;
}

unfoldable pub api_key_resource : (tenant key_id : Bytes) → Arn
api_key_resource tenant key_id = record {
  tenant = or_star tenant;
  group = star;
  type = codes "apikey";
  id = if is_empty tenant then star else or_star key_id;
}
