-- ===== src/Tenants.antt =====
-- internal/operator/tenant.go: which tenant a namespace belongs to, and the tenants that the loops of
-- the operator go through. Go's map is an association list; the listings are sorted, so that the order
-- in which the map is walked does not show.
pub mod Listed
pub mod Tests
use orbitjob.Prelude.{
  ℕ, String, Bool, true, false, List, [], ◌∷◌, Option, none, some, ◌==◌, contains, if◌then◌else◌,
}
use text.Mathlib.Text.{is_lt}
use Prim.Native.String.{compare}
use orbitjob.Prelude.Assoc.{Assoc, lookup}
use orbitjob.Prelude.Result.{Result, ok, err}

pub data TenantError : Type 0 where
  no_tenant : (namespace : String) → TenantError
  no_default no_namespace : TenantError

abbrev pub configured : String → Option String → Result TenantError String
configured namespace none = err (no_tenant namespace)
configured namespace (some tenant) = if tenant == "" then err (no_tenant namespace) else ok tenant

-- A missing entry reads as the empty text.
unfoldable pub resolve_namespace : Assoc String → String → Result TenantError String
unfolding lookup
resolve_namespace tenants namespace = configured namespace (lookup namespace tenants)

unfoldable pub resolve_default : String → String → Result TenantError String
resolve_default tenant namespace =
    if tenant == "" then err no_default else if namespace == "" then err no_namespace else ok tenant

-- The loop of TenantIDs.
unfoldable pub collect_tenants : Assoc String → List String → List String
collect_tenants [] seen = []
collect_tenants ((namespace, tenant) ∷ tenants) seen =
    if contains seen tenant
    then collect_tenants tenants seen
    else tenant ∷ collect_tenants tenants (tenant ∷ seen)

abbrev pub insert_sorted : String → List String → List String
insert_sorted s [] = s ∷ []
insert_sorted s (x ∷ xs) = if is_lt (compare x s) then x ∷ insert_sorted s xs else s ∷ (x ∷ xs)

-- sort.Strings
abbrev pub sort_strings : List String → List String
sort_strings [] = []
sort_strings (s ∷ ss) = insert_sorted s (sort_strings ss)

unfoldable pub tenant_ids : Assoc String → List String
unfolding collect_tenants
tenant_ids tenants = sort_strings (collect_tenants tenants [])

abbrev pub keys : Assoc String → List String
keys [] = []
keys ((namespace, tenant) ∷ tenants) = namespace ∷ keys tenants

unfoldable pub namespaces : Assoc String → List String
namespaces tenants = sort_strings (keys tenants)

unfoldable pub default_tenant_ids : String → List String
default_tenant_ids tenant = if tenant == "" then [] else tenant ∷ []
