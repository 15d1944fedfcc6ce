-- ===== src/Tenants/Tests.antt =====
-- Three namespaces of two tenants.
use orbitjob.Prelude.{◌≡◌, refl, String, [], ◌∷◌}
use orbitjob.Prelude.Assoc.{Assoc}
use orbitjob.Prelude.Result.{ok, err}
use orbitjob.Tenants.{no_tenant, resolve_namespace, namespaces, tenant_ids}

abbrev table : Assoc String
table = ("web", "beta") ∷ (("jobs", "acme") ∷ (("batch", "beta") ∷ []))

lists_two : tenant_ids table ≡ "acme" ∷ ("beta" ∷ [])
unfolding tenant_ids
lists_two = refl

lists_three : namespaces table ≡ "batch" ∷ ("jobs" ∷ ("web" ∷ []))
unfolding namespaces
lists_three = refl

unknown : resolve_namespace table "other" ≡ err (no_tenant "other")
unfolding resolve_namespace
unknown = refl

batch_of_beta : resolve_namespace table "batch" ≡ ok "beta"
unfolding resolve_namespace
batch_of_beta = refl
