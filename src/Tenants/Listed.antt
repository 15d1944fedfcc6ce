-- ===== src/Tenants/Listed.antt =====
-- The tenants listed are those that namespaces resolve to, each once.
use orbitjob.Prelude.{
  ◌≡◌, refl, String, Bool, true, false, List, [], ◌∷◌, Option, none, some, arith, ◌==◌, ◌||◌, ◌&&◌,
  not, eq_iff, contains, ap, ◌∙◌, occurrences, if◌then◌else◌,
}
use orbitjob.Prelude.Assoc.{Assoc, lookup}
use orbitjob.Prelude.Result.{ok}
use orbitjob.Tenants.{
  configured, resolve_namespace, collect_tenants, insert_sorted, sort_strings, tenant_ids,
}

occurrences-insert_sorted :
    (v s : String) (xs : List String) → occurrences v (insert_sorted s xs) ≡ occurrences v (s ∷ xs)
occurrences-insert_sorted v s [] = refl
occurrences-insert_sorted v s (x ∷ xs) = ground (arith, occurrences-insert_sorted v s xs)

occurrences-sort_strings :
    (v : String) (xs : List String) → occurrences v (sort_strings xs) ≡ occurrences v xs
occurrences-sort_strings v [] = refl
occurrences-sort_strings v (x ∷ xs) =
    ground (arith, occurrences-insert_sorted v x (sort_strings xs), occurrences-sort_strings v xs)

-- Whether a namespace has the tenant.
abbrev has_tenant : String → Assoc String → Bool
has_tenant v [] = false
has_tenant v ((namespace, tenant) ∷ tenants) = (tenant == v) || has_tenant v tenants

occurrences-collect_tenants :
    (v : String) (tenants : Assoc String) (seen : List String)
    → occurrences v (collect_tenants tenants seen)
      ≡ (if has_tenant v tenants && not (contains seen v) then 1 else 0)
unfolding collect_tenants
occurrences-collect_tenants v [] seen = refl
occurrences-collect_tenants v ((namespace, tenant) ∷ tenants) seen = ground (
  arith,
  eq_iff tenant v,
  occurrences-collect_tenants v tenants seen,
  occurrences-collect_tenants v tenants (tenant ∷ seen),
)

has_tenant-lookup :
    (namespace v : String) (tenants : Assoc String)
    → lookup namespace tenants ≡ some v
    → has_tenant v tenants ≡ true
unfolding lookup
has_tenant-lookup namespace v [] e = absurd (ground arith)
has_tenant-lookup namespace v ((held, tenant) ∷ tenants) e =
    ground (arith, e, eq_iff tenant v, has_tenant-lookup namespace v tenants)

-- The tenant that a namespace resolves to is not empty and is listed exactly once, so that the loops
-- over the tenants reach every object that is reconciled, and none twice.
pub listed_once :
    (tenants : Assoc String) (namespace v : String)
    → resolve_namespace tenants namespace ≡ ok v
    → ((v == "") ≡ false) × (occurrences v (tenant_ids tenants) ≡ 1)
unfolding resolve_namespace tenant_ids
listed_once tenants namespace v e = found (lookup namespace tenants) refl e
  where
    found :
        (o : Option String)
        → lookup namespace tenants ≡ o
        → configured namespace o ≡ ok v
        → ((v == "") ≡ false) × (occurrences v (sort_strings (collect_tenants tenants [])) ≡ 1)
    found none m e = absurd (ground arith)
    found (some tenant) m e =
        let same : tenant ≡ v = ground (arith, e) in
        let here : has_tenant v tenants ≡ true =
          has_tenant-lookup namespace v tenants (m ∙ ap some same) in
        (
          ground (arith, e, same, eq_iff tenant "", eq_iff v ""),
          occurrences-sort_strings v (collect_tenants tenants [])
              ∙ (occurrences-collect_tenants v tenants [] ∙ rw here refl),
        )
