-- ===== src/Policy/Storing.antt =====
-- ValidateTenantDocument and ResolveSelf (internal/core/domain/policy/actions.go, self.go).
use orbitjob.Prelude.{
  ◌≡◌, refl, inl, inr, String, Bool, true, false, not, ◌&&◌, List, [], ◌∷◌, arith, all,
  if◌then◌else◌, Bool-cases, Bytes, same, ◌==◌,
}
use orbitjob.Prelude.Result.{Result, ok, err, is_ok}
use orbitjob.Policy.{
  Arn, PolicyError, parse_arn, render, Statement, Document, wildcard_action, colon,
}
use orbitjob.Policy.Text.{join, lacks}
use orbitjob.Policy.Known.{
  is_known_action, self_token, check_actions, check_patterns, check_statements,
  validate_tenant_document, with_tenant, resolve_pattern,
}
use orbitjob.Policy.RoundTrip.{Renderable, parse_arn-render, render-parse_arn, split-render}

abbrev pub names_self : Result PolicyError Arn → Bool
names_self (err e) = false
names_self (ok a) = same a.tenant self_token

abbrev pub storable : Statement → Bool
storable st =
    all (λ a. not (a == wildcard_action) && is_known_action a) st.action
    && all (λ p. names_self (parse_arn p)) st.resource

check_actions-is_ok :
    (xs : List String)
    → is_ok (check_actions xs) ≡ all (λ a. not (a == wildcard_action) && is_known_action a) xs
unfolding check_actions
check_actions-is_ok [] = refl
check_actions-is_ok (a ∷ xs) = ground (arith, check_actions-is_ok xs)

check_patterns-is_ok :
    (ps : List Bytes) → is_ok (check_patterns ps) ≡ all (λ p. names_self (parse_arn p)) ps
unfolding check_patterns
check_patterns-is_ok [] = refl
check_patterns-is_ok (p ∷ ps) = ground (arith, check_patterns-is_ok ps)

check_statements-is_ok : (sts : List Statement) → is_ok (check_statements sts) ≡ all storable sts
unfolding check_statements
check_statements-is_ok [] = refl
check_statements-is_ok (st ∷ sts) = ground (
  arith,
  check_statements-is_ok sts,
  check_actions-is_ok st.action,
  check_patterns-is_ok st.resource,
)

-- A tenant may store a document exactly when every action in it is one that the platform
-- implements and not the wildcard, and every resource parses to a name whose tenant is `self`.
pub validate_tenant_document-is_ok :
    (doc : Document) → is_ok (validate_tenant_document doc) ≡ all storable doc.statement
unfolding validate_tenant_document
validate_tenant_document-is_ok doc = check_statements-is_ok doc.statement

-- The tenant segment after resolution.
abbrev pub tenant_of : Bytes → Bytes → Bytes
tenant_of tenant segment = if same segment self_token then tenant else segment

resolved : Bytes → Arn → Arn
resolved tenant a = record a { tenant = tenant_of tenant a.tenant }

resolved-Renderable :
    (tenant : Bytes) (a : Arn)
    → lacks colon tenant ≡ true
    → Renderable a
    → Renderable (resolved tenant a)
unfolding resolved
resolved-Renderable tenant a l r = record {
  tenant_plain = ground (arith, l, r.tenant_plain);
  group_plain = r.group_plain;
  type_plain = r.type_plain;
  type_whole = r.type_whole;
  id_plain = r.id_plain;
  type_filled = r.type_filled;
  id_filled = r.id_filled;
}

resolve-render :
    (tenant : Bytes) (a : Arn)
    → Renderable a
    → resolve_pattern tenant (render a) ≡ render (resolved tenant a)
unfolding resolve_pattern
resolve-render tenant a r = rw (split-render a r) (elim (Bool-cases (same a.tenant self_token)) [
  | inl e ↦ unfold with_tenant resolved join render in rw e
  | inr e ↦ unfold with_tenant resolved join render in rw e
])

-- Resolving a preset's pattern for a tenant whose id holds no colon replaces the tenant `self` by
-- that tenant and nothing else: the result parses to the pattern's own name with the tenant put in,
-- and a pattern of any other tenant parses to its own name.
pub parse_arn-resolve_pattern :
    (tenant pattern : Bytes) (a : Arn)
    → lacks colon tenant ≡ true
    → Renderable a
    → parse_arn pattern ≡ ok a
    → parse_arn (resolve_pattern tenant pattern)
      ≡ ok (record a { tenant = tenant_of tenant a.tenant })
unfolding resolved
parse_arn-resolve_pattern tenant pattern a l r h =
    rw (← render-parse_arn pattern a h, resolve-render tenant a r)
      (parse_arn-render (resolved tenant a) (resolved-Renderable tenant a l r))
