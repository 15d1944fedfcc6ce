-- ===== src/Policy/Known.antt =====
-- internal/core/domain/policy/actions.go, document.go and self.go: what may be stored, and the
-- tenant's own copy of a preset.
use orbitjob.Prelude.{
  String, Bool, true, false, not, List, [], ◌∷◌, ◌==◌, Bytes, codes, same, contains, if◌then◌else◌,
  map,
}
use orbitjob.Prelude.Result.{Result, ok, ◌>>=◌, ◌>>◌, refuse}
use orbitjob.Policy.{
  PolicyError, no_statements, unknown_effect, no_actions, no_resources, reserved_action,
  unknown_action, foreign_tenant, parse_arn, Effect, other_effect, Statement, Document,
  wildcard_action, colon,
}
use orbitjob.Policy.Text.{split, join}

abbrev pub known_actions : List String
known_actions =
    "tenant:Create" ∷ "tenant:Get" ∷ "tenant:List" ∷ "apikey:Create" ∷ "apikey:List"
    ∷ "apikey:Revoke" ∷ "policy:Create" ∷ "policy:Delete" ∷ "policy:Get" ∷ "policy:List"
    ∷ "group:Create" ∷ "group:List" ∷ "job:Get" ∷ "job:List" ∷ "job:Trigger" ∷ "instance:Cancel"
    ∷ "instance:Get" ∷ "instance:List" ∷ "check:Create" ∷ "check:Delete" ∷ "check:Get"
    ∷ "check:List" ∷ "check:Pause" ∷ "check:Resume" ∷ "checkrun:Get" ∷ "checkrun:List"
    ∷ "sli:Create" ∷ "sli:Delete" ∷ "sli:Get" ∷ "sli:List" ∷ "slo:Create" ∷ "slo:Delete" ∷ "slo:Get"
    ∷ "slo:List" ∷ "slo:Pause" ∷ "slo:Resume" ∷ "slo:GetBudget" ∷ "slo:ListBudgets" ∷ "sloalert:Get"
    ∷ "sloalert:List" ∷ "function:Get" ∷ "function:Invoke" ∷ "function:List" ∷ "workflow:Get"
    ∷ "workflow:List" ∷ "workflow:Trigger" ∷ []

unfoldable pub is_known_action : String → Bool
is_known_action action = contains known_actions action

abbrev pub self_token : Bytes
self_token = codes "self"

unfoldable pub check_actions : List String → Result PolicyError (Unit {0})
check_actions [] = ok tt
check_actions (a ∷ rest) = do
  refuse (a == wildcard_action) reserved_action
  refuse (not (is_known_action a)) unknown_action
  check_actions rest

unfoldable pub check_patterns : List Bytes → Result PolicyError (Unit {0})
check_patterns [] = ok tt
check_patterns (p ∷ ps) = do
  arn ← parse_arn p
  refuse (not (same arn.tenant self_token)) foreign_tenant
  check_patterns ps

unfoldable pub check_statements : List Statement → Result PolicyError (Unit {0})
unfolding check_actions check_patterns
check_statements [] = ok tt
check_statements (st ∷ sts) = do
  check_actions st.action
  check_patterns st.resource
  check_statements sts

unfoldable pub validate_tenant_document : Document → Result PolicyError (Unit {0})
unfolding check_statements
validate_tenant_document doc = check_statements doc.statement

abbrev pub is_known_effect : Effect → Bool
is_known_effect (other_effect _) = false
is_known_effect _ = true

abbrev pub is_nil {ℓ} : {A : Type ℓ} → List A → Bool
is_nil [] = true
is_nil _ = false

unfoldable pub all_parse : List Bytes → Result PolicyError (Unit {0})
all_parse [] = ok tt
all_parse (p ∷ ps) = do arn ← parse_arn p; all_parse ps

unfoldable pub check_shapes : List Statement → Result PolicyError (Unit {0})
unfolding all_parse
check_shapes [] = ok tt
check_shapes (st ∷ sts) = do
  refuse (not (is_known_effect st.effect)) unknown_effect
  refuse (is_nil st.action) no_actions
  refuse (is_nil st.resource) no_resources
  all_parse st.resource
  check_shapes sts

-- ParseDocument after the decoding of the text.
unfoldable pub check_document : Document → Result PolicyError Document
unfolding check_shapes
check_document doc = do
  refuse (is_nil doc.statement) no_statements
  check_shapes doc.statement
  ok doc

-- The segments of a pattern with the tenant put in.
unfoldable pub with_tenant : Bytes → List Bytes → List Bytes
with_tenant tenant (a ∷ b ∷ c ∷ d ∷ []) =
    if same b self_token then a ∷ tenant ∷ c ∷ d ∷ [] else a ∷ b ∷ c ∷ d ∷ []
with_tenant tenant segments = segments

unfoldable pub resolve_pattern : Bytes → Bytes → Bytes
unfolding with_tenant
resolve_pattern tenant pattern = join colon (with_tenant tenant (split colon pattern))

unfoldable pub resolve_self : Document → Bytes → Document
unfolding resolve_pattern
resolve_self doc tenant = record doc {
  statement =
      map (λ (st : Statement). record st { resource = map (resolve_pattern tenant) st.resource })
        doc.statement;
}
