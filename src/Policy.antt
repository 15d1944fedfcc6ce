-- ===== src/Policy.antt =====
-- internal/core/domain/policy: documents, resource names and the decision (arn.go, document.go,
-- evaluate.go). A resource name is the list of its bytes, which the code cuts and joins; an action
-- is a text, which it only compares.
pub mod Text
pub mod Known
pub mod Grants
pub mod RoundTrip
pub mod Parsed
pub mod Decision
pub mod Probes
pub mod Boundary
pub mod Delegation
pub mod Storing
pub mod Homed
pub mod Tests
use orbitjob.Prelude.{
  ℕ, String, Bool, true, false, not, ◌&&◌, ◌||◌, List, [], ◌∷◌, ◌++◌, Option, none, some, ◌==◌,
  Bytes, codes, same, contains, if◌then◌else◌,
}
use orbitjob.Prelude.Result.{Result, ok, err, is_ok}
use Text.{split, cut}

pub record Arn : Type 0 where
  pub tenant : Bytes
  pub group : Bytes
  pub type : Bytes
  pub id : Bytes

pub data PolicyError : Type 0 where
  malformed_arn : PolicyError
  no_statements unknown_effect no_actions no_resources : PolicyError
  reserved_action unknown_action foreign_tenant privilege_escalation : PolicyError

abbrev pub star : Bytes
star = codes "*"

abbrev pub scheme : Bytes
scheme = codes "orbitjob"

abbrev pub colon : ℕ
colon = b':'

abbrev pub slash : ℕ
slash = b'/'

abbrev pub is_empty : Bytes → Bool
is_empty [] = true
is_empty _ = false

-- The last segment, cut at its first slash.
parse_tail : Bytes → Bytes → Option (Bytes × Bytes) → Result PolicyError Arn
parse_tail tenant group none = err malformed_arn
parse_tail tenant group (some (type, id)) =
    if is_empty type || is_empty id
    then err malformed_arn
    else ok (record { tenant = tenant; group = group; type = type; id = id })

parse_parts : List Bytes → Result PolicyError Arn
unfolding parse_tail
parse_parts (head ∷ tenant ∷ group ∷ tail ∷ []) =
    if same head scheme then parse_tail tenant group (cut slash tail) else err malformed_arn
parse_parts _ = err malformed_arn

unfoldable pub parse_arn : Bytes → Result PolicyError Arn
unfolding parse_parts
parse_arn s = parse_parts (split colon s)

unfoldable pub render : Arn → Bytes
render a =
    scheme ++ (colon ∷ (a.tenant ++ (colon ∷ (a.group ++ (colon ∷ (a.type ++ (slash ∷ a.id)))))))

unfoldable pub segment_matches : Bytes → Bytes → Bool
segment_matches pattern value = same pattern star || same pattern value

unfoldable pub group_matches : Bytes → Bytes → Bool
group_matches pattern value = is_empty pattern || (same pattern star || same pattern value)

unfoldable pub arn_matches : Arn → Arn → Bool
unfolding segment_matches group_matches
arn_matches pattern target =
    segment_matches pattern.tenant target.tenant
    && (group_matches pattern.group target.group
        && (segment_matches pattern.type target.type && segment_matches pattern.id target.id))

pub data Effect : Type 0 where
  allow deny : Effect
  other_effect : String → Effect

pub record Statement : Type 0 where
  pub effect : Effect
  pub action : List String
  pub resource : List Bytes

pub record Document : Type 0 where
  pub version : String
  pub statement : List Statement

pub record Request : Type 0 where
  pub action : String
  pub resource : Arn

abbrev pub wildcard_action : String
wildcard_action = "*"

pattern_matches : Result PolicyError Arn → Arn → Bool
pattern_matches (err e) target = false
pattern_matches (ok arn) target = arn_matches arn target

-- The loop over the resource patterns; a pattern that does not parse is passed over.
unfoldable pub any_resource : List Bytes → Arn → Bool
unfolding pattern_matches
any_resource [] target = false
any_resource (p ∷ ps) target =
    if pattern_matches (parse_arn p) target then true else any_resource ps target

unfoldable pub matches : Statement → Request → Bool
unfolding any_resource
matches st req =
    if not (contains st.action req.action) && not (contains st.action wildcard_action)
    then false
    else any_resource st.resource req.resource

abbrev pub is_deny : Effect → Bool
is_deny deny = true
is_deny _ = false

abbrev pub is_allow : Effect → Bool
is_allow allow = true
is_allow _ = false

-- The two loops of Evaluate with `allowed`; `none` is the early return of a denial.
unfoldable pub scan_statements : List Statement → Request → Bool → Option Bool
unfolding matches
scan_statements [] req allowed = some allowed
scan_statements (st ∷ sts) req allowed = elim (matches st req) [
  | false ↦ scan_statements sts req allowed
  | true ↦ elim (is_deny st.effect) [ true ↦ none | false ↦ scan_statements sts req true ]
]

unfoldable pub scan_documents : List Document → Request → Bool → Option Bool
unfolding scan_statements
scan_documents [] req allowed = some allowed
scan_documents (d ∷ ds) req allowed = elim (scan_statements d.statement req allowed) [
  | none ↦ none
  | some a ↦ scan_documents ds req a
]

abbrev answer : Option Bool → Bool
answer (some true) = true
answer _ = false

-- `true` is Allow.
unfoldable pub evaluate : List Document → Request → Bool
unfolding scan_documents
evaluate docs req = answer (scan_documents docs req false)
