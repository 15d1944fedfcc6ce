-- ===== src/ApiKeys.antt =====
-- The keys of the admin API and the policies bound to them: the tables policies, api_keys and
-- key_policies (db/migrations/0001_baseline.up.sql) with the queries of
-- internal/admin/store/postgres/policy_repository.go and apikey_repository.go, and the commands of
-- internal/admin/app/policy/command. A table is a list of rows, a query is the function that its
-- conditions state, in the order of the table, on which no decision depends, and a database call may
-- fail. A command is one transaction that ends in its write: where it fails, the tables stay as they
-- were. The bindings of a key are a list in its row. The rows of the audit trail and the decoding of
-- a document's JSON text are not modelled.
pub mod Create
pub mod Effective
pub mod Rows
pub mod Made
pub mod Delegated
pub mod Grouped
pub mod Bounded
pub mod Stored
pub mod Isolation
pub mod Deleted
pub mod Access
pub mod Entered
pub mod Issued
pub mod Tests
pub mod EntryTests
use orbitjob.Prelude.{
  ℕ, String, Bool, true, false, not, ◌&&◌, ◌||◌, List, [], ◌∷◌, ◌++◌, Option, none, some, ◌==◌,
  Bytes, same, contains, any, if◌then◌else◌,
}
use orbitjob.Prelude.Result.{Result, ok, err, ◌>>=◌, ◌>>◌, refuse}
use orbitjob.Policy.{PolicyError, Document}
use orbitjob.Policy.Known.{check_document, validate_tenant_document, resolve_self}

-- A preset has no owner.
pub record PolicyRow : Type 0 where
  pub id : String
  pub owner : Option Bytes
  pub name : String
  pub document : Document

pub data KeyKind : Type 0 where
  kind_tenant kind_platform : KeyKind

-- A key of the platform has no tenant. The empty text stands for no group and for no boundary;
-- `policies` are the rows of key_policies. A table has the newest key first.
pub record KeyRow : Type 0 where
  pub id : String
  pub tenant : Option Bytes
  pub kind : KeyKind
  pub group : String
  pub boundary_id : String
  pub policies : List String
  pub hash : String
  pub prefix : Bytes
  pub bound_by : Bytes
  pub revoked : Bool
  pub expires_at : Option ℕ

pub record Tables : Type 0 where
  pub policies : List PolicyRow
  pub keys : List KeyRow

pub data Query : Type 0 where
  get_policy insert_policy delete_policy : (tenant : Bytes) (id : String) → Query
  group_exists : (tenant : Bytes) (group : String) → Query
  insert_key bound_policies key_boundary revoking : (tenant : Bytes) (id : String) → Query
  key_tenant : (id : String) → Query
  auth_keys : (prefix : Bytes) → Query

pub data KeyError : Type 0 where
  unavailable : Query → KeyError
  policy_not_found policy_name_taken policy_in_use policy_immutable : String → KeyError
  unparsable : String → PolicyError → KeyError
  bad_document policy_refused : PolicyError → KeyError
  outside_group foreign_group : String → KeyError
  key_clashes key_not_found tenant_unread : String → KeyError
  no_secret no_hash : KeyError

-- What the commands take from outside: the database's failures, the groups of a tenant and whether
-- it is active, the trimming of white space, a fresh id, the text of fresh random bytes, and bcrypt's
-- hash of a key with its comparison.
pub record Admin : Type 0 where
  pub fails : Query → Bool
  pub has_group : Bytes → String → Bool
  pub trim : String → String
  pub fresh_id : String
  pub random_text : Option Bytes
  pub hash : Bytes → Option String
  pub compare_hash : String → Bytes → Bool
  pub is_active : Bytes → Bool

abbrev pub K : Type 0 → Type 0
K A = Result KeyError A

abbrev pub reach : Admin → Query → K (Unit {0})
reach a q = refuse (a.fails q) (unavailable q)

abbrev pub wrap {ℓ} :
    {A : Type ℓ} → (PolicyError → KeyError) → Result PolicyError A → Result KeyError A
wrap f (ok a) = ok a
wrap f (err e) = err (f e)

abbrev pub is_owner : Bytes → Option Bytes → Bool
is_owner tenant none = false
is_owner tenant (some owner) = same owner tenant

abbrev pub is_preset : Option Bytes → Bool
is_preset none = true
is_preset (some _) = false

-- tenant_id = $2 OR tenant_id IS NULL
abbrev pub visible : Bytes → PolicyRow → Bool
visible tenant p = is_owner tenant p.owner || is_preset p.owner

unfoldable pub find_policy : Bytes → String → List PolicyRow → Option PolicyRow
find_policy tenant id [] = none
find_policy tenant id (p ∷ ps) =
    if p.id == id && visible tenant p then some p else find_policy tenant id ps

-- ParseDocument and ResolveSelf of a row's document.
unfoldable pub resolved_document : Bytes → PolicyRow → K Document
unfolding check_document resolve_self
resolved_document tenant p = do
  doc ← wrap (unparsable p.id) (check_document p.document)
  ok (resolve_self doc tenant)

abbrev pub document_of : Bytes → String → Option PolicyRow → K Document
document_of tenant id none = err (policy_not_found id)
document_of tenant id (some p) = resolved_document tenant p

-- PolicyRepository.Get, of which only the document is read here.
unfoldable pub load_policy : Admin → Tables → Bytes → String → K Document
unfolding find_policy resolved_document
load_policy a t tenant id = do
  reach a (get_policy tenant id)
  document_of tenant id (find_policy tenant id t.policies)

-- The primary key, and the unique name within a tenant.
unfoldable pub name_taken : Bytes → String → String → List PolicyRow → Bool
name_taken tenant id name [] = false
name_taken tenant id name (p ∷ ps) =
    (p.id == id || (is_owner tenant p.owner && p.name == name)) || name_taken tenant id name ps

unfoldable pub create_policy : Admin → Tables → Bytes → String → Document → K Tables
unfolding check_document validate_tenant_document name_taken
create_policy a t tenant name document = do
  doc ← wrap bad_document (check_document document)
  wrap bad_document (validate_tenant_document doc)
  reach a (insert_policy tenant a.fresh_id)
  refuse (name_taken tenant a.fresh_id name t.policies) (policy_name_taken name)
  ok (record t {
    policies =
        (record { id = a.fresh_id; owner = some tenant; name = name; document = document })
        ∷ t.policies;
  })

unfoldable pub without_policy : Bytes → String → List PolicyRow → List PolicyRow
without_policy tenant id [] = []
without_policy tenant id (p ∷ ps) =
    let rest = without_policy tenant id ps in
    if p.id == id && is_owner tenant p.owner then rest else p ∷ rest

unfoldable pub without_id : String → List String → List String
without_id id [] = []
without_id id (x ∷ xs) = let rest = without_id id xs in if x == id then rest else x ∷ rest

-- ON DELETE CASCADE of key_policies
unfoldable pub unbind : String → List KeyRow → List KeyRow
unfolding without_id
unbind id [] = []
unbind id (k ∷ ks) = (record k { policies = without_id id k.policies }) ∷ unbind id ks

-- The foreign key boundary_policy_id of api_keys
unfoldable pub is_boundary : String → List KeyRow → Bool
is_boundary id keys = any (λ k. k.boundary_id == id) keys

abbrev pub delete_found : Tables → Bytes → String → Option PolicyRow → K Tables
delete_found t tenant id none = err (policy_not_found id)
delete_found t tenant id (some p) =
    if is_preset p.owner
    then err (policy_immutable id)
    else if is_boundary id t.keys
    then err (policy_in_use id)
    else ok (record { policies = without_policy tenant id t.policies; keys = unbind id t.keys })

unfoldable pub remove_policy : Admin → Tables → Bytes → String → K Tables
unfolding find_policy is_boundary without_policy unbind
remove_policy a t tenant id = do
  reach a (delete_policy tenant id)
  delete_found t tenant id (find_policy tenant id t.policies)
