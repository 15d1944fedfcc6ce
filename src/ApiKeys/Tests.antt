-- ===== src/ApiKeys/Tests.antt =====
-- The theorems on keys and policies at a small tenant: one preset that bounds its maker, one policy
-- of its own, one key.
use orbitjob.Prelude.{
  ◌==◌, ◌≡◌, ◌⊎◌, refl, true, false, [], ◌∷◌, none, some, arith, All, Bytes, codes, same, subst,
  String,
}
use orbitjob.Prelude.Result.{ok}
use orbitjob.Policy.{Arn, allow, Document, Request, parse_arn, arn_matches, evaluate, colon, star}
use orbitjob.Policy.Text.{split, cut, join, lacks}
use orbitjob.Policy.Grants.{intersect, check_grantable, propagate_boundary}
use orbitjob.Policy.Known.{
  is_known_action, check_document, validate_tenant_document, with_tenant, resolve_pattern,
  resolve_self,
}
use orbitjob.Policy.Probes.{unprobed}
use orbitjob.Policy.Delegation.{on}
use orbitjob.ApiKeys.{
  PolicyRow, KeyRow, Tables, Admin, find_policy, resolved_document, load_policy, name_taken,
  create_policy, is_boundary, remove_policy,
}
use orbitjob.ApiKeys.Create.{
  Caller, CreateInput, check_group, resolve_policies, load_boundary, key_row, clashes, create_key,
}
use orbitjob.ApiKeys.Effective.{
  find_key, bound_rows, resolved_documents, policies_of, effective_documents, require, forbidden,
  tenant_resource, api_key_resource,
}
use orbitjob.ApiKeys.Rows.{Unique}
use orbitjob.ApiKeys.Delegated.{Plain, created_key_within_caller}
use orbitjob.ApiKeys.Grouped.{GroupAllowed, created_key_keeps_group}
use orbitjob.ApiKeys.Bounded.{created_key_stays_bounded}
use orbitjob.ApiKeys.Stored.{Reached, seeded, policy_created, key_created}
use orbitjob.ApiKeys.Isolation.{Owned, tenant_policies_stay_home}
use orbitjob.ApiKeys.Deleted.{rows_but, deleted_policy_unbound}

abbrev pub acme : Bytes
acme = codes "acme"

abbrev reads : Document
reads = record {
  version = "1";
  statement = on allow "job:Get" (codes "orbitjob:self:*:job/*") ∷ [];
}

abbrev pub acme_reads : Document
acme_reads = record {
  version = "1";
  statement = on allow "job:Get" (codes "orbitjob:acme:*:job/*") ∷ [];
}

abbrev ceiling_row : PolicyRow
ceiling_row = record { id = "p2"; owner = none; name = "ceiling"; document = reads }

abbrev reads_row : PolicyRow
reads_row = record { id = "p1"; owner = some acme; name = "reads"; document = reads }

abbrev pub admin : String → Admin
admin id = record {
  fails = λ q. false;
  has_group = λ tenant group. true;
  trim = λ text. text;
  fresh_id = id;
  random_text = some (codes "Zm9vYmFyYmF6");
  hash = λ key. some "hash";
  compare_hash = λ hash key. hash == "hash";
  is_active = λ tenant. true;
}

abbrev seed : Tables
seed = record { policies = ceiling_row ∷ []; keys = [] }

abbrev pub with_policy : Tables
with_policy = record { policies = reads_row ∷ ceiling_row ∷ []; keys = [] }

abbrev maker : Caller
maker = record {
  tenant = acme;
  key_id = "k0";
  group = "";
  documents = acme_reads ∷ [];
  boundary_id = "p2";
}

abbrev pub wanted : CreateInput
wanted = record {
  tenant = acme;
  group = "";
  policy_ids = "p1" ∷ [];
  boundary_id = "";
  caller = maker;
}

abbrev pub new_key : Bytes
new_key = codes "otj_Zm9vYmFyYmF6"

abbrev pub with_key : Tables
with_key = record with_policy { keys = key_row (admin "k1") wanted "p2" new_key "hash" ∷ [] }

abbrev read_one : Request
read_one = record {
  action = "job:Get";
  resource = record { tenant = acme; group = codes "g"; type = codes "job"; id = codes "j1" };
}

resolved_row : (p : PolicyRow) → p.document ≡ reads → resolved_document acme p ≡ ok acme_reads
unfolding resolved_document check_document resolve_self resolve_pattern with_tenant parse_arn split
    cut join same
resolved_row p e = rw e refl

acme_unprobed : unprobed acme_reads.statement ≡ true
unfolding parse_arn split cut same
acme_unprobed = refl

plain_row :
    (p : PolicyRow)
    → p.document ≡ reads
    → (d : Document) → resolved_document acme p ≡ ok d
    → unprobed d.statement ≡ true
plain_row p e d h =
    let same_doc : acme_reads ≡ d = ground (arith, h, resolved_row p e) in
    subst (λ (x : Document). unprobed x.statement ≡ true) same_doc acme_unprobed

plain : Plain acme with_policy.policies
plain = (plain_row reads_row refl, (plain_row ceiling_row refl, tt))

unique : Unique with_policy.policies
unique = ((refl, tt), (tt, tt))

policy_made : create_policy (admin "p1") seed acme "reads" reads ≡ ok with_policy
unfolding create_policy check_document validate_tenant_document name_taken parse_arn split cut same
    is_known_action
policy_made = refl

loaded :
    (t : Tables)
    → t.policies ≡ with_policy.policies
    → load_policy (admin "k1") t acme "p2" ≡ ok acme_reads
unfolding load_policy resolved_document check_document resolve_self resolve_pattern with_tenant
    parse_arn split cut join same find_policy
loaded t e = rw e refl

pub made : create_key (admin "k1") with_policy wanted ≡ ok (with_key, new_key)
unfolding create_key clashes check_group resolve_policies load_boundary check_grantable
    propagate_boundary load_policy resolved_document check_document resolve_self resolve_pattern
    with_tenant parse_arn split cut join same find_policy evaluate arn_matches
made = refl

pub key_documents :
    effective_documents (admin "k1") with_key acme "k1"
    ≡ ok (intersect (acme_reads ∷ []) acme_reads)
unfolding effective_documents find_key bound_rows resolved_documents load_policy resolved_document
    check_document resolve_self resolve_pattern with_tenant parse_arn split cut join same
    find_policy
key_documents = refl

key_reads : evaluate (intersect (acme_reads ∷ []) acme_reads) read_one ≡ true
unfolding evaluate intersect parse_arn split cut arn_matches same
key_reads = refl

created_key_keeps_group_example :
    (k : KeyRow) × (find_key acme "k1" with_key.keys ≡ some k)
    × GroupAllowed (admin "k1") wanted k.group
created_key_keeps_group_example =
    created_key_keeps_group (admin "k1") with_policy with_key wanted new_key made

created_key_within_caller_example : evaluate (acme_reads ∷ []) read_one ≡ true
created_key_within_caller_example =
    created_key_within_caller (admin "k1") (admin "k1") with_policy with_key wanted new_key
      (intersect (acme_reads ∷ []) acme_reads) read_one unique plain refl acme_unprobed made
      key_documents key_reads

created_key_stays_bounded_example : evaluate (acme_reads ∷ []) read_one ≡ true
created_key_stays_bounded_example =
    created_key_stays_bounded (admin "k1") (admin "k1") with_policy with_key wanted new_key
      (intersect (acme_reads ∷ []) acme_reads) read_one acme_reads unique plain refl refl
      (loaded with_policy refl) refl acme_unprobed made key_documents key_reads

with_key-Reached : Reached with_key
with_key-Reached =
    key_created (admin "k1") wanted new_key
      (policy_created (admin "p1") acme "reads" reads (seeded (refl, tt) (tt, tt)) policy_made) made

key_rows-Owned :
    All Owned (bound_rows acme (policies_of (find_key acme "k1" with_key.keys)) with_key.policies)
unfolding bound_rows find_key same
key_rows-Owned = (refl, tt)

acme_plain : lacks colon acme ≡ true
acme_plain = refl

acme_concrete : same acme star ≡ false
unfolding same
acme_concrete = refl

abbrev globex : Bytes
globex = codes "globex"

abbrev their_job : Arn
their_job = record { tenant = globex; group = star; type = codes "job"; id = codes "j1" }

tenant_policies_stay_home_example :
    ((require "job:Get" (some (intersect (acme_reads ∷ []) acme_reads)) (some their_job)
        ≡ forbidden)
      ⊎ (globex ≡ acme))
    × ((require "job:Get"
            (some (intersect (acme_reads ∷ []) acme_reads))
            (some (tenant_resource globex))
          ≡ forbidden)
        ⊎ (globex ≡ acme))
    × ((require "job:Get"
            (some (intersect (acme_reads ∷ []) acme_reads))
            (some (api_key_resource globex []))
          ≡ forbidden)
        ⊎ (globex ≡ acme))
tenant_policies_stay_home_example =
    tenant_policies_stay_home (admin "k1") with_key acme "k1" "job:Get"
      (intersect (acme_reads ∷ []) acme_reads) with_key-Reached plain acme_plain acme_concrete
      key_rows-Owned key_documents their_job globex []

reads_found : find_policy acme "p1" with_key.policies ≡ some reads_row
unfolding find_policy same
reads_found = refl

not_boundary : is_boundary "p1" with_key.keys ≡ false
unfolding is_boundary
not_boundary = refl

deleted_policy_unbound_example :
    (t' : Tables) × (remove_policy (admin "k1") with_key acme "p1" ≡ ok t')
    × (find_policy acme "p1" t'.policies ≡ none)
    × (bound_rows acme (policies_of (find_key acme "k1" t'.keys)) t'.policies
        ≡ rows_but "p1"
            (bound_rows acme (policies_of (find_key acme "k1" with_key.keys)) with_key.policies))
deleted_policy_unbound_example =
    deleted_policy_unbound (admin "k1") with_key acme "p1" "k1" reads_row unique reads_found refl
      not_boundary refl
