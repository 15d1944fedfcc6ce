-- ===== src/ApiKeys/Deleted.antt =====
-- The deletion of a policy that keys carry: PolicyRepository.Delete against the foreign keys of
-- db/migrations/0001_baseline.up.sql.
use orbitjob.Prelude.{
  ◌≡◌, refl, String, false, not, ◌&&◌, List, [], ◌∷◌, none, some, arith, inl, inr, All, Bool-cases,
  contains, eq_iff, ◌==◌, Bytes, if◌then◌else◌, subst, sym,
}
use orbitjob.Prelude.Result.{ok}
use orbitjob.ApiKeys.{
  PolicyRow, KeyRow, Tables, Admin, delete_policy, is_owner, is_preset, find_policy, without_policy,
  without_id, unbind, is_boundary, remove_policy,
}
use orbitjob.ApiKeys.Effective.{find_key, bound_rows, policies_of}
use orbitjob.ApiKeys.Rows.{Unique}

-- The rows of other ids.
abbrev pub rows_but : String → List PolicyRow → List PolicyRow
rows_but id [] = []
rows_but id (p ∷ ps) = let rest = rows_but id ps in if p.id == id then rest else p ∷ rest

contains-without_id :
    (id x : String) (xs : List String)
    → contains (without_id id xs) x ≡ (contains xs x && not (x == id))
unfolding without_id
contains-without_id id x [] = refl
contains-without_id id x (y ∷ xs) =
    ground (arith, contains-without_id id x xs, eq_iff y x, eq_iff y id, eq_iff x id)

bound_rows-without :
    (tenant : Bytes) (id : String) (ids : List String) (ps : List PolicyRow)
    → bound_rows tenant (without_id id ids) (without_policy tenant id ps)
      ≡ rows_but id (bound_rows tenant ids ps)
unfolding bound_rows without_policy
bound_rows-without tenant id ids [] = refl
bound_rows-without tenant id ids (p ∷ ps) =
    ground (arith, bound_rows-without tenant id ids ps, contains-without_id id p.id ids)

find_policy-fresh :
    (tenant : Bytes) (id : String) (ps : List PolicyRow)
    → All (λ q. (q.id == id) ≡ false) ps
    → find_policy tenant id (without_policy tenant id ps) ≡ none
unfolding find_policy without_policy
find_policy-fresh tenant id [] h = refl
find_policy-fresh tenant id (p ∷ ps) (h, hs) = ground (arith, h, find_policy-fresh tenant id ps hs)

find_policy-without :
    (tenant : Bytes) (id : String) (p : PolicyRow) (ps : List PolicyRow)
    → Unique ps
    → find_policy tenant id ps ≡ some p
    → is_preset p.owner ≡ false
    → find_policy tenant id (without_policy tenant id ps) ≡ none
unfolding find_policy without_policy
find_policy-without tenant id p [] u f n = refl
find_policy-without tenant id p (q ∷ ps) (fresh, u) f n = elim (Bool-cases (q.id == id)) [
  | inr e ↦ ground (arith, e, find_policy-without tenant id p ps u (ground (arith, f, e)) n)
  | inl e ↦ elim (Bool-cases (is_owner tenant q.owner)) [
    | inl o ↦
        let others : All (λ x. (x.id == id) ≡ false) ps =
          subst (λ (y : String). All (λ x. (x.id == y) ≡ false) ps) ((eq_iff q.id id).0 e) fresh in
        ground (arith, e, o, find_policy-fresh tenant id ps others)
    | inr o ↦ elim (Bool-cases (is_preset q.owner)) [
      | inl s ↦
          let first : q ≡ p = ground (arith, f, e, s) in
          absurd
            (ground (arith, s, subst (λ (x : PolicyRow). is_preset x.owner ≡ false) (sym first) n))
      | inr s ↦
          ground
            (arith, e, o, s, find_policy-without tenant id p ps u (ground (arith, f, e, o, s)) n)
    ]
  ]
]

find_key-unbind :
    (tenant : Bytes) (key id : String) (keys : List KeyRow)
    → policies_of (find_key tenant key (unbind id keys))
      ≡ without_id id (policies_of (find_key tenant key keys))
unfolding find_key unbind without_id
find_key-unbind tenant key id [] = refl
find_key-unbind tenant key id (k ∷ keys) = ground (arith, find_key-unbind tenant key id keys)

-- Deleting a tenant's own policy that is no key's boundary succeeds, also while keys carry it, unless
-- the database fails. The policy is gone, and every key of the tenant keeps the other policies it
-- carries, in their order, and loses this one. (Policies have different ids.)
pub deleted_policy_unbound :
    (a : Admin) (t : Tables) (tenant : Bytes) (id key : String) (p : PolicyRow)
    → Unique t.policies
    → find_policy tenant id t.policies ≡ some p
    → is_preset p.owner ≡ false
    → is_boundary id t.keys ≡ false
    → a.fails (delete_policy tenant id) ≡ false
    → (t' : Tables) × (remove_policy a t tenant id ≡ ok t')
      × (find_policy tenant id t'.policies ≡ none)
      × (bound_rows tenant (policies_of (find_key tenant key t'.keys)) t'.policies
          ≡ rows_but id (bound_rows tenant (policies_of (find_key tenant key t.keys)) t.policies))
unfolding remove_policy
deleted_policy_unbound a t tenant id key p u f n m up = (
  record { policies = without_policy tenant id t.policies; keys = unbind id t.keys },
  rw (up, f, n, m) refl,
  find_policy-without tenant id p t.policies u f n,
  rw (find_key-unbind tenant key id t.keys)
      (bound_rows-without tenant id (policies_of (find_key tenant key t.keys)) t.policies),
)
