-- ===== src/ApiKeys/Grouped.antt =====
-- The resource group of a new key, against that of its maker.
use orbitjob.Prelude.{
  ◌≡◌, ◌⊎◌, eq_iff, refl, String, true, some, arith, inl, inr, Bool-cases, ◌==◌, Bytes, subst,
}
use orbitjob.Prelude.Result.{ok}
use orbitjob.ApiKeys.{KeyRow, Tables, Admin}
use orbitjob.ApiKeys.Create.{CreateInput, check_group, boundary_id_of, key_row, create_key}
use orbitjob.ApiKeys.Effective.{find_key}
use orbitjob.ApiKeys.Made.{create_key-Created, find_key_first}

-- The group that a created row may have.
abbrev pub GroupAllowed : Admin → CreateInput → String → Type 0
GroupAllowed a i group =
    ((a.trim i.caller.group ≡ "") ⊎ (a.trim group ≡ a.trim i.caller.group))
    × ((a.trim group ≡ "") ⊎ (a.has_group i.tenant (a.trim group) ≡ true))

group_kept :
    (a : Admin) (i : CreateInput) {u : Unit {0}} → check_group a i ≡ ok u → GroupAllowed a i i.group
unfolding check_group
group_kept a i h = (
  elim (Bool-cases (a.trim i.caller.group == "")) [
    | inl e ↦ inl ((eq_iff (a.trim i.caller.group) "").0 e)
    | inr e ↦ elim (Bool-cases (a.trim i.group == a.trim i.caller.group)) [
      | inl s ↦ inr ((eq_iff (a.trim i.group) (a.trim i.caller.group)).0 s)
      | inr s ↦ absurd (ground (arith, h, e, s))
    ]
  ],
  elim (Bool-cases (a.trim i.group == "")) [
    | inl e ↦ inl ((eq_iff (a.trim i.group) "").0 e)
    | inr e ↦ elim (Bool-cases (a.has_group i.tenant (a.trim i.group))) [
      | inl s ↦ inr s
      | inr s ↦ absurd (ground (arith, h, e, s))
    ]
  ],
)

module _ (a : Admin) (t t' : Tables) (i : CreateInput) (secret : Bytes) where
  -- The row that is filed for a created key keeps to the group of its maker: where the maker is
  -- scoped to a resource group, the row has that group, and a group that a row has is one of its
  -- tenant.
  pub created_key_keeps_group :
      create_key a t i ≡ ok (t', secret)
      → (k : KeyRow) × (find_key i.tenant a.fresh_id t'.keys ≡ some k) × GroupAllowed a i k.group
  created_key_keeps_group h =
      let c = (create_key-Created a t i t' secret h).0 in
      let row = key_row a i (boundary_id_of i c.requested c.boundary) c.key c.hash in
      (
        row,
        subst (λ (x : Tables). find_key i.tenant a.fresh_id x.keys ≡ some row) c.filed
            (find_key_first i.tenant row t.keys refl),
        group_kept a i c.in_group,
      )
