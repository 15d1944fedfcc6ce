-- ===== src/ApiKeys/Entered.antt =====
-- Which keys enter: the middleware of internal/admin/http/middleware/auth.go over keys that are
-- created and revoked.
use orbitjob.Prelude.{
  ℕ, ◌≡◌, ◌⊎◌, refl, String, Bool, true, false, not, ◌&&◌, ◌||◌, List, [], ◌∷◌, Option, none, some,
  arith, inl, inr, Among, Bool-cases, any, ◌==◌, Bytes, codes, same, ltb, length, take, drop,
  if◌then◌else◌, subst, sym,
}
use orbitjob.Prelude.Result.{ok, err, refuse, >>=-eq-ok}
use orbitjob.Policy.{Document}
use orbitjob.ApiKeys.{KeyRow, Tables, Admin, K, auth_keys, revoking, key_not_found, reach, is_owner}
use orbitjob.ApiKeys.Effective.{effective_documents}
use orbitjob.ApiKeys.Access.{
  Principal, tenant_or_empty, admits_tenant, is_public_path, principal_from_row, starts_with,
  is_expired, auth_rows, first_match, validate_api_key, resolve_key, entered, with_documents,
  entry_of, enter, is_live, revoke_each, revoke,
}

-- The row of a key that may enter with a text.
pub record Valid (a : Admin) (now : ℕ) (key : Bytes) (k : KeyRow) : Type 0 where
  pub unrevoked : k.revoked ≡ false
  pub current : is_expired now k.expires_at ≡ false
  pub fits : a.compare_hash k.hash key ≡ true

Among-auth_rows :
    (a : Admin) (prefix : Bytes) (ks : List KeyRow) (k : KeyRow)
    → Among k (auth_rows a prefix ks)
    → Among k ks × (admits_tenant a k.tenant ≡ true)
unfolding auth_rows
Among-auth_rows a prefix [] k i = absurd i
Among-auth_rows a prefix (x ∷ ks) k i =
    split (same x.prefix prefix && (not x.revoked && admits_tenant a x.tenant)) refl i
      (Among-auth_rows a prefix ks k)
  where
    split :
        (b : Bool)
        → (same x.prefix prefix && (not x.revoked && admits_tenant a x.tenant)) ≡ b
        → Among k (if b then x ∷ auth_rows a prefix ks else auth_rows a prefix ks)
        → (Among k (auth_rows a prefix ks) → Among k ks × (admits_tenant a k.tenant ≡ true))
        → Among k (x ∷ ks) × (admits_tenant a k.tenant ≡ true)
    split false e i f = let (j, y) = f i in (inr j, y)
    split true e (inl m) f = (inl m, rw m (ground (arith, e)))
    split true e (inr i) f = let (j, y) = f i in (inr j, y)

admitted :
    (a : Admin) (o : Option Bytes)
    → admits_tenant a o ≡ true
    → (o ≡ none) ⊎ ((tenant : Bytes) × (o ≡ some tenant) × (a.is_active tenant ≡ true))
admitted a none e = inl refl
admitted a (some tenant) e = inr (tenant, refl, e)

first_match-Valid :
    (a : Admin) (now : ℕ) (key : Bytes) (ks : List KeyRow) (k : KeyRow)
    → first_match a now key ks ≡ some k
    → Among k ks × Valid a now key k
unfolding first_match
first_match-Valid a now key [] k h = absurd (ground (arith, h))
first_match-Valid a now key (x ∷ ks) k h =
    elim (Bool-cases (x.revoked || is_expired now x.expires_at)) [
      | inl e ↦ let (i, v) = first_match-Valid a now key ks k (ground (arith, h, e)) in (inr i, v)
      | inr e ↦ elim (Bool-cases (a.compare_hash x.hash key)) [
        | inr n ↦
            let (i, v) = first_match-Valid a now key ks k (ground (arith, h, e, n)) in (inr i, v)
        | inl y ↦
            let first : x ≡ k = ground (arith, h, e, y) in
            (
              inl (sym first),
              subst (Valid a now key) first
                  (record { unrevoked = ground (arith, e); current = ground (arith, e); fits = y }),
            )
      ]
    ]

-- What passes two refusals and a failure.
past :
    (bearer short failed : Bool) (o : Option KeyRow) {k : KeyRow}
    → (if bearer then (if short then none else if failed then none else o) else none) ≡ some k
    → o ≡ some k
past false short failed o h = absurd (ground (arith, h))
past true true failed o h = absurd (ground (arith, h))
past true false true o h = absurd (ground (arith, h))
past true false false o h = h

resolve_key-Valid :
    (a : Admin) (t : Tables) (now : ℕ) (header : Bytes) (k : KeyRow)
    → resolve_key a t now header ≡ some k
    → Among k t.keys × Valid a now (drop 7 header) k × (admits_tenant a k.tenant ≡ true)
unfolding resolve_key validate_api_key
resolve_key-Valid a t now header k h =
    let key = drop 7 header in
    let rows = auth_rows a (take 12 key) t.keys in
    let found : first_match a now key rows ≡ some k =
      past (starts_with (codes "Bearer ") header)
        (not (starts_with (codes "otj_") key) || ltb (length key) 12)
        (a.fails (auth_keys (take 12 key))) (first_match a now key rows) h in
    let (i, v) = first_match-Valid a now key rows k found in
    let (j, y) = Among-auth_rows a (take 12 key) t.keys k i in (j, v, y)

with_documents-entered :
    (q p : Principal) (m : K (List Document)) (docs : List Document)
    → with_documents q m ≡ entered p docs
    → (q ≡ p) × (m ≡ ok docs)
with_documents-entered q p (err e) docs h = absurd (ground (arith, h))
with_documents-entered q p (ok ds) docs h =
    (ground (arith, h), let same_docs : ds ≡ docs = ground (arith, h) in rw same_docs refl)

entry_of-entered :
    (a : Admin) (t : Tables) (o : Option KeyRow) (p : Principal) (docs : List Document)
    → entry_of a t o ≡ entered p docs
    → (k : KeyRow) × (o ≡ some k)
      × (principal_from_row k ≡ p)
      × (effective_documents a t (tenant_or_empty k.tenant) k.id ≡ ok docs)
entry_of-entered a t none p docs h = absurd (ground (arith, h))
entry_of-entered a t (some k) p docs h =
    let (q, r) =
      with_documents-entered (principal_from_row k) p
        (effective_documents a t (tenant_or_empty k.tenant) k.id) docs h in
    (k, refl, q, r)

-- A request that enters as a principal does so on a path that is not public and by a key of the
-- tables: one that is not revoked, has not expired, and is of the platform or of an active tenant,
-- whose hash fits the text in the request's header. It acts as that key, with the key's kind and the
-- effective documents of the key; a key of the platform has the empty tenant.
pub entered_by_live_key :
    (a : Admin) (t : Tables) (now : ℕ) (path : String) (header : Bytes) (p : Principal)
    (docs : List Document)
    → enter a t now path header ≡ entered p docs
    → (is_public_path path ≡ false)
      × ((k : KeyRow) × Among k t.keys
          × (principal_from_row k ≡ p)
          × Valid a now (drop 7 header) k
          × ((k.tenant ≡ none)
              ⊎ ((tenant : Bytes) × (k.tenant ≡ some tenant) × (a.is_active tenant ≡ true)))
          × (effective_documents a t (tenant_or_empty k.tenant) k.id ≡ ok docs))
unfolding enter
entered_by_live_key a t now path header p docs h = elim (Bool-cases (is_public_path path)) [
  | inl e ↦ absurd (ground (arith, h, e))
  | inr e ↦
      let (k, found, acts, read) =
        entry_of-entered a t (resolve_key a t now header) p docs (rw (← h, e) refl) in
      let (i, v, y) = resolve_key-Valid a t now header k found in
      (e, (k, i, acts, v, admitted a k.tenant y, read))
]

revoke_each-barred :
    (tenant : Bytes) (id : String) (ks : List KeyRow) (k : KeyRow)
    → Among k (revoke_each tenant id ks)
    → is_live tenant id k ≡ false
unfolding revoke_each
revoke_each-barred tenant id [] k i = absurd i
revoke_each-barred tenant id (x ∷ ks) k i =
    split (is_live tenant id x) refl i (revoke_each-barred tenant id ks k)
  where
    split :
        (b : Bool)
        → is_live tenant id x ≡ b
        → Among k (
            if b
            then record x { revoked = true } ∷ revoke_each tenant id ks
            else x ∷ revoke_each tenant id ks)
        → (Among k (revoke_each tenant id ks) → is_live tenant id k ≡ false)
        → is_live tenant id k ≡ false
    split true e (inl m) f = rw m (ground arith)
    split false e (inl m) f = rw m e
    split true e (inr i) f = f i
    split false e (inr i) f = f i

abbrev pub is_named : Bytes → String → Option KeyRow → Bool
is_named tenant id none = false
is_named tenant id (some k) = k.id == id && is_owner tenant k.tenant

pub revoked_key_barred :
    (a b : Admin) (t t' : Tables) (tenant : Bytes) (id : String) (now : ℕ) (header : Bytes)
    → revoke a t tenant id ≡ ok t'
    → is_named tenant id (resolve_key b t' now header) ≡ false
unfolding revoke
revoked_key_barred a b t t' tenant id now header h =
    let (u, up, h) = >>=-eq-ok (reach a (revoking tenant id)) _ h in
    let (v, live, h) =
      >>=-eq-ok (refuse (not (any (is_live tenant id) t.keys)) (key_not_found id)) _ h in
    let keys : revoke_each tenant id t.keys ≡ t'.keys = ground (arith, h) in
    barred (resolve_key b t' now header) refl keys
  where
    barred :
        (o : Option KeyRow)
        → resolve_key b t' now header ≡ o
        → revoke_each tenant id t.keys ≡ t'.keys
        → is_named tenant id o ≡ false
    barred none e keys = refl
    barred (some k) e keys =
        let (i, v, y) = resolve_key-Valid b t' now header k e in
        let off : is_live tenant id k ≡ false = revoke_each-barred tenant id t.keys k (rw keys i) in
        ground (arith, off, v.unrevoked)
