-- ===== src/ApiKeys/Issued.antt =====
-- A key from its creation (internal/admin/app/apikey/command/create.go) to its revocation, at the
-- middleware of internal/admin/http/middleware/auth.go.
use orbitjob.Prelude.{
  ℕ, ◌≡◌, refl, String, true, false, List, ◌∷◌, ◌++◌, Option, none, some, arith, same_iff, Bytes,
  codes, same, ltb, length, take, subst, ap, ◌∙◌,
}
use orbitjob.Prelude.Result.{ok}
use orbitjob.Policy.{Document}
use orbitjob.ApiKeys.{kind_tenant, KeyRow, Tables, Admin, auth_keys}
use orbitjob.ApiKeys.Create.{
  CreateInput, boundary_id_of, generate_key, hash_of, key_row, create_key,
}
use orbitjob.ApiKeys.Effective.{effective_documents}
use orbitjob.ApiKeys.Made.{create_key-Created}
use orbitjob.ApiKeys.Access.{
  Principal, admits_tenant, is_public_path, principal_from_row, auth_rows, first_match,
  validate_api_key, resolve_key, entered, enter, revoke,
}
use orbitjob.ApiKeys.Entered.{is_named, revoked_key_barred}

-- The key just filed, by its own text.
resolve_key-first :
    (a : Admin) (t : Tables) (now : ℕ) (k : KeyRow) (text : Bytes)
    → k.prefix ≡ take 12 (codes "otj_" ++ text)
    → ltb (length (codes "otj_" ++ text)) 12 ≡ false
    → k.revoked ≡ false
    → k.expires_at ≡ none
    → admits_tenant a k.tenant ≡ true
    → a.compare_hash k.hash (codes "otj_" ++ text) ≡ true
    → a.fails (auth_keys (take 12 (codes "otj_" ++ text))) ≡ false
    → resolve_key a (record t { keys = k ∷ t.keys }) now (codes "Bearer " ++ (codes "otj_" ++ text))
      ≡ some k
unfolding resolve_key validate_api_key auth_rows first_match same
resolve_key-first a t now k text p l r x y f up =
    let fits : same k.prefix (take 12 (codes "otj_" ++ text)) ≡ true =
      (same_iff k.prefix (take 12 (codes "otj_" ++ text))).1 p in
    ground (arith, fits)

module _ (a : Admin) (t : Tables) (now : ℕ) (k : KeyRow) where
  resolve_key-issued :
      (o : Option Bytes) (key : Bytes)
      → generate_key o ≡ ok key
      → k.prefix ≡ take 12 key
      → ltb (length key) 12 ≡ false
      → k.revoked ≡ false
      → k.expires_at ≡ none
      → admits_tenant a k.tenant ≡ true
      → a.compare_hash k.hash key ≡ true
      → a.fails (auth_keys (take 12 key)) ≡ false
      → resolve_key a (record t { keys = k ∷ t.keys }) now (codes "Bearer " ++ key) ≡ some k
  resolve_key-issued none key e = absurd (ground (arith, e))
  resolve_key-issued (some text) key e =
      let told : codes "otj_" ++ text ≡ key = ground (arith, e) in
      subst
        (λ (x : Bytes).
          k.prefix ≡ take 12 x
          → ltb (length x) 12 ≡ false
          → k.revoked ≡ false
          → k.expires_at ≡ none
          → admits_tenant a k.tenant ≡ true
          → a.compare_hash k.hash x ≡ true
          → a.fails (auth_keys (take 12 x)) ≡ false
          → resolve_key a (record t { keys = k ∷ t.keys }) now (codes "Bearer " ++ x) ≡ some k)
        told (resolve_key-first a t now k text)

hash_made : (o : Option String) (h : String) → hash_of o ≡ ok h → o ≡ some h
hash_made none h e = absurd (ground (arith, e))
hash_made (some x) h e = ground (arith, e)

-- A key that is created enters by the text that its creation told, on a path that
-- is not public and as itself: as a principal of its tenant, with its resource group and its
-- effective documents; and once it is revoked, no text enters as it, at any
-- later time. (bcrypt accepts a text for the hash that it made of it, the tenant is active, the text
-- has the 12 bytes of a prefix, and the database answers.)
pub issued_key_enters_until_revoked :
    (a b : Admin) (t t' t'' : Tables) (i : CreateInput) (key : Bytes) (path : String)
    (header : Bytes) (docs : List Document) (now later : ℕ)
    → ((h : String) (x : Bytes) → a.hash x ≡ some h → b.compare_hash h x ≡ true)
    → create_key a t i ≡ ok (t', key)
    → ltb (length key) 12 ≡ false
    → is_public_path path ≡ false
    → b.is_active i.tenant ≡ true
    → b.fails (auth_keys (take 12 key)) ≡ false
    → effective_documents b t' i.tenant a.fresh_id ≡ ok docs
    → revoke b t' i.tenant a.fresh_id ≡ ok t''
    → ((p : Principal) × (enter b t' now path (codes "Bearer " ++ key) ≡ entered p docs)
        × (p.tenant ≡ i.tenant)
        × (p.kind ≡ kind_tenant)
        × (p.key_id ≡ a.fresh_id)
        × (p.group ≡ i.group))
      × (is_named i.tenant a.fresh_id (resolve_key b t'' later header) ≡ false)
issued_key_enters_until_revoked a b t t' t'' i key path header docs now later law h l private y up e
      r =
    let (c, same_key) = create_key-Created a t i t' key h in
    let row = key_row a i (boundary_id_of i c.requested c.boundary) c.key c.hash in
    let hashed : a.hash key ≡ some c.hash =
      hash_made (a.hash key) c.hash
        (subst (λ (x : Bytes). hash_of (a.hash x) ≡ ok c.hash) same_key c.hashed) in
    let found : resolve_key b t' now (codes "Bearer " ++ key) ≡ some row =
      subst (λ (x : Tables). resolve_key b x now (codes "Bearer " ++ key) ≡ some row) c.filed
        (resolve_key-issued b t now row a.random_text key (c.told ∙ ap ok same_key)
          (rw (same_key, l) refl) l refl refl y (law c.hash key hashed) up) in
    (
      (principal_from_row row, unfold enter in rw (private, found, e) refl, refl, refl, refl, refl),
      revoked_key_barred b b t' t'' i.tenant a.fresh_id later header r,
    )
