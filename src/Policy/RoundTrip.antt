-- ===== src/Policy/RoundTrip.antt =====
-- Resource names: ParseARN and ARN.String (internal/core/domain/policy/arn.go).
use orbitjob.Prelude.{
  ℕ, ◌≡◌, refl, sym, ◌∙◌, inl, inr, true, false, List, [], ◌∷◌, ◌++◌, Option, none, some, arith,
  Bytes, same, same_iff, Bool-cases,
}
use orbitjob.Prelude.Result.{ok}
use orbitjob.Policy.{
  Arn, scheme, colon, slash, is_empty, parse_tail, parse_parts, parse_arn, render,
}
use orbitjob.Policy.Text.{
  split, cut, join, lacks, join-split, split-part, split-append, cut-append, append-cut,
}

-- A name that the four segments can be told apart in.
pub record Renderable (a : Arn) : Type 0 where
  pub tenant_plain : lacks colon a.tenant ≡ true
  pub group_plain : lacks colon a.group ≡ true
  pub type_plain : lacks colon a.type ≡ true
  pub type_whole : lacks slash a.type ≡ true
  pub id_plain : lacks colon a.id ≡ true
  pub type_filled : is_empty a.type ≡ false
  pub id_filled : is_empty a.id ≡ false

lacks-append :
    (sep : ℕ) (p q : Bytes) → lacks sep p ≡ true → lacks sep q ≡ true → lacks sep (p ++ q) ≡ true
lacks-append sep [] q h k = k
lacks-append sep (c ∷ p) q h k = ground (arith, lacks-append sep p q)

pub split-render :
    (a : Arn)
    → Renderable a
    → split colon (render a) ≡ scheme ∷ a.tenant ∷ a.group ∷ (a.type ++ (slash ∷ a.id)) ∷ []
unfolding render
split-render a r = rw (
  split-append colon scheme _ refl,
  split-append colon a.tenant _ r.tenant_plain,
  split-append colon a.group _ r.group_plain,
  split-part colon (a.type ++ (slash ∷ a.id))
      (lacks-append colon a.type (slash ∷ a.id) r.type_plain (ground (arith, r.id_plain))),
)

parse_of_parts :
    (a : Arn)
    → Renderable a
    → parse_parts (scheme ∷ a.tenant ∷ a.group ∷ (a.type ++ (slash ∷ a.id)) ∷ []) ≡ ok a
unfolding parse_parts
parse_of_parts a r =
    ground (arith, cut-append slash a.type a.id r.type_whole, same_iff scheme scheme)

tail_of_parse :
    (tenant group tail : Bytes) (o : Option (Bytes × Bytes)) (a : Arn)
    → cut slash tail ≡ o
    → parse_tail tenant group o ≡ ok a
    → (tenant ≡ a.tenant) × (group ≡ a.group) × (tail ≡ a.type ++ (slash ∷ a.id))
unfolding parse_tail
tail_of_parse tenant group tail none a e h = cc
tail_of_parse tenant group tail (some (type, id)) a e h =
    let cut_at = append-cut slash tail type id e in
    (ground arith, ground arith, ground (arith, cut_at))

parts_of_parse : (ps : List Bytes) (a : Arn) → parse_parts ps ≡ ok a → join colon ps ≡ render a
unfolding parse_parts join render
parts_of_parse (head ∷ tenant ∷ group ∷ tail ∷ []) a h = elim (Bool-cases (same head scheme)) [
  | inl e ↦
      let t = tail_of_parse tenant group tail (cut slash tail) a refl (ground arith) in
      rw ((same_iff head scheme).0 e, t.0, t.1, t.2) refl
  | inr e ↦ ground arith
]
parts_of_parse [] a h = cc
parts_of_parse (p ∷ []) a h = cc
parts_of_parse (p ∷ q ∷ []) a h = cc
parts_of_parse (p ∷ q ∷ r ∷ []) a h = cc
parts_of_parse (p ∷ q ∷ r ∷ s ∷ t ∷ ps) a h = cc

-- Parsing a printed name gives the name back, if its segments can be told apart: no segment holds
-- a colon, the type holds no slash, and neither the type nor the id is empty.
pub parse_arn-render : (a : Arn) → Renderable a → parse_arn (render a) ≡ ok a
unfolding parse_arn
parse_arn-render a r = rw (split-render a r) (parse_of_parts a r)

-- A text that parses is the printed form of the name that it parses to, so no two texts parse to
-- one name.
pub render-parse_arn : (s : Bytes) (a : Arn) → parse_arn s ≡ ok a → render a ≡ s
unfolding parse_arn
render-parse_arn s a h = sym (parts_of_parse (split colon s) a h) ∙ join-split colon s
