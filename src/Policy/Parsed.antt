-- ===== src/Policy/Parsed.antt =====
-- Resource names that ParseARN yields (internal/core/domain/policy/arn.go): their segments can be
-- told apart again.
use orbitjob.Prelude.{
  ℕ, ◌≡◌, refl, sym, ◌∙◌, inl, inr, true, false, List, [], ◌∷◌, Option, none, some, arith, Bytes,
  Bool-cases, all, all-append, eqb, subst, not, ◌&&◌, ◌||◌,
}
use orbitjob.Prelude.Result.{ok}
use orbitjob.Policy.{Arn, colon, slash, is_empty, parse_tail, parse_parts, parse_arn}
use orbitjob.Policy.Text.{split, cut, lacks, append-cut, push}
use orbitjob.Policy.RoundTrip.{Renderable}

lacks-push :
    (sep c : ℕ) (ps : List Bytes)
    → eqb c sep ≡ false
    → all (lacks sep) ps ≡ true
    → all (lacks sep) (push c ps) ≡ true
lacks-push sep c [] n h = ground arith
lacks-push sep c (p ∷ ps) n h = ground arith

lacks-split : (sep : ℕ) (s : Bytes) → all (lacks sep) (split sep s) ≡ true
unfolding split
lacks-split sep [] = refl
lacks-split sep (c ∷ s) = elim (Bool-cases (eqb c sep)) [
  | inl hit ↦ rw hit (lacks-split sep s)
  | inr miss ↦ rw miss (lacks-push sep c (split sep s) miss (lacks-split sep s))
]

lacks-cut : (sep : ℕ) (s a b : Bytes) → cut sep s ≡ some (a, b) → lacks sep a ≡ true
unfolding cut
lacks-cut sep [] a b h = cc
lacks-cut sep (c ∷ s) a b h = elim (Bool-cases (eqb c sep)) [
  | inl hit ↦ ground arith
  | inr miss ↦ go (cut sep s) refl miss (lacks-cut sep s)
]
  where
    go :
        (o : Option (Bytes × Bytes))
        → cut sep s ≡ o
        → eqb c sep ≡ false
        → ((a b : Bytes) → cut sep s ≡ some (a, b) → lacks sep a ≡ true)
        → lacks sep a ≡ true
    go none e m k = ground (arith, e)
    go (some (x, y)) e m k = ground (arith, k x y e, e)

parse_tail-Renderable :
    (tenant group tail : Bytes) (o : Option (Bytes × Bytes)) (a : Arn)
    → lacks colon tenant ≡ true
    → lacks colon group ≡ true
    → lacks colon tail ≡ true
    → cut slash tail ≡ o
    → parse_tail tenant group o ≡ ok a
    → Renderable a
unfolding parse_tail
parse_tail-Renderable tenant group tail none a t g l e h = absurd (ground (arith, h))
parse_tail-Renderable tenant group tail (some (type, id)) a t g l e h =
    let whole = append-cut slash tail type id e in
    let plain : (lacks colon type && lacks colon (slash ∷ id)) ≡ true =
      sym (all-append (λ c. not (eqb c colon)) type (slash ∷ id))
      ∙ subst (λ x. lacks colon x ≡ true) whole l in
    let filled : (is_empty type || is_empty id) ≡ false = ground (arith, h) in
    let same_name : ◌≡◌ {A = Arn} (record { tenant = tenant; group = group; type = type; id = id })
        a =
      ground (arith, h, filled) in
    subst Renderable same_name (record {
      tenant_plain = t;
      group_plain = g;
      type_plain = ground (arith, plain);
      type_whole = lacks-cut slash tail type id e;
      id_plain = ground (arith, plain);
      type_filled = ground (arith, filled);
      id_filled = ground (arith, filled);
    })

parse_parts-Renderable :
    (ps : List Bytes) (a : Arn) → all (lacks colon) ps ≡ true → parse_parts ps ≡ ok a → Renderable a
unfolding parse_parts
parse_parts-Renderable (head ∷ tenant ∷ group ∷ tail ∷ []) a l h =
    parse_tail-Renderable tenant group tail (cut slash tail) a (ground arith) (ground arith)
      (ground arith) refl (ground (arith, h))
parse_parts-Renderable [] a l h = cc
parse_parts-Renderable (p ∷ []) a l h = cc
parse_parts-Renderable (p ∷ q ∷ []) a l h = cc
parse_parts-Renderable (p ∷ q ∷ r ∷ []) a l h = cc
parse_parts-Renderable (p ∷ q ∷ r ∷ s ∷ t ∷ ps) a l h = cc

-- A name that a text parses to prints to a text that parses to it.
pub parse_arn-Renderable : (s : Bytes) (a : Arn) → parse_arn s ≡ ok a → Renderable a
unfolding parse_arn
parse_arn-Renderable s a h = parse_parts-Renderable (split colon s) a (lacks-split colon s) h
