-- ===== src/Policy/Text.antt =====
-- strings.Split, strings.SplitN and strings.Join as the policy code uses them.
use orbitjob.Prelude.{
  ℕ, ◌≡◌, ◌≢◌, refl, inl, inr, Bool-cases, eqb_iff, Bool, true, false, not, List, [], ◌∷◌, ◌++◌,
  Option, none, some, arith, Bytes, eqb, all, if◌then◌else◌,
}

abbrev pub push : ℕ → List Bytes → List Bytes
push c [] = (c ∷ []) ∷ []
push c (p ∷ ps) = (c ∷ p) ∷ ps

unfoldable pub split : ℕ → Bytes → List Bytes
split sep [] = [] ∷ []
split sep (c ∷ s) = let rest = split sep s in if eqb c sep then [] ∷ rest else push c rest

-- SplitN(s, sep, 2) where it gives two parts.
unfoldable pub cut : ℕ → Bytes → Option (Bytes × Bytes)
cut sep [] = none
cut sep (c ∷ s) =
    let rest = cut sep s in
    if eqb c sep then some ([], s) else elim rest [ none ↦ none | some (a, b) ↦ some (c ∷ a, b) ]

unfoldable pub join : ℕ → List Bytes → Bytes
join sep [] = []
join sep (p ∷ []) = p
join sep (p ∷ q ∷ ps) = p ++ (sep ∷ join sep (q ∷ ps))

abbrev pub lacks : ℕ → Bytes → Bool
lacks sep = all (λ c. not (eqb c sep))

join-push : (sep c : ℕ) (ps : List Bytes) → join sep (push c ps) ≡ c ∷ join sep ps
unfolding join
join-push sep c [] = refl
join-push sep c (p ∷ []) = refl
join-push sep c (p ∷ q ∷ ps) = refl

join-nil : (sep : ℕ) (ps : List Bytes) → ps ≢ [] → join sep ([] ∷ ps) ≡ sep ∷ join sep ps
unfolding join
join-nil sep [] h = absurd (h refl)
join-nil sep (p ∷ ps) h = refl

push-ne-nil : (c : ℕ) (ps : List Bytes) → push c ps ≢ []
push-ne-nil c [] e = cc
push-ne-nil c (p ∷ ps) e = cc

split-ne-nil : (sep : ℕ) (s : Bytes) → split sep s ≢ []
unfolding split
split-ne-nil sep [] = λ e. cc
split-ne-nil sep (c ∷ s) = elim (Bool-cases (eqb c sep)) [
  | inl hit ↦ rw hit (λ e. cc)
  | inr miss ↦ rw miss (push-ne-nil c (split sep s))
]

-- Joining the parts of a split gives the text back, for every text.
pub join-split : (sep : ℕ) (s : Bytes) → join sep (split sep s) ≡ s
join-split sep [] = unfold join split in refl
join-split sep (c ∷ s) = elim (Bool-cases (eqb c sep)) [
  | inl hit ↦
      let e : split sep (c ∷ s) ≡ [] ∷ split sep s = unfold split in rw hit in
      rw e (
        ground
          (arith, join-nil sep (split sep s) (split-ne-nil sep s), join-split sep s, eqb_iff c sep))
  | inr miss ↦
      let e : split sep (c ∷ s) ≡ push c (split sep s) = unfold split in rw miss in
      rw (e, join-push sep c (split sep s), join-split sep s)
]

-- A part without separators, with and without a separator behind it.
pub split-part : (sep : ℕ) (p : Bytes) → lacks sep p ≡ true → split sep p ≡ p ∷ []
unfolding split
split-part sep [] h = refl
split-part sep (c ∷ p) h = ground (arith, split-part sep p)

pub split-append :
    (sep : ℕ) (p s : Bytes) → lacks sep p ≡ true → split sep (p ++ (sep ∷ s)) ≡ p ∷ split sep s
unfolding split
split-append sep [] s h = ground arith
split-append sep (c ∷ p) s h = ground (arith, split-append sep p s)

pub cut-append :
    (sep : ℕ) (p s : Bytes) → lacks sep p ≡ true → cut sep (p ++ (sep ∷ s)) ≡ some (p, s)
unfolding cut
cut-append sep [] s h = ground arith
cut-append sep (c ∷ p) s h = ground (arith, cut-append sep p s)

pub append-cut : (sep : ℕ) (s a b : Bytes) → cut sep s ≡ some (a, b) → s ≡ a ++ (sep ∷ b)
unfolding cut
append-cut sep [] a b h = cc
append-cut sep (c ∷ s) a b h = elim (Bool-cases (eqb c sep)) [
  | inl hit ↦ ground (arith, eqb_iff c sep)
  | inr miss ↦ go (cut sep s) refl miss (append-cut sep s)
]
  where
    go :
        (o : Option (Bytes × Bytes))
        → cut sep s ≡ o
        → eqb c sep ≡ false
        → ((a' b' : Bytes) → cut sep s ≡ some (a', b') → s ≡ a' ++ (sep ∷ b'))
        → c ∷ s ≡ a ++ (sep ∷ b)
    go none e miss ih = ground arith
    go (some (a', b')) e miss ih = ground (arith, ih a' b' e)
