-- ===== src/Prelude/Lists.antt =====
-- Lists measured by native numbers, under the library's names, and tests over all elements.
use Prim.Native.Nat.{ℕ, zero, suc, ◌+◌, ◌-◌, ◌≤◌, ◌<◌}
use Prim.Native.String.{String}
use mathlib.Core.Path.{◌≡◌, refl}
use mathlib.Core.Bool.{Bool, true, false, ◌&&◌, ◌||◌}
use mathlib.Core.List.{List, [], ◌∷◌, ◌++◌}
use native.Mathlib.Omega.{arith}
use text.Mathlib.Text.{◌==◌}
use text.Mathlib.TextEquality.{eq_iff}
use mathlib.Core.Logic.{◌⊎◌, inl, inr}
use orbitjob.Prelude.Tests.{if◌then◌else◌, ltb, Bool-cases}

module _ {ℓ} {A : Type ℓ} where
  abbrev pub take : ℕ → List A → List A
  take zero xs = []
  take (suc n) [] = []
  take (suc n) (x ∷ xs) = x ∷ take n xs

  abbrev pub length : List A → ℕ
  length [] = 0
  length (x ∷ xs) = suc (length xs)

  abbrev pub drop : ℕ → List A → List A
  drop zero xs = xs
  drop (suc n) [] = []
  drop (suc n) (x ∷ xs) = drop n xs

  abbrev pub any : (A → Bool) → List A → Bool
  any p [] = false
  any p (x ∷ xs) = p x || any p xs

  abbrev pub all : (A → Bool) → List A → Bool
  all p [] = true
  all p (x ∷ xs) = p x && all p xs

  pub length-append : (xs ys : List A) → length (xs ++ ys) ≡ length xs + length ys
  length-append [] ys = omega arith
  length-append (x ∷ xs) ys = omega (arith, length-append xs ys)

  pub length-drop : (n : ℕ) (xs : List A) → length (drop n xs) ≡ length xs - n
  length-drop zero xs = omega arith
  length-drop (suc n) [] = omega arith
  length-drop (suc n) (x ∷ xs) = omega (arith, length-drop n xs)

  pub any-append : (p : A → Bool) (xs ys : List A) → any p (xs ++ ys) ≡ (any p xs || any p ys)
  any-append p [] ys = refl
  any-append p (x ∷ xs) ys = ground (arith, any-append p xs ys)

  pub all-append : (p : A → Bool) (xs ys : List A) → all p (xs ++ ys) ≡ (all p xs && all p ys)
  all-append p [] ys = refl
  all-append p (x ∷ xs) ys = ground (arith, all-append p xs ys)

  -- A predicate by recursion computes to tuples, which the tactics read and build.
  abbrev pub All {κ} : (A → Type κ) → List A → Type κ
  All P [] = Unit
  All P (x ∷ xs) = P x × All P xs

  pub All-map {κ} : {P Q : A → Type κ} → ((x : A) → P x → Q x) → (xs : List A) → All P xs → All Q xs
  All-map f [] p = tt
  All-map f (x ∷ xs) (p, ps) = (f x p, All-map f xs ps)

-- `contains` of the program: membership of a text in a list of texts.
abbrev pub contains : List String → String → Bool
contains [] w = false
contains (v ∷ vs) w = v == w || contains vs w

-- How often a text stands in a list.
abbrev pub occurrences : String → List String → ℕ
occurrences v [] = 0
occurrences v (x ∷ xs) = let rest = occurrences v xs in if x == v then suc rest else rest

pub occurrences-append :
    (v : String) (xs ys : List String)
    → occurrences v (xs ++ ys) ≡ occurrences v xs + occurrences v ys
occurrences-append v [] ys = omega arith
occurrences-append v (x ∷ xs) ys = ground (arith, occurrences-append v xs ys)

pub contains-occurrences :
    (xs : List String) (v : String) → contains xs v ≡ ltb 0 (occurrences v xs)
contains-occurrences [] v = refl
contains-occurrences (x ∷ xs) v = ground (arith, contains-occurrences xs v)

-- The list without its first occurrence of a text.
erase : String → List String → List String
erase v [] = []
erase v (x ∷ xs) = if x == v then xs else x ∷ erase v xs

occurrences-erase :
    (v w : String) (xs : List String)
    → occurrences w (erase v xs) ≡ occurrences w xs - (if v == w then 1 else 0)
unfolding erase
occurrences-erase v w [] = ground arith
occurrences-erase v w (x ∷ xs) =
    ground (arith, occurrences-erase v w xs, eq_iff x v, eq_iff x w, eq_iff v w)

length-erase :
    (v : String) (xs : List String) → 1 ≤ occurrences v xs → length xs ≡ suc (length (erase v xs))
unfolding erase
length-erase v [] h = absurd (omega arith)
length-erase v (x ∷ xs) h = ground (arith, length-erase v xs)

rest_le :
    (x : String) (xs ys : List String)
    → ((v : String) → occurrences v (x ∷ xs) ≤ occurrences v ys)
    → (v : String) → occurrences v xs ≤ occurrences v (erase x ys)
rest_le x xs ys h v = ground (arith, h v, occurrences-erase x v ys)

head_le :
    (x : String) (xs ys : List String)
    → ((v : String) → occurrences v (x ∷ xs) ≤ occurrences v ys)
    → 1 ≤ occurrences x ys
head_le x xs ys h = ground (arith, h x, eq_iff x x)

-- A list that holds nothing more often than another is no longer than it.
pub length-le_of_occurrences :
    (xs ys : List String)
    → ((v : String) → occurrences v xs ≤ occurrences v ys)
    → length xs ≤ length ys
length-le_of_occurrences [] ys h = omega arith
length-le_of_occurrences (x ∷ xs) ys h = omega (
  arith,
  length-le_of_occurrences xs (erase x ys) (rest_le x xs ys h),
  length-erase x ys (head_le x xs ys h),
)

-- If moreover it is as long, it holds everything as often.
pub occurrences-eq_of_length :
    (xs ys : List String)
    → ((v : String) → occurrences v xs ≤ occurrences v ys)
    → length xs ≡ length ys
    → (v : String) → occurrences v xs ≡ occurrences v ys
occurrences-eq_of_length [] [] h e v = refl
occurrences-eq_of_length [] (y ∷ ys) h e v = absurd (omega arith)
occurrences-eq_of_length (x ∷ xs) ys h e v = ground (
  arith,
  occurrences-erase x v ys,
  h x,
  h v,
  eq_iff x x,
  eq_iff x v,
  occurrences-eq_of_length xs (erase x ys) (rest_le x xs ys h)
      (omega (arith, length-erase x ys (head_le x xs ys h))) v,
)

pub all_of_occurrences :
    (p : String → Bool) (xs : List String)
    → ((x : String) → 0 < occurrences x xs → p x ≡ true)
    → all p xs ≡ true
all_of_occurrences p [] h = refl
all_of_occurrences p (x ∷ xs) h =
    ground
      (arith, h x (ground (arith, eq_iff x x)), all_of_occurrences p xs (λ y k. h y (ground arith)))

pub contains_of_all :
    (ys xs : List String) (x : String)
    → all (contains ys) xs ≡ true
    → 0 < occurrences x xs
    → contains ys x ≡ true
contains_of_all ys [] x h k = absurd (omega arith)
contains_of_all ys (y ∷ xs) x h k = ground (arith, contains_of_all ys xs x, eq_iff y x)

pub test_of_all :
    (p : String → Bool) (xs : List String) (x : String)
    → all p xs ≡ true
    → 0 < occurrences x xs
    → p x ≡ true
test_of_all p [] x h k = absurd (omega arith)
test_of_all p (y ∷ xs) x h k = elim (Bool-cases (y == x)) [
  | inl e ↦ rw (← (eq_iff y x).0 e) (ground arith)
  | inr ne ↦ test_of_all p xs x (ground arith) (ground arith)
]

abbrev pub Among : {A : Type 0} → A → List A → Type 0
Among x [] = ⊥
Among x (y ∷ ys) = (x ≡ y) ⊎ Among x ys
