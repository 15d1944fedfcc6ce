-- ===== src/Prelude/Assoc.antt =====
-- Go maps with string keys as association lists; the program's order-free uses read them by
-- `lookup`.
use Prim.Native.String.{String}
use mathlib.Core.Bool.{Bool, true, false}
use mathlib.Core.Option.{Option, none, some}
use mathlib.Core.List.{List, [], ◌∷◌}
use mathlib.Core.Path.{◌≡◌, refl}
use text.Mathlib.Text.{◌==◌}
use text.Mathlib.TextEquality.{eq_iff}
use native.Mathlib.Omega.{arith}
use orbitjob.Prelude.Tests.{if◌then◌else◌}

abbrev pub Assoc {ℓ} : Type ℓ → Type ℓ
Assoc V = List (String × V)

module _ {ℓ} {V : Type ℓ} where
  -- v, ok := m[key]
  unfoldable pub lookup : String → Assoc V → Option V
  lookup key [] = none
  lookup key ((held, value) ∷ rest) = if held == key then some value else lookup key rest

  -- m[key] = value
  unfoldable pub insert : String → V → Assoc V → Assoc V
  insert key value [] = (key, value) ∷ []
  insert key value ((held, old) ∷ rest) =
      if held == key then (key, value) ∷ rest else (held, old) ∷ insert key value rest

  pub lookup-insert :
      (key k : String) (v : V) (m : Assoc V)
      → lookup key (insert k v m) ≡ (if k == key then some v else lookup key m)
  unfolding lookup insert
  lookup-insert key k v [] = refl
  lookup-insert key k v ((j, x) ∷ m) =
      ground (arith, eq_iff k key, eq_iff j k, eq_iff j key, lookup-insert key k v m)

-- the keys that a map holds
abbrev pub is_some {ℓ} : {A : Type ℓ} → Option A → Bool
is_some none = false
is_some (some _) = true
