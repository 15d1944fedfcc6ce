-- ===== src/Prelude/Int.antt =====
-- Signed integers over the native numbers, under the library's names. The program's int and int64
-- counters stay far from the ends of their ranges; no addition here is near a wrap-around.
use Prim.Native.Nat.{ℕ, suc, ◌+◌, ◌-◌}
use mathlib.Core.Bool.{Bool, false}
use orbitjob.Prelude.Tests.{ltb, leb, eqb, if◌then◌else◌}

-- `negsuc n` is -(n + 1).
pub data ℤ : Type 0 where
  pos : ℕ → ℤ
  negsuc : ℕ → ℤ

abbrev pub pos_part : ℤ → ℕ
pos_part (pos n) = n
pos_part (negsuc n) = 0

abbrev pub neg_part : ℤ → ℕ
neg_part (pos n) = 0
neg_part (negsuc n) = suc n

abbrev pub ltb_ℤ : ℤ → ℤ → Bool
ltb_ℤ a b = ltb (pos_part a + neg_part b) (pos_part b + neg_part a)

abbrev pub leb_ℤ : ℤ → ℤ → Bool
leb_ℤ a b = leb (pos_part a + neg_part b) (pos_part b + neg_part a)

-- x - 1
abbrev pub pred_ℤ : ℤ → ℤ
pred_ℤ (pos n) = if eqb n 0 then negsuc 0 else pos (n - 1)
pred_ℤ (negsuc n) = negsuc (suc n)

abbrev pub is_zero_ℤ : ℤ → Bool
is_zero_ℤ (pos n) = eqb n 0
is_zero_ℤ (negsuc n) = false
