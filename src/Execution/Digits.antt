-- ===== src/Execution/Digits.antt =====
-- The attempt number in decimal: how long it is, and that it reads back.
use orbitjob.Prelude.{
  ℕ, zero, suc, ◌+◌, ◌-◌, ◌*◌, ◌/◌, ◌%◌, ◌^◌, ◌≤◌, ◌<◌, ◌≡◌, refl, sym, ap, ◌∙◌, Bool, true, false,
  ◌&&◌, [], ◌∷◌, ◌++◌, some, arith, inl, inr, Bytes, eqb, leb, ltb, length, length-append, all,
  all-append, Bool-cases,
}
use orbitjob.Execution.{digits, itoa, number, positive_int, atoi}

abbrev pub is_digit : ℕ → Bool
is_digit c = leb b'0' c && leb c b'9'

tenth_lt : (j n : ℕ) → n < 10 ^ suc j → n / 10 < 10 ^ j
tenth_lt j n l = below (10 ^ j) (rw (sym (power j)) l)
  where
    power : (j : ℕ) → 10 ^ suc j ≡ 10 ^ j * 10
    power j = omega arith

    below : (b : ℕ) → n < b * 10 → n / 10 < b
    below b l = omega arith

digits_small : (fuel n : ℕ) → ltb n 10 ≡ true → digits (suc fuel) n ≡ (b'0' + n) ∷ []
unfolding digits
digits_small fuel n e = rw e refl

digits_large :
    (fuel n : ℕ)
    → ltb n 10 ≡ false
    → digits (suc fuel) n ≡ digits fuel (n / 10) ++ ((b'0' + n % 10) ∷ [])
unfolding digits
digits_large fuel n e = rw e refl

pub all-digits : (fuel n : ℕ) → all is_digit (digits fuel n) ≡ true
all-digits zero n = unfold digits in refl
all-digits (suc fuel) n = elim (Bool-cases (ltb n 10)) [
  | inl e ↦ rw (digits_small fuel n e) (ground arith)
  | inr e ↦ rw (digits_large fuel n e) (
      ground (
        arith,
        all-append is_digit (digits fuel (n / 10)) ((b'0' + n % 10) ∷ []),
        all-digits fuel (n / 10),
      ))
]

-- A number below 10 ^ k has at most k digits.
pub length-digits : (fuel k n : ℕ) → 1 ≤ k → n < 10 ^ k → length (digits fuel n) ≤ k
length-digits zero k n h l = unfold digits in omega arith
length-digits (suc fuel) zero n h l = absurd (omega arith)
length-digits (suc fuel) (suc zero) n h l = rw (digits_small fuel n (ground arith)) (omega arith)
length-digits (suc fuel) (suc (suc j)) n h l = elim (Bool-cases (ltb n 10)) [
  | inl e ↦ rw (digits_small fuel n e) (omega arith)
  | inr e ↦ rw (digits_large fuel n e) (
      omega (
        arith,
        length-append (digits fuel (n / 10)) ((b'0' + n % 10) ∷ []),
        length-digits fuel (suc j) (n / 10) (omega arith) (tenth_lt (suc j) n l),
      ))
]

number-append :
    (s : Bytes) (c acc v : ℕ)
    → number s acc ≡ some v
    → is_digit c ≡ true
    → number (s ++ (c ∷ [])) acc ≡ some (v * 10 + (c - b'0'))
unfolding number
number-append [] c acc v e h = ground arith
number-append (d ∷ s) c acc v e h = ground (arith, number-append s c (acc * 10 + (d - b'0')) v)

number-digits : (fuel n : ℕ) → n < 10 ^ fuel → number (digits fuel n) 0 ≡ some n
number-digits zero n l = unfold digits number in ap some (omega arith)
number-digits (suc fuel) n l = elim (Bool-cases (ltb n 10)) [
  | inl e ↦ rw (digits_small fuel n e) (unfold number in ground arith)
  | inr e ↦ rw (digits_large fuel n e) (
      number-append (digits fuel (n / 10)) (b'0' + n % 10) 0 (n / 10)
        (number-digits fuel (n / 10) (tenth_lt fuel n l)) (ground arith)
      ∙ ap some (omega arith))
]

abbrev pub int_bound : ℕ
int_bound = 9223372036854775808

-- A Go int that is not negative has at most 19 digits.
pub length-itoa : (n : ℕ) → n < int_bound → length (itoa n) ≤ 19
unfolding itoa
length-itoa n l = length-digits 20 19 n (omega arith) (omega arith)

pub all-itoa : (n : ℕ) → all is_digit (itoa n) ≡ true
unfolding itoa
all-itoa n = all-digits 20 n

pub number-itoa : (n : ℕ) → n < int_bound → number (itoa n) 0 ≡ some n
unfolding itoa
number-itoa n l = number-digits 20 n (omega arith)

positive_int-some : (n : ℕ) → 1 ≤ n → n < int_bound → positive_int (some n) ≡ some n
positive_int-some n h l = ground arith

atoi-digits :
    (s : Bytes) (n : ℕ)
    → 1 ≤ n
    → n < int_bound
    → all is_digit s ≡ true
    → number s 0 ≡ some n
    → atoi s ≡ some n
atoi-digits [] n h l d e = unfold number in absurd (ground arith)
atoi-digits (c ∷ []) n h l d e = unfold atoi in rw e (positive_int-some n h l)
atoi-digits (c ∷ (b ∷ s)) n h l d e =
    unfold atoi in
    let plus : eqb c b'+' ≡ false = ground arith in
    let minus : eqb c b'-' ≡ false = ground arith in rw (plus, minus, e) (positive_int-some n h l)

-- A positive int that is printed reads back.
pub atoi-itoa : (n : ℕ) → 1 ≤ n → n < int_bound → atoi (itoa n) ≡ some n
atoi-itoa n h l = atoi-digits (itoa n) n h l (all-itoa n) (number-itoa n l)
