-- ===== src/Execution/Names.antt =====
-- JobName: its length, and that it tells attempts apart.
use orbitjob.Prelude.{
  take, ℕ, zero, suc, ◌-◌, ◌≤◌, ◌<◌, ◌≡◌, ◌⊎◌, refl, sym, ap, ◌∙◌, Bool, true, [], ◌∷◌, ◌++◌,
  append_assoc, Option, none, some, arith, inl, inr, Bytes, codes, eqb, leb, length, length-append,
  all, Bool-cases, if◌then◌else◌,
}
use orbitjob.Execution.{
  dash, itoa, Identity, trim_left, trim_right, sanitize, max_job_name_length, raw_name, job_name,
}
use orbitjob.Execution.Digits.{is_digit, all-itoa, length-itoa, int_bound, atoi-itoa}

length-take : (n : ℕ) (s : Bytes) → length (take n s) ≤ n
length-take zero s = omega arith
length-take (suc n) [] = omega arith
length-take (suc n) (c ∷ s) = omega (arith, length-take n s)

length-trim_left : (s : Bytes) → length (trim_left s) ≤ length s
unfolding trim_left
length-trim_left [] = omega arith
length-trim_left (c ∷ s) = ground (arith, length-trim_left s)

length-trim_right : (s : Bytes) → length (trim_right s) ≤ length s
unfolding trim_right
length-trim_right [] = omega arith
length-trim_right (c ∷ s) = ground (arith, length-trim_right s)

length-trimmed : (s : Bytes) → length (trim_right (trim_left s)) ≤ length s
length-trimmed s = omega (arith, length-trim_right (trim_left s), length-trim_left s)

length-sanitize : (name : Bytes) (limit : ℕ) → length (sanitize name limit) ≤ limit
unfolding sanitize
length-sanitize name limit =
    ground (arith, length-trimmed name, length-trimmed (take limit name), length-take limit name)

length-hashed :
    (body hash suffix : Bytes) (keep : ℕ)
    → length body ≤ keep
    → length hash ≤ 8
    → length suffix ≤ 20
    → keep ≡ 63 - 3 - 1 - 8 - length suffix
    → length (codes "oj-" ++ (body ++ (dash ∷ (hash ++ suffix)))) ≤ 63
length-hashed body hash suffix keep b h s e =
    omega (arith, length-append body (dash ∷ (hash ++ suffix)), length-append hash suffix)

-- The name of a Job is at most 63 bytes long, the limit of Kubernetes, for every run name, every
-- attempt number that is a Go int, and whatever the digest.
pub length-job_name :
    (digest : Bytes → Bytes) (i : Identity)
    → i.attempt < int_bound
    → length (job_name digest i) ≤ 63
length-job_name digest i l = elim (Bool-cases (leb (length (raw_name i)) max_job_name_length)) [
  | inl short ↦ unfold job_name in rw short (ground arith)
  | inr long ↦
      unfold job_name in
      rw long (
        length-hashed (sanitize i.run_name (63 - 3 - 1 - 8 - length (dash ∷ itoa i.attempt)))
          (take 8 (digest (raw_name i))) (dash ∷ itoa i.attempt) _ (length-sanitize i.run_name _)
          (length-take 8 (digest (raw_name i))) (omega (arith, length-itoa i.attempt l)) refl)
]

-- What stands before and after the last dash, if there is one.
abbrev keep_last : ℕ → Bytes → Option (Bytes × Bytes) → Option (Bytes × Bytes)
keep_last c s (some (a, t)) = some (c ∷ a, t)
keep_last c s none = if eqb c dash then some ([], s) else none

cut_last : Bytes → Option (Bytes × Bytes)
cut_last [] = none
cut_last (c ∷ s) = keep_last c s (cut_last s)

cut_last-digits : (s : Bytes) → all is_digit s ≡ true → cut_last s ≡ none
unfolding cut_last
cut_last-digits [] h = refl
cut_last-digits (c ∷ s) h = rw (cut_last-digits s (ground arith)) (ground arith)

cut_last-append : (s t : Bytes) → all is_digit t ≡ true → cut_last (s ++ (dash ∷ t)) ≡ some (s, t)
unfolding cut_last
cut_last-append [] t h = rw (cut_last-digits t h) refl
cut_last-append (c ∷ s) t h = rw (cut_last-append s t h) refl

cut-raw_name :
    (i : Identity) → cut_last (raw_name i) ≡ some (codes "oj-" ++ i.run_name, itoa i.attempt)
unfolding raw_name
cut-raw_name i = cut_last-append (codes "oj-" ++ i.run_name) (itoa i.attempt) (all-itoa i.attempt)

hashed_cut :
    (body hash t : Bytes)
    → all is_digit t ≡ true
    → cut_last (codes "oj-" ++ (body ++ (dash ∷ (hash ++ (dash ∷ t)))))
      ≡ some (codes "oj-" ++ (body ++ (dash ∷ hash)), t)
hashed_cut body hash t h =
    ap (λ u. cut_last (codes "oj-" ++ u)) (sym (append_assoc body (dash ∷ hash) (dash ∷ t)))
    ∙ cut_last-append (codes "oj-" ++ (body ++ (dash ∷ hash))) t h

cut-job_name :
    (digest : Bytes → Bytes) (i : Identity)
    → (a : Bytes) × (cut_last (job_name digest i) ≡ some (a, itoa i.attempt))
cut-job_name digest i = elim (Bool-cases (leb (length (raw_name i)) max_job_name_length)) [
  | inl short ↦ (codes "oj-" ++ i.run_name, unfold job_name in rw short (cut-raw_name i))
  | inr long ↦ (
    codes "oj-"
        ++ (sanitize i.run_name (63 - 3 - 1 - 8 - length (dash ∷ itoa i.attempt))
            ++ (dash ∷ take 8 (digest (raw_name i)))),
    unfold job_name in
        rw long (
          hashed_cut (sanitize i.run_name (63 - 3 - 1 - 8 - length (dash ∷ itoa i.attempt)))
            (take 8 (digest (raw_name i))) (itoa i.attempt) (all-itoa i.attempt)),
  )
]

short-job_name :
    (digest : Bytes → Bytes) (i : Identity)
    → length (raw_name i) ≤ max_job_name_length
    → job_name digest i ≡ raw_name i
short-job_name digest i h =
    let e : leb (length (raw_name i)) max_job_name_length ≡ true = ground arith in
    unfold job_name in rw e refl

-- An attempt number that is a positive Go int.
pub record Numbered (i : Identity) : Type 0 where
  pub positive : 1 ≤ i.attempt
  pub fits : i.attempt < int_bound

itoa_injective :
    (i j : Identity)
    → Numbered i
    → Numbered j
    → itoa i.attempt ≡ itoa j.attempt
    → i.attempt ≡ j.attempt
itoa_injective i j n m e =
    let e1 = atoi-itoa i.attempt n.positive n.fits in
    let e2 = atoi-itoa j.attempt m.positive m.fits in cc

abbrev unhashed : Identity → Bool
unhashed i = leb (length (raw_name i)) max_job_name_length

same_run :
    (digest : Bytes → Bytes) (i j : Identity)
    → unhashed i ≡ true
    → unhashed j ≡ true
    → job_name digest i ≡ job_name digest j
    → i.run_name ≡ j.run_name
same_run digest i j si sj e =
    let e1 = short-job_name digest i (ground arith) in
    let e2 = short-job_name digest j (ground arith) in
    let c1 = cut-raw_name i in
    let c2 = cut-raw_name j in
    let same : codes "oj-" ++ i.run_name ≡ codes "oj-" ++ j.run_name = cc in cc

-- Two identities with positive attempt numbers that get the same Job name have the same attempt
-- number, whatever their run names and the digest, so that two attempts of a run never share a Job.
-- Unless one of the names is hashed for its length, they have the same run name too.
pub job_name_injective :
    (digest : Bytes → Bytes) (i j : Identity)
    → Numbered i
    → Numbered j
    → job_name digest i ≡ job_name digest j
    → (i.attempt ≡ j.attempt)
      × ((i.run_name ≡ j.run_name)
          ⊎ (max_job_name_length < length (raw_name i))
          ⊎ (max_job_name_length < length (raw_name j)))
job_name_injective digest i j n m e = (
  itoa_injective i j n m
      (let c1 = (cut-job_name digest i).1 in let c2 = (cut-job_name digest j).1 in cc),
  elim (Bool-cases (unhashed i)) [
    | inr l ↦ inr (inl (ground arith))
    | inl si ↦ elim (Bool-cases (unhashed j)) [
      | inr l ↦ inr (inr (ground arith))
      | inl sj ↦ inl (same_run digest i j si sj e)
    ]
  ],
)
