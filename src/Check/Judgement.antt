-- ===== src/Check/Judgement.antt =====
-- What the order of the criteria decides, and what it does not.
use orbitjob.Prelude.{
  ◌≡◌, ◌↔◌, ◌⊎◌, refl, arith, sym, subst, ◌||◌, inl, inr, Bool-cases, eq_iff, Option, none, some,
  String, Bool, true, false, List, [], ◌∷◌, All, ◌==◌,
}
use orbitjob.Prelude.Int.{ℤ}
use orbitjob.Prelude.Result.{Result, ok, err}
use orbitjob.Check.Criteria.{
  SliType, availability, latency, quality, other_sli, number, object, compare_op, other_value,
  evaluate_status, evaluate_numeric_condition, evaluate_duration, CriteriaError, unknown_key,
  Floats, Value, text, OutcomeEvent, evaluate_key, and_then, evaluate_criteria, is_good_event,
}

module _ (f : Floats) (e : OutcomeEvent) where
  -- What the operators of a condition mean.
  pub data Compares (a t : f.Float) : String → Type 0 where
    is_less : f.less a t ≡ true → Compares a t "<"
    is_at_most : (f.less a t ≡ true) ⊎ (f.same a t ≡ true) → Compares a t "<="
    is_more : f.less t a ≡ true → Compares a t ">"
    is_at_least : (f.less t a ≡ true) ⊎ (f.same a t ≡ true) → Compares a t ">="
    is_same : f.same a t ≡ true → Compares a t "=="
    is_other : f.same a t ≡ false → Compares a t "!="

  -- A bare number is to be met; an object compares with its value.
  abbrev pub Fits : f.Float → Value f.Float → Type 0
  Fits a (number t) = f.same a t ≡ true
  Fits a (object (some op) (some t)) = Compares a t op
  Fits a _ = ⊥

  -- The outcome has the status, or has a duration that the condition fits.
  abbrev pub Met : (String × Value f.Float) → Type 0
  Met (key, v) =
      ((key ≡ "status") × (v ≡ text e.status))
      ⊎ ((key ≡ "duration_ms") × ((ms : ℤ) × (e.duration ≡ some ms) × Fits (f.of_ms ms) v))

  -- What a good event is: without criteria, only the availability of a success and an SLI of no
  -- known type count; with criteria, each of them is met.
  abbrev pub Good : SliType → List (String × Value f.Float) → Type 0
  Good availability [] = e.status ≡ "success"
  Good latency [] = ⊥
  Good quality [] = ⊥
  Good (other_sli t) [] = Unit
  Good t (c ∷ cs) = All Met (c ∷ cs)

  one_of : (x y : Bool) → (x || y) ≡ true → (x ≡ true) ⊎ (y ≡ true)
  one_of true y h = inl refl
  one_of false y h = inr h

  named :
      {a t : f.Float} (op known : String)
      → (op == known) ≡ true
      → Compares a t known
      → Compares a t op
  named {a} {t} op known y c =
      subst (λ (o : String). Compares a t o) (sym ((eq_iff op known).0 y)) c

  compare_op-Compares :
      (op : String) (a t : f.Float) → compare_op f op a t ≡ ok true → Compares a t op
  compare_op-Compares op a t h = elim (Bool-cases (op == "<")) [
    | inl y ↦ named op "<" y (is_less (ground (arith, h, y)))
    | inr n0 ↦ elim (Bool-cases (op == "<=")) [
      | inl y ↦
          named op "<=" y (is_at_most (one_of (f.less a t) (f.same a t) (ground (arith, h, n0, y))))
      | inr n1 ↦ elim (Bool-cases (op == ">")) [
        | inl y ↦ named op ">" y (is_more (ground (arith, h, n0, n1, y)))
        | inr n2 ↦ elim (Bool-cases (op == ">=")) [
          | inl y ↦
              named op ">=" y
                (is_at_least (one_of (f.less t a) (f.same a t) (ground (arith, h, n0, n1, n2, y))))
          | inr n3 ↦ elim (Bool-cases (op == "==")) [
            | inl y ↦ named op "==" y (is_same (ground (arith, h, n0, n1, n2, n3, y)))
            | inr n4 ↦ elim (Bool-cases (op == "!=")) [
              | inl y ↦ named op "!=" y (is_other (ground (arith, h, n0, n1, n2, n3, n4, y)))
              | inr n5 ↦ absurd (ground (arith, h, n0, n1, n2, n3, n4, n5))
            ]
          ]
        ]
      ]
    ]
  ]

  Compares-compare_op :
      {op : String} {a t : f.Float} → Compares a t op → compare_op f op a t ≡ ok true
  Compares-compare_op (is_less h) = rw h refl
  Compares-compare_op (is_at_most h) = ground (arith, h)
  Compares-compare_op (is_more h) = rw h refl
  Compares-compare_op (is_at_least h) = ground (arith, h)
  Compares-compare_op (is_same h) = rw h refl
  Compares-compare_op (is_other h) = rw h refl

  condition-Fits :
      (a : f.Float) (v : Value f.Float) → (evaluate_numeric_condition f a v ≡ ok true) ↔ Fits a v
  unfolding evaluate_numeric_condition
  condition-Fits a (number t) = ground arith
  condition-Fits a (object none value) = ground arith
  condition-Fits a (object (some op) none) = ground arith
  condition-Fits a (object (some op) (some t)) = (compare_op-Compares op a t, Compares-compare_op)
  condition-Fits a (text s) = ground arith
  condition-Fits a other_value = ground arith

  status-Met : (v : Value f.Float) → (evaluate_status f e v ≡ ok true) ↔ (v ≡ text e.status)
  status-Met (text s) = (
    λ h. let same : e.status ≡ s = (eq_iff e.status s).0 (ground (arith, h)) in rw same refl,
    λ h.
        let same : s ≡ e.status = ground (arith, h) in
        rw (same, (eq_iff e.status e.status).1 refl) refl,
  )
  status-Met (number t) = (λ h. cc, λ h. cc)
  status-Met (object op value) = (λ h. cc, λ h. cc)
  status-Met other_value = (λ h. cc, λ h. cc)

  -- Of an outcome without a duration, none.
  abbrev Timed : Option ℤ → Value f.Float → Type 0
  Timed o v = (ms : ℤ) × (o ≡ some ms) × Fits (f.of_ms ms) v

  duration-Met :
      (o : Option ℤ) (v : Value f.Float) → (evaluate_duration f o v ≡ ok true) ↔ Timed o v
  duration-Met none v = (λ h. absurd (ground (arith, h)), λ h. absurd (ground (arith, h.1)))
  duration-Met (some ms) v = (
    λ h. (ms, refl, (condition-Fits (f.of_ms ms) v).0 h),
    λ h.
        let same : h.0 ≡ ms = ground (arith, h.1) in
        (condition-Fits (f.of_ms ms) v).1 (subst (λ (x : ℤ). Fits (f.of_ms x) v) same h.2),
  )

  two_keys : (key : String) → (key == "status") ≡ true → key ≡ "duration_ms" → ⊥
  two_keys key y k = no (subst (λ (o : String). (o == "status") ≡ true) k y)
    where
      no : ("duration_ms" == "status") ≡ true → ⊥
      no h = ground (arith, h)

  other_key : (key known : String) → (key == known) ≡ false → key ≡ known → ⊥
  other_key key known n k = ground (arith, n, (eq_iff key known).1 k)

  evaluate_key-Met : (c : String × Value f.Float) → (evaluate_key f e c.0 c.1 ≡ ok true) ↔ Met c
  unfolding evaluate_key
  evaluate_key-Met (key, v) = elim (Bool-cases (key == "status")) [
    | inl y ↦ rw y (
      λ h. inl ((eq_iff key "status").0 y, (status-Met v).0 h),
      λ m. elim m [ inl k ↦ (status-Met v).1 k.1 | inr k ↦ absurd (two_keys key y k.0) ],
    )
    | inr n ↦ elim (Bool-cases (key == "duration_ms")) [
      | inl y ↦
          rw (n, y)
            (
              λ h. inr ((eq_iff key "duration_ms").0 y, (duration-Met e.duration v).0 h),
              λ m. elim m [
                | inl k ↦ absurd (other_key key "status" n k.0)
                | inr k ↦ (duration-Met e.duration v).1 k.1
              ],
            )
      | inr x ↦
          rw (n, x)
            (
              λ h. absurd (ground (arith, h)),
              λ m. elim m [
                | inl k ↦ absurd (other_key key "status" n k.0)
                | inr k ↦ absurd (other_key key "duration_ms" x k.0)
              ],
            )
    ]
  ]

  criteria-Met :
      (criteria : List (String × Value f.Float))
      → (evaluate_criteria f e criteria ≡ ok true) ↔ All Met criteria
  unfolding evaluate_criteria
  criteria-Met [] = (λ h. tt, λ h. refl)
  criteria-Met ((key, v) ∷ rest) =
      step (evaluate_key f e key v) (evaluate_criteria f e rest) (evaluate_key-Met (key, v))
        (criteria-Met rest)
    where
      step :
          (r s : Result CriteriaError Bool)
          → (r ≡ ok true) ↔ Met (key, v)
          → (s ≡ ok true) ↔ All Met rest
          → (and_then f r s ≡ ok true) ↔ (Met (key, v) × All Met rest)
      step (err x) s m h = (λ k. cc, λ k. cc (m.1 k.0))
      step (ok false) s m h = (λ k. cc, λ k. cc (m.1 k.0))
      step (ok true) s m h = (λ k. (m.0 refl, h.0 k), λ k. h.1 k.1)

  -- An outcome is a good event exactly when its criteria are met. Without criteria, a success is good
  -- for an availability SLI, nothing is for a latency or a quality SLI, and everything is for an SLI
  -- of another type. With criteria, every one of them must be met: a status is that of the outcome,
  -- and a duration, which the outcome must have, fits the number or the comparison written. So
  -- whatever order the criteria are visited in, the same outcomes are good.
  pub is_good_event-Good :
      (t : SliType) (criteria : List (String × Value f.Float))
      → (is_good_event f e t criteria ≡ ok true) ↔ Good t criteria
  unfolding is_good_event
  is_good_event-Good availability [] = (
    λ h. (eq_iff e.status "success").0 (ground (arith, h)),
    λ h. rw ((eq_iff e.status "success").1 h) refl,
  )
  is_good_event-Good latency [] = ground arith
  is_good_event-Good quality [] = ground arith
  is_good_event-Good (other_sli t) [] = (λ h. tt, λ h. refl)
  is_good_event-Good availability (c ∷ cs) = criteria-Met (c ∷ cs)
  is_good_event-Good latency (c ∷ cs) = criteria-Met (c ∷ cs)
  is_good_event-Good quality (c ∷ cs) = criteria-Met (c ∷ cs)
  is_good_event-Good (other_sli t) (c ∷ cs) = criteria-Met (c ∷ cs)

  -- A criterion whose key no outcome has, beside a status that the outcome misses, is reported as an
  -- error or counted as a bad event, depending on which of the two is visited first.
  pub unknown_key_order :
      (key status : String) (v : Value f.Float)
      → (key == "status") ≡ false
      → (key == "duration_ms") ≡ false
      → (e.status == status) ≡ false
      → (is_good_event f e quality ((key, v) ∷ (("status", text status) ∷ []))
          ≡ err (unknown_key key))
        × (is_good_event f e quality (("status", text status) ∷ ((key, v) ∷ [])) ≡ ok false)
  unfolding is_good_event
  unknown_key_order key status v k d s = (rw (k, d) refl, rw s refl)
