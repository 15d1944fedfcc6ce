-- ===== src/Trace.antt =====
-- Code that makes requests of stores and of Kubernetes: a computation extends a trace of requests,
-- the newest first, and may end in an error. The answers come from an oracle over the trace, so
-- that a theorem for every oracle holds for every environment.
use orbitjob.Prelude.{
  ◌≡◌, refl, Bool, true, false, List, ◌∷◌, All, arith, inl, inr, Bool-cases, if◌then◌else◌,
}
use orbitjob.Prelude.Result.{Result, ok, err}

-- `E` are the errors and `X` the requests.
abbrev pub M : Type 0 → Type 0 → Type 0 → Type 0
M E X A = List X → Result E A × List X

abbrev pub pure : {E X A : Type 0} → A → M E X A
pure a h = (ok a, h)

abbrev pub throw : {E X A : Type 0} → E → M E X A
throw e h = (err e, h)

abbrev pub continue : {E X A B : Type 0} → Result E A × List X → (A → M E X B) → Result E B × List X
continue (ok a, h) f = f a h
continue (err e, h) f = (err e, h)

infixl 5 ◌>>=◌ ◌>>◌
abbrev pub ◌>>=◌ : {E X A B : Type 0} → M E X A → (A → M E X B) → M E X B
◌>>=◌ m f h = continue (m h) f

abbrev pub ◌>>◌ : {E X B : Type 0} → M E X (Unit {0}) → M E X B → M E X B
m >> k = m >>= λ _. k

-- A request is made whether or not it is then refused.
abbrev pub request : {E X : Type 0} → (List X → X → Bool) → (X → E) → X → M E X (Unit {0})
request accepts refused x h = if accepts h x then (ok tt, x ∷ h) else (err (refused x), x ∷ h)

module _ {E X : Type 0} (P : X → Type 0) where
  -- Whatever the result, all requests have the property if those before had it.
  abbrev pub Keeps : {A : Type 0} → M E X A → Type 0
  Keeps m = (h : List X) → All P h → All P (m h).1

  pub Keeps-request :
      (accepts : List X → X → Bool) (refused : X → E) (x : X)
      → P x
      → Keeps (request accepts refused x)
  Keeps-request accepts refused x p h q = ground (arith, p, q)

  pub Keeps-continue :
      {A B : Type 0} (r : Result E A × List X) (f : A → M E X B)
      → All P r.1
      → ((a : A) → Keeps (f a))
      → All P (continue r f).1
  Keeps-continue (ok a, h) f q k = k a h q
  Keeps-continue (err e, h) f q k = q

  pub Keeps-bind :
      {A B : Type 0} (m : M E X A) (f : A → M E X B)
      → Keeps m
      → ((a : A) → Keeps (f a))
      → Keeps (m >>= f)
  Keeps-bind m f k l h q = Keeps-continue (m h) f (k h q) l

  Keeps-continue_at :
      {A B : Type 0} (r : Result E A × List X) (f : A → M E X B)
      → All P r.1
      → ((a : A) → r.0 ≡ ok a → Keeps (f a))
      → All P (continue r f).1
  Keeps-continue_at (ok a, h) f q k = k a refl h q
  Keeps-continue_at (err e, h) f q k = q

  -- The same for the values that the first computation can have.
  pub Keeps-bind_at :
      {A B : Type 0} (m : M E X A) (f : A → M E X B)
      → Keeps m
      → ((h : List X) (a : A) → (m h).0 ≡ ok a → Keeps (f a))
      → Keeps (m >>= f)
  Keeps-bind_at m f k l h q = Keeps-continue_at (m h) f (k h q) (l h)

  -- What follows one request is run only if the request was accepted.
  pub Keeps-then :
      {B : Type 0} (accepts : List X → X → Bool) (refused : X → E) (x : X) (k : M E X B)
      → P x
      → ((h : List X) → accepts h x ≡ true → All P (x ∷ h) → All P (k (x ∷ h)).1)
      → Keeps (request accepts refused x >> k)
  Keeps-then accepts refused x k p f h q = elim (Bool-cases (accepts h x)) [
    | inl e ↦ rw e (f h e (p, q))
    | inr e ↦ rw e (p, q)
  ]

  pub Keeps-if :
      {A : Type 0} (b : Bool) (m n : M E X A)
      → (b ≡ true → Keeps m)
      → (b ≡ false → Keeps n)
      → Keeps (if b then m else n)
  Keeps-if true m n k l = k refl
  Keeps-if false m n k l = l refl

-- A property of the whole trace.
module _ {E X : Type 0} (Q : List X → Type 0) where
  abbrev pub Holds : {A : Type 0} → M E X A → Type 0
  Holds m = (h : List X) → Q h → Q (m h).1

  pub Holds-continue :
      {A B : Type 0} (r : Result E A × List X) (f : A → M E X B)
      → Q r.1
      → ((a : A) → Holds (f a))
      → Q (continue r f).1
  Holds-continue (ok a, h) f q k = k a h q
  Holds-continue (err e, h) f q k = q

  pub Holds-bind :
      {A B : Type 0} (m : M E X A) (f : A → M E X B)
      → Holds m
      → ((a : A) → Holds (f a))
      → Holds (m >>= f)
  Holds-bind m f k l h q = Holds-continue (m h) f (k h q) l

  -- After one request, which may have been refused.
  pub Holds-then :
      {B : Type 0} (accepts : List X → X → Bool) (refused : X → E) (x : X) (k : M E X B)
      (h : List X)
      → Q (x ∷ h)
      → Q (k (x ∷ h)).1
      → Q ((request accepts refused x >> k) h).1
  Holds-then accepts refused x k h q r = elim (Bool-cases (accepts h x)) [
    | inl e ↦ rw e r
    | inr e ↦ rw e q
  ]

  -- The same where what follows needs that the request was accepted.
  pub Holds-accepted :
      {B : Type 0} (accepts : List X → X → Bool) (refused : X → E) (x : X) (k : M E X B)
      (h : List X)
      → Q (x ∷ h)
      → (accepts h x ≡ true → Q (k (x ∷ h)).1)
      → Q ((request accepts refused x >> k) h).1
  Holds-accepted accepts refused x k h q r = elim (Bool-cases (accepts h x)) [
    | inl e ↦ rw e (r e)
    | inr e ↦ rw e q
  ]

  pub Holds-if :
      {A : Type 0} (b : Bool) (m n : M E X A) → Holds m → Holds n → Holds (if b then m else n)
  Holds-if true m n k l = k
  Holds-if false m n k l = l
