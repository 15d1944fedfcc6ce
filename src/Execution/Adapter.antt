-- ===== src/Execution/Adapter.antt =====
-- Adapter: Ensure, Get and Delete over the Kubernetes Job API. The API is a parameter: calls on a
-- state of the cluster that answer with a value or an error. The check for an absent client is not
-- modelled.
use orbitjob.Prelude.{
  ◌≡◌, ◌≤◌, refl, sym, ap, ◌∙◌, Bool-cases, inl, inr, ◌||◌, Option, none, some, arith, eqb, length,
  Bytes, if◌then◌else◌,
}
use orbitjob.Prelude.Result.{Result, ok, err}
use orbitjob.Execution.{Job}

-- The errors that the program tells apart.
pub data ApiError : Type 0 where
  not_found already_exists other_error : ApiError

-- Get reads; Create and Delete may change the cluster.
pub record JobClient (S : Type 0) : Type 0 where
  pub get : Bytes → Bytes → S → Result ApiError Job
  pub create : Job → S → Result ApiError Job × S
  pub delete : Bytes → Bytes → S → Result ApiError (Unit {0}) × S

pub data EnsureError : Type 0 where
  no_identity : EnsureError
  api : ApiError → EnsureError

abbrev pub from_api : {A : Type 0} → Result ApiError A → Result EnsureError A
from_api (ok a) = ok a
from_api (err e) = err (api e)

module _ {S : Type 0} (c : JobClient S) where
  -- A lost race adopts the winner.
  abbrev pub adopt : Job → Result ApiError Job × S → Result EnsureError Job × S
  adopt desired (ok job, s) = (ok job, s)
  adopt desired (err already_exists, s) = (from_api (c.get desired.namespace desired.name s), s)
  adopt desired (err e, s) = (err (api e), s)

  abbrev pub create_missing : Job → Result ApiError Job → S → Result EnsureError Job × S
  create_missing desired (ok job) s = (ok job, s)
  create_missing desired (err not_found) s = adopt desired (c.create desired s)
  create_missing desired (err e) s = (err (api e), s)

  unfoldable pub ensure : Job → S → Result EnsureError Job × S
  ensure desired s =
      if eqb (length desired.name) 0 || eqb (length desired.namespace) 0
      then (err no_identity, s)
      else create_missing desired (c.get desired.namespace desired.name s) s

  abbrev pub found : Result ApiError Job → Result ApiError (Option Job)
  found (ok job) = ok (some job)
  found (err not_found) = ok none
  found (err e) = err e

  unfoldable pub get : Bytes → Bytes → S → Result ApiError (Option Job)
  get namespace name s = found (c.get namespace name s)

  abbrev pub gone : Result ApiError (Unit {0}) × S → Result ApiError (Unit {0}) × S
  gone (err not_found, s) = (ok tt, s)
  gone r = r

  unfoldable pub delete : Bytes → Bytes → S → Result ApiError (Unit {0}) × S
  delete namespace name s = gone (c.delete namespace name s)

  ok_of :
      {j job : Job}
      → ◌≡◌ {A = Result EnsureError Job} (ok j) (ok job)
      → ◌≡◌ {A = Result ApiError Job} (ok j) (ok job)
  ok_of e = cc

  -- What an Ensure returned can be read where it looked for it.
  read_back :
      (desired job : Job) (r : Result ApiError Job) (s t : S)
      → ((s t : S) (j : Job)
          → c.create desired s ≡ (ok j, t)
          → c.get desired.namespace desired.name t ≡ ok j)
      → c.get desired.namespace desired.name s ≡ r
      → create_missing desired r s ≡ (ok job, t)
      → c.get desired.namespace desired.name t ≡ ok job
  read_back desired job (ok j) s t k g e = ground arith
  read_back desired job (err already_exists) s t k g e = ground arith
  read_back desired job (err other_error) s t k g e = ground arith
  read_back desired job (err not_found) s t k g e = adopted (c.create desired s) refl e
    where
      looked :
          (q : Result ApiError Job) (u : S)
          → c.get desired.namespace desired.name u ≡ q
          → ◌≡◌ {A = Result EnsureError Job × S} (from_api q, u) (ok job, t)
          → c.get desired.namespace desired.name t ≡ ok job
      looked (ok j) u q e = rw (sym (ap (λ w. w.1) e)) (rw q (ok_of (ap (λ w. w.0) e)))
      looked (err x) u q e = ground arith

      adopted :
          (p : Result ApiError Job × S)
          → c.create desired s ≡ p
          → adopt desired p ≡ (ok job, t)
          → c.get desired.namespace desired.name t ≡ ok job
      adopted (ok j, u) q e = rw (sym (ap (λ w. w.1) e)) (k s u j q ∙ ok_of (ap (λ w. w.0) e))
      adopted (err already_exists, u) q e = looked _ u refl e
      adopted (err not_found, u) q e = ground arith
      adopted (err other_error, u) q e = ground arith

  -- An Ensure that succeeded is repeated without a change: with an API that finds a Job it has just
  -- created, a second Ensure returns the same Job and leaves the cluster as it is.
  pub ensure_idem :
      (desired job : Job) (s t : S)
      → ((s t : S) (j : Job)
          → c.create desired s ≡ (ok j, t)
          → c.get desired.namespace desired.name t ≡ ok j)
      → ensure desired s ≡ (ok job, t)
      → ensure desired t ≡ (ok job, t)
  unfolding ensure
  ensure_idem desired job s t k e =
      elim (Bool-cases (eqb (length desired.name) 0 || eqb (length desired.namespace) 0)) [
        | inl blank ↦ absurd (ground arith)
        | inr named ↦ rw (named, read_back desired job _ s t k refl (ground arith)) refl
      ]

  -- Where the Job is there already, Ensure returns it and creates nothing.
  pub ensure_adopts :
      (desired job : Job) (s : S)
      → c.get desired.namespace desired.name s ≡ ok job
      → (1 ≤ length desired.name)
      → (1 ≤ length desired.namespace)
      → ensure desired s ≡ (ok job, s)
  unfolding ensure
  ensure_adopts desired job s g a b = ground arith
