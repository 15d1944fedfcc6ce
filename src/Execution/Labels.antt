-- ===== src/Execution/Labels.antt =====
-- The labels of a Job carry the identity of the attempt: what BuildJob writes, ValidateOwnership
-- accepts and IdentityFromJob reads back.
use orbitjob.Prelude.{
  ℕ, ◌≤◌, ◌<◌, ◌≡◌, refl, ◌∙◌, ◌≢◌, false, [], ◌∷◌, some, arith, Bytes, same_iff, eqb, length,
}
use orbitjob.Prelude.Result.{ok}
use orbitjob.Execution.{
  atoi, itoa, Identity, label, label_run_name, label_run_uid, label_revision_id, label_attempt,
  Template, Job, job_labels, build_job, validate_ownership, identity_from_job,
}
use orbitjob.Execution.Digits.{atoi-itoa, int_bound}
use orbitjob.Execution.Names.{Numbered}

module _ (i : Identity) where
  labeled_run_name : label label_run_name (job_labels i) ≡ i.run_name
  unfolding label job_labels
  labeled_run_name = refl

  labeled_run_uid : label label_run_uid (job_labels i) ≡ i.run_uid
  unfolding label job_labels
  labeled_run_uid = refl

  labeled_revision_id : label label_revision_id (job_labels i) ≡ i.revision_id
  unfolding label job_labels
  labeled_revision_id = refl

  labeled_attempt : label label_attempt (job_labels i) ≡ itoa i.attempt
  unfolding label job_labels
  labeled_attempt = refl

length-itoa_positive : (n : ℕ) → 1 ≤ n → n < int_bound → eqb (length (itoa n)) 0 ≡ false
length-itoa_positive n h l = nonempty (itoa n) (atoi-itoa n h l)
  where
    nonempty : (s : Bytes) → atoi s ≡ some n → eqb (length s) 0 ≡ false
    nonempty [] e = unfold atoi in absurd (ground arith)
    nonempty (c ∷ s) e = ground arith

named_length : (s : Bytes) → s ≢ [] → eqb (length s) 0 ≡ false
named_length [] h = absurd (h refl)
named_length (c ∷ s) h = ground arith

-- A Job that carries the run name and the attempt number is read as theirs.
labeled_identity :
    (job : Job) (i : Identity)
    → Numbered i
    → i.run_name ≢ []
    → label label_run_name job.labels ≡ i.run_name
    → label label_attempt job.labels ≡ itoa i.attempt
    → identity_from_job (some job)
      ≡ ok (record {
        run_name = label label_run_name job.labels;
        run_uid = label label_run_uid job.labels;
        revision_id = label label_revision_id job.labels;
        attempt = i.attempt;
      })
labeled_identity job i n h e f =
    let named : eqb (length (label label_run_name job.labels)) 0 ≡ false =
      rw e (named_length i.run_name h) in
    let numbered : eqb (length (label label_attempt job.labels)) 0 ≡ false =
      rw f (length-itoa_positive i.attempt n.positive n.fits) in
    let read : atoi (label label_attempt job.labels) ≡ some i.attempt =
      rw f (atoi-itoa i.attempt n.positive n.fits) in
    unfold identity_from_job in rw (named, numbered, read) refl

-- A Job with the labels of an identity passes its ownership check.
pub owned_labeled :
    (job : Job) (i : Identity) → job.labels ≡ job_labels i → validate_ownership (some job) i ≡ ok tt
owned_labeled job i e =
    let run : label label_run_name job.labels ≡ i.run_name = rw e (labeled_run_name i) in
    let uid : label label_run_uid job.labels ≡ i.run_uid = rw e (labeled_run_uid i) in
    let attempt : label label_attempt job.labels ≡ itoa i.attempt = rw e (labeled_attempt i) in
    unfold validate_ownership in
    rw (run, uid, attempt)
      (ground (
        arith,
        same_iff i.run_name i.run_name,
        same_iff i.run_uid i.run_uid,
        same_iff (itoa i.attempt) (itoa i.attempt),
      ))

-- A Job that BuildJob makes for a named run and a positive attempt passes the ownership check of
-- that identity, and reading its labels gives the identity back.
pub identity_from_job-build_job :
    (digest : Bytes → Bytes) (i : Identity) (namespace : Bytes) (t : Template)
    → Numbered i
    → i.run_name ≢ []
    → (validate_ownership (some (build_job digest i namespace t)) i ≡ ok tt)
      × (identity_from_job (some (build_job digest i namespace t)) ≡ ok i)
identity_from_job-build_job digest i namespace t n h = (
  owned_labeled (build_job digest i namespace t) i (unfold build_job in refl),
  labeled_identity (build_job digest i namespace t) i n h (unfold build_job in labeled_run_name i)
        (unfold build_job in labeled_attempt i)
      ∙ (unfold build_job in unfold label job_labels in refl),
)

owned_labels :
    (job : Job) (i : Identity)
    → validate_ownership (some job) i ≡ ok tt
    → (label label_run_name job.labels ≡ i.run_name)
      × (label label_attempt job.labels ≡ itoa i.attempt)
unfolding validate_ownership
owned_labels job i v = ground (
  arith,
  same_iff (label label_run_name job.labels) i.run_name,
  same_iff (label label_attempt job.labels) (itoa i.attempt),
)

-- A Job that passes the ownership check of a named run's positive attempt is read as that run's and
-- that attempt's.
pub owned_job_identity :
    (job : Job) (i : Identity)
    → Numbered i
    → i.run_name ≢ []
    → validate_ownership (some job) i ≡ ok tt
    → (j : Identity) × (identity_from_job (some job) ≡ ok j)
      × (j.run_name ≡ i.run_name)
      × (j.attempt ≡ i.attempt)
owned_job_identity job i n h v =
    let (e, f) = owned_labels job i v in (_, labeled_identity job i n h e f, e, refl)
