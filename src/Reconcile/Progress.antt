-- ===== src/Reconcile/Progress.antt =====
-- A run that may start an attempt does.
use orbitjob.Prelude.{◌≡◌, refl, String, true, false, ◌||◌, List, [], ◌∷◌, some, arith, ◌==◌}
use orbitjob.Prelude.Result.{ok}
use orbitjob.Run
use orbitjob.Run.{
  Phase, running, StoredRun, is_cancel_requested, next_attempt, attempt_in_flight,
  can_start_attempt,
}
use orbitjob.Execution.{Job, job_labels, build_job}
use orbitjob.Execution.Labels.{owned_labeled}
use orbitjob.Reconcile.{
  RunSpec, RunResource, Declared, Call, ledger, cluster, read_run, read_revision, create_attempt,
  ensure_job, patch_run, accepted, Runtime, patch_run_status,
}
use orbitjob.Reconcile.Drive.{
  decode_spec, new_attempt, adopt_job, attempt_identity, template, start_declared, start_next,
  drive_run, drive_found, reconcile_spec, reconcile_job_run,
}

-- An environment that accepts every call and answers with this run, its revision and this Job, which
-- has a uid and the labels of the run's next attempt.
pub record Answers (rt : Runtime) (obj : RunResource) (s : StoredRun) (d : Declared) (job : Job)
    : Type 0 where
  pub accepts : (h : List Call) (c : Call) → rt.env.verdict h c ≡ accepted
  pub finds : (h : List Call) → rt.env.found_run h ≡ some s
  pub declares : (h : List Call) → (rt.env.revision h).declared ≡ some d
  pub ensures : (h : List Call) → rt.env.ensured h ≡ some job
  pub labeled :
      (h : List Call) → job.labels ≡ job_labels (attempt_identity obj (rt.env.revision h) s)
  pub has_uid : (job.uid == "") ≡ false

module _ (rt : Runtime) (obj : RunResource) (spec : RunSpec) (tenant : String) (s : StoredRun)
    (d : Declared) (job : Job) (env : Answers rt obj s d job) where
  -- The requests before the Job, and all of them; the newest stand first.
  abbrev pub read : List Call
  read =
      ledger tenant (read_revision s.revision_id)
      ∷ (ledger tenant (read_run spec.source_uid spec.occurrence_key) ∷ [])

  abbrev pub ensured : List Call
  ensured =
      cluster obj.namespace (
        ensure_job (
          build_job rt.digest (attempt_identity obj (rt.env.revision read) s) obj.namespace
            (template d spec.timeout_seconds)))
      ∷ read

  abbrev pub written : List Call
  written =
      cluster obj.namespace (patch_run obj.name running (next_attempt s))
      ∷ (ledger tenant
            (create_attempt s.id (new_attempt job (next_attempt s) (rt.env.now ensured)) running)
          ∷ ensured)

  adopted : adopt_job rt tenant obj s (some job) (ok tt) ensured ≡ (ok tt, written)
  unfolding adopt_job patch_run_status
  adopted = rw (env.has_uid, env.accepts, env.accepts) refl

  abbrev first : List Call
  first = ledger tenant (read_run spec.source_uid spec.occurrence_key) ∷ []

  run_started : start_next rt tenant obj spec s first ≡ (ok tt, written)
  run_started =
      unfold start_next start_declared in
      rw
        (
          env.accepts,
          env.declares,
          env.accepts,
          env.ensures,
          owned_labeled job (attempt_identity obj (rt.env.revision read) s) (env.labeled read),
        )
        adopted

  may_start :
      can_start_attempt s ≡ true → (Run.terminal s.phase ≡ false) × (attempt_in_flight s ≡ false)
  unfolding can_start_attempt Run.terminal
  may_start c = (ground arith, ground arith)

  -- Where every call is accepted, and the ledger answers with a run that may start an attempt and
  -- that nobody asks to stop, one reconciliation succeeds and does exactly this: it reads the run and
  -- its revision, ensures the Job of the next attempt, writes the attempt with that Job's uid and the
  -- run's advance to running, and patches the status.
  pub startable_run_starts :
      decode_spec rt obj.spec ≡ ok spec
      → rt.resolve obj.namespace ≡ some tenant
      → can_start_attempt s ≡ true
      → (is_cancel_requested s.phase || spec.cancel_requested) ≡ false
      → reconcile_job_run rt obj [] ≡ (ok tt, written)
  startable_run_starts e t c n =
      let (over, flight) = may_start c in
      unfold reconcile_job_run reconcile_spec drive_found drive_run in
      rw (e, t, env.accepts, env.finds, over, n, c, flight) run_started
