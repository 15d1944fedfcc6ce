-- ===== src/Reconcile/Observed.antt =====
-- What ReconcileJob may ask for: it records what it sees and nothing else.
use orbitjob.Prelude.{◌≡◌, String, true, List, some}
use orbitjob.Prelude.Result.{Result, ok}
use orbitjob.Run.{Phase, succeeded, retry_waiting, running, creating_attempt}
use orbitjob.Execution.{
  Identity, Job, JobPhase, phase_succeeded, phase_failed, phase_running, phase_pending, phase,
  identity_from_job,
}
use orbitjob.Reconcile.{
  LedgerCall, update_attempt, update_run, record_terminal, read_outcome, record_completed, Call,
  ledger, cluster, Runtime,
}
use orbitjob.Reconcile.Observe.{run_phase}

-- The phase that a run records for the phase of its Job.
abbrev pub RecordedAs : JobPhase → Phase → Type 0
RecordedAs phase_succeeded p = p ≡ succeeded
RecordedAs phase_failed p = p ≡ retry_waiting
RecordedAs phase_running p = p ≡ running
RecordedAs phase_pending p = p ≡ creating_attempt

module _ (rt : Runtime) (job : Job) where
  -- The store reported that the phase of a run changed.
  abbrev pub Changed : Type 0
  Changed = (h : List Call) × (rt.env.phase_changed h ≡ true)

  abbrev pub ObservedLedger : LedgerCall → Type 0
  ObservedLedger (update_attempt name p uid version) =
      (name ≡ job.name)
      × RecordedAs (phase job) p
      × (uid ≡ job.uid)
      × (version ≡ job.resource_version)
  ObservedLedger (update_run run p attempt) =
      RecordedAs (phase job) p × ((h : List Call) × (rt.env.attempt_owner h ≡ (run, attempt)))
  ObservedLedger (record_terminal run p) = (p ≡ succeeded) × (phase job ≡ phase_succeeded) × Changed
  ObservedLedger (read_outcome run) = (phase job ≡ phase_succeeded) × Changed
  ObservedLedger (record_completed r) = (phase job ≡ phase_succeeded) × Changed
  ObservedLedger _ = ⊥

  -- Only of a Job that carries an identity, for the tenant of its namespace, and never of Kubernetes.
  abbrev pub ObservedOnly : Call → Type 0
  ObservedOnly (ledger tenant c) =
      (rt.resolve job.namespace ≡ some tenant)
      × ((i : Identity) × (identity_from_job (some job) ≡ ok i))
      × ObservedLedger c
  ObservedOnly (cluster namespace c) = ⊥

  module _ (tenant : String) (t : rt.resolve job.namespace ≡ some tenant) (i : Identity)
      (m : identity_from_job (some job) ≡ ok i) where
    abbrev O : Call → Type 0
    O = ObservedOnly

    abbrev p : Phase
    p = run_phase (phase job)
