-- ===== src/Reconcile/Observe.antt =====
-- ReconcileJob and executionMapToRunPhase of job_handler.go.
use orbitjob.Prelude.{ℕ, String, Option, none, some}
use orbitjob.Prelude.Result.{Result, ok, err}
use orbitjob.Trace.{pure, throw, ◌>>◌}
use orbitjob.Run.{Phase, creating_attempt, running, retry_waiting, succeeded}
use orbitjob.Execution.{
  Identity, Job, JobPhase, phase_pending, phase_running, phase_succeeded, phase_failed, phase,
  IdentityError, identity_from_job,
}
use orbitjob.Reconcile.{
  ledger, update_attempt, Runtime, no_tenant, undecodable_job, R, ask, unless, is_run_over,
  is_no_attempt, write_run,
}
use orbitjob.Reconcile.Outcomes.{record_outcome, record_function_outcome}

unfoldable pub run_phase : JobPhase → Phase
run_phase phase_succeeded = succeeded
run_phase phase_failed = retry_waiting
run_phase phase_running = running
run_phase phase_pending = creating_attempt

unfoldable pub observe_run : Runtime → String → Phase → ℕ × ℕ → R (Unit {0})
unfolding write_run record_outcome record_function_outcome
observe_run rt tenant p (run, attempt) = λ h.
    unless is_run_over (write_run rt tenant run p attempt h) λ changed.
      record_outcome rt tenant run p changed >> record_function_outcome rt tenant run p changed

unfoldable pub observe_attempt : Runtime → String → Job → Phase → R (Unit {0})
unfolding observe_run
observe_attempt rt tenant job p = λ h.
    unless is_no_attempt
      (ask rt (ledger tenant (update_attempt job.name p job.uid job.resource_version)) h)
      λ u k. observe_run rt tenant p (rt.env.attempt_owner k) k

abbrev pub observe_managed :
    Runtime → Job → Result IdentityError Identity → Option String → R (Unit {0})
observe_managed rt job (err e) tenant = pure tt
observe_managed rt job (ok i) none = throw no_tenant
observe_managed rt job (ok i) (some tenant) = observe_attempt rt tenant job (run_phase (phase job))

-- An object that does not decode is none.
unfoldable pub reconcile_job : Runtime → Option Job → R (Unit {0})
unfolding observe_attempt identity_from_job run_phase phase
reconcile_job rt none = throw undecodable_job
reconcile_job rt (some job) =
    observe_managed rt job (identity_from_job (some job)) (rt.resolve job.namespace)
