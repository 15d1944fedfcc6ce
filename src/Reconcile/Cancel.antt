-- ===== src/Reconcile/Cancel.antt =====
-- reconcileCancellation of cancel.go: from the request to the observed end of the Job.
use orbitjob.Prelude.{
  ℕ, ◌+◌, String, Bool, true, false, [], Option, none, some, Bytes, eqb, ltb, if◌then◌else◌,
}
use orbitjob.Prelude.Result.{Result, ok, err}
use orbitjob.Trace.{throw, ◌>>=◌, ◌>>◌}
use orbitjob.Run.{
  Phase, canceled, cancel_unknown, JobRun, StoredRun, TransitionError, request_cancel,
  is_cancel_requested,
}
use orbitjob.Execution.{Job, job_name}
use orbitjob.Reconcile.{
  RunResource, ledger, cluster, update_attempt, get_job, delete_job, Runtime, not_cancelable, R,
  ask, in_phase, write_run, patch_run_status,
}
use orbitjob.Reconcile.Outcomes.{record_function_outcome}

-- Five minutes.
abbrev pub cancel_confirm_timeout : ℕ
cancel_confirm_timeout = 300000000000

abbrev pub with_phase : StoredRun → Phase → StoredRun
with_phase s p = record s { phase = p }

-- The run name and the attempt number are all that a Job's name depends on.
unfoldable pub attempt_job_name : Runtime → RunResource → ℕ → Bytes
unfolding job_name
attempt_job_name rt obj attempt =
    job_name rt.digest
      (record { run_name = obj.name; run_uid = []; revision_id = []; attempt = attempt })

-- The end of both ways to a stop that is a fact.
unfoldable pub record_canceled : Runtime → String → RunResource → StoredRun → ℕ → R (Unit {0})
unfolding record_function_outcome write_run patch_run_status
record_canceled rt tenant obj s attempt = write_run rt tenant s.id canceled attempt >>= λ changed.
    record_function_outcome rt tenant s.id canceled changed
    >> patch_run_status rt obj (with_phase s canceled)

unfoldable pub stop_overdue : Runtime → String → RunResource → StoredRun → Bool → R (Unit {0})
unfolding write_run patch_run_status
stop_overdue rt tenant obj s false = patch_run_status rt obj s
stop_overdue rt tenant obj s true = write_run rt tenant s.id cancel_unknown s.attempt >>= λ changed.
    patch_run_status rt obj (with_phase s cancel_unknown)

-- From the deletion timestamp: the deletion is not registered yet, takes too long, or is in flight.
unfoldable pub stop_pending : Runtime → String → RunResource → StoredRun → Option ℕ → R (Unit {0})
unfolding stop_overdue patch_run_status
stop_pending rt tenant obj s none = patch_run_status rt obj s
stop_pending rt tenant obj s (some deleted) =
    λ h. stop_overdue rt tenant obj s (ltb (deleted + cancel_confirm_timeout) (rt.env.now h)) h

-- From the observation of the Job, which is none when it is gone.
unfoldable pub stop_observed :
    Runtime → String → RunResource → StoredRun → Option Job → R (Unit {0})
unfolding record_canceled attempt_job_name stop_pending
stop_observed rt tenant obj s none =
    ask rt (ledger tenant (update_attempt (attempt_job_name rt obj s.attempt) canceled "" ""))
    >> record_canceled rt tenant obj s s.attempt
stop_observed rt tenant obj s (some job) = stop_pending rt tenant obj s job.deleted_at

unfoldable pub stop_job : Runtime → String → RunResource → StoredRun → R (Unit {0})
unfolding stop_observed attempt_job_name
stop_job rt tenant obj s =
    ask rt (cluster obj.namespace (delete_job (attempt_job_name rt obj s.attempt)))
    >> (ask rt (cluster obj.namespace (get_job (attempt_job_name rt obj s.attempt))) >> λ h.
        stop_observed rt tenant obj s (rt.env.live_job h) h)

unfoldable pub stop_requested :
    Runtime → String → RunResource → StoredRun → Result TransitionError JobRun → R (Unit {0})
unfolding stop_job write_run
stop_requested rt tenant obj s (err e) = throw not_cancelable
stop_requested rt tenant obj s (ok requested) =
    write_run rt tenant s.id requested.phase s.attempt >>= λ changed.
    stop_job rt tenant obj (with_phase s requested.phase)

unfoldable pub reconcile_cancellation : Runtime → String → RunResource → StoredRun → R (Unit {0})
unfolding stop_requested record_canceled request_cancel
reconcile_cancellation rt tenant obj s =
    if eqb s.attempt 0
    then record_canceled rt tenant obj s 0
    else if is_cancel_requested s.phase
    then stop_job rt tenant obj s
    else λ h. stop_requested rt tenant obj s (request_cancel (in_phase s.phase) (rt.env.now h)) h
