-- ===== src/Reconcile/Tests.antt =====
-- A run of one attempt so far, in an environment that accepts every call.
use orbitjob.Prelude.{◌≡◌, refl, Bool, true, false, [], ◌∷◌, Option, none, some, arith, All, codes}
use orbitjob.Prelude.Int.{pos}
use orbitjob.Prelude.Result.{ok, err}
use orbitjob.Run.{Phase, retry_waiting, cancel_unknown, Trigger, StoredRun}
use orbitjob.Execution.{Job, job_labels, itoa, job_complete}
use orbitjob.Reconcile.{
  RunSpec, RunResource, Declared, ledger, read_run, accepted, Runtime, not_cancelable,
}
use orbitjob.Reconcile.Drive.{decode_spec, attempt_identity, reconcile_job_run}
use orbitjob.Reconcile.Calls.{StartsAllowed, CreatesDeclared, StopsConfirmed, InScope}
use orbitjob.Reconcile.Licensed.{
  reconcile_job_run-StartsAllowed, reconcile_job_run-CreatesDeclared,
  reconcile_job_run-StopsConfirmed, reconcile_job_run-InScope,
}
use orbitjob.Reconcile.Stuck.{unconfirmed_stop_refused}
use orbitjob.Reconcile.Progress.{Answers, written, startable_run_starts}

abbrev stored_in : Phase → StoredRun
stored_in p = record {
  id = 7;
  revision_id = 3;
  phase = p;
  attempt = 1;
  max_attempts = 2;
  epoch = 0;
  scheduled_for = 60;
}

abbrev spec_of : Bool → RunSpec
spec_of cancel = record {
  source_uid = "uid-1";
  definition_revision = 3;
  trigger = Trigger.manual;
  actor = "ann";
  occurrence_key = "key-1";
  timeout_seconds = pos 60;
  cancel_requested = cancel;
}

abbrev object : Bool → RunResource
object cancel = record {
  name = codes "report-1";
  namespace = codes "team";
  uid = codes "u-7";
  spec = some (spec_of cancel);
}

abbrev declared : Declared
declared = record {
  image = "img";
  command = [];
  args = [];
  backoff_limit = pos 0;
  max_attempts = pos 2;
}

-- The Job of the second attempt, complete.
abbrev job : Job
job = record {
  name = codes "oj-report-1-2";
  namespace = codes "team";
  labels = job_labels (record {
    run_name = codes "report-1";
    run_uid = codes "u-7";
    revision_id = itoa 3;
    attempt = 2;
  });
  uid = "job-uid";
  resource_version = "9";
  deleted_at = none;
  backoff_limit = pos 0;
  pod_labels = [];
  automount_service_account_token = false;
  restart_policy = orbitjob.Execution.never;
  container_name = "task";
  image = "img";
  command = [];
  args = [];
  active_deadline_seconds = some (pos 60);
  conditions = (record { type = job_complete; holds = true }) ∷ [];
  active = 0;
}

abbrev runtime : Option StoredRun → Runtime
runtime found = record {
  env = record {
    verdict = λ h c. accepted;
    found_run = λ h. found;
    created_run = λ h. stored_in Phase.pending;
    revision = λ h. record { id = 3; source_uid = "uid-1"; declared = some declared };
    ensured = λ h. some job;
    live_job = λ h. none;
    phase_changed = λ h. true;
    attempt_owner = λ h. (7, 2);
    outcome = λ h. record {
      run_id = 7;
      source_uid = "uid-1";
      occurrence_key = "key-1";
      phase = Phase.succeeded;
      scheduled_for = 60;
      started_at = 61;
      completed_at = 62;
    };
    now = λ h. 100;
  };
  resolve = λ namespace. some "tenant-1";
  records_outcomes = true;
  records_functions = true;
  trim = λ s. s;
  digest = λ s. s;
  function_run_id = λ s. s;
}

abbrev waiting : Runtime
waiting = runtime (some (stored_in retry_waiting))

decoded :
    (found : Option StoredRun) (cancel : Bool)
    → decode_spec (runtime found) (some (spec_of cancel)) ≡ ok (spec_of cancel)
unfolding decode_spec
decoded found cancel = refl

reconcile_job_run-StartsAllowed_example :
    All (StartsAllowed waiting (object false)) (reconcile_job_run waiting (object false) []).1
reconcile_job_run-StartsAllowed_example = reconcile_job_run-StartsAllowed waiting (object false)

reconcile_job_run-CreatesDeclared_example :
    All
      (CreatesDeclared (runtime none) (object false))
      (reconcile_job_run (runtime none) (object false) []).1
reconcile_job_run-CreatesDeclared_example =
    reconcile_job_run-CreatesDeclared (runtime none) (object false)

reconcile_job_run-StopsConfirmed_example :
    All (StopsConfirmed waiting (object true)) (reconcile_job_run waiting (object true) []).1
reconcile_job_run-StopsConfirmed_example = reconcile_job_run-StopsConfirmed waiting (object true)

reconcile_job_run-InScope_example :
    All (InScope waiting (object true)) (reconcile_job_run waiting (object true) []).1
reconcile_job_run-InScope_example = reconcile_job_run-InScope waiting (object true)

unconfirmed_stop_refused_example :
    reconcile_job_run (runtime (some (stored_in cancel_unknown))) (object true) []
    ≡ (err not_cancelable, ledger "tenant-1" (read_run "uid-1" "key-1") ∷ [])
unconfirmed_stop_refused_example =
    unconfirmed_stop_refused (runtime (some (stored_in cancel_unknown))) (object true)
      (spec_of true) "tenant-1" (stored_in cancel_unknown)
      (decoded (some (stored_in cancel_unknown)) true) refl refl refl refl refl (omega arith)

answers : Answers waiting (object false) (stored_in retry_waiting) declared job
unfolding attempt_identity
answers = record {
  accepts = λ h c. refl;
  finds = λ h. refl;
  declares = λ h. refl;
  ensures = λ h. refl;
  labeled = λ h. refl;
  has_uid = refl;
}

startable_run_starts_example : reconcile_job_run waiting (object false) [] ≡ (
  ok tt,
  written waiting
      (object false)
      (spec_of false)
      "tenant-1"
      (stored_in retry_waiting)
      declared
      job
      answers,
)
startable_run_starts_example =
    startable_run_starts waiting (object false) (spec_of false) "tenant-1" (stored_in retry_waiting)
      declared job answers (decoded (some (stored_in retry_waiting)) false) refl may_start refl
  where
    may_start : orbitjob.Run.can_start_attempt (stored_in retry_waiting) ≡ true
    may_start = unfold orbitjob.Run.can_start_attempt in refl
