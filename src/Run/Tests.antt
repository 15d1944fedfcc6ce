-- ===== src/Run/Tests.antt =====
-- The lifecycle theorems at a concrete run of internal/core/domain/jobrun.
use orbitjob.Prelude.{◌≡◌, refl, true, []}
use orbitjob.Prelude.Int.{pos}
use orbitjob.Run.{
  Phase, pending, retry_waiting, cancel_requested, canceled, schedule, JobRun, Attempt, StoredRun,
  can_transition, transition, can_start_attempt, next_attempt,
}
use orbitjob.Run.Lifecycle.{Reaches, here, step}
use orbitjob.Run.Attempts.{Loaded}

abbrev run_in : Phase → JobRun
run_in p = record {
  id = "7";
  source_uid = "uid-1";
  revision_id = "3";
  occurrence_key = "key-1";
  revision_generation = pos 1;
  attempt = pos 1;
  trigger = schedule;
  phase = p;
  scheduled_for = 60;
}

abbrev second_attempt : Attempt
second_attempt = record {
  id = "";
  job_run_id = "7";
  kubernetes_job_name = [];
  kubernetes_job_uid = "";
  observed_resource_version = "";
  number = pos 2;
  phase = pending;
  started_at = 0;
}

abbrev waiting_row : StoredRun
waiting_row = record {
  id = 7;
  revision_id = 3;
  phase = retry_waiting;
  attempt = 1;
  max_attempts = 3;
  epoch = 0;
  scheduled_for = 60;
}

-- pending, then a stop request, then the confirmed stop.
to_request : Reaches (run_in pending) (run_in cancel_requested)
unfolding transition can_transition
to_request = step cancel_requested here refl

to_canceled : Reaches (run_in pending) (run_in canceled)
unfolding transition can_transition
to_canceled = step canceled to_request refl

loaded : Loaded waiting_row (run_in retry_waiting) second_attempt
loaded = record { same_phase = refl; same_run = refl; numbered = unfold next_attempt in refl }

may_start : can_start_attempt waiting_row ≡ true
unfolding can_start_attempt
may_start = refl
