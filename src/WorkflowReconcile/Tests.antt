-- ===== src/WorkflowReconcile/Tests.antt =====
-- A workflow of two tasks, the second after the first, in an environment that accepts every call.
use orbitjob.Prelude.{◌≡◌, refl, Bool, true, false, [], ◌∷◌, Option, none, some, All, length, map}
use orbitjob.Prelude.Int.{pos}
use orbitjob.Run.{Phase, Trigger}
use orbitjob.Workflow.{WorkflowPhase, WorkflowRun, StepRun}
use orbitjob.WorkflowReconcile.{status_of, reconcile_workflow_run}
use orbitjob.WorkflowReconcile.Spec.{WorkflowSpec, RunResource, Runtime}
use orbitjob.WorkflowReconcile.Calls.{Allowed, reconcile_workflow_run-Allowed}
use orbitjob.WorkflowReconcile.Status.{Reported, status_of-Reported}

abbrev two_tasks : WorkflowSpec
two_tasks = record {
  fail_policy = "";
  timeout_seconds = pos 0;
  tasks =
      (record { name = "build"; job_ref = "job-a"; depends_on = []; condition = none })
      ∷ ((record { name = "ship"; job_ref = "job-b"; depends_on = "build" ∷ []; condition = none })
          ∷ []);
}

abbrev run_in : WorkflowPhase → WorkflowRun
run_in p = record {
  id = 5;
  tenant_id = "tenant-1";
  source_uid = "wf-1";
  revision_id = 3;
  occurrence_key = "key-1";
  trigger = Trigger.manual;
  actor = "ann";
  phase = p;
  task_decisions = [];
  created_at = 60;
  updated_at = 61;
}

abbrev build_step : StepRun
build_step = record {
  id = 8;
  workflow_run_id = 5;
  source_uid = "uid-a";
  revision_id = 2;
  occurrence_key = "wfstep|wf-1|key-1|build";
  trigger = Trigger.workflow;
  phase = Phase.running;
  attempt = pos 1;
  created_at = 60;
  updated_at = 61;
}

abbrev object : Bool → RunResource
object cancel = record {
  name = "release-key-1";
  namespace = "team";
  spec = some (record {
    workflow_name = "release";
    workflow_uid = "wf-1";
    definition_revision = 3;
    trigger = Trigger.manual;
    actor = "ann";
    occurrence_key = "key-1";
    cancel_requested = cancel;
  });
}

abbrev runtime : Option WorkflowRun → Runtime
runtime found = record {
  env = record {
    accepts = λ h c. true;
    found_run = λ h. found;
    revision = λ h. record { id = 3; source_uid = "wf-1"; declared = some two_tasks };
    created_run = λ h. run_in WorkflowPhase.pending;
    steps = λ h. build_step ∷ [];
  };
  resolve = λ namespace. some "tenant-1";
  trim = λ s. s;
  digest = λ s. s;
}

creates_and_shows : length (reconcile_workflow_run (runtime none) (object false) []).1 ≡ 6
unfolding reconcile_workflow_run
creates_and_shows = refl

records_stop :
    length
      (reconcile_workflow_run (runtime (some (run_in WorkflowPhase.running))) (object true) []).1
    ≡ 5
unfolding reconcile_workflow_run
records_stop = refl

reconcile_workflow_run-Allowed_example :
    All
      (Allowed (runtime none) (object false))
      (reconcile_workflow_run (runtime none) (object false) []).1
reconcile_workflow_run-Allowed_example =
    reconcile_workflow_run-Allowed (runtime none) (object false)

status_of-Reported_example :
    (map
        (λ e. e.task)
        (status_of (runtime none) (run_in WorkflowPhase.running) (build_step ∷ []) two_tasks).steps
      ≡ map (λ t. t.name) two_tasks.tasks)
    × All
        (Reported (runtime none) (run_in WorkflowPhase.running) (build_step ∷ []))
        (status_of (runtime none) (run_in WorkflowPhase.running) (build_step ∷ []) two_tasks).steps
status_of-Reported_example =
    status_of-Reported (runtime none) (run_in WorkflowPhase.running) (build_step ∷ []) two_tasks
