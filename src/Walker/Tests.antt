-- ===== src/Walker/Tests.antt =====
-- Passes over the workflow of three tasks.
use orbitjob.Prelude.{ℕ, ◌≡◌, refl, String, true, false, ◌||◌, [], ◌∷◌, none, some, All}
use orbitjob.Prelude.Int.{pos}
use orbitjob.Run.{Phase, Trigger}
use orbitjob.Workflow.{WorkflowPhase, terminal, StepRun, WorkflowRun}
use orbitjob.Workflow.Tests.{pipeline}
use orbitjob.Walker.Facts.{Definition, definition_index}
use orbitjob.Walker.Sweep.{Writer}
use orbitjob.Walker.Advance.{Pass, canceling, fail_fast_tripped, deadline_passed, advance_run}
use orbitjob.Walker.Justified.{new_work, stopped_run_starts_nothing}
use orbitjob.Walker.Tick.{WorkflowWalker, tick_workflows}
use orbitjob.Prelude.Result.{ok}
use orbitjob.Walker.Requests.{Honest, advance_run_records_honestly}

abbrev definition : ℕ → String → Definition
definition id name = record {
  id = id;
  source_uid = name;
  namespace = "team";
  name = name;
  spec = some (record { max_attempts = pos 1; timeout_seconds = pos 0 });
}

-- Every request is accepted and changes its row; the digest is the text itself.
abbrev writer : Writer
writer = record {
  oracle = record { accepts = λ h e. true; changes = λ h. true };
  digest = λ s. s;
  actor = "walker";
  index =
      definition_index
        (definition 1 "build-job" ∷ definition 2 "test-job" ∷ definition 3 "ship-job" ∷ []) [];
  source_uid = "wf";
  occurrence_key = "occ";
}

abbrev run_in : WorkflowPhase → WorkflowRun
run_in p = record {
  id = 5;
  tenant_id = "team";
  source_uid = "wf";
  revision_id = 9;
  occurrence_key = "occ";
  trigger = Trigger.workflow;
  actor = "alice";
  phase = p;
  task_decisions = [];
  created_at = 0;
  updated_at = 0;
}

abbrev build_step : Phase → StepRun
build_step p = record {
  id = 6;
  workflow_run_id = 5;
  source_uid = "build-job";
  revision_id = 1;
  occurrence_key = "wfstep|wf|occ|build";
  trigger = Trigger.workflow;
  phase = p;
  attempt = pos 1;
  created_at = 0;
  updated_at = 0;
}

abbrev pass : WorkflowPhase → Phase → Pass
pass p q = record {
  writer = writer;
  run = run_in p;
  dag = pipeline;
  steps = build_step q ∷ [];
  timing = none;
  now = 1000000000;
  projects = true;
}

stopping :
    (canceling (pass WorkflowPhase.cancel_requested Phase.running)
      || (fail_fast_tripped (pass WorkflowPhase.cancel_requested Phase.running)
          || deadline_passed (pass WorkflowPhase.cancel_requested Phase.running)))
    ≡ true
unfolding canceling
stopping = refl

still_open : terminal WorkflowPhase.running ≡ false
unfolding terminal
still_open = refl

stopped_run_starts_nothing_example :
    All
      (λ e. new_work e ≡ false)
      (advance_run (pass WorkflowPhase.cancel_requested Phase.running) []).1
stopped_run_starts_nothing_example =
    stopped_run_starts_nothing (pass WorkflowPhase.cancel_requested Phase.running) stopping

advance_run_records_honestly_example :
    All
      (Honest (pass WorkflowPhase.running Phase.succeeded))
      (advance_run (pass WorkflowPhase.running Phase.succeeded) []).1
advance_run_records_honestly_example =
    advance_run_records_honestly (pass WorkflowPhase.running Phase.succeeded) still_open

-- A walker over one tenant with one open run, of the same workflow.
abbrev walker : WorkflowWalker
walker = record {
  env = record {
    accepts = λ h c. true;
    open_runs = λ h. run_in WorkflowPhase.running ∷ [];
    definitions =
        λ h. definition 1 "build-job" ∷ definition 2 "test-job" ∷ definition 3 "ship-job" ∷ [];
    pinned = λ h. some pipeline;
    steps = λ h. [];
    oracle = λ h. record { accepts = λ g e. true; changes = λ g. true };
    now = λ h. 1000000000;
  };
  digest = λ s. s;
  actor = "";
  timing = none;
  projects = true;
}

idle : tick_workflows walker [] [] ≡ (ok 0, [])
unfolding tick_workflows
idle = refl
