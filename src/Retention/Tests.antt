-- ===== src/Retention/Tests.antt =====
-- One definition with one run to prune, and one workflow with one run of two steps, in an environment
-- that accepts every call.
use orbitjob.Prelude.{◌≡◌, refl, String, true, [], ◌∷◌, some, length}
use orbitjob.Prelude.Int.{pos, negsuc}
use orbitjob.Prelude.Result.{ok}
use orbitjob.Run
use orbitjob.Run.{PrunableRun, Trigger}
use orbitjob.Workflow.{WorkflowPhase, WorkflowRun, StepRun}
use orbitjob.Retention.{RetainedDefinition, Env, history_limits, sweep_history}
use orbitjob.Retention.Order.{ObjectFirst, sweep_history-ObjectFirst}
use orbitjob.Retention.Cleared.{StepsFirst}
use orbitjob.Retention.Steps.{sweep_workflows-StepsFirst}
use orbitjob.Retention.Workflows.{sweep_workflows}

unset_and_negative :
    history_limits (record { successful_runs = pos 0; failed_runs = negsuc 4 }) ≡ (pos 3, pos 3)
unfolding history_limits
unset_and_negative = refl

abbrev nightly : RetainedDefinition
nightly = record {
  source_uid = "uid-1";
  namespace = "team";
  name = "nightly";
  history = some (record { successful_runs = pos 1; failed_runs = pos 0 });
}

abbrev old_run : PrunableRun
old_run = record { id = 7; occurrence_key = "0123456789"; phase = Run.Phase.succeeded }

abbrev step_of : String → String → StepRun
step_of uid key = record {
  id = 21;
  workflow_run_id = 9;
  source_uid = uid;
  revision_id = 3;
  occurrence_key = key;
  trigger = Trigger.workflow;
  phase = Run.Phase.succeeded;
  attempt = pos 1;
  created_at = 60;
  updated_at = 120;
}

abbrev old_workflow_run : WorkflowRun
old_workflow_run = record {
  id = 9;
  tenant_id = "acme";
  source_uid = "uid-9";
  revision_id = 4;
  occurrence_key = "key-9";
  trigger = Trigger.manual;
  actor = "alice";
  phase = WorkflowPhase.succeeded;
  task_decisions = [];
  created_at = 60;
  updated_at = 120;
}

abbrev env : Env
env = record {
  accepts = λ h c. true;
  definitions = λ h. nightly ∷ [];
  prunable = λ h. old_run ∷ [];
  prunable_workflows = λ h. old_workflow_run ∷ [];
  steps = λ h. step_of "uid-1" "abcdef0123" ∷ (step_of "uid-gone" "99999999" ∷ []);
  deleted = λ h. true;
}

prunes_one : (sweep_history env ("acme" ∷ []) []).0 ≡ ok 1
unfolding sweep_history
prunes_one = refl

-- Two listings, the steps, the active definitions, one object and the row.
prunes_workflow : length (sweep_workflows env ("acme" ∷ []) []).1 ≡ 6
unfolding sweep_workflows
prunes_workflow = refl

sweep_history-ObjectFirst_example : ObjectFirst env (sweep_history env ("acme" ∷ []) []).1
sweep_history-ObjectFirst_example = sweep_history-ObjectFirst env ("acme" ∷ [])

sweep_workflows-StepsFirst_example : StepsFirst env (sweep_workflows env ("acme" ∷ []) []).1
sweep_workflows-StepsFirst_example = sweep_workflows-StepsFirst env ("acme" ∷ [])
