-- ===== src/Retention/Workflows.antt =====
-- internal/operator/workflow_retention.go: the pruning of workflow runs with their steps.
use Prim.Native.String.{◌++◌ as str_append}
use orbitjob.Prelude.{ℕ, ◌+◌, String, List, [], ◌∷◌, Option, none, some}
use orbitjob.Prelude.Assoc.{Assoc, insert, lookup}
use orbitjob.Trace.{pure, throw, ◌>>=◌, ◌>>◌}
use orbitjob.Workflow.{WorkflowRun, StepRun}
use orbitjob.Retention.{
  HistoryPolicy, RetainedDefinition, list_active, list_active_workflows, list_prunable_workflows,
  list_steps, delete_workflow_run, undecodable_revision, Env, P, ask, history_limits, remove_object,
  count,
}

-- definitionIndex, of which only the entries by uid are read here.
unfoldable pub step_definitions :
    List RetainedDefinition → Assoc RetainedDefinition → Assoc RetainedDefinition
unfolding insert
step_definitions [] index = index
step_definitions (d ∷ ds) index =
    step_definitions ds
      (insert (str_append "uid:" d.source_uid) d (insert (str_append "name:" d.name) d index))

abbrev pub remove_step : Env → StepRun → Option RetainedDefinition → P (Unit {0})
remove_step env step none = pure tt
remove_step env step (some d) = remove_object env d.namespace d.name step.occurrence_key

-- The loop of removeStepObjects.
unfoldable pub remove_steps : Env → Assoc RetainedDefinition → List StepRun → P (Unit {0})
unfolding lookup remove_object
remove_steps env index [] = pure tt
remove_steps env index (step ∷ steps) =
    remove_step env step (lookup (str_append "uid:" step.source_uid) index)
    >> remove_steps env index steps

unfoldable pub remove_listed : Env → String → List StepRun → P (Unit {0})
unfolding remove_steps step_definitions
remove_listed env tenant [] = pure tt
remove_listed env tenant (step ∷ steps) = ask env (list_active tenant) >> λ h.
    remove_steps env (step_definitions (env.definitions h) []) (step ∷ steps) h

unfoldable pub remove_step_objects : Env → String → WorkflowRun → P (Unit {0})
unfolding remove_listed
remove_step_objects env tenant run =
    ask env (list_steps tenant run.id) >> λ h. remove_listed env tenant (env.steps h) h

unfoldable pub prune_workflow_runs : Env → String → List WorkflowRun → ℕ → P ℕ
unfolding remove_step_objects
prune_workflow_runs env tenant [] removed = pure removed
prune_workflow_runs env tenant (run ∷ runs) removed =
    remove_step_objects env tenant run
    >> (ask env (delete_workflow_run tenant run.id) >> λ h.
        prune_workflow_runs env tenant runs (count (env.deleted h) removed) h)

unfoldable pub prune_workflow_kept : Env → String → RetainedDefinition → Option HistoryPolicy → P ℕ
unfolding history_limits prune_workflow_runs
prune_workflow_kept env tenant d none = throw (undecodable_revision d.name)
prune_workflow_kept env tenant d (some policy) =
    let (keep_successful, keep_failed) = history_limits policy in
    ask env (list_prunable_workflows tenant d.source_uid keep_successful keep_failed) >> λ h.
    prune_workflow_runs env tenant (env.prunable_workflows h) 0 h

unfoldable pub prune_each_workflow : Env → String → List RetainedDefinition → ℕ → P ℕ
unfolding prune_workflow_kept
prune_each_workflow env tenant [] removed = pure removed
prune_each_workflow env tenant (d ∷ ds) removed =
    prune_workflow_kept env tenant d d.history >>= λ n.
    prune_each_workflow env tenant ds (removed + n)

unfoldable pub sweep_workflows_from : Env → List String → ℕ → P ℕ
unfolding prune_each_workflow
sweep_workflows_from env [] removed = pure removed
sweep_workflows_from env (tenant ∷ tenants) removed =
    ask env (list_active_workflows tenant)
    >> ((λ h. prune_each_workflow env tenant (env.definitions h) removed h)
        >>= sweep_workflows_from env tenants)

unfoldable pub sweep_workflows : Env → List String → P ℕ
unfolding sweep_workflows_from
sweep_workflows env tenants = sweep_workflows_from env tenants 0
