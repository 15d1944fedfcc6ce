-- ===== src/Retention.antt =====
-- The pruning of run history: Retainer.Sweep of internal/core/app/controlplane/retention.go over
-- RunRemover.Remove of internal/operator/publisher.go. Retention/Workflows is the sweep of workflow
-- runs. The ledger and the Kubernetes API answer from an environment over the calls so far; a
-- removal that finds no object is accepted. On an error the count so far is dropped. The retainers
-- are wired: the check for absent dependencies is not modelled.
pub mod Workflows
pub mod Order
pub mod Counted
pub mod Cleared
pub mod Steps
pub mod Tests
use Prim.Native.String
use Prim.Native.String.{◌++◌ as str_append}
use orbitjob.Prelude.{
  ℕ, zero, suc, ◌+◌, String, Bool, true, false, List, [], ◌∷◌, Option, none, some, ◌==◌,
  if◌then◌else◌, not,
}
use orbitjob.Prelude.Int.{ℤ, pos, leb_ℤ}
use orbitjob.Trace
use orbitjob.Trace.{pure, throw, ◌>>=◌, ◌>>◌}
use orbitjob.Run.{PrunableRun}
use orbitjob.Workflow.{WorkflowRun, StepRun}
use orbitjob.Walker.Sweep.{shorten}

pub record HistoryPolicy : Type 0 where
  pub successful_runs : ℤ
  pub failed_runs : ℤ

-- A revision with the history of its decoded spec, which is none where the spec does not decode.
pub record RetainedDefinition : Type 0 where
  pub source_uid : String
  pub namespace : String
  pub name : String
  pub history : Option HistoryPolicy

pub data PruneCall : Type 0 where
  list_active list_active_workflows : (tenant : String) → PruneCall
  list_prunable list_prunable_workflows :
      (tenant source_uid : String) (keep_successful keep_failed : ℤ) → PruneCall
  list_steps : (tenant : String) (run : ℕ) → PruneCall
  remove : (namespace name : String) → PruneCall
  delete_run delete_workflow_run : (tenant : String) (run : ℕ) → PruneCall

pub data PruneError : Type 0 where
  undecodable_revision key_too_short : String → PruneError
  refused : PruneCall → PruneError

-- What is answered after the calls so far; `deleted` is whether the deletion found its row.
pub record Env : Type 0 where
  pub accepts : List PruneCall → PruneCall → Bool
  pub definitions : List PruneCall → List RetainedDefinition
  pub prunable : List PruneCall → List PrunableRun
  pub prunable_workflows : List PruneCall → List WorkflowRun
  pub steps : List PruneCall → List StepRun
  pub deleted : List PruneCall → Bool

abbrev pub P : Type 0 → Type 0
P = Trace.M PruneError PruneCall

abbrev pub ask : Env → PruneCall → P (Unit {0})
ask env = Trace.request env.accepts refused

abbrev pub default_successful_history : ℤ
default_successful_history = pos 3

abbrev pub default_failed_history : ℤ
default_failed_history = pos 3

-- One of the two limits of historyLimits.
unfoldable pub limit_or : ℤ → ℤ → ℤ
limit_or default n = if leb_ℤ n (pos 0) then default else n

unfoldable pub history_limits : HistoryPolicy → ℤ × ℤ
unfolding limit_or
history_limits policy = (
  limit_or default_successful_history policy.successful_runs,
  limit_or default_failed_history policy.failed_runs,
)

-- Whether a text has that many characters; an occurrence key is ASCII.
unfoldable pub reaches : ℕ → String → Bool
reaches zero s = true
reaches (suc n) String.[] = false
reaches (suc n) (String.◌∷◌ c s) = reaches n s

unfoldable pub removed_name : String → String → String
unfolding shorten
removed_name definition key = str_append definition (str_append "-" (shorten 8 key))

unfoldable pub remove_object : Env → (namespace definition key : String) → P (Unit {0})
unfolding reaches removed_name
remove_object env namespace definition key =
    if reaches 8 key
    then ask env (remove namespace (removed_name definition key))
    else throw (key_too_short key)

abbrev pub count : Bool → ℕ → ℕ
count deleted n = if deleted then suc n else n

-- The loop over the prunable runs, from `removed`.
unfoldable pub prune_runs : Env → String → RetainedDefinition → List PrunableRun → ℕ → P ℕ
unfolding remove_object
prune_runs env tenant d [] removed = pure removed
prune_runs env tenant d (run ∷ runs) removed =
    remove_object env d.namespace d.name run.occurrence_key
    >> (ask env (delete_run tenant run.id) >> λ h.
        prune_runs env tenant d runs (count (env.deleted h) removed) h)

unfoldable pub prune_kept : Env → String → RetainedDefinition → Option HistoryPolicy → P ℕ
unfolding history_limits prune_runs
prune_kept env tenant d none = throw (undecodable_revision d.name)
prune_kept env tenant d (some policy) =
    let (keep_successful, keep_failed) = history_limits policy in
    ask env (list_prunable tenant d.source_uid keep_successful keep_failed) >> λ h.
    prune_runs env tenant d (env.prunable h) 0 h

unfoldable pub prune_definition : Env → String → RetainedDefinition → P ℕ
unfolding prune_kept
prune_definition env tenant d = prune_kept env tenant d d.history

-- The inner loop of Sweep, over the definitions of a tenant.
unfoldable pub prune_each : Env → String → List RetainedDefinition → ℕ → P ℕ
unfolding prune_definition
prune_each env tenant [] removed = pure removed
prune_each env tenant (d ∷ ds) removed =
    prune_definition env tenant d >>= λ n. prune_each env tenant ds (removed + n)

unfoldable pub sweep_history_from : Env → List String → ℕ → P ℕ
unfolding prune_each
sweep_history_from env [] removed = pure removed
sweep_history_from env (tenant ∷ tenants) removed =
    ask env (list_active tenant)
    >> ((λ h. prune_each env tenant (env.definitions h) removed h)
        >>= sweep_history_from env tenants)

unfoldable pub sweep_history : Env → List String → P ℕ
unfolding sweep_history_from
sweep_history env tenants = sweep_history_from env tenants 0
