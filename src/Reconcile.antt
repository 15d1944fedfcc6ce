-- ===== src/Reconcile.antt =====
-- internal/operator/runtime.go, cancel.go and job_handler.go: the reconciliation of a JobRun and of
-- the Kubernetes Job of an attempt. The ledger and the Kubernetes API answer from an environment over
-- the calls so far. The runtime is wired: the checks for absent dependencies and the counters of the
-- metrics are not modelled.
pub mod Outcomes
pub mod Cancel
pub mod Drive
pub mod Observe
pub mod Calls
pub mod Stops
pub mod Starts
pub mod Filed
pub mod Licensed
pub mod Stuck
pub mod Progress
pub mod Observed
pub mod Tests
use orbitjob.Prelude.{
  ℕ, ◌+◌, String, Bool, true, false, List, ◌∷◌, Option, none, some, Bytes, if◌then◌else◌,
}
use orbitjob.Prelude.Int.{ℤ, pos}
use orbitjob.Prelude.Result.{Result, ok, err}
use orbitjob.Trace
use orbitjob.Trace.{pure, throw, ◌>>=◌, ◌>>◌}
use orbitjob.Run.{Phase, Trigger, JobRun, Attempt, StoredRun}
use orbitjob.Execution.{Job, Template, OwnershipError}

-- The fields of JobRunSpec that the operator reads.
pub record RunSpec : Type 0 where
  pub source_uid : String
  pub definition_revision : ℕ
  pub trigger : Trigger
  pub actor : String
  pub occurrence_key : String
  pub timeout_seconds : ℤ
  pub cancel_requested : Bool

-- A JobRun object; a spec that is absent or does not decode is none.
pub record RunResource : Type 0 where
  pub name : Bytes
  pub namespace : Bytes
  pub uid : Bytes
  pub spec : Option RunSpec

-- The fields of ScheduledJobSpec that a run needs; its template's deadline is the run's own.
pub record Declared : Type 0 where
  pub image : String
  pub command : List String
  pub args : List String
  pub backoff_limit : ℤ
  pub max_attempts : ℤ

pub record PinnedRevision : Type 0 where
  pub id : ℕ
  pub source_uid : String
  pub declared : Option Declared

pub data FunctionStatus : Type 0 where
  status_success status_failed status_canceled : FunctionStatus

-- The instant 0 is the absent one.
pub record TerminalOutcome : Type 0 where
  pub run_id : ℕ
  pub source_uid : String
  pub occurrence_key : String
  pub phase : Phase
  pub scheduled_for : ℕ
  pub started_at : ℕ
  pub completed_at : ℕ

pub record CompletedRecord : Type 0 where
  pub run_id : String
  pub function_id : ℕ
  pub status : FunctionStatus
  pub triggered_at : ℕ
  pub started_at : ℕ
  pub finished_at : ℕ
  pub duration_ms : ℤ

-- RevisionStore, RunStore, OutcomeReader and the two recorders.
pub data LedgerCall : Type 0 where
  read_run : (source_uid occurrence_key : String) → LedgerCall
  read_revision : ℕ → LedgerCall
  create_occurrence :
      (source_uid : String) (revision_id : ℕ) (occurrence_key : String)
      → Trigger
      → (max_attempts : ℤ) (actor : String) → LedgerCall
  create_attempt : (run : ℕ) → Attempt → Phase → LedgerCall
  update_attempt : (job_name : Bytes) → Phase → (job_uid resource_version : String) → LedgerCall
  update_run : (run : ℕ) → Phase → (attempt : ℕ) → LedgerCall
  record_terminal : (run : ℕ) → Phase → LedgerCall
  read_outcome : (run : ℕ) → LedgerCall
  record_completed : CompletedRecord → LedgerCall

-- JobManager, and the status of a JobRun.
pub data ClusterCall : Type 0 where
  ensure_job : Job → ClusterCall
  get_job delete_job : Bytes → ClusterCall
  patch_run : (name : Bytes) → Phase → (attempt : ℕ) → ClusterCall

pub data Call : Type 0 where
  ledger : (tenant : String) → LedgerCall → Call
  cluster : (namespace : Bytes) → ClusterCall → Call

-- The errors that the program tells apart: ErrRunTerminal, ErrNoAttempt, and all others.
pub data Verdict : Type 0 where
  accepted run_over no_attempt failure : Verdict

-- What the environment answers after the calls so far.
pub record Env : Type 0 where
  pub verdict : List Call → Call → Verdict
  pub found_run : List Call → Option StoredRun
  pub created_run : List Call → StoredRun
  pub revision : List Call → PinnedRevision
  pub ensured : List Call → Option Job
  pub live_job : List Call → Option Job
  pub phase_changed : List Call → Bool
  pub attempt_owner : List Call → ℕ × ℕ
  pub outcome : List Call → TerminalOutcome
  pub now : List Call → ℕ

-- `resolve` is the tenant resolver, and the two flags say which recorders are wired.
pub record Runtime : Type 0 where
  pub env : Env
  pub resolve : Bytes → Option String
  pub records_outcomes : Bool
  pub records_functions : Bool
  pub trim : String → String
  pub digest : Bytes → Bytes
  pub function_run_id : String → String

pub data ReconcileError : Type 0 where
  no_spec incomplete_spec no_actor no_tenant undecodable_job : ReconcileError
  foreign_revision undecodable_revision not_cancelable no_job_uid : ReconcileError
  not_owned : OwnershipError → ReconcileError
  refused : Verdict → Call → ReconcileError

abbrev pub R : Type 0 → Type 0
R = Trace.M ReconcileError Call

abbrev pub settle : Verdict → Call → R (Unit {0})
settle accepted c h = (ok tt, c ∷ h)
settle v c h = (err (refused v c), c ∷ h)

abbrev pub ask : Runtime → Call → R (Unit {0})
ask rt c h = settle (rt.env.verdict h c) c h

-- A call whose failure is logged.
abbrev pub note : Call → R (Unit {0})
note c h = (ok tt, c ∷ h)

abbrev pub best_effort :
    {A : Type 0}
    → Result ReconcileError A × List Call
    → Result ReconcileError (Unit {0}) × List Call
best_effort (r, h) = (ok tt, h)

-- `if errors.Is(err, target) { return nil }`
abbrev pub unless :
    {A : Type 0}
    → (ReconcileError → Bool)
    → Result ReconcileError A × List Call
    → (A → R (Unit {0}))
    → Result ReconcileError (Unit {0}) × List Call
unless target (ok a, h) k = k a h
unless target (err e, h) k = (if target e then ok tt else err e, h)

abbrev pub is_run_over : ReconcileError → Bool
is_run_over (refused run_over c) = true
is_run_over _ = false

abbrev pub is_no_attempt : ReconcileError → Bool
is_no_attempt (refused no_attempt c) = true
is_no_attempt _ = false

-- A run of which only the phase is known.
abbrev pub in_phase : Phase → JobRun
in_phase p = record {
  id = "";
  source_uid = "";
  revision_id = "";
  occurrence_key = "";
  revision_generation = pos 0;
  attempt = pos 0;
  trigger = Trigger.manual;
  phase = p;
  scheduled_for = 0;
}

-- UpdateRunPhase, with what it reports.
unfoldable pub write_run : Runtime → String → ℕ → Phase → ℕ → R Bool
write_run rt tenant run p attempt =
    ask rt (ledger tenant (update_run run p attempt)) >> λ h. pure (rt.env.phase_changed h) h

unfoldable pub patch_run_status : Runtime → RunResource → StoredRun → R (Unit {0})
patch_run_status rt obj s = ask rt (cluster obj.namespace (patch_run obj.name s.phase s.attempt))
