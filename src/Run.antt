-- ===== src/Run.antt =====
-- internal/core/domain/jobrun: the lifecycle of one logical run (types.go, stored.go,
-- transition.go). The phases are the closed set of the ledger column. A `time.Time` is the number
-- of nanoseconds since the zero instant, so `IsZero` is the test against 0.
pub mod Lifecycle
pub mod Attempts
pub mod Tests
use orbitjob.Prelude.{
  ℕ, ◌+◌, String, Bytes, Bool, true, false, not, ◌&&◌, ◌||◌, leb, ltb, eqb, ◌==◌, if◌then◌else◌,
}
use orbitjob.Prelude.Int.{ℤ, pos, leb_ℤ, ltb_ℤ}
use orbitjob.Prelude.Result.{Result, ok, err}

pub data Phase : Type 0 where
  pending creating_attempt running retry_waiting succeeded failed : Phase
  cancel_requested canceled cancel_unknown : Phase

-- The text that the ledger stores for a phase.
unfoldable pub phase_name : Phase → String
phase_name pending = "Pending"
phase_name creating_attempt = "CreatingAttempt"
phase_name running = "Running"
phase_name retry_waiting = "RetryWaiting"
phase_name succeeded = "Succeeded"
phase_name failed = "Failed"
phase_name cancel_requested = "CancelRequested"
phase_name canceled = "Canceled"
phase_name cancel_unknown = "CancelUnknown"

pub data Trigger : Type 0 where
  schedule manual retry check workflow function : Trigger

pub record JobRun : Type 0 where
  pub id : String
  pub source_uid : String
  pub revision_id : String
  pub occurrence_key : String
  pub revision_generation : ℤ
  pub attempt : ℤ
  pub trigger : Trigger
  pub phase : Phase
  pub scheduled_for : ℕ

pub record Attempt : Type 0 where
  pub id : String
  pub job_run_id : String
  pub kubernetes_job_name : Bytes
  pub kubernetes_job_uid : String
  pub observed_resource_version : String
  pub number : ℤ
  pub phase : Phase
  pub started_at : ℕ

pub data TransitionError : Type 0 where
  invalid_transition : TransitionError

unfoldable pub can_transition : Phase → Phase → Bool
can_transition pending creating_attempt = true
can_transition pending cancel_requested = true
can_transition creating_attempt running = true
can_transition creating_attempt cancel_requested = true
can_transition running retry_waiting = true
can_transition running succeeded = true
can_transition running failed = true
can_transition running cancel_requested = true
can_transition retry_waiting creating_attempt = true
can_transition retry_waiting cancel_requested = true
can_transition retry_waiting failed = true
can_transition cancel_requested canceled = true
can_transition cancel_requested cancel_unknown = true
can_transition _ _ = false

unfoldable pub terminal : Phase → Bool
terminal succeeded = true
terminal failed = true
terminal canceled = true
terminal _ = false

unfoldable pub transition : JobRun → Phase → Result TransitionError JobRun
transition run to =
    if can_transition run.phase to then ok (record run { phase = to }) else err invalid_transition

abbrev pub is_pending_or_waiting : Phase → Bool
is_pending_or_waiting pending = true
is_pending_or_waiting retry_waiting = true
is_pending_or_waiting _ = false

abbrev pub is_cancel_requested : Phase → Bool
is_cancel_requested cancel_requested = true
is_cancel_requested _ = false

-- A refused call returns its arguments beside the error; the callers read them only on success.
unfoldable pub start_attempt : JobRun → Attempt → ℕ → Result TransitionError (JobRun × Attempt)
start_attempt run a now =
    if leb_ℤ a.number (pos 0)
      || not (a.job_run_id == run.id)
      || not (is_pending_or_waiting run.phase)
    then err invalid_transition
    else if eqb now 0
    then err invalid_transition
    else ok (
      record run { phase = creating_attempt; attempt = a.number },
      record a { phase = creating_attempt },
    )

unfoldable pub request_cancel : JobRun → ℕ → Result TransitionError JobRun
request_cancel run now =
    if eqb now 0 || not (can_transition run.phase cancel_requested)
    then err invalid_transition
    else ok (record run { phase = cancel_requested })

unfoldable pub confirm_canceled : JobRun → ℕ → Result TransitionError JobRun
confirm_canceled run now =
    if eqb now 0 || not (is_cancel_requested run.phase)
    then err invalid_transition
    else ok (record run { phase = canceled })

-- Counters of a stored row: the columns are at least 0.
pub record StoredRun : Type 0 where
  pub id : ℕ
  pub revision_id : ℕ
  pub phase : Phase
  pub attempt : ℕ
  pub max_attempts : ℕ
  pub epoch : ℕ
  pub scheduled_for : ℕ

unfoldable pub next_attempt : StoredRun → ℕ
next_attempt s = s.attempt + 1

abbrev pub is_live : Phase → Bool
is_live running = true
is_live creating_attempt = true
is_live _ = false

unfoldable pub attempt_in_flight : StoredRun → Bool
attempt_in_flight s = if ltb s.attempt 1 then false else is_live s.phase

unfoldable pub can_start_attempt : StoredRun → Bool
unfolding attempt_in_flight next_attempt
can_start_attempt s =
    if attempt_in_flight s
    then false
    else if ltb s.max_attempts (next_attempt s)
    then false
    else is_pending_or_waiting s.phase

pub record OpenRun : Type 0 where
  pub id : ℕ
  pub revision_id : ℕ
  pub occurrence_key : String
  pub phase : Phase
  pub scheduled_for : ℕ

pub record PrunableRun : Type 0 where
  pub id : ℕ
  pub occurrence_key : String
  pub phase : Phase
