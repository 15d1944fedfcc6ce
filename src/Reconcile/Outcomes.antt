-- ===== src/Reconcile/Outcomes.antt =====
-- What a genuine terminal transition is told to: recordOutcome of job_handler.go, and
-- recordFunctionOutcome of workflow.go with internal/core/domain/function.
use orbitjob.Prelude.{
  ℕ, ◌-◌, ◌/◌, String, Bool, true, false, not, ◌&&◌, ◌||◌, [], ◌∷◌, Option, none, some, Bytes,
  codes, eqb, ltb, if◌then◌else◌,
}
use orbitjob.Prelude.Int.{ℤ, pos, negsuc}
use orbitjob.Trace.{pure, ◌>>◌}
use orbitjob.Run.{Phase, succeeded, failed, canceled}
use orbitjob.Execution.{atoi}
use orbitjob.Reconcile.{
  FunctionStatus, status_success, status_failed, status_canceled, TerminalOutcome, CompletedRecord,
  ledger, record_terminal, read_outcome, record_completed, Runtime, R, ask, note, best_effort,
}

abbrev pub has_outcome : Phase → Bool
has_outcome succeeded = true
has_outcome failed = true
has_outcome _ = false

unfoldable pub record_outcome : Runtime → String → ℕ → Phase → Bool → R (Unit {0})
record_outcome rt tenant run p changed =
    if not rt.records_outcomes || not changed
    then pure tt
    else if not (has_outcome p)
    then pure tt
    else note (ledger tenant (record_terminal run p))

abbrev pub read_model_status : Phase → Option FunctionStatus
read_model_status succeeded = some status_success
read_model_status failed = some status_failed
read_model_status canceled = some status_canceled
read_model_status _ = none

-- What is left after a prefix.
abbrev pub strip : Bytes → Bytes → Option Bytes
strip [] s = some s
strip (c ∷ p) [] = none
strip (c ∷ p) (d ∷ s) = if eqb c d then strip p s else none

abbrev pub parsed : Option Bytes → Option ℕ
parsed none = none
parsed (some s) = atoi s

-- strconv.ParseInt in base 10 and 64 bits reads what strconv.Atoi reads.
unfoldable pub id_from_source_uid : String → Option ℕ
unfolding atoi
id_from_source_uid uid = parsed (strip (codes "function-") (codes uid))

-- Milliseconds of a difference, towards 0.
abbrev pub negated : ℕ → ℤ
negated n = if eqb n 0 then pos 0 else negsuc (n - 1)

abbrev pub milliseconds : ℕ → ℕ → ℤ
milliseconds later earlier =
    if ltb later earlier
    then negated ((earlier - later) / 1000000)
    else pos ((later - earlier) / 1000000)

unfoldable pub completed_record :
    Runtime → FunctionStatus → ℕ → TerminalOutcome → ℕ → CompletedRecord
completed_record rt status function_id o now = record {
  run_id = rt.function_run_id o.occurrence_key;
  function_id = function_id;
  status = status;
  triggered_at = if eqb o.started_at 0 then now else o.started_at;
  started_at = o.started_at;
  finished_at = o.completed_at;
  duration_ms =
      if not (eqb o.started_at 0) && not (eqb o.completed_at 0)
      then milliseconds o.completed_at o.started_at
      else pos 0;
}

abbrev pub record_function :
    Runtime → String → FunctionStatus → TerminalOutcome → Option ℕ → ℕ → R (Unit {0})
record_function rt tenant status o none now = pure tt
record_function rt tenant status o (some id) now =
    note (ledger tenant (record_completed (completed_record rt status id o now)))

abbrev pub record_status : Runtime → String → ℕ → Option FunctionStatus → R (Unit {0})
record_status rt tenant run none = pure tt
record_status rt tenant run (some status) = ask rt (ledger tenant (read_outcome run)) >> λ h.
    record_function rt tenant status (rt.env.outcome h)
      (id_from_source_uid (rt.env.outcome h).source_uid) (rt.env.now h) h

-- A failed read ends the bookkeeping, not the reconciliation.
unfoldable pub record_function_outcome : Runtime → String → ℕ → Phase → Bool → R (Unit {0})
unfolding id_from_source_uid completed_record
record_function_outcome rt tenant run p changed =
    if not rt.records_functions || not changed then pure tt else λ h.
    best_effort (record_status rt tenant run (read_model_status p) h)
