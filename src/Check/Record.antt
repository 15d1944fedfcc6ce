-- ===== src/Check/Record.antt =====
-- internal/core/app/checkobserve/recorder.go: what a finished run means for the check_runs read model
-- and for the SLI snapshots, with CheckIDFromSourceUID. Metrics are not modelled but for the read of
-- the check that labels them.
use orbitjob.Prelude.{
  ℕ, ◌-◌, ◌%◌, String, Bool, true, false, not, ◌&&◌, List, [], ◌∷◌, Option, none, some, codes, eqb,
  if◌then◌else◌,
}
use orbitjob.Prelude.Int.{ℤ, pos}
use orbitjob.Prelude.Result.{Result, ok, err}
use orbitjob.Trace
use orbitjob.Trace.{pure, ◌>>=◌, ◌>>◌, Keeps, Keeps-request, Keeps-bind, Keeps-if}
use orbitjob.Run.{Phase, succeeded}
use orbitjob.Execution.{atoi}
use orbitjob.Reconcile.{TerminalOutcome}
use orbitjob.Reconcile.Outcomes.{has_outcome, strip, parsed, milliseconds}
use orbitjob.Check.Criteria.{SliType, CriteriaError, Floats, Value, OutcomeEvent, is_good_event}

pub record Sli (F : Type 0) : Type 0 where
  pub id : ℕ
  pub type : SliType
  pub criteria : List (String × Value F)

pub record CompletedRecord : Type 0 where
  pub run_id : String
  pub check_id : ℕ
  pub success : Bool
  pub scheduled_at : ℕ
  pub started_at : ℕ
  pub finished_at : ℕ
  pub duration_ms : ℤ

pub data RecordCall : Type 0 where
  read_outcome : (run : ℕ) → RecordCall
  record_completed : CompletedRecord → RecordCall
  read_check : (id : ℕ) → RecordCall
  find_slis : (source_uid : String) → RecordCall
  increment_snapshot : (sli window_start : ℕ) → (is_good : Bool) → RecordCall

unfoldable pub check_id_from_source_uid : String → Option ℕ
unfolding atoi
check_id_from_source_uid uid = parsed (strip (codes "check-") (codes uid))

abbrev pub snapshot_window : ℕ
snapshot_window = 300000000000

abbrev pub is_succeeded : Phase → Bool
is_succeeded succeeded = true
is_succeeded _ = false

abbrev pub status_for_event : Phase → String
status_for_event p = if is_succeeded p then "success" else "failed"

abbrev pub has_timing : TerminalOutcome → Bool
has_timing o = not (eqb o.started_at 0) && not (eqb o.completed_at 0)

unfoldable pub event_of : TerminalOutcome → OutcomeEvent
event_of o = record {
  status = status_for_event o.phase;
  duration = if has_timing o then some (milliseconds o.completed_at o.started_at) else none;
}

module _ (f : Floats) where
  -- `accepts` and the reads answer after the calls so far; `visits` is the order in which the
  -- criteria of an SLI, a Go map, are visited then.
  pub record Recorder : Type 0 where
    pub accepts : List RecordCall → RecordCall → Bool
    pub outcome : List RecordCall → TerminalOutcome
    pub slis : List RecordCall → List (Sli f.Float)
    pub now : List RecordCall → ℕ
    pub records_slis : Bool
    pub occurrence_run_id : String → String

module _ {f : Floats} (r : Recorder f) where
  -- A failed call ends what follows it here.
  abbrev pub B : Type 0
  B = Trace.M RecordCall RecordCall (Unit {0})

  abbrev pub call : RecordCall → B
  call c = Trace.request r.accepts (λ x. x) c

  -- A failure is logged.
  abbrev pub logged : B → B
  logged m h = (ok tt, (m h).1)

  unfoldable pub check_record : TerminalOutcome → ℕ → CompletedRecord
  check_record o id = record {
    run_id = r.occurrence_run_id o.occurrence_key;
    check_id = id;
    success = is_succeeded o.phase;
    scheduled_at = o.scheduled_for;
    started_at = o.started_at;
    finished_at = o.completed_at;
    duration_ms = if has_timing o then milliseconds o.completed_at o.started_at else pos 0;
  }

  unfoldable pub record_check_run : TerminalOutcome → Option ℕ → B
  unfolding check_record
  record_check_run o none = pure tt
  record_check_run o (some id) =
      logged (call (record_completed (check_record o id)) >> logged (call (read_check id)))

  abbrev pub increment : ℕ → ℕ → Result CriteriaError Bool → B
  increment sli window (err e) = pure tt
  increment sli window (ok good) = logged (call (increment_snapshot sli window good))

  unfoldable pub increment_each : OutcomeEvent → ℕ → List (Sli f.Float) → B
  unfolding is_good_event
  increment_each e window [] = pure tt
  increment_each e window (s ∷ ss) =
      increment s.id window (is_good_event f e s.type s.criteria) >> increment_each e window ss

  abbrev pub truncated : ℕ → ℕ
  truncated t = t - t % snapshot_window

  unfoldable pub record_sli_events : TerminalOutcome → B
  unfolding increment_each event_of
  record_sli_events o =
      if not r.records_slis
      then pure tt
      else logged (
          call (find_slis o.source_uid) >> λ h.
          increment_each (event_of o) (truncated (r.now h)) (r.slis h) h)

  unfoldable pub record_terminal_phase : ℕ → Phase → B
  unfolding record_check_run record_sli_events check_id_from_source_uid
  record_terminal_phase run p =
      if not (has_outcome p)
      then pure tt
      else logged (
          call (read_outcome run) >> λ h.
          (record_check_run (r.outcome h) (check_id_from_source_uid (r.outcome h).source_uid)
              >> record_sli_events (r.outcome h))
            h)
