-- ===== src/Check/Tests.antt =====
-- One check every minute, in an environment that accepts every call, and one SLI on it.
use orbitjob.Prelude.{
  ℕ, ◌+◌, ◌≡◌, ◌↔◌, refl, String, Bool, true, false, List, [], ◌∷◌, none, some, All, codes, eqb,
  ltb, length,
}
use orbitjob.Prelude.Int.{pos, pos_part}
use orbitjob.Prelude.Result.{ok, err}
use orbitjob.Run
use orbitjob.Run.{Phase}
use orbitjob.Check.{interval, ProbeConfig, Snapshot}
use orbitjob.Check.Probe.{sh_single_quote}
use orbitjob.Check.Fire.{UseCase, run_batch}
use orbitjob.Check.Cursor.{CursorLast, run_batch-CursorLast}
use orbitjob.Check.Criteria.{
  quality, latency, unknown_key, Floats, Value, text, object, OutcomeEvent, is_good_event,
}
use orbitjob.Check.Judgement.{Good, is_good_event-Good, unknown_key_order}
use orbitjob.Check.Record.{Recorder, record_terminal_phase}
use orbitjob.Check.Recorded.{Judged, record_terminal_phase-Judged}

-- A URL with a quote in it.
abbrev probe : ProbeConfig
probe = record { url = codes "http://h/?q='; rm"; method = codes "GET"; expected_status = 200 }

quoted : sh_single_quote (codes "a'b") ≡ codes "'a'\\''b'"
unfolding sh_single_quote
quoted = refl

abbrev minutely : Snapshot
minutely = record {
  id = 7;
  resource_group_id = "";
  check_type = "http_health";
  probe = some probe;
  schedule_type = interval;
  cron_expr = none;
  interval_sec = some (pos 60);
  timeout_sec = pos 0;
  retry_limit = pos 2;
  next_run_at = some 60;
  version = pos 1;
}

abbrev use_case : (is_new : Bool) → (stored : Phase) → UseCase
use_case is_new stored = record {
  env = record {
    accepts = λ h c. true;
    due = λ h. minutely ∷ [];
    open_runs = λ h. [];
    revision_id = λ h. 3;
    stored_revision = λ h. 3;
    stored_phase = λ h. stored;
    is_new = λ h. is_new;
    clock = λ h. 100;
  };
  scope = record { tenant = "tenant-1"; namespace = "team" };
  trim = λ s. s;
  digest = λ s. s;
  encode = λ spec. "{}";
  parse_cron = λ e. some (λ now. now + 5);
  occurrence_key = λ uid rev at. uid;
}

abbrev fresh : UseCase
fresh = use_case true Phase.pending

run_batch-CursorLast_example : CursorLast fresh (run_batch fresh (pos 0) []).1
run_batch-CursorLast_example = run_batch-CursorLast fresh (pos 0)

batch_calls : length (run_batch fresh (pos 0) []).1 ≡ 6
unfolding run_batch
batch_calls = refl

-- Whole numbers in place of float64.
abbrev whole : Floats
whole = record { Float = ℕ; less = ltb; same = eqb; of_ms = pos_part }

abbrev slow_failure : OutcomeEvent
slow_failure = record { status = "failed"; duration = some (pos 1500) }

abbrev fast_enough : List (String × Value ℕ)
fast_enough = ("duration_ms", object (some "<=") (some 2000)) ∷ []

is_good_event-Good_example :
    (is_good_event whole slow_failure latency fast_enough ≡ ok true)
    ↔ Good whole slow_failure latency fast_enough
is_good_event-Good_example = is_good_event-Good whole slow_failure latency fast_enough

unknown_key_order_example :
    (is_good_event whole slow_failure quality
        (("severity", text "ok") ∷ (("status", text "success") ∷ []))
      ≡ err (unknown_key "severity"))
    × (is_good_event whole slow_failure quality
          (("status", text "success") ∷ (("severity", text "ok") ∷ []))
        ≡ ok false)
unknown_key_order_example =
    unknown_key_order whole slow_failure "severity" "success" (text "ok") refl refl refl

abbrev recorder : Recorder whole
recorder = record {
  accepts = λ h c. true;
  outcome = λ h. record {
    run_id = 7;
    source_uid = "check-7";
    occurrence_key = "key-1";
    phase = Phase.failed;
    scheduled_for = 60;
    started_at = 61;
    completed_at = 62;
  };
  slis = λ h. (record { id = 4; type = latency; criteria = fast_enough }) ∷ [];
  now = λ h. 600000000001;
  records_slis = true;
  occurrence_run_id = λ key. key;
}

recorded_calls : length (record_terminal_phase recorder 7 Phase.failed []).1 ≡ 5
unfolding record_terminal_phase
recorded_calls = refl

record_terminal_phase-Judged_example :
    All (Judged recorder 7 Phase.failed) (record_terminal_phase recorder 7 Phase.failed []).1
record_terminal_phase-Judged_example = record_terminal_phase-Judged recorder 7 Phase.failed
