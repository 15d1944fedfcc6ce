-- ===== src/Schedule/Tests.antt =====
-- The scheduler at a schedule that matches every fifth minute.
use orbitjob.Prelude.{
  ℕ, ◌+◌, ◌-◌, ◌*◌, ◌%◌, ◌≤◌, ◌≡◌, refl, String, Bool, true, false, ◌&&◌, List, [], ◌∷◌, some, All,
  eqb, leb,
}
use orbitjob.Prelude.Int.{pos}
use orbitjob.Run.{Phase}
use orbitjob.Schedule.{fire_once, minute, truncate, matches_in_window, select_occurrences}
use orbitjob.Schedule.Window.{member, member-matches_in_window}
use orbitjob.Schedule.Fire.{
  ConcurrencyPolicy, JobSpec, Revision, FireEffect, list_revisions, Scheduler, fire_definition,
}
use orbitjob.Schedule.Pass.{Due, fire_definition-Due}
use orbitjob.Schedule.Limits.{creations, fire_definition_limited, fire_definition_blocked}

abbrev every_fifth : ℕ → Bool
every_fifth t = eqb (t % (5 * minute)) 0

-- Two minutes after the tenth minute, with ten minutes of grace.
abbrev late_now : ℕ
late_now = 12 * minute + 7

abbrev ten_minutes : ℕ
ten_minutes = 10 * minute

in_window : matches_in_window every_fifth late_now ten_minutes ≡ (5 * minute) ∷ (10 * minute) ∷ []
unfolding matches_in_window
in_window = refl

member-matches_in_window_example :
    member (5 * minute) (matches_in_window every_fifth late_now ten_minutes) ≡ (
      every_fifth (5 * minute)
      && (eqb ((5 * minute) % minute) 0
          && (leb (truncate (late_now - ten_minutes)) (5 * minute) && leb (5 * minute) late_now)))
member-matches_in_window_example =
    member-matches_in_window every_fifth late_now ten_minutes (5 * minute)

abbrev nightly : JobSpec
nightly = record {
  suspend = false;
  expression = "*/5 * * * *";
  concurrency = ConcurrencyPolicy.forbid;
  misfire = fire_once;
  max_attempts = pos 0;
  timeout_seconds = pos 0;
}

abbrev revision : Revision
revision = record {
  id = 3;
  source_uid = "uid-1";
  namespace = "team";
  name = "report";
  spec = some nightly;
}

-- Every request is accepted; the ledger counts the given number of open runs.
abbrev scheduler : ℕ → Scheduler
scheduler open_runs = record {
  ledger = record {
    accepts = λ h e. true;
    revisions = λ h. revision ∷ [];
    open_runs = λ h. [];
    open_count = λ h. open_runs;
    stored_revision = λ h. 3;
    stored_phase = λ h. Phase.pending;
    is_new = λ h. true;
  };
  lists_open_runs = true;
  configured_actor = "";
  trim = λ v. v;
  parse = λ v. some every_fifth;
  occurrence_key = λ uid id t. uid;
  max_catch_up = pos 1;
}

creates_one : creations (fire_definition (scheduler 0) revision late_now ten_minutes []).1 ≡ 1
unfolding fire_definition select_occurrences
creates_one = refl

fire_definition-Due_example :
    All
      (Due (scheduler 0) revision late_now ten_minutes)
      (fire_definition (scheduler 0) revision late_now ten_minutes []).1
fire_definition-Due_example = fire_definition-Due (scheduler 0) revision late_now ten_minutes

fire_definition_limited_example :
    creations (fire_definition (scheduler 0) revision late_now ten_minutes []).1 ≤ 1
fire_definition_limited_example =
    fire_definition_limited (scheduler 0) revision nightly late_now ten_minutes refl

always_one : (h : List FireEffect) → eqb ((scheduler 1).ledger.open_count h) 0 ≡ false
always_one h = refl

fire_definition_blocked_example :
    creations (fire_definition (scheduler 1) revision late_now ten_minutes []).1 ≡ 0
fire_definition_blocked_example =
    fire_definition_blocked (scheduler 1) revision nightly late_now ten_minutes refl refl always_one

listing_works :
    (h : List FireEffect) (tenant : String)
    → (scheduler 0).ledger.accepts h (list_revisions tenant) ≡ true
listing_works h tenant = refl
