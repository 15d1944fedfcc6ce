-- ===== src/Check.antt =====
-- Checks, the probes on a schedule: internal/core/domain/check, the projection of a check to a
-- revision (internal/core/app/projection/check.go, internal/core/domain/revision), the check
-- scheduler (internal/core/app/checkschedule) and what is recorded of an outcome
-- (internal/core/app/checkobserve).
pub mod Probe
pub mod Fire
pub mod Cursor
pub mod Batch
pub mod Criteria
pub mod Judgement
pub mod Record
pub mod Recorded
pub mod Tests
use orbitjob.Prelude.{
  ℕ, zero, suc, ◌+◌, ◌-◌, ◌*◌, ◌/◌, ◌%◌, String, Bool, true, false, ◌||◌, List, Option, none, some,
  ◌==◌, Bytes, eqb, ltb, if◌then◌else◌,
}
use orbitjob.Prelude.Int.{ℤ, pos, negsuc, leb_ℤ}
use orbitjob.Prelude.Result.{Result, ok, err}
use Prim.Native.String.{◌++◌ as str_append}

pub data ScheduleType : Type 0 where
  cron interval : ScheduleType
  other_schedule : String → ScheduleType

pub record ProbeConfig : Type 0 where
  pub url : Bytes
  pub method : Bytes
  pub expected_status : ℕ

-- The fields of check.Snapshot that scheduling and projection read. `probe` is what
-- NormalizeProbeConfig makes of the stored configuration, which is a decoded JSON object; none is
-- its error.
pub record Snapshot : Type 0 where
  pub id : ℕ
  pub resource_group_id : String
  pub check_type : String
  pub probe : Option ProbeConfig
  pub schedule_type : ScheduleType
  pub cron_expr : Option String
  pub interval_sec : Option ℤ
  pub timeout_sec : ℤ
  pub retry_limit : ℤ
  pub next_run_at : Option ℕ
  pub version : ℤ

abbrev digit_text : ℕ → String
digit_text n =
    if eqb n 0
    then "0"
    else if eqb n 1
    then "1"
    else if eqb n 2
    then "2"
    else if eqb n 3
    then "3"
    else if eqb n 4
    then "4"
    else if eqb n 5
    then "5"
    else if eqb n 6
    then "6"
    else if eqb n 7
    then "7"
    else if eqb n 8
    then "8"
    else "9"

-- strconv.FormatInt in base 10; an int64 has at most 19 digits.
abbrev decimal : ℕ → ℕ → String
decimal zero n = ""
decimal (suc fuel) n =
    let rest = decimal fuel (n / 10) in
    if ltb n 10 then digit_text n else str_append rest (digit_text (n % 10))

unfoldable pub check_source_uid : ℕ → String
check_source_uid id = str_append "check-" (decimal 20 id)

-- int32(v) of an int.
abbrev pub to_int32 : ℤ → ℤ
to_int32 (pos n) =
    let m = n % 4294967296 in if ltb m 2147483648 then pos m else negsuc (4294967295 - m)
to_int32 (negsuc n) =
    let m = n % 4294967296 in if ltb m 2147483648 then negsuc m else pos (4294967295 - m)

-- revision.Identity and revision.New.
pub record Identity : Type 0 where
  pub source_mode : String
  pub source_uid : String
  pub namespace : String
  pub name : String

pub record NewRevision : Type 0 where
  pub identity : Identity
  pub generation : ℤ
  pub spec_hash : String
  pub normalized_spec : String
  pub created_at : ℕ
  pub actor : String
  pub resource_group_id : String

pub data RevisionError : Type 0 where
  invalid_identity invalid_input : RevisionError

unfoldable pub new_revision :
    (trim digest : String → String)
    → Identity
    → (generation : ℤ) → (normalized_spec actor resource_group_id : String) → (now : ℕ)
    → Result RevisionError NewRevision
new_revision trim digest i generation spec actor group now =
    if i.source_mode == "" || (i.source_uid == "" || (i.namespace == "" || i.name == ""))
    then err invalid_identity
    else if leb_ℤ generation (pos 0) || trim spec == ""
    then err invalid_input
    else if eqb now 0
    then err invalid_input
    else ok (record {
      identity = i;
      generation = generation;
      spec_hash = digest spec;
      normalized_spec = spec;
      created_at = now;
      actor = actor;
      resource_group_id = trim group;
    })
