-- ===== src/Execution.antt =====
-- internal/core/app/execution: the Kubernetes Job of one attempt (identity.go, job.go, observer.go)
-- and the adapter that drives it (adapter.go). Names and labels are lists of bytes; SHA-256 in
-- hexadecimal is a parameter.
pub mod Digits
pub mod Names
pub mod Labels
pub mod Adapter
pub mod Tests
use orbitjob.Prelude.{
  take, ℕ, zero, suc, ◌+◌, ◌-◌, ◌*◌, ◌/◌, ◌%◌, String, Bool, true, false, not, ◌&&◌, ◌||◌, List, [],
  ◌∷◌, ◌++◌, Option, none, some, ◌==◌, Bytes, codes, same, eqb, leb, ltb, length, if◌then◌else◌,
}
use orbitjob.Prelude.Int.{ℤ, pos, negsuc}
use orbitjob.Prelude.Result.{Result, ok, err}

abbrev pub dash : ℕ
dash = b'-'

-- strconv.Itoa of a number that is not negative, in at most `fuel` further digits.
unfoldable pub digits : ℕ → ℕ → Bytes
digits zero n = []
digits (suc fuel) n =
    let rest = digits fuel (n / 10) in
    if ltb n 10 then (b'0' + n) ∷ [] else rest ++ ((b'0' + n % 10) ∷ [])

-- A Go int has at most 19 digits.
unfoldable pub itoa : ℕ → Bytes
unfolding digits
itoa n = digits 20 n

-- The digits of strconv.Atoi, from the left.
unfoldable pub number : Bytes → ℕ → Option ℕ
number [] acc = some acc
number (c ∷ cs) acc =
    let rest = number cs (acc * 10 + (c - b'0')) in if leb b'0' c && leb c b'9' then rest else none

-- A value above the largest int is refused, as is one below 1, so a text with a minus sign always is.
abbrev pub positive_int : Option ℕ → Option ℕ
positive_int none = none
positive_int (some v) = if ltb v 1 || ltb 9223372036854775807 v then none else some v

unfoldable pub atoi : Bytes → Option ℕ
unfolding number
atoi [] = none
atoi (c ∷ []) = positive_int (number (c ∷ []) 0)
atoi (c ∷ (d ∷ cs)) =
    let signed = positive_int (number (d ∷ cs) 0) in
    let plain = positive_int (number (c ∷ (d ∷ cs)) 0) in
    if eqb c b'+' then signed else if eqb c dash then none else plain

pub record Identity : Type 0 where
  pub run_name : Bytes
  pub run_uid : Bytes
  pub revision_id : Bytes
  pub attempt : ℕ

-- strings.Trim(s, "-")
unfoldable pub trim_left : Bytes → Bytes
trim_left [] = []
trim_left (c ∷ s) = let rest = trim_left s in if eqb c dash then rest else c ∷ s

unfoldable pub trim_right : Bytes → Bytes
trim_right [] = []
trim_right (c ∷ s) =
    let rest = trim_right s in if eqb c dash && eqb (length rest) 0 then [] else c ∷ rest

-- A limit below 0 is 0 here, which has the same answer.
unfoldable pub sanitize : Bytes → ℕ → Bytes
unfolding trim_left trim_right
sanitize name limit =
    if eqb limit 0
    then []
    else if leb (length name) limit
    then trim_right (trim_left name)
    else trim_right (trim_left (take limit name))

abbrev pub max_job_name_length : ℕ
max_job_name_length = 63

unfoldable pub raw_name : Identity → Bytes
unfolding itoa
raw_name i = codes "oj-" ++ (i.run_name ++ (dash ∷ itoa i.attempt))

unfoldable pub job_name : (Bytes → Bytes) → Identity → Bytes
unfolding raw_name itoa sanitize
job_name digest i =
    let suffix = dash ∷ itoa i.attempt in
    let keep = max_job_name_length - 3 - 1 - 8 - length suffix in
    if leb (length (raw_name i)) max_job_name_length
    then raw_name i
    else codes "oj-"
      ++ (sanitize i.run_name keep ++ (dash ∷ (take 8 (digest (raw_name i)) ++ suffix)))

-- Labels: `map[string]string`, where a missing key reads as the empty text.
abbrev pub Labels : Type 0
Labels = List (String × Bytes)

unfoldable pub label : String → Labels → Bytes
label k [] = []
label k ((j, v) ∷ m) = let rest = label k m in if j == k then v else rest

abbrev pub label_run_name : String
label_run_name = "orbitjob.io/job-run"

abbrev pub label_run_uid : String
label_run_uid = "orbitjob.io/job-run-uid"

abbrev pub label_revision_id : String
label_revision_id = "orbitjob.io/revision-id"

abbrev pub label_attempt : String
label_attempt = "orbitjob.io/attempt"

pub record Template : Type 0 where
  pub image : String
  pub command : List String
  pub args : List String
  pub backoff_limit : ℤ
  pub active_deadline_seconds : ℤ

-- The conditions that Phase reads; `holds` is the status True.
pub data ConditionType : Type 0 where
  job_complete job_failed : ConditionType
  other_condition : String → ConditionType

pub record JobCondition : Type 0 where
  pub type : ConditionType
  pub holds : Bool

pub data RestartPolicy : Type 0 where
  never : RestartPolicy

-- The fields of batchv1.Job that the program reads or writes. `deleted_at` is the deletion timestamp.
pub record Job : Type 0 where
  pub name : Bytes
  pub namespace : Bytes
  pub labels : Labels
  pub uid : String
  pub resource_version : String
  pub deleted_at : Option ℕ
  pub backoff_limit : ℤ
  pub pod_labels : Labels
  pub automount_service_account_token : Bool
  pub restart_policy : RestartPolicy
  pub container_name : String
  pub image : String
  pub command : List String
  pub args : List String
  pub active_deadline_seconds : Option ℤ
  pub conditions : List JobCondition
  pub active : ℕ

abbrev pub non_negative : ℤ → ℤ
non_negative (pos n) = pos n
non_negative (negsuc n) = pos 0

abbrev pub deadline : ℤ → Option ℤ
deadline (pos n) = if eqb n 0 then none else some (pos n)
deadline (negsuc n) = none

unfoldable pub job_labels : Identity → Labels
unfolding itoa
job_labels i =
    (label_run_name, i.run_name)
    ∷ ((label_run_uid, i.run_uid)
        ∷ ((label_revision_id, i.revision_id) ∷ ((label_attempt, itoa i.attempt) ∷ [])))

unfoldable pub build_job : (Bytes → Bytes) → Identity → Bytes → Template → Job
unfolding job_name job_labels
build_job digest i namespace t = record {
  name = job_name digest i;
  namespace = namespace;
  labels = job_labels i;
  uid = "";
  resource_version = "";
  deleted_at = none;
  backoff_limit = non_negative t.backoff_limit;
  pod_labels = job_labels i;
  automount_service_account_token = false;
  restart_policy = never;
  container_name = "task";
  image = t.image;
  command = t.command;
  args = t.args;
  active_deadline_seconds = deadline t.active_deadline_seconds;
  conditions = [];
  active = 0;
}

pub data JobPhase : Type 0 where
  phase_pending phase_running phase_succeeded phase_failed : JobPhase

abbrev pub end_of : ConditionType → Option JobPhase
end_of job_complete = some phase_succeeded
end_of job_failed = some phase_failed
end_of (other_condition t) = none

abbrev pub first_end : Bool → Option JobPhase → Option JobPhase → Option JobPhase
first_end true (some p) rest = some p
first_end _ _ rest = rest

-- The loop of Phase over the conditions.
unfoldable pub condition_phase : List JobCondition → Option JobPhase
condition_phase [] = none
condition_phase (c ∷ cs) = first_end c.holds (end_of c.type) (condition_phase cs)

abbrev pub or_active : Option JobPhase → ℕ → JobPhase
or_active (some p) active = p
or_active none active = if ltb 0 active then phase_running else phase_pending

unfoldable pub phase : Job → JobPhase
unfolding condition_phase
phase job = or_active (condition_phase job.conditions) job.active

pub data OwnershipError : Type 0 where
  job_required foreign_run_name foreign_run_uid foreign_attempt : OwnershipError

-- A nil job is none.
unfoldable pub validate_ownership : Option Job → Identity → Result OwnershipError (Unit {0})
unfolding label itoa
validate_ownership none i = err job_required
validate_ownership (some job) i =
    if not (same (label label_run_name job.labels) i.run_name)
    then err foreign_run_name
    else if ltb 0 (length i.run_uid) && not (same (label label_run_uid job.labels) i.run_uid)
    then err foreign_run_uid
    else if not (same (label label_attempt job.labels) (itoa i.attempt))
    then err foreign_attempt
    else ok tt

pub data IdentityError : Type 0 where
  missing_job not_managed invalid_attempt : IdentityError

abbrev pub with_attempt : Labels → Option ℕ → Result IdentityError Identity
with_attempt labels none = err invalid_attempt
with_attempt labels (some attempt) = ok (record {
  run_name = label label_run_name labels;
  run_uid = label label_run_uid labels;
  revision_id = label label_revision_id labels;
  attempt = attempt;
})

unfoldable pub identity_from_job : Option Job → Result IdentityError Identity
unfolding label atoi
identity_from_job none = err missing_job
identity_from_job (some job) =
    if eqb (length (label label_run_name job.labels)) 0
      || eqb (length (label label_attempt job.labels)) 0
    then err not_managed
    else with_attempt job.labels (atoi (label label_attempt job.labels))
