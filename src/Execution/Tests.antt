-- ===== src/Execution/Tests.antt =====
-- The Job of a second attempt, with a digest that repeats one letter and an API that holds one Job.
use orbitjob.Prelude.{
  ◌≤◌, ◌<◌, ◌≡◌, ◌⊎◌, refl, [], ◌∷◌, Option, none, some, arith, Bytes, codes, same, length,
}
use orbitjob.Prelude.Int.{pos}
use orbitjob.Prelude.Result.{Result, ok, err}
use orbitjob.Execution.{
  atoi, Identity, max_job_name_length, raw_name, job_name, Template, Job, build_job,
  validate_ownership, identity_from_job,
}
use orbitjob.Execution.Names.{Numbered, length-job_name, job_name_injective}
use orbitjob.Execution.Labels.{identity_from_job-build_job, owned_job_identity}
use orbitjob.Execution.Adapter
use orbitjob.Execution.Adapter.{JobClient, not_found, already_exists, ensure_idem}

abbrev eights : Bytes → Bytes
eights s = codes "88888888888888"

abbrev second : Identity
second = record {
  run_name = codes "report-1";
  run_uid = codes "u-7";
  revision_id = codes "3";
  attempt = 2;
}

abbrev long_name : Bytes
long_name = codes "a-run-name-of-a-definition-that-is-much-too-long-for-an-object-x"

abbrev long : Identity
long = record second { run_name = long_name }

second-Numbered : Numbered second
second-Numbered = record { positive = omega arith; fits = omega arith }

second_name : job_name eights second ≡ codes "oj-report-1-2"
unfolding job_name
second_name = refl

hashed_name :
    job_name eights long ≡ codes "oj-a-run-name-of-a-definition-that-is-much-too-long-88888888-2"
unfolding job_name
hashed_name = refl

atoi_signed : atoi (codes "+12") ≡ some 12
unfolding atoi
atoi_signed = refl

atoi_negative : atoi (codes "-12") ≡ none
unfolding atoi
atoi_negative = refl

length-job_name_example : length (job_name eights long) ≤ 63
length-job_name_example = length-job_name eights long (omega arith)

job_name_injective_example :
    (second.attempt ≡ second.attempt)
    × ((second.run_name ≡ second.run_name)
        ⊎ (max_job_name_length < length (raw_name second))
        ⊎ (max_job_name_length < length (raw_name second)))
job_name_injective_example =
    job_name_injective eights second second second-Numbered second-Numbered refl

abbrev shell : Template
shell = record {
  image = "img";
  command = "sh" ∷ [];
  args = [];
  backoff_limit = pos 0;
  active_deadline_seconds = pos 60;
}

abbrev desired : Job
desired = build_job eights second (codes "team") shell

named : (second.run_name ≡ []) → ⊥
named e = ground arith

identity_from_job-build_job_example :
    (validate_ownership (some (build_job eights second (codes "team") shell)) second ≡ ok tt)
    × (identity_from_job (some (build_job eights second (codes "team") shell)) ≡ ok second)
identity_from_job-build_job_example =
    identity_from_job-build_job eights second (codes "team") shell second-Numbered named

desired_owned : validate_ownership (some desired) second ≡ ok tt
unfolding validate_ownership build_job same
desired_owned = refl

owned_job_identity_example :
    (j : Identity) × (identity_from_job (some desired) ≡ ok j)
    × (j.run_name ≡ second.run_name)
    × (j.attempt ≡ second.attempt)
owned_job_identity_example = owned_job_identity desired second second-Numbered named desired_owned

-- A cluster of at most one Job, whatever its name.
abbrev stored : Option Job → Result Adapter.ApiError Job
stored none = err not_found
stored (some job) = ok job

abbrev put : Job → Option Job → Result Adapter.ApiError Job × Option Job
put job none = (ok job, some job)
put job (some old) = (err already_exists, some old)

abbrev one_job : JobClient (Option Job)
one_job = record {
  get = λ namespace name s. stored s;
  create = put;
  delete = λ namespace name s. (ok tt, none);
}
