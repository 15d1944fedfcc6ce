-- ===== src/Policy/Tests.antt =====
-- The theorems on names, decisions and delegation at concrete policies.
use orbitjob.Prelude.{◌≡◌, refl, true, false, not, ◌&&◌, [], ◌∷◌, some, arith, Bytes, codes, same}
use orbitjob.Prelude.Result.{ok}
use orbitjob.Policy.{Arn, allow, deny, Document, Request, parse_arn, arn_matches, evaluate}
use orbitjob.Policy.Grants.{intersect, check_grantable, propagate_boundary}
use orbitjob.Policy.Known.{self_token}
use orbitjob.Policy.RoundTrip.{Renderable}
use orbitjob.Policy.Decision.{statements, denied, granted, evaluate_lem}
use orbitjob.Policy.Text.{split, cut}
use orbitjob.Policy.Boundary.{intersect_narrows}
use orbitjob.Policy.Probes.{unprobed}
use orbitjob.Policy.Delegation.{known_effects, on, one_document, denied_action_delegated}

abbrev own_jobs : Bytes
own_jobs = codes "orbitjob:self:g:job/j1"

abbrev one_job : Arn
one_job = record { tenant = self_token; group = codes "g"; type = codes "job"; id = codes "j1" }

abbrev reading : Document
reading = record { version = "1"; statement = on allow "job:Get" own_jobs ∷ [] }

abbrev read_one : Request
read_one = record { action = "job:Get"; resource = one_job }

one_job-Renderable : Renderable one_job
one_job-Renderable = record {
  tenant_plain = refl;
  group_plain = refl;
  type_plain = refl;
  type_whole = refl;
  id_plain = refl;
  type_filled = refl;
  id_filled = refl;
}

own_jobs_parse : parse_arn own_jobs ≡ ok one_job
unfolding parse_arn split cut same
own_jobs_parse = refl

reads_allowed : evaluate (intersect (reading ∷ []) reading) read_one ≡ true
unfolding evaluate intersect parse_arn split cut arn_matches same
reads_allowed = refl

grantable : check_grantable (reading ∷ []) (reading ∷ []) ≡ ok tt
unfolding check_grantable evaluate parse_arn split cut arn_matches same
grantable = refl

reading_evaluates : evaluate (reading ∷ []) read_one ≡ true
unfolding evaluate parse_arn split cut arn_matches same
reading_evaluates = refl

no_probe : unprobed reading.statement ≡ true
unfolding parse_arn split cut same
no_probe = refl

evaluate_lem_example : evaluate (reading ∷ []) read_one ≡ (
    not (denied (statements (reading ∷ [])) read_one)
    && granted (statements (reading ∷ [])) read_one)
evaluate_lem_example = evaluate_lem (reading ∷ []) read_one

intersect_narrows_example :
    (evaluate (reading ∷ []) read_one ≡ true) × (evaluate (reading ∷ []) read_one ≡ true)
intersect_narrows_example = intersect_narrows (reading ∷ []) reading read_one no_probe reads_allowed

propagated : propagate_boundary (some reading) (some reading) ≡ ok (some reading)
unfolding propagate_boundary evaluate parse_arn split cut arn_matches same
propagated = refl

known_requested : (d : Document) → some reading ≡ some d → known_effects d.statement ≡ true
known_requested d e = ground arith

own_job_matches : arn_matches one_job one_job ≡ true
unfolding arn_matches same
own_job_matches = refl

denied_action_delegated_example :
    (check_grantable
        (one_document (on allow "*" own_jobs ∷ on deny "job:Trigger" own_jobs ∷ []))
        (one_document (on allow "*" own_jobs ∷ []))
      ≡ ok tt)
    × (evaluate
          (one_document (on allow "*" own_jobs ∷ []))
          (record { action = "job:Trigger"; resource = one_job })
        ≡ true)
    × (evaluate
          (one_document (on allow "*" own_jobs ∷ on deny "job:Trigger" own_jobs ∷ []))
          (record { action = "job:Trigger"; resource = one_job })
        ≡ false)
denied_action_delegated_example =
    denied_action_delegated "job:Trigger" own_jobs one_job one_job refl own_jobs_parse
      own_job_matches
