-- ===== src/Policy/Probes.antt =====
-- Evaluating at the probe of a pattern (concreteTarget in internal/core/domain/policy/subset.go)
-- stands for evaluating at every name that the pattern covers.
use orbitjob.Prelude.{
  ◌≡◌, refl, String, Bool, true, false, not, ◌&&◌, ◌||◌, List, [], ◌∷◌, arith, all, Bytes, same,
  same_iff, eq_iff, ◌==◌, contains,
}
use orbitjob.Prelude.Result.{Result, ok, err}
use orbitjob.Policy.{
  Arn, PolicyError, parse_arn, segment_matches, group_matches, arn_matches, Statement, Document,
  Request, wildcard_action, any_resource, matches,
}
use orbitjob.Policy.Grants.{
  probe_segment, probe_of, probe_of_group, probe, concrete_target, permits_at, atom,
}
use orbitjob.Policy.Decision.{statements, granted, evaluate_lem}

-- No segment of a pattern is the text that stands in for a wildcard.
abbrev pub unprobed_arn : Result PolicyError Arn → Bool
unprobed_arn (err e) = true
unprobed_arn (ok a) =
    not (same a.tenant probe_segment)
    && (not (same a.group probe_segment)
        && (not (same a.type probe_segment) && not (same a.id probe_segment)))

abbrev pub unprobed : List Statement → Bool
unprobed = all (λ st. all (λ s. unprobed_arn (parse_arn s)) st.resource)

segment_at_probe :
    (q p t : Bytes)
    → segment_matches q (probe_of p) ≡ true
    → segment_matches p t ≡ true
    → same q probe_segment ≡ false
    → segment_matches q t ≡ true
unfolding segment_matches
segment_at_probe q p t h k u =
    ground (arith, same_iff q probe_segment, same_iff q p, same_iff p t, same_iff q t)

group_at_probe :
    (q p t : Bytes)
    → group_matches q (probe_of_group p) ≡ true
    → group_matches p t ≡ true
    → same q probe_segment ≡ false
    → group_matches q t ≡ true
unfolding group_matches
group_at_probe q p t h k u =
    ground (arith, same_iff q probe_segment, same_iff q p, same_iff p t, same_iff q t)

arn_at_probe :
    (q p t : Arn)
    → arn_matches q (probe p) ≡ true
    → arn_matches p t ≡ true
    → unprobed_arn (ok q) ≡ true
    → arn_matches q t ≡ true
unfolding arn_matches probe
arn_at_probe q p t h k u = ground (
  arith,
  segment_at_probe q.tenant p.tenant t.tenant,
  group_at_probe q.group p.group t.group,
  segment_at_probe q.type p.type t.type,
  segment_at_probe q.id p.id t.id,
)

any_resource_at_probe :
    (ps : List Bytes) (p t : Arn)
    → any_resource ps (probe p) ≡ true
    → arn_matches p t ≡ true
    → all (λ s. unprobed_arn (parse_arn s)) ps ≡ true
    → any_resource ps t ≡ true
unfolding any_resource
any_resource_at_probe [] p t h k u = cc
any_resource_at_probe (s ∷ ps) p t h k u =
    go (parse_arn s) refl h u (λ e v. any_resource_at_probe ps p t e k v)
  where
    go :
        (r : Result PolicyError Arn)
        → parse_arn s ≡ r
        → any_resource (s ∷ ps) (probe p) ≡ true
        → all (λ s. unprobed_arn (parse_arn s)) (s ∷ ps) ≡ true
        → (any_resource ps (probe p) ≡ true
            → all (λ s. unprobed_arn (parse_arn s)) ps ≡ true
            → any_resource ps t ≡ true)
        → any_resource (s ∷ ps) t ≡ true
    go (err x) e h u ih = ground arith
    go (ok q) e h u ih = ground (arith, arn_at_probe q p t)

abbrev pub at : String → Arn → Request
at action target = record { action = action; resource = target }

-- What is granted for an action at the probe of a pattern is granted for every request of that
-- action (of any action, if it is the wildcard) at a resource that the pattern covers.
pub granted-at-probe :
    (sts : List Statement) (a : String) (p : Arn) (r : Request)
    → granted sts (at a (probe p)) ≡ true
    → arn_matches p r.resource ≡ true
    → (a == r.action || a == wildcard_action) ≡ true
    → unprobed sts ≡ true
    → granted sts r ≡ true
unfolding matches
granted-at-probe [] a p r g k c u = cc
granted-at-probe (st ∷ sts) a p r g k c u = ground (
  arith,
  granted-at-probe sts a p r,
  any_resource_at_probe st.resource p r.resource,
  eq_iff a r.action,
  eq_iff a wildcard_action,
)

-- The same for a pattern as text.
pub granted_at_pattern :
    (ds : List Document) (a : String) (s : Bytes) (r : Request)
    → permits_at ds a (concrete_target s) ≡ true
    → any_resource (s ∷ []) r.resource ≡ true
    → (a == r.action || a == wildcard_action) ≡ true
    → unprobed (statements ds) ≡ true
    → granted (statements ds) r ≡ true
unfolding concrete_target any_resource
granted_at_pattern ds a s r h k c u = go (parse_arn s) refl h k
  where
    go :
        (q : Result PolicyError Arn)
        → parse_arn s ≡ q
        → permits_at ds a (concrete_target s) ≡ true
        → any_resource (s ∷ []) r.resource ≡ true
        → granted (statements ds) r ≡ true
    go (err x) e h k = ground arith
    go (ok q) e h k =
        ground (arith, granted-at-probe (statements ds) a q r, evaluate_lem ds (at a (probe q)))

pub matches-atom :
    (a : String) (s : Bytes) (r : Request)
    → matches (atom a s) r
      ≡ ((a == r.action || a == wildcard_action) && any_resource (s ∷ []) r.resource)
unfolding matches
matches-atom a s r = ground arith

pub any_resource-cons :
    (s : Bytes) (rs : List Bytes) (t : Arn)
    → any_resource (s ∷ rs) t ≡ (any_resource (s ∷ []) t || any_resource rs t)
unfolding any_resource
any_resource-cons s rs t = ground arith

pub matches_lem :
    (st : Statement) (r : Request)
    → matches st r ≡ (
        (contains st.action r.action || contains st.action wildcard_action)
        && any_resource st.resource r.resource)
unfolding matches
matches_lem st r = ground arith
