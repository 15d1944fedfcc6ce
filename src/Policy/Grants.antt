-- ===== src/Policy/Grants.antt =====
-- internal/core/domain/policy/subset.go, intersect.go and guard.go: comparing grants by evaluating
-- them at a probe.
use orbitjob.Prelude.{
  String, Bool, true, false, not, ◌||◌, List, [], ◌∷◌, ◌++◌, Option, none, some, Bytes, codes, same,
  if◌then◌else◌,
}
use orbitjob.Prelude.Result.{Result, ok, err}
use orbitjob.Policy.{
  Arn, PolicyError, privilege_escalation, star, is_empty, parse_arn, allow, Statement, Document,
  is_deny, is_allow, evaluate,
}

abbrev pub probe_segment : Bytes
probe_segment = codes "probe00000000000000000000"

abbrev pub probe_of : Bytes → Bytes
probe_of s = if same s star then probe_segment else s

abbrev pub probe_of_group : Bytes → Bytes
probe_of_group s = if is_empty s || same s star then probe_segment else s

unfoldable pub probe : Arn → Arn
probe a = record {
  tenant = probe_of a.tenant;
  group = probe_of_group a.group;
  type = probe_of a.type;
  id = probe_of a.id;
}

-- An error becomes `none`.
unfoldable pub concrete_target : Bytes → Option Arn
unfolding probe
concrete_target pattern = elim (parse_arn pattern) [ err e ↦ none | ok a ↦ some (probe a) ]

-- Whether documents permit an action at the target of a pattern.
abbrev pub permits_at : List Document → String → Option Arn → Bool
permits_at docs action none = false
permits_at docs action (some target) = evaluate docs (record { action = action; resource = target })

unfoldable pub action_effective : String → List Bytes → List Document → Bool
unfolding concrete_target
action_effective action [] superset = true
action_effective action (p ∷ ps) superset =
    if not (permits_at superset action (concrete_target p))
    then false
    else action_effective action ps superset

unfoldable pub every_atom_effective : List String → List Bytes → List Document → Bool
unfolding action_effective
every_atom_effective [] resource superset = true
every_atom_effective (a ∷ rest) resource superset =
    if not (action_effective a resource superset)
    then false
    else every_atom_effective rest resource superset

unfoldable pub permits_statements : List Statement → List Document → Bool
unfolding every_atom_effective
permits_statements [] superset = true
permits_statements (st ∷ sts) superset =
    let rest = permits_statements sts superset in
    if not (is_allow st.effect)
    then rest
    else if not (every_atom_effective st.action st.resource superset)
    then false
    else rest

unfoldable pub permits : List Document → List Document → Bool
unfolding permits_statements
permits [] superset = true
permits (d ∷ ds) superset =
    if not (permits_statements d.statement superset) then false else permits ds superset

unfoldable pub check_grantable : List Document → List Document → Result PolicyError (Unit {0})
unfolding permits
check_grantable caller granted = if permits granted caller then ok tt else err privilege_escalation

unfoldable pub propagate_boundary :
    Option Document → Option Document → Result PolicyError (Option Document)
unfolding permits
propagate_boundary none requested = ok requested
propagate_boundary (some ceiling) none = ok (some ceiling)
propagate_boundary (some ceiling) (some requested) =
    if not (permits (requested ∷ []) (ceiling ∷ []))
    then err privilege_escalation
    else ok (some requested)

abbrev pub atom : String → Bytes → Statement
atom action resource = record { effect = allow; action = action ∷ []; resource = resource ∷ [] }

-- The innermost loop of Intersect.
unfoldable pub atoms_of_action : List Document → String → List Bytes → List Statement
unfolding concrete_target
atoms_of_action boundary action [] = []
atoms_of_action boundary action (r ∷ rs) =
    let rest = atoms_of_action boundary action rs in
    if permits_at boundary action (concrete_target r) then atom action r ∷ rest else rest

unfoldable pub atoms : List Document → List String → List Bytes → List Statement
unfolding atoms_of_action
atoms boundary [] resource = []
atoms boundary (a ∷ rest) resource =
    atoms_of_action boundary a resource ++ atoms boundary rest resource

unfoldable pub kept : List Document → List Statement → List Statement
unfolding atoms
kept boundary [] = []
kept boundary (st ∷ sts) =
    let rest = kept boundary sts in
    if is_deny st.effect then st ∷ rest else atoms boundary st.action st.resource ++ rest

abbrev pub filled : Document → List Document → List Document
filled d rest = elim d.statement [ [] ↦ rest | st ∷ sts ↦ d ∷ rest ]

unfoldable pub denies : List Statement → List Statement
denies [] = []
denies (st ∷ sts) = let rest = denies sts in if is_deny st.effect then st ∷ rest else rest

unfoldable pub intersect : List Document → Document → List Document
unfolding kept denies
intersect [] boundary = filled (record boundary { statement = denies boundary.statement }) []
intersect (d ∷ ds) boundary =
    filled (record d { statement = kept (boundary ∷ []) d.statement }) (intersect ds boundary)
