-- ===== src/Walker/Steps.antt =====
-- What byKey, stepFacts and definitionIndex find: the steps of a pass by key, their states by task, and
-- the definitions by name.
use Prim.Native.String.{◌++◌ as str_append}
use text.Mathlib.TextLemmas.{append_cancel_left, cons-append}
use orbitjob.Prelude.{
  ℕ, ◌≡◌, ◌≢◌, ◌⊎◌, refl, String, Bool, true, false, ◌||◌, List, [], ◌∷◌, Option, none, some, arith,
  inl, inr, Among, Bool-cases, contains, ◌==◌, eq_iff, if◌then◌else◌, codes, ap, sym, subst, ◌∙◌,
}
use orbitjob.Prelude.Assoc.{Assoc, lookup, insert, is_some, lookup-insert}
use orbitjob.Run.{Phase}
use orbitjob.Run
use orbitjob.Workflow.{StepRun, StepState, Task}
use orbitjob.Walker.Facts.{
  Definition, Facts, definition_index, by_key, is_resolved, collect_facts, task_names,
}

abbrev pub later {ℓ} : {A : Type ℓ} → Option A → Option A → Option A
later (some x) o = some x
later none o = o

-- The last step of a list with a key.
abbrev pub step_of : String → List StepRun → Option StepRun
step_of key [] = none
step_of key (s ∷ ss) = later (step_of key ss) (if s.occurrence_key == key then some s else none)

pub lookup-by_key :
    (key : String) (ss : List StepRun) (m : Assoc StepRun)
    → lookup key (by_key ss m) ≡ later (step_of key ss) (lookup key m)
unfolding by_key
lookup-by_key key [] m = refl
lookup-by_key key (s ∷ ss) m =
    lookup-by_key key ss (insert s.occurrence_key s m)
    ∙ rw (lookup-insert key s.occurrence_key s m)
        (settled (step_of key ss) (s.occurrence_key == key))
  where
    settled :
        (o : Option StepRun) (b : Bool)
        → later o (if b then some s else lookup key m)
          ≡ later (later o (if b then some s else none)) (lookup key m)
    settled (some x) b = refl
    settled none true = refl
    settled none false = refl

once_later {ℓ} :
    {A : Type ℓ} (b c : Bool) (x y o : Option A)
    → (b ≡ true → y ≡ x)
    → (if c then later x (if b then later y o else o) else if b then later y o else o)
      ≡ (if b || c then later x o else o)
once_later true true (some x) y o e = refl
once_later true true none y o e = rw (e refl) refl
once_later true false x y o e = rw (e refl) refl
once_later false true x y o e = refl
once_later false false x y o e = refl

-- The phase of a run that is over, or that cannot be told to be.
abbrev pub has_ended : Phase → Bool
has_ended Phase.succeeded = true
has_ended Phase.failed = true
has_ended Phase.canceled = true
has_ended Phase.cancel_unknown = true
has_ended _ = false

abbrev pub is_over : Option StepRun → Bool
is_over none = false
is_over (some s) = has_ended s.phase

abbrev pub resolved_state : (StepRun → StepState) → Option StepRun → Option StepState
resolved_state state_of none = none
resolved_state state_of (some s) = if is_resolved s.phase then some (state_of s) else none

pub is_resolved-has_ended : (p : Phase) → is_resolved p ≡ has_ended p
unfolding is_resolved Run.terminal
is_resolved-has_ended Phase.pending = refl
is_resolved-has_ended Phase.creating_attempt = refl
is_resolved-has_ended Phase.running = refl
is_resolved-has_ended Phase.retry_waiting = refl
is_resolved-has_ended Phase.succeeded = refl
is_resolved-has_ended Phase.failed = refl
is_resolved-has_ended Phase.cancel_requested = refl
is_resolved-has_ended Phase.canceled = refl
is_resolved-has_ended Phase.cancel_unknown = refl

pub resolved_state-is_over :
    (state_of : StepRun → StepState) (o : Option StepRun)
    → is_some (resolved_state state_of o) ≡ is_over o
resolved_state-is_over state_of none = refl
resolved_state-is_over state_of (some s) = ground (arith, is_resolved-has_ended s.phase)

module _ (key : String → String) (rows : Assoc StepRun) (state_of : StepRun → StepState) where
  abbrev row : String → Option StepRun
  row n = lookup (key n) rows

  -- The facts after one task, whose row is `o`.
  abbrev after : Task → Facts → Option StepRun → Facts
  after t f none = f
  after t f (some s) =
      if is_resolved s.phase
      then record {
        step_by_task = insert t.name s f.step_by_task;
        states = insert t.name (state_of s) f.states;
      }
      else record f { step_by_task = insert t.name s f.step_by_task }

  after-states :
      (t : Task) (f : Facts) (o : Option StepRun) (n : String)
      → lookup n (after t f o).states ≡ (
          if t.name == n
          then later (resolved_state state_of o) (lookup n f.states)
          else lookup n f.states)
  after-states t f none n = ground arith
  after-states t f (some s) n = elim (Bool-cases (is_resolved s.phase)) [
    | inl e ↦ rw e (lookup-insert n t.name (state_of s) f.states)
    | inr e ↦ rw e (ground arith)
  ]

  after-step_by_task :
      (t : Task) (f : Facts) (o : Option StepRun) (n : String)
      → lookup n (after t f o).step_by_task
        ≡ (if t.name == n then later o (lookup n f.step_by_task) else lookup n f.step_by_task)
  after-step_by_task t f none n = ground arith
  after-step_by_task t f (some s) n = elim (Bool-cases (is_resolved s.phase)) [
    | inl e ↦ rw e (lookup-insert n t.name s f.step_by_task)
    | inr e ↦ rw e (lookup-insert n t.name s f.step_by_task)
  ]

  collect_facts-after :
      (t : Task) (ts : List Task) (f : Facts)
      → collect_facts key rows state_of (t ∷ ts) f
        ≡ collect_facts key rows state_of ts (after t f (row t.name))
  unfolding collect_facts
  collect_facts-after t ts f = split (lookup (key t.name) rows)
    where
      split :
          (o : Option StepRun)
          → collect_facts key rows state_of ts (elim o [
            | none ↦ f
            | some s ↦
                if is_resolved s.phase
                then record {
                  step_by_task = insert t.name s f.step_by_task;
                  states = insert t.name (state_of s) f.states;
                }
                else record f { step_by_task = insert t.name s f.step_by_task }
          ])
            ≡ collect_facts key rows state_of ts (after t f o)
      split none = refl
      split (some s) = refl

  -- A task of the list has the state of the last step with its key, if that step is resolved.
  pub collect_facts-states :
      (ts : List Task) (f : Facts) (n : String)
      → lookup n (collect_facts key rows state_of ts f).states ≡ (
          if contains (task_names ts) n
          then later (resolved_state state_of (row n)) (lookup n f.states)
          else lookup n f.states)
  collect_facts-states [] f n = unfold collect_facts in unfold task_names in refl
  collect_facts-states (t ∷ ts) f n =
      ap (λ (g : Facts). lookup n g.states) (collect_facts-after t ts f)
      ∙ (collect_facts-states ts (after t f (row t.name)) n
          ∙ rw (after-states t f (row t.name) n) (
              unfold task_names in
              once_later (t.name == n) (contains (task_names ts) n)
                (resolved_state state_of (row n)) (resolved_state state_of (row t.name))
                (lookup n f.states)
                (λ e.
                  ap (λ (m : String). resolved_state state_of (row m)) ((eq_iff t.name n).0 e))))

  pub collect_facts-step_by_task :
      (ts : List Task) (f : Facts) (n : String)
      → lookup n (collect_facts key rows state_of ts f).step_by_task ≡ (
          if contains (task_names ts) n
          then later (row n) (lookup n f.step_by_task)
          else lookup n f.step_by_task)
  collect_facts-step_by_task [] f n = unfold collect_facts in unfold task_names in refl
  collect_facts-step_by_task (t ∷ ts) f n =
      ap (λ (g : Facts). lookup n g.step_by_task) (collect_facts-after t ts f)
      ∙ (collect_facts-step_by_task ts (after t f (row t.name)) n
          ∙ rw (after-step_by_task t f (row t.name) n) (
              unfold task_names in
              once_later (t.name == n) (contains (task_names ts) n) (row n) (row t.name)
                (lookup n f.step_by_task)
                (λ e. ap (λ (m : String). row m) ((eq_iff t.name n).0 e))))

names_apart : (x y : String) → str_append "uid:" x ≢ str_append "name:" y
names_apart x y e =
    absurd (heads (ap codes (sym (cons-append "u" "id:" x) ∙ (e ∙ cons-append "n" "ame:" y))))
  where
    heads : {s t : List ℕ} → (117 ∷ s) ≡ (110 ∷ t) → ⊥
    heads f = ground arith

-- The definition that an index finds by a name is one of the list, of that name.
pub lookup-definition_index :
    (n : String) (ds : List Definition) (m : Assoc Definition) (d : Definition)
    → lookup (str_append "name:" n) (definition_index ds m) ≡ some d
    → (Among d ds × (d.name ≡ n)) ⊎ (lookup (str_append "name:" n) m ≡ some d)
unfolding definition_index
lookup-definition_index n [] m d e = inr e
lookup-definition_index n (x ∷ ds) m d e =
    let name = str_append "name:" x.name in
    let uid = str_append "uid:" x.source_uid in
    let key = str_append "name:" n in
    elim (lookup-definition_index n ds (insert uid x (insert name x m)) d e) [
      | inl (i, named) ↦ inl (inr i, named)
      | inr f ↦ elim (Bool-cases (name == key)) [
        | inl y ↦
            let same : x ≡ d = ground (
              arith,
              y,
              f,
              lookup-insert key uid x (insert name x m),
              lookup-insert key name x m,
              eq_iff uid key,
              names_apart x.source_uid n,
            ) in
            inl (
              inl (sym same),
              subst (λ (z : Definition). z.name ≡ n) same
                  (append_cancel_left "name:" x.name n ((eq_iff name key).0 y)),
            )
        | inr y ↦ inr (
            ground (
              arith,
              y,
              f,
              lookup-insert key uid x (insert name x m),
              lookup-insert key name x m,
              eq_iff uid key,
              names_apart x.source_uid n,
            ))
      ]
    ]
