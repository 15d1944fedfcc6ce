-- ===== src/Retention/Cleared.antt =====
-- When the row of a workflow run may go: its steps' objects went before it.
use Prim.Native.String.{◌++◌ as str_append}
use orbitjob.Prelude.{
  ◌≡◌, ◌⊎◌, refl, String, Bool, true, false, List, [], ◌∷◌, Option, none, some, inl, inr, All,
  Among, if◌then◌else◌,
}
use orbitjob.Prelude.Assoc.{Assoc, lookup}
use orbitjob.Prelude.Int.{ℤ}
use orbitjob.Prelude.Result.{Result, ok, err}
use orbitjob.Trace.{continue}
use orbitjob.Workflow.{WorkflowRun, StepRun}
use orbitjob.Walker.Sweep.{run_object_name}
use orbitjob.Retention.{
  RetainedDefinition, PruneCall, list_active, list_prunable_workflows, list_steps, remove,
  delete_workflow_run, PruneError, refused, Env, P, reaches, removed_name, remove_object,
}
use orbitjob.Retention.Order.{Extends, Kept, removed_name-run_object_name}
use orbitjob.Retention.Workflows.{step_definitions, remove_step, remove_steps}

-- The second trace goes on from the first.
abbrev pub Grown : List PruneCall → List PruneCall → Type 0
Grown h g =
    ((base : List PruneCall) → Extends base h → Extends base g)
    × ((c : PruneCall) → Among c h → Among c g)

pub Grown-trans : (f g h : List PruneCall) → Grown f g → Grown g h → Grown f h
Grown-trans f g h (a, b) (c, d) = (λ base x. c base (a base x), λ x i. d x (b x i))

module _ (env : Env) where
  -- The active definitions, as they were listed after the steps.
  abbrev pub index_at : String → List PruneCall → Assoc RetainedDefinition
  index_at tenant h = step_definitions (env.definitions (list_active tenant ∷ h)) []

  -- The removal of a step's object was accepted, by the name under which it was published, or its
  -- definition is not active any more.
  abbrev pub Cleared : Assoc RetainedDefinition → List PruneCall → StepRun → Type 0
  Cleared index h s =
      (lookup (str_append "uid:" s.source_uid) index ≡ none)
      ⊎ ((d : RetainedDefinition) × (lookup (str_append "uid:" s.source_uid) index ≡ some d)
          × ((name : String) × (k : List PruneCall) × (name
                ≡ run_object_name d.name s.occurrence_key)
              × Extends (remove d.namespace name ∷ k) h
              × (env.accepts k (remove d.namespace name) ≡ true)))

  Cleared-Grown :
      (index : Assoc RetainedDefinition) (h g : List PruneCall) (s : StepRun)
      → Grown h g
      → Cleared index h s
      → Cleared index g s
  Cleared-Grown index h g s (a, b) (inl e) = inl e
  Cleared-Grown index h g s (a, b) (inr (d, e, (name, k, n, x, y))) =
      inr (d, e, (name, k, n, a _ x, y))

  -- A row is deleted only after its steps were listed and each of them was cleared, for a run that the
  -- ledger listed as prunable. Each of those listings keeps at least one run of each outcome.
  abbrev pub StepsCleared : PruneCall → List PruneCall → Type 0
  StepsCleared (delete_workflow_run tenant id) h =
      (run : WorkflowRun) × (uid : String) × (successful failed : ℤ) × (g listing : List PruneCall)
      × (id ≡ run.id)
      × Among run
          (env.prunable_workflows (list_prunable_workflows tenant uid successful failed ∷ listing))
      × Extends (list_prunable_workflows tenant uid successful failed ∷ listing) g
      × Extends (list_steps tenant id ∷ g) h
      × All (Cleared (index_at tenant (list_steps tenant id ∷ g)) h)
          (env.steps (list_steps tenant id ∷ g))
  StepsCleared (list_prunable_workflows tenant uid successful failed) h =
      Kept successful × Kept failed
  StepsCleared _ h = Unit

  abbrev pub StepsFirst : List PruneCall → Type 0
  StepsFirst [] = Unit
  StepsFirst (c ∷ h) = StepsCleared c h × StepsFirst h

  module _ (index : Assoc RetainedDefinition) where
    -- What the removal of some steps comes to.
    abbrev pub Swept :
        List StepRun → List PruneCall → Result PruneError (Unit {0}) × List PruneCall → Type 0
    Swept steps h (ok u, g) = StepsFirst g × Grown h g × All (Cleared index g) steps
    Swept steps h (err e, g) = StepsFirst g

    Swept-continue :
        (s : StepRun) (steps : List StepRun) (h : List PruneCall)
        (r : Result PruneError (Unit {0}) × List PruneCall) (rest : P (Unit {0}))
        → Swept (s ∷ []) h r
        → ((g : List PruneCall) → StepsFirst g → Swept steps g (rest g))
        → Swept (s ∷ steps) h (continue r (λ u. rest))
    Swept-continue s steps h (err e, g) rest q k = q
    Swept-continue s steps h (ok u, g) rest (q, w, (c, z)) k = joined (rest g) (k g q)
      where
        joined :
            (r : Result PruneError (Unit {0}) × List PruneCall)
            → Swept steps g r
            → Swept (s ∷ steps) h r
        joined (ok u, f) (p, v, cs) =
            (p, Grown-trans h g f w v, (Cleared-Grown index g f s v c, cs))
        joined (err e, f) p = p

    Swept-step :
        (s : StepRun) (h : List PruneCall) (o : Option RetainedDefinition)
        → lookup (str_append "uid:" s.source_uid) index ≡ o
        → StepsFirst h
        → Swept (s ∷ []) h (remove_step env s o h)
    Swept-step s h none e q = (q, (λ b x. x, λ c i. i), (inl e, tt))
    Swept-step s h (some d) e q = removed (reaches 8 s.occurrence_key) refl
      where
        object : PruneCall
        object = remove d.namespace (removed_name d.name s.occurrence_key)

        answered :
            reaches 8 s.occurrence_key ≡ true
            → (b : Bool) → env.accepts h object ≡ b
            → Swept
                (s ∷ [])
                h
                (if b then (ok tt, object ∷ h) else (err (refused object), object ∷ h))
        answered l false y = (tt, q)
        answered l true y = (
          (tt, q),
          (λ b x. inr x, λ c i. inr i),
          (
            inr (
              d,
              e,
              (
                removed_name d.name s.occurrence_key,
                h,
                removed_name-run_object_name d.name s.occurrence_key l,
                inl refl,
                y,
              ),
            ),
            tt,
          ),
        )

        removed :
            (b : Bool)
            → reaches 8 s.occurrence_key ≡ b
            → Swept (s ∷ []) h (remove_object env d.namespace d.name s.occurrence_key h)
        removed false l = unfold remove_object in rw l q
        removed true l = unfold remove_object in rw l (answered l (env.accepts h object) refl)

    pub Swept-steps :
        (steps : List StepRun) (h : List PruneCall)
        → StepsFirst h
        → Swept steps h (remove_steps env index steps h)
    unfolding remove_steps
    Swept-steps [] h q = (q, (λ b x. x, λ c i. i), tt)
    Swept-steps (s ∷ steps) h q =
        Swept-continue s steps h
          (remove_step env s (lookup (str_append "uid:" s.source_uid) index) h)
          (remove_steps env index steps)
          (Swept-step s h (lookup (str_append "uid:" s.source_uid) index) refl q)
          (Swept-steps steps)
