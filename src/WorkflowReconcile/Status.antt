-- ===== src/WorkflowReconcile/Status.antt =====
-- The status of a WorkflowRun says of each task what the ledger says.
use orbitjob.Prelude.{
  ◌≡◌, ◌⊎◌, refl, String, false, List, [], ◌∷◌, Option, none, some, inl, inr, All, Among,
  Bool-cases, ◌==◌, eq_iff, map, ◌∙◌,
}
use orbitjob.Prelude.Assoc.{Assoc, lookup, insert, lookup-insert}
use orbitjob.Workflow.{StepRun, WorkflowRun}
use orbitjob.Walker.Facts.{step_occurrence_key, by_key}
use orbitjob.WorkflowReconcile.{decided, is_skipped, step_status, step_statuses, status_of}
use orbitjob.WorkflowReconcile.Spec.{TaskSpec, WorkflowSpec, StepStatus, Runtime}

-- No step of the list has the key.
abbrev pub Absent : String → List StepRun → Type 0
Absent key = All (λ s. (s.occurrence_key == key) ≡ false)

-- What a lookup by key finds.
abbrev pub Found : List StepRun → String → Option StepRun → Type 0
Found steps key none = Absent key steps
Found steps key (some s) = Among s steps × (s.occurrence_key ≡ key)

-- The later of two steps with a key hides the earlier.
lookup-by_key :
    (steps : List StepRun) (m : Assoc StepRun) (key : String)
    → (Absent key steps × (lookup key (by_key steps m) ≡ lookup key m))
      ⊎ ((s : StepRun) × Among s steps
          × (s.occurrence_key ≡ key)
          × (lookup key (by_key steps m) ≡ some s))
unfolding by_key
lookup-by_key [] m key = inl (tt, refl)
lookup-by_key (x ∷ xs) m key = elim (lookup-by_key xs (insert x.occurrence_key x m) key) [
  | inr (s, among, has, is) ↦ inr (s, inr among, has, is)
  | inl (absent, is) ↦ elim (Bool-cases (x.occurrence_key == key)) [
    | inl e ↦ inr (
      x,
      inl refl,
      (eq_iff x.occurrence_key key).0 e,
      is ∙ (lookup-insert key x.occurrence_key x m ∙ rw e refl),
    )
    | inr e ↦ inl ((e, absent), is ∙ (lookup-insert key x.occurrence_key x m ∙ rw e refl))
  ]
]

module _ (rt : Runtime) (row : WorkflowRun) (steps : List StepRun) where
  -- An entry reports a step of its task's own key with that step's phase and attempt, or, where no
  -- step has the key, whether the ledger's decision skipped the task, and why.
  abbrev pub Reported : StepStatus → Type 0
  Reported e =
      (e.occurrence_key ≡ step_occurrence_key rt.digest row.source_uid row.occurrence_key e.task)
      × (((s : StepRun) × Among s steps
            × (s.occurrence_key ≡ e.occurrence_key)
            × (e.phase ≡ some s.phase)
            × (e.attempt ≡ s.attempt)
            × (e.skipped ≡ false))
          ⊎ (Absent e.occurrence_key steps
              × (e.phase ≡ none)
              × (e.skipped ≡ is_skipped (lookup e.task row.task_decisions))
              × (e.skip_reason ≡ decided (lookup e.task row.task_decisions))))

  Reported-statuses :
      (ts : List TaskSpec) → All Reported (step_statuses rt row (by_key steps []) ts)
  unfolding step_statuses
  Reported-statuses [] = tt
  Reported-statuses (t ∷ ts) = (
    entry (step_occurrence_key rt.digest row.source_uid row.occurrence_key t.name) refl,
    Reported-statuses ts,
  )
    where
      entry :
          (key : String)
          → key ≡ step_occurrence_key rt.digest row.source_uid row.occurrence_key t.name
          → Reported (step_status row t key (lookup key (by_key steps [])))
      entry key e = elim (lookup-by_key steps [] key) [
        | inl (absent, is) ↦ rw is (e, inr (absent, refl, refl, refl))
        | inr (s, among, has, is) ↦ rw is (e, inl (s, among, has, refl, refl, refl))
      ]

  step_task :
      (t : TaskSpec) (key : String) (o : Option StepRun) → (step_status row t key o).task ≡ t.name
  unfolding step_status
  step_task t key none = refl
  step_task t key (some s) = refl

  named :
      (ts : List TaskSpec)
      → map (λ e. e.task) (step_statuses rt row (by_key steps []) ts) ≡ map (λ t. t.name) ts
  unfolding step_statuses
  named [] = refl
  named (t ∷ ts) = cc (step_task t _ (lookup _ (by_key steps [])), named ts)

  -- The status of a run has one entry for each task of the pinned workflow, in its order, and each
  -- entry reports a step of the task's own occurrence key, or, if there is none, the ledger's
  -- decision to skip the task.
  pub status_of-Reported :
      (d : WorkflowSpec)
      → (map (λ e. e.task) (status_of rt row steps d).steps ≡ map (λ t. t.name) d.tasks)
        × All Reported (status_of rt row steps d).steps
  unfolding status_of
  status_of-Reported d = (named d.tasks, Reported-statuses d.tasks)
