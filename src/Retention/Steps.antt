-- ===== src/Retention/Steps.antt =====
-- The order of the removals of a sweep of workflow runs: the objects of a run's steps go before its
-- row.

use orbitjob.Prelude.{
  ℕ, ◌+◌, ◌≡◌, refl, String, Bool, true, false, List, [], ◌∷◌, Option, none, some, inl, inr, Among,
  if◌then◌else◌,
}
use orbitjob.Prelude.Int.{ℤ, pos}
use orbitjob.Prelude.Result.{Result, ok, err}
use orbitjob.Trace.{Holds, Holds-bind, Holds-then, continue, ◌>>◌}
use orbitjob.Workflow.{WorkflowRun, StepRun}
use orbitjob.Retention.{
  HistoryPolicy, RetainedDefinition, PruneCall, list_active, list_active_workflows,
  list_prunable_workflows, list_steps, delete_workflow_run, PruneError, refused, Env, P, ask,
  limit_or, count,
}
use orbitjob.Retention.Order.{Extends, Kept, Kept-limit}
use orbitjob.Retention.Cleared.{
  Grown, Grown-trans, index_at, StepsCleared, StepsFirst, Swept, Swept-steps,
}
use orbitjob.Retention.Workflows.{
  step_definitions, remove_steps, remove_listed, remove_step_objects, prune_workflow_runs,
  prune_workflow_kept, prune_each_workflow, sweep_workflows_from, sweep_workflows,
}

module _ (env : Env) where
  module _ (tenant uid : String) (successful failed : ℤ) (listing : List PruneCall) where
    abbrev listed : List PruneCall
    listed = list_prunable_workflows tenant uid successful failed ∷ listing

    module _ (run : WorkflowRun) (m : Among run (env.prunable_workflows listed)) where
      -- What the removal of the objects of a run's steps comes to: the row may go.
      abbrev Emptied : List PruneCall → Result PruneError (Unit {0}) × List PruneCall → Type 0
      Emptied h (ok u, g) =
          StepsFirst env g × Grown h g × StepsCleared env (delete_workflow_run tenant run.id) g
      Emptied h (err e, g) = StepsFirst env g

      Emptied-objects :
          (h : List PruneCall)
          → StepsFirst env h
          → Extends listed h
          → Emptied h (remove_step_objects env tenant run h)
      unfolding remove_step_objects
      Emptied-objects h q x = answered (env.accepts h c)
        where
          c : PruneCall
          c = list_steps tenant run.id

          from_swept :
              (steps : List StepRun) (k : List PruneCall)
              → env.steps (c ∷ h) ≡ steps
              → Grown (c ∷ h) k
              → (r : Result PruneError (Unit {0}) × List PruneCall)
              → Swept env (index_at env tenant (c ∷ h)) steps k r
              → Emptied h r
          from_swept steps k e w (err y, g) s = s
          from_swept steps k e w (ok u, g) (s, v, cs) =
              let grown = Grown-trans (c ∷ h) k g w v in
              (
                s,
                (λ b y. grown.0 b (inr y), λ y i. grown.1 y (inr i)),
                (
                  run,
                  uid,
                  successful,
                  failed,
                  h,
                  listing,
                  refl,
                  m,
                  x,
                  grown.0 (c ∷ h) (inl refl),
                  rw e cs,
                ),
              )

          active :
              (b : Bool) (s : StepRun) (steps : List StepRun)
              → env.steps (c ∷ h) ≡ s ∷ steps
              → Emptied h (
                  continue
                    (if b
                      then (ok tt, list_active tenant ∷ (c ∷ h))
                      else (err (refused (list_active tenant)), list_active tenant ∷ (c ∷ h)))
                    (λ u g.
                      remove_steps env (step_definitions (env.definitions g) []) (s ∷ steps) g))
          active false s steps e = (tt, (tt, q))
          active true s steps e =
              let k : List PruneCall = list_active tenant ∷ (c ∷ h) in
              from_swept (s ∷ steps) k e (λ b y. inr y, λ y i. inr i)
                (remove_steps env (index_at env tenant (c ∷ h)) (s ∷ steps) k)
                (Swept-steps env (index_at env tenant (c ∷ h)) (s ∷ steps) k (tt, (tt, q)))

          swept :
              (steps : List StepRun)
              → env.steps (c ∷ h) ≡ steps
              → Emptied h (remove_listed env tenant steps (c ∷ h))
          swept [] e =
              from_swept [] (c ∷ h) e (λ b y. y, λ y i. i) (ok tt, c ∷ h)
                ((tt, q), (λ b y. y, λ y i. i), tt)
          swept (s ∷ steps) e = active (env.accepts (c ∷ h) (list_active tenant)) s steps e

          answered :
              (b : Bool)
              → Emptied h (
                  continue
                    (if b then (ok tt, c ∷ h) else (err (refused c), c ∷ h))
                    (λ u g. remove_listed env tenant (env.steps g) g))
          answered false = (tt, q)
          answered true = swept (env.steps (c ∷ h)) refl

    StepsFirst-runs :
        (runs : List WorkflowRun) (removed : ℕ) (h : List PruneCall)
        → ((run : WorkflowRun) → Among run runs → Among run (env.prunable_workflows listed))
        → StepsFirst env h
        → Extends listed h
        → StepsFirst env (prune_workflow_runs env tenant runs removed h).1
    unfolding prune_workflow_runs
    StepsFirst-runs [] removed h m q x = q
    StepsFirst-runs (run ∷ runs) removed h m q x =
        emptied (remove_step_objects env tenant run h)
          (Emptied-objects run (m run (inl refl)) h q x)
          (λ n g. StepsFirst-runs runs n g (λ r i. m r (inr i)))
      where
        row : PruneCall
        row = delete_workflow_run tenant run.id

        next : ℕ → P ℕ
        next n = prune_workflow_runs env tenant runs n

        emptied :
            (r : Result PruneError (Unit {0}) × List PruneCall)
            → Emptied run (m run (inl refl)) h r
            → ((n : ℕ) (g : List PruneCall)
                → StepsFirst env g
                → Extends listed g
                → StepsFirst env (next n g).1)
            → StepsFirst env
                (continue r (λ u. ask env row >> λ k. next (count (env.deleted k) removed) k)).1
        emptied (err e, g) p k = p
        emptied (ok u, g) (p, w, c) k =
            Holds-then (StepsFirst env) env.accepts refused row
              (λ k. next (count (env.deleted k) removed) k) g (c, p)
              (k (count (env.deleted (row ∷ g)) removed) (row ∷ g) (c, p) (inr (w.0 listed x)))

  StepsFirst-definition :
      (tenant : String) (d : RetainedDefinition) (o : Option HistoryPolicy)
      → Holds (StepsFirst env) (prune_workflow_kept env tenant d o)
  unfolding prune_workflow_kept
  StepsFirst-definition tenant d none h q = q
  StepsFirst-definition tenant d (some policy) h q =
      let keeps : Kept (limit_or (pos 3) policy.successful_runs)
          × Kept (limit_or (pos 3) policy.failed_runs) =
        (Kept-limit policy.successful_runs, Kept-limit policy.failed_runs) in
      Holds-then (StepsFirst env) env.accepts refused _ _ h (keeps, q)
        (StepsFirst-runs tenant d.source_uid _ _ h _ 0 _ (λ r i. i) (keeps, q) (inl refl))

  StepsFirst-each :
      (tenant : String) (ds : List RetainedDefinition) (removed : ℕ)
      → Holds (StepsFirst env) (prune_each_workflow env tenant ds removed)
  unfolding prune_each_workflow
  StepsFirst-each tenant [] removed = λ h q. q
  StepsFirst-each tenant (d ∷ ds) removed =
      Holds-bind (StepsFirst env) (prune_workflow_kept env tenant d d.history) _
        (StepsFirst-definition tenant d d.history) (λ n. StepsFirst-each tenant ds (removed + n))

  StepsFirst-tenants :
      (tenants : List String) (removed : ℕ)
      → Holds (StepsFirst env) (sweep_workflows_from env tenants removed)
  unfolding sweep_workflows_from
  StepsFirst-tenants [] removed = λ h q. q
  StepsFirst-tenants (tenant ∷ tenants) removed = λ h q.
      Holds-then (StepsFirst env) env.accepts refused (list_active_workflows tenant) _ h (tt, q)
        (Holds-bind (StepsFirst env)
          (λ g. prune_each_workflow env tenant (env.definitions g) removed g) _
          (λ g. StepsFirst-each tenant (env.definitions g) removed g) (StepsFirst-tenants tenants)
          (list_active_workflows tenant ∷ h) (tt, q))

  -- A sweep of workflow runs deletes a run's row only after the ledger listed the run's steps and the
  -- removal of each step's JobRun object was accepted, by the name under which it was published,
  -- unless the step's definition is not active any more. The run was listed as prunable for the same tenant in
  -- this sweep, and each listing asks to keep at least one run that succeeded and one that failed.
  pub sweep_workflows-StepsFirst :
      (tenants : List String) → StepsFirst env (sweep_workflows env tenants []).1
  unfolding sweep_workflows
  sweep_workflows-StepsFirst tenants = StepsFirst-tenants tenants 0 [] tt
