-- ===== src/Walker/Ticking.antt =====
-- What a tick starts, and that one run does not stop another.
use Prim.Native.String.{◌++◌ as str_append}
use orbitjob.Prelude.{◌≡◌, String, true, List, [], ◌∷◌, ◌++◌, some, Among}
use orbitjob.Prelude.Assoc.{Assoc}
use orbitjob.Prelude.Result.{Result, ok}
use orbitjob.Workflow.{Task}
use orbitjob.Workflow.Graph.{validate_dag}
use orbitjob.Walker.Facts.{Definition, definition_index}
use orbitjob.Walker.Advance.{Pass}
use orbitjob.Walker.Justified.{StartsReady}
use orbitjob.Walker.Tick.{
  TickCall, list_open_runs, list_active, read_revision, list_steps, made, WorkflowWalker,
}

module _ (w : WorkflowWalker) where
  -- A call that was answered, after those of `h`.
  abbrev pub Answered : List TickCall → TickCall → Type 0
  Answered h c = w.env.accepts h c ≡ true

  -- One of the definitions that are active for the tenant, of the name that the task refers to.
  abbrev pub ActiveFor : String → List TickCall → Task → Definition → Type 0
  ActiveFor tenant active t d =
      Among d (w.env.definitions (list_active tenant ∷ active)) × (d.name ≡ t.job_ref)

  -- A new step or a published object is that of a pass over a run that the ledger listed as open for
  -- the tenant, of the DAG that the run's revision pins, which is valid, with the steps that the
  -- ledger listed for the run and the run's own identity in the keys; and the pass has grounds for
  -- it, with a definition that is active for the tenant.
  abbrev pub OfOpenRun : TickCall → Type 0
  OfOpenRun (made tenant id e) =
      (p : Pass) × (opened active pinning listed : List TickCall) × Answered opened
        (list_open_runs tenant)
      × Among p.run (w.env.open_runs (list_open_runs tenant ∷ opened))
      × (id ≡ p.run.id)
      × Answered pinning (read_revision tenant p.run.revision_id)
      × (w.env.pinned (read_revision tenant p.run.revision_id ∷ pinning) ≡ some p.dag)
      × (validate_dag p.dag ≡ ok tt)
      × Answered listed (list_steps tenant id)
      × (p.steps ≡ w.env.steps (list_steps tenant id ∷ listed))
      × (p.writer.digest ≡ w.digest)
      × (p.writer.source_uid ≡ p.run.source_uid)
      × (p.writer.occurrence_key ≡ p.run.occurrence_key)
      × Answered active (list_active tenant)
      × StartsReady (ActiveFor tenant active) p e
  OfOpenRun _ = Unit

  module _ (tenant : String) (opened active : List TickCall)
      (a : Answered opened (list_open_runs tenant)) (b : Answered active (list_active tenant)) where
    abbrev index : Assoc Definition
    index = definition_index (w.env.definitions (list_active tenant ∷ active)) []
