-- ===== src/WorkflowReconcile/Stored.antt =====
-- The runs that the reconciliation of a WorkflowRun can have from the ledger.
use orbitjob.Prelude.{
  ◌≡◌, ◌⊎◌, String, Bool, true, false, not, List, ◌∷◌, Option, none, some, arith, inr, ◌==◌,
  if◌then◌else◌,
}
use orbitjob.Prelude.Result.{Result, ok, err}
use orbitjob.Trace.{pure, throw, continue, ◌>>◌}
use orbitjob.Workflow.{WorkflowRun}
use orbitjob.Workflow.Graph.{DagError, validate_dag}
use orbitjob.WorkflowReconcile.{
  is_manual, new_run, create_valid, create_declared, materialize_workflow_run,
}
use orbitjob.WorkflowReconcile.Spec.{
  WorkflowSpec, dag_from_spec, RunSpec, WorkflowCall, read_revision, create_run, TenantCall,
  foreign_revision, refused, Runtime, W, ask,
}

module _ (rt : Runtime) where
  -- A run that the ledger answers with.
  abbrev pub Stored : WorkflowRun → Type 0
  Stored row =
      (h : List TenantCall) × ((rt.env.found_run h ≡ some row) ⊎ (rt.env.created_run h ≡ row))

  -- The result of a call that did not fail is what followed it.
  ask-eq-ok :
      {A : Type 0} (tenant : String) (c : WorkflowCall) (k : W A) (h : List TenantCall) (a : A)
      → ((ask rt tenant c >> k) h).0 ≡ ok a
      → (k ((record { tenant = tenant; call = c }) ∷ h)).0 ≡ ok a
  ask-eq-ok {A} tenant c k h a e =
      settled (rt.env.accepts h (record { tenant = tenant; call = c })) e
    where
      x : TenantCall
      x = record { tenant = tenant; call = c }

      settled :
          (b : Bool)
          → (continue (if b then (ok tt, x ∷ h) else (err (refused x), x ∷ h)) (λ u. k)).0 ≡ ok a
          → (k (x ∷ h)).0 ≡ ok a
      settled true e = e
      settled false e = cc

  module _ (tenant : String) (spec : RunSpec) where
    created :
        (v : Result DagError (Unit {0})) (h : List TenantCall) (row : WorkflowRun)
        → (create_valid rt tenant spec v h).0 ≡ ok (some row)
        → Stored row
    created (err x) h row e = absurd (ground arith)
    created (ok u) h row e =
        let filed =
          ask-eq-ok tenant (create_run (new_run spec)) (λ g. pure (some (rt.env.created_run g)) g) h
            (some row) e in
        ((record { tenant = tenant; call = create_run (new_run spec) }) ∷ h, inr (ground arith))

    declared :
        (o : Option WorkflowSpec) (h : List TenantCall) (row : WorkflowRun)
        → (create_declared rt tenant spec o h).0 ≡ ok (some row)
        → Stored row
    declared none h row e = absurd (ground arith)
    declared (some d) h row e = created (validate_dag (dag_from_spec d)) h row e

    -- A run that is materialized is the one that the ledger filed.
    pub materialized :
        (h : List TenantCall) (row : WorkflowRun)
        → (materialize_workflow_run rt tenant spec h).0 ≡ ok (some row)
        → Stored row
    unfolding materialize_workflow_run
    materialized h row e = picked (is_manual spec.trigger) e
      where
        owned :
            (b : Bool) (o : Option WorkflowSpec) (g : List TenantCall)
            → ((if b then throw foreign_revision else create_declared rt tenant spec o) g).0
              ≡ ok (some row)
            → Stored row
        owned true o g e = absurd (ground arith)
        owned false o g e = declared o g row e

        picked :
            (b : Bool)
            → ((if not b
                  then pure none
                  else ask rt tenant (read_revision spec.definition_revision) >> λ g.
                      (if not ((rt.env.revision g).source_uid == spec.workflow_uid)
                          then throw foreign_revision
                          else create_declared rt tenant spec (rt.env.revision g).declared)
                        g)
                h).0
              ≡ ok (some row)
            → Stored row
        picked false e = absurd (ground arith)
        picked true e =
            let g : List TenantCall =
              (record { tenant = tenant; call = read_revision spec.definition_revision }) ∷ h in
            owned (not ((rt.env.revision g).source_uid == spec.workflow_uid))
              (rt.env.revision g).declared g
              (ask-eq-ok tenant (read_revision spec.definition_revision) _ h (some row) e)
