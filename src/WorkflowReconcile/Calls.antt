-- ===== src/WorkflowReconcile/Calls.antt =====
-- What the reconciliation of a WorkflowRun may ask for.
use orbitjob.Prelude.{
  ◌≡◌, ◌⊎◌, refl, String, true, false, not, ◌&&◌, List, [], ◌∷◌, Option, none, some, arith, inl,
  inr, All, ◌==◌,
}
use orbitjob.Prelude.Result.{Result, ok, err}
use orbitjob.Trace.{Keeps, Keeps-request, Keeps-then, Keeps-bind, Keeps-bind_at, Keeps-if, ◌>>◌}
use orbitjob.Workflow
use orbitjob.Workflow.{WorkflowPhase, WorkflowRun, StepRun}
use orbitjob.Workflow.Graph.{DagError, validate_dag, topological_sort}
use orbitjob.Workflow.Graph.Accepted.{validated_dag_sorts}
use orbitjob.WorkflowReconcile.Stored.{Stored, materialized}
use orbitjob.WorkflowReconcile.{
  is_manual, decode_spec, new_run, create_valid, create_declared, materialize_workflow_run,
  is_stopping, status_of, patch_declared, patch_workflow_status, project_run, project_found,
  or_materialize, reconcile_spec, reconcile_decoded, reconcile_workflow_run,
}
use orbitjob.WorkflowReconcile.Spec.{
  WorkflowSpec, dag_from_spec, RunSpec, RunResource, WorkflowCall, read_run, read_revision,
  create_run, update_phase, list_steps, patch_status, TenantCall, WorkflowError, refused, Runtime,
  W, ask,
}

module _ (rt : Runtime) (obj : RunResource) where
  abbrev pub on : String → WorkflowCall → TenantCall
  on tenant c = record { tenant = tenant; call = c }

  -- A call that was answered, after those of `h`.
  abbrev pub Accepted : List TenantCall → TenantCall → Type 0
  Accepted h c = rt.env.accepts h c ≡ true

  -- The row as it is, or with the request to stop.
  abbrev pub Shown : WorkflowRun → WorkflowRun → Type 0
  Shown row shown = (shown ≡ row) ⊎ (shown ≡ record row { phase = WorkflowPhase.cancel_requested })

  -- A run is created only for an object that passes its checks, for the tenant of its namespace, from
  -- the revision that it names, as the ledger read it for that tenant: the revision belongs to the
  -- workflow named and its DAG is valid, so that its tasks can be ordered. A row is written only to
  -- record a request to stop, over a phase that is neither final nor stopping already. A status is
  -- that of a stored row, as it is or with that request, of the tasks that the row's revision
  -- declares and of the steps that the ledger listed for the row.
  abbrev pub AllowedBy : String → WorkflowCall → Type 0
  AllowedBy tenant (create_run run) =
      (spec : RunSpec) × (h : List TenantCall) × (d : WorkflowSpec) × (decode_spec rt obj.spec
        ≡ ok spec)
      × (rt.resolve obj.namespace ≡ some tenant)
      × Accepted h (on tenant (read_revision spec.definition_revision))
      × (((rt.env.revision (on tenant (read_revision spec.definition_revision) ∷ h)).source_uid
            == spec.workflow_uid)
          ≡ true)
      × ((rt.env.revision (on tenant (read_revision spec.definition_revision) ∷ h)).declared
          ≡ some d)
      × (validate_dag (dag_from_spec d) ≡ ok tt)
      × ((order : List String) × (topological_sort (dag_from_spec d) ≡ ok order))
      × (run ≡ new_run spec)
  AllowedBy tenant (update_phase run p) =
      (spec : RunSpec) × (row : WorkflowRun) × (decode_spec rt obj.spec ≡ ok spec)
      × (rt.resolve obj.namespace ≡ some tenant)
      × Stored rt row
      × (run ≡ row.id)
      × (p ≡ WorkflowPhase.cancel_requested)
      × (spec.cancel_requested ≡ true)
      × (is_stopping row.phase ≡ false)
      × (Workflow.terminal row.phase ≡ false)
  AllowedBy tenant (patch_status namespace name status) =
      (row shown : WorkflowRun) × (scope : String) × (g h : List TenantCall) × (d : WorkflowSpec)
      × (namespace ≡ obj.namespace)
      × (name ≡ obj.name)
      × (rt.resolve obj.namespace ≡ some scope)
      × Stored rt row
      × Shown row shown
      × Accepted g (on scope (read_revision shown.revision_id))
      × ((rt.env.revision (on scope (read_revision shown.revision_id) ∷ g)).declared ≡ some d)
      × Accepted h (on scope (list_steps shown.id))
      × (status ≡ status_of rt shown (rt.env.steps (on scope (list_steps shown.id) ∷ h)) d)
  AllowedBy tenant _ = rt.resolve obj.namespace ≡ some tenant

  abbrev pub Allowed : TenantCall → Type 0
  Allowed c = AllowedBy c.tenant c.call

  Keeps-ask :
      (tenant : String) (c : WorkflowCall) → AllowedBy tenant c → Keeps Allowed (ask rt tenant c)
  Keeps-ask tenant c p =
      Keeps-request Allowed rt.env.accepts refused (record { tenant = tenant; call = c }) p

  Keeps-ask_then :
      {B : Type 0} (tenant : String) (c : WorkflowCall) (k : W B)
      → AllowedBy tenant c
      → ((h : List TenantCall)
          → Accepted h (on tenant c)
          → All Allowed (on tenant c ∷ h)
          → All Allowed (k (on tenant c ∷ h)).1)
      → Keeps Allowed (ask rt tenant c >> k)
  Keeps-ask_then tenant c k p f = Keeps-then Allowed rt.env.accepts refused (on tenant c) k p f

  module _ (tenant : String) (t : rt.resolve obj.namespace ≡ some tenant) where
    Keeps-patch :
        (row shown : WorkflowRun)
        → Stored rt row
        → Shown row shown
        → Keeps Allowed (patch_workflow_status rt tenant obj shown)
    unfolding patch_workflow_status
    Keeps-patch row shown m s = Keeps-ask_then tenant (read_revision shown.revision_id) _ t λ g y q.
        let k = on tenant (read_revision shown.revision_id) ∷ g in
        declared g y (rt.env.revision k).declared refl k q
      where
        declared :
            (g : List TenantCall)
            → Accepted g (on tenant (read_revision shown.revision_id))
            → (o : Option WorkflowSpec)
            → (rt.env.revision (on tenant (read_revision shown.revision_id) ∷ g)).declared ≡ o
            → Keeps Allowed (patch_declared rt tenant obj shown o)
        declared g y none f = λ h q. q
        declared g y (some d) f = Keeps-ask_then tenant (list_steps shown.id) _ t λ h z q.
            let k = on tenant (list_steps shown.id) ∷ h in
            Keeps-ask ""
              (patch_status obj.namespace obj.name (status_of rt shown (rt.env.steps k) d))
              (row, shown, tenant, g, h, d, refl, refl, t, m, s, y, f, z, refl) k q

    module _ (spec : RunSpec) (e : decode_spec rt obj.spec ≡ ok spec) where
      Keeps-project :
          (row : WorkflowRun) → Stored rt row → Keeps Allowed (project_run rt tenant obj spec row)
      unfolding project_run
      Keeps-project row m =
          Keeps-if Allowed
            (spec.cancel_requested
              && (not (is_stopping row.phase) && not (Workflow.terminal row.phase)))
            _ _
            (λ c.
              Keeps-bind Allowed
                (ask rt tenant (update_phase row.id WorkflowPhase.cancel_requested)) _
                (Keeps-ask tenant (update_phase row.id WorkflowPhase.cancel_requested)
                  (spec, row, e, t, m, refl, refl, ground arith, ground arith, ground arith))
                λ u.
                  Keeps-patch row (record row { phase = WorkflowPhase.cancel_requested }) m
                    (inr refl))
            (λ c. Keeps-patch row row m (inl refl))

      Keeps-materialize : Keeps Allowed (materialize_workflow_run rt tenant spec)
      unfolding materialize_workflow_run
      Keeps-materialize =
          Keeps-if Allowed (not (is_manual spec.trigger)) _ _ (λ c h q. q)
            λ c. Keeps-ask_then tenant (read_revision spec.definition_revision) _ t λ h y q.
              let k = reading ∷ h in
              Keeps-if Allowed (not ((rt.env.revision k).source_uid == spec.workflow_uid)) _ _
                (λ f g r. r) (λ f. declared h y (ground arith) (rt.env.revision k).declared refl) k
                q
        where
          reading : TenantCall
          reading = on tenant (read_revision spec.definition_revision)

          valid :
              (h : List TenantCall) (d : WorkflowSpec) (v : Result DagError (Unit {0}))
              → Accepted h reading
              → ((rt.env.revision (reading ∷ h)).source_uid == spec.workflow_uid) ≡ true
              → (rt.env.revision (reading ∷ h)).declared ≡ some d
              → validate_dag (dag_from_spec d) ≡ v
              → Keeps Allowed (create_valid rt tenant spec v)
          valid h d (err x) y f m v = λ g q. q
          valid h d (ok u) y f m v =
              let (order, sorted, respects, exact) = validated_dag_sorts (dag_from_spec d) v in
              Keeps-bind Allowed (ask rt tenant (create_run (new_run spec))) _
                (Keeps-ask tenant (create_run (new_run spec))
                  (spec, h, d, e, t, y, f, m, v, (order, sorted), refl))
                (λ u g q. q)

          declared :
              (h : List TenantCall)
              → Accepted h reading
              → ((rt.env.revision (reading ∷ h)).source_uid == spec.workflow_uid) ≡ true
              → (o : Option WorkflowSpec) → (rt.env.revision (reading ∷ h)).declared ≡ o
              → Keeps Allowed (create_declared rt tenant spec o)
          declared h y f none m = λ g q. q
          declared h y f (some d) m = valid h d (validate_dag (dag_from_spec d)) y f m refl

  Keeps-reconcile :
      (tenant : String) (spec : RunSpec)
      → rt.resolve obj.namespace ≡ some tenant
      → decode_spec rt obj.spec ≡ ok spec
      → Keeps Allowed (reconcile_spec rt (some tenant) obj spec)
  Keeps-reconcile tenant spec t e =
      Keeps-bind Allowed (ask rt tenant (read_run spec.workflow_uid spec.occurrence_key)) _
        (Keeps-ask tenant (read_run spec.workflow_uid spec.occurrence_key) t)
        λ u h q.
          Keeps-bind_at Allowed (or_materialize rt tenant spec (rt.env.found_run h)) _
            (looked (rt.env.found_run h)) (found (rt.env.found_run h) h refl) h q
    where
      looked : (o : Option WorkflowRun) → Keeps Allowed (or_materialize rt tenant spec o)
      looked none = Keeps-materialize tenant t spec e
      looked (some row) = λ h q. q

      found :
          (o : Option WorkflowRun) (h : List TenantCall)
          → rt.env.found_run h ≡ o
          → (g : List TenantCall) (r : Option WorkflowRun)
          → (or_materialize rt tenant spec o g).0 ≡ ok r
          → Keeps Allowed (project_found rt tenant obj spec r)
      found o h f g none v = λ k q. q
      found none h f g (some row) v =
          Keeps-project tenant t spec e row (materialized rt tenant spec g row v)
      found (some r) h f g (some row) v = Keeps-project tenant t spec e row (h, inl (ground arith))

  -- Whatever the ledger and Kubernetes answer, reconciling a WorkflowRun creates a run only for an
  -- object that passes its checks, for the tenant of its namespace, from the revision that the object
  -- names: the ledger read that revision for the tenant, it belongs to the workflow named, and its
  -- DAG is valid, so that the walker can order its tasks. It writes a phase only to record a request
  -- to stop, over one that is neither final nor stopping already. It patches only its own object,
  -- with the status of a stored row, or of that row with the request to stop, over the tasks that
  -- the row's revision declares and the steps that the ledger listed for the row.
  pub reconcile_workflow_run-Allowed : All Allowed (reconcile_workflow_run rt obj []).1
  unfolding reconcile_workflow_run
  reconcile_workflow_run-Allowed = decoded (decode_spec rt obj.spec) refl
    where
      resolved :
          (spec : RunSpec) (o : Option String)
          → decode_spec rt obj.spec ≡ ok spec
          → rt.resolve obj.namespace ≡ o
          → Keeps Allowed (reconcile_spec rt o obj spec)
      resolved spec none e t = λ h q. q
      resolved spec (some tenant) e t = Keeps-reconcile tenant spec t e

      decoded :
          (r : Result WorkflowError RunSpec)
          → decode_spec rt obj.spec ≡ r
          → All Allowed (reconcile_decoded rt obj r []).1
      decoded (err x) e = tt
      decoded (ok spec) e = resolved spec (rt.resolve obj.namespace) e refl [] tt
