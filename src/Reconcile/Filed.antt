-- ===== src/Reconcile/Filed.antt =====
-- The run that a reconciliation files is the one that the ledger answers with.
use orbitjob.Prelude.{
  ◌≡◌, inr, String, Bool, true, false, not, List, ◌∷◌, Option, none, some, arith, if◌then◌else◌,
  ◌==◌,
}
use orbitjob.Prelude.Result.{ok}
use orbitjob.Trace.{pure, throw, ◌>>◌}
use orbitjob.Run.{StoredRun}
use orbitjob.Schedule.Fire.{effective_max_attempts}
use orbitjob.Reconcile.{
  RunSpec, RunResource, Declared, Call, ledger, read_revision, create_occurrence, Runtime,
  foreign_revision, ask,
}
use orbitjob.Reconcile.Drive.{cr_first, materialize_declared, materialize_manual_run}
use orbitjob.Reconcile.Calls.{Stored, ask-eq-ok}

module _ (rt : Runtime) (obj : RunResource) (tenant : String) (spec : RunSpec) where
  created :
      (o : Option Declared) (h : List Call) (s : StoredRun)
      → (materialize_declared rt tenant spec o h).0 ≡ ok (some s)
      → Stored rt obj s
  unfolding materialize_declared
  created none h s e = absurd (ground arith)
  created (some d) h s e =
      let row = ledger tenant (
        create_occurrence spec.source_uid spec.definition_revision spec.occurrence_key spec.trigger
          (effective_max_attempts d.max_attempts) spec.actor) in
      let filed = ask-eq-ok rt row (λ g. pure (some (rt.env.created_run g)) g) h (some s) e in
      (row ∷ h, inr (ground arith))

  checked :
      (b : Bool) (o : Option Declared) (h : List Call) (s : StoredRun)
      → ((if b then throw foreign_revision else materialize_declared rt tenant spec o) h).0
        ≡ ok (some s)
      → Stored rt obj s
  checked true o h s e = absurd (ground arith)
  checked false o h s e = created o h s e

  pub materialized :
      (h : List Call) (s : StoredRun)
      → (materialize_manual_run rt tenant spec h).0 ≡ ok (some s)
      → Stored rt obj s
  unfolding materialize_manual_run
  materialized h s e = picked (cr_first spec.trigger) e
    where
      picked :
          (b : Bool)
          → ((if not b
                then pure none
                else ask rt (ledger tenant (read_revision spec.definition_revision)) >> λ g.
                    (if not ((rt.env.revision g).source_uid == spec.source_uid)
                        then throw foreign_revision
                        else materialize_declared rt tenant spec (rt.env.revision g).declared)
                      g)
              h).0
            ≡ ok (some s)
          → Stored rt obj s
      picked false e = absurd (ground arith)
      picked true e =
          checked _ _ _ s
            (ask-eq-ok rt (ledger tenant (read_revision spec.definition_revision)) _ h (some s) e)
