-- ===== src/Reconcile/Licensed.antt =====
-- What a reconciliation of a JobRun may ask for: every call has its reason.
use orbitjob.Prelude.{
  ◌≡◌, refl, ◌⊎◌, inl, inr, String, Bool, true, false, not, ◌||◌, List, [], ◌∷◌, Option, none, some,
  arith, All, All-map, Bool-cases, ◌==◌,
}
use orbitjob.Prelude.Result.{ok}
use orbitjob.Trace.{Keeps, Keeps-bind, Keeps-bind_at, Keeps-if}
use orbitjob.Run
use orbitjob.Run.{
  Phase, running, failed, JobRun, StoredRun, transition, can_transition, is_cancel_requested,
  next_attempt, attempt_in_flight, can_start_attempt,
}
use orbitjob.Schedule.Fire.{effective_max_attempts}
use orbitjob.Schedule.Pass.{attempts_positive}
use orbitjob.Reconcile.{
  RunSpec, RunResource, Declared, Call, ledger, read_run, read_revision, create_occurrence, Runtime,
  accepted, ask,
}
use orbitjob.Reconcile.Drive.{
  decode_spec, cr_first, materialize_declared, materialize_manual_run, drive_run, drive_found,
  or_materialize, reconcile_spec, reconcile_decoded, reconcile_job_run,
}
use orbitjob.Reconcile.Calls.{
  Stored, StartsAllowed, CreatesDeclared, StopsConfirmed, InScope, Licensed, Keeps-ask,
  Keeps-ask_then,
}
use orbitjob.Reconcile.Starts.{Keeps-fail_run, Keeps-start_next}
use orbitjob.Reconcile.Filed.{materialized}
use orbitjob.Reconcile.Stops.{Keeps-patch, Keeps-cancellation}

module _ (rt : Runtime) (obj : RunResource) (tenant : String)
    (t : rt.resolve obj.namespace ≡ some tenant) where
  abbrev L : Call → Type 0
  L = Licensed rt obj

  module _ (spec : RunSpec) (declared : obj.spec ≡ some spec)
      (named : (rt.trim spec.actor == "") ≡ false) where
    Keeps-drive_run : (s : StoredRun) → Stored rt obj s → Keeps L (drive_run rt tenant obj spec s)
    unfolding drive_run
    Keeps-drive_run s m =
        Keeps-if L (Run.terminal s.phase) _ _ (λ o. Keeps-patch rt obj tenant t s)
          λ o.
            Keeps-if L (is_cancel_requested s.phase || spec.cancel_requested) _ _
              (λ a. Keeps-cancellation rt obj tenant t s (record {
                stored = m;
                not_over = o;
                requested = asked (is_cancel_requested s.phase) a;
              }))
              λ a.
                Keeps-if L (attempt_in_flight s) _ _ (λ f. Keeps-patch rt obj tenant t s)
                  λ f.
                    Keeps-if L (not (can_start_attempt s)) _ _
                      (λ c. Keeps-fail_run rt obj tenant t s m o f (ground arith))
                      λ c. Keeps-start_next rt obj tenant t spec s (record {
                        declared = declared;
                        stored = m;
                        allowed = ground arith;
                        not_stopping = a;
                      })
      where
        asked :
            (b : Bool)
            → (b || spec.cancel_requested) ≡ true
            → (b ≡ true) ⊎ ((x : RunSpec) × (obj.spec ≡ some x) × (x.cancel_requested ≡ true))
        asked true a = inl refl
        asked false a = inr (spec, declared, a)

    Keeps-materialize : Keeps L (materialize_manual_run rt tenant spec)
    unfolding materialize_manual_run materialize_declared
    Keeps-materialize =
        Keeps-if L (not (cr_first spec.trigger)) _ _ (λ e h q. q)
          λ e.
            Keeps-ask_then L rt asked _ (tt, tt, tt, t)
              λ h seen q.
                Keeps-if L (not ((rt.env.revision (asked ∷ h)).source_uid == spec.source_uid)) _ _
                  (λ f g r. r) (λ f. filed h (ground arith) seen (ground arith) _) (asked ∷ h) q
      where
        asked : Call
        asked = ledger tenant (read_revision spec.definition_revision)

        filed :
            (h : List Call)
            → cr_first spec.trigger ≡ true
            → rt.env.verdict h asked ≡ accepted
            → ((rt.env.revision (asked ∷ h)).source_uid == spec.source_uid) ≡ true
            → (o : Option Declared) → Keeps L (materialize_declared rt tenant spec o)
        filed h e seen f none = λ g q. q
        filed h e seen f (some d) =
            let row = ledger tenant (
              create_occurrence spec.source_uid spec.definition_revision spec.occurrence_key
                spec.trigger (effective_max_attempts d.max_attempts) spec.actor) in
            Keeps-bind L (ask rt row) _
              (Keeps-ask L rt row (
                tt,
                (
                  spec,
                  h,
                  declared,
                  e,
                  seen,
                  f,
                  refl,
                  refl,
                  refl,
                  refl,
                  attempts_positive d.max_attempts,
                  refl,
                  named,
                ),
                tt,
                t,
              ))
              (λ u g q. q)

    Keeps-reconcile_spec : Keeps L (reconcile_spec rt (some tenant) obj spec)
    unfolding reconcile_spec drive_found
    Keeps-reconcile_spec =
        Keeps-bind L (ask rt (ledger tenant (read_run spec.source_uid spec.occurrence_key))) _
          (Keeps-ask L rt (ledger tenant (read_run spec.source_uid spec.occurrence_key))
            (tt, tt, tt, t))
          λ u h q.
            Keeps-bind_at L (or_materialize rt tenant spec (rt.env.found_run h)) _
              (looked (rt.env.found_run h)) (λ g o e. found (rt.env.found_run h) h refl g o e) h q
      where
        looked : (o : Option StoredRun) → Keeps L (or_materialize rt tenant spec o)
        looked none = Keeps-materialize
        looked (some s) = λ h q. q

        found :
            (o : Option StoredRun) (h : List Call)
            → rt.env.found_run h ≡ o
            → (g : List Call) (r : Option StoredRun) → (or_materialize rt tenant spec o g).0 ≡ ok r
            → Keeps L (drive_found rt tenant obj spec r)
        found o h f g none e = λ k q. q
        found none h f g (some s) e = Keeps-drive_run s (materialized rt obj tenant spec g s e)
        found (some r) h f g (some s) e = Keeps-drive_run s (h, inl (ground arith))

-- Every call of a reconciliation has its reason, whatever the environment answers.
Keeps-reconcile_job_run :
    (rt : Runtime) (obj : RunResource) → Keeps (Licensed rt obj) (reconcile_job_run rt obj)
unfolding reconcile_job_run
Keeps-reconcile_job_run rt obj = decoded obj.spec refl
  where
    resolved :
        (spec : RunSpec) (o : Option String)
        → obj.spec ≡ some spec
        → (rt.trim spec.actor == "") ≡ false
        → rt.resolve obj.namespace ≡ o
        → Keeps (Licensed rt obj) (reconcile_spec rt o obj spec)
    resolved spec none e n t = unfold reconcile_spec in λ h q. q
    resolved spec (some tenant) e n t = Keeps-reconcile_spec rt obj tenant t spec e n

    decoded :
        (o : Option RunSpec)
        → obj.spec ≡ o
        → Keeps (Licensed rt obj) (reconcile_decoded rt obj (decode_spec rt o))
    decoded none e = unfold decode_spec in λ h q. q
    decoded (some spec) e =
        unfold decode_spec in
        elim (Bool-cases (spec.source_uid == "" || spec.occurrence_key == "")) [
          | inl blank ↦ rw blank (λ h q. q)
          | inr whole ↦ elim (Bool-cases (rt.trim spec.actor == "")) [
            | inl unnamed ↦ rw (whole, unnamed) (λ h q. q)
            | inr named ↦ rw (whole, named) (resolved spec (rt.resolve obj.namespace) e named refl)
          ]
        ]

module _ (rt : Runtime) (obj : RunResource) where
  licensed : All (Licensed rt obj) (reconcile_job_run rt obj []).1
  licensed = Keeps-reconcile_job_run rt obj [] tt

  -- Whatever the ledger and Kubernetes answer, reconciling a JobRun ensures a Job and writes an
  -- attempt only for the next attempt of a run that the ledger answered with, that waits for one
  -- within its budget, and that neither the ledger nor the object asks to stop. The Job is the one
  -- that BuildJob renders from the revision read; the row is that of a Job that carries the run's
  -- name, its uid unless empty, and the attempt number, and that has a uid.
  pub reconcile_job_run-StartsAllowed : All (StartsAllowed rt obj) (reconcile_job_run rt obj []).1
  reconcile_job_run-StartsAllowed = All-map (λ c l. l.0) (reconcile_job_run rt obj []).1 licensed

  -- A run is created only for the triggers Manual and Function, as the object declares it, for the
  -- revision that the object names, which the ledger, asked for just that revision, answered to be one
  -- of the definition that the object names, with at least one attempt and an actor that is
  -- not blank: a Schedule, Check or Workflow object without a row never gets one.
  pub reconcile_job_run-CreatesDeclared :
      All (CreatesDeclared rt obj) (reconcile_job_run rt obj []).1
  reconcile_job_run-CreatesDeclared = All-map (λ c l. l.1) (reconcile_job_run rt obj []).1 licensed

  -- A run is recorded as canceled only when it is stored, not over and asked to stop, and has no
  -- attempt or the Job of its latest attempt was looked up by name and was not there; as stopping or unconfirmed only when it is asked to stop and
  -- has an attempt; as failed only when no attempt is in flight and none may start. No other phase is
  -- recorded, and only the Job of the latest attempt of a run that is asked to stop is deleted.
  pub reconcile_job_run-StopsConfirmed : All (StopsConfirmed rt obj) (reconcile_job_run rt obj []).1
  reconcile_job_run-StopsConfirmed = All-map (λ c l. l.2) (reconcile_job_run rt obj []).1 licensed

  -- Every ledger call of a reconciliation is made for the tenant of the object's namespace, and every
  -- call of Kubernetes in that namespace.
  pub reconcile_job_run-InScope : All (InScope rt obj) (reconcile_job_run rt obj []).1
  reconcile_job_run-InScope = All-map (λ c l. l.3) (reconcile_job_run rt obj []).1 licensed
