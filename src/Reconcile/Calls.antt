-- ===== src/Reconcile/Calls.antt =====
-- What the calls of a reconciliation mean, and that harmless ones may be made anywhere.
use orbitjob.Prelude.{
  ℕ, ◌≤◌, ◌≡◌, refl, ◌⊎◌, Bool, true, false, ◌||◌, List, ◌∷◌, none, some, All, ◌==◌,
}
use orbitjob.Prelude.Int.{pos, ltb_ℤ}
use orbitjob.Prelude.Result.{Result, ok, err}
use orbitjob.Trace.{Keeps, ◌>>◌}
use orbitjob.Run
use orbitjob.Run.{
  Phase, running, failed, canceled, cancel_requested, cancel_unknown, Trigger, Attempt, StoredRun,
  can_transition, is_cancel_requested, next_attempt, attempt_in_flight, can_start_attempt,
}
use orbitjob.Execution.{Job, build_job, validate_ownership}
use orbitjob.Reconcile.{
  RunSpec, RunResource, Declared, read_revision, get_job, create_occurrence, create_attempt,
  update_run, ensure_job, delete_job, Call, ledger, cluster, Verdict, accepted, run_over,
  no_attempt, failure, Runtime, ReconcileError, R, ask, settle, note, best_effort, unless,
}
use orbitjob.Reconcile.Cancel.{attempt_job_name}
use orbitjob.Reconcile.Drive.{cr_first, attempt_identity, template}

module _ (rt : Runtime) (obj : RunResource) where
  -- A run that the ledger answered with.
  abbrev pub Stored : StoredRun → Type 0
  Stored s = (h : List Call) × ((rt.env.found_run h ≡ some s) ⊎ (rt.env.created_run h ≡ s))

  -- The run may start its next attempt: it waits for one within its budget, and neither the ledger
  -- nor the object asks it to stop.
  pub record Startable (spec : RunSpec) (s : StoredRun) : Type 0 where
    pub declared : obj.spec ≡ some spec
    pub stored : Stored s
    pub allowed : can_start_attempt s ≡ true
    pub not_stopping : (is_cancel_requested s.phase || spec.cancel_requested) ≡ false

  -- The run is stored, is not over, and is asked to stop.
  pub record Stopping (s : StoredRun) : Type 0 where
    pub stored : Stored s
    pub not_over : Run.terminal s.phase ≡ false
    pub requested :
        (is_cancel_requested s.phase ≡ true)
        ⊎ ((spec : RunSpec) × (obj.spec ≡ some spec) × (spec.cancel_requested ≡ true))

  -- Attempts: a Job is ensured and a row written only for the next attempt of a run that may start
  -- one; the row is that of a Job that passed the ownership check and has a uid.
  abbrev pub StartsAllowed : Call → Type 0
  StartsAllowed (cluster namespace (ensure_job job)) =
      (spec : RunSpec) × (s : StoredRun) × (d : Declared) × (h : List Call) × Startable spec s
      × ((rt.env.revision h).declared ≡ some d)
      × (job
          ≡ build_job rt.digest (attempt_identity obj (rt.env.revision h) s) obj.namespace
              (template d spec.timeout_seconds))
  StartsAllowed (ledger tenant (create_attempt run attempt p)) =
      (spec : RunSpec) × (s : StoredRun) × (job : Job) × (h k : List Call) × Startable spec s
      × (rt.env.ensured h ≡ some job)
      × (validate_ownership (some job) (attempt_identity obj (rt.env.revision k) s) ≡ ok tt)
      × ((job.uid == "") ≡ false)
      × (run ≡ s.id)
      × (attempt.number ≡ pos (next_attempt s))
      × (attempt.kubernetes_job_name ≡ job.name)
      × (attempt.kubernetes_job_uid ≡ job.uid)
      × (p ≡ running)
  StartsAllowed _ = Unit

  -- Rows: a run is created only for a trigger whose object comes first, as the object declares it,
  -- for the revision that it names, which the ledger was asked for and which is one of the definition
  -- that it names, with a positive budget and a named actor.
  abbrev pub CreatesDeclared : Call → Type 0
  CreatesDeclared (ledger tenant (create_occurrence uid revision key trigger budget actor)) =
      (spec : RunSpec) × (h : List Call) × (obj.spec ≡ some spec)
      × (cr_first spec.trigger ≡ true)
      × (rt.env.verdict h (ledger tenant (read_revision spec.definition_revision)) ≡ accepted)
      × (((rt.env.revision (ledger tenant (read_revision spec.definition_revision) ∷ h)).source_uid
            == spec.source_uid)
          ≡ true)
      × (uid ≡ spec.source_uid)
      × (revision ≡ spec.definition_revision)
      × (key ≡ spec.occurrence_key)
      × (trigger ≡ spec.trigger)
      × (ltb_ℤ budget (pos 1) ≡ false)
      × (actor ≡ spec.actor)
      × ((rt.trim actor == "") ≡ false)
  CreatesDeclared _ = Unit

  -- The call that looks up the Job of an attempt.
  abbrev pub lookup_of : StoredRun → Call
  lookup_of s = cluster obj.namespace (get_job (attempt_job_name rt obj s.attempt))

  -- The latest attempt's Job was looked up by its name, and was not there.
  abbrev pub SeenGone : StoredRun → Type 0
  SeenGone s =
      (h : List Call) × (rt.env.verdict h (lookup_of s) ≡ accepted)
      × (rt.env.live_job (lookup_of s ∷ h) ≡ none)

  -- Phases: a run is recorded as canceled only if it was to stop and has no attempt or its Job was
  -- seen gone, as unconfirmed only if it was to stop and has an attempt, and as failed only if no
  -- attempt is in flight and none may start. No other end is recorded.
  abbrev pub Recorded : ℕ → Phase → ℕ → Type 0
  Recorded run canceled attempt =
      (s : StoredRun) × Stopping s
      × (run ≡ s.id)
      × (attempt ≡ s.attempt)
      × ((s.attempt ≡ 0) ⊎ SeenGone s)
  Recorded run cancel_requested attempt =
      (s : StoredRun) × Stopping s × (run ≡ s.id) × (attempt ≡ s.attempt) × (1 ≤ s.attempt)
  Recorded run cancel_unknown attempt =
      (s : StoredRun) × Stopping s × (run ≡ s.id) × (attempt ≡ s.attempt) × (1 ≤ s.attempt)
  Recorded run failed attempt =
      (s : StoredRun) × Stored s
      × (run ≡ s.id)
      × (attempt ≡ s.attempt)
      × (Run.terminal s.phase ≡ false)
      × (attempt_in_flight s ≡ false)
      × (can_start_attempt s ≡ false)
      × (can_transition s.phase failed ≡ true)
  Recorded run _ attempt = ⊥

  -- A Job is deleted only for the latest attempt of a run that is to stop.
  abbrev pub StopsConfirmed : Call → Type 0
  StopsConfirmed (ledger tenant (update_run run p attempt)) = Recorded run p attempt
  StopsConfirmed (cluster namespace (delete_job name)) =
      (s : StoredRun) × Stopping s × (1 ≤ s.attempt) × (name ≡ attempt_job_name rt obj s.attempt)
  StopsConfirmed _ = Unit

  -- Every ledger call is made for the tenant of the object's namespace and every cluster call in it.
  abbrev pub InScope : Call → Type 0
  InScope (ledger tenant c) = rt.resolve obj.namespace ≡ some tenant
  InScope (cluster namespace c) = namespace ≡ obj.namespace

  abbrev pub Licensed : Call → Type 0
  Licensed c = StartsAllowed c × CreatesDeclared c × StopsConfirmed c × InScope c

module _ (P : Call → Type 0) where
  Keeps-settle : (v : Verdict) (c : Call) → P c → Keeps P (settle v c)
  Keeps-settle accepted c p h q = (p, q)
  Keeps-settle run_over c p h q = (p, q)
  Keeps-settle no_attempt c p h q = (p, q)
  Keeps-settle failure c p h q = (p, q)

  pub Keeps-ask : (rt : Runtime) (c : Call) → P c → Keeps P (ask rt c)
  Keeps-ask rt c p h q = Keeps-settle (rt.env.verdict h c) c p h q

  -- What follows a call is run only if the call was accepted.
  pub Keeps-ask_then :
      {A : Type 0} (rt : Runtime) (c : Call) (k : R A)
      → P c
      → ((h : List Call) → rt.env.verdict h c ≡ accepted → All P (c ∷ h) → All P (k (c ∷ h)).1)
      → Keeps P (ask rt c >> k)
  Keeps-ask_then {A} rt c k p f h q = settled (rt.env.verdict h c) refl
    where
      settled : (v : Verdict) → rt.env.verdict h c ≡ v → All P ((settle v c >> k) h).1
      settled accepted e = f h e (p, q)
      settled run_over e = (p, q)
      settled no_attempt e = (p, q)
      settled failure e = (p, q)

  pub Keeps-note : (c : Call) → P c → Keeps P (note c)
  Keeps-note c p h q = (p, q)

  pub Keeps-best_effort :
      {A : Type 0} (r : Result ReconcileError A × List Call) → All P r.1 → All P (best_effort r).1
  Keeps-best_effort (r, h) q = q

  pub Keeps-unless :
      {A : Type 0} (target : ReconcileError → Bool) (r : Result ReconcileError A × List Call)
      (k : A → R (Unit {0}))
      → All P r.1
      → ((a : A) → r.0 ≡ ok a → Keeps P (k a))
      → All P (unless target r k).1
  Keeps-unless target (ok a, h) k q l = l a refl h q
  Keeps-unless target (err e, h) k q l = q

-- What follows a call that did not fail has the result of the whole.
pub ask-eq-ok :
    {A : Type 0} (rt : Runtime) (c : Call) (k : R A) (h : List Call) (a : A)
    → ((ask rt c >> k) h).0 ≡ ok a
    → (k (c ∷ h)).0 ≡ ok a
ask-eq-ok {A} rt c k h a e = settled (rt.env.verdict h c) e
  where
    settled : (v : Verdict) → ((settle v c >> k) h).0 ≡ ok a → (k (c ∷ h)).0 ≡ ok a
    settled accepted e = e
    settled run_over e = cc
    settled no_attempt e = cc
    settled failure e = cc
