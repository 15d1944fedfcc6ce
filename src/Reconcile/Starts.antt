-- ===== src/Reconcile/Starts.antt =====
-- What the start of an attempt, or the failure of a run that may not start one, asks for.
use orbitjob.Prelude.{
  ◌≡◌, refl, inl, inr, String, false, List, Option, none, some, Bool-cases, ◌==◌,
}
use orbitjob.Prelude.Result.{Result, ok, err}
use orbitjob.Trace.{Keeps, Keeps-bind, Keeps-if}
use orbitjob.Run
use orbitjob.Run.{
  Phase, running, failed, JobRun, StoredRun, transition, can_transition, is_cancel_requested,
  next_attempt, attempt_in_flight, can_start_attempt,
}
use orbitjob.Execution.{Job, build_job, OwnershipError, validate_ownership}
use orbitjob.Reconcile.{
  RunSpec, RunResource, Declared, Call, ledger, cluster, read_revision, create_attempt, ensure_job,
  Runtime, ask, is_run_over, in_phase, write_run,
}
use orbitjob.Reconcile.Outcomes.{record_outcome, record_function_outcome}
use orbitjob.Reconcile.Cancel.{with_phase}
use orbitjob.Reconcile.Drive.{
  fail_run, new_attempt, started, adopt_job, attempt_identity, template, start_declared, start_next,
}
use orbitjob.Reconcile.Calls.{Stored, Startable, Licensed, Keeps-ask, Keeps-unless}
use orbitjob.Reconcile.Stops.{
  Keeps-patch, Keeps-write, Keeps-record_outcome, Keeps-record_function_outcome,
}

module _ (rt : Runtime) (obj : RunResource) (tenant : String)
    (t : rt.resolve obj.namespace ≡ some tenant) where
  abbrev L : Call → Type 0
  L = Licensed rt obj

  pub Keeps-fail_run :
      (s : StoredRun)
      → Stored rt obj s
      → Run.terminal s.phase ≡ false
      → attempt_in_flight s ≡ false
      → can_start_attempt s ≡ false
      → Keeps L (fail_run rt tenant obj s (transition (in_phase s.phase) failed))
  Keeps-fail_run s m o f c = elim (Bool-cases (can_transition s.phase failed)) [
    | inr e ↦ unfold fail_run transition in rw e (λ h q. q)
    | inl e ↦
        unfold fail_run transition in
        rw e (
          Keeps-bind L (write_run rt tenant s.id failed s.attempt) _
            (Keeps-write rt obj tenant t s.id failed s.attempt (s, m, refl, refl, o, f, c, e))
            λ changed.
              Keeps-bind L (record_outcome rt tenant s.id failed changed) _
                (Keeps-record_outcome rt obj tenant t s.id failed changed)
                λ u.
                  Keeps-bind L (record_function_outcome rt tenant s.id failed changed) _
                    (Keeps-record_function_outcome rt obj tenant t s.id failed changed)
                    (λ v. Keeps-patch rt obj tenant t (with_phase s failed)))
  ]

  module _ (spec : RunSpec) (s : StoredRun) (ready : Startable rt obj spec s) where
    Keeps-adopt_job :
        (o : Option Job) (h k : List Call) (v : Result OwnershipError (Unit {0}))
        → rt.env.ensured h ≡ o
        → validate_ownership o (attempt_identity obj (rt.env.revision k) s) ≡ v
        → Keeps L (adopt_job rt tenant obj s o v)
    unfolding adopt_job
    Keeps-adopt_job o h k (err e) m w = λ g q. q
    Keeps-adopt_job none h k (ok u) m w = λ g q. q
    Keeps-adopt_job (some job) h k (ok u) m w =
        Keeps-if L (job.uid == "") _ _ (λ e g q. q)
          λ e g q.
            let row =
              ledger tenant
                (create_attempt s.id (new_attempt job (next_attempt s) (rt.env.now g)) running) in
            Keeps-unless L is_run_over (ask rt row g) _
              (Keeps-ask L rt row
                ((spec, s, job, h, k, ready, m, w, e, refl, refl, refl, refl, refl), tt, tt, t) g q)
              (λ v e. Keeps-patch rt obj tenant t (started s))

    Keeps-start_declared :
        (k : List Call) (o : Option Declared)
        → (rt.env.revision k).declared ≡ o
        → Keeps L (start_declared rt tenant obj spec s (rt.env.revision k) o)
    unfolding start_declared
    Keeps-start_declared k none m = λ g q. q
    Keeps-start_declared k (some d) m =
        let job =
          build_job rt.digest (attempt_identity obj (rt.env.revision k) s) obj.namespace
            (template d spec.timeout_seconds) in
        Keeps-bind L (ask rt (cluster obj.namespace (ensure_job job))) _
          (Keeps-ask L rt (cluster obj.namespace (ensure_job job))
            ((spec, s, d, k, ready, m, refl), tt, tt, refl))
          λ u h q. Keeps-adopt_job (rt.env.ensured h) h k _ refl refl h q

    pub Keeps-start_next : Keeps L (start_next rt tenant obj spec s)
    unfolding start_next
    Keeps-start_next =
        Keeps-bind L (ask rt (ledger tenant (read_revision s.revision_id))) _
          (Keeps-ask L rt (ledger tenant (read_revision s.revision_id)) (tt, tt, tt, t))
          λ u h q. Keeps-start_declared h (rt.env.revision h).declared refl h q
