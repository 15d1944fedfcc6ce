-- ===== src/Reconcile/Stops.antt =====
-- The calls of reconcileCancellation.
use orbitjob.Prelude.{
  ℕ, ◌≤◌, ◌≡◌, refl, ◌⊎◌, inl, inr, String, Bool, true, false, not, ◌||◌, List, ◌∷◌, Option, none,
  some, arith, eqb, Bool-cases,
}
use orbitjob.Trace.{Keeps, Keeps-bind, Keeps-if}
use orbitjob.Run.{
  Phase, canceled, cancel_requested, cancel_unknown, StoredRun, is_cancel_requested, request_cancel,
  can_transition,
}
use orbitjob.Execution.{Job}
use orbitjob.Reconcile.{
  RunResource, TerminalOutcome, Call, ledger, cluster, update_run, update_attempt, record_terminal,
  read_outcome, record_completed, delete_job, patch_run, Runtime, accepted, ask, in_phase,
  write_run, patch_run_status,
}
use orbitjob.Reconcile.Outcomes.{
  record_outcome, read_model_status, record_function_outcome, record_status, record_function,
  id_from_source_uid, has_outcome, completed_record,
}
use orbitjob.Reconcile.Cancel.{
  with_phase, record_canceled, stop_overdue, stop_pending, stop_observed, stop_job, stop_requested,
  reconcile_cancellation, attempt_job_name,
}
use orbitjob.Reconcile.Calls.{
  Stopping, lookup_of, SeenGone, Recorded, Licensed, Keeps-ask, Keeps-ask_then, Keeps-note,
  Keeps-best_effort,
}

module _ (rt : Runtime) (obj : RunResource) (tenant : String)
    (t : rt.resolve obj.namespace ≡ some tenant) where
  abbrev L : Call → Type 0
  L = Licensed rt obj

  pub Keeps-patch : (s : StoredRun) → Keeps L (patch_run_status rt obj s)
  unfolding patch_run_status
  Keeps-patch s =
      Keeps-ask L rt (cluster obj.namespace (patch_run obj.name s.phase s.attempt))
        (tt, tt, tt, refl)

  pub Keeps-write :
      (run : ℕ) (p : Phase) (attempt : ℕ)
      → Recorded rt obj run p attempt
      → Keeps L (write_run rt tenant run p attempt)
  unfolding write_run
  Keeps-write run p attempt r =
      Keeps-bind L (ask rt (ledger tenant (update_run run p attempt))) _
        (Keeps-ask L rt (ledger tenant (update_run run p attempt)) (tt, tt, r, t)) (λ u h q. q)

  pub Keeps-record_outcome :
      (run : ℕ) (p : Phase) (changed : Bool) → Keeps L (record_outcome rt tenant run p changed)
  unfolding record_outcome
  Keeps-record_outcome run p changed =
      Keeps-if L (not rt.records_outcomes || not changed) _ _ (λ e h q. q)
        λ e.
          Keeps-if L (not (has_outcome p)) _ _ (λ f h q. q)
            (λ f. Keeps-note L (ledger tenant (record_terminal run p)) (tt, tt, tt, t))

  Keeps-record_status : (run : ℕ) (o : Option _) → Keeps L (record_status rt tenant run o)
  Keeps-record_status run none = λ h q. q
  Keeps-record_status run (some status) =
      Keeps-bind L (ask rt (ledger tenant (read_outcome run))) _
        (Keeps-ask L rt (ledger tenant (read_outcome run)) (tt, tt, tt, t))
        λ u h q.
          recorded (rt.env.outcome h) (id_from_source_uid (rt.env.outcome h).source_uid)
            (rt.env.now h) h q
    where
      recorded :
          (o : TerminalOutcome) (id : Option ℕ) (now : ℕ)
          → Keeps L (record_function rt tenant status o id now)
      recorded o none now = λ h q. q
      recorded o (some id) now =
          Keeps-note L (ledger tenant (record_completed (completed_record rt status id o now)))
            (tt, tt, tt, t)

  pub Keeps-record_function_outcome :
      (run : ℕ) (p : Phase) (changed : Bool)
      → Keeps L (record_function_outcome rt tenant run p changed)
  unfolding record_function_outcome
  Keeps-record_function_outcome run p changed =
      Keeps-if L (not rt.records_functions || not changed) _ _ (λ e h q. q)
        λ e h q.
          Keeps-best_effort L (record_status rt tenant run (read_model_status p) h)
            (Keeps-record_status run (read_model_status p) h q)

  module _ (s : StoredRun) (stop : Stopping rt obj s) where
    Keeps-record_canceled :
        (p : Phase) (n : ℕ)
        → n ≡ s.attempt
        → ((s.attempt ≡ 0) ⊎ SeenGone rt obj s)
        → Keeps L (record_canceled rt tenant obj (with_phase s p) n)
    unfolding record_canceled
    Keeps-record_canceled p n same k =
        Keeps-bind L (write_run rt tenant s.id canceled n) _
          (Keeps-write s.id canceled n (s, stop, refl, same, k))
          λ changed.
            Keeps-bind L (record_function_outcome rt tenant s.id canceled changed) _
              (Keeps-record_function_outcome s.id canceled changed)
              (λ u. Keeps-patch (with_phase s canceled))

    Keeps-stop_pending :
        (p : Phase) (d : Option ℕ)
        → 1 ≤ s.attempt
        → Keeps L (stop_pending rt tenant obj (with_phase s p) d)
    unfolding stop_pending stop_overdue
    Keeps-stop_pending p none a = Keeps-patch (with_phase s p)
    Keeps-stop_pending p (some deleted) a = λ h. overdue _ h
      where
        overdue : (b : Bool) → Keeps L (stop_overdue rt tenant obj (with_phase s p) b)
        overdue false = Keeps-patch (with_phase s p)
        overdue true =
            Keeps-bind L (write_run rt tenant s.id cancel_unknown s.attempt) _
              (Keeps-write s.id cancel_unknown s.attempt (s, stop, refl, refl, a))
              (λ changed. Keeps-patch (with_phase s cancel_unknown))

    Keeps-stop_observed :
        (p : Phase) (o : Option Job) (h : List Call)
        → rt.env.verdict h (lookup_of rt obj s) ≡ accepted
        → rt.env.live_job (lookup_of rt obj s ∷ h) ≡ o
        → 1 ≤ s.attempt
        → Keeps L (stop_observed rt tenant obj (with_phase s p) o)
    unfolding stop_observed
    Keeps-stop_observed p none h seen e a =
        Keeps-bind L
          (ask rt
            (ledger tenant (update_attempt (attempt_job_name rt obj s.attempt) canceled "" "")))
          _
          (Keeps-ask L rt
            (ledger tenant (update_attempt (attempt_job_name rt obj s.attempt) canceled "" ""))
            (tt, tt, tt, t))
          (λ u. Keeps-record_canceled p s.attempt refl (inr (h, seen, e)))
    Keeps-stop_observed p (some job) h seen e a = Keeps-stop_pending p job.deleted_at a

    Keeps-stop_job : (p : Phase) → 1 ≤ s.attempt → Keeps L (stop_job rt tenant obj (with_phase s p))
    unfolding stop_job
    Keeps-stop_job p a =
        Keeps-bind L
          (ask rt (cluster obj.namespace (delete_job (attempt_job_name rt obj s.attempt)))) _
          (Keeps-ask L rt (cluster obj.namespace (delete_job (attempt_job_name rt obj s.attempt)))
            (tt, tt, (s, stop, a, refl), refl))
          λ u.
            Keeps-ask_then L rt (lookup_of rt obj s) _ (tt, tt, tt, refl)
              λ h seen q.
                Keeps-stop_observed p (rt.env.live_job (lookup_of rt obj s ∷ h)) h seen refl a
                  (lookup_of rt obj s ∷ h) q

    Keeps-stop_requested :
        (now : ℕ)
        → 1 ≤ s.attempt
        → Keeps L (stop_requested rt tenant obj s (request_cancel (in_phase s.phase) now))
    Keeps-stop_requested now a =
        elim (Bool-cases (eqb now 0 || not (can_transition s.phase cancel_requested))) [
          | inl e ↦ unfold stop_requested request_cancel in rw e (λ h q. q)
          | inr e ↦
              unfold stop_requested request_cancel in
              rw e (
                Keeps-bind L (write_run rt tenant s.id cancel_requested s.attempt) _
                  (Keeps-write s.id cancel_requested s.attempt (s, stop, refl, refl, a))
                  (λ changed. Keeps-stop_job cancel_requested a))
        ]

    pub Keeps-cancellation : Keeps L (reconcile_cancellation rt tenant obj s)
    unfolding reconcile_cancellation
    Keeps-cancellation =
        Keeps-if L (eqb s.attempt 0) _ _
          (λ e. Keeps-record_canceled s.phase 0 (ground arith) (inl (ground arith)))
          λ e.
            Keeps-if L (is_cancel_requested s.phase) _ _
              (λ r. Keeps-stop_job s.phase (ground arith))
              λ r h q. Keeps-stop_requested (rt.env.now h) (ground arith) h q
