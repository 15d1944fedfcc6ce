-- ===== src/Reconcile/Stuck.antt =====
-- A stop that could not be confirmed, reconciled again while the object still asks for it.
use orbitjob.Prelude.{ℕ, ◌≤◌, ◌≡◌, refl, String, true, false, ◌||◌, [], ◌∷◌, some, arith, eqb}
use orbitjob.Prelude.Result.{ok, err}
use orbitjob.Run
use orbitjob.Run.{
  cancel_unknown, StoredRun, invalid_transition, can_transition, is_cancel_requested,
  request_cancel,
}
use orbitjob.Reconcile.{
  RunSpec, RunResource, ledger, read_run, accepted, Runtime, not_cancelable, in_phase,
}
use orbitjob.Reconcile.Cancel.{reconcile_cancellation, stop_requested}
use orbitjob.Reconcile.Drive.{
  decode_spec, drive_run, drive_found, reconcile_spec, reconcile_job_run,
}

refused_request :
    (s : StoredRun) (now : ℕ)
    → s.phase ≡ cancel_unknown
    → request_cancel (in_phase s.phase) now ≡ err invalid_transition
unfolding request_cancel can_transition
refused_request s now p = ground arith

unknown_not_cancelable :
    (rt : Runtime) (tenant : String) (obj : RunResource) (s : StoredRun) (h : _)
    → s.phase ≡ cancel_unknown
    → 1 ≤ s.attempt
    → reconcile_cancellation rt tenant obj s h ≡ (err not_cancelable, h)
unknown_not_cancelable rt tenant obj s h p a =
    let e : eqb s.attempt 0 ≡ false = ground arith in
    let n : is_cancel_requested s.phase ≡ false = rw p refl in
    unfold reconcile_cancellation stop_requested in
    rw (e, n, refused_request s (rt.env.now h) p) refl

unknown_driven :
    (rt : Runtime) (tenant : String) (obj : RunResource) (spec : RunSpec) (s : StoredRun) (h : _)
    → spec.cancel_requested ≡ true
    → s.phase ≡ cancel_unknown
    → 1 ≤ s.attempt
    → drive_run rt tenant obj spec s h ≡ (err not_cancelable, h)
unknown_driven rt tenant obj spec s h c p a =
    let over : Run.terminal s.phase ≡ false = unfold Run.terminal in rw p refl in
    let stop : (is_cancel_requested s.phase || spec.cancel_requested) ≡ true = ground (arith, c) in
    unfold drive_run in rw (over, stop) (unknown_not_cancelable rt tenant obj s h p a)

-- Once a run with an attempt is recorded as unconfirmed, every reconciliation of an object that still
-- asks for the stop fails after reading the row: the Job is neither deleted nor observed again, the
-- status is not patched, and so the stop is never confirmed.
pub unconfirmed_stop_refused :
    (rt : Runtime) (obj : RunResource) (spec : RunSpec) (tenant : String) (s : StoredRun)
    → decode_spec rt obj.spec ≡ ok spec
    → rt.resolve obj.namespace ≡ some tenant
    → rt.env.verdict [] (ledger tenant (read_run spec.source_uid spec.occurrence_key)) ≡ accepted
    → rt.env.found_run (ledger tenant (read_run spec.source_uid spec.occurrence_key) ∷ []) ≡ some s
    → spec.cancel_requested ≡ true
    → s.phase ≡ cancel_unknown
    → 1 ≤ s.attempt
    → reconcile_job_run rt obj []
      ≡ (err not_cancelable, ledger tenant (read_run spec.source_uid spec.occurrence_key) ∷ [])
unconfirmed_stop_refused rt obj spec tenant s d t v f c p a =
    unfold reconcile_job_run reconcile_spec drive_found in
    rw (d, t, v, f)
      (unknown_driven rt tenant obj spec s
        (ledger tenant (read_run spec.source_uid spec.occurrence_key) ∷ []) c p a)
