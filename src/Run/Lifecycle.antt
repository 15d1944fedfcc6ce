-- ===== src/Run/Lifecycle.antt =====
-- What the table of transitions allows over any number of steps.
use orbitjob.Prelude.{ℕ, ◌≡◌, refl, ◌≢◌, ◌⊎◌, true, not, ◌||◌, ◌==◌, eqb, if◌then◌else◌, arith}
use orbitjob.Prelude.Int.{pos, leb_ℤ}
use orbitjob.Prelude.Result.{ok, err, ◌>>=◌}
use orbitjob.Run.{
  Phase, creating_attempt, cancel_requested, canceled, cancel_unknown, JobRun, Attempt,
  invalid_transition, can_transition, terminal, transition, start_attempt, request_cancel,
  confirm_canceled,
}

-- The phases that a run went through, newest last, each step by `transition`.
pub data Reaches (r : JobRun) : JobRun → Type 0 where
  here : Reaches r r
  step : {s t : JobRun} (to : Phase) → Reaches r s → transition s to ≡ ok t → Reaches r t

abbrev pub IsFinal : Phase → Type 0
IsFinal p = (terminal p ≡ true) ⊎ (p ≡ cancel_unknown)

step_final : (s : JobRun) (to : Phase) {t : JobRun} → IsFinal s.phase → transition s to ≢ ok t
unfolding transition can_transition terminal
step_final s to h e = ground arith

-- A run whose phase is terminal or `cancel_unknown` is never moved again: whatever `transition`
-- calls succeed from it, the run at the end is the same run.
pub final_absorbs : {r s : JobRun} → IsFinal r.phase → Reaches r s → s ≡ r
final_absorbs h here = refl
final_absorbs h (step {s = m} to p e) =
    absurd (step_final m to (let q = final_absorbs h p in rw q h) e)

step_canceled :
    (s : JobRun) (to : Phase) {t : JobRun}
    → transition s to ≡ ok t
    → t.phase ≡ canceled
    → s.phase ≡ cancel_requested
unfolding transition can_transition
step_canceled s to e h = ground arith

-- A run becomes canceled only through a recorded stop request: on every sequence of successful
-- `transition` calls from a phase other than `canceled` to the phase `canceled`, some run on the
-- way has the phase `cancel_requested`, and the end follows from it.
pub canceled_after_request :
    {r s : JobRun}
    → r.phase ≢ canceled
    → Reaches r s
    → s.phase ≡ canceled
    → (m : JobRun) × Reaches r m × (m.phase ≡ cancel_requested) × (transition m canceled ≡ ok s)
canceled_after_request h here c = absurd (h c)
canceled_after_request h (step {s = m} {t = t} to p e) c =
    (m, p, step_canceled m to e c, transition_to m to t e c)
  where
    transition_to :
        (m : JobRun) (to : Phase) (t : JobRun)
        → transition m to ≡ ok t
        → t.phase ≡ canceled
        → transition m canceled ≡ ok t
    transition_to m to t e c = rw (← c) (unfold transition in ground arith)

-- The three operations are transitions of the table behind their own guards. Starting an attempt is
-- refused unless the attempt is numbered from 1, belongs to the run and the clock is set, and is then
-- the transition to `creating_attempt`, which also numbers the run; a stop request and a confirmed
-- stop are refused without a clock, and are then the transitions to `cancel_requested` and to
-- `canceled`.
pub operations-transition :
    (r : JobRun) (a : Attempt) (now : ℕ)
    → (start_attempt r a now ≡ (
        if leb_ℤ a.number (pos 0) || not (a.job_run_id == r.id) || eqb now 0
        then err invalid_transition
        else (transition r creating_attempt >>= λ s.
            ok (record s { attempt = a.number }, record a { phase = creating_attempt }))))
      × (request_cancel r now
          ≡ (if eqb now 0 then err invalid_transition else transition r cancel_requested))
      × (confirm_canceled r now
          ≡ (if eqb now 0 then err invalid_transition else transition r canceled))
unfolding start_attempt request_cancel confirm_canceled transition can_transition
operations-transition r a now = (ground arith, ground arith, ground arith)
