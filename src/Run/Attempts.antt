-- ===== src/Run/Attempts.antt =====
-- The attempt budget of a stored run.
use orbitjob.Prelude.{ℕ, ◌+◌, ◌≤◌, ◌<◌, ◌≡◌, ◌↔◌, ◌⊎◌, true, false, arith, ◌==◌}
use orbitjob.Prelude.Int.{pos}
use orbitjob.Prelude.Result.{ok}
use orbitjob.Run.{
  pending, creating_attempt, retry_waiting, JobRun, Attempt, StoredRun, next_attempt,
  can_start_attempt, start_attempt,
}

-- Another attempt may start exactly when the run waits for one (`pending` or `retry_waiting`) and
-- the attempts so far are fewer than the budget.
pub can_start_attempt_iff :
    (s : StoredRun)
    → (can_start_attempt s ≡ true)
      ↔ (((s.phase ≡ pending) ⊎ (s.phase ≡ retry_waiting)) × (s.attempt < s.max_attempts))
unfolding can_start_attempt
can_start_attempt_iff s = (λ e. ground arith, λ e. ground arith)

-- A stored run and the run and attempt that are loaded from it.
pub record Loaded (s : StoredRun) (r : JobRun) (a : Attempt) : Type 0 where
  pub same_phase : r.phase ≡ s.phase
  pub same_run : (a.job_run_id == r.id) ≡ true
  pub numbered : a.number ≡ pos (next_attempt s)

-- A run that may start an attempt does: with its next attempt number and a real clock, the start
-- succeeds, the run is at that number within the budget, and it then has an attempt in flight, so
-- that no second attempt may start beside it.
pub start_attempt_when_allowed :
    (s : StoredRun) (r : JobRun) (a : Attempt) (now : ℕ)
    → Loaded s r a
    → 0 < now
    → can_start_attempt s ≡ true
    → (start_attempt r a now
        ≡ ok (
          record r { phase = creating_attempt; attempt = pos (s.attempt + 1) },
          record a { phase = creating_attempt },
        ))
      × (s.attempt + 1 ≤ s.max_attempts)
      × (can_start_attempt (record s { phase = creating_attempt; attempt = s.attempt + 1 }) ≡ false)
unfolding can_start_attempt start_attempt
start_attempt_when_allowed s r a now l h c = (ground arith, ground arith, ground arith)
