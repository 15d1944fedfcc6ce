-- ===== src/Workflow/Derive/Laws.antt =====
-- The roll-up as a specification by quantifiers over the tasks.
use orbitjob.Prelude.{
  String, ◌≡◌, ◌∙◌, Bool, true, false, not, ◌&&◌, ◌||◌, List, [], ◌∷◌, ◌++◌, Option, none, some,
  arith, any, all, any-append, all-append, if◌then◌else◌,
}
use orbitjob.Prelude.Assoc.{Assoc, lookup}
use orbitjob.Run.{Phase}
use orbitjob.Workflow.{WorkflowPhase, TaskDecision, StepState, terminal}
use orbitjob.Workflow.Derive.{Roll, mark, roll, derive_phase, is_canceled_reason}

abbrev pub is_unknown : Option StepState → Bool
is_unknown (some s) = elim s.phase [ Phase.cancel_unknown ↦ true | _ ↦ false ]
is_unknown none = false

abbrev is_failed : Option StepState → Bool
is_failed (some s) = elim s.phase [ Phase.failed ↦ true | _ ↦ false ]
is_failed none = false

abbrev is_skip : Option TaskDecision → Bool
is_skip none = false
is_skip (some d) = d.skipped

abbrev is_cancel_skip : Option TaskDecision → Bool
is_cancel_skip none = false
is_cancel_skip (some d) = d.skipped && is_canceled_reason d.reason

abbrev is_canceled : Option StepState → Option TaskDecision → Bool
is_canceled (some s) d = elim s.phase [ Phase.canceled ↦ true | _ ↦ false ]
is_canceled none d = is_cancel_skip d

abbrev pub is_accounted : Option StepState → Option TaskDecision → Bool
is_accounted (some s) d = true
is_accounted none d = is_skip d

module _ (steps : Assoc StepState) (decisions : Assoc TaskDecision) where
  abbrev pub unknown_task : String → Bool
  unknown_task t = is_unknown (lookup t steps)

  abbrev pub failed_task : String → Bool
  failed_task t = is_failed (lookup t steps)

  abbrev pub canceled_task : String → Bool
  canceled_task t = is_canceled (lookup t steps) (lookup t decisions)

  abbrev pub accounted_task : String → Bool
  accounted_task t = is_accounted (lookup t steps) (lookup t decisions)

  -- The flags after the loop, from any flags before it.
  roll_flags :
      (ts : List String) (r : Roll)
      → roll steps decisions ts r ≡ record {
        unknown = r.unknown || any unknown_task ts;
        failed = r.failed || any failed_task ts;
        canceled = r.canceled || any canceled_task ts;
        accounted = r.accounted && all accounted_task ts;
      }
  unfolding roll
  roll_flags [] r = ground arith
  roll_flags (t ∷ ts) r = roll_flags ts (mark steps decisions t r) ∙ (unfold mark in ground arith)

  -- What the phase should be.
  abbrev pub specified : List String → WorkflowPhase × Bool
  specified ts =
      if any unknown_task ts
      then (WorkflowPhase.cancel_unknown, false)
      else if not (all accounted_task ts)
      then (WorkflowPhase.running, false)
      else if any failed_task ts
      then (WorkflowPhase.failed, true)
      else if any canceled_task ts
      then (WorkflowPhase.canceled, true)
      else (WorkflowPhase.succeeded, true)

  -- The phase is the first of these that applies: `cancel_unknown`, not done, if some step is
  -- unconfirmed; `running`, not done, if some task has neither a step fact nor a skip; then, done,
  -- `failed` if some step failed, `canceled` if some step or skip is a cancellation, and
  -- `succeeded`.
  pub derive_phase_lem : (ts : List String) → derive_phase ts steps decisions ≡ specified ts
  unfolding derive_phase
  derive_phase_lem ts = ground (
    arith,
    roll_flags ts (record { unknown = false; failed = false; canceled = false; accounted = true }),
  )

  -- The run is reported done exactly when no step is in `cancel_unknown` and every task has a step
  -- fact or a skip, and the phase reported with it is then a terminal one, and only then.
  pub derive_phase_done :
      (ts : List String)
      → ((derive_phase ts steps decisions).1 ≡ (not (any unknown_task ts) && all accounted_task ts))
        × (terminal (derive_phase ts steps decisions).0 ≡ (derive_phase ts steps decisions).1)
  unfolding terminal
  derive_phase_done ts = rw (derive_phase_lem ts) (ground arith, ground arith)

  -- The order in which the tasks are listed does not matter.
  pub derive_phase-append_comm :
      (xs ys : List String)
      → derive_phase (xs ++ ys) steps decisions ≡ derive_phase (ys ++ xs) steps decisions
  derive_phase-append_comm xs ys =
      rw (derive_phase_lem (xs ++ ys), derive_phase_lem (ys ++ xs))
        (rw
          (
            any-append unknown_task xs ys,
            any-append unknown_task ys xs,
            any-append failed_task xs ys,
            any-append failed_task ys xs,
            any-append canceled_task xs ys,
            any-append canceled_task ys xs,
            all-append accounted_task xs ys,
            all-append accounted_task ys xs,
          )
          (ground arith))
