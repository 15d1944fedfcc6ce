-- ===== src/Schedule/Tick.antt =====
-- Tick: every definition of every tenant is fired; one that fails is logged and passed over, and
-- only a failure to list a tenant's revisions ends the tick. The scheduler is wired: the check for
-- absent dependencies is not modelled.
use orbitjob.Prelude.{ℕ, ◌+◌, ◌*◌, String, List, [], ◌∷◌, eqb, if◌then◌else◌}
use orbitjob.Prelude.Int.{ℤ, pos, negsuc}
use orbitjob.Prelude.Result.{Result, ok, err}
use orbitjob.Trace.{pure, ◌>>=◌, ◌>>◌}
use orbitjob.Schedule.{minute}
use orbitjob.Schedule.Fire.{
  Revision, FireEffect, FireError, list_revisions, Scheduler, F, ask, fire_definition,
}

-- A grace that is not positive is an hour.
unfoldable pub effective_grace : ℤ → ℕ
effective_grace (pos n) = if eqb n 0 then 60 * minute else n
effective_grace (negsuc n) = 60 * minute

-- The count after a definition: an error adds nothing and does not spread.
abbrev pub absorb :
    Result FireError ℕ × List FireEffect → ℕ → (ℕ → F ℕ) → Result FireError ℕ × List FireEffect
absorb (ok n, h) created next = next (created + n) h
absorb (err e, h) created next = next created h

-- The inner loop, over the revisions of one tenant.
unfoldable pub fire_all : Scheduler → List Revision → ℕ → ℕ → ℕ → F ℕ
fire_all s [] now grace created = pure created
fire_all s (rev ∷ revs) now grace created =
    λ h. absorb (fire_definition s rev now grace h) created (fire_all s revs now grace)

-- The outer loop, over the tenants.
unfoldable pub tick_from : Scheduler → List String → ℕ → ℕ → ℕ → F ℕ
unfolding fire_all
tick_from s [] now grace created = pure created
tick_from s (tenant ∷ tenants) now grace created =
    ask s (list_revisions tenant)
    >> ((λ h. fire_all s (s.ledger.revisions h) now grace created h)
        >>= tick_from s tenants now grace)

unfoldable pub tick : Scheduler → List String → ℕ → ℤ → F ℕ
unfolding tick_from effective_grace
tick s tenants now grace = tick_from s tenants now (effective_grace grace) 0
