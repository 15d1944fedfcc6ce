-- ===== src/Schedule.antt =====
-- internal/core/app/controlplane/schedule.go: which activations of a definition the scheduler fires,
-- and what it then asks of the ledger and of Kubernetes. Instants and durations are numbers of
-- nanoseconds; the lookback starts at the zero instant at the earliest.
pub mod Fire
pub mod Window
pub mod Choice
pub mod Pass
pub mod Limits
pub mod Tick
pub mod Isolation
pub mod Tests
use orbitjob.Prelude.{
  ℕ, zero, suc, ◌+◌, ◌-◌, ◌/◌, ◌%◌, String, Bool, true, false, List, [], ◌∷◌, ltb, eqb, length,
  drop, if◌then◌else◌,
}
use orbitjob.Prelude.Int.{ℤ, pos, negsuc}

pub data MisfirePolicy : Type 0 where
  skip fire_once catch_up_bounded : MisfirePolicy
  other_policy : String → MisfirePolicy

abbrev pub minute : ℕ
minute = 60000000000

-- Truncate(time.Minute)
abbrev pub truncate : ℕ → ℕ
truncate t = t - t % minute

-- The loop of matchesInWindow, from `t`.
unfoldable pub walk : (ℕ → Bool) → ℕ → ℕ → ℕ → List ℕ
walk matches zero t end = []
walk matches (suc fuel) t end =
    let rest = walk matches fuel (t + minute) end in
    if ltb end t then [] else if matches t then t ∷ rest else rest

unfoldable pub matches_in_window : (ℕ → Bool) → ℕ → ℕ → List ℕ
unfolding walk
matches_in_window matches now grace =
    let start = truncate (now - grace) in
    walk matches ((truncate now - start) / minute + 1) start (truncate now)

abbrev pub last : ℕ → List ℕ → ℕ
last t [] = t
last t (u ∷ us) = last u us

-- maxCatchUp below 1 is 1.
abbrev pub catch_up_limit : ℤ → ℕ
catch_up_limit (pos n) = if eqb n 0 then 1 else n
catch_up_limit (negsuc n) = 1

-- The switch over the policy for a misfire; `newest` is the last of the matches.
unfoldable pub misfired : MisfirePolicy → ℕ → List ℕ → ℤ → List ℕ
misfired skip newest matches max_catch_up = []
misfired catch_up_bounded newest matches max_catch_up =
    let limit = catch_up_limit max_catch_up in
    if ltb limit (length matches) then drop (length matches - limit) matches else matches
misfired _ newest matches max_catch_up = newest ∷ []

unfoldable pub choose : MisfirePolicy → ℕ → ℤ → List ℕ → List ℕ
unfolding misfired
choose policy now max_catch_up [] = []
choose policy now max_catch_up (t ∷ ts) =
    let newest = last t ts in
    if ltb (now - newest) minute then newest ∷ [] else misfired policy newest (t ∷ ts) max_catch_up

unfoldable pub select_occurrences : (ℕ → Bool) → MisfirePolicy → ℕ → ℕ → ℤ → List ℕ
unfolding matches_in_window choose
select_occurrences matches policy now grace max_catch_up =
    choose policy now max_catch_up (matches_in_window matches now grace)
