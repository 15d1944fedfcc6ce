-- ===== src/Schedule/Window.antt =====
-- matchesInWindow: what the walk through the lookback window finds.
use orbitjob.Prelude.{
  ℕ, zero, suc, ◌+◌, ◌-◌, ◌*◌, ◌/◌, ◌%◌, ◌<◌, ◌≡◌, Bool, false, ◌&&◌, ◌||◌, List, [], ◌∷◌, arith,
  leb, eqb,
}
use orbitjob.Schedule.{minute, truncate, walk, matches_in_window}

abbrev pub member : ℕ → List ℕ → Bool
member u [] = false
member u (t ∷ ts) = eqb t u || member u ts

truncate_aligned : (t : ℕ) → truncate t % minute ≡ 0
truncate_aligned t = omega arith

-- With fuel for the rest of the window, the walk finds the minutes from `t` to `end` that match.
pub member-walk :
    (matches : ℕ → Bool) (fuel t end u : ℕ)
    → t % minute ≡ 0
    → end < t + fuel * minute
    → member u (walk matches fuel t end)
      ≡ (matches u && (eqb (u % minute) 0 && (leb t u && leb u end)))
unfolding walk
member-walk matches zero t end u a h = ground arith
member-walk matches (suc fuel) t end u a h =
    let ih = member-walk matches fuel (t + minute) end u (omega arith) (omega arith) in
    ground (arith, ih)

-- The window holds exactly the whole minutes that match from the minute of `now - grace` to the
-- minute of `now`: the walk visits each, and its fuel suffices.
pub member-matches_in_window :
    (matches : ℕ → Bool) (now grace u : ℕ)
    → member u (matches_in_window matches now grace)
      ≡ (matches u && (eqb (u % minute) 0 && (leb (truncate (now - grace)) u && leb u now)))
unfolding matches_in_window
member-matches_in_window matches now grace u = ground (
  arith,
  member-walk matches ((truncate now - truncate (now - grace)) / minute + 1)
      (truncate (now - grace)) (truncate now) u (omega arith) (omega arith),
)
