-- ===== src/Schedule/Choice.antt =====
-- selectOccurrences: what it fires is due, how much it fires, and when it fires at all.
use orbitjob.Prelude.{
  ℕ, zero, suc, ◌+◌, ◌-◌, ◌*◌, ◌/◌, ◌%◌, ◌≤◌, ◌<◌, ◌≡◌, refl, inl, inr, Bool, true, false, List, [],
  ◌∷◌, arith, leb, eqb, eqb_iff, length, length-drop, drop, Bool-cases, if◌then◌else◌,
}
use orbitjob.Prelude.Int.{ℤ}
use orbitjob.Schedule.{
  MisfirePolicy, skip, catch_up_bounded, minute, truncate, walk, matches_in_window, last,
  catch_up_limit, misfired, choose, select_occurrences,
}
use orbitjob.Schedule.Window.{member, member-matches_in_window}

member-last : (t : ℕ) (ts : List ℕ) → member (last t ts) (t ∷ ts) ≡ true
member-last t [] = ground (arith, eqb_iff t t)
member-last t (u ∷ us) = ground (arith, member-last u us)

member-drop : (n u : ℕ) (ts : List ℕ) → member u (drop n ts) ≡ true → member u ts ≡ true
member-drop zero u ts h = h
member-drop (suc n) u [] h = h
member-drop (suc n) u (t ∷ ts) h = ground (arith, member-drop n u ts)

last-drop : (n d : ℕ) (ts : List ℕ) → n < length ts → last d (drop n ts) ≡ last d ts
last-drop zero d ts h = refl
last-drop (suc n) d [] h = absurd (omega arith)
last-drop (suc n) d (t ∷ []) h = absurd (omega arith)
last-drop (suc n) d (t ∷ u ∷ us) h = last-drop n d (u ∷ us) (omega arith)

-- Where the policy does not matter: on time, or the same set as the misfires.
member-choose :
    (policy : MisfirePolicy) (now : ℕ) (limit : ℤ) (ts : List ℕ) (u : ℕ)
    → member u (choose policy now limit ts) ≡ true
    → member u ts ≡ true
unfolding choose misfired
member-choose policy now limit [] u h = h
member-choose policy now limit (t ∷ ts) u h = ground (
  arith,
  member-last t ts,
  eqb_iff (last t ts) u,
  member-drop (length (t ∷ ts) - catch_up_limit limit) u (t ∷ ts),
)

-- Every instant that is fired is a whole minute that the schedule matches, not after now and not
-- before the minute of `now - grace`.
pub select_occurrences_due :
    (matches : ℕ → Bool) (policy : MisfirePolicy) (now grace : ℕ) (max_catch_up : ℤ) (u : ℕ)
    → member u (select_occurrences matches policy now grace max_catch_up) ≡ true
    → (matches u ≡ true) × (u % minute ≡ 0) × (truncate (now - grace) ≤ u) × (u ≤ now)
unfolding select_occurrences
select_occurrences_due matches policy now grace max_catch_up u h =
    let due = member-matches_in_window matches now grace u in
    let in_window =
      member-choose policy now max_catch_up (matches_in_window matches now grace) u h in
    (ground arith, ground arith, ground arith, ground arith)

abbrev pub catches_up : MisfirePolicy → Bool
catches_up catch_up_bounded = true
catches_up _ = false

abbrev pub drops : MisfirePolicy → Bool
drops skip = true
drops _ = false

length-choose :
    (policy : MisfirePolicy) (now : ℕ) (limit : ℤ) (ts : List ℕ)
    → length (choose policy now limit ts) ≤ (if catches_up policy then catch_up_limit limit else 1)
unfolding choose misfired
length-choose policy now limit [] = ground arith
length-choose policy now limit (t ∷ ts) =
    ground (arith, length-drop (length (t ∷ ts) - catch_up_limit limit) (t ∷ ts))

-- One pass fires at most one instant, and under the catch-up policy at most as many as it allows.
pub length-select_occurrences :
    (matches : ℕ → Bool) (policy : MisfirePolicy) (now grace : ℕ) (max_catch_up : ℤ)
    → length (select_occurrences matches policy now grace max_catch_up)
      ≤ (if catches_up policy then catch_up_limit max_catch_up else 1)
unfolding select_occurrences
length-select_occurrences matches policy now grace max_catch_up =
    length-choose policy now max_catch_up (matches_in_window matches now grace)

last-choose :
    (policy : MisfirePolicy) (now : ℕ) (limit : ℤ) (t : ℕ) (ts : List ℕ)
    → drops policy ≡ false
    → (1 ≤ length (choose policy now limit (t ∷ ts)))
      × (last 0 (choose policy now limit (t ∷ ts)) ≡ last t ts)
unfolding choose misfired
last-choose policy now limit t ts h = (
  ground (arith, length-drop (length (t ∷ ts) - catch_up_limit limit) (t ∷ ts)),
  ground (arith, last-drop (length (t ∷ ts) - catch_up_limit limit) 0 (t ∷ ts)),
)

-- Unless the policy drops misfires, a pass with any match in its window fires, and the newest match
-- is what it fires last.
pub select_occurrences_newest :
    (matches : ℕ → Bool) (policy : MisfirePolicy) (now grace : ℕ) (max_catch_up : ℤ) (t : ℕ)
    (ts : List ℕ)
    → drops policy ≡ false
    → matches_in_window matches now grace ≡ t ∷ ts
    → (1 ≤ length (select_occurrences matches policy now grace max_catch_up))
      × (last 0 (select_occurrences matches policy now grace max_catch_up) ≡ last t ts)
unfolding select_occurrences
select_occurrences_newest matches policy now grace max_catch_up t ts h w =
    rw w (last-choose policy now max_catch_up t ts h)

walk_past : (matches : ℕ → Bool) (fuel t end : ℕ) → end < t → walk matches fuel t end ≡ []
unfolding walk
walk_past matches zero t end h = refl
walk_past matches (suc fuel) t end h = ground arith

walk_end :
    (matches : ℕ → Bool) (fuel d t end : ℕ)
    → end % minute ≡ 0
    → t % minute ≡ 0
    → t ≤ end
    → end < t + fuel * minute
    → matches end ≡ true
    → last d (walk matches fuel t end) ≡ end
unfolding walk
walk_end matches zero d t end a b h k m = absurd (omega arith)
walk_end matches (suc fuel) d t end a b h k m = elim (Bool-cases (leb (t + minute) end)) [
  | inl more ↦
      let ih = λ (d' : ℕ).
        walk_end matches fuel d' (t + minute) end a (omega arith) (ground arith) (omega arith) m in
      ground (arith, ih t, ih d)
  | inr done ↦
      let at_end : t ≡ end = ground arith in
      let found : matches t ≡ true = rw at_end m in
      ground (arith, walk_past matches fuel (t + minute) end)
]

newest_is_now :
    (matches : ℕ → Bool) (now grace d : ℕ)
    → matches (truncate now) ≡ true
    → last d (matches_in_window matches now grace) ≡ truncate now
unfolding matches_in_window
newest_is_now matches now grace d m =
    walk_end matches ((truncate now - truncate (now - grace)) / minute + 1) d
      (truncate (now - grace)) (truncate now) (omega arith) (omega arith) (omega arith)
      (omega arith) m

choose_on_time :
    (policy : MisfirePolicy) (now : ℕ) (limit : ℤ) (w : List ℕ)
    → ((d : ℕ) → last d w ≡ truncate now)
    → choose policy now limit w ≡ truncate now ∷ []
unfolding choose
choose_on_time policy now limit [] h = ground (arith, h 0, h 1)
choose_on_time policy now limit (t ∷ ts) h = ground (arith, h 0)

-- An activation in the current minute is fired, alone, whatever the policy for misfires is.
pub select_occurrences_on_time :
    (matches : ℕ → Bool) (policy : MisfirePolicy) (now grace : ℕ) (max_catch_up : ℤ)
    → matches (truncate now) ≡ true
    → select_occurrences matches policy now grace max_catch_up ≡ truncate now ∷ []
unfolding select_occurrences
select_occurrences_on_time matches policy now grace max_catch_up m =
    choose_on_time policy now max_catch_up (matches_in_window matches now grace)
      λ d. newest_is_now matches now grace d m

choose_late :
    (now : ℕ) (limit : ℤ) (w : List ℕ)
    → ((u : ℕ) → member u w ≡ true → u + minute ≤ now)
    → choose skip now limit w ≡ []
unfolding choose misfired
choose_late now limit [] h = refl
choose_late now limit (t ∷ ts) h = ground (arith, h (last t ts) (member-last t ts))

late :
    (matches : ℕ → Bool) (now grace u : ℕ)
    → matches (truncate now) ≡ false
    → member u (matches_in_window matches now grace) ≡ true
    → u + minute ≤ now
late matches now grace u n h = elim (Bool-cases (eqb u (truncate now))) [
  | inl e ↦
      let same_minute : u ≡ truncate now = (eqb_iff u (truncate now)).0 e in
      let missed : matches u ≡ false = rw same_minute n in
      ground (arith, member-matches_in_window matches now grace u)
  | inr ne ↦
      let due = member-matches_in_window matches now grace u in
      let aligned : u % minute ≡ 0 = ground arith in
      let past : u ≤ now = ground arith in ground arith
]

-- A definition that drops misfires is fired in the minutes that its schedule matches, and only then.
pub select_occurrences_skip :
    (matches : ℕ → Bool) (now grace : ℕ) (max_catch_up : ℤ)
    → select_occurrences matches skip now grace max_catch_up
      ≡ (if matches (truncate now) then truncate now ∷ [] else [])
unfolding select_occurrences
select_occurrences_skip matches now grace max_catch_up =
    elim (Bool-cases (matches (truncate now))) [
      | inl m ↦ rw m (select_occurrences_on_time matches skip now grace max_catch_up m)
      | inr n ↦ rw n (
          choose_late now max_catch_up (matches_in_window matches now grace)
            λ u h. late matches now grace u n h)
    ]
