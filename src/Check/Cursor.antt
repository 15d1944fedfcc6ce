-- ===== src/Check/Cursor.antt =====
-- The cursor of a check, next_run_at: when it moves, when it does not, and where to.
use orbitjob.Prelude.{
  ℕ, ◌+◌, ◌<◌, ◌≡◌, refl, String, Bool, true, false, not, ◌&&◌, List, [], ◌∷◌, Option, none, some,
  arith, inl, inr, any, Bool-cases, ◌==◌, if◌then◌else◌,
}
use orbitjob.Prelude.Int.{ℤ, pos, negsuc, ltb_ℤ}
use orbitjob.Prelude.Result.{Result, ok, err}
use orbitjob.Trace.{Holds, Holds-accepted, Holds-bind, Holds-then, Holds-if, pure, ◌>>◌}
use orbitjob.Run
use orbitjob.Run.{Phase, Trigger, OpenRun}
use orbitjob.Check.{
  ScheduleType, cron, interval, other_schedule, Snapshot, check_source_uid, RevisionError,
  NewRevision,
}
use orbitjob.Check.Probe.{CheckSpec, check_job_spec, next_ℤ}
use orbitjob.Check.Fire.{
  CheckCall, list_due, list_open_runs, apply_revision, create_occurrence, publish,
  update_next_run_at, CheckError, refused, UseCase, C, ask, actor_check_scheduler, next_parsed,
  next_of, next_run_at, job_run_object, republish, repair_open_runs, apply_new, apply_spec,
  apply_check, publish_stored, fire_occurrence, fire_check, absorb, fire_each, effective_limit,
  run_batch,
}

-- A cursor moves right after its occurrence's object was published, which is right after the row was
-- written, and both calls were accepted: the calls before it, the newest first.
abbrev pub Advanced : UseCase → CheckCall → List CheckCall → Type 0
Advanced u (update_next_run_at id next)
      (publish o ∷ (create_occurrence uid rev key trigger p at budget actor ∷ h)) =
    (uid ≡ check_source_uid id)
    × (o.definition_uid ≡ uid)
    × (o.occurrence_key ≡ key)
    × (o.trigger ≡ Trigger.check)
    × (u.env.accepts h (create_occurrence uid rev key trigger p at budget actor) ≡ true)
    × (u.env.accepts (create_occurrence uid rev key trigger p at budget actor ∷ h) (publish o)
        ≡ true)
Advanced u (update_next_run_at id next) _ = ⊥
Advanced u _ _ = Unit

abbrev pub CursorLast : UseCase → List CheckCall → Type 0
CursorLast u [] = Unit
CursorLast u (c ∷ h) = Advanced u c h × CursorLast u h

-- The calls of the last steps: the row, and the move of the cursor.
abbrev is_late : CheckCall → Bool
is_late (create_occurrence uid rev key trigger p at budget actor) = true
is_late (update_next_run_at id next) = true
is_late _ = false

-- The steps before the row make none of them.
module _ (u : UseCase) (Q : List CheckCall → Type 0)
    (harmless : (c : CheckCall) (h : List CheckCall) → is_late c ≡ false → Q h → Q (c ∷ h)) where
  after :
      {B : Type 0} (c : CheckCall) (k : C B) (h : List CheckCall)
      → is_late c ≡ false
      → Q h
      → (Q (c ∷ h) → Q (k (c ∷ h)).1)
      → Q ((ask u c >> k) h).1
  after c k h a q f =
      Holds-then Q u.env.accepts refused c k h (harmless c h a q) (f (harmless c h a q))

  Holds-republish : (uid : String) (runs : List OpenRun) → Holds Q (republish u uid runs)
  unfolding republish
  Holds-republish uid [] h q = q
  Holds-republish uid (run ∷ runs) h q =
      after (publish (job_run_object u uid run.revision_id run.occurrence_key run.scheduled_for))
        (republish u uid runs) h refl q (Holds-republish uid runs _)

  Holds-repair : (uid : String) → Holds Q (repair_open_runs u uid)
  unfolding repair_open_runs
  Holds-repair uid h q =
      after (list_open_runs uid) (λ g. republish u uid (u.env.open_runs g) g) h refl q
        (Holds-republish uid (u.env.open_runs (list_open_runs uid ∷ h)) (list_open_runs uid ∷ h))

  Holds-apply_new : (r : Result RevisionError NewRevision) → Holds Q (apply_new u r)
  Holds-apply_new (err e) h q = q
  Holds-apply_new (ok rev) h q =
      after (apply_revision rev) (λ g. pure (u.env.revision_id g) g) h refl q (λ r. r)

  Holds-apply_check : (c : Snapshot) → Holds Q (apply_check u c)
  unfolding apply_check
  Holds-apply_check c =
      Holds-if Q (u.scope.tenant == "") _ _ (λ h q. q)
        (Holds-if Q (u.scope.namespace == "") _ _ (λ h q. q) (specified (check_job_spec c)))
    where
      specified : (o : Option CheckSpec) → Holds Q (apply_spec u c o)
      specified none h q = q
      specified (some spec) h q = Holds-apply_new _ h q

module _ (u : UseCase) where
  abbrev Q : List CheckCall → Type 0
  Q = CursorLast u

  stays_last : (c : CheckCall) (h : List CheckCall) → is_late c ≡ false → Q h → Q (c ∷ h)
  stays_last (list_due limit) h e q = (tt, q)
  stays_last (list_open_runs uid) h e q = (tt, q)
  stays_last (apply_revision rev) h e q = (tt, q)
  stays_last (create_occurrence uid rev key trigger p at budget actor) h e q = cc
  stays_last (publish o) h e q = (tt, q)
  stays_last (update_next_run_at id next) h e q = cc

  abbrev row : Snapshot → ℕ → ℕ → CheckCall
  row c at revision_id =
      create_occurrence (check_source_uid c.id) revision_id
        (u.occurrence_key (check_source_uid c.id) revision_id at) Trigger.check Phase.pending at
        (next_ℤ c.retry_limit) actor_check_scheduler

  Holds-publish_stored :
      (c : Snapshot) (now at revision_id : ℕ) (new over : Bool) (stored : ℕ) (h : List CheckCall)
      → u.env.accepts h (row c at revision_id) ≡ true
      → Q (row c at revision_id ∷ h)
      → Q
          (publish_stored u c now
            (u.occurrence_key (check_source_uid c.id) revision_id at)
            at
            new
            over
            stored
            (row c at revision_id ∷ h)).1
  Holds-publish_stored c now at revision_id new over stored h filed q =
      elim (Bool-cases (not new && over)) [
        | inl e ↦ unfold publish_stored in rw e q
        | inr e ↦
            unfold publish_stored in
            rw e (
              Holds-accepted Q u.env.accepts refused o moved (row c at revision_id ∷ h) (tt, q)
                λ shown.
                  Holds-then Q u.env.accepts refused move (pure _) (o ∷ (row c at revision_id ∷ h))
                    ((refl, refl, refl, refl, filed, shown), (tt, q))
                    ((refl, refl, refl, refl, filed, shown), (tt, q)))
      ]
    where
      o : CheckCall
      o = publish (
          job_run_object u (check_source_uid c.id) stored
            (u.occurrence_key (check_source_uid c.id) revision_id at) at)

      move : CheckCall
      move = update_next_run_at c.id (next_run_at u c now)

      moved : C ℕ
      moved = ask u move >> pure (if new then 1 else 0)

  Holds-fire_occurrence :
      (c : Snapshot) (now : ℕ) (o : Option ℕ) (revision_id : ℕ)
      → Holds Q (fire_occurrence u c now o revision_id)
  unfolding fire_occurrence
  Holds-fire_occurrence c now none revision_id h q = q
  Holds-fire_occurrence c now (some at) revision_id h q =
      Holds-accepted Q u.env.accepts refused (row c at revision_id) _ h (tt, q)
        λ filed.
          Holds-publish_stored c now at revision_id (u.env.is_new (row c at revision_id ∷ h))
            (Run.terminal (u.env.stored_phase (row c at revision_id ∷ h)))
            (u.env.stored_revision (row c at revision_id ∷ h)) h filed (tt, q)

  Holds-fire_check : (c : Snapshot) (now : ℕ) → Holds Q (fire_check u c now)
  unfolding fire_check
  Holds-fire_check c now =
      Holds-bind Q (repair_open_runs u (check_source_uid c.id)) _
        (Holds-repair u Q stays_last (check_source_uid c.id))
        λ v.
          Holds-bind Q (apply_check u c) _ (Holds-apply_check u Q stays_last c)
            (Holds-fire_occurrence c now c.next_run_at)

  Holds-absorb :
      (r : Result CheckError ℕ × List CheckCall) (created : ℕ) (next : ℕ → C ℕ)
      → Q r.1
      → ((n : ℕ) → Holds Q (next n))
      → Q (absorb r created next).1
  Holds-absorb (ok n, h) created next q k = k (created + n) h q
  Holds-absorb (err e, h) created next q k = k created h q

  Holds-fire_each : (cs : List Snapshot) (now created : ℕ) → Holds Q (fire_each u cs now created)
  unfolding fire_each
  Holds-fire_each [] now created h q = q
  Holds-fire_each (c ∷ cs) now created h q =
      Holds-absorb (fire_check u c now h) created (fire_each u cs now) (Holds-fire_check c now h q)
        (λ n. Holds-fire_each cs now n)

  -- Whatever the ledger and Kubernetes answer, a batch moves a check's cursor only as the call right
  -- after the publication of the object of the check's occurrence was accepted, and that right after
  -- the write of the occurrence's row was: a failure at either leaves the cursor.
  pub run_batch-CursorLast : (limit : ℤ) → CursorLast u (run_batch u limit []).1
  unfolding run_batch
  run_batch-CursorLast limit =
      after u Q stays_last (list_due (effective_limit limit))
        (λ g. fire_each u (u.env.due g) (u.env.clock []) 0 g) [] refl tt
        (Holds-fire_each (u.env.due (list_due (effective_limit limit) ∷ [])) (u.env.clock []) 0
          (list_due (effective_limit limit) ∷ []))

-- Nothing but the repair of open runs and the revision: no row, and no move of the cursor.
abbrev pub Early : List CheckCall → Type 0
Early h = any is_late h ≡ false

-- At most the row follows, and it is the last call.
abbrev pub EndsAtRow : List CheckCall → Type 0
EndsAtRow [] = Unit
EndsAtRow (create_occurrence uid rev key trigger p at budget actor ∷ h) = Early h
EndsAtRow (c ∷ h) = Early (c ∷ h)

-- No run is counted.
abbrev pub Uncounted : Result CheckError ℕ → Type 0
Uncounted (ok n) = n ≡ 0
Uncounted (err e) = Unit

abbrev Unfired : Result CheckError ℕ × List CheckCall → Type 0
Unfired r = Uncounted r.0 × EndsAtRow r.1

-- The next instant is in the future, so that a check is not fired again at once: for an interval of
-- at least a second, and for a cron expression, where it parses, if the parser's next activation is
-- after the given instant.
pub next_run_at_future :
    (u : UseCase) (c : Snapshot) (now : ℕ)
    → ((e : String) (next : ℕ → ℕ) → u.parse_cron e ≡ some next → now < next now)
    → ((n : ℤ) → c.interval_sec ≡ some n → ltb_ℤ (pos 0) n ≡ true)
    → now < next_run_at u c now
unfolding next_run_at
next_run_at_future u c now k l = future c.schedule_type c.cron_expr c.interval_sec l
  where
    parsed :
        (o : Option (ℕ → ℕ))
        → ((next : ℕ → ℕ) → o ≡ some next → now < next now)
        → now < next_parsed o now
    parsed none k = omega arith
    parsed (some next) k = k next refl

    future :
        (t : ScheduleType) (e : Option String) (n : Option ℤ)
        → ((m : ℤ) → n ≡ some m → ltb_ℤ (pos 0) m ≡ true)
        → now < next_of u.parse_cron t e n now
    future cron (some e) n l = parsed (u.parse_cron e) (k e)
    future cron none n l = omega arith
    future interval e (some (pos n)) l = let positive = l (pos n) refl in ground arith
    future interval e (some (negsuc n)) l =
        let positive = l (negsuc n) refl in absurd (ground arith)
    future interval e none l = omega arith
    future (other_schedule t) e n l = omega arith
