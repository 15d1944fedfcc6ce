-- ===== src/Check/Recorded.antt =====
-- What RecordTerminalPhase may write.
use orbitjob.Prelude.{
  ℕ, ◌≡◌, ◌⊎◌, refl, Bool, true, not, List, [], ◌∷◌, Option, none, some, arith, All, inl, inr,
}
use orbitjob.Prelude.Result.{Result, ok, err}
use orbitjob.Trace.{Keeps, Keeps-request, Keeps-then, Keeps-bind, Keeps-if, ◌>>◌}
use orbitjob.Run.{Phase}
use orbitjob.Reconcile.{TerminalOutcome}
use orbitjob.Reconcile.Outcomes.{has_outcome}
use orbitjob.Check.Criteria.{CriteriaError, Floats, is_good_event}
use orbitjob.Check.Record.{
  Sli, RecordCall, read_outcome, record_completed, read_check, find_slis, increment_snapshot,
  check_id_from_source_uid, event_of, Recorder, B, call, logged, check_record, record_check_run,
  increment, increment_each, truncated, record_sli_events, record_terminal_phase,
}

-- An element of a list.
abbrev pub In : {A : Type 0} → A → List A → Type 0
In x [] = ⊥
In x (y ∷ ys) = (x ≡ y) ⊎ In x ys

module _ {f : Floats} (r : Recorder f) (run : ℕ) (p : Phase) where
  -- The outcome that the ledger answered for the run, after the calls of `h`.
  abbrev pub outcome_at : List RecordCall → TerminalOutcome
  outcome_at h = r.outcome (read_outcome run ∷ h)

  -- The call was answered, after those of `h`.
  abbrev pub Accepted : List RecordCall → RecordCall → Type 0
  Accepted h c = r.accepts h c ≡ true

  abbrev pub Judged : RecordCall → Type 0
  Judged (read_outcome k) = (k ≡ run) × (has_outcome p ≡ true)
  Judged (record_completed c) =
      (h : List RecordCall) × (id : ℕ) × Accepted h (read_outcome run)
      × (check_id_from_source_uid (outcome_at h).source_uid ≡ some id)
      × (c ≡ check_record r (outcome_at h) id)
  Judged (read_check id) =
      (h : List RecordCall) × Accepted h (read_outcome run)
      × (check_id_from_source_uid (outcome_at h).source_uid ≡ some id)
  Judged (find_slis uid) =
      (h : List RecordCall) × Accepted h (read_outcome run) × (uid ≡ (outcome_at h).source_uid)
  Judged (increment_snapshot sli window good) =
      (h k : List RecordCall) × (s : Sli f.Float) × Accepted h (read_outcome run)
      × Accepted k (find_slis (outcome_at h).source_uid)
      × In s (r.slis (find_slis (outcome_at h).source_uid ∷ k))
      × (sli ≡ s.id)
      × (is_good_event f (event_of (outcome_at h)) s.type s.criteria ≡ ok good)
      × (window ≡ truncated r (r.now (find_slis (outcome_at h).source_uid ∷ k)))
      × (r.records_slis ≡ true)

  Keeps-call : (c : RecordCall) → Judged c → Keeps Judged (call r c)
  Keeps-call c j = Keeps-request Judged r.accepts (λ x. x) c j

  Keeps-call_then :
      (c : RecordCall) (m : B r)
      → Judged c
      → ((h : List RecordCall) → Accepted h c → All Judged (c ∷ h) → All Judged (m (c ∷ h)).1)
      → Keeps Judged (call r c >> m)
  Keeps-call_then c m = Keeps-then Judged r.accepts (λ x. x) c m

  Keeps-logged : (m : B r) → Keeps Judged m → Keeps Judged (logged r m)
  Keeps-logged m k = k

  module _ (h : List RecordCall) (y : Accepted h (read_outcome run)) where
    abbrev o : TerminalOutcome
    o = outcome_at h

    Keeps-check :
        (id : Option ℕ)
        → check_id_from_source_uid o.source_uid ≡ id
        → Keeps Judged (record_check_run r o id)
    unfolding record_check_run
    Keeps-check none m = λ g q. q
    Keeps-check (some id) m =
        let row = record_completed (check_record r o id) in
        Keeps-bind Judged (call r row) _ (Keeps-call row (h, id, y, m, refl))
          λ u. Keeps-call (read_check id) (h, y, m)

    abbrev lookup : RecordCall
    lookup = find_slis o.source_uid

    Keeps-increments :
        (k : List RecordCall) (ss : List (Sli f.Float))
        → Accepted k lookup
        → r.records_slis ≡ true
        → ((s : Sli f.Float) → In s ss → In s (r.slis (lookup ∷ k)))
        → Keeps Judged (increment_each r (event_of o) (truncated r (r.now (lookup ∷ k))) ss)
    unfolding increment_each
    Keeps-increments k [] z b m = λ g q. q
    Keeps-increments k (s ∷ ss) z b m =
        Keeps-bind Judged
          (increment r s.id (truncated r (r.now (lookup ∷ k)))
            (is_good_event f (event_of o) s.type s.criteria))
          _ (counted _ refl) λ u. Keeps-increments k ss z b (λ x i. m x (inr i))
      where
        counted :
            (v : Result CriteriaError Bool)
            → is_good_event f (event_of o) s.type s.criteria ≡ v
            → Keeps Judged (increment r s.id (truncated r (r.now (lookup ∷ k))) v)
        counted (err x) v = λ g q. q
        counted (ok good) v =
            Keeps-call (increment_snapshot s.id (truncated r (r.now (lookup ∷ k))) good)
              (h, k, s, y, z, m s (inl refl), refl, v, refl, b)

    Keeps-events : Keeps Judged (record_sli_events r o)
    unfolding record_sli_events
    Keeps-events =
        Keeps-if Judged (not r.records_slis) _ _ (λ b g q. q)
          λ b.
            Keeps-call_then lookup _ (h, y, refl)
              λ k z q.
                Keeps-increments k (r.slis (lookup ∷ k)) z (ground arith) (λ s i. i) (lookup ∷ k) q

  -- Whatever the stores answer, the bookkeeping of a run does nothing unless its phase is Succeeded or
  -- Failed, so that a canceled run counts nowhere. It then writes a check's row only for an outcome
  -- of the run whose source is a check, with that outcome's facts, looks up the SLIs of that
  -- outcome's source only, and moves a snapshot only for one of those that the lookup answered with,
  -- in the window of the present instant, by the verdict of that SLI's criteria on the outcome; an
  -- SLI whose criteria are in error is passed over.
  pub record_terminal_phase-Judged : All Judged (record_terminal_phase r run p []).1
  unfolding record_terminal_phase
  record_terminal_phase-Judged =
      Keeps-if Judged (not (has_outcome p)) _ _ (λ e g q. q)
        (λ e.
          Keeps-call_then (read_outcome run) _ (refl, ground arith)
            λ h y q.
              let k = read_outcome run ∷ h in
              Keeps-bind Judged
                (record_check_run r (r.outcome k)
                  (check_id_from_source_uid (r.outcome k).source_uid))
                _ (Keeps-check h y _ refl) (λ v. Keeps-events h y) k q)
        [] tt
