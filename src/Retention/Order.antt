-- ===== src/Retention/Order.antt =====
-- The order of the removals of a sweep, and what is removed: the Kubernetes object goes before the
-- row, and the object is the one that the publisher made for the run.
use Prim.Native.Char.{Char}
use orbitjob.Prelude.{
  ℕ, ◌+◌, ◌≡◌, ◌≢◌, ◌⊎◌, refl, String, true, false, List, [], ◌∷◌, Option, none, some, arith, inl,
  inr, Among, Bool-cases, ◌==◌, eq_iff,
}
use orbitjob.Prelude.Int.{ℤ, pos, negsuc, leb_ℤ}
use orbitjob.Trace.{Holds, Holds-accepted, Holds-bind, Holds-then, Holds-continue, ◌>>◌}
use orbitjob.Walker.Sweep.{shorten, run_object_name}
use orbitjob.Run.{PrunableRun}
use orbitjob.Retention.{
  HistoryPolicy, RetainedDefinition, PruneCall, list_active, list_prunable, remove, delete_run,
  refused, Env, ask, limit_or, reaches, removed_name, remove_object, count, prune_runs, prune_kept,
  prune_definition, prune_each, sweep_history_from, sweep_history,
}

-- The first trace is the second one's beginning: the newest call comes first.
abbrev pub Extends : List PruneCall → List PruneCall → Type 0
Extends base [] = base ≡ []
Extends base (c ∷ h) = (base ≡ c ∷ h) ⊎ Extends base h

Extends-refl : (h : List PruneCall) → Extends h h
Extends-refl [] = refl
Extends-refl (c ∷ h) = inl refl

abbrev pub Kept : ℤ → Type 0
Kept n = leb_ℤ (pos 1) n ≡ true

pub Kept-limit : (n : ℤ) → Kept (limit_or (pos 3) n)
unfolding limit_or
Kept-limit (pos n) = ground arith
Kept-limit (negsuc n) = ground arith

has_first : (c : Char) (t : String) → String.◌∷◌ c t ≢ ""
has_first c t e = cc

not_empty : (c : Char) (t : String) → (String.◌∷◌ c t == "") ≡ false
not_empty c t = ground (arith, eq_iff (String.◌∷◌ c t) "", has_first c t)

-- The object of a long enough key has the name under which it was published.
pub removed_name-run_object_name :
    (definition key : String)
    → reaches 8 key ≡ true
    → removed_name definition key ≡ run_object_name definition key
unfolding reaches removed_name run_object_name shorten
removed_name-run_object_name definition String.[] e = absurd (ground arith)
removed_name-run_object_name definition (String.◌∷◌ c s) e = rw (not_empty c (shorten 7 s)) refl

module _ (env : Env) where
  -- A row is deleted right after the object of its run was removed, which was accepted, by the name
  -- under which it was published, for a run that the ledger listed as prunable for an active definition of the tenant.
  -- Each of those listings keeps at least one run of each outcome.
  abbrev pub Licensed : PruneCall → List PruneCall → Type 0
  Licensed (delete_run tenant id) (remove namespace name ∷ h) =
      (d : RetainedDefinition) × (run : PrunableRun) × (g listing : List PruneCall) × (successful
        failed : ℤ)
      × (env.accepts h (remove namespace name) ≡ true)
      × (id ≡ run.id)
      × (namespace ≡ d.namespace)
      × (name ≡ run_object_name d.name run.occurrence_key)
      × Extends (list_active tenant ∷ g) h
      × Among d (env.definitions (list_active tenant ∷ g))
      × Extends (list_prunable tenant d.source_uid successful failed ∷ listing) h
      × Among run (env.prunable (list_prunable tenant d.source_uid successful failed ∷ listing))
  Licensed (delete_run tenant id) _ = ⊥
  Licensed (list_prunable tenant uid successful failed) h = Kept successful × Kept failed
  Licensed _ h = Unit

  abbrev pub ObjectFirst : List PruneCall → Type 0
  ObjectFirst [] = Unit
  ObjectFirst (c ∷ h) = Licensed c h × ObjectFirst h

  -- As well as that, the trace goes on from another.
  abbrev From : List PruneCall → List PruneCall → Type 0
  From base h = ObjectFirst h × Extends base h

  module _ (tenant : String) (g : List PruneCall) where
    abbrev base : List PruneCall
    base = list_active tenant ∷ g

    module _ (d : RetainedDefinition) (active : Among d (env.definitions base))
        (successful failed : ℤ) (listing : List PruneCall) where
      abbrev listed : List PruneCall
      listed = list_prunable tenant d.source_uid successful failed ∷ listing

      module _ (run : PrunableRun) where
        abbrev object : PruneCall
        object = remove d.namespace (removed_name d.name run.occurrence_key)

        abbrev row : PruneCall
        row = delete_run tenant run.id

        From-deleted :
            (h : List PruneCall)
            → Among run (env.prunable listed)
            → reaches 8 run.occurrence_key ≡ true
            → From base h
            → Extends listed h
            → env.accepts h object ≡ true
            → From base (row ∷ (object ∷ h))
        From-deleted h m long (q, b) x gone = (
          (
            (
              d,
              run,
              g,
              listing,
              successful,
              failed,
              gone,
              refl,
              refl,
              removed_name-run_object_name d.name run.occurrence_key long,
              b,
              active,
              x,
              m,
            ),
            (tt, q),
          ),
          inr (inr b),
        )

      From-runs :
          (runs : List PrunableRun) (removed : ℕ) (h : List PruneCall)
          → ((run : PrunableRun) → Among run runs → Among run (env.prunable listed))
          → From base h
          → Extends listed h
          → From base (prune_runs env tenant d runs removed h).1
      unfolding prune_runs remove_object
      From-runs [] removed h m q x = q
      From-runs (run ∷ runs) removed h m q x =
          let filed : List PruneCall = row run ∷ (object run ∷ h) in
          elim (Bool-cases (reaches 8 run.occurrence_key)) [
            | inl e ↦ rw e (
                Holds-accepted (From base) env.accepts refused (object run)
                  (ask env (row run) >> λ k.
                    prune_runs env tenant d runs (count (env.deleted k) removed) k)
                  h ((tt, q.0), inr q.1)
                  (λ gone.
                    let deleted = From-deleted run h (m run (inl refl)) e q x gone in
                    Holds-then (From base) env.accepts refused (row run)
                      (λ k. prune_runs env tenant d runs (count (env.deleted k) removed) k)
                      (object run ∷ h) deleted
                      (From-runs runs (count (env.deleted filed) removed) filed (λ r i. m r (inr i))
                        deleted (inr (inr x)))))
            | inr e ↦ rw e q
          ]

    From-definition :
        (d : RetainedDefinition)
        → Among d (env.definitions base)
        → Holds (From base) (prune_definition env tenant d)
    unfolding prune_definition prune_kept
    From-definition d active h (q, b) = kept d.history
      where
        listing_of : HistoryPolicy → PruneCall
        listing_of policy =
            list_prunable tenant d.source_uid (limit_or (pos 3) policy.successful_runs)
              (limit_or (pos 3) policy.failed_runs)

        kept : (o : Option HistoryPolicy) → From base (prune_kept env tenant d o h).1
        kept none = (q, b)
        kept (some policy) =
            Holds-then (From base) env.accepts refused (listing_of policy) _ h
              (((Kept-limit policy.successful_runs, Kept-limit policy.failed_runs), q), inr b)
              (From-runs d active _ _ h (env.prunable (listing_of policy ∷ h)) 0
                (listing_of policy ∷ h) (λ r i. i)
                (((Kept-limit policy.successful_runs, Kept-limit policy.failed_runs), q), inr b)
                (inl refl))

    From-each :
        (ds : List RetainedDefinition) (removed : ℕ)
        → ((d : RetainedDefinition) → Among d ds → Among d (env.definitions base))
        → Holds (From base) (prune_each env tenant ds removed)
    unfolding prune_each
    From-each [] removed m = λ h q. q
    From-each (d ∷ ds) removed m =
        Holds-bind (From base) (prune_definition env tenant d) _
          (From-definition d (m d (inl refl))) λ n. From-each ds (removed + n) (λ e i. m e (inr i))

  ObjectFirst-tenants :
      (tenants : List String) (removed : ℕ)
      → Holds ObjectFirst (sweep_history_from env tenants removed)
  unfolding sweep_history_from
  ObjectFirst-tenants [] removed h q = q
  ObjectFirst-tenants (tenant ∷ tenants) removed h q =
      Holds-then ObjectFirst env.accepts refused (list_active tenant) _ h (tt, q)
        (Holds-continue ObjectFirst
          (prune_each env tenant (env.definitions (list_active tenant ∷ h)) removed
            (list_active tenant ∷ h))
          (sweep_history_from env tenants)
          (From-each tenant h (env.definitions (list_active tenant ∷ h)) removed (λ d i. i)
            (list_active tenant ∷ h) ((tt, q), inl refl)).0
          (λ n. ObjectFirst-tenants tenants n))

  -- A sweep deletes a run's row only right after the removal of its JobRun object was accepted, by the
  -- very name under which the publisher made it. The run was listed as prunable for an active definition of the same
  -- tenant, in this sweep, and each listing asks to keep at least one run that succeeded and one that
  -- failed, whatever the definition says.
  pub sweep_history-ObjectFirst :
      (tenants : List String) → ObjectFirst (sweep_history env tenants []).1
  unfolding sweep_history
  sweep_history-ObjectFirst tenants = ObjectFirst-tenants tenants 0 [] tt
