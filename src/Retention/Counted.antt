-- ===== src/Retention/Counted.antt =====
-- The count that a sweep reports.
use orbitjob.Prelude.{
  ℕ, ◌+◌, ◌≡◌, String, Bool, true, false, List, [], ◌∷◌, Option, none, some, arith, inl, inr,
  Bool-cases,
}
use orbitjob.Prelude.Result.{Result, ok, err}
use orbitjob.Trace.{continue, ◌>>◌}
use orbitjob.Run.{PrunableRun}
use orbitjob.Retention.{
  HistoryPolicy, RetainedDefinition, PruneCall, list_active, remove, delete_run,
  delete_workflow_run, PruneError, Env, P, ask, reaches, removed_name, remove_object, count,
  prune_runs, prune_kept, prune_definition, prune_each, sweep_history_from, sweep_history,
}

module _ (env : Env) where
  -- The deletions that found their row.
  abbrev pub deletions : List PruneCall → ℕ
  deletions [] = 0
  deletions (delete_run tenant id ∷ h) =
      count (env.deleted (delete_run tenant id ∷ h)) (deletions h)
  deletions (delete_workflow_run tenant id ∷ h) =
      count (env.deleted (delete_workflow_run tenant id ∷ h)) (deletions h)
  deletions (_ ∷ h) = deletions h

  -- From a count before and a trace before: a result counts the deletions since.
  abbrev pub Tallied : ℕ → List PruneCall → Result PruneError ℕ × List PruneCall → Type 0
  Tallied removed h (ok n, g) = n + deletions h ≡ deletions g + removed
  Tallied removed h (err e, g) = Unit

  Tallied-carry :
      (removed n : ℕ) (h g : List PruneCall) (r : Result PruneError ℕ × List PruneCall)
      → n + deletions h ≡ deletions g + removed
      → Tallied n g r
      → Tallied removed h r
  Tallied-carry removed n h g (ok m, k) e t = omega (arith, e, t)
  Tallied-carry removed n h g (err x, k) e t = tt

  Tallied-continue :
      (removed : ℕ) (h : List PruneCall) (r : Result PruneError ℕ × List PruneCall) (f : ℕ → P ℕ)
      → Tallied removed h r
      → ((n : ℕ) (g : List PruneCall) → Tallied n g (f n g))
      → Tallied removed h (continue r f)
  Tallied-continue removed h (ok n, g) f t k = Tallied-carry removed n h g (f n g) t (k n g)
  Tallied-continue removed h (err e, g) f t k = tt

  Tallied-ask :
      (c : PruneCall) (k : P ℕ) (removed : ℕ) (h : List PruneCall)
      → Tallied removed h (k (c ∷ h))
      → Tallied removed h ((ask env c >> k) h)
  Tallied-ask c k removed h t = elim (Bool-cases (env.accepts h c)) [
    | inl e ↦ rw e t
    | inr e ↦ rw e tt
  ]

  -- Both counts go up together.
  counted_once : (b : Bool) (m n : ℕ) → count b m + n ≡ count b n + m
  counted_once true m n = omega arith
  counted_once false m n = omega arith

  Tallied-delete :
      (tenant : String) (id : ℕ) (k : P ℕ) (removed : ℕ) (h : List PruneCall)
      → Tallied
          (count (env.deleted (delete_run tenant id ∷ h)) removed)
          (delete_run tenant id ∷ h)
          (k (delete_run tenant id ∷ h))
      → Tallied removed h ((ask env (delete_run tenant id) >> k) h)
  Tallied-delete tenant id k removed h t =
      elim (Bool-cases (env.accepts h (delete_run tenant id))) [
        | inl e ↦ rw e (
            Tallied-carry removed (count (env.deleted (delete_run tenant id ∷ h)) removed) h
              (delete_run tenant id ∷ h) (k (delete_run tenant id ∷ h))
              (counted_once (env.deleted (delete_run tenant id ∷ h)) removed (deletions h)) t)
        | inr e ↦ rw e tt
      ]

  Tallied-add :
      (removed : ℕ) (h : List PruneCall) (r : Result PruneError ℕ × List PruneCall) (f : ℕ → P ℕ)
      → Tallied 0 h r
      → ((n : ℕ) (g : List PruneCall) → Tallied (removed + n) g (f n g))
      → Tallied removed h (continue r f)
  Tallied-add removed h (ok n, g) f t k =
      Tallied-carry removed (removed + n) h g (f n g) (omega (arith, t)) (k n g)
  Tallied-add removed h (err e, g) f t k = tt

  Tallied-runs :
      (tenant : String) (d : RetainedDefinition) (runs : List PrunableRun) (removed : ℕ)
      (h : List PruneCall)
      → Tallied removed h (prune_runs env tenant d runs removed h)
  unfolding prune_runs remove_object
  Tallied-runs tenant d [] removed h = omega arith
  Tallied-runs tenant d (run ∷ runs) removed h = elim (Bool-cases (reaches 8 run.occurrence_key)) [
    | inl e ↦ rw e (
        Tallied-ask (remove d.namespace (removed_name d.name run.occurrence_key)) _ removed h
          (Tallied-delete tenant run.id _ removed _ (Tallied-runs tenant d runs _ _)))
    | inr e ↦ rw e tt
  ]

  Tallied-definition :
      (tenant : String) (d : RetainedDefinition) (h : List PruneCall)
      → Tallied 0 h (prune_definition env tenant d h)
  unfolding prune_definition prune_kept
  Tallied-definition tenant d h = kept d.history
    where
      kept : (o : Option HistoryPolicy) → Tallied 0 h (prune_kept env tenant d o h)
      kept none = tt
      kept (some policy) = Tallied-ask _ _ 0 h (Tallied-runs tenant d _ 0 _)

  Tallied-each :
      (tenant : String) (ds : List RetainedDefinition) (removed : ℕ) (h : List PruneCall)
      → Tallied removed h (prune_each env tenant ds removed h)
  unfolding prune_each
  Tallied-each tenant [] removed h = omega arith
  Tallied-each tenant (d ∷ ds) removed h =
      Tallied-add removed h (prune_definition env tenant d h)
        (λ n. prune_each env tenant ds (removed + n)) (Tallied-definition tenant d h)
        (λ n. Tallied-each tenant ds (removed + n))

  Tallied-tenants :
      (tenants : List String) (removed : ℕ) (h : List PruneCall)
      → Tallied removed h (sweep_history_from env tenants removed h)
  unfolding sweep_history_from
  Tallied-tenants [] removed h = omega arith
  Tallied-tenants (tenant ∷ tenants) removed h = Tallied-ask (list_active tenant) _ removed h (
      Tallied-continue removed h
        (prune_each env tenant (env.definitions (list_active tenant ∷ h)) removed
          (list_active tenant ∷ h))
        (sweep_history_from env tenants)
        (Tallied-each tenant (env.definitions (list_active tenant ∷ h)) removed
          (list_active tenant ∷ h))
        (λ n. Tallied-tenants tenants n))

  counted :
      (r : Result PruneError ℕ × List PruneCall) (n : ℕ)
      → Tallied 0 [] r
      → r.0 ≡ ok n
      → n ≡ deletions r.1
  counted (ok m, g) n t e = ground (arith, t, e)
  counted (err x, g) n t e = absurd (ground arith)

  -- A sweep that ends without an error reports exactly the number of its deletions that found their
  -- row.
  pub sweep_history_counts :
      (tenants : List String) (n : ℕ)
      → (sweep_history env tenants []).0 ≡ ok n
      → n ≡ deletions (sweep_history env tenants []).1
  unfolding sweep_history
  sweep_history_counts tenants n e =
      counted (sweep_history env tenants []) n (Tallied-tenants tenants 0 []) e
