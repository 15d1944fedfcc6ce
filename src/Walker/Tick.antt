-- ===== src/Walker/Tick.antt =====
-- WorkflowWalker.Tick: a pass over every open run of every tenant. A run whose pass fails is logged and
-- passed over; only a failure of a listing ends the tick. The ledger answers from an environment over
-- the calls so far, which also says how the requests of a pass are answered. The walker is wired: the
-- check for absent dependencies is not modelled.
use orbitjob.Prelude.{ℕ, ◌+◌, String, Bool, List, [], ◌∷◌, ◌++◌, Option, none, some, map}
use orbitjob.Prelude.Int.{ℤ}
use orbitjob.Prelude.Assoc.{Assoc}
use orbitjob.Prelude.Result.{Result, ok, err}
use orbitjob.Trace
use orbitjob.Trace.{pure, throw, ◌>>=◌, ◌>>◌}
use orbitjob.Workflow.{Dag, StepRun, WorkflowRun}
use orbitjob.Workflow.Graph.{DagError, validate_dag}
use orbitjob.Walker.Effects.{Effect, WalkError, Oracle}
use orbitjob.Walker.Facts.{Definition, definition_index, actor_of}
use orbitjob.Walker.Advance.{Pass, advance_run}

-- `made` is a request of the pass over a run.
pub data TickCall : Type 0 where
  list_open_runs list_active : (tenant : String) → TickCall
  read_revision list_steps : (tenant : String) → ℕ → TickCall
  made : (tenant : String) (run : ℕ) → Effect → TickCall

pub data TickError : Type 0 where
  undecodable_revision : ℕ → TickError
  invalid_dag : DagError → TickError
  failed_pass : WalkError → TickError
  refused : TickCall → TickError

-- The DAG of a pinned revision is none where its text does not decode.
pub record TickEnv : Type 0 where
  pub accepts : List TickCall → TickCall → Bool
  pub open_runs : List TickCall → List WorkflowRun
  pub definitions : List TickCall → List Definition
  pub pinned : List TickCall → Option Dag
  pub steps : List TickCall → List StepRun
  pub oracle : List TickCall → Oracle
  pub now : List TickCall → ℕ

pub record WorkflowWalker : Type 0 where
  pub env : TickEnv
  pub digest : String → String
  pub actor : String
  pub timing : Option (ℕ → Option ℤ)
  pub projects : Bool

abbrev pub T : Type 0 → Type 0
T = Trace.M TickError TickCall

abbrev pub ask : WorkflowWalker → TickCall → T (Unit {0})
ask w = Trace.request w.env.accepts refused

-- What the pass over a run starts from.
abbrev pub pass_at : WorkflowWalker → Assoc Definition → WorkflowRun → Dag → List TickCall → Pass
pass_at w index run dag h = record {
  writer = record {
    oracle = w.env.oracle h;
    digest = w.digest;
    actor = actor_of w.actor;
    index = index;
    source_uid = run.source_uid;
    occurrence_key = run.occurrence_key;
  };
  run = run;
  dag = dag;
  steps = w.env.steps h;
  timing = w.timing;
  now = w.env.now h;
  projects = w.projects;
}

abbrev pub joined :
    String
    → ℕ
    → Result WalkError ℕ × List Effect
    → List TickCall
    → Result TickError ℕ × List TickCall
joined tenant id (ok n, es) h = (ok n, map (made tenant id) es ++ h)
joined tenant id (err e, es) h = (err (failed_pass e), map (made tenant id) es ++ h)

abbrev pub advance_valid :
    WorkflowWalker
    → String
    → Assoc Definition
    → WorkflowRun
    → Dag
    → Result DagError (Unit {0})
    → T ℕ
advance_valid w tenant index run dag (err e) = throw (invalid_dag e)
advance_valid w tenant index run dag (ok u) = ask w (list_steps tenant run.id) >> λ h.
    joined tenant run.id (advance_run (pass_at w index run dag h) []) h

abbrev pub advance_pinned :
    WorkflowWalker → String → Assoc Definition → WorkflowRun → Option Dag → T ℕ
advance_pinned w tenant index run none = throw (undecodable_revision run.revision_id)
advance_pinned w tenant index run (some dag) =
    advance_valid w tenant index run dag (validate_dag dag)

-- advanceRun with its reads, of which pinnedDAG's comes first. The DAG is checked before the steps are
-- read; the check at the start of the pass repeats that and finds the same.
unfoldable pub advance_open : WorkflowWalker → String → Assoc Definition → WorkflowRun → T ℕ
unfolding validate_dag advance_run actor_of
advance_open w tenant index run = ask w (read_revision tenant run.revision_id) >> λ h.
    advance_pinned w tenant index run (w.env.pinned h) h

-- The count after a run: an error adds nothing and does not spread.
abbrev pub absorb :
    Result TickError ℕ × List TickCall → ℕ → (ℕ → T ℕ) → Result TickError ℕ × List TickCall
absorb (ok n, h) created next = next (created + n) h
absorb (err e, h) created next = next created h

-- The inner loop, over the open runs of a tenant.
unfoldable pub advance_each :
    WorkflowWalker → String → Assoc Definition → List WorkflowRun → ℕ → T ℕ
unfolding advance_open
advance_each w tenant index [] created = pure created
advance_each w tenant index (run ∷ runs) created =
    λ h. absorb (advance_open w tenant index run h) created (advance_each w tenant index runs)

abbrev pub advance_tenant : WorkflowWalker → String → List WorkflowRun → ℕ → T ℕ
advance_tenant w tenant [] created = pure created
advance_tenant w tenant (run ∷ runs) created = ask w (list_active tenant) >> λ h.
    advance_each w tenant (definition_index (w.env.definitions h) []) (run ∷ runs) created h

unfoldable pub tick_tenants : WorkflowWalker → List String → ℕ → T ℕ
unfolding advance_each definition_index
tick_tenants w [] created = pure created
tick_tenants w (tenant ∷ tenants) created =
    ask w (list_open_runs tenant)
    >> ((λ h. advance_tenant w tenant (w.env.open_runs h) created h) >>= tick_tenants w tenants)

unfoldable pub tick_workflows : WorkflowWalker → List String → T ℕ
unfolding tick_tenants
tick_workflows w tenants = tick_tenants w tenants 0
