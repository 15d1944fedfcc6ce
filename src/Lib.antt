-- ===== src/Lib.antt =====
-- OrbitJob: verification library.
--
-- OrbitJob runs jobs and workflows on Kubernetes from definitions in PostgreSQL. This library models
-- the decisions of the program, without its database and its cluster, and proves what they promise.
--
-- Parts and files (paths from the repository's root):
-- - Run: internal/core/domain/jobrun, the lifecycle of one logical run. Run.antt has the phases, the
--   table CanTransition, Transition, StartAttempt, RequestCancel, ConfirmCanceled and the attempt
--   budget of StoredRun; Run/Lifecycle is about sequences of transitions, Run/Attempts about budgets.
-- - Workflow: internal/core/domain/workflow, a DAG of jobs. Workflow.antt has the types of workflow.go
--   and condition.go; Workflow/Gate is EvaluateCondition (condition.go), Workflow/Derive is DerivePhase
--   (derive.go), Workflow/Graph is ValidateDAG, hasCycle and TopologicalSort (dag.go).
-- - Walker: internal/operator/workflow_walker.go, the pass that advances one workflow run. It reads a
--   run, its DAG and its steps, orders the tasks (Workflow/Graph), asks for each one whether it runs
--   (Workflow/Gate), creates and publishes steps, and records the phase (Workflow/Derive). Walker/Facts
--   has stepFacts and the small helpers, Walker/Sweep the loop over the tasks with createStep and
--   stepObject, Walker/Outcome recordOutcome and fanCancel, Walker/Advance advanceRun with pinnedDAG, and
--   Walker/Tick is Tick over all tenants and their open runs, which Ticking is about. Steps and Known
--   are about the steps and definitions that a pass finds, Ready, Traces, Justified and Requests about what
--   it asks for.
--   Trace has the monad of requests: a pass extends a trace, newest first, and an oracle over the
--   trace decides which request fails, so a theorem for every oracle holds for every environment.
-- - Schedule: internal/core/app/controlplane/schedule.go, which turns definitions into runs.
--   Schedule.antt is selectOccurrences and matchesInWindow, Schedule/Fire fireDefinition with repair,
--   concurrency policy, creation and publication, Schedule/Tick the tick over all tenants; Window,
--   Choice, Pass, Limits and Isolation are about these. It uses the monad of Trace, too.
-- - Execution: internal/core/app/execution, the Kubernetes Job of one attempt. Execution.antt is
--   identity.go, job.go and observer.go (JobName, BuildJob, Phase, ValidateOwnership, IdentityFromJob),
--   Execution/Adapter is adapter.go over a Kubernetes Job API that is a parameter; Digits, Names and
--   Labels are about these.
-- - Reconcile: internal/operator/runtime.go, cancel.go and job_handler.go, which drive one run towards
--   its next attempt and record what Kubernetes did. Reconcile/Drive is ReconcileJobRun with
--   materializeManualRun, Reconcile/Cancel reconcileCancellation, Reconcile/Observe ReconcileJob,
--   Reconcile/Outcomes recordOutcome and recordFunctionOutcome. It uses Run for the transitions and the
--   attempt budget, Execution for the Job, and the monad of Trace. Calls, Stops, Starts, Filed and
--   Licensed are about what a reconciliation may ask for, Progress and Stuck about what it does.
-- - Check: the probes on a schedule. Check.antt has the snapshot of a check and revision.New
--   (internal/core/domain/check, internal/core/domain/revision), Check/Probe the projection of a check
--   to a Job's script (internal/core/app/projection/check.go), Check/Fire the batch of due checks
--   (internal/core/app/checkschedule/scheduler.go), Check/Criteria and Check/Record the judgement of an
--   outcome and what is written for it (internal/core/app/checkobserve), which Reconcile/Outcomes
--   calls through an interface. Cursor, Batch, Judgement and Recorded are about these.
-- - WorkflowReconcile: internal/operator/workflow.go, which turns a WorkflowRun object into a row of the
--   ledger and shows the row in the object's status. WorkflowReconcile.antt is ReconcileWorkflowRun,
--   materializeWorkflowRun, workflowStatus and WorkflowRunSpec.Validate, WorkflowReconcile/Spec the
--   objects and the calls with DAGFromSpec of Workflow's package; it uses Workflow/Graph for the DAG and the keys of Walker/Facts. Stored, Calls and Status
--   are about these.
-- - Retention: internal/core/app/controlplane/retention.go and internal/operator/workflow_retention.go,
--   which prune the history. Retention.antt is Retainer.Sweep with historyLimits and RunRemover.Remove
--   (internal/operator/publisher.go), Retention/Workflows WorkflowRetainer.Sweep; Order, Cleared and
--   Steps are about the order of the removals, Counted about the count. The names of the objects are
--   those of Walker/Sweep, which publishes them.
-- - Tenants: internal/operator/tenant.go, the resolvers that the reconciliations take as a parameter;
--   Listed is about them.
-- - ApiKeys: the keys of the admin API and the policies bound to them, which is where the guards of
--   Policy are called. ApiKeys.antt is the tables, with
--   internal/admin/store/postgres/policy_repository.go and internal/admin/app/policy/command;
--   ApiKeys/Create the creation of a key (internal/admin/app/apikey/command/create.go), ApiKeys/Access
--   the middleware that lets a key in (internal/admin/http/middleware/auth.go) with the revocation of
--   keys (internal/admin/store/postgres/apikey_repository.go), ApiKeys/Effective the documents of a key
--   with Require (internal/admin/http/middleware/authorize.go) and the targets of
--   internal/admin/http/resource_arn.go. Made is about what a creation went through; Delegated,
--   Grouped and Bounded compare a new key with its maker, Stored is about the tables that sequences of commands
--   leave, Isolation about tenants, Deleted about a deletion, Entered and Issued about the keys that
--   enter.
-- - Policy: internal/core/domain/policy, the authorisation of the admin API. Policy.antt has names
--   (arn.go), the types of document.go and Evaluate (evaluate.go); Policy/Known has ParseDocument's
--   checks, actions.go and self.go; Policy/Grants has subset.go, intersect.go and guard.go.
--   Homed is about patterns of one tenant.
--
-- Representation: a text that the code only compares is a String; a resource name, which it cuts, is a
-- list of bytes. A Go map is an association list, or a function where it is only read by key. An
-- instant is a number of nanoseconds from the zero instant. int and int64 counters are integers
-- without a bound: all of them are small, and none is near a wrap-around; where the number of digits
-- of an attempt matters, the bound of an int is a hypothesis.
--
-- Fuel: the walk through the scheduler's window has one round for each minute of it; the loop of
-- TopologicalSort pops a queue and has one round for each task; hasCycle's search has
-- a depth of the number of tasks and one more. All are proved to be enough.
--
-- Not modelled: SQL stores, apart from the keys and policies of the admin API (without its audit
-- rows and its lists), Kubernetes clients, HTTP routing, the rate limiter, JSON decoding, the cron
-- parser, bcrypt and sha256 (the parser, bcrypt and the digest of an occurrence key are
-- parameters), the validation of checks, the invocation of functions, and the packages on service
-- levels. A float64 is a value of a type with tests, which is a parameter.
pub mod Prelude
pub mod Trace
pub mod Run
pub mod Workflow
pub mod Schedule
pub mod Execution
pub mod Reconcile
pub mod Check
pub mod Walker
pub mod WorkflowReconcile
pub mod Retention
pub mod Tenants
pub mod ApiKeys
pub mod Policy
