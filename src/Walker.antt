-- ===== src/Walker.antt =====
-- internal/operator/workflow_walker.go: one pass of the walker over an open workflow run. What the
-- pass asks of the ledger and of Kubernetes is a trace of effects, the newest first; an oracle over
-- the trace says which request fails and whether a phase write changed the row, so that a theorem
-- for every oracle holds for every store. What the pass has read beforehand (the pinned DAG, the
-- steps, the definitions, the attempt timings, the clock) are its arguments.
pub mod Effects
pub mod Facts
pub mod Sweep
pub mod Outcome
pub mod Advance
pub mod Steps
pub mod Known
pub mod Traces
pub mod Ready
pub mod Justified
pub mod Requests
pub mod Tick
pub mod Ticking
pub mod Tests
