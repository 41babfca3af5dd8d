-- ===== src/Reconciliation.antt =====
-- internal/reconciliation: events, batches, stages and the loop that runs them.
pub mod Batch
pub mod Collector
pub mod Debouncer
pub mod StateSyncer
pub mod Queue
pub mod Stages
pub mod Orchestrator
pub mod Conditions
