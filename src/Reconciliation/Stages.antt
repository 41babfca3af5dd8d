-- ===== src/Reconciliation/Stages.antt =====
-- internal/reconciliation/stages: planning, validation and execution of a batch.
pub mod World
pub mod Planning
pub mod Validation
pub mod Execution
pub mod Pipeline
