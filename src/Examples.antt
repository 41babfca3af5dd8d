-- ===== src/Examples.antt =====
-- Runs of the model on one small installation, at which the theorems are applied.
pub mod Data
pub mod Server
pub mod Rules
pub mod Stages
pub mod Events
pub mod Orchestration
pub mod Admission
pub mod Replicas
pub mod Pipeline
