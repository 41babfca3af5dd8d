-- ===== src/Controller.antt =====
-- internal/controller: the reconcilers and the predicates of their watches.
pub mod Predicates
pub mod Finalizer
pub mod Mapper
