-- ===== src/Resources.antt =====
-- internal/rules/resource_management.go: the names of what the controller creates, and the loops
-- that create it.
pub mod Names
pub mod Objects
pub mod Ensure
pub mod Collect
