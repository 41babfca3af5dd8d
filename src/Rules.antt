-- ===== src/Rules.antt =====
-- internal/rules and internal/types: what service accounts the resources of a cluster call for.
pub mod Scope
pub mod Resource
pub mod Vocabulary
pub mod Coverage
pub mod ScopeMap
pub mod Selection
pub mod Grouping
pub mod Naming
pub mod Mappings
pub mod NamespaceDiscovery
