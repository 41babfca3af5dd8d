-- ===== src/Rules/Resource.antt =====
-- internal/rules/wsa_resource.go: one view of both kinds of custom resource.
use octopus_permissions_cont.Prelude.{ℕ, String, Bool, true, false, List, []}
use octopus_permissions_cont.Api.{
  NamespacedName, RoleRef, PolicyRule, ObjectMeta, WorkloadServiceAccountScope,
  WorkloadServiceAccount, ClusterWorkloadServiceAccount,
}

-- The two implementations of the interface `WSAResource`.
pub data WsaResource : Type 0 where
  wsa_adapter : WorkloadServiceAccount → WsaResource
  cluster_wsa_adapter : ClusterWorkloadServiceAccount → WsaResource

-- The metadata of `GetOwnerObject()`.
abbrev pub owner_meta : WsaResource → ObjectMeta
owner_meta (wsa_adapter w) = w.meta
owner_meta (cluster_wsa_adapter c) = c.meta

unfoldable pub get_name : WsaResource → String
get_name (wsa_adapter w) = w.meta.name
get_name (cluster_wsa_adapter c) = c.meta.name

-- A cluster-scoped resource has no namespace.
unfoldable pub get_namespace : WsaResource → String
get_namespace (wsa_adapter w) = w.meta.namespace
get_namespace (cluster_wsa_adapter c) = ""

unfoldable pub get_namespaced_name : WsaResource → NamespacedName
get_namespaced_name (wsa_adapter w) = record { namespace = w.meta.namespace; name = w.meta.name }
get_namespaced_name (cluster_wsa_adapter c) = record { namespace = ""; name = c.meta.name }

unfoldable pub get_scope : WsaResource → WorkloadServiceAccountScope
get_scope (wsa_adapter w) = w.spec.scope
get_scope (cluster_wsa_adapter c) = c.spec.scope

unfoldable pub get_permission_rules : WsaResource → List PolicyRule
get_permission_rules (wsa_adapter w) = w.spec.permissions.permissions
get_permission_rules (cluster_wsa_adapter c) = c.spec.permissions.permissions

-- A cluster-scoped resource has no namespaced roles.
unfoldable pub get_roles : WsaResource → List RoleRef
get_roles (wsa_adapter w) = w.spec.permissions.roles
get_roles (cluster_wsa_adapter c) = []

unfoldable pub get_cluster_roles : WsaResource → List RoleRef
get_cluster_roles (wsa_adapter w) = w.spec.permissions.cluster_roles
get_cluster_roles (cluster_wsa_adapter c) = c.spec.permissions.cluster_roles

unfoldable pub is_cluster_scoped : WsaResource → Bool
is_cluster_scoped (wsa_adapter w) = false
is_cluster_scoped (cluster_wsa_adapter c) = true

unfoldable pub get_generation : WsaResource → ℕ
get_generation (wsa_adapter w) = w.meta.generation
get_generation (cluster_wsa_adapter c) = c.meta.generation

unfoldable pub get_resource_version : WsaResource → String
get_resource_version (wsa_adapter w) = w.meta.resource_version
get_resource_version (cluster_wsa_adapter c) = c.meta.resource_version
