-- ===== src/Cluster.antt =====
-- The API server as the controller sees it: the objects, the configurations that it applies, and
-- the calls of its client (sigs.k8s.io/controller-runtime, a parameter of the development).
use octopus_permissions_cont.Prelude.{String, Bool, List, Option, Map}
use octopus_permissions_cont.Result.{Result}
use octopus_permissions_cont.Api.{
  NamespacedName, ObjectMeta, RoleRef, PolicyRule, WorkloadServiceAccount,
  ClusterWorkloadServiceAccount,
}
use octopus_permissions_cont.Rules.Naming.{ServiceAccount}

-- `rbacv1.Subject`.
pub record Subject : Type 0 where
  pub kind : String
  pub name : String
  pub namespace : String

pub record OwnerReference : Type 0 where
  pub api_version : String
  pub kind : String
  pub name : String
  pub uid : String
  pub controller : Bool
  pub block_owner_deletion : Bool

-- `rbacv1.Role` and `rbacv1.ClusterRole`.
pub record Role : Type 0 where
  pub meta : ObjectMeta
  pub rules : List PolicyRule

-- `rbacv1.RoleBinding` and `rbacv1.ClusterRoleBinding`.
pub record Binding : Type 0 where
  pub meta : ObjectMeta
  pub role_ref : RoleRef
  pub subjects : List Subject

-- The configurations that `client.Apply` gets. All of them are forced, for one field owner.
pub data ApplyConfiguration : Type 0 where
  service_account_ac :
      (name namespace : String) (labels annotations : Map String String) → ApplyConfiguration
  role_ac :
      (name namespace : String) (labels : Map String String) (rules : List PolicyRule)
      (owner : Option OwnerReference)
      → ApplyConfiguration
  cluster_role_ac :
      (name : String) (labels : Map String String) (rules : List PolicyRule)
      (owner : Option OwnerReference)
      → ApplyConfiguration
  role_binding_ac :
      (name namespace : String) (labels : Map String String) (role_ref : RoleRef)
      (subjects : List Subject) (owner : Option OwnerReference)
      → ApplyConfiguration
  cluster_role_binding_ac :
      (name : String) (labels : Map String String) (role_ref : RoleRef) (subjects : List Subject)
      (owner : Option OwnerReference)
      → ApplyConfiguration

-- The kinds of object that the controller deletes.
pub data Kind : Type 0 where
  service_account_kind role_kind role_binding_kind cluster_role_binding_kind : Kind

-- The answers to a call that names one object.
pub data Answer {ℓ} (A : Type ℓ) : Type ℓ where
  found : A → Answer A
  not_found : Answer A
  failed : String → Answer A

-- The calls of `client.Client`, over a state of the API server that the controller does not see.
pub record Client : Type 1 where
  pub State : Type 0
  -- The error is nil if the object was applied.
  pub apply : ApplyConfiguration → State → Option String × State
  pub delete : Kind → ObjectMeta → State → Answer (Unit {0}) × State
  pub list_wsas : State → Result (List WorkloadServiceAccount)
  pub list_cluster_wsas : State → Result (List ClusterWorkloadServiceAccount)
  pub list_service_accounts : State → Result (List ServiceAccount)
  pub list_matching_service_accounts : (key value : String) → State → Result (List ServiceAccount)
  pub list_roles : State → Result (List Role)
  pub list_cluster_roles : State → Result (List Role)
  pub list_role_bindings : State → Result (List Binding)
  pub list_cluster_role_bindings : State → Result (List Binding)
  -- The namespaces of the deployments with the label of the agent.
  pub list_agent_deployments : State → Result (List String)
  pub get_service_account : NamespacedName → State → Answer ServiceAccount
  pub get_role : NamespacedName → State → Answer Role
  pub get_namespace : String → State → Answer (Unit {0})
