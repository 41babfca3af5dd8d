-- ===== src/Api.antt =====
-- The custom resources (api/v1beta1) and the Kubernetes objects that their specs name.
use octopus_permissions_cont.Prelude.{
  ℕ, String, Bool, true, Option, List, Eq, ◌==◌, ◌&&◌, ◌≡◌, ◌↔◌, arith, eq_iff, string_eq, Map,
}

pub record NamespacedName : Type 0 where
  pub namespace : String
  pub name : String

unfoldable pub name_beq : NamespacedName → NamespacedName → Bool
name_beq a b = a.namespace == b.namespace && a.name == b.name

pub name_beq_iff : (a b : NamespacedName) → (name_beq a b ≡ true) ↔ (a ≡ b)
unfolding name_beq
name_beq_iff a b = (
  λ h. ground (arith, eq_iff a.namespace b.namespace, eq_iff a.name b.name),
  λ h. ground (arith, eq_iff a.namespace b.namespace, eq_iff a.name b.name),
)

instance abbrev pub name_eq : Eq NamespacedName
name_eq = record { equal = name_beq; equal_iff = name_beq_iff }

-- `rbacv1.RoleRef` and `rbacv1.PolicyRule`.
pub record RoleRef : Type 0 where
  pub api_group : String
  pub kind : String
  pub name : String

pub record PolicyRule : Type 0 where
  pub verbs : List String
  pub api_groups : List String
  pub resources : List String
  pub resource_names : List String
  pub non_resource_urls : List String

-- `metav1.ObjectMeta`: the fields that the controller reads or writes. A deletion timestamp is a
-- number of seconds, and is absent while the object lives.
pub record ObjectMeta : Type 0 where
  pub name : String
  pub namespace : String
  pub uid : String
  pub generation : ℕ
  pub resource_version : String
  pub deletion_timestamp : Option ℕ
  pub finalizers : List String
  pub labels : Map String String
  pub annotations : Map String String

pub record WorkloadServiceAccountScope : Type 0 where
  pub projects : List String
  pub project_groups : List String
  pub environments : List String
  pub tenants : List String
  pub steps : List String
  pub spaces : List String

pub record WorkloadServiceAccountPermissions : Type 0 where
  pub cluster_roles : List RoleRef
  pub roles : List RoleRef
  pub permissions : List PolicyRule

pub record WorkloadServiceAccountSpec : Type 0 where
  pub scope : WorkloadServiceAccountScope
  pub permissions : WorkloadServiceAccountPermissions

pub record WorkloadServiceAccount : Type 0 where
  pub meta : ObjectMeta
  pub spec : WorkloadServiceAccountSpec

pub record ClusterWorkloadServiceAccountPermissions : Type 0 where
  pub cluster_roles : List RoleRef
  pub permissions : List PolicyRule

pub record ClusterWorkloadServiceAccountSpec : Type 0 where
  pub scope : WorkloadServiceAccountScope
  pub permissions : ClusterWorkloadServiceAccountPermissions

pub record ClusterWorkloadServiceAccount : Type 0 where
  pub meta : ObjectMeta
  pub spec : ClusterWorkloadServiceAccountSpec
