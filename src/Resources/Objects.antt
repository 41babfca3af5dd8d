-- ===== src/Resources/Objects.antt =====
-- The objects of the cluster that configurations are applied to and deletions name.
use octopus_permissions_cont.Prelude.{
  String, Bool, ◌&&◌, true, Eq, eq_iff, string_eq, ◌==◌, ◌≡◌, ◌↔◌, arith,
}
use octopus_permissions_cont.Api.{ObjectMeta}
use octopus_permissions_cont.Cluster.{
  ApplyConfiguration, service_account_ac, role_ac, cluster_role_ac, role_binding_ac,
  cluster_role_binding_ac, Kind, service_account_kind, role_kind, role_binding_kind,
  cluster_role_binding_kind,
}

-- The object that a configuration is of: its kind, its namespace (empty for one of the cluster) and
-- its name.
pub record Object : Type 0 where
  pub kind : String
  pub namespace : String
  pub name : String

abbrev pub object_beq : Object → Object → Bool
object_beq a b = a.kind == b.kind && (a.name == b.name && a.namespace == b.namespace)

pub object_beq_iff : (a b : Object) → (object_beq a b ≡ true) ↔ (a ≡ b)
object_beq_iff a b = (
  λ h. ground (arith, eq_iff a.kind b.kind, eq_iff a.namespace b.namespace, eq_iff a.name b.name),
  λ h. ground (arith, eq_iff a.kind b.kind, eq_iff a.namespace b.namespace, eq_iff a.name b.name),
)

instance abbrev pub object_eq : Eq Object
object_eq = record { equal = object_beq; equal_iff = object_beq_iff }

abbrev pub object_of : ApplyConfiguration → Object
object_of (service_account_ac name namespace labels annotations) = record {
  kind = "ServiceAccount";
  namespace = namespace;
  name = name;
}
object_of (role_ac name namespace labels rules owner) = record {
  kind = "Role";
  namespace = namespace;
  name = name;
}
object_of (cluster_role_ac name labels rules owner) = record {
  kind = "ClusterRole";
  namespace = "";
  name = name;
}
object_of (role_binding_ac name namespace labels ref subjects owner) = record {
  kind = "RoleBinding";
  namespace = namespace;
  name = name;
}
object_of (cluster_role_binding_ac name labels ref subjects owner) = record {
  kind = "ClusterRoleBinding";
  namespace = "";
  name = name;
}

-- The object that a deletion names.
abbrev pub object_of_meta : Kind → ObjectMeta → Object
object_of_meta service_account_kind m = record {
  kind = "ServiceAccount";
  namespace = m.namespace;
  name = m.name;
}
object_of_meta role_kind m = record { kind = "Role"; namespace = m.namespace; name = m.name }
object_of_meta role_binding_kind m = record {
  kind = "RoleBinding";
  namespace = m.namespace;
  name = m.name;
}
object_of_meta cluster_role_binding_kind m = record {
  kind = "ClusterRoleBinding";
  namespace = "";
  name = m.name;
}
