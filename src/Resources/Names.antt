-- ===== src/Resources/Names.antt =====
-- internal/rules/resource_management.go: names, and the parts of an apply configuration.
use octopus_permissions_cont.Prelude.{
  String, ◌<>◌, Bool, true, List, [], ◌∷◌, Option, none, some, map, join, string_eq,
}
use octopus_permissions_cont.Api.{PolicyRule}
use octopus_permissions_cont.Cluster.{Subject, OwnerReference}
use octopus_permissions_cont.Rules.Resource.{WsaResource, is_cluster_scoped, owner_meta}
use octopus_permissions_cont.Rules.Naming.{short_hash}

-- `fmt.Sprintf("%+v", …)` of lists of texts and of policy rules.
unfoldable pub show_list : List String → String
show_list xs = "[" <> join " " xs <> "]"

unfoldable pub show_rule : PolicyRule → String
unfolding show_list
show_rule r =
    "{Verbs:"
    <> show_list r.verbs
    <> " APIGroups:"
    <> show_list r.api_groups
    <> " Resources:"
    <> show_list r.resources
    <> " ResourceNames:"
    <> show_list r.resource_names
    <> " NonResourceURLs:"
    <> show_list r.non_resource_urls
    <> "}"

unfoldable pub show_rules : List PolicyRule → String
unfolding show_rule
show_rules rs = show_list (map show_rule rs)

module _ (sha256_hex : String → String) where
  unfoldable pub hash_permissions : List PolicyRule → String
  unfolding show_rules
  hash_permissions rules = short_hash sha256_hex (show_rules rules)

  unfoldable pub role_name : List PolicyRule → String
  unfolding hash_permissions
  role_name rules = "octopus-role-" <> hash_permissions rules

  unfoldable pub cluster_role_name : List PolicyRule → String
  unfolding hash_permissions
  cluster_role_name rules = "octopus-clusterrole-" <> hash_permissions rules

  unfoldable pub role_binding_name : (resource_name role_ref_name : String) → String
  role_binding_name resource_name role_ref_name =
      "octopus-rb-" <> short_hash sha256_hex (resource_name <> "-" <> role_ref_name)

  unfoldable pub cluster_role_binding_name : (resource_name role_ref_name : String) → String
  cluster_role_binding_name resource_name role_ref_name =
      "octopus-crb-" <> short_hash sha256_hex (resource_name <> "-" <> role_ref_name)

-- `runtime.Scheme`, which may be nil: the API version and kind of a resource, by its scope, if it
-- is registered.
abbrev pub Scheme : Type 0
Scheme = Option (Bool → Option (String × String))

unfoldable pub owner_reference_ac : Scheme → WsaResource → Option OwnerReference
owner_reference_ac none r = none
owner_reference_ac (some gvk_for_object) r = elim (gvk_for_object (is_cluster_scoped r)) [
  | none ↦ none
  | some (api_version, kind) ↦ some (record {
    api_version = api_version;
    kind = kind;
    name = (owner_meta r).name;
    uid = (owner_meta r).uid;
    controller = true;
    block_owner_deletion = true;
  })
]

-- `serviceAccountInfo`.
pub record ServiceAccountInfo : Type 0 where
  pub name : String
  pub namespace : String

-- The subjects of a binding.
unfoldable pub subjects_of : List ServiceAccountInfo → List Subject
subjects_of [] = []
subjects_of (sa ∷ rest) =
    record { kind = "ServiceAccount"; name = sa.name; namespace = sa.namespace } ∷ subjects_of rest
