-- ===== src/Rules/Naming.antt =====
-- internal/rules/generator.go and resource_management.go: names, labels and annotations. The hex
-- digits of SHA-256 are a parameter.
use Prim.Native.String.{slice}
use octopus_permissions_cont.Prelude.{
  String, ◌<>◌, Bool, false, List, [], ◌∷◌, ◌++◌, none, some, Map, put, lookup, join, null,
  string_eq, ◌==◌, if◌then◌else◌,
}
use octopus_permissions_cont.Api.{ObjectMeta}
use octopus_permissions_cont.Rules.Grouping.{GroupedDimensions}

-- `corev1.ServiceAccount`.
pub record ServiceAccount : Type 0 where
  pub meta : ObjectMeta

abbrev pub permissions_key : String
permissions_key = "agent.octopus.com/permissions"

abbrev pub project_key : String
project_key = "agent.octopus.com/project"

abbrev pub project_group_key : String
project_group_key = "agent.octopus.com/project-group"

abbrev pub environment_key : String
environment_key = "agent.octopus.com/environment"

abbrev pub tenant_key : String
tenant_key = "agent.octopus.com/tenant"

abbrev pub step_key : String
step_key = "agent.octopus.com/step"

abbrev pub space_key : String
space_key = "agent.octopus.com/space"

abbrev pub managed_by_label : String
managed_by_label = "app.kubernetes.io/managed-by"

abbrev pub managed_by_value : String
managed_by_value = "octopus-permissions-controller"

-- A nil map reads as an empty one.
unfoldable pub is_octopus_managed : Map String String → Bool
is_octopus_managed labels = elim (lookup managed_by_label labels) [
  | none ↦ false
  | some managed_by ↦ managed_by == managed_by_value
]

-- `parts = append(parts, …)` under a test of the length.
unfoldable pub part : String → List String → List String
part prefix values = if null values then [] else (prefix <> join "+" values) ∷ []

-- The text that is hashed into the name of a service account.
unfoldable pub scope_string : GroupedDimensions → String
unfolding part
scope_string g =
    let parts =
      part "spaces:" g.spaces
      ++ part "projects:" g.projects
      ++ part "projectgroups:" g.project_groups
      ++ part "environments:" g.environments
      ++ part "tenants:" g.tenants
      ++ part "steps:" g.steps in
    join "|" (if null parts then "wildcard" ∷ [] else parts)

-- `annotations[key] = strings.Join(values, "+")` under a test of the length.
unfoldable pub annotate : String → List String → Map String String → Map String String
annotate key values m = if null values then m else put key (join "+" values) m

unfoldable pub generate_annotations_from_grouped : GroupedDimensions → Map String String
unfolding annotate
generate_annotations_from_grouped g = annotate space_key g.spaces (
    annotate step_key g.steps (
      annotate tenant_key g.tenants (
        annotate environment_key g.environments
          (annotate project_group_key g.project_groups (annotate project_key g.projects [])))))

module _ (sha256_hex : String → String) where
  unfoldable pub short_hash : String → String
  short_hash value = slice (sha256_hex value) 0 32

  unfoldable pub generate_grouped_service_account_name : GroupedDimensions → String
  unfolding short_hash scope_string
  generate_grouped_service_account_name g = "octopus-sa-" <> short_hash (scope_string g)

  -- `labels[key] = shortHash(strings.Join(values, "+"))` under a test of the length.
  unfoldable pub label : String → List String → Map String String → Map String String
  unfolding short_hash
  label key values m = if null values then m else put key (short_hash (join "+" values)) m

  unfoldable pub generate_service_account_labels_from_grouped :
      GroupedDimensions → Map String String
  unfolding label
  generate_service_account_labels_from_grouped g = label space_key g.spaces (
      label step_key g.steps (
        label tenant_key g.tenants (
          label environment_key g.environments (
            label project_group_key g.project_groups
              (label project_key g.projects ((managed_by_label, managed_by_value) ∷ []))))))

  unfoldable pub generate_service_account_from_grouped : String → GroupedDimensions → ServiceAccount
  unfolding generate_service_account_labels_from_grouped generate_annotations_from_grouped
  generate_service_account_from_grouped name g = record {
    meta = record {
      name = name;
      namespace = "";
      uid = "";
      generation = 0;
      resource_version = "";
      deletion_timestamp = none;
      finalizers = [];
      labels = generate_service_account_labels_from_grouped g;
      annotations = generate_annotations_from_grouped g;
    };
  }
