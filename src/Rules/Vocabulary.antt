-- ===== src/Rules/Vocabulary.antt =====
-- internal/rules/generator.go: the known values of each dimension.
pub mod Laws
use octopus_permissions_cont.Prelude.{
  String, List, [], ◌∷◌, Set, contains, insert_all, if◌then◌else◌, string_eq,
}
use octopus_permissions_cont.Api.{WorkloadServiceAccountScope}
use octopus_permissions_cont.Rules.Scope.{
  Scope, DimensionIndex, project_index, project_group_index, environment_index, tenant_index,
  step_index, space_index, value_at, wildcard_value,
}
use octopus_permissions_cont.Rules.Resource.{WsaResource, get_scope}

-- The array of sets, indexed by the dimensions.
pub record GlobalVocabulary : Type 0 where
  pub projects : Set String
  pub project_groups : Set String
  pub environments : Set String
  pub tenants : Set String
  pub steps : Set String
  pub spaces : Set String

unfoldable pub new_global_vocabulary : GlobalVocabulary
new_global_vocabulary = record {
  projects = [];
  project_groups = [];
  environments = [];
  tenants = [];
  steps = [];
  spaces = [];
}

-- `vocabulary[dimensionIndex]`.
unfoldable pub known_values : GlobalVocabulary → DimensionIndex → Set String
known_values v project_index = v.projects
known_values v project_group_index = v.project_groups
known_values v environment_index = v.environments
known_values v tenant_index = v.tenants
known_values v step_index = v.steps
known_values v space_index = v.spaces

-- One test of `GetKnownScopeCombination`.
unfoldable pub known_value : GlobalVocabulary → DimensionIndex → Scope → String
unfolding known_values value_at
known_value v d s =
    if contains (known_values v d) (value_at d s) then value_at d s else wildcard_value

unfoldable pub get_known_scope_combination : GlobalVocabulary → Scope → Scope
unfolding known_value
get_known_scope_combination v s = record {
  project = known_value v project_index s;
  project_group = known_value v project_group_index s;
  environment = known_value v environment_index s;
  tenant = known_value v tenant_index s;
  step = known_value v step_index s;
  space = known_value v space_index s;
}

-- The values that a resource lists in a dimension: the array `scopeSlices` of `computeWSACoverage`.
unfoldable pub scope_slice : WorkloadServiceAccountScope → DimensionIndex → List String
scope_slice s project_index = s.projects
scope_slice s project_group_index = s.project_groups
scope_slice s environment_index = s.environments
scope_slice s tenant_index = s.tenants
scope_slice s step_index = s.steps
scope_slice s space_index = s.spaces

-- The body of the loop: `addAllValuesToVocabulary` for each dimension.
unfoldable pub add_resource : GlobalVocabulary → WsaResource → GlobalVocabulary
add_resource v r =
    let scope = get_scope r in
    record {
      projects = insert_all scope.projects v.projects;
      project_groups = insert_all scope.project_groups v.project_groups;
      environments = insert_all scope.environments v.environments;
      tenants = insert_all scope.tenants v.tenants;
      steps = insert_all scope.steps v.steps;
      spaces = insert_all scope.spaces v.spaces;
    }

add_resources : GlobalVocabulary → List WsaResource → GlobalVocabulary
unfolding add_resource
add_resources v [] = v
add_resources v (r ∷ rs) = add_resources (add_resource v r) rs

unfoldable pub build_global_vocabulary : List WsaResource → GlobalVocabulary
unfolding add_resources new_global_vocabulary
build_global_vocabulary resources = add_resources new_global_vocabulary resources
