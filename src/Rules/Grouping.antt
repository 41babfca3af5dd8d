-- ===== src/Rules/Grouping.antt =====
-- internal/rules/generator.go: scopes with the same resources, and the values that they name.
pub mod Laws
pub mod Agreement
use octopus_permissions_cont.Prelude.{
  String, ◌<>◌, Bool, ◌&&◌, not, List, [], ◌∷◌, ◌++◌, foldl, map, Set, insert, Map, put, lookup_or,
  VisitOrder, join, sort, sort_by, string_eq, ◌==◌, if◌then◌else◌,
}
use octopus_permissions_cont.Api.{NamespacedName}
use octopus_permissions_cont.Rules.Scope.{
  Scope, DimensionIndex, project_index, project_group_index, environment_index, tenant_index,
  step_index, space_index, value_at, wildcard_value,
}
use octopus_permissions_cont.Rules.ScopeMap.{WsaMap, ScopeMap}

-- `types.NamespacedName.String`.
unfoldable pub name_string : NamespacedName → String
name_string n = n.namespace <> "/" <> n.name

pub record GroupedDimensions : Type 0 where
  pub projects : List String
  pub project_groups : List String
  pub environments : List String
  pub tenants : List String
  pub steps : List String
  pub spaces : List String

module _ (o : VisitOrder) where
  open o use {visit}

  -- The canonical key of a set of resources.
  unfoldable pub wsa_set_key : WsaMap → String
  unfolding name_string sort_by
  wsa_set_key m = join "," (map name_string (sort_by name_string (map (λ kv. kv.0) (visit m))))

  unfoldable pub group_scopes_by_wsa_set : ScopeMap → Map String (List Scope)
  unfolding wsa_set_key
  group_scopes_by_wsa_set m =
      foldl
        (λ acc kv. put (wsa_set_key kv.1) (lookup_or [] (wsa_set_key kv.1) acc ++ (kv.0 ∷ [])) acc)
        [] (visit m)

  -- One of the six loops of `collectDimensionValues`.
  unfoldable pub specific_values : DimensionIndex → List Scope → Set String
  unfolding value_at
  specific_values d scopes =
      foldl
        (λ acc s.
          if not (value_at d s == "") && not (value_at d s == wildcard_value)
          then insert (value_at d s) acc
          else acc)
        [] scopes

  unfoldable pub collect_dimension_values : List Scope → GroupedDimensions
  unfolding specific_values sort
  collect_dimension_values scopes = record {
    projects = sort (visit (specific_values project_index scopes));
    project_groups = sort (visit (specific_values project_group_index scopes));
    environments = sort (visit (specific_values environment_index scopes));
    tenants = sort (visit (specific_values tenant_index scopes));
    steps = sort (visit (specific_values step_index scopes));
    spaces = sort (visit (specific_values space_index scopes));
  }
