-- ===== src/Rules/Mappings.antt =====
-- internal/rules/generator.go, `GenerateServiceAccountMappings`, and scope_computation.go.
pub mod Laws
pub mod Accounts
pub mod Agreement
use octopus_permissions_cont.Prelude.{
  String, List, [], ◌∷◌, Option, none, some, foldl, map, Set, insert, Map, put, lookup, lookup_or,
  ◌>>=◌, VisitOrder, string_eq,
}
use octopus_permissions_cont.Api.{NamespacedName, name_eq}
use octopus_permissions_cont.Rules.Scope.{Scope, scope_eq}
use octopus_permissions_cont.Rules.Vocabulary.{GlobalVocabulary, get_known_scope_combination}
use octopus_permissions_cont.Rules.ScopeMap.{WsaMap, ScopeMap}
use octopus_permissions_cont.Rules.Grouping.{group_scopes_by_wsa_set, collect_dimension_values}
use octopus_permissions_cont.Rules.Naming.{
  ServiceAccount, generate_grouped_service_account_name, generate_service_account_from_grouped,
}

-- The four local maps of the function.
pub record Mappings : Type 0 where
  pub scope_to_service_account : Map Scope String
  pub service_account_to_wsas : Map String WsaMap
  pub wsa_to_service_account_names : Map NamespacedName (Set String)
  pub unique_service_accounts : Map String ServiceAccount

abbrev pub no_mappings : Mappings
no_mappings = record {
  scope_to_service_account = [];
  service_account_to_wsas = [];
  wsa_to_service_account_names = [];
  unique_service_accounts = [];
}

-- What the function returns.
pub record GeneratedMappings : Type 0 where
  pub scope_to_sa : Map Scope String
  pub sa_to_wsa_map : Map String WsaMap
  pub wsa_to_sa_names : Map NamespacedName (List String)
  pub service_accounts : List ServiceAccount

-- Every scope of a group gets the name.
unfoldable pub assign : String → List Scope → Map Scope String → Map Scope String
assign name scopes m = foldl (λ acc s. put s name acc) m scopes

-- Every resource of the list gets the name into its set.
unfoldable pub track_names :
    String → WsaMap → Map NamespacedName (Set String) → Map NamespacedName (Set String)
track_names name wsas m =
    foldl (λ acc kv. put kv.0 (insert name (lookup_or [] kv.0 acc)) acc) m wsas

module _ (o : VisitOrder) (sha256_hex : String → String) where
  open o use {visit}

  -- The body of the loop over the groups. `scopes[0]` of an empty group panics.
  unfoldable pub add_group : ScopeMap → List Scope → Mappings → Option Mappings
  unfolding assign track_names
  add_group scope_map [] acc = none
  add_group scope_map (first ∷ others) acc =
      let grouped = collect_dimension_values o (first ∷ others) in
      let name = generate_grouped_service_account_name sha256_hex grouped in
      let wsas = lookup_or [] first scope_map in
      some (record {
        scope_to_service_account = assign name (first ∷ others) acc.scope_to_service_account;
        service_account_to_wsas = put name wsas acc.service_account_to_wsas;
        wsa_to_service_account_names =
            track_names name (visit wsas) acc.wsa_to_service_account_names;
        unique_service_accounts =
            put name (generate_service_account_from_grouped sha256_hex name grouped)
              acc.unique_service_accounts;
      })

  unfoldable pub add_groups : ScopeMap → List (String × List Scope) → Mappings → Option Mappings
  unfolding add_group
  add_groups scope_map [] acc = some acc
  add_groups scope_map ((_, scopes) ∷ rest) acc =
      add_group scope_map scopes acc >>= add_groups scope_map rest

  unfoldable pub generate_service_account_mappings : ScopeMap → Option GeneratedMappings
  unfolding add_groups
  generate_service_account_mappings scope_map =
      add_groups scope_map (visit (group_scopes_by_wsa_set o scope_map)) no_mappings >>= λ acc.
      some (record {
        scope_to_sa = acc.scope_to_service_account;
        sa_to_wsa_map = acc.service_account_to_wsas;
        wsa_to_sa_names = map (λ kv. (kv.0, visit kv.1)) (visit acc.wsa_to_service_account_names);
        service_accounts = map (λ kv. kv.1) (visit acc.unique_service_accounts);
      })

-- `ScopeComputationService`: its two fields, of which a nil map reads as an empty one.
pub record ScopeComputationService : Type 0 where
  pub vocabulary : GlobalVocabulary
  pub scope_to_sa : Map Scope String

-- The error is always nil. A missing scope gives the empty name.
unfoldable pub get_service_account_for_scope : ScopeComputationService → Scope → String
get_service_account_for_scope c s =
    lookup_or "" (get_known_scope_combination c.vocabulary s) c.scope_to_sa
