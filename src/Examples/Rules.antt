-- ===== src/Examples/Rules.antt =====
-- The scope computation on the small installation.
use mathlib.Core.List.{reverse}
use mathlib.Core.List.Permᴰ.{refl as Permᴰ-refl, reverse as Permᴰ-reverse}
use octopus_permissions_cont.Prelude.{
  Permᴰ, VisitOrder, true, [], ◌∷◌, ◌++◌, some, all, Memᴰ, contains, String, lookup, lookup-some,
  ==_refl, string_eq, ◌≡◌, refl, ◌∙◌, arith,
}
use octopus_permissions_cont.Result.{ok}
use octopus_permissions_cont.Api.{NamespacedName, WorkloadServiceAccount}
use octopus_permissions_cont.Rules.Scope.{Scope, scope_eq, dimensions, value_at}
use octopus_permissions_cont.Rules.Vocabulary.{
  GlobalVocabulary, build_global_vocabulary, get_known_scope_combination,
}
use octopus_permissions_cont.Rules.Coverage.{compute_wsa_coverage, dimension_coverage}
use octopus_permissions_cont.Rules.Coverage.Laws.{applies_to, contains-known_scope}
use octopus_permissions_cont.Rules.Coverage.Product.{contains-compute_wsa_coverage}
use octopus_permissions_cont.Rules.ScopeMap.{
  ScopeMap, compute_scopes_for_wsas, compute_minimal_service_account_scopes,
}
use octopus_permissions_cont.Rules.ScopeMap.Laws.{
  IsScopeMap, compute_minimal_service_account_scopes_lem,
}
use octopus_permissions_cont.Rules.Selection.{Selects, compute_scopes_for_wsas-Selects}
use octopus_permissions_cont.Rules.Mappings.{GeneratedMappings, generate_service_account_mappings}
use octopus_permissions_cont.Rules.Mappings.Laws.{Names, generate_service_account_mappings-Names}
use octopus_permissions_cont.Engine.Agreement.{refresh_scope_mappings-rebuild_state_from_cluster}
use octopus_permissions_cont.Cluster.{Client}
use octopus_permissions_cont.Rules.Mappings.Accounts.{
  has_account, generate_service_account_mappings-has_account,
}
use octopus_permissions_cont.Engine.{
  InMemoryEngine, new_in_memory_engine, refresh_scope_mappings, rebuild_state_from_cluster,
  service_account_for_scope, is_wsa_in_maps, live_wsas, live_cluster_wsas,
}
use octopus_permissions_cont.Engine.Laws.{
  Serves, refresh_scope_mappings-Serves, rebuild_state_from_cluster-Serves,
}
use octopus_permissions_cont.Examples.Data.{
  meta_of, first_to_last, plain, deployer, auditor, resources, resources-IsLiteral, web,
  web_in_prod, recorder, nothing,
}

abbrev vocabulary : GlobalVocabulary
vocabulary = build_global_vocabulary resources

-- The scope map of one scope that the first resource has.
abbrev one_entry : ScopeMap
one_entry = (web_in_prod, (record { namespace = "team"; name = "deployer" }, web) ∷ []) ∷ []

compute_scopes_for_wsas_example :
    (m : ScopeMap) × (v : GlobalVocabulary) × (compute_scopes_for_wsas first_to_last resources
      ≡ some (m, v))
    × Selects resources m v
compute_scopes_for_wsas_example =
    compute_scopes_for_wsas-Selects first_to_last resources resources-IsLiteral

refresh_example :
    (e' : InMemoryEngine) × (refresh_scope_mappings first_to_last plain recorder nothing
        new_in_memory_engine
      ≡ ok e')
    × Serves (live_wsas (deployer ∷ []) ++ live_cluster_wsas (auditor ∷ [])) e'
    × ((key : NamespacedName) → is_wsa_in_maps e' key ≡ is_wsa_in_maps new_in_memory_engine key)
unfolding live_wsas live_cluster_wsas
refresh_example =
    refresh_scope_mappings-Serves first_to_last plain recorder nothing new_in_memory_engine
      (deployer ∷ []) (auditor ∷ []) refl refl resources-IsLiteral

rebuild_example :
    (e' : InMemoryEngine) × (rebuild_state_from_cluster first_to_last plain recorder nothing
        new_in_memory_engine
      ≡ ok e')
    × Serves (live_wsas (deployer ∷ []) ++ live_cluster_wsas (auditor ∷ [])) e'
unfolding live_wsas live_cluster_wsas
rebuild_example =
    rebuild_state_from_cluster-Serves first_to_last plain recorder nothing new_in_memory_engine
      (deployer ∷ []) (auditor ∷ []) refl refl resources-IsLiteral

known_scope_example :
    contains
      (compute_wsa_coverage first_to_last web vocabulary)
      (get_known_scope_combination vocabulary web_in_prod)
    ≡ applies_to web web_in_prod
known_scope_example =
    contains-known_scope resources web (Memᴰ.head refl) (resources-IsLiteral web (Memᴰ.head refl))
      web_in_prod first_to_last

coverage_example :
    contains (compute_wsa_coverage first_to_last web vocabulary) web_in_prod
    ≡ all (λ d. contains (dimension_coverage web vocabulary d) (value_at d web_in_prod)) dimensions
coverage_example = contains-compute_wsa_coverage first_to_last web vocabulary web_in_prod

scope_map_example :
    (m : ScopeMap) × (compute_minimal_service_account_scopes first_to_last resources vocabulary
      ≡ some m)
    × IsScopeMap first_to_last vocabulary resources m
scope_map_example = compute_minimal_service_account_scopes_lem first_to_last vocabulary resources

mappings_example :
    (g : GeneratedMappings) × (generate_service_account_mappings first_to_last plain one_entry
      ≡ some g)
    × Names one_entry g
mappings_example = generate_service_account_mappings-Names first_to_last plain one_entry

-- Its mappings, and the name that they give to the scope.
one_mappings :
    (g : GeneratedMappings) × (generate_service_account_mappings first_to_last plain one_entry
      ≡ some g)
    × Names one_entry g
one_mappings = generate_service_account_mappings-Names first_to_last plain one_entry

one_name : (name : String) × (lookup web_in_prod one_mappings.0.scope_to_sa ≡ some name)
one_name =
    lookup-some web_in_prod one_mappings.0.scope_to_sa
      (one_mappings.2.keys web_in_prod ∙ ground (arith, ==_refl web_in_prod))

has_account_example : has_account one_mappings.0.service_accounts one_name.0 ≡ true
has_account_example =
    generate_service_account_mappings-has_account first_to_last plain one_entry one_mappings.0
      web_in_prod one_name.0 one_mappings.1 one_name.1

-- An API server that lists the resources of the namespaces in another order once something was
-- deleted, and a replica that visits its maps from the last entry to the first.
abbrev tester : WorkloadServiceAccount
tester = record deployer { meta = meta_of "tester" "team" }

abbrev unordered : Client
unordered = record recorder {
  list_wsas =
      λ s. elim s.0 [ [] ↦ ok (deployer ∷ tester ∷ []) | _ ∷ _ ↦ ok (tester ∷ deployer ∷ []) ];
}

abbrev last_to_first : VisitOrder
last_to_first = record { visit = reverse; visit_perm = Permᴰ-reverse }

agreement_example :
    (leader : InMemoryEngine) × (replica : InMemoryEngine) × (rebuild_state_from_cluster
        first_to_last plain unordered nothing new_in_memory_engine
      ≡ ok leader)
    × (refresh_scope_mappings last_to_first plain unordered
          (meta_of "old" "team" ∷ [], [])
          new_in_memory_engine
        ≡ ok replica)
    × ((s : Scope) → service_account_for_scope leader s ≡ service_account_for_scope replica s)
agreement_example =
    refresh_scope_mappings-rebuild_state_from_cluster first_to_last last_to_first plain unordered
      nothing (meta_of "old" "team" ∷ [], []) new_in_memory_engine new_in_memory_engine
      (deployer ∷ tester ∷ []) (tester ∷ deployer ∷ []) (auditor ∷ []) (auditor ∷ []) refl refl refl
      refl (Permᴰ.swap refl refl) (Permᴰ-refl (auditor ∷ []))
