-- ===== src/Engine/Laws.antt =====
-- internal/rules/engine.go: what a lookup answers after the engine's state was computed.
use octopus_permissions_cont.Prelude.{
  String, not, List, ◌++◌, some, any, Memᴰ, VisitOrder, string_eq, ◌==◌, ◌≡◌, refl, ◌∙◌, ap,
}
use octopus_permissions_cont.Result.{ok}
use octopus_permissions_cont.Api.{
  NamespacedName, WorkloadServiceAccount, ClusterWorkloadServiceAccount,
}
use octopus_permissions_cont.Cluster.{Client}
use octopus_permissions_cont.Rules.Scope.{Scope, scope_eq}
use octopus_permissions_cont.Rules.Resource.{WsaResource}
use octopus_permissions_cont.Rules.Coverage.Laws.{applies_to, IsLiteral}
use octopus_permissions_cont.Rules.Vocabulary.{get_known_scope_combination}
use octopus_permissions_cont.Rules.Mappings.{get_service_account_for_scope}
use octopus_permissions_cont.Rules.Mappings.Laws.{
  generate_service_account_mappings-Names, lookup-all_named,
}
use octopus_permissions_cont.Rules.Selection.{compute_scopes_for_wsas-Selects}
use octopus_permissions_cont.Engine.{
  InMemoryEngine, ClusterState, live_wsas, live_cluster_wsas, state_of_resources, all_resources,
  compute_state_from_cluster, rebuild_state_from_cluster, refresh_scope_mappings,
  service_account_for_scope, is_wsa_in_maps,
}

-- The engine answers the name of a service account for the scopes that a resource applies to, and
-- the empty name for the others.
unfoldable pub Serves : List WsaResource → InMemoryEngine → Type 0
Serves rs e =
    (s : Scope) → (service_account_for_scope e s == "") ≡ not (any (λ r. applies_to r s) rs)

abbrev pub as_engine : ClusterState → InMemoryEngine
as_engine state = record {
  scope_to_sa = state.scope_to_sa;
  vocabulary = state.vocabulary;
  sa_to_wsa_map = state.sa_to_wsa_map;
}

-- Whatever order Go visits its maps in, the state of resources that list no wildcard value is
-- computed without a panic, and an engine with that state answers a scope with the name of a
-- service account exactly if some resource applies to the scope, else with the empty name.
pub state_of_resources-Serves :
    (o : VisitOrder) (sha256_hex : String → String) (rs : List WsaResource)
    → ((r : WsaResource) → Memᴰ r rs → IsLiteral r)
    → (state : ClusterState) × (state_of_resources o sha256_hex rs ≡ some state)
      × Serves rs (as_engine state)
unfolding state_of_resources service_account_for_scope get_service_account_for_scope Serves
state_of_resources-Serves o sha256_hex rs literal =
    let (m, v, made, selects) = compute_scopes_for_wsas-Selects o rs literal in
    let (g, generated, names) = generate_service_account_mappings-Names o sha256_hex m in
    (
      record { scope_to_sa = g.scope_to_sa; sa_to_wsa_map = g.sa_to_wsa_map; vocabulary = v },
      rw made (rw generated refl),
      λ s.
          lookup-all_named g.scope_to_sa (get_known_scope_combination v s) names.named
          ∙ ap not (names.keys (get_known_scope_combination v s) ∙ selects.found s),
    )

module _ (o : VisitOrder) (sha256_hex : String → String) (c : Client) where
  -- While the cluster can be listed and no live resource lists a wildcard value, a replica's
  -- refresh succeeds, whatever the replica held before. The engine then answers for the live
  -- resources of the cluster, those of the namespaces and those of the whole cluster, and it
  -- still finds exactly the resources in its maps that it found before.
  pub refresh_scope_mappings-Serves :
      (s : c.State) (e : InMemoryEngine) (ws : List WorkloadServiceAccount)
      (cs : List ClusterWorkloadServiceAccount)
      → c.list_wsas s ≡ ok ws
      → c.list_cluster_wsas s ≡ ok cs
      → ((r : WsaResource) → Memᴰ r (live_wsas ws ++ live_cluster_wsas cs) → IsLiteral r)
      → (e' : InMemoryEngine) × (refresh_scope_mappings o sha256_hex c s e ≡ ok e')
        × Serves (live_wsas ws ++ live_cluster_wsas cs) e'
        × ((key : NamespacedName) → is_wsa_in_maps e' key ≡ is_wsa_in_maps e key)
  unfolding refresh_scope_mappings compute_state_from_cluster all_resources Serves
      service_account_for_scope is_wsa_in_maps
  refresh_scope_mappings-Serves s e ws cs lw lc literal =
      let (state, made, serves) =
        state_of_resources-Serves o sha256_hex (live_wsas ws ++ live_cluster_wsas cs) literal in
      (
        record (as_engine state) { sa_to_wsa_map = e.sa_to_wsa_map },
        rw (lw, lc, made) refl,
        serves,
        λ key. refl,
      )

  -- While the cluster can be listed and no live resource lists a wildcard value, the leader's
  -- rebuild succeeds, and the engine then answers for the live resources of the cluster.
  pub rebuild_state_from_cluster-Serves :
      (s : c.State) (e : InMemoryEngine) (ws : List WorkloadServiceAccount)
      (cs : List ClusterWorkloadServiceAccount)
      → c.list_wsas s ≡ ok ws
      → c.list_cluster_wsas s ≡ ok cs
      → ((r : WsaResource) → Memᴰ r (live_wsas ws ++ live_cluster_wsas cs) → IsLiteral r)
      → (e' : InMemoryEngine) × (rebuild_state_from_cluster o sha256_hex c s e ≡ ok e')
        × Serves (live_wsas ws ++ live_cluster_wsas cs) e'
  unfolding rebuild_state_from_cluster compute_state_from_cluster all_resources
  rebuild_state_from_cluster-Serves s e ws cs lw lc literal =
      let (state, made, serves) =
        state_of_resources-Serves o sha256_hex (live_wsas ws ++ live_cluster_wsas cs) literal in
      (_, rw (lw, lc, made) refl, serves)
