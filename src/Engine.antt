-- ===== src/Engine.antt =====
-- internal/rules/engine.go: the state that every replica keeps in memory, and what changes it.
-- What changes the state holds the engine's lock, so it is a function of the state; what a rebuild
-- reads of the cluster it reads before.
pub mod Laws
pub mod Agreement
use octopus_permissions_cont.Prelude.{
  ℕ, String, Bool, List, [], ◌∷◌, ◌++◌, Option, none, some, map, any, Map, has_key, VisitOrder,
}
use octopus_permissions_cont.Result.{Result, ok, err, panic, or_panic, wrap, ◌>>=◌}
use octopus_permissions_cont.Api.{
  NamespacedName, name_eq, WorkloadServiceAccount, ClusterWorkloadServiceAccount,
}
use octopus_permissions_cont.Cluster.{Client}
use octopus_permissions_cont.Rules.Scope.{Scope}
use octopus_permissions_cont.Rules.Resource.{WsaResource, wsa_adapter, cluster_wsa_adapter}
use octopus_permissions_cont.Rules.Vocabulary.{GlobalVocabulary, new_global_vocabulary}
use octopus_permissions_cont.Rules.ScopeMap.{WsaMap, ScopeMap, compute_scopes_for_wsas}
use octopus_permissions_cont.Rules.Mappings.{
  GeneratedMappings, generate_service_account_mappings, get_service_account_for_scope,
}

-- The in-memory part of `InMemoryEngine`. The embedded `ScopeComputation` is always the service
-- over `vocabulary` and `scope_to_sa`, which every operation below builds anew.
pub record InMemoryEngine : Type 0 where
  pub scope_to_sa : Map Scope String
  pub vocabulary : GlobalVocabulary
  pub sa_to_wsa_map : Map String WsaMap

-- `NewInMemoryEngine` and `NewInMemoryEngineWithNamespaces`.
unfoldable pub new_in_memory_engine : InMemoryEngine
new_in_memory_engine = record {
  scope_to_sa = [];
  vocabulary = new_global_vocabulary;
  sa_to_wsa_map = [];
}

-- The interface `BatchPlan`. The vocabulary may be nil.
pub record BatchPlan : Type 0 where
  pub scope_to_sa : Map Scope String
  pub sa_to_wsa_map : Map String WsaMap
  pub vocabulary : Option GlobalVocabulary

abbrev pub plan_vocabulary : GlobalVocabulary → Option GlobalVocabulary → GlobalVocabulary
plan_vocabulary old none = old
plan_vocabulary old (some v) = v

unfoldable pub apply_batch_plan : BatchPlan → InMemoryEngine → InMemoryEngine
apply_batch_plan plan e = record {
  scope_to_sa = plan.scope_to_sa;
  vocabulary = plan_vocabulary e.vocabulary plan.vocabulary;
  sa_to_wsa_map = plan.sa_to_wsa_map;
}

pub record ClusterState : Type 0 where
  pub scope_to_sa : Map Scope String
  pub sa_to_wsa_map : Map String WsaMap
  pub vocabulary : GlobalVocabulary

-- The loops that leave out what is being deleted.
unfoldable pub live_wsas : List WorkloadServiceAccount → List WsaResource
live_wsas [] = []
live_wsas (w ∷ ws) = elim (w.meta.deletion_timestamp) [
  | none ↦ wsa_adapter w ∷ live_wsas ws
  | some _ ↦ live_wsas ws
]

unfoldable pub live_cluster_wsas : List ClusterWorkloadServiceAccount → List WsaResource
live_cluster_wsas [] = []
live_cluster_wsas (w ∷ ws) = elim (w.meta.deletion_timestamp) [
  | none ↦ cluster_wsa_adapter w ∷ live_cluster_wsas ws
  | some _ ↦ live_cluster_wsas ws
]

module _ (c : Client) where
  -- The two lists of `computeStateFromCluster`, and of `getAllResources` of the planning stage.
  unfoldable pub all_resources : c.State → Result (List WsaResource)
  unfolding live_wsas live_cluster_wsas
  all_resources s = wrap "failed to list WorkloadServiceAccounts" (c.list_wsas s) >>= λ ws.
      wrap "failed to list ClusterWorkloadServiceAccounts" (c.list_cluster_wsas s) >>= λ cs.
      ok (live_wsas ws ++ live_cluster_wsas cs)

module _ (o : VisitOrder) (sha256_hex : String → String) where
  -- The second half of `computeStateFromCluster`.
  abbrev state_with : GlobalVocabulary → Option GeneratedMappings → Option ClusterState
  state_with v none = none
  state_with v (some g) =
      some (record { scope_to_sa = g.scope_to_sa; sa_to_wsa_map = g.sa_to_wsa_map; vocabulary = v })

  abbrev state_of_scopes : Option (ScopeMap × GlobalVocabulary) → Option ClusterState
  state_of_scopes none = none
  state_of_scopes (some (m, v)) = state_with v (generate_service_account_mappings o sha256_hex m)

  unfoldable pub state_of_resources : List WsaResource → Option ClusterState
  state_of_resources rs = state_of_scopes (compute_scopes_for_wsas o rs)

-- The two fields that `RefreshScopeMappings` writes: the map from service accounts to resources
-- stays.
abbrev pub refreshed : ClusterState → InMemoryEngine → InMemoryEngine
refreshed state e = record e { scope_to_sa = state.scope_to_sa; vocabulary = state.vocabulary }

module _ (o : VisitOrder) (sha256_hex : String → String) (c : Client) where
  unfoldable pub compute_state_from_cluster : c.State → Result ClusterState
  unfolding all_resources state_of_resources
  compute_state_from_cluster s =
      all_resources c s >>= λ rs. or_panic (state_of_resources o sha256_hex rs)

  -- `RebuildStateFromCluster`: on an error the engine is left as it was.
  unfoldable pub rebuild_state_from_cluster : c.State → InMemoryEngine → Result InMemoryEngine
  unfolding compute_state_from_cluster
  rebuild_state_from_cluster s e = compute_state_from_cluster s >>= λ state. ok (record {
    scope_to_sa = state.scope_to_sa;
    vocabulary = state.vocabulary;
    sa_to_wsa_map = state.sa_to_wsa_map;
  })

  unfoldable pub refresh_scope_mappings : c.State → InMemoryEngine → Result InMemoryEngine
  unfolding compute_state_from_cluster
  refresh_scope_mappings s e = compute_state_from_cluster s >>= λ state. ok (refreshed state e)

-- `GetServiceAccountForScope` of the engine.
unfoldable pub service_account_for_scope : InMemoryEngine → Scope → String
unfolding get_service_account_for_scope
service_account_for_scope e s =
    get_service_account_for_scope
      (record { vocabulary = e.vocabulary; scope_to_sa = e.scope_to_sa }) s

unfoldable pub is_wsa_in_maps : InMemoryEngine → NamespacedName → Bool
is_wsa_in_maps e key = any (λ kv. has_key kv.1 key) e.sa_to_wsa_map
