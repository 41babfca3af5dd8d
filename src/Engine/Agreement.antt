-- ===== src/Engine/Agreement.antt =====
-- internal/rules/engine.go: the leader and the replicas, which list the cluster on their own, agree.
use octopus_permissions_cont.Prelude.{
  ℕ, String, Bool, true, false, ◌&&◌, List, [], ◌∷◌, ◌++◌, Option, none, some, any, any-append,
  any_of_perm, Permᴰ, lookup_or, or_default, VisitOrder, string_eq, ◌≡◌, refl, ◌∙◌, ap, arith,
}
use octopus_permissions_cont.Result.{ok}
use octopus_permissions_cont.Api.{WorkloadServiceAccount, ClusterWorkloadServiceAccount}
use octopus_permissions_cont.Cluster.{Client}
use octopus_permissions_cont.Rules.Scope.{Scope, scope_eq}
use octopus_permissions_cont.Rules.Resource.{WsaResource, wsa_adapter, cluster_wsa_adapter}
use octopus_permissions_cont.Rules.Vocabulary.{build_global_vocabulary, get_known_scope_combination}
use octopus_permissions_cont.Rules.ScopeMap.{compute_scopes_for_wsas}
use octopus_permissions_cont.Rules.ScopeMap.Laws.{compute_minimal_service_account_scopes_lem}
use octopus_permissions_cont.Rules.ScopeMap.Proper.{compute_minimal_service_account_scopes-IsProper}
use octopus_permissions_cont.Rules.Mappings.{get_service_account_for_scope}
use octopus_permissions_cont.Rules.Mappings.Laws.{generate_service_account_mappings-Names}
use octopus_permissions_cont.Rules.Mappings.Agreement.{generate_service_account_mappings-SameView}
use octopus_permissions_cont.Rules.Selection.Agreement.{
  SameResources, get_known_scope_combination-same, IsScopeMap-SameView,
}
use octopus_permissions_cont.Engine.{
  InMemoryEngine, ClusterState, live_wsas, live_cluster_wsas, state_of_resources, refreshed,
  all_resources, compute_state_from_cluster, rebuild_state_from_cluster, refresh_scope_mappings,
  service_account_for_scope,
}

abbrev is_live : Option ℕ → Bool
is_live none = true
is_live (some _) = false

any-live_wsas :
    (p : WsaResource → Bool) (ws : List WorkloadServiceAccount)
    → any p (live_wsas ws) ≡ any (λ w. is_live w.meta.deletion_timestamp && p (wsa_adapter w)) ws
unfolding live_wsas
any-live_wsas p [] = refl
any-live_wsas p (w ∷ ws) = ground (arith, any-live_wsas p ws)

any-live_cluster_wsas :
    (p : WsaResource → Bool) (ws : List ClusterWorkloadServiceAccount)
    → any p (live_cluster_wsas ws)
      ≡ any (λ w. is_live w.meta.deletion_timestamp && p (cluster_wsa_adapter w)) ws
unfolding live_cluster_wsas
any-live_cluster_wsas p [] = refl
any-live_cluster_wsas p (w ∷ ws) = ground (arith, any-live_cluster_wsas p ws)

-- What is live does not depend on the order in which the API server lists it.
live-same :
    (ws₁ ws₂ : List WorkloadServiceAccount) (cs₁ cs₂ : List ClusterWorkloadServiceAccount)
    → Permᴰ ws₁ ws₂
    → Permᴰ cs₁ cs₂
    → SameResources
        (live_wsas ws₁ ++ live_cluster_wsas cs₁)
        (live_wsas ws₂ ++ live_cluster_wsas cs₂)
live-same ws₁ ws₂ cs₁ cs₂ pw pc p = ground (
  arith,
  any-append p (live_wsas ws₁) (live_cluster_wsas cs₁),
  any-append p (live_wsas ws₂) (live_cluster_wsas cs₂),
  any-live_wsas p ws₁,
  any-live_wsas p ws₂,
  any-live_cluster_wsas p cs₁,
  any-live_cluster_wsas p cs₂,
  any_of_perm (λ w. is_live w.meta.deletion_timestamp && p (wsa_adapter w)) pw,
  any_of_perm (λ w. is_live w.meta.deletion_timestamp && p (cluster_wsa_adapter w)) pc,
)

-- The name that a computed state gives to a scope.
abbrev answer_of : ClusterState → Scope → String
answer_of state s = lookup_or "" (get_known_scope_combination state.vocabulary s) state.scope_to_sa

module _ (o₁ o₂ : VisitOrder) (sha256_hex : String → String) where
  state_of_resources-same :
      (rs₁ rs₂ : List WsaResource)
      → SameResources rs₁ rs₂
      → (state₁ : ClusterState) × (state₂ : ClusterState) × (state_of_resources o₁ sha256_hex rs₁
          ≡ some state₁)
        × (state_of_resources o₂ sha256_hex rs₂ ≡ some state₂)
        × ((s : Scope) → answer_of state₁ s ≡ answer_of state₂ s)
  unfolding state_of_resources compute_scopes_for_wsas
  state_of_resources-same rs₁ rs₂ same =
      let v₁ = build_global_vocabulary rs₁ in
      let v₂ = build_global_vocabulary rs₂ in
      let (m₁, made₁, spec₁) = compute_minimal_service_account_scopes_lem o₁ v₁ rs₁ in
      let (m₂, made₂, spec₂) = compute_minimal_service_account_scopes_lem o₂ v₂ rs₂ in
      let (g₁, generated₁, _) = generate_service_account_mappings-Names o₁ sha256_hex m₁ in
      let (g₂, generated₂, _) = generate_service_account_mappings-Names o₂ sha256_hex m₂ in
      (
        record { scope_to_sa = g₁.scope_to_sa; sa_to_wsa_map = g₁.sa_to_wsa_map; vocabulary = v₁ },
        record { scope_to_sa = g₂.scope_to_sa; sa_to_wsa_map = g₂.sa_to_wsa_map; vocabulary = v₂ },
        rw made₁ (rw generated₁ refl),
        rw made₂ (rw generated₂ refl),
        λ s.
            ap (λ k. lookup_or "" k g₁.scope_to_sa)
              (get_known_scope_combination-same rs₁ rs₂ same s)
            ∙ ap (or_default "") (
                generate_service_account_mappings-SameView o₁ o₂ sha256_hex m₁ m₂
                  (compute_minimal_service_account_scopes-IsProper o₁ rs₁ v₁ m₁ made₁)
                  (compute_minimal_service_account_scopes-IsProper o₂ rs₂ v₂ m₂ made₂)
                  (IsScopeMap-SameView rs₁ rs₂ same o₁ o₂ m₁ m₂ spec₁ spec₂) g₁ g₂
                  (get_known_scope_combination v₂ s) generated₁ generated₂),
      )

  -- The leader and a replica agree. Each lists the cluster for itself and gets the same resources,
  -- in whatever order, and each visits its maps in an order of its own: then the leader's rebuild
  -- and the replica's refresh both succeed, and after them both engines answer every scope with the
  -- same service account, whatever they held before.
  pub refresh_scope_mappings-rebuild_state_from_cluster :
      (c : Client) (s₁ s₂ : c.State) (leader replica : InMemoryEngine)
      (ws₁ ws₂ : List WorkloadServiceAccount) (cs₁ cs₂ : List ClusterWorkloadServiceAccount)
      → c.list_wsas s₁ ≡ ok ws₁
      → c.list_cluster_wsas s₁ ≡ ok cs₁
      → c.list_wsas s₂ ≡ ok ws₂
      → c.list_cluster_wsas s₂ ≡ ok cs₂
      → Permᴰ ws₁ ws₂
      → Permᴰ cs₁ cs₂
      → (leader' : InMemoryEngine) × (replica' : InMemoryEngine) × (rebuild_state_from_cluster o₁
            sha256_hex c s₁ leader
          ≡ ok leader')
        × (refresh_scope_mappings o₂ sha256_hex c s₂ replica ≡ ok replica')
        × ((s : Scope) → service_account_for_scope leader' s ≡ service_account_for_scope replica' s)
  unfolding rebuild_state_from_cluster refresh_scope_mappings compute_state_from_cluster
      all_resources service_account_for_scope get_service_account_for_scope
  refresh_scope_mappings-rebuild_state_from_cluster c s₁ s₂ leader replica ws₁ ws₂ cs₁ cs₂ lw₁ lc₁
        lw₂ lc₂ pw pc =
      let (state₁, state₂, made₁, made₂, answers) =
        state_of_resources-same _ _ (live-same ws₁ ws₂ cs₁ cs₂ pw pc) in
      (
        record {
          scope_to_sa = state₁.scope_to_sa;
          vocabulary = state₁.vocabulary;
          sa_to_wsa_map = state₁.sa_to_wsa_map;
        },
        refreshed state₂ replica,
        rw (lw₁, lc₁, made₁) refl,
        rw (lw₂, lc₂, made₂) refl,
        answers,
      )
