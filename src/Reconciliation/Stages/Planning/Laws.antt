-- ===== src/Reconciliation/Stages/Planning/Laws.antt =====
-- internal/reconciliation/stages/planning.go: what the plan of a batch is worth.
use octopus_permissions_cont.Prelude.{
  String, List, ◌++◌, some, true, string_eq, lookup, Memᴰ, ◌≡◌, refl, ◌∙◌, ap, not,
}
use octopus_permissions_cont.Result.{ok}
use octopus_permissions_cont.Api.{WorkloadServiceAccount, ClusterWorkloadServiceAccount}
use octopus_permissions_cont.Rules.Resource.{WsaResource}
use octopus_permissions_cont.Rules.Scope.{Scope, scope_eq}
use octopus_permissions_cont.Rules.Mappings.Accounts.{
  has_account, generate_service_account_mappings-has_account,
}
use octopus_permissions_cont.Rules.Vocabulary.{get_known_scope_combination}
use octopus_permissions_cont.Rules.Coverage.Laws.{IsLiteral}
use octopus_permissions_cont.Rules.Selection.{compute_scopes_for_wsas-Selects}
use octopus_permissions_cont.Rules.Mappings.{get_service_account_for_scope}
use octopus_permissions_cont.Rules.Mappings.Laws.{
  generate_service_account_mappings-Names, lookup-all_named,
}
use octopus_permissions_cont.Rules.NamespaceDiscovery.{get_or_discover_target_namespaces}
use octopus_permissions_cont.Engine.{
  InMemoryEngine, apply_batch_plan, service_account_for_scope, all_resources, live_wsas,
  live_cluster_wsas,
}
use octopus_permissions_cont.Engine.Laws.{Serves}
use octopus_permissions_cont.Reconciliation.Batch.{Batch, Plan}
use octopus_permissions_cont.Reconciliation.Stages.World.{Setting, World}
use octopus_permissions_cont.Reconciliation.Stages.Planning.{plan_for, plan_batch}

-- The engine after the plan was published.
abbrev pub published : Plan → InMemoryEngine → InMemoryEngine
published plan engine =
    apply_batch_plan
      (record {
        scope_to_sa = plan.scope_to_sa;
        sa_to_wsa_map = plan.sa_to_wsa_map;
        vocabulary = some plan.vocabulary;
      })
      engine

module _ (e : Setting) where
  -- What a plan for some resources is worth.
  pub record Plans (rs : List WsaResource) (namespaces : List String) (plan : Plan) : Type 0 where
    pub serves : (engine : InMemoryEngine) → Serves rs (published plan engine)
    pub accounts :
        (s : Scope) (name : String)
        → lookup s plan.scope_to_sa ≡ some name
        → has_account plan.unique_accounts name ≡ true
    pub resources : plan.all_resources ≡ rs
    pub target : plan.target_namespaces ≡ namespaces

  plan_for-Plans :
      (rs : List WsaResource) (namespaces : List String)
      → ((r : WsaResource) → Memᴰ r rs → IsLiteral r)
      → (plan : Plan) × (plan_for e rs namespaces ≡ some plan) × Plans rs namespaces plan
  unfolding plan_for apply_batch_plan service_account_for_scope get_service_account_for_scope Serves
  plan_for-Plans rs namespaces literal =
      let (m, v, made, selects) = compute_scopes_for_wsas-Selects e.order rs literal in
      let (g, generated, names) = generate_service_account_mappings-Names e.order e.sha256_hex m in
      (
        record {
          scope_to_sa = g.scope_to_sa;
          sa_to_wsa_map = g.sa_to_wsa_map;
          wsa_to_sa_names = g.wsa_to_sa_names;
          vocabulary = v;
          unique_accounts = g.service_accounts;
          all_resources = rs;
          target_namespaces = namespaces;
        },
        rw made (rw generated refl),
        record {
          serves = λ engine s.
              lookup-all_named g.scope_to_sa (get_known_scope_combination v s) names.named
              ∙ ap not (names.keys (get_known_scope_combination v s) ∙ selects.found s);
          accounts = λ s name h.
              generate_service_account_mappings-has_account e.order e.sha256_hex m g s name
                generated h;
          resources = refl;
          target = refl;
        },
      )

  -- The namespaces that a run of the stage finds.
  abbrev pub found_namespaces : World e → List String
  found_namespaces w =
      (get_or_discover_target_namespaces e.order e.namespace_matches
        (e.client.list_agent_deployments w.cluster) w.namespaces).0

  pub plan_batch-Plans :
      (b : Batch) (w : World e) (ws : List WorkloadServiceAccount)
      (cs : List ClusterWorkloadServiceAccount)
      → e.client.list_wsas w.cluster ≡ ok ws
      → e.client.list_cluster_wsas w.cluster ≡ ok cs
      → ((r : WsaResource) → Memᴰ r (live_wsas ws ++ live_cluster_wsas cs) → IsLiteral r)
      → (plan : Plan) × ((plan_batch e b w).0 ≡ ok tt)
        × ((plan_batch e b w).1.plan ≡ some plan)
        × Plans (live_wsas ws ++ live_cluster_wsas cs) (found_namespaces w) plan
  unfolding plan_batch all_resources
  plan_batch-Plans b w ws cs lw lc literal =
      let rs = live_wsas ws ++ live_cluster_wsas cs in
      let (plan, made, plans) = plan_for-Plans rs (found_namespaces w) literal in
      (plan, rw (lw, lc, made) refl, rw (lw, lc, made) refl, plans)

  -- While the cluster can be listed and no live resource lists a wildcard value, the planning
  -- stage succeeds on every batch and gives it a plan. Whichever engine the plan is published to
  -- then answers for the live resources of the cluster, those outside the batch included.
  pub plan_batch-Serves :
      (b : Batch) (w : World e) (ws : List WorkloadServiceAccount)
      (cs : List ClusterWorkloadServiceAccount)
      → e.client.list_wsas w.cluster ≡ ok ws
      → e.client.list_cluster_wsas w.cluster ≡ ok cs
      → ((r : WsaResource) → Memᴰ r (live_wsas ws ++ live_cluster_wsas cs) → IsLiteral r)
      → (plan : Plan) × ((plan_batch e b w).0 ≡ ok tt)
        × ((plan_batch e b w).1.plan ≡ some plan)
        × ((engine : InMemoryEngine)
            → Serves (live_wsas ws ++ live_cluster_wsas cs) (published plan engine))
  plan_batch-Serves b w ws cs lw lc literal =
      let (plan, fine, stored, plans) = plan_batch-Plans b w ws cs lw lc literal in
      (plan, fine, stored, plans.serves)
