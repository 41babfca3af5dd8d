-- ===== src/Reconciliation/Stages/Planning.antt =====
-- internal/reconciliation/stages/planning.go.
pub mod Laws
use octopus_permissions_cont.Prelude.{
  String, ◌<>◌, List, [], Option, none, some, foldl, map, Map, put, lookup,
}
use octopus_permissions_cont.Result.{Result, ok, err, panic}
use octopus_permissions_cont.Api.{NamespacedName, name_eq}
use octopus_permissions_cont.Rules.Resource.{WsaResource, get_namespaced_name}
use octopus_permissions_cont.Rules.Vocabulary.{GlobalVocabulary}
use octopus_permissions_cont.Rules.ScopeMap.{ScopeMap, compute_scopes_for_wsas}
use octopus_permissions_cont.Rules.Mappings.{GeneratedMappings, generate_service_account_mappings}
use octopus_permissions_cont.Rules.NamespaceDiscovery.{get_or_discover_target_namespaces}
use octopus_permissions_cont.Engine.{all_resources}
use octopus_permissions_cont.Reconciliation.Batch.{Batch, Plan}
use octopus_permissions_cont.Reconciliation.Stages.World.{Setting, World, Run}

-- `freshByKey`: the last resource of a name wins.
unfoldable pub fresh_by_key : List WsaResource → Map NamespacedName WsaResource
fresh_by_key rs = foldl (λ m r. put (get_namespaced_name r) r m) [] rs

abbrev pub or_stale : WsaResource → Option WsaResource → WsaResource
or_stale stale none = stale
or_stale stale (some fresh) = fresh

unfoldable pub update_batch_resource_versions :
    List WsaResource → List WsaResource → List WsaResource
unfolding fresh_by_key
update_batch_resource_versions batch fresh =
    map (λ r. or_stale r (lookup (get_namespaced_name r) (fresh_by_key fresh))) batch

module _ (e : Setting) where
  abbrev pub plan_with :
      List WsaResource → List String → GlobalVocabulary → Option GeneratedMappings → Option Plan
  plan_with rs namespaces v none = none
  plan_with rs namespaces v (some g) = some (record {
    scope_to_sa = g.scope_to_sa;
    sa_to_wsa_map = g.sa_to_wsa_map;
    wsa_to_sa_names = g.wsa_to_sa_names;
    vocabulary = v;
    unique_accounts = g.service_accounts;
    all_resources = rs;
    target_namespaces = namespaces;
  })

  abbrev pub plan_of_scopes :
      List WsaResource → List String → Option (ScopeMap × GlobalVocabulary) → Option Plan
  plan_of_scopes rs namespaces none = none
  plan_of_scopes rs namespaces (some (m, v)) =
      plan_with rs namespaces v (generate_service_account_mappings e.order e.sha256_hex m)

  unfoldable pub plan_for : List WsaResource → List String → Option Plan
  plan_for rs namespaces = plan_of_scopes rs namespaces (compute_scopes_for_wsas e.order rs)

  -- The plan is stored in the batch, and the batch's resources are brought up to date.
  abbrev pub planned : Option Plan → Batch → List WsaResource → World e → Run e
  planned none b rs w = (panic, b, w)
  planned (some plan) b rs w = (
    ok tt,
    record b { plan = some plan; resources = update_batch_resource_versions b.resources rs },
    w,
  )

  abbrev pub plan_listed : Result (List WsaResource) → Batch → World e → Run e
  plan_listed (err message) b w = (err ("failed to get all resources: " <> message), b, w)
  plan_listed panic b w = (panic, b, w)
  plan_listed (ok rs) b w =
      let (namespaces, cache) =
        get_or_discover_target_namespaces e.order e.namespace_matches
          (e.client.list_agent_deployments w.cluster) w.namespaces in
      planned (plan_for rs namespaces) b rs (record w { namespaces = cache })

  unfoldable pub plan_batch : Batch → World e → Run e
  unfolding plan_for update_batch_resource_versions
  plan_batch b w = plan_listed (all_resources e.client w.cluster) b w
