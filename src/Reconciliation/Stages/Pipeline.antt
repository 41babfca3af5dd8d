-- ===== src/Reconciliation/Stages/Pipeline.antt =====
-- internal/reconciliation/stages: a batch that was planned and executed without an error, seen from
-- the webhook.
use octopus_permissions_cont.Prelude.{
  String, not, List, ◌++◌, Option, none, some, any, lookup, or_default, mem_of_any, Memᴰ, true,
  false, string_eq, eq_iff, ◌==◌, ◌≡◌, refl, sym, ◌∙◌, ap, subst, arith,
}
use octopus_permissions_cont.Result.{ok}
use octopus_permissions_cont.Api.{WorkloadServiceAccount, ClusterWorkloadServiceAccount}
use octopus_permissions_cont.Rules.Scope.{Scope, scope_eq}
use octopus_permissions_cont.Rules.Resource.{WsaResource}
use octopus_permissions_cont.Rules.Vocabulary.{get_known_scope_combination}
use octopus_permissions_cont.Rules.Coverage.Laws.{applies_to, IsLiteral}
use octopus_permissions_cont.Rules.Naming.{ServiceAccount}
use octopus_permissions_cont.Rules.Mappings.{get_service_account_for_scope}
use octopus_permissions_cont.Engine.{
  InMemoryEngine, apply_batch_plan, service_account_for_scope, live_wsas, live_cluster_wsas,
}
use octopus_permissions_cont.Engine.Laws.{Serves}
use octopus_permissions_cont.Resources.Objects.{Object, object_of}
use octopus_permissions_cont.Resources.Ensure.Laws.{Creates, account_in}
use octopus_permissions_cont.Resources.Collect.Spares.{Deletes}
use octopus_permissions_cont.Reconciliation.Batch.{Batch, Plan}
use octopus_permissions_cont.Reconciliation.Stages.World.{Setting, World}
use octopus_permissions_cont.Reconciliation.Stages.Planning.{plan_batch}
use octopus_permissions_cont.Reconciliation.Stages.Planning.Laws.{
  published, Plans, found_namespaces, plan_batch-Plans,
}
use octopus_permissions_cont.Reconciliation.Stages.Execution.{execute_plan}
use octopus_permissions_cont.Reconciliation.Stages.Execution.Laws.{
  engine_after, engine-execute_plan,
}
use octopus_permissions_cont.Reconciliation.Stages.Execution.Cluster.{execute_plan-account_in}

module _ (e : Setting) (Exists : Object → e.client.State → Type 0) where
  -- The name of the engine's answer is that of an account in the namespace.
  pub record Answered (engine : InMemoryEngine) (cluster : e.client.State) (s : Scope) (ns : String)
      : Type 0 where
    pub not_empty : (service_account_for_scope engine s == "") ≡ false
    pub account : ServiceAccount
    pub named : account.meta.name ≡ service_account_for_scope engine s
    pub exists : Exists (object_of (account_in account ns)) cluster

  -- An engine that serves answers from its map.
  answer_in_map :
      (plan : Plan) (engine : InMemoryEngine) (s : Scope)
      → (service_account_for_scope (published plan engine) s == "") ≡ false
      → lookup (get_known_scope_combination plan.vocabulary s) plan.scope_to_sa
        ≡ some (service_account_for_scope (published plan engine) s)
  unfolding service_account_for_scope get_service_account_for_scope apply_batch_plan
  answer_in_map plan engine s h =
      in_map (lookup (get_known_scope_combination plan.vocabulary s) plan.scope_to_sa) h
    where
      in_map : (x : Option String) → (or_default "" x == "") ≡ false → x ≡ some (or_default "" x)
      in_map none h = ground arith
      in_map (some y) h = refl

  published_engine :
      (plan : Plan) (w : World e)
      → (execute_plan e plan w).0 ≡ none
      → (execute_plan e plan w).1.engine ≡ published plan w.engine
  published_engine plan w fine =
      engine-execute_plan e plan w ∙ ap (λ x. engine_after e plan x w.engine) fine

  planned_answer :
      (creates : Creates e.client Exists) (deletes : Deletes e.client (λ a. Exists (object_of a)))
      (plan : Plan) (rs : List WsaResource) (namespaces : List String) (w : World e) (s : Scope)
      (ns : String)
      → Plans e rs namespaces plan
      → any (λ r. applies_to r s) rs ≡ true
      → Memᴰ ns plan.target_namespaces
      → (execute_plan e plan w).0 ≡ none
      → Answered (execute_plan e plan w).1.engine (execute_plan e plan w).1.cluster s ns
  unfolding Serves
  planned_answer creates deletes plan rs namespaces w s ns plans h n fine =
      let (r, i, _) = mem_of_any _ rs h in
      let served = plans.serves w.engine s ∙ ap not h in
      let name = service_account_for_scope (published plan w.engine) s in
      let (sa, m, same) =
        mem_of_any _ plan.unique_accounts
          (plans.accounts _ name (answer_in_map plan w.engine s served)) in
      let engine = published_engine plan w fine in
      record {
        not_empty = rw engine served;
        account = sa;
        named = rw engine ((eq_iff sa.meta.name name).0 same);
        exists =
            execute_plan-account_in e Exists creates deletes plan w r sa ns
              (subst (Memᴰ r) (sym plans.resources) i) m n fine;
      }

  -- What the webhook answers exists. While the cluster can be listed and no live resource lists a
  -- wildcard value, the planning stage succeeds on every batch and gives it a plan. If executing
  -- the plan that it gives ends without an error, then for each scope that a live resource applies
  -- to and each namespace that the stage found, the engine answers a name that is not empty, and a
  -- service account of that name is in the namespace. This holds over any API server whose applies
  -- make objects and take none away, and whose deletions touch no other object.
  pub execute_plan-Answered :
      (creates : Creates e.client Exists) (deletes : Deletes e.client (λ a. Exists (object_of a)))
      (b : Batch) (w : World e) (ws : List WorkloadServiceAccount)
      (cs : List ClusterWorkloadServiceAccount) (s : Scope) (ns : String)
      → e.client.list_wsas w.cluster ≡ ok ws
      → e.client.list_cluster_wsas w.cluster ≡ ok cs
      → ((r : WsaResource) → Memᴰ r (live_wsas ws ++ live_cluster_wsas cs) → IsLiteral r)
      → ((plan : Plan)
          → (plan_batch e b w).1.plan ≡ some plan
          → (execute_plan e plan (plan_batch e b w).2).0 ≡ none)
      → any (λ r. applies_to r s) (live_wsas ws ++ live_cluster_wsas cs) ≡ true
      → Memᴰ ns (found_namespaces e w)
      → (plan : Plan) × ((plan_batch e b w).0 ≡ ok tt)
        × ((plan_batch e b w).1.plan ≡ some plan)
        × Answered
            (execute_plan e plan (plan_batch e b w).2).1.engine
            (execute_plan e plan (plan_batch e b w).2).1.cluster
            s
            ns
  execute_plan-Answered creates deletes b w ws cs s ns lw lc literal fine h n =
      let (plan, made, stored, plans) = plan_batch-Plans e b w ws cs lw lc literal in
      (
        plan,
        made,
        stored,
        planned_answer creates deletes plan (live_wsas ws ++ live_cluster_wsas cs)
            (found_namespaces e w) (plan_batch e b w).2 s ns plans h
            (subst (Memᴰ ns) (sym plans.target) n) (fine plan stored),
      )
