-- ===== src/Examples/Pipeline.antt =====
-- Planning and execution on a server that forgets what is deleted.
use mathlib.Core.Option.{some_inj}
use octopus_permissions_cont.Prelude.{
  sym, ◌∙◌, subst, List, null, any, lookup_or, Memᴰ, ◌++◌, true, false, [], ◌∷◌, none, some, lookup,
  put, from_list, insert, insert_all, string_eq, ◌≡◌, refl, or_default,
}
use octopus_permissions_cont.Result.{ok}
use octopus_permissions_cont.Api.{name_eq, name_beq, RoleRef}
use octopus_permissions_cont.Cluster.{ApplyConfiguration}
use octopus_permissions_cont.Rules.Resource.{
  WsaResource, wsa_adapter, get_namespaced_name, get_cluster_roles, get_roles, get_scope,
  get_permission_rules, is_cluster_scoped,
}
use octopus_permissions_cont.Rules.Naming.{ServiceAccount, is_octopus_managed}
use octopus_permissions_cont.Rules.Vocabulary.{
  new_global_vocabulary, scope_slice, known_values, build_global_vocabulary,
}
use octopus_permissions_cont.Rules.NamespaceDiscovery.{lru, get_or_discover_target_namespaces}
use octopus_permissions_cont.Rules.Scope.{scope_eq, scope_beq, with_value, value_at}
use octopus_permissions_cont.Rules.ScopeMap.{compute_scopes_for_wsas}
use octopus_permissions_cont.Rules.Coverage.{
  compute_wsa_coverage, generate_scope_combinations, dimension_coverage,
}
use octopus_permissions_cont.Rules.Grouping.{group_scopes_by_wsa_set}
use octopus_permissions_cont.Rules.Mappings.{generate_service_account_mappings}
use octopus_permissions_cont.Engine.{
  new_in_memory_engine, apply_batch_plan, all_resources, live_wsas, live_cluster_wsas,
}
use octopus_permissions_cont.Resources.Names.{subjects_of}
use octopus_permissions_cont.Resources.Ensure.Laws.{Agree, account_in}
use octopus_permissions_cont.Resources.Ensure.Bindings.{
  cluster_role_bound, accounts_of, bindings_for,
}
use octopus_permissions_cont.Resources.Objects.{object_of}
use octopus_permissions_cont.Reconciliation.Stages.Planning.Laws.{found_namespaces}
use octopus_permissions_cont.Examples.Server.{
  server, Stands, Exists, server-Applies, server-Creates, server-Deletes, server-Deletes_existing,
}
use octopus_permissions_cont.Resources.Ensure.{
  ensure_roles, ensure_service_accounts, ensure_role_bindings,
}
use octopus_permissions_cont.Resources.Collect.{
  garbage_collect_service_accounts, garbage_collect_roles, garbage_collect_role_bindings,
  garbage_collect_cluster_role_bindings, should_delete_service_account,
}
use octopus_permissions_cont.Reconciliation.Batch.{Batch, Plan}
use octopus_permissions_cont.Reconciliation.Stages.World.{Setting, World}
use octopus_permissions_cont.Reconciliation.Stages.Planning.{plan_batch}
use octopus_permissions_cont.Reconciliation.Stages.Execution.{execute_plan}
use octopus_permissions_cont.Reconciliation.Stages.Execution.Cluster.{
  execute_plan-account_in, execute_plan-cluster_role_bound,
}
use octopus_permissions_cont.Rules.Coverage.Laws.{applies_to, IsLiteral}
use octopus_permissions_cont.Reconciliation.Stages.Pipeline.{Answered, execute_plan-Answered}
use octopus_permissions_cont.Examples.Data.{
  first_to_last, plain, web, web_in_prod, deployer, meta_of, resources-IsLiteral,
}

abbrev setting : Setting
setting = record {
  client = server;
  order = first_to_last;
  sha256_hex = plain;
  scheme = none;
  namespace_matches = λ ns. true;
  has_tracker = false;
}

abbrev world : World setting
world = record {
  cluster = [];
  marked = [];
  engine = new_in_memory_engine;
  namespaces = record { target_namespaces = []; cache = lru none };
}

abbrev view : RoleRef
view = record { api_group = "rbac.authorization.k8s.io"; kind = "ClusterRole"; name = "view" }

abbrev viewer : WsaResource
viewer = wsa_adapter (record deployer {
  spec = record {
    scope = deployer.spec.scope;
    permissions = record { cluster_roles = view ∷ []; roles = []; permissions = [] };
  };
})

abbrev account : ServiceAccount
account = record { meta = meta_of "octopus-sa-1" "" }

abbrev plan : Plan
plan = record {
  scope_to_sa = [];
  sa_to_wsa_map = [];
  wsa_to_sa_names = (record { namespace = "team"; name = "deployer" }, "octopus-sa-1" ∷ []) ∷ [];
  vocabulary = new_global_vocabulary;
  unique_accounts = account ∷ [];
  all_resources = viewer ∷ [];
  target_namespaces = "octopus-agent-a" ∷ [];
}

plan_executed : (execute_plan setting plan world).0 ≡ none
unfolding execute_plan ensure_roles get_permission_rules ensure_service_accounts
    ensure_role_bindings lookup name_beq get_namespaced_name get_cluster_roles get_roles
    is_cluster_scoped garbage_collect_service_accounts garbage_collect_roles
    garbage_collect_role_bindings garbage_collect_cluster_role_bindings from_list insert
    should_delete_service_account is_octopus_managed apply_batch_plan put insert_all
plan_executed = refl

published_example :
    Exists
      (object_of (account_in account "octopus-agent-a"))
      (execute_plan setting plan world).1.cluster
published_example =
    execute_plan-account_in setting Exists server-Creates server-Deletes_existing plan world viewer
      account "octopus-agent-a" (Memᴰ.head refl) (Memᴰ.head refl) (Memᴰ.head refl) plan_executed

viewer_refers : Memᴰ view (get_cluster_roles viewer)
unfolding get_cluster_roles
viewer_refers = Memᴰ.head refl

viewer_has_accounts : null (lookup_or [] (get_namespaced_name viewer) plan.wsa_to_sa_names) ≡ false
unfolding lookup get_namespaced_name name_beq
viewer_has_accounts = refl

abbrev viewer_bindings : WsaResource → List ApplyConfiguration
viewer_bindings =
    bindings_for server none plain
      (ensure_roles server none plain plan.all_resources world.cluster).0 plan.wsa_to_sa_names
      plan.target_namespaces

abbrev viewer_binding : ApplyConfiguration
viewer_binding =
    cluster_role_bound none plain viewer
      (subjects_of
        (accounts_of server none plain plan.wsa_to_sa_names plan.target_namespaces viewer))
      view

-- The resource has one binding.
one_binding : (a : ApplyConfiguration) → Memᴰ a (viewer_bindings viewer) → Agree a viewer_binding
unfolding get_roles get_cluster_roles ensure_roles get_permission_rules lookup
one_binding a (Memᴰ.head e) o = e
one_binding a (Memᴰ.tail m) o = elim m [ ]

bindings-Agree :
    (x : WsaResource) (a : ApplyConfiguration)
    → Memᴰ x plan.all_resources
    → Memᴰ a (viewer_bindings x)
    → Agree a viewer_binding
bindings-Agree x a (Memᴰ.head e) m = one_binding a (subst (λ y. Memᴰ a (viewer_bindings y)) e m)
bindings-Agree x a (Memᴰ.tail i) m = elim i [ ]

permitted_example : Stands viewer_binding (execute_plan setting plan world).1.cluster
permitted_example =
    execute_plan-cluster_role_bound setting Stands server-Applies server-Deletes plan world viewer
      view bindings-Agree (Memᴰ.head refl) viewer_refers viewer_has_accounts plan_executed

abbrev batch : Batch
batch = record {
  id = 7;
  resources = web ∷ [];
  plan = none;
  validation_result = none;
  last_error = none;
  requeue_after = 0;
}

abbrev planned_batch : Batch
planned_batch = (plan_batch setting batch world).1

abbrev made : Plan
made = or_default plan planned_batch.plan

made_stored : (plan_batch setting batch world).1.plan ≡ some made
unfolding plan_batch all_resources live_wsas live_cluster_wsas compute_scopes_for_wsas
    compute_wsa_coverage generate_scope_combinations dimension_coverage scope_slice get_scope
    from_list insert_all insert known_values build_global_vocabulary put lookup
    generate_service_account_mappings group_scopes_by_wsa_set
made_stored = refl

made_executed : (execute_plan setting made (plan_batch setting batch world).2).0 ≡ none
unfolding execute_plan ensure_roles get_permission_rules ensure_service_accounts
    ensure_role_bindings lookup name_beq get_namespaced_name get_cluster_roles get_roles
    is_cluster_scoped garbage_collect_service_accounts garbage_collect_roles
    garbage_collect_role_bindings garbage_collect_cluster_role_bindings from_list insert
    should_delete_service_account is_octopus_managed apply_batch_plan put insert_all plan_batch
    all_resources live_wsas live_cluster_wsas compute_scopes_for_wsas compute_wsa_coverage
    generate_scope_combinations dimension_coverage scope_slice get_scope known_values
    build_global_vocabulary generate_service_account_mappings group_scopes_by_wsa_set
    get_or_discover_target_namespaces scope_beq with_value
made_executed = refl

found_namespace : Memᴰ "octopus-agent-a" (found_namespaces setting world)
unfolding get_or_discover_target_namespaces from_list insert_all insert
found_namespace = Memᴰ.head refl

plan_runs :
    (p : Plan)
    → (plan_batch setting batch world).1.plan ≡ some p
    → (execute_plan setting p (plan_batch setting batch world).2).0 ≡ none
plan_runs p stored =
    subst (λ q. (execute_plan setting q (plan_batch setting batch world).2).0 ≡ none)
      (some_inj.0 (sym made_stored ∙ stored)) made_executed

made_answered :
    any (λ r. applies_to r web_in_prod) (live_wsas (deployer ∷ []) ++ live_cluster_wsas []) ≡ true
unfolding live_wsas live_cluster_wsas scope_slice get_scope value_at
made_answered = refl

deployer-IsLiteral :
    (r : WsaResource) → Memᴰ r (live_wsas (deployer ∷ []) ++ live_cluster_wsas []) → IsLiteral r
unfolding live_wsas live_cluster_wsas
deployer-IsLiteral r (Memᴰ.head e) = resources-IsLiteral r (Memᴰ.head e)
deployer-IsLiteral r (Memᴰ.tail m) = elim m [ ]

answer_example :
    (p : Plan) × ((plan_batch setting batch world).0 ≡ ok tt)
    × ((plan_batch setting batch world).1.plan ≡ some p)
    × Answered setting Exists
        (execute_plan setting p (plan_batch setting batch world).2).1.engine
        (execute_plan setting p (plan_batch setting batch world).2).1.cluster
        web_in_prod
        "octopus-agent-a"
answer_example =
    execute_plan-Answered setting Exists server-Creates server-Deletes_existing batch world
      (deployer ∷ []) [] web_in_prod "octopus-agent-a" refl refl deployer-IsLiteral plan_runs
      made_answered found_namespace
