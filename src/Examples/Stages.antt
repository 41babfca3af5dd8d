-- ===== src/Examples/Stages.antt =====
-- The stages on the small installation.
use octopus_permissions_cont.Examples.Server.{server, Stands, server-Applies}
use octopus_permissions_cont.Prelude.{
  subst, String, List, Map, null, lookup, lookup_or, Memᴰ, ◌++◌, true, false, [], ◌∷◌, none, some,
  all, not, ◌&&◌, contains, string_eq, ◌≡◌, refl, arith,
}
use octopus_permissions_cont.Engine.{
  InMemoryEngine, live_wsas, live_cluster_wsas, new_in_memory_engine,
}
use octopus_permissions_cont.Rules.Naming.{ServiceAccount, is_octopus_managed}
use octopus_permissions_cont.Rules.Vocabulary.{new_global_vocabulary}
use octopus_permissions_cont.Rules.NamespaceDiscovery.{no_cache}
use octopus_permissions_cont.Resources.Ensure.{ensure_service_accounts, ensure_role_bindings}
use octopus_permissions_cont.Resources.Ensure.Bindings.{
  cluster_role_bound, accounts_of, bindings_for, ensure_role_bindings-Binds,
}
use octopus_permissions_cont.Resources.Names.{subjects_of}
use octopus_permissions_cont.Api.{NamespacedName, name_eq, name_beq, RoleRef}
use octopus_permissions_cont.Rules.Resource.{
  WsaResource, wsa_adapter, get_namespaced_name, get_cluster_roles, get_roles, is_cluster_scoped,
}
use octopus_permissions_cont.Resources.Ensure.Laws.{
  Agree, account_in, ensure_service_accounts-applied,
}
use octopus_permissions_cont.Cluster.{ApplyConfiguration}
use octopus_permissions_cont.Resources.Collect.{
  Tracked, garbage_collect_role_bindings, garbage_collect_service_accounts,
}
use octopus_permissions_cont.Resources.Collect.Laws.{
  garbage_collect_role_bindings-preserves, garbage_collect_service_accounts-preserves,
}
use octopus_permissions_cont.Reconciliation.Batch.{Batch, Plan}
use octopus_permissions_cont.Reconciliation.Stages.World.{Setting, World}
use octopus_permissions_cont.Reconciliation.Stages.Execution.{execute_plan}
use octopus_permissions_cont.Reconciliation.Stages.Execution.Laws.{
  engine_after, engine-execute_plan,
}
use octopus_permissions_cont.Reconciliation.Stages.Validation.{validate_batch}
use octopus_permissions_cont.Reconciliation.Stages.Validation.Laws.{
  allows, succeeds, succeeds-validate_batch,
}
use octopus_permissions_cont.Engine.Laws.{Serves}
use octopus_permissions_cont.Reconciliation.Stages.Planning.{plan_batch}
use octopus_permissions_cont.Reconciliation.Stages.Planning.Laws.{published, plan_batch-Serves}
use octopus_permissions_cont.Result.{ok}
use octopus_permissions_cont.Examples.Data.{
  deployer, auditor, resources-IsLiteral, first_to_last, plain, meta_of, resources, recorder,
  Recorded, nothing, orphan,
}

abbrev setting : Setting
setting = record {
  client = recorder;
  order = first_to_last;
  sha256_hex = plain;
  scheme = none;
  namespace_matches = λ ns. true;
  has_tracker = false;
}

abbrev world : World setting
world = record {
  cluster = nothing;
  marked = [];
  engine = new_in_memory_engine;
  namespaces = record { target_namespaces = []; cache = no_cache };
}

abbrev plan : Plan
plan = record {
  scope_to_sa = [];
  sa_to_wsa_map = [];
  wsa_to_sa_names = [];
  vocabulary = new_global_vocabulary;
  unique_accounts = record { meta = meta_of "octopus-sa-1" "" } ∷ [];
  all_resources = resources;
  target_namespaces = "octopus-agent-a" ∷ [];
}

abbrev batch : Batch
batch = record {
  id = 7;
  resources = resources;
  plan = some plan;
  validation_result = none;
  last_error = none;
  requeue_after = 0;
}

planning_example :
    (made : Plan) × ((plan_batch setting batch world).0 ≡ ok tt)
    × ((plan_batch setting batch world).1.plan ≡ some made)
    × ((engine : InMemoryEngine)
        → Serves
            (live_wsas (deployer ∷ []) ++ live_cluster_wsas (auditor ∷ []))
            (published made engine))
unfolding live_wsas live_cluster_wsas
planning_example =
    plan_batch-Serves setting batch world (deployer ∷ []) (auditor ∷ []) refl refl
      resources-IsLiteral

publish_example :
    (execute_plan setting plan world).1.engine
    ≡ engine_after setting plan (execute_plan setting plan world).0 new_in_memory_engine
publish_example = engine-execute_plan setting plan world

validation_example :
    succeeds (validate_batch setting batch world).0 ≡ allows recorder nothing plan resources
validation_example = succeeds-validate_batch setting batch plan world refl

abbrev listed : Tracked Recorded
listed = record { cluster = nothing; marked = [] }

-- Everything that was deleted was the controller's.
abbrev ManagedDeleted : Recorded → Type 0
ManagedDeleted s = all (λ m. is_octopus_managed m.labels) s.0 ≡ true

bindings_example :
    ManagedDeleted (garbage_collect_role_bindings recorder false plain resources listed).1.cluster
bindings_example =
    garbage_collect_role_bindings-preserves recorder false ManagedDeleted plain resources listed
      (λ m managed orphaned t p. rw managed p) refl

-- Everything that was deleted was in no target namespace or had no expected name.
abbrev UnwantedDeleted : Recorded → Type 0
UnwantedDeleted s =
    all (λ m. not (contains ("team" ∷ []) m.namespace && contains ("octopus-sa-1" ∷ []) m.name)) s.0
    ≡ true

accounts_example :
    UnwantedDeleted
      (garbage_collect_service_accounts recorder false
        ("octopus-sa-1" ∷ [])
        ("team" ∷ [])
        listed).1.cluster
accounts_example =
    garbage_collect_service_accounts-preserves recorder false UnwantedDeleted ("octopus-sa-1" ∷ [])
      ("team" ∷ []) listed (record { meta = orphan "octopus-sa-0" } ∷ []) refl
      (λ m i unwanted t p. ground (arith, unwanted, p)) refl

abbrev new_account : ServiceAccount
new_account = record { meta = meta_of "octopus-sa-1" "" }

all_created : (ensure_service_accounts server none plain (new_account ∷ []) ("team" ∷ []) []).0 ≡ []
unfolding ensure_service_accounts
all_created = refl

only_account :
    (x : ServiceAccount)
    → Memᴰ x (new_account ∷ [])
    → x.meta.name ≡ new_account.meta.name
    → x ≡ new_account
only_account x (Memᴰ.head e) n = e
only_account x (Memᴰ.tail m) n = elim m [ ]

created_example :
    Stands
      (account_in new_account "team")
      (ensure_service_accounts server none plain (new_account ∷ []) ("team" ∷ []) []).1
created_example =
    ensure_service_accounts-applied server none plain Stands server-Applies (new_account ∷ [])
      ("team" ∷ []) [] new_account "team" only_account all_created (Memᴰ.head refl) (Memᴰ.head refl)

-- A resource that refers to a cluster role, and the account that it has.
abbrev view : RoleRef
view = record { api_group = "rbac.authorization.k8s.io"; kind = "ClusterRole"; name = "view" }

abbrev viewer : WsaResource
viewer = wsa_adapter (record deployer {
  spec = record {
    scope = deployer.spec.scope;
    permissions = record { cluster_roles = view ∷ []; roles = []; permissions = [] };
  };
})

abbrev viewer_names : Map NamespacedName (List String)
viewer_names = (record { namespace = "team"; name = "deployer" }, "octopus-sa-1" ∷ []) ∷ []

viewer_has_accounts : null (lookup_or [] (get_namespaced_name viewer) viewer_names) ≡ false
unfolding lookup get_namespaced_name name_beq
viewer_has_accounts = refl

viewer_refers : Memᴰ view (get_cluster_roles viewer)
unfolding get_cluster_roles
viewer_refers = Memᴰ.head refl

viewer_bound :
    (ensure_role_bindings server none plain (viewer ∷ []) [] viewer_names ("team" ∷ []) []).0 ≡ []
unfolding ensure_role_bindings lookup get_namespaced_name name_beq get_cluster_roles get_roles
    is_cluster_scoped
viewer_bound = refl

abbrev viewer_binding : ApplyConfiguration
viewer_binding =
    cluster_role_bound none plain viewer
      (subjects_of (accounts_of server none plain viewer_names ("team" ∷ []) viewer)) view

-- The resource has one binding.
one_binding :
    (a : ApplyConfiguration)
    → Memᴰ a (bindings_for server none plain [] viewer_names ("team" ∷ []) viewer)
    → Agree a viewer_binding
unfolding get_roles get_cluster_roles lookup
one_binding a (Memᴰ.head e) o = e
one_binding a (Memᴰ.tail m) o = elim m [ ]

bindings-Agree :
    (x : WsaResource) (a : ApplyConfiguration)
    → Memᴰ x (viewer ∷ [])
    → Memᴰ a (bindings_for server none plain [] viewer_names ("team" ∷ []) x)
    → Agree a viewer_binding
bindings-Agree x a (Memᴰ.head e) m =
    one_binding a
      (subst (λ y. Memᴰ a (bindings_for server none plain [] viewer_names ("team" ∷ []) y)) e m)
bindings-Agree x a (Memᴰ.tail i) m = elim i [ ]

bound_example :
    Stands viewer_binding
      (ensure_role_bindings server none plain (viewer ∷ []) [] viewer_names ("team" ∷ []) []).1
bound_example =
    ensure_role_bindings-Binds server none plain Stands server-Applies (viewer ∷ []) [] viewer_names
      ("team" ∷ []) [] viewer view bindings-Agree viewer_bound (Memᴰ.head refl) viewer_refers
      viewer_has_accounts
