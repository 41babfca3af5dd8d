-- ===== src/Examples/Data.antt =====
-- A small installation: an order of visits, two resources, a client and the world of the stages.
use mathlib.Core.List.Permᴰ.{refl as Permᴰ-refl}
use octopus_permissions_cont.Prelude.{
  String, List, [], ◌∷◌, none, Memᴰ, VisitOrder, string_eq, refl,
}
use octopus_permissions_cont.Result.{ok}
use octopus_permissions_cont.Api.{
  ObjectMeta, WorkloadServiceAccountScope, WorkloadServiceAccount, ClusterWorkloadServiceAccount,
}
use octopus_permissions_cont.Rules.Scope.{
  Scope, project_index, project_group_index, environment_index, tenant_index, step_index,
  space_index,
}
use octopus_permissions_cont.Rules.Resource.{
  WsaResource, wsa_adapter, cluster_wsa_adapter, get_scope,
}
use octopus_permissions_cont.Rules.Vocabulary.{scope_slice}
use octopus_permissions_cont.Rules.Coverage.Laws.{IsLiteral}
use octopus_permissions_cont.Rules.Naming.{managed_by_label, managed_by_value}
use octopus_permissions_cont.Cluster.{Binding, Client, found, not_found, ApplyConfiguration}

-- Every map is visited from its first entry to its last.
abbrev pub first_to_last : VisitOrder
first_to_last = record { visit = λ xs. xs; visit_perm = λ xs. Permᴰ-refl xs }

-- A stand-in for the hash.
abbrev pub plain : String → String
plain s = s

abbrev pub meta_of : String → String → ObjectMeta
meta_of name namespace = record {
  name = name;
  namespace = namespace;
  uid = name;
  generation = 1;
  resource_version = "1";
  deletion_timestamp = none;
  finalizers = [];
  labels = [];
  annotations = [];
}

-- The projects `web` in the space `main`.
abbrev pub web_scope : WorkloadServiceAccountScope
web_scope = record {
  projects = "web" ∷ [];
  project_groups = [];
  environments = [];
  tenants = [];
  steps = [];
  spaces = "main" ∷ [];
}

abbrev pub prod_scope : WorkloadServiceAccountScope
prod_scope = record {
  projects = [];
  project_groups = [];
  environments = "prod" ∷ [];
  tenants = [];
  steps = [];
  spaces = [];
}

abbrev pub deployer : WorkloadServiceAccount
deployer = record {
  meta = meta_of "deployer" "team";
  spec = record {
    scope = web_scope;
    permissions = record { cluster_roles = []; roles = []; permissions = [] };
  };
}

abbrev pub auditor : ClusterWorkloadServiceAccount
auditor = record {
  meta = meta_of "auditor" "";
  spec = record {
    scope = prod_scope;
    permissions = record { cluster_roles = []; permissions = [] };
  };
}

abbrev pub web : WsaResource
web = wsa_adapter deployer

abbrev pub prod : WsaResource
prod = cluster_wsa_adapter auditor

abbrev pub resources : List WsaResource
resources = web ∷ prod ∷ []

web-IsLiteral : IsLiteral web
unfolding scope_slice get_scope
web-IsLiteral project_index = refl
web-IsLiteral project_group_index = refl
web-IsLiteral environment_index = refl
web-IsLiteral tenant_index = refl
web-IsLiteral step_index = refl
web-IsLiteral space_index = refl

prod-IsLiteral : IsLiteral prod
unfolding scope_slice get_scope
prod-IsLiteral project_index = refl
prod-IsLiteral project_group_index = refl
prod-IsLiteral environment_index = refl
prod-IsLiteral tenant_index = refl
prod-IsLiteral step_index = refl
prod-IsLiteral space_index = refl

pub resources-IsLiteral : (r : WsaResource) → Memᴰ r resources → IsLiteral r
resources-IsLiteral r (Memᴰ.head e) d = rw e (web-IsLiteral d)
resources-IsLiteral r (Memᴰ.tail (Memᴰ.head e)) d = rw e (prod-IsLiteral d)
resources-IsLiteral r (Memᴰ.tail (Memᴰ.tail m)) d = elim m [ ]

-- A workload that both resources apply to.
abbrev pub web_in_prod : Scope
web_in_prod = record {
  project = "web";
  project_group = "";
  environment = "prod";
  tenant = "";
  step = "";
  space = "main";
}

-- A binding and an account that the controller made for something that is gone, and a binding that
-- is not the controller's.
abbrev pub orphan : String → ObjectMeta
orphan name = record (meta_of name "team") { labels = (managed_by_label, managed_by_value) ∷ [] }

abbrev pub binding_of : ObjectMeta → Binding
binding_of meta = record {
  meta = meta;
  role_ref = record { api_group = ""; kind = "Role"; name = "reader" };
  subjects = [];
}

-- The objects that were deleted, and the configurations that were applied, the last first.
abbrev pub Recorded : Type 0
Recorded = List ObjectMeta × List ApplyConfiguration

abbrev pub nothing : Recorded
nothing = ([], [])

-- An API server that lists the two resources, the orphans and a foreign binding, and that applies
-- and deletes whatever it is asked to.
abbrev pub recorder : Client
recorder = record {
  State = Recorded;
  apply = λ configuration s. (none, (s.0, configuration ∷ s.1));
  delete = λ kind meta s. (found tt, (meta ∷ s.0, s.1));
  list_wsas = λ s. ok (deployer ∷ []);
  list_cluster_wsas = λ s. ok (auditor ∷ []);
  list_service_accounts = λ s. ok [];
  list_matching_service_accounts = λ key value s. ok (record { meta = orphan "octopus-sa-0" } ∷ []);
  list_roles = λ s. ok [];
  list_cluster_roles = λ s. ok [];
  list_role_bindings =
      λ s. ok (binding_of (orphan "old") ∷ binding_of (meta_of "foreign" "team") ∷ []);
  list_cluster_role_bindings = λ s. ok [];
  list_agent_deployments = λ s. ok ("octopus-agent-a" ∷ []);
  get_service_account = λ key s. not_found;
  get_role = λ key s. not_found;
  get_namespace = λ name s. found tt;
}
