-- ===== src/Webhook/Pod.antt =====
-- internal/webhook/v1/pod_webhook.go: the defaulter that every replica runs on a pod.
pub mod Laws
use octopus_permissions_cont.Prelude.{
  String, Bool, true, false, List, [], ◌∷◌, ◌++◌, Option, none, some, map, Map, lookup, lookup_or,
  if◌then◌else◌, string_eq, ◌==◌,
}
use octopus_permissions_cont.Rules.Scope.{Scope, is_empty}
use octopus_permissions_cont.Engine.{InMemoryEngine, service_account_for_scope}

abbrev pub enabled_label_key : String
enabled_label_key = "agent.octopus.com/permissions"

abbrev pub opc_version_env_var_key : String
opc_version_env_var_key = "OCTOPUS__K8STENTACLE__OPCVERSION"

-- `corev1.EnvVar`, `corev1.Container` and `corev1.Pod`: what the webhook reads or writes.
pub record EnvVar : Type 0 where
  pub name : String
  pub value : String

pub record Container : Type 0 where
  pub name : String
  pub env : List EnvVar

pub record Pod : Type 0 where
  pub labels : Map String String
  pub annotations : Map String String
  pub service_account_name : String
  pub containers : List Container
  pub init_containers : List Container

-- The label that a counter and a histogram get.
pub data WebhookResult : Type 0 where
  success skipped : WebhookResult

unfoldable pub should_run_on_pod : Pod → Bool
should_run_on_pod p = elim (lookup enabled_label_key p.labels) [
  | none ↦ false
  | some v ↦ if v == "enabled" then true else false
]

-- An annotation that is missing leaves its field empty.
unfoldable pub get_pod_scope : Pod → Scope
get_pod_scope p = record {
  project = lookup_or "" "agent.octopus.com/project" p.annotations;
  project_group = lookup_or "" "agent.octopus.com/project-group" p.annotations;
  environment = lookup_or "" "agent.octopus.com/environment" p.annotations;
  tenant = lookup_or "" "agent.octopus.com/tenant" p.annotations;
  step = lookup_or "" "agent.octopus.com/step" p.annotations;
  space = lookup_or "" "agent.octopus.com/space" p.annotations;
}

-- The loop over the variables of a container: the first of the name is set, or one is added.
unfoldable pub set_version : String → List EnvVar → List EnvVar
set_version version [] = record { name = opc_version_env_var_key; value = version } ∷ []
set_version version (v ∷ rest) =
    if v.name == opc_version_env_var_key
    then record v { value = version } ∷ rest
    else v ∷ set_version version rest

unfoldable pub inject_into : String → List Container → List Container
unfolding set_version
inject_into version [] = []
inject_into version (c ∷ rest) =
    record c { env = set_version version c.env } ∷ inject_into version rest

unfoldable pub inject_version_environment_variable : String → Pod → Pod
unfolding inject_into
inject_version_environment_variable version p = record p {
  containers = inject_into version p.containers;
  init_containers = inject_into version p.init_containers;
}

abbrev pub with_account : String → Pod → Pod
with_account name p = if name == "" then p else record p { service_account_name = name }

-- `Default` after its two tests: whether the pod has the label, and whether its scope is empty.
abbrev pub respond : InMemoryEngine → String → Pod → Bool → Bool → WebhookResult × Pod
respond engine version p false empty = (skipped, p)
respond engine version p true true = (skipped, inject_version_environment_variable version p)
respond engine version p true false = (
  success,
  with_account (service_account_for_scope engine (get_pod_scope p))
      (inject_version_environment_variable version p),
)

-- `Default`. The engine's lookup never fails, so no error is returned.
unfoldable pub default : InMemoryEngine → String → Pod → WebhookResult × Pod
default engine version p =
    respond engine version p (should_run_on_pod p) (is_empty (get_pod_scope p))
