-- ===== src/Examples/Admission.antt =====
-- The webhooks on the small installation.
use octopus_permissions_cont.Prelude.{
  true, false, List, [], ◌∷◌, none, any, lookup, ◌&&◌, if◌then◌else◌, ◌≡◌, ◌↔◌, refl,
}
use octopus_permissions_cont.Rules.Scope.{
  value_at, zero_scope, project_index, project_group_index, environment_index, tenant_index,
  step_index, space_index,
}
use octopus_permissions_cont.Rules.Resource.{wsa_adapter, get_scope}
use octopus_permissions_cont.Rules.Vocabulary.{scope_slice}
use octopus_permissions_cont.Rules.Coverage.Laws.{applies_to}
use octopus_permissions_cont.Engine.{
  InMemoryEngine, new_in_memory_engine, service_account_for_scope,
}
use octopus_permissions_cont.Engine.Laws.{as_engine, state_of_resources-Serves}
use octopus_permissions_cont.Webhook.Pod.{
  EnvVar, Container, Pod, default, should_run_on_pod, get_pod_scope,
}
use octopus_permissions_cont.Webhook.Pod.Laws.{
  HaveVersion, assigns, service_account_name-default, HaveVersion-default, default-default,
}
use octopus_permissions_cont.Webhook.Validator.{validate_create}
use octopus_permissions_cont.Webhook.Validator.Laws.{IsStranger, validate_create-applies_to}
use octopus_permissions_cont.Examples.Data.{
  deployer, first_to_last, plain, resources, resources-IsLiteral,
}

abbrev worker : Container
worker = record { name = "worker"; env = [] }

abbrev web_pod : Pod
web_pod = record {
  labels = ("agent.octopus.com/permissions", "enabled") ∷ [];
  annotations = ("agent.octopus.com/project", "web") ∷ ("agent.octopus.com/space", "main") ∷ [];
  service_account_name = "default";
  containers = worker ∷ [];
  init_containers = [];
}

-- An engine with the state of the two resources.
abbrev filled : InMemoryEngine
filled = as_engine (state_of_resources-Serves first_to_last plain resources resources-IsLiteral).0

account_example : (default filled "1.2.3" web_pod).1.service_account_name ≡ (
    if assigns web_pod && any (λ r. applies_to r (get_pod_scope web_pod)) resources
    then service_account_for_scope filled (get_pod_scope web_pod)
    else web_pod.service_account_name)
account_example =
    service_account_name-default filled "1.2.3" web_pod resources
      (state_of_resources-Serves first_to_last plain resources resources-IsLiteral).2

web_pod_runs : should_run_on_pod web_pod ≡ true
unfolding should_run_on_pod lookup
web_pod_runs = refl

version_example :
    HaveVersion "1.2.3" (default new_in_memory_engine "1.2.3" web_pod).1.containers
    × HaveVersion "1.2.3" (default new_in_memory_engine "1.2.3" web_pod).1.init_containers
version_example = HaveVersion-default new_in_memory_engine "1.2.3" web_pod web_pod_runs

again_example :
    default new_in_memory_engine "1.2.3" (default new_in_memory_engine "1.2.3" web_pod).1
    ≡ default new_in_memory_engine "1.2.3" web_pod
again_example = default-default new_in_memory_engine "1.2.3" web_pod

path_variable : List EnvVar
path_variable = record { name = "PATH"; value = "/bin" } ∷ []

stranger : IsStranger zero_scope deployer
unfolding scope_slice get_scope value_at
stranger project_index = refl
stranger project_group_index = refl
stranger environment_index = refl
stranger tenant_index = refl
stranger step_index = refl
stranger space_index = refl

validator_example :
    (validate_create deployer ≡ none) ↔ (applies_to (wsa_adapter deployer) zero_scope ≡ false)
validator_example = validate_create-applies_to deployer zero_scope stranger
