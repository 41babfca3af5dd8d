-- ===== src/Webhook/Validator.antt =====
-- internal/webhook/v1beta1/workloadserviceaccount_webhook.go.
pub mod Laws
use octopus_permissions_cont.Prelude.{
  ℕ, ◌+◌, Option, none, some, String, length, if◌then◌else◌, ◌==◌, nat_eq, ◌≡◌, ◌↔◌, all, null,
  arith, true, false, Bool, not,
}
use octopus_permissions_cont.Api.{WorkloadServiceAccount, WorkloadServiceAccountScope}
use octopus_permissions_cont.Rules.Scope.{DimensionIndex, dimensions}
use octopus_permissions_cont.Rules.Vocabulary.{scope_slice}

-- The error of `ValidateCreate`. There are no warnings.
unfoldable pub validate_create : WorkloadServiceAccount → Option String
validate_create w =
    let scope = w.spec.scope in
    if length scope.projects
        + length scope.project_groups
        + length scope.environments
        + length scope.tenants
        + length scope.steps
        + length scope.spaces
      == 0
    then some
        "at least one scope must be defined (projects, project-groups, environments, tenants, steps, or spaces)"
    else none
