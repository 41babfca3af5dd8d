-- ===== src/Webhook/Validator/Laws.antt =====
-- internal/webhook/v1beta1/workloadserviceaccount_webhook.go: what the validator keeps out.
use octopus_permissions_cont.Prelude.{
  ◌+◌, String, Bool, true, false, List, [], ◌∷◌, none, some, null, length, if◌then◌else◌, nat_eq,
  string_eq, ◌==◌, ◌≡◌, ◌↔◌, refl, arith,
}
use octopus_permissions_cont.Api.{WorkloadServiceAccount}
use octopus_permissions_cont.Rules.Scope.{
  Scope, DimensionIndex, value_at, project_index, project_group_index, environment_index,
  tenant_index, step_index, space_index,
}
use octopus_permissions_cont.Rules.Resource.{wsa_adapter, get_scope}
use octopus_permissions_cont.Rules.Vocabulary.{scope_slice}
use octopus_permissions_cont.Rules.Vocabulary.Laws.{lists}
use octopus_permissions_cont.Rules.Coverage.Laws.{applies_to}
use octopus_permissions_cont.Webhook.Validator.{validate_create}

-- No value of the scope is listed by the resource.
abbrev pub IsStranger : Scope → WorkloadServiceAccount → Type 0
IsStranger s w = (d : DimensionIndex) → lists d (value_at d s) (wsa_adapter w) ≡ false

null-length : (xs : List String) → null xs ≡ (length xs == 0)
null-length [] = refl
null-length (x ∷ xs) = ground arith

applies_to_stranger :
    (w : WorkloadServiceAccount) (s : Scope)
    → IsStranger s w
    → applies_to (wsa_adapter w) s ≡ (
        length w.spec.scope.projects
          + length w.spec.scope.project_groups
          + length w.spec.scope.environments
          + length w.spec.scope.tenants
          + length w.spec.scope.steps
          + length w.spec.scope.spaces
        == 0)
unfolding get_scope scope_slice
applies_to_stranger w s stranger =
    rw
      (
        stranger project_index,
        stranger project_group_index,
        stranger environment_index,
        stranger tenant_index,
        stranger step_index,
        stranger space_index,
        null-length w.spec.scope.projects,
        null-length w.spec.scope.project_groups,
        null-length w.spec.scope.environments,
        null-length w.spec.scope.tenants,
        null-length w.spec.scope.steps,
        null-length w.spec.scope.spaces,
      )
      (ground arith)

none_of_if : (b : Bool) (e : String) → ((if b then some e else none) ≡ none) ↔ (b ≡ false)
none_of_if true e = (λ h. ground arith, λ h. ground arith)
none_of_if false e = (λ h. refl, λ h. refl)

-- The validator accepts a resource exactly if the resource does not apply to the workloads that
-- it says nothing about: to those in a scope that has none of the values it lists.
pub validate_create-applies_to :
    (w : WorkloadServiceAccount) (s : Scope)
    → IsStranger s w
    → (validate_create w ≡ none) ↔ (applies_to (wsa_adapter w) s ≡ false)
unfolding validate_create
validate_create-applies_to w s stranger = rw (applies_to_stranger w s stranger) (none_of_if _ _)
