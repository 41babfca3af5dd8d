-- ===== src/Rules/Selection/Agreement.antt =====
-- Replicas that list the same resources, in whatever order, compute scope maps with the same view.
use octopus_permissions_cont.Prelude.{
  String, Bool, ◌&&◌, List, all, any, any_congr, contains, null, if◌then◌else◌, VisitOrder,
  string_eq, ◌==◌, ◌≡◌, sym, ◌∙◌, ap, ◌||◌,
}
use octopus_permissions_cont.Api.{name_eq}
use octopus_permissions_cont.Rules.Scope.{
  Scope, scope_eq, DimensionIndex, dimensions, value_at, wildcard_value,
}
use octopus_permissions_cont.Rules.Resource.{WsaResource, get_namespaced_name, get_scope}
use octopus_permissions_cont.Rules.Vocabulary.{
  GlobalVocabulary, build_global_vocabulary, known_values, known_value, get_known_scope_combination,
  scope_slice,
}
use octopus_permissions_cont.Rules.Vocabulary.Laws.{lists, contains-build_global_vocabulary}
use octopus_permissions_cont.Rules.Coverage.{compute_wsa_coverage, dimension_coverage}
use octopus_permissions_cont.Rules.Coverage.Laws.{contains-dimension_coverage}
use octopus_permissions_cont.Rules.Coverage.Product.{contains-compute_wsa_coverage}
use octopus_permissions_cont.Rules.ScopeMap.{ScopeMap}
use octopus_permissions_cont.Rules.ScopeMap.Laws.{IsScopeMap}
use octopus_permissions_cont.Rules.ScopeMap.Proper.{SameView}

-- No test tells the two lists apart: they list the same resources.
abbrev pub SameResources : List WsaResource → List WsaResource → Type 0
SameResources rs₁ rs₂ = (p : WsaResource → Bool) → any p rs₁ ≡ any p rs₂

module _ (rs₁ rs₂ : List WsaResource) (same : SameResources rs₁ rs₂) where
  abbrev v₁ : GlobalVocabulary
  v₁ = build_global_vocabulary rs₁

  abbrev v₂ : GlobalVocabulary
  v₂ = build_global_vocabulary rs₂

  known_values-same :
      (d : DimensionIndex) (x : String)
      → contains (known_values v₁ d) x ≡ contains (known_values v₂ d) x
  known_values-same d x =
      contains-build_global_vocabulary rs₁ d x
      ∙ same (lists d x)
      ∙ sym (contains-build_global_vocabulary rs₂ d x)

  known_value-same : (d : DimensionIndex) (s : Scope) → known_value v₁ d s ≡ known_value v₂ d s
  unfolding known_value
  known_value-same d s =
      ap (λ b. if b then value_at d s else wildcard_value) (known_values-same d (value_at d s))

  pub get_known_scope_combination-same :
      (s : Scope) → get_known_scope_combination v₁ s ≡ get_known_scope_combination v₂ s
  unfolding get_known_scope_combination
  get_known_scope_combination-same s = λ i. record {
    project = known_value-same DimensionIndex.project_index s i;
    project_group = known_value-same DimensionIndex.project_group_index s i;
    environment = known_value-same DimensionIndex.environment_index s i;
    tenant = known_value-same DimensionIndex.tenant_index s i;
    step = known_value-same DimensionIndex.step_index s i;
    space = known_value-same DimensionIndex.space_index s i;
  }

  dimension_coverage-same :
      (r : WsaResource) (d : DimensionIndex) (x : String)
      → contains (dimension_coverage r v₁ d) x ≡ contains (dimension_coverage r v₂ d) x
  dimension_coverage-same r d x =
      contains-dimension_coverage r v₁ d x
      ∙ ap
          (λ b.
            if null (scope_slice (get_scope r) d) then wildcard_value == x || b else lists d x r)
          (known_values-same d x)
      ∙ sym (contains-dimension_coverage r v₂ d x)

  module _ (o₁ o₂ : VisitOrder) where
    coverage-same :
        (r : WsaResource) (s : Scope)
        → contains (compute_wsa_coverage o₁ r v₁) s ≡ contains (compute_wsa_coverage o₂ r v₂) s
    coverage-same r s =
        contains-compute_wsa_coverage o₁ r v₁ s
        ∙ (λ i. all (λ d. dimension_coverage-same r d (value_at d s) i) dimensions)
        ∙ sym (contains-compute_wsa_coverage o₂ r v₂ s)

    -- Their scope maps have the same scopes with the same names, whatever order each visits its
    -- maps in.
    pub IsScopeMap-SameView :
        (m₁ m₂ : ScopeMap) → IsScopeMap o₁ v₁ rs₁ m₁ → IsScopeMap o₂ v₂ rs₂ m₂ → SameView m₁ m₂
    IsScopeMap-SameView m₁ m₂ spec₁ spec₂ = record {
      scopes = λ s.
          spec₁.keys s
          ∙ any_congr _ _ rs₁ (λ r _. coverage-same r s)
          ∙ same (λ r. contains (compute_wsa_coverage o₂ r v₂) s)
          ∙ sym (spec₂.keys s);
      bound = λ s n.
          spec₁.bound s n
          ∙ any_congr _ _ rs₁ (λ r _. ap (λ b. b && get_namespaced_name r == n) (coverage-same r s))
          ∙ same (λ r. contains (compute_wsa_coverage o₂ r v₂) s && get_namespaced_name r == n)
          ∙ sym (spec₂.bound s n);
    }
