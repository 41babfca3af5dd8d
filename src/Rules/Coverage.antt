-- ===== src/Rules/Coverage.antt =====
-- internal/rules/generator.go: the scopes that one resource covers.
pub mod Product
pub mod Laws
use octopus_permissions_cont.Prelude.{
  String, List, [], ◌∷◌, foldl, null, Set, insert, from_list, if◌then◌else◌, VisitOrder, string_eq,
}
use octopus_permissions_cont.Rules.Scope.{
  Scope, scope_eq, zero_scope, DimensionIndex, dimensions, with_value, wildcard_value,
}
use octopus_permissions_cont.Rules.Resource.{WsaResource, get_scope}
use octopus_permissions_cont.Rules.Vocabulary.{GlobalVocabulary, known_values, scope_slice}

-- The loop over the dimensions in `computeWSACoverage`: an empty list stands for every known value
-- and the wildcard.
unfoldable pub dimension_coverage : WsaResource → GlobalVocabulary → DimensionIndex → Set String
dimension_coverage r v d =
    let values = scope_slice (get_scope r) d in
    if null values then insert wildcard_value (known_values v d) else from_list values

module _ (o : VisitOrder) where
  open o use {visit}

  -- The dimensions that are left stand for `currentDim`.
  unfoldable pub generate_scope_combinations :
      List DimensionIndex → Scope → (DimensionIndex → Set String) → Set Scope → Set Scope
  generate_scope_combinations [] current sets result = insert current result
  generate_scope_combinations (d ∷ ds) current sets result =
      foldl (λ acc v. generate_scope_combinations ds (with_value d v current) sets acc) result
        (visit (sets d))

  unfoldable pub compute_wsa_coverage : WsaResource → GlobalVocabulary → Set Scope
  compute_wsa_coverage r v =
      generate_scope_combinations dimensions zero_scope (dimension_coverage r v) []
