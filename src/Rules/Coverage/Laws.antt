-- ===== src/Rules/Coverage/Laws.antt =====
-- Coverage against the meaning of a resource's scope.
use octopus_permissions_cont.Prelude.{
  String, Bool, true, false, List, ◌||◌, all, all_congr, null, any_of_mem, Memᴰ, contains,
  contains-insert, contains-from_list, VisitOrder, string_eq, ◌==◌, ==_refl, ◌≡◌, ◌∙◌, arith,
  Bool-cases, inl, inr, if◌then◌else◌,
}
use octopus_permissions_cont.Rules.Scope.{
  Scope, scope_eq, DimensionIndex, dimensions, value_at, wildcard_value,
}
use octopus_permissions_cont.Rules.Resource.{WsaResource, get_scope}
use octopus_permissions_cont.Rules.Vocabulary.{
  GlobalVocabulary, known_values, known_value, scope_slice, build_global_vocabulary,
  get_known_scope_combination,
}
use octopus_permissions_cont.Rules.Vocabulary.Laws.{
  lists, contains-build_global_vocabulary, value_at-known,
}
use octopus_permissions_cont.Rules.Coverage.{dimension_coverage, compute_wsa_coverage}
use octopus_permissions_cont.Rules.Coverage.Product.{contains-compute_wsa_coverage}

-- What a resource's scope means in one dimension: a value that it lists, or any value if it lists
-- none.
abbrev pub applies_at : WsaResource → Scope → DimensionIndex → Bool
applies_at r s d = null (scope_slice (get_scope r) d) || lists d (value_at d s) r

-- The resource applies to a workload in the scope: it does so in each of the six dimensions.
abbrev pub applies_to : WsaResource → Scope → Bool
applies_to r s = all (applies_at r s) dimensions

-- No dimension of the resource lists the wildcard itself, which the CRD's patterns rule out.
abbrev pub IsLiteral : WsaResource → Type 0
IsLiteral r = (d : DimensionIndex) → lists d wildcard_value r ≡ false

-- The values that a resource covers in a dimension.
pub contains-dimension_coverage :
    (r : WsaResource) (v : GlobalVocabulary) (d : DimensionIndex) (x : String)
    → contains (dimension_coverage r v d) x ≡ (
        if null (scope_slice (get_scope r) d)
        then wildcard_value == x || contains (known_values v d) x
        else lists d x r)
unfolding dimension_coverage
contains-dimension_coverage r v d x = ground (
  arith,
  contains-insert wildcard_value x (known_values v d),
  contains-from_list (scope_slice (get_scope r) d) x,
)

module _ (rs : List WsaResource) (r : WsaResource) (listed : Memᴰ r rs) (literal : IsLiteral r)
    (s : Scope) where
  abbrev vocabulary : GlobalVocabulary
  vocabulary = build_global_vocabulary rs

  listed-known :
      (d : DimensionIndex) (x : String)
      → lists d x r ≡ true
      → contains (known_values vocabulary d) x ≡ true
  listed-known d x h =
      contains-build_global_vocabulary rs d x ∙ any_of_mem (lists d x) rs r listed h

  covered-known :
      (d : DimensionIndex)
      → contains
          (dimension_coverage r vocabulary d)
          (value_at d (get_known_scope_combination vocabulary s))
        ≡ applies_at r s d
  unfolding known_value
  covered-known d =
      rw
        (
          value_at-known vocabulary d s,
          contains-dimension_coverage r vocabulary d (known_value vocabulary d s),
        )
        (elim (Bool-cases (contains (known_values vocabulary d) (value_at d s))) [
          | inl known ↦ rw known (ground (arith, known))
          | inr unknown ↦ rw unknown (
              ground
                (arith, unknown, literal d, ==_refl wildcard_value, listed-known d (value_at d s)))
        ])

  -- For a resource of the list that lists no wildcard value, the known combination of a scope is in
  -- the coverage of the resource exactly if the resource applies to the scope: in each dimension it
  -- lists the value of the scope or lists none.
  pub contains-known_scope :
      (o : VisitOrder)
      → contains (compute_wsa_coverage o r vocabulary) (get_known_scope_combination vocabulary s)
        ≡ applies_to r s
  contains-known_scope o =
      contains-compute_wsa_coverage o r vocabulary (get_known_scope_combination vocabulary s)
      ∙ all_congr _ (applies_at r s) dimensions covered-known
