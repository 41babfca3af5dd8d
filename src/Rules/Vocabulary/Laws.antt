-- ===== src/Rules/Vocabulary/Laws.antt =====
-- The vocabulary of a list of resources: the values that they list.
use octopus_permissions_cont.Prelude.{
  String, Bool, List, [], ◌∷◌, ◌||◌, any, contains, contains-insert_all, string_eq, ◌≡◌, arith,
}
use octopus_permissions_cont.Rules.Scope.{
  Scope, DimensionIndex, project_index, project_group_index, environment_index, tenant_index,
  step_index, space_index, value_at,
}
use octopus_permissions_cont.Rules.Resource.{WsaResource, get_scope}
use octopus_permissions_cont.Rules.Vocabulary.{
  GlobalVocabulary, known_values, scope_slice, known_value, get_known_scope_combination,
  new_global_vocabulary, add_resource, add_resources, build_global_vocabulary,
}

-- The resource lists the value in the dimension.
abbrev pub lists : DimensionIndex → String → WsaResource → Bool
lists d x r = contains (scope_slice (get_scope r) d) x

contains-add_resource :
    (v : GlobalVocabulary) (r : WsaResource) (d : DimensionIndex) (x : String)
    → contains (known_values (add_resource v r) d) x
      ≡ (lists d x r || contains (known_values v d) x)
unfolding add_resource known_values scope_slice
contains-add_resource v r project_index x = contains-insert_all _ v.projects x
contains-add_resource v r project_group_index x = contains-insert_all _ v.project_groups x
contains-add_resource v r environment_index x = contains-insert_all _ v.environments x
contains-add_resource v r tenant_index x = contains-insert_all _ v.tenants x
contains-add_resource v r step_index x = contains-insert_all _ v.steps x
contains-add_resource v r space_index x = contains-insert_all _ v.spaces x

contains-add_resources :
    (v : GlobalVocabulary) (rs : List WsaResource) (d : DimensionIndex) (x : String)
    → contains (known_values (add_resources v rs) d) x
      ≡ (any (lists d x) rs || contains (known_values v d) x)
unfolding add_resources
contains-add_resources v [] d x = ground arith
contains-add_resources v (r ∷ rs) d x =
    ground (arith, contains-add_resources (add_resource v r) rs d x, contains-add_resource v r d x)

known_values-new : (d : DimensionIndex) → known_values new_global_vocabulary d ≡ []
unfolding known_values new_global_vocabulary
known_values-new d = ground arith

-- A value is known in a dimension exactly if some resource lists it there.
pub contains-build_global_vocabulary :
    (rs : List WsaResource) (d : DimensionIndex) (x : String)
    → contains (known_values (build_global_vocabulary rs) d) x ≡ any (lists d x) rs
unfolding build_global_vocabulary
contains-build_global_vocabulary rs d x =
    ground (arith, contains-add_resources new_global_vocabulary rs d x, known_values-new d)

-- The known combination of a scope, a dimension at a time.
pub value_at-known :
    (v : GlobalVocabulary) (d : DimensionIndex) (s : Scope)
    → value_at d (get_known_scope_combination v s) ≡ known_value v d s
unfolding value_at get_known_scope_combination
value_at-known v d s = ground arith
