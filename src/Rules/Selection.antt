-- ===== src/Rules/Selection.antt =====
-- The scope map against the meaning of the resources' scopes.
pub mod Agreement
use octopus_permissions_cont.Prelude.{
  List, some, ◌&&◌, any, any_congr, Memᴰ, has_key, VisitOrder, ◌>>=◌, ◌==◌, ◌≡◌, ◌∙◌, ap,
}
use octopus_permissions_cont.Api.{NamespacedName, name_eq}
use octopus_permissions_cont.Rules.Scope.{Scope, scope_eq}
use octopus_permissions_cont.Rules.Resource.{WsaResource, get_namespaced_name}
use octopus_permissions_cont.Rules.Vocabulary.{
  GlobalVocabulary, build_global_vocabulary, get_known_scope_combination,
}
use octopus_permissions_cont.Rules.Coverage.Laws.{applies_to, IsLiteral, contains-known_scope}
use octopus_permissions_cont.Rules.ScopeMap.{ScopeMap, compute_scopes_for_wsas}
use octopus_permissions_cont.Rules.ScopeMap.Build.{bound_in}
use octopus_permissions_cont.Rules.ScopeMap.Laws.{compute_minimal_service_account_scopes_lem}

-- The entry that a workload's scope is looked up by binds the resources that apply to the scope.
pub record Selects (rs : List WsaResource) (m : ScopeMap) (v : GlobalVocabulary) : Type 0 where
  pub bound :
      (s : Scope) (n : NamespacedName)
      → bound_in m (get_known_scope_combination v s) n
        ≡ any (λ r. applies_to r s && get_namespaced_name r == n) rs
  pub found :
      (s : Scope) → has_key m (get_known_scope_combination v s) ≡ any (λ r. applies_to r s) rs

-- Whatever order Go visits its maps in, the scopes of a list of resources that list no wildcard
-- value are computed without a panic. A scope's known combination then has an entry exactly if
-- some resource applies to the scope, and that entry holds the names of those resources alone.
pub compute_scopes_for_wsas-Selects :
    (o : VisitOrder) (rs : List WsaResource)
    → ((r : WsaResource) → Memᴰ r rs → IsLiteral r)
    → (m : ScopeMap) × (v : GlobalVocabulary) × (compute_scopes_for_wsas o rs ≡ some (m, v))
      × Selects rs m v
unfolding compute_scopes_for_wsas
compute_scopes_for_wsas-Selects o rs literal =
    let v = build_global_vocabulary rs in
    let (m, made, spec) = compute_minimal_service_account_scopes_lem o v rs in
    (
      m,
      v,
      ap (λ c. c >>= λ m'. some (m', v)) made,
      record {
        bound = λ s n.
            spec.bound (get_known_scope_combination v s) n
            ∙ any_congr _ _ rs λ r h.
              ap (λ b. b && get_namespaced_name r == n)
                (contains-known_scope rs r h (literal r h) s o);
        found = λ s.
            spec.keys (get_known_scope_combination v s)
            ∙ any_congr _ _ rs λ r h. contains-known_scope rs r h (literal r h) s o;
      },
    )
