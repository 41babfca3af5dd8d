-- ===== src/Rules/ScopeMap/Laws.antt =====
-- The scope map binds to each scope the resources that cover it, and building it never panics.
use mathlib.Core.Bool.{and-true, and-false}
use native.Mathlib.Nat.{zero-add}
use octopus_permissions_cont.Prelude.{
  ℕ, List, [], ◌∷◌, some, map, Bool, true, false, ◌&&◌, any, any_congr, any-and_right, Set,
  contains, Map, lookup, has_key, UniqueKeys-of_perm, lookup_of_perm, or_default, get_elem?,
  VisitOrder, nat_eq, ◌==◌, ◌≡◌, refl, ◌∙◌, ap,
}
use octopus_permissions_cont.Api.{NamespacedName, name_eq}
use octopus_permissions_cont.Rules.Scope.{Scope, scope_eq}
use octopus_permissions_cont.Rules.Resource.{WsaResource, get_namespaced_name}
use octopus_permissions_cont.Rules.Vocabulary.{GlobalVocabulary}
use octopus_permissions_cont.Rules.Coverage.{compute_wsa_coverage}
use octopus_permissions_cont.Rules.ScopeMap.{
  ScopeMap, find_scope_intersections, build_scope_to_wsa_mapping,
  compute_minimal_service_account_scopes,
}
use octopus_permissions_cont.Rules.ScopeMap.Indices.{
  indices_of, any-indices, any-hits, find_scope_intersections-UniqueKeys,
}
use octopus_permissions_cont.Rules.ScopeMap.Build.{
  at_position, named, out_of_range, bound_in, InRange-of_all, Fresh-nil, build_from_lem,
}

-- What the scope map says: the entry of a scope holds the resources that cover it, and a scope
-- that no resource covers has no entry.
pub record IsScopeMap (o : VisitOrder) (v : GlobalVocabulary) (rs : List WsaResource) (m : ScopeMap)
    : Type 0 where
  pub bound :
      (s : Scope) (n : NamespacedName)
      → bound_in m s n
        ≡ any (λ r. contains (compute_wsa_coverage o r v) s && get_namespaced_name r == n) rs
  pub keys : (s : Scope) → has_key m s ≡ any (λ r. contains (compute_wsa_coverage o r v) s) rs

module _ (o : VisitOrder) (v : GlobalVocabulary) (rs : List WsaResource) where
  abbrev coverage : WsaResource → Set Scope
  coverage r = compute_wsa_coverage o r v

  abbrev intersections : Map Scope (Set ℕ)
  intersections = find_scope_intersections o (map coverage rs)

  any-visited :
      (f : ℕ → Bool) (g : WsaResource → Bool) (s : Scope)
      → ((k : ℕ) (r : WsaResource) → get_elem? rs k ≡ some r → f k ≡ g r)
      → any f (indices_of (o.visit intersections) s) ≡ any (λ r. contains (coverage r) s && g r) rs
  any-visited f g s h =
      ap (λ x. any f (or_default [] x))
        (lookup_of_perm s (o.visit_perm intersections) (find_scope_intersections-UniqueKeys o _))
      ∙ any-indices o f (map coverage rs) s
      ∙ any-hits coverage s g rs 0 f (λ k r e. ap f (zero-add k) ∙ h k r e)

  build_lem :
      (m : ScopeMap) × (build_scope_to_wsa_mapping o intersections rs ≡ some m)
      × IsScopeMap o v rs m
  unfolding build_scope_to_wsa_mapping named out_of_range at_position lookup
  build_lem =
      let unique =
        UniqueKeys-of_perm (o.visit_perm intersections)
          (find_scope_intersections-UniqueKeys o (map coverage rs)) in
      let (m, made, built) =
        build_from_lem rs o (o.visit intersections) [] unique
          (InRange-of_all rs (o.visit intersections) unique λ s.
            any-visited (out_of_range rs) (λ _. false) s
              (λ k r e. ap (at_position true (λ _. false)) e)
            ∙ any-and_right (λ r. contains (coverage r) s) false rs
            ∙ and-false _)
          (Fresh-nil rs _) in
      (
        m,
        made,
        record {
          bound = λ s n.
              built.bound s n
              ∙ any-visited (named rs n) (λ r. get_namespaced_name r == n) s
                  (λ k r e. ap (at_position false (λ r'. get_namespaced_name r' == n)) e);
          keys = λ s.
              built.keys s
              ∙ any-visited (λ _. true) (λ _. true) s (λ k r e. refl)
              ∙ any_congr _ _ rs (λ r _. and-true (contains (coverage r) s));
        },
      )

-- For any vocabulary and any order of visits, the scope map is built without a panic. The entry of
-- a scope binds the names of exactly the resources whose coverage has the scope, and a scope that
-- no resource covers has no entry.
pub compute_minimal_service_account_scopes_lem :
    (o : VisitOrder) (v : GlobalVocabulary) (rs : List WsaResource)
    → (m : ScopeMap) × (compute_minimal_service_account_scopes o rs v ≡ some m)
      × IsScopeMap o v rs m
unfolding compute_minimal_service_account_scopes lookup
compute_minimal_service_account_scopes_lem o v [] =
    ([], refl, record { bound = λ s n. refl; keys = λ s. refl })
compute_minimal_service_account_scopes_lem o v (r ∷ rs) = build_lem o v (r ∷ rs)
