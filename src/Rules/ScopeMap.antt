-- ===== src/Rules/ScopeMap.antt =====
-- internal/rules/generator.go: which resources apply to each scope. `none` is a panic.
pub mod Indices
pub mod Build
pub mod Laws
pub mod Proper
use octopus_permissions_cont.Prelude.{
  ℕ, suc, true, false, List, [], ◌∷◌, Option, none, some, foldl, map, null, Set, insert, Map, put,
  lookup_or, get_elem?, ◌>>=◌, VisitOrder, nat_eq,
}
use octopus_permissions_cont.Api.{NamespacedName, name_eq}
use octopus_permissions_cont.Rules.Scope.{Scope, scope_eq}
use octopus_permissions_cont.Rules.Resource.{WsaResource, get_namespaced_name}
use octopus_permissions_cont.Rules.Vocabulary.{GlobalVocabulary, build_global_vocabulary}
use octopus_permissions_cont.Rules.Coverage.{compute_wsa_coverage}

-- `map[types.NamespacedName]WSAResource`, and the map from scopes to those.
abbrev pub WsaMap : Type 0
WsaMap = Map NamespacedName WsaResource

abbrev pub ScopeMap : Type 0
ScopeMap = Map Scope WsaMap

-- The inner loop of `buildScopeToWSAMapping`.
unfoldable pub collect : List WsaResource → List ℕ → WsaMap → Option WsaMap
collect resources [] acc = some acc
collect resources (i ∷ is) acc =
    get_elem? resources i >>= λ r. collect resources is (put (get_namespaced_name r) r acc)

module _ (o : VisitOrder) where
  open o use {visit}

  -- The inner loop of `findScopeIntersections`. A missing set reads as an empty one.
  unfoldable pub track : ℕ → Set Scope → Map Scope (Set ℕ) → Map Scope (Set ℕ)
  track i coverage m =
      foldl (λ acc scope. put scope (insert i (lookup_or [] scope acc)) acc) m (visit coverage)

  unfoldable pub find_from : ℕ → List (Set Scope) → Map Scope (Set ℕ) → Map Scope (Set ℕ)
  find_from i [] m = m
  find_from i (coverage ∷ rest) m = find_from (suc i) rest (track i coverage m)

  unfoldable pub find_scope_intersections : List (Set Scope) → Map Scope (Set ℕ)
  unfolding find_from track
  find_scope_intersections coverages = find_from 0 coverages []

  unfoldable pub build_from : List WsaResource → Map Scope (Set ℕ) → ScopeMap → Option ScopeMap
  unfolding collect
  build_from resources [] acc = some acc
  build_from resources ((scope, indices) ∷ rest) acc = elim (null indices) [
    | true ↦ build_from resources rest acc
    | false ↦
        collect resources (visit indices) [] >>= λ m. build_from resources rest (put scope m acc)
  ]

  unfoldable pub build_scope_to_wsa_mapping : Map Scope (Set ℕ) → List WsaResource → Option ScopeMap
  unfolding build_from
  build_scope_to_wsa_mapping intersections resources = build_from resources (visit intersections) []

  unfoldable pub compute_minimal_service_account_scopes :
      List WsaResource → GlobalVocabulary → Option ScopeMap
  unfolding find_scope_intersections build_scope_to_wsa_mapping
  compute_minimal_service_account_scopes [] v = some []
  compute_minimal_service_account_scopes (r ∷ rs) v =
      build_scope_to_wsa_mapping
        (find_scope_intersections (map (λ w. compute_wsa_coverage o w v) (r ∷ rs))) (r ∷ rs)

  -- `getScopesForWSAs` and `ComputeScopesForWSAs`.
  unfoldable pub compute_scopes_for_wsas : List WsaResource → Option (ScopeMap × GlobalVocabulary)
  unfolding compute_minimal_service_account_scopes
  compute_scopes_for_wsas resources =
      let vocabulary = build_global_vocabulary resources in
      compute_minimal_service_account_scopes resources vocabulary >>= λ m. some (m, vocabulary)
