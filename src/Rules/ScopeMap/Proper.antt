-- ===== src/Rules/ScopeMap/Proper.antt =====
-- Scope maps as Go maps: no key stands twice, and what two replicas must share to see the same.
use mathlib.Core.Option.{some_inj}
use octopus_permissions_cont.Prelude.{
  map, ℕ, List, [], ◌∷◌, some, Set, Map, put, lookup, lookup_or, lookup-put, has_key, UniqueKeys,
  put-UniqueKeys, get_elem?, VisitOrder, ◌==◌, ◌≡◌, subst, arith, Bool-cases, Option-cases, inl,
  inr,
}
use octopus_permissions_cont.Api.{NamespacedName, name_eq}
use octopus_permissions_cont.Rules.Scope.{Scope, scope_eq}
use octopus_permissions_cont.Rules.Resource.{WsaResource, get_namespaced_name}
use octopus_permissions_cont.Rules.Vocabulary.{GlobalVocabulary}
use octopus_permissions_cont.Rules.Coverage.{compute_wsa_coverage}
use octopus_permissions_cont.Rules.ScopeMap.{
  WsaMap, ScopeMap, collect, find_scope_intersections, build_from, build_scope_to_wsa_mapping,
  compute_minimal_service_account_scopes,
}
use octopus_permissions_cont.Rules.ScopeMap.Build.{bound_in}

-- No key of a scope map stands twice, nor does one of its entries.
pub record IsProper (m : ScopeMap) : Type 0 where
  pub scopes : UniqueKeys m
  pub entries : (s : Scope) → UniqueKeys (lookup_or [] s m)

-- Two replicas see the same: the same scopes, and the same names of resources in each.
pub record SameView (m₁ m₂ : ScopeMap) : Type 0 where
  pub scopes : (s : Scope) → has_key m₁ s ≡ has_key m₂ s
  pub bound : (s : Scope) (n : NamespacedName) → bound_in m₁ s n ≡ bound_in m₂ s n

empty-IsProper : IsProper []
unfolding lookup
empty-IsProper = record { scopes = tt; entries = λ s. tt }

put-IsProper :
    (s : Scope) (w : WsaMap) (m : ScopeMap) → UniqueKeys w → IsProper m → IsProper (put s w m)
put-IsProper s w m u proper = record {
  scopes = put-UniqueKeys s w m proper.scopes;
  entries = λ t. elim (Bool-cases (s == t)) [
    | inl same ↦ rw (lookup-put s t w m, same) u
    | inr other ↦ rw (lookup-put s t w m, other) (proper.entries t)
  ];
}

collect-UniqueKeys :
    (rs : List WsaResource) (is : List ℕ) (acc w : WsaMap)
    → collect rs is acc ≡ some w
    → UniqueKeys acc
    → UniqueKeys w
unfolding collect
collect-UniqueKeys rs [] acc w h u = subst UniqueKeys (some_inj.0 h) u
collect-UniqueKeys rs (i ∷ is) acc w h u = elim (Option-cases (get_elem? rs i)) [
  | inl e ↦ ground (arith, rw e at h)
  | inr (r, e) ↦
      collect-UniqueKeys rs is (put (get_namespaced_name r) r acc) w (rw e at h)
        (put-UniqueKeys (get_namespaced_name r) r acc u)
]

module _ (o : VisitOrder) (rs : List WsaResource) where
  build_from-IsProper :
      (indices : Map Scope (Set ℕ)) (start m : ScopeMap)
      → build_from o rs indices start ≡ some m
      → IsProper start
      → IsProper m
  unfolding build_from
  build_from-IsProper [] start m h proper = subst IsProper (some_inj.0 h) proper
  build_from-IsProper ((s, []) ∷ rest) start m h proper = build_from-IsProper rest start m h proper
  build_from-IsProper ((s, i ∷ is) ∷ rest) start m h proper =
      elim (Option-cases (collect rs (o.visit (i ∷ is)) [])) [
        | inl e ↦ ground (arith, rw e at h)
        | inr (w, e) ↦
            build_from-IsProper rest (put s w start) m (rw e at h)
              (put-IsProper s w start (collect-UniqueKeys rs (o.visit (i ∷ is)) [] w e tt) proper)
      ]

-- The computed scope map names a scope once, and a resource once in a scope.
pub compute_minimal_service_account_scopes-IsProper :
    (o : VisitOrder) (rs : List WsaResource) (v : GlobalVocabulary) (m : ScopeMap)
    → compute_minimal_service_account_scopes o rs v ≡ some m
    → IsProper m
unfolding compute_minimal_service_account_scopes build_scope_to_wsa_mapping lookup
compute_minimal_service_account_scopes-IsProper o [] v m h =
    subst IsProper (some_inj.0 h) empty-IsProper
compute_minimal_service_account_scopes-IsProper o (r ∷ rs) v m h =
    build_from-IsProper o (r ∷ rs)
      (o.visit (find_scope_intersections o (map (λ w. compute_wsa_coverage o w v) (r ∷ rs)))) [] m h
      empty-IsProper
