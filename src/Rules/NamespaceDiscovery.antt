-- ===== src/Rules/NamespaceDiscovery.antt =====
-- internal/rules/namespace_discovery.go, and the cache of the target namespaces in engine.go.
use octopus_permissions_cont.Prelude.{
  String, Bool, List, [], ◌∷◌, Option, none, some, from_list, VisitOrder, if◌then◌else◌, string_eq,
}
use octopus_permissions_cont.Result.{Result, ok}

-- An error of the listing is logged, and the list is then empty.
abbrev pub listed_or_empty {ℓ} : {A : Type ℓ} → Result (List A) → List A
listed_or_empty (ok xs) = xs
listed_or_empty _ = []

unfoldable pub matching : (String → Bool) → List String → List String
matching matches [] = []
matching matches (ns ∷ rest) =
    if matches ns then ns ∷ matching matches rest else matching matches rest

-- `namespaceCache`: nil, or an LRU of one entry, which time may empty.
pub data NamespaceCache : Type 0 where
  no_cache : NamespaceCache
  lru : Option (List String) → NamespaceCache

pub record Namespaces : Type 0 where
  pub target_namespaces : List String
  pub cache : NamespaceCache

module _ (o : VisitOrder) (matches : String → Bool) where
  -- The namespaces of the agent's deployments, each once, that match the regular expression.
  unfoldable pub discover_target_namespaces : Result (List String) → List String
  unfolding matching
  discover_target_namespaces deployments =
      matching matches (o.visit (from_list (listed_or_empty deployments)))

  unfoldable pub get_or_discover_target_namespaces :
      Result (List String) → Namespaces → List String × Namespaces
  unfolding discover_target_namespaces
  get_or_discover_target_namespaces deployments n = elim (n.cache) [
    | no_cache ↦ (n.target_namespaces, n)
    | lru (some namespaces) ↦ (namespaces, n)
    | lru none ↦
        let namespaces = discover_target_namespaces deployments in
        (namespaces, record n { cache = lru (some namespaces) })
  ]
