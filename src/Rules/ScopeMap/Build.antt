-- ===== src/Rules/ScopeMap/Build.antt =====
-- The loop of `buildScopeToWSAMapping`: with every position in range it does not panic, and each
-- scope gets the resources at its positions.
use octopus_permissions_cont.Prelude.{
  ℕ, List, [], ◌∷◌, Option, none, some, Bool, true, false, ◌||◌, ◌&&◌, any, any_of_perm, Bool-cases,
  inl, inr, Set, Map, put, lookup, lookup_or, lookup-put, has_key, has_key-put, lookup-none,
  UniqueKeys, get_elem?, VisitOrder, nat_eq, ◌==◌, ◌≡◌, refl, ◌∙◌, subst, arith, ==_refl, ==_comm,
  Option-cases,
}
use octopus_permissions_cont.Api.{NamespacedName, name_eq}
use octopus_permissions_cont.Rules.Scope.{Scope, scope_eq, scope_beq_iff}
use octopus_permissions_cont.Rules.Resource.{WsaResource, get_namespaced_name}
use octopus_permissions_cont.Rules.ScopeMap.{WsaMap, ScopeMap, collect, build_from}
use octopus_permissions_cont.Rules.ScopeMap.Indices.{indices_of}

-- The resource of that name is bound to the scope. A missing scope reads as the empty map.
abbrev pub bound_in : ScopeMap → Scope → NamespacedName → Bool
bound_in m s n = has_key (lookup_or [] s m) n

-- What the resource at a position says, with `other` for a position out of range.
unfoldable pub at_position : Bool → (WsaResource → Bool) → Option WsaResource → Bool
at_position other p none = other
at_position other p (some r) = p r

unfoldable pub named : List WsaResource → NamespacedName → ℕ → Bool
unfolding at_position
named rs n i = at_position false (λ r. get_namespaced_name r == n) (get_elem? rs i)

unfoldable pub out_of_range : List WsaResource → ℕ → Bool
unfolding at_position
out_of_range rs i = at_position true (λ _. false) (get_elem? rs i)

lookup_at :
    {V : Type 0} (s t : Scope) (m : Map Scope V)
    → lookup s m ≡ none
    → (s == t) ≡ true
    → lookup t m ≡ none
lookup_at s t m h same = subst (λ x. lookup x m ≡ none) ((scope_beq_iff s t).0 same) h

-- The tests on a map with one more entry.
bound_in-put :
    (s t : Scope) (n : NamespacedName) (w : WsaMap) (start : ScopeMap)
    → lookup s start ≡ none
    → bound_in (put s w start) t n ≡ (bound_in start t n || (s == t && has_key w n))
bound_in-put s t n w start fresh = elim (Bool-cases (s == t)) [
  | inl same ↦ ground (arith, lookup-put s t w start, same, lookup_at s t start fresh same)
  | inr other ↦ ground (arith, lookup-put s t w start, other)
]

any-indices_of-cons :
    (f : ℕ → Bool) (s t : Scope) (is : Set ℕ) (rest : Map Scope (Set ℕ))
    → has_key rest s ≡ false
    → any f (indices_of ((s, is) ∷ rest) t) ≡ (any f (indices_of rest t) || (s == t && any f is))
unfolding lookup
any-indices_of-cons f s t is rest h = elim (Bool-cases (s == t)) [
  | inl same ↦ ground (arith, same, lookup_at s t rest (lookup-none s rest h) same)
  | inr other ↦ ground (arith, other)
]

module _ (rs : List WsaResource) where
  collect_lem :
      (is : List ℕ) (acc : WsaMap)
      → any (out_of_range rs) is ≡ false
      → (m : WsaMap) × (collect rs is acc ≡ some m)
        × ((n : NamespacedName) → has_key m n ≡ (has_key acc n || any (named rs n) is))
  unfolding collect named out_of_range
  collect_lem [] acc h = (acc, refl, λ n. ground arith)
  collect_lem (i ∷ is) acc h = elim (Option-cases (get_elem? rs i)) [
    | inl e ↦ ground arith
    | inr (r, e) ↦
        let (m, made, keys) = collect_lem is (put (get_namespaced_name r) r acc) (ground arith) in
        (m, rw e made, λ n. ground (arith, keys n, e, has_key-put (get_namespaced_name r) n r acc))
  ]

  -- The two tests that an entry of the scope map answers.
  pub record IsBuilt (start : ScopeMap) (indices : Map Scope (Set ℕ)) (m : ScopeMap) : Type 0 where
    pub bound :
        (s : Scope) (n : NamespacedName)
        → bound_in m s n ≡ (bound_in start s n || any (named rs n) (indices_of indices s))
    pub keys :
        (s : Scope) → has_key m s ≡ (has_key start s || any (λ _. true) (indices_of indices s))

  abbrev pub InRange : Map Scope (Set ℕ) → Type 0
  InRange [] = Unit
  InRange ((s, is) ∷ rest) = (any (out_of_range rs) is ≡ false) × InRange rest

  abbrev pub Fresh : ScopeMap → Map Scope (Set ℕ) → Type 0
  Fresh start [] = Unit
  Fresh start ((s, is) ∷ rest) = (lookup s start ≡ none) × Fresh start rest

  Fresh-put :
      (s : Scope) (w : WsaMap) (start : ScopeMap) (indices : Map Scope (Set ℕ))
      → has_key indices s ≡ false
      → Fresh start indices
      → Fresh (put s w start) indices
  Fresh-put s w start [] h f = tt
  Fresh-put s w start ((t, is) ∷ rest) h f = (
    ground (arith, lookup-put s t w start, ==_comm s t),
    Fresh-put s w start rest (ground arith) f.1,
  )

  module _ (o : VisitOrder) where
    pub build_from_lem :
        (indices : Map Scope (Set ℕ)) (start : ScopeMap)
        → UniqueKeys indices
        → InRange indices
        → Fresh start indices
        → (m : ScopeMap) × (build_from o rs indices start ≡ some m) × IsBuilt start indices m
    unfolding build_from lookup
    build_from_lem [] start u range fresh =
        (start, refl, record { bound = λ s n. ground arith; keys = λ s. ground arith })
    build_from_lem ((s, []) ∷ rest) start u range fresh =
        let (m, made, built) = build_from_lem rest start u.1 range.1 fresh.1 in
        (
          m,
          made,
          record {
            bound = λ t n.
                ground (arith, built.bound t n, any-indices_of-cons (named rs n) s t [] rest u.0);
            keys =
                λ t. ground (arith, built.keys t, any-indices_of-cons (λ _. true) s t [] rest u.0);
          },
        )
    build_from_lem ((s, i ∷ is) ∷ rest) start u range fresh =
        let (w, collected, names) =
          collect_lem (o.visit (i ∷ is)) [] (any_of_perm _ (o.visit_perm (i ∷ is)) ∙ range.0) in
        let (m, made, built) =
          build_from_lem rest (put s w start) u.1 range.1 (Fresh-put s w start rest u.0 fresh.1) in
        (
          m,
          rw collected made,
          record {
            bound = λ t n. ground (
              arith,
              built.bound t n,
              any-indices_of-cons (named rs n) s t (i ∷ is) rest u.0,
              bound_in-put s t n w start fresh.0,
              names n,
              any_of_perm (named rs n) (o.visit_perm (i ∷ is)),
            );
            keys = λ t. ground (
              arith,
              built.keys t,
              any-indices_of-cons (λ _. true) s t (i ∷ is) rest u.0,
              has_key-put s t w start,
            );
          },
        )

  pub InRange-of_all :
      (indices : Map Scope (Set ℕ))
      → UniqueKeys indices
      → ((s : Scope) → any (out_of_range rs) (indices_of indices s) ≡ false)
      → InRange indices
  unfolding lookup
  InRange-of_all [] u h = tt
  InRange-of_all ((s, is) ∷ rest) u h = (
    ground (arith, h s, ==_refl s),
    InRange-of_all rest u.1
        λ t. ground (arith, h t, any-indices_of-cons (out_of_range rs) s t is rest u.0),
  )

  pub Fresh-nil : (indices : Map Scope (Set ℕ)) → Fresh [] indices
  unfolding lookup
  Fresh-nil [] = tt
  Fresh-nil (_ ∷ rest) = (refl, Fresh-nil rest)
