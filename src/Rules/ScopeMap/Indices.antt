-- ===== src/Rules/ScopeMap/Indices.antt =====
-- `findScopeIntersections` records, for each scope, the positions of the sets that hold it.
use mathlib.Core.Bool.{or_comm, or-false}
use native.Mathlib.Nat.{add-zero}
use octopus_permissions_cont.Prelude.{
  ℕ, suc, ◌+◌, List, [], ◌∷◌, some, foldl, map, Bool, ◌||◌, ◌&&◌, any, Bool-cases, inl, inr, Set,
  insert, contains, contains-insert, any_of_contains, any_of_perm, Map, put, lookup_or, lookup,
  lookup-put, UniqueKeys, put-UniqueKeys, get_elem?, VisitOrder, nat_eq, ◌==◌, ◌≡◌, refl, ◌∙◌, ap,
  sym, arith, if◌then◌else◌,
}
use octopus_permissions_cont.Rules.Scope.{Scope, scope_eq, scope_beq_iff}
use octopus_permissions_cont.Rules.ScopeMap.{track, find_from, find_scope_intersections}

-- The positions, counted from `i`, of the sets that hold the scope.
pub hits : ℕ → List (Set Scope) → Scope → List ℕ
hits i [] s = []
hits i (c ∷ cs) s = if contains c s then i ∷ hits (suc i) cs s else hits (suc i) cs s

abbrev pub indices_of : Map Scope (Set ℕ) → Scope → Set ℕ
indices_of m s = lookup_or [] s m

contains-put_index :
    (i j : ℕ) (c s : Scope) (m : Map Scope (Set ℕ))
    → contains (indices_of (put c (insert i (indices_of m c)) m) s) j
      ≡ (contains (indices_of m s) j || (c == s && i == j))
contains-put_index i j c s m = elim (Bool-cases (c == s)) [
  | inl same ↦
      rw
        (
          lookup-put c s (insert i (indices_of m c)) m,
          same,
          contains-insert i j (indices_of m c),
          (scope_beq_iff c s).0 same,
        )
        (or_comm (i == j) (contains (indices_of m s) j))
  | inr other ↦ rw (lookup-put c s (insert i (indices_of m c)) m, other) (sym (or-false _))
]

module _ (o : VisitOrder) where
  track_from :
      (i j : ℕ) (s : Scope) (coverage : List Scope) (m : Map Scope (Set ℕ))
      → contains
          (indices_of
            (foldl (λ acc scope. put scope (insert i (lookup_or [] scope acc)) acc) m coverage)
            s)
          j
        ≡ (contains (indices_of m s) j || (contains coverage s && i == j))
  track_from i j s [] m = ground arith
  track_from i j s (c ∷ cs) m = ground (
    arith,
    track_from i j s cs (put c (insert i (indices_of m c)) m),
    contains-put_index i j c s m,
  )

  track_UniqueKeys :
      (i : ℕ) (coverage : List Scope) (m : Map Scope (Set ℕ))
      → UniqueKeys m
      → UniqueKeys
          (foldl (λ acc scope. put scope (insert i (lookup_or [] scope acc)) acc) m coverage)
  track_UniqueKeys i [] m u = u
  track_UniqueKeys i (c ∷ cs) m u = track_UniqueKeys i cs _ (put-UniqueKeys c _ m u)

  contains-track :
      (i j : ℕ) (s : Scope) (coverage : Set Scope) (m : Map Scope (Set ℕ))
      → contains (indices_of (track o i coverage m) s) j
        ≡ (contains (indices_of m s) j || (contains coverage s && i == j))
  unfolding track
  contains-track i j s coverage m =
      track_from i j s (o.visit coverage) m
      ∙ ap (λ b. contains (indices_of m s) j || (b && i == j))
          (any_of_perm _ (o.visit_perm coverage))

  contains-find_from :
      (i j : ℕ) (s : Scope) (cs : List (Set Scope)) (m : Map Scope (Set ℕ))
      → contains (indices_of (find_from o i cs m) s) j
        ≡ (contains (indices_of m s) j || contains (hits i cs s) j)
  unfolding find_from hits
  contains-find_from i j s [] m = ground arith
  contains-find_from i j s (c ∷ cs) m =
      ground (arith, contains-find_from (suc i) j s cs (track o i c m), contains-track i j s c m)

  find_from-UniqueKeys :
      (i : ℕ) (cs : List (Set Scope)) (m : Map Scope (Set ℕ))
      → UniqueKeys m
      → UniqueKeys (find_from o i cs m)
  unfolding find_from track
  find_from-UniqueKeys i [] m u = u
  find_from-UniqueKeys i (c ∷ cs) m u =
      find_from-UniqueKeys (suc i) cs _ (track_UniqueKeys i (o.visit c) m u)

  pub find_scope_intersections-UniqueKeys :
      (cs : List (Set Scope)) → UniqueKeys (find_scope_intersections o cs)
  unfolding find_scope_intersections
  find_scope_intersections-UniqueKeys cs = find_from-UniqueKeys 0 cs [] tt

  -- A test over the positions that are recorded for a scope is one over the sets that hold it.
  pub any-indices :
      (f : ℕ → Bool) (cs : List (Set Scope)) (s : Scope)
      → any f (indices_of (find_scope_intersections o cs) s) ≡ any f (hits 0 cs s)
  unfolding find_scope_intersections lookup
  any-indices f cs s = any_of_contains f _ _ (λ j. contains-find_from 0 j s cs [])

-- With the sets in the order of the items that they come from, such a test is one over the items.
pub any-hits :
    {A : Type 0} (coverage : A → Set Scope) (s : Scope) (g : A → Bool) (xs : List A) (i : ℕ)
    (f : ℕ → Bool)
    → ((k : ℕ) (x : A) → get_elem? xs k ≡ some x → f (i + k) ≡ g x)
    → any f (hits i (map coverage xs) s) ≡ any (λ x. contains (coverage x) s && g x) xs
unfolding hits
any-hits coverage s g [] i f h = refl
any-hits coverage s g (x ∷ xs) i f h = ground (
  arith,
  h 0 x refl,
  ap f (add-zero i),
  any-hits coverage s g xs (suc i) f (λ k y e. ap f (shift i k) ∙ h (suc k) y e),
)
  where
    shift : (i k : ℕ) → suc i + k ≡ i + suc k
    shift i k = omega arith
