-- ===== src/Rules/Grouping/Laws.antt =====
-- The groups hold the scopes of the map, each group at least one.
use octopus_permissions_cont.Prelude.{
  String, Bool, true, false, not, ◌||◌, List, [], ◌∷◌, ◌++◌, foldl, any, all, null, any-append,
  any_of_perm, contains, has_key, Map, put, lookup, lookup_or, VisitOrder, string_eq, ◌==◌, ◌≡◌,
  refl, ◌∙◌, arith,
}
use octopus_permissions_cont.Rules.Scope.{Scope, scope_eq}
use octopus_permissions_cont.Rules.ScopeMap.{WsaMap, ScopeMap}
use octopus_permissions_cont.Rules.Grouping.{wsa_set_key, group_scopes_by_wsa_set}

-- Some group holds the scope, and every group holds one.
abbrev pub grouped : Map String (List Scope) → Scope → Bool
grouped groups s = any (λ g. contains g.1 s) groups

abbrev pub none_empty : Map String (List Scope) → Bool
none_empty groups = all (λ g. not (null g.1)) groups

abbrev join_group : String → Scope → Map String (List Scope) → Map String (List Scope)
join_group k s groups = put k (lookup_or [] k groups ++ (s ∷ [])) groups

grouped-join_group :
    (k : String) (x s : Scope) (groups : Map String (List Scope))
    → grouped (join_group k x groups) s ≡ (grouped groups s || x == s)
unfolding put lookup
grouped-join_group k x s [] = ground arith
grouped-join_group k x s ((j, g) ∷ rest) =
    ground (arith, grouped-join_group k x s rest, any-append (λ y. y == s) g (x ∷ []))

append-not-null : (g : List Scope) (x : Scope) → null (g ++ (x ∷ [])) ≡ false
append-not-null [] x = refl
append-not-null (y ∷ g) x = refl

none_empty-join_group :
    (k : String) (x : Scope) (g : List Scope) (groups : Map String (List Scope))
    → none_empty groups ≡ true
    → none_empty (put k (g ++ (x ∷ [])) groups) ≡ true
unfolding put
none_empty-join_group k x g [] h = ground (arith, append-not-null g x)
none_empty-join_group k x g ((j, g') ∷ rest) h =
    ground (arith, append-not-null g x, none_empty-join_group k x g rest)

module _ (o : VisitOrder) where
  abbrev add_entry : Map String (List Scope) → Scope × WsaMap → Map String (List Scope)
  add_entry acc kv = join_group (wsa_set_key o kv.1) kv.0 acc

  grouped-foldl :
      (s : Scope) (entries : List (Scope × WsaMap)) (acc : Map String (List Scope))
      → grouped (foldl add_entry acc entries) s ≡ (grouped acc s || has_key entries s)
  grouped-foldl s [] acc = ground arith
  grouped-foldl s (kv ∷ rest) acc = ground (
    arith,
    grouped-foldl s rest (add_entry acc kv),
    grouped-join_group (wsa_set_key o kv.1) kv.0 s acc,
  )

  none_empty-foldl :
      (entries : List (Scope × WsaMap)) (acc : Map String (List Scope))
      → none_empty acc ≡ true
      → none_empty (foldl add_entry acc entries) ≡ true
  none_empty-foldl [] acc h = h
  none_empty-foldl (kv ∷ rest) acc h =
      none_empty-foldl rest (add_entry acc kv)
        (none_empty-join_group (wsa_set_key o kv.1) kv.0 _ acc h)

  -- The groups of a scope map hold exactly the scopes that have an entry in it.
  pub grouped-group_scopes_by_wsa_set :
      (m : ScopeMap) (s : Scope) → grouped (group_scopes_by_wsa_set o m) s ≡ has_key m s
  unfolding group_scopes_by_wsa_set
  grouped-group_scopes_by_wsa_set m s =
      grouped-foldl s (o.visit m) [] ∙ any_of_perm _ (o.visit_perm m)

  pub none_empty-group_scopes_by_wsa_set :
      (m : ScopeMap) → none_empty (group_scopes_by_wsa_set o m) ≡ true
  unfolding group_scopes_by_wsa_set
  none_empty-group_scopes_by_wsa_set m = none_empty-foldl (o.visit m) [] refl
