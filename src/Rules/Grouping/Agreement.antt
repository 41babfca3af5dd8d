-- ===== src/Rules/Grouping/Agreement.antt =====
-- Replicas that visit the same sets in different orders give groups the same keys and values.
use octopus_permissions_cont.Prelude.{
  String, Bool, false, not, ◌||◌, ◌&&◌, List, [], ◌∷◌, ◌++◌, foldl, any, any-append, any_of_perm,
  any_of_contains, contains, contains-insert, insert, has_key, Map, put, lookup, lookup_or,
  lookup-put, put-UniqueKeys, UniqueKeys, Unique, keys, insert-Unique, keys-Unique, contains-keys,
  perm_of_contains, map_perm, map-sort_by, sort, sort-perm, VisitOrder, string_eq, ◌==◌, ◌≡◌, refl,
  sym, ◌∙◌, ap, arith, Permᴰ, join, Bool-cases, inl, inr, if◌then◌else◌,
}
use mathlib.Core.List.Permᴰ.{symm as Permᴰ-symm}
use octopus_permissions_cont.Api.{NamespacedName, name_eq}
use octopus_permissions_cont.Rules.Scope.{
  Scope, scope_eq, DimensionIndex, value_at, wildcard_value, project_index, project_group_index,
  environment_index, tenant_index, step_index, space_index,
}
use octopus_permissions_cont.Rules.ScopeMap.{WsaMap, ScopeMap}
use octopus_permissions_cont.Rules.Grouping.{
  name_string, wsa_set_key, group_scopes_by_wsa_set, specific_values, collect_dimension_values,
}

keys-visit : {A B : Type 0} (o : VisitOrder) (m : Map A B) → Permᴰ (keys (o.visit m)) (keys m)
keys-visit o m = map_perm (λ kv. kv.0) (o.visit_perm m)

-- Sets of resources with the same names have one key.
pub wsa_set_key-same :
    (o₁ o₂ : VisitOrder) (m₁ m₂ : WsaMap)
    → UniqueKeys m₁
    → UniqueKeys m₂
    → ((n : NamespacedName) → has_key m₁ n ≡ has_key m₂ n)
    → wsa_set_key o₁ m₁ ≡ wsa_set_key o₂ m₂
unfolding wsa_set_key
wsa_set_key-same o₁ o₂ m₁ m₂ u₁ u₂ same = ap (join ",") (
    map-sort_by name_string (keys (o₁.visit m₁))
    ∙ sort-perm (
        map_perm name_string (
          Permᴰ.trans (keys-visit o₁ m₁) (
            Permᴰ.trans
              (perm_of_contains (keys m₁) (keys m₂) (keys-Unique m₁ u₁) (keys-Unique m₂ u₂)
                λ n. contains-keys m₁ n ∙ same n ∙ sym (contains-keys m₂ n))
              (Permᴰ-symm (keys-visit o₂ m₂)))))
    ∙ sym (map-sort_by name_string (keys (o₂.visit m₂))))

-- A value is specific: neither missing nor the wildcard.
abbrev is_specific : String → Bool
is_specific x = not (x == "") && not (x == wildcard_value)

module _ (d : DimensionIndex) where
  abbrev add_specific : List String → Scope → List String
  add_specific acc s =
      if not (value_at d s == "") && not (value_at d s == wildcard_value)
      then insert (value_at d s) acc
      else acc

  add_specific_lem :
      (scopes : List Scope) (acc : List String) (x : String)
      → contains (foldl add_specific acc scopes) x
        ≡ (contains acc x || (is_specific x && any (λ s. value_at d s == x) scopes))
  add_specific_lem [] acc x = ground arith
  add_specific_lem (s ∷ scopes) acc x = ground (
    arith,
    add_specific_lem scopes (add_specific acc s) x,
    contains-insert (value_at d s) x acc,
    string_eq.equal_iff (value_at d s) x,
    string_eq.equal_iff (value_at d s) "",
    string_eq.equal_iff (value_at d s) wildcard_value,
    string_eq.equal_iff x "",
    string_eq.equal_iff x wildcard_value,
  )

  add_specific-Unique :
      (scopes : List Scope) (acc : List String)
      → Unique acc
      → Unique (foldl add_specific acc scopes)
  add_specific-Unique [] acc u = u
  add_specific-Unique (s ∷ scopes) acc u =
      elim (Bool-cases (not (value_at d s == "") && not (value_at d s == wildcard_value))) [
        | inl h ↦ rw h (add_specific-Unique scopes _ (insert-Unique (value_at d s) acc u))
        | inr h ↦ rw h (add_specific-Unique scopes acc u)
      ]

-- The values of a dimension, for scopes that are the same.
module _ (o₁ o₂ : VisitOrder) (g₁ g₂ : List Scope)
    (same : (s : Scope) → contains g₁ s ≡ contains g₂ s) where
  values_same :
      (d : DimensionIndex)
      → sort (o₁.visit (specific_values o₁ d g₁)) ≡ sort (o₂.visit (specific_values o₂ d g₂))
  unfolding specific_values
  values_same d = sort-perm (
      Permᴰ.trans (o₁.visit_perm _) (
        Permᴰ.trans
          (perm_of_contains (foldl (add_specific d) [] g₁) (foldl (add_specific d) [] g₂)
            (add_specific-Unique d g₁ [] tt) (add_specific-Unique d g₂ [] tt)
            λ x.
              add_specific_lem d g₁ [] x
              ∙ ap (λ b. is_specific x && b) (any_of_contains (λ s. value_at d s == x) g₁ g₂ same)
              ∙ sym (add_specific_lem d g₂ [] x))
          (Permᴰ-symm (o₂.visit_perm _))))

  pub collect_dimension_values-same :
      collect_dimension_values o₁ g₁ ≡ collect_dimension_values o₂ g₂
  unfolding collect_dimension_values
  collect_dimension_values-same = λ i. record {
    projects = values_same project_index i;
    project_groups = values_same project_group_index i;
    environments = values_same environment_index i;
    tenants = values_same tenant_index i;
    steps = values_same step_index i;
    spaces = values_same space_index i;
  }

-- The groups of a scope map.
module _ (o : VisitOrder) where
  abbrev join_group : Map String (List Scope) → Scope × WsaMap → Map String (List Scope)
  join_group acc kv =
      put (wsa_set_key o kv.1) (lookup_or [] (wsa_set_key o kv.1) acc ++ (kv.0 ∷ [])) acc

  contains-join :
      (j k : String) (x s : Scope) (acc : Map String (List Scope))
      → contains (lookup_or [] k (put j (lookup_or [] j acc ++ (x ∷ [])) acc)) s
        ≡ (contains (lookup_or [] k acc) s || (x == s && j == k))
  contains-join j k x s acc = elim (Bool-cases (j == k)) [
    | inl e ↦
        rw (lookup-put j k (lookup_or [] j acc ++ (x ∷ [])) acc, e, (string_eq.equal_iff j k).0 e)
          (ground (arith, any-append (λ y. y == s) (lookup_or [] k acc) (x ∷ [])))
    | inr e ↦ rw (lookup-put j k (lookup_or [] j acc ++ (x ∷ [])) acc, e) (ground arith)
  ]

  joined_lem :
      (entries : List (Scope × WsaMap)) (acc : Map String (List Scope)) (k : String) (s : Scope)
      → contains (lookup_or [] k (foldl join_group acc entries)) s ≡ (
          contains (lookup_or [] k acc) s
          || any (λ kv. kv.0 == s && wsa_set_key o kv.1 == k) entries)
  joined_lem [] acc k s = ground arith
  joined_lem (kv ∷ entries) acc k s = ground (
    arith,
    joined_lem entries (join_group acc kv) k s,
    contains-join (wsa_set_key o kv.1) k kv.0 s acc,
  )

  joined-UniqueKeys :
      (entries : List (Scope × WsaMap)) (acc : Map String (List Scope))
      → UniqueKeys acc
      → UniqueKeys (foldl join_group acc entries)
  joined-UniqueKeys [] acc u = u
  joined-UniqueKeys (kv ∷ entries) acc u =
      joined-UniqueKeys entries (join_group acc kv) (put-UniqueKeys (wsa_set_key o kv.1) _ acc u)

  pub group_scopes_by_wsa_set-UniqueKeys : (m : ScopeMap) → UniqueKeys (group_scopes_by_wsa_set o m)
  unfolding group_scopes_by_wsa_set
  group_scopes_by_wsa_set-UniqueKeys m = joined-UniqueKeys (o.visit m) [] tt

  -- A group holds the scopes whose resources have its key.
  pub contains-group :
      (m : ScopeMap) (k : String) (s : Scope)
      → UniqueKeys m
      → contains (lookup_or [] k (group_scopes_by_wsa_set o m)) s
        ≡ (has_key m s && wsa_set_key o (lookup_or [] s m) == k)
  unfolding group_scopes_by_wsa_set lookup
  contains-group m k s u =
      joined_lem (o.visit m) [] k s ∙ any_of_perm _ (o.visit_perm m) ∙ of_entry m u
    where
      none_of :
          (m : ScopeMap)
          → has_key m s ≡ false
          → any (λ kv. kv.0 == s && wsa_set_key o kv.1 == k) m ≡ false
      none_of [] h = refl
      none_of (kv ∷ m) h = ground (arith, none_of m (ground (arith, h)), h)

      of_entry :
          (m : ScopeMap)
          → UniqueKeys m
          → any (λ kv. kv.0 == s && wsa_set_key o kv.1 == k) m
            ≡ (has_key m s && wsa_set_key o (lookup_or [] s m) == k)
      of_entry [] u = refl
      of_entry ((j, v) ∷ m) u = elim (Bool-cases (j == s)) [
        | inl e ↦ rw e (ground (arith, none_of m (rw ((scope_eq.equal_iff j s).0 e) at u.0)))
        | inr e ↦ rw e (of_entry m u.1)
      ]
