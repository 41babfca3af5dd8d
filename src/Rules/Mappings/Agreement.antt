-- ===== src/Rules/Mappings/Agreement.antt =====
-- Replicas that see the same scope map give every scope the same name.
use mathlib.Core.Option.{some_inj}
use octopus_permissions_cont.Prelude.{
  String, true, ◌&&◌, List, [], ◌∷◌, none, some, any_of_mem, contains, has_key, Map, lookup,
  lookup_or, or_default, UniqueKeys, VisitOrder, string_eq, ◌==◌, ==_refl, ◌≡◌, refl, sym, ◌∙◌, ap,
  arith, Memᴰ, mem_of_perm, any_of_perm, Option-cases, inl, inr, if◌then◌else◌,
}
use octopus_permissions_cont.Api.{name_eq}
use octopus_permissions_cont.Rules.Scope.{Scope, scope_eq}
use octopus_permissions_cont.Rules.ScopeMap.{ScopeMap}
use octopus_permissions_cont.Rules.ScopeMap.Proper.{IsProper, SameView}
use octopus_permissions_cont.Rules.Grouping.{
  wsa_set_key, group_scopes_by_wsa_set, collect_dimension_values,
}
use octopus_permissions_cont.Rules.Grouping.Laws.{grouped, grouped-group_scopes_by_wsa_set}
use octopus_permissions_cont.Rules.Grouping.Agreement.{
  wsa_set_key-same, collect_dimension_values-same, contains-group,
  group_scopes_by_wsa_set-UniqueKeys,
}
use octopus_permissions_cont.Rules.Naming.{generate_grouped_service_account_name}
use octopus_permissions_cont.Rules.Mappings.{
  Mappings, no_mappings, GeneratedMappings, add_group, add_groups,
  generate_service_account_mappings,
}
use octopus_permissions_cont.Rules.Mappings.Laws.{added}
use octopus_permissions_cont.Rules.Mappings.Accounts.{lookup-assign}

lookup_of_mem :
    {V : Type 0} (k : String) (v : V) (m : Map String V)
    → UniqueKeys m
    → Memᴰ (k, v) m
    → lookup k m ≡ some v
unfolding lookup
lookup_of_mem k v [] u i = elim i [ ]
lookup_of_mem k v ((j, w) ∷ m) u (Memᴰ.head e) =
    ground (arith, string_eq.equal_iff j k, ap (λ x. x.0) e, ap (λ x. x.1) e)
lookup_of_mem k v ((j, w) ∷ m) u (Memᴰ.tail i) = ground (
  arith,
  any_of_mem (λ kv. kv.0 == k) m (k, v) i (==_refl k),
  string_eq.equal_iff j k,
  λ (q : j ≡ k). ap (has_key m) q,
  lookup_of_mem k v m u.1 i,
  u,
)

module _ (o : VisitOrder) (sha256_hex : String → String) (m : ScopeMap) (proper : IsProper m) where
  -- The name of a scope's group.
  abbrev name_of : Scope → String
  name_of s = generate_grouped_service_account_name sha256_hex (
      collect_dimension_values o
        (lookup_or [] (wsa_set_key o (lookup_or [] s m)) (group_scopes_by_wsa_set o m)))

  add_groups_name :
      (s : Scope) (name : String) (groups : List (String × List Scope)) (acc r : Mappings)
      → ((k : String) (g : List Scope)
          → Memᴰ (k, g) groups
          → contains g s ≡ true
          → generate_grouped_service_account_name sha256_hex (collect_dimension_values o g) ≡ name)
      → add_groups o sha256_hex m groups acc ≡ some r
      → lookup s r.scope_to_service_account
        ≡ (if grouped groups s then some name else lookup s acc.scope_to_service_account)
  unfolding add_groups add_group
  add_groups_name s name [] acc r same h =
      ap (λ x. lookup s x.scope_to_service_account) (sym (some_inj.0 h))
  add_groups_name s name ((k, []) ∷ rest) acc r same h = ground arith
  add_groups_name s name ((k, x ∷ xs) ∷ rest) acc r same h =
      add_groups_name s name rest (added o sha256_hex m acc x xs) r
        (λ k' g i. same k' g (Memᴰ.tail i)) h
      ∙ ground (
        arith,
        lookup-assign
            (generate_grouped_service_account_name sha256_hex (collect_dimension_values o (x ∷ xs)))
            (x ∷ xs) acc.scope_to_service_account s,
        same k (x ∷ xs) (Memᴰ.head refl),
      )

  group_name :
      (s : Scope) (k : String) (g : List Scope)
      → Memᴰ (k, g) (group_scopes_by_wsa_set o m)
      → contains g s ≡ true
      → generate_grouped_service_account_name sha256_hex (collect_dimension_values o g) ≡ name_of s
  group_name s k g i h =
      let groups = group_scopes_by_wsa_set o m in
      let listed = lookup_of_mem k g groups (group_scopes_by_wsa_set-UniqueKeys o m) i in
      let held =
        sym (contains-group o m k s proper.scopes)
        ∙ ap (λ x. contains (or_default [] x) s) listed
        ∙ h in
      let key =
        (string_eq.equal_iff (wsa_set_key o (lookup_or [] s m)) k).0 (ground (arith, held)) in
      ap (λ x. generate_grouped_service_account_name sha256_hex (collect_dimension_values o x))
        (sym (ap (λ j. lookup_or [] j groups) key ∙ ap (or_default []) listed))

  -- What the mappings give to a scope of the map.
  generated_name :
      (g : GeneratedMappings) (s : Scope)
      → generate_service_account_mappings o sha256_hex m ≡ some g
      → lookup s g.scope_to_sa ≡ (if has_key m s then some (name_of s) else none)
  unfolding generate_service_account_mappings lookup
  generated_name g s made =
      let groups = group_scopes_by_wsa_set o m in
      elim (Option-cases (add_groups o sha256_hex m (o.visit groups) no_mappings)) [
        | inl e ↦ ground (arith, rw e at made)
        | inr (r, e) ↦
            ap (λ x. lookup s x.scope_to_sa) (sym (some_inj.0 (rw e at made)))
            ∙ add_groups_name s (name_of s) (o.visit groups) no_mappings r
                (λ k h i. group_name s k h (mem_of_perm (o.visit_perm groups) i)) e
            ∙ ap (λ b. if b then some (name_of s) else none)
                (any_of_perm _ (o.visit_perm groups) ∙ grouped-group_scopes_by_wsa_set o m s)
      ]

module _ (o₁ o₂ : VisitOrder) (sha256_hex : String → String) (m₁ m₂ : ScopeMap)
    (proper₁ : IsProper m₁) (proper₂ : IsProper m₂) (view : SameView m₁ m₂) where
  key_same : (s : Scope) → wsa_set_key o₁ (lookup_or [] s m₁) ≡ wsa_set_key o₂ (lookup_or [] s m₂)
  key_same s =
      wsa_set_key-same o₁ o₂ (lookup_or [] s m₁) (lookup_or [] s m₂) (proper₁.entries s)
        (proper₂.entries s) (view.bound s)

  name_of-same :
      (s : Scope) → name_of o₁ sha256_hex m₁ proper₁ s ≡ name_of o₂ sha256_hex m₂ proper₂ s
  name_of-same s = ap (generate_grouped_service_account_name sha256_hex) (
      collect_dimension_values-same o₁ o₂ _ _ λ t.
        contains-group o₁ m₁ (wsa_set_key o₁ (lookup_or [] s m₁)) t proper₁.scopes
        ∙ (λ i. view.scopes t i && key_same t i == key_same s i)
        ∙ sym (contains-group o₂ m₂ (wsa_set_key o₂ (lookup_or [] s m₂)) t proper₂.scopes))

  -- The mappings are deterministic: two replicas whose scope maps have the same scopes, and in each
  -- scope the same names of resources, give every scope the same name, or both give it none,
  -- whatever order each of them visits its maps in.
  pub generate_service_account_mappings-SameView :
      (g₁ g₂ : GeneratedMappings) (s : Scope)
      → generate_service_account_mappings o₁ sha256_hex m₁ ≡ some g₁
      → generate_service_account_mappings o₂ sha256_hex m₂ ≡ some g₂
      → lookup s g₁.scope_to_sa ≡ lookup s g₂.scope_to_sa
  generate_service_account_mappings-SameView g₁ g₂ s h₁ h₂ =
      generated_name o₁ sha256_hex m₁ proper₁ g₁ s h₁
      ∙ (λ i. if view.scopes s i then some (name_of-same s i) else none)
      ∙ sym (generated_name o₂ sha256_hex m₂ proper₂ g₂ s h₂)
