-- ===== src/Rules/Mappings/Laws.antt =====
-- Every scope of the map gets the name of a service account, and no other scope does.
use text.Mathlib.TextLemmas.{append-eq-nil_iff}
use octopus_permissions_cont.Prelude.{
  String, Bool, true, false, not, ◌||◌, List, [], ◌∷◌, some, all, map, any_of_perm, all_of_perm,
  contains, all-put, has_key, has_key-put, Map, put, lookup, lookup_or, VisitOrder, string_eq,
  eq_iff, ◌==◌, ◌≡◌, refl, ◌∙◌, ap, arith, ◌>>=◌, Bool-cases, inl, inr,
}
use octopus_permissions_cont.Rules.Scope.{Scope, scope_eq}
use octopus_permissions_cont.Rules.ScopeMap.{ScopeMap}
use octopus_permissions_cont.Rules.Grouping.{
  GroupedDimensions, group_scopes_by_wsa_set, collect_dimension_values,
}
use octopus_permissions_cont.Rules.Grouping.Laws.{
  grouped, none_empty, grouped-group_scopes_by_wsa_set, none_empty-group_scopes_by_wsa_set,
}
use octopus_permissions_cont.Rules.Naming.{
  generate_grouped_service_account_name, generate_service_account_from_grouped,
}
use octopus_permissions_cont.Rules.Mappings.{
  Mappings, no_mappings, GeneratedMappings, assign, track_names, add_group, add_groups,
  generate_service_account_mappings,
}

has_key-assign :
    (name : String) (scopes : List Scope) (m : Map Scope String) (s : Scope)
    → has_key (assign name scopes m) s ≡ (has_key m s || contains scopes s)
unfolding assign
has_key-assign name [] m s = ground arith
has_key-assign name (x ∷ xs) m s =
    ground (arith, has_key-assign name xs (put x name m) s, has_key-put x s name m)

-- No scope has the empty name.
abbrev pub all_named : Map Scope String → Bool
all_named m = all (λ kv. not (kv.1 == "")) m

all_named-assign :
    (name : String) (scopes : List Scope) (m : Map Scope String)
    → (name == "") ≡ false
    → all_named m ≡ true
    → all_named (assign name scopes m) ≡ true
unfolding assign
all_named-assign name [] m h a = a
all_named-assign name (x ∷ xs) m h a =
    all_named-assign name xs (put x name m) h
      (all-put (λ kv. not (kv.1 == "")) x name m (ap not h) a)

pub name_not_empty :
    (sha256_hex : String → String) (g : GroupedDimensions)
    → (generate_grouped_service_account_name sha256_hex g == "") ≡ false
unfolding generate_grouped_service_account_name
name_not_empty sha256_hex g =
    elim (Bool-cases (generate_grouped_service_account_name sha256_hex g == "")) [
      | inl empty ↦
          ground (arith, eq_iff "octopus-sa-" "", append-eq-nil_iff.0 ((eq_iff _ "").0 empty))
      | inr h ↦ h
    ]

module _ (o : VisitOrder) (sha256_hex : String → String) (scope_map : ScopeMap) where
  abbrev pub added : Mappings → Scope → List Scope → Mappings
  added acc first others =
      let grouped_values = collect_dimension_values o (first ∷ others) in
      let name = generate_grouped_service_account_name sha256_hex grouped_values in
      let wsas = lookup_or [] first scope_map in
      record {
        scope_to_service_account = assign name (first ∷ others) acc.scope_to_service_account;
        service_account_to_wsas = put name wsas acc.service_account_to_wsas;
        wsa_to_service_account_names =
            track_names name (o.visit wsas) acc.wsa_to_service_account_names;
        unique_service_accounts =
            put name (generate_service_account_from_grouped sha256_hex name grouped_values)
              acc.unique_service_accounts;
      }

  add_groups_lem :
      (groups : List (String × List Scope)) (acc : Mappings)
      → none_empty groups ≡ true
      → all_named acc.scope_to_service_account ≡ true
      → (m : Mappings) × (add_groups o sha256_hex scope_map groups acc ≡ some m)
        × (all_named m.scope_to_service_account ≡ true)
        × ((s : Scope)
            → has_key m.scope_to_service_account s
              ≡ (has_key acc.scope_to_service_account s || grouped groups s))
  unfolding add_groups add_group
  add_groups_lem [] acc h a = (acc, refl, a, λ s. ground arith)
  add_groups_lem ((key, []) ∷ rest) acc h a = ground arith
  add_groups_lem ((key, first ∷ others) ∷ rest) acc h a =
      let grouped_values = collect_dimension_values o (first ∷ others) in
      let name = generate_grouped_service_account_name sha256_hex grouped_values in
      let (m, made, named, keys) = add_groups_lem rest (added acc first others) (ground arith) (
        all_named-assign name (first ∷ others) acc.scope_to_service_account
          (name_not_empty sha256_hex grouped_values) a) in
      (
        m,
        made,
        named,
        λ s.
            ground
              (arith, keys s, has_key-assign name (first ∷ others) acc.scope_to_service_account s),
      )

abbrev pub returned : VisitOrder → Mappings → GeneratedMappings
returned o acc = record {
  scope_to_sa = acc.scope_to_service_account;
  sa_to_wsa_map = acc.service_account_to_wsas;
  wsa_to_sa_names = map (λ kv. (kv.0, o.visit kv.1)) (o.visit acc.wsa_to_service_account_names);
  service_accounts = map (λ kv. kv.1) (o.visit acc.unique_service_accounts);
}

-- What the mappings of a scope map owe to it.
pub record Names (scope_map : ScopeMap) (g : GeneratedMappings) : Type 0 where
  pub keys : (s : Scope) → has_key g.scope_to_sa s ≡ has_key scope_map s
  pub named : all_named g.scope_to_sa ≡ true

-- Whatever order Go visits its maps in, the mappings of a scope map are made without a panic. A
-- scope has a name there exactly if it is in the scope map, and no such name is empty.
pub generate_service_account_mappings-Names :
    (o : VisitOrder) (sha256_hex : String → String) (scope_map : ScopeMap)
    → (g : GeneratedMappings) × (generate_service_account_mappings o sha256_hex scope_map ≡ some g)
      × Names scope_map g
unfolding generate_service_account_mappings
generate_service_account_mappings-Names o sha256_hex scope_map =
    let groups = group_scopes_by_wsa_set o scope_map in
    let (m, made, named, keys) =
      add_groups_lem o sha256_hex scope_map (o.visit groups) no_mappings
        (all_of_perm _ (o.visit_perm groups) ∙ none_empty-group_scopes_by_wsa_set o scope_map)
        refl in
    (
      _,
      ap (λ r. r >>= λ acc. some (returned o acc)) made,
      record {
        keys = λ s.
            keys s
            ∙ any_of_perm _ (o.visit_perm groups)
            ∙ grouped-group_scopes_by_wsa_set o scope_map s;
        named = named;
      },
    )

pub lookup-all_named :
    (m : Map Scope String) (s : Scope)
    → all_named m ≡ true
    → (lookup_or "" s m == "") ≡ not (has_key m s)
unfolding lookup
lookup-all_named [] s a = refl
lookup-all_named ((t, n) ∷ rest) s a = ground (arith, lookup-all_named rest s)
