-- ===== src/Rules/Mappings/Accounts.antt =====
-- Every name that the mappings give is that of a service account that they make.
use mathlib.Core.Option.{some_inj}
use octopus_permissions_cont.Prelude.{
  String, Bool, true, false, List, [], ◌∷◌, Option, some, any, all, map, any_of_perm, all_of_perm,
  contains, has_key, has_key-put, all-put, Map, put, lookup, lookup-put, VisitOrder, string_eq,
  ◌==◌, ==_refl, ◌≡◌, refl, ◌∙◌, sym, subst, arith, Option-cases, inl, inr, if◌then◌else◌,
}
use octopus_permissions_cont.Rules.Scope.{Scope, scope_eq}
use octopus_permissions_cont.Rules.ScopeMap.{ScopeMap}
use octopus_permissions_cont.Rules.Grouping.{group_scopes_by_wsa_set, collect_dimension_values}
use octopus_permissions_cont.Rules.Naming.{
  ServiceAccount, generate_grouped_service_account_name, generate_service_account_from_grouped,
}
use octopus_permissions_cont.Rules.Mappings.{
  Mappings, no_mappings, GeneratedMappings, assign, add_group, add_groups,
  generate_service_account_mappings,
}
use octopus_permissions_cont.Rules.Mappings.Laws.{added, returned}

-- The account of the name is in the list.
abbrev pub has_account : List ServiceAccount → String → Bool
has_account accounts name = any (λ sa. sa.meta.name == name) accounts

pub lookup-assign :
    (name : String) (scopes : List Scope) (m : Map Scope String) (s : Scope)
    → lookup s (assign name scopes m) ≡ (if contains scopes s then some name else lookup s m)
unfolding assign
lookup-assign name [] m s = refl
lookup-assign name (x ∷ xs) m s =
    ground (arith, lookup-assign name xs (put x name m) s, lookup-put x s name m)

-- Each name has an account, which is under its own name.
record IsMade (m : Mappings) : Type 0 where
  made :
      (s : Scope) (name : String)
      → lookup s m.scope_to_service_account ≡ some name
      → has_key m.unique_service_accounts name ≡ true
  named : all (λ kv. kv.1.meta.name == kv.0) m.unique_service_accounts ≡ true

made_either :
    (name n : String) (here : Bool) (old : Option String) (account : ServiceAccount)
    (accounts : Map String ServiceAccount)
    → (old ≡ some n → has_key accounts n ≡ true)
    → (if here then some name else old) ≡ some n
    → has_key (put name account accounts) n ≡ true
made_either name n true old account accounts i h =
    has_key-put name n account accounts ∙ rw (some_inj.0 h) (ground (arith, ==_refl n))
made_either name n false old account accounts i h =
    ground (arith, has_key-put name n account accounts, i h)

no_mappings-IsMade : IsMade no_mappings
unfolding lookup
no_mappings-IsMade = record { made = λ s n h. ground arith; named = refl }

module _ (o : VisitOrder) (sha256_hex : String → String) (scope_map : ScopeMap) where
  added-IsMade :
      (acc : Mappings) (first : Scope) (others : List Scope)
      → IsMade acc
      → IsMade (added o sha256_hex scope_map acc first others)
  unfolding generate_service_account_from_grouped
  added-IsMade acc first others i =
      let values = collect_dimension_values o (first ∷ others) in
      let name = generate_grouped_service_account_name sha256_hex values in
      let account = generate_service_account_from_grouped sha256_hex name values in
      record {
        made = λ s n h.
            made_either name n (contains (first ∷ others) s) (lookup s acc.scope_to_service_account)
              account acc.unique_service_accounts (i.made s n)
              (sym (lookup-assign name (first ∷ others) _ s) ∙ h);
        named =
            all-put (λ kv. kv.1.meta.name == kv.0) name account acc.unique_service_accounts
              (==_refl name) i.named;
      }

  add_groups-IsMade :
      (groups : List (String × List Scope)) (acc m : Mappings)
      → IsMade acc
      → add_groups o sha256_hex scope_map groups acc ≡ some m
      → IsMade m
  unfolding add_groups add_group
  add_groups-IsMade [] acc m i h = subst IsMade (some_inj.0 h) i
  add_groups-IsMade ((key, []) ∷ rest) acc m i h = ground arith
  add_groups-IsMade ((key, first ∷ others) ∷ rest) acc m i h =
      add_groups-IsMade rest (added o sha256_hex scope_map acc first others) m
        (added-IsMade acc first others i) h

has_account-map :
    (m : Map String ServiceAccount) (name : String)
    → all (λ kv. kv.1.meta.name == kv.0) m ≡ true
    → has_key m name ≡ true
    → has_account (map (λ kv. kv.1) m) name ≡ true
has_account-map [] name a h = ground arith
has_account-map ((k, sa) ∷ m) name a h = ground (
  arith,
  has_account-map m name,
  string_eq.equal_iff k name,
  string_eq.equal_iff sa.meta.name k,
  string_eq.equal_iff sa.meta.name name,
)

-- Whatever order Go visits its maps in, every name that the mappings of a scope map give to a scope
-- is the name of a service account that they make.
pub generate_service_account_mappings-has_account :
    (o : VisitOrder) (sha256_hex : String → String) (scope_map : ScopeMap) (g : GeneratedMappings)
    (s : Scope) (name : String)
    → generate_service_account_mappings o sha256_hex scope_map ≡ some g
    → lookup s g.scope_to_sa ≡ some name
    → has_account g.service_accounts name ≡ true
unfolding generate_service_account_mappings
generate_service_account_mappings-has_account o sha256_hex scope_map g s name made h =
    elim (Option-cases (
      add_groups o sha256_hex scope_map (o.visit (group_scopes_by_wsa_set o scope_map))
        no_mappings)) [
          | inl e ↦ ground (arith, rw e at made)
          | inr (m, e) ↦
              let i =
                add_groups-IsMade o sha256_hex scope_map
                  (o.visit (group_scopes_by_wsa_set o scope_map)) no_mappings m no_mappings-IsMade
                  e in
              returned_lem m i (some_inj.0 (rw e at made))
        ]
  where
    returned_lem :
        (m : Mappings) → IsMade m → returned o m ≡ g → has_account g.service_accounts name ≡ true
    returned_lem m i e =
        let listed = rw (← e) at h in
        rw (← e) (
          has_account-map (o.visit m.unique_service_accounts) name
            (all_of_perm _ (o.visit_perm m.unique_service_accounts) ∙ i.named)
            (any_of_perm _ (o.visit_perm m.unique_service_accounts) ∙ i.made s name listed))
