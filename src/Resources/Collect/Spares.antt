-- ===== src/Resources/Collect/Spares.antt =====
-- internal/rules/resource_management.go: what the ensuring half applies, the collecting half keeps.
use octopus_permissions_cont.Prelude.{
  Eq, any, ap, String, Bool, true, false, not, ◌&&◌, ◌||◌, List, [], ◌∷◌, ◌++◌, foldl, map,
  any_of_mem, Memᴰ, contains, insert_all, contains-insert_all, contains-from_list, from_list, Set,
  Bool-cases, inl, inr, string_eq, ◌==◌, ==_refl, ◌≡◌, refl, ◌∙◌, arith,
}
use octopus_permissions_cont.Result.{Result}
use octopus_permissions_cont.Api.{name_eq, name_beq, ObjectMeta, RoleRef}
use octopus_permissions_cont.Cluster.{
  Client, Kind, service_account_kind, role_kind, role_binding_kind, cluster_role_binding_kind,
  ApplyConfiguration, Subject,
}
use octopus_permissions_cont.Rules.Resource.{
  WsaResource, get_name, get_namespace, get_roles, get_cluster_roles, is_cluster_scoped,
}
use octopus_permissions_cont.Rules.Naming.{ServiceAccount, managed_by_label, managed_by_value}
use octopus_permissions_cont.Resources.Objects.{object_eq, object_of, object_of_meta}
use octopus_permissions_cont.Resources.Ensure.Laws.{account_in}
use octopus_permissions_cont.Resources.Ensure.Bindings.{
  cluster_role_bound, Mem-append_right, Mem-map,
}
use octopus_permissions_cont.Resources.Names.{Scheme, cluster_role_binding_name}
use octopus_permissions_cont.Resources.Collect.{
  Tracked, delete_orphans, metas, managed_only, expected_roles, expected_bindings,
  expected_cluster_bindings, binding_keys, cluster_binding_names, binding_key,
  garbage_collect_role_bindings, collect_listed, garbage_collect_service_accounts,
  should_delete_service_account, garbage_collect_roles, garbage_collect_cluster_role_bindings,
}
use octopus_permissions_cont.Resources.Collect.Laws.{
  delete_orphans-preserves, collect_listed-preserves,
}

-- The configuration is of the object with that kind and those metadata.
abbrev pub denotes : ApplyConfiguration → Kind → ObjectMeta → Bool
denotes b kind m = object_of b == object_of_meta kind m

-- What an API server owes to a deletion: it touches no other object.
pub record Deletes (c : Client) (Holds : ApplyConfiguration → c.State → Type 0) : Type 0 where
  pub others_kept :
      (kind : Kind) (m : ObjectMeta) (b : ApplyConfiguration) (s : c.State)
      → denotes b kind m ≡ false
      → Holds b s
      → Holds b (c.delete kind m s).1

-- None of the four collectors, run for these accounts, namespaces and resources, takes the
-- configuration's object for an orphan.
pub record Spared (sha256_hex : String → String) (expected namespaces : Set String)
    (rs : List WsaResource) (b : ApplyConfiguration) : Type 0 where
  pub accounts :
      (m : ObjectMeta)
      → should_delete_service_account m expected namespaces ≡ true
      → denotes b service_account_kind m ≡ false
  pub roles :
      (m : ObjectMeta)
      → contains (expected_roles sha256_hex rs) m.name ≡ false
      → denotes b role_kind m ≡ false
  pub bindings :
      (m : ObjectMeta)
      → contains
          (expected_bindings sha256_hex rs)
          (record { namespace = m.namespace; name = m.name })
        ≡ false
      → denotes b role_binding_kind m ≡ false
  pub cluster_bindings :
      (m : ObjectMeta)
      → contains (expected_cluster_bindings sha256_hex rs) m.name ≡ false
      → denotes b cluster_role_binding_kind m ≡ false

module _ (c : Client) (has_tracker : Bool) (sha256_hex : String → String)
    (Holds : ApplyConfiguration → c.State → Type 0) (deletes : Deletes c Holds)
    (expected namespaces : Set String) (rs : List WsaResource) (b : ApplyConfiguration)
    (spared : Spared sha256_hex expected namespaces rs b) where
  collects-Spared :
      {A : Type 0} (kind : Kind) (listing what : String) (orphan : ObjectMeta → Bool)
      (r : Result (List A)) (found_in : List A → List ObjectMeta) (s : Tracked c.State)
      → ((m : ObjectMeta) → orphan m ≡ true → denotes b kind m ≡ false)
      → Holds b s.cluster
      → Holds b
          (collect_listed c has_tracker listing r
            (λ xs. delete_orphans c has_tracker kind what orphan (found_in xs) [])
            s).1.cluster
  collects-Spared kind listing what orphan r found_in s h p =
      collect_listed-preserves c has_tracker (Holds b) listing r _ s
        (λ xs t.
          delete_orphans-preserves c has_tracker (Holds b) kind what orphan (found_in xs) [] t
            λ m i o t. deletes.others_kept kind m b t (h m o))
        p

  pub accounts-Spared :
      (s : Tracked c.State)
      → Holds b s.cluster
      → Holds b (garbage_collect_service_accounts c has_tracker expected namespaces s).1.cluster
  unfolding garbage_collect_service_accounts
  accounts-Spared s =
      collects-Spared service_account_kind "ServiceAccounts" "ServiceAccount" _
        (c.list_matching_service_accounts managed_by_label managed_by_value s.cluster)
        (metas (λ sa. sa.meta)) s spared.accounts

  pub roles-Spared :
      (s : Tracked c.State)
      → Holds b s.cluster
      → Holds b (garbage_collect_roles c has_tracker sha256_hex rs s).1.cluster
  unfolding garbage_collect_roles
  roles-Spared s =
      collects-Spared role_kind "Roles" "Role"
        (λ x. not (contains (expected_roles sha256_hex rs) x.name)) (c.list_roles s.cluster)
        (λ xs. metas (λ x. x.meta) (managed_only (λ x. x.meta) xs)) s
        (λ m o. spared.roles m (ground (arith, o)))

  pub bindings-Spared :
      (s : Tracked c.State)
      → Holds b s.cluster
      → Holds b (garbage_collect_role_bindings c has_tracker sha256_hex rs s).1.cluster
  unfolding garbage_collect_role_bindings
  bindings-Spared s =
      collects-Spared role_binding_kind "RoleBindings" "RoleBinding"
        (λ x. not (
          contains (expected_bindings sha256_hex rs)
            (record { namespace = x.namespace; name = x.name })))
        (c.list_role_bindings s.cluster) (λ xs. metas (λ x. x.meta) (managed_only (λ x. x.meta) xs))
        s (λ m o. spared.bindings m (ground (arith, o)))

  pub cluster_bindings-Spared :
      (s : Tracked c.State)
      → Holds b s.cluster
      → Holds b (garbage_collect_cluster_role_bindings c has_tracker sha256_hex rs s).1.cluster
  unfolding garbage_collect_cluster_role_bindings
  cluster_bindings-Spared s =
      collects-Spared cluster_role_binding_kind "ClusterRoleBindings" "ClusterRoleBinding"
        (λ x. not (contains (expected_cluster_bindings sha256_hex rs) x.name))
        (c.list_cluster_role_bindings s.cluster)
        (λ xs. metas (λ x. x.meta) (managed_only (λ x. x.meta) xs)) s
        (λ m o. spared.cluster_bindings m (ground (arith, o)))

contains-mem : {A : Type 0} ⦃e : Eq A⦄ (xs : List A) (a : A) → Memᴰ a xs → contains xs a ≡ true
contains-mem xs a m = any_of_mem _ xs a m (==_refl a)

-- What is in the set is none of the items that are not.
different :
    {A : Type 0} ⦃e : Eq A⦄ (s : Set A) (a b : A)
    → contains s a ≡ true
    → contains s b ≡ false
    → (a == b) ≡ false
different ⦃e⦄ s a b m n = elim (Bool-cases (a == b)) [
  | inl h ↦ ground (arith, m, n, ap (contains s) ((e.equal_iff a b).0 h))
  | inr h ↦ h
]

same_name :
    (namespace name namespace' name' : String)
    → name_beq
        (record { namespace = namespace; name = name })
        (record { namespace = namespace'; name = name' })
      ≡ false
    → (name == name' && namespace == namespace') ≡ false
unfolding name_beq
same_name namespace name namespace' name' h = ground (arith, h)

contains-foldl :
    {A B : Type 0} ⦃e : Eq B⦄ (keys : A → List B) (xs : List A) (acc : Set B) (b : B)
    → contains (foldl (λ acc x. insert_all (keys x) acc) acc xs) b
      ≡ (contains acc b || any (λ x. contains (keys x) b) xs)
contains-foldl keys [] acc b = ground arith
contains-foldl keys (x ∷ xs) acc b =
    ground (
      arith,
      contains-foldl keys xs (insert_all (keys x) acc) b,
      contains-insert_all (keys x) acc b,
    )

module _ (sha256_hex : String → String) (accounts : List ServiceAccount) (namespaces : List String)
    (rs : List WsaResource) where
  abbrev pub SparedBy : ApplyConfiguration → Type 0
  SparedBy =
      Spared sha256_hex (from_list (map (λ sa. sa.meta.name) accounts)) (from_list namespaces) rs

  -- An account of the plan, in a target namespace.
  pub account_in-Spared :
      (sa : ServiceAccount) (ns : String)
      → Memᴰ sa accounts
      → Memᴰ ns namespaces
      → SparedBy (account_in sa ns)
  unfolding should_delete_service_account
  account_in-Spared sa ns m n = record {
    accounts = λ x o. ground (
      arith,
      o,
      different (from_list (map (λ y. y.meta.name) accounts)) sa.meta.name x.name (
          contains-from_list (map (λ y. y.meta.name) accounts) sa.meta.name
          ∙ contains-mem _ _ (Mem-map (λ y. y.meta.name) accounts sa m)),
      different (from_list namespaces) ns x.namespace
          (contains-from_list namespaces ns ∙ contains-mem namespaces ns n),
    );
    roles = λ x o. refl;
    bindings = λ x o. refl;
    cluster_bindings = λ x o. refl;
  }

  cluster_binding_expected :
      (r : WsaResource) (ref : RoleRef)
      → Memᴰ r rs
      → Memᴰ ref (get_cluster_roles r)
      → contains
          (expected_cluster_bindings sha256_hex rs)
          (cluster_role_binding_name sha256_hex (get_name r) ref.name)
        ≡ true
  unfolding expected_cluster_bindings cluster_binding_names
  cluster_binding_expected r ref m n =
      contains-foldl (cluster_binding_names sha256_hex) rs [] _
      ∙ any_of_mem _ rs r m (
          contains-mem (cluster_binding_names sha256_hex r) _ (
            Mem-append_right _ _ _ (
              Mem-map (λ x. cluster_role_binding_name sha256_hex (get_name r) x.name)
                (get_cluster_roles r) ref n)))

  binding_expected :
      (r : WsaResource) (ref : RoleRef)
      → is_cluster_scoped r ≡ false
      → Memᴰ r rs
      → Memᴰ ref (get_cluster_roles r)
      → contains (expected_bindings sha256_hex rs) (binding_key sha256_hex r ref.name) ≡ true
  unfolding expected_bindings binding_keys
  binding_expected r ref narrow m n =
      contains-foldl (binding_keys sha256_hex) rs [] _
      ∙ any_of_mem _ rs r m (
          contains-mem (binding_keys sha256_hex r) _ (
            rw narrow (
              Mem-append_right _ _ _ (
                Mem-map (λ x. binding_key sha256_hex r x.name) (get_roles r ++ get_cluster_roles r)
                  ref (Mem-append_right (get_roles r) (get_cluster_roles r) ref n)))))

  -- The binding of a cluster role that a resource refers to.
  pub cluster_role_bound-Spared :
      (scheme : Scheme) (subjects : List Subject) (r : WsaResource) (ref : RoleRef)
      → Memᴰ r rs
      → Memᴰ ref (get_cluster_roles r)
      → SparedBy (cluster_role_bound scheme sha256_hex r subjects ref)
  cluster_role_bound-Spared scheme subjects r ref m n = elim (Bool-cases (is_cluster_scoped r)) [
    | inl wide ↦ rw wide (record {
      accounts = λ x o. refl;
      roles = λ x o. refl;
      bindings = λ x o. refl;
      cluster_bindings = λ x o. ground (
        arith,
        different (expected_cluster_bindings sha256_hex rs)
            (cluster_role_binding_name sha256_hex (get_name r) ref.name) x.name
            (cluster_binding_expected r ref m n) o,
      );
    })
    | inr narrow ↦ rw narrow (record {
      accounts = λ x o. refl;
      roles = λ x o. refl;
      bindings = λ x o. same_name (get_namespace r) _ x.namespace x.name (
          different (expected_bindings sha256_hex rs) (binding_key sha256_hex r ref.name)
            (record { namespace = x.namespace; name = x.name }) (binding_expected r ref narrow m n)
            o);
      cluster_bindings = λ x o. refl;
    })
  ]
