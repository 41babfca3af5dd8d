-- ===== src/Resources/Collect.antt =====
-- internal/rules/resource_management.go: garbage collection. A deletion that finds no object counts
-- as done; other errors do not stop the loop.
pub mod Laws
pub mod Spares
use octopus_permissions_cont.Prelude.{
  String, ◌<>◌, Bool, true, false, not, ◌&&◌, ◌||◌, List, [], ◌∷◌, ◌++◌, Option, none, some, foldl,
  map, null, Set, insert, insert_all, contains, if◌then◌else◌, string_eq,
}
use octopus_permissions_cont.Result.{Result, ok, err, panic}
use octopus_permissions_cont.Api.{NamespacedName, name_eq, ObjectMeta, RoleRef}
use octopus_permissions_cont.Cluster.{
  Client, Kind, service_account_kind, role_kind, role_binding_kind, cluster_role_binding_kind,
  Answer, found, not_found, failed, Role, Binding,
}
use octopus_permissions_cont.Rules.Resource.{
  WsaResource, get_name, get_namespace, get_permission_rules, get_roles, get_cluster_roles,
  is_cluster_scoped,
}
use octopus_permissions_cont.Rules.Naming.{
  ServiceAccount, managed_by_label, managed_by_value, is_octopus_managed,
}
use octopus_permissions_cont.Resources.Names.{
  role_name, cluster_role_name, role_binding_name, cluster_role_binding_name,
}

-- `GetServiceAccounts`, `GetRoles` and the others keep what is labelled as managed.
unfoldable pub managed_only {ℓ} : {A : Type ℓ} → (A → ObjectMeta) → List A → List A
managed_only meta [] = []
managed_only meta (x ∷ xs) =
    if is_octopus_managed (meta x).labels then x ∷ managed_only meta xs else managed_only meta xs

unfoldable pub should_delete_service_account : ObjectMeta → Set String → Set String → Bool
should_delete_service_account sa expected namespaces =
    not (contains namespaces sa.namespace) || not (contains expected sa.name)

unfoldable pub metas {ℓ} : {A : Type ℓ} → (A → ObjectMeta) → List A → List ObjectMeta
metas meta [] = []
metas meta (x ∷ xs) = meta x ∷ metas meta xs

-- What the resources call for.
module _ (sha256_hex : String → String) where
  -- The names of the roles that the resources' own permissions call for.
  unfoldable pub expected_roles : List WsaResource → Set String
  expected_roles rs =
      foldl
        (λ acc r.
          let rules = get_permission_rules r in
          if null rules
          then acc
          else if is_cluster_scoped r
          then insert (cluster_role_name sha256_hex rules) acc
          else insert (role_name sha256_hex rules) acc)
        [] rs

  abbrev pub binding_key : WsaResource → String → NamespacedName
  binding_key r ref_name = record {
    namespace = get_namespace r;
    name = role_binding_name sha256_hex (get_name r) ref_name;
  }

  -- The bindings that a resource in a namespace calls for.
  unfoldable pub binding_keys : WsaResource → List NamespacedName
  binding_keys r =
      if is_cluster_scoped r
      then []
      else (if null (get_permission_rules r)
          then []
          else binding_key r (role_name sha256_hex (get_permission_rules r)) ∷ [])
        ++ map (λ ref. binding_key r ref.name) (get_roles r ++ get_cluster_roles r)

  unfoldable pub expected_bindings : List WsaResource → Set NamespacedName
  unfolding binding_keys
  expected_bindings rs = foldl (λ acc r. insert_all (binding_keys r) acc) [] rs

  unfoldable pub cluster_binding_names : WsaResource → List String
  cluster_binding_names r =
      let rules = get_permission_rules r in
      let created =
        (if is_cluster_scoped r
          then cluster_role_name sha256_hex rules
          else role_name sha256_hex rules) in
      (if null rules then [] else cluster_role_binding_name sha256_hex (get_name r) created ∷ [])
      ++ map (λ ref. cluster_role_binding_name sha256_hex (get_name r) ref.name)
          (get_cluster_roles r)

  unfoldable pub expected_cluster_bindings : List WsaResource → Set String
  unfolding cluster_binding_names
  expected_cluster_bindings rs = foldl (λ acc r. insert_all (cluster_binding_names r) acc) [] rs

-- The state of the cluster, and the UIDs that the tracker was told of, the last first.
pub record Tracked (S : Type 0) : Type 0 where
  pub cluster : S
  pub marked : List String

module _ (c : Client) (has_tracker : Bool) where
  -- `markForDeletion` and the call of `Delete` after it.
  unfoldable pub delete_one :
      Kind → ObjectMeta → Tracked c.State → Answer (Unit {0}) × Tracked c.State
  delete_one kind meta s =
      let marked = (if has_tracker then meta.uid ∷ s.marked else s.marked) in
      let (answer, cluster) = c.delete kind meta s.cluster in
      (answer, record { cluster = cluster; marked = marked })

  abbrev note_error : String → ObjectMeta → Answer (Unit {0}) → List String → List String
  note_error what meta (failed e) errors =
      errors
      ++ (("failed to delete " <> what <> " " <> meta.namespace <> "/" <> meta.name <> ": " <> e)
          ∷ [])
  note_error what meta _ errors = errors

  -- The loop of each collector over the metadata of the listed objects.
  unfoldable pub delete_orphans :
      Kind
      → String
      → (ObjectMeta → Bool)
      → List ObjectMeta
      → List String
      → Tracked c.State
      → List String × Tracked c.State
  unfolding delete_one
  delete_orphans kind what orphan [] errors s = (errors, s)
  delete_orphans kind what orphan (meta ∷ rest) errors s =
      let kept = delete_orphans kind what orphan rest errors s in
      let removed =
        let (answer, s') = delete_one kind meta s in
        delete_orphans kind what orphan rest (note_error what meta answer errors) s' in
      if orphan meta then removed else kept

  -- The listing, and the loop if it succeeds.
  abbrev collect_listed :
      {A : Type 0}
      → String
      → Result (List A)
      → (List A → Tracked c.State → List String × Tracked c.State)
      → Tracked c.State
      → List String × Tracked c.State
  collect_listed what (ok xs) loop s = loop xs s
  collect_listed what (err e) loop s = (("failed to list " <> what <> ": " <> e) ∷ [], s)
  collect_listed what panic loop s = ([], s)

  unfoldable pub garbage_collect_service_accounts :
      Set String → Set String → Tracked c.State → List String × Tracked c.State
  unfolding delete_orphans metas should_delete_service_account
  garbage_collect_service_accounts expected namespaces s =
      collect_listed "ServiceAccounts"
        (c.list_matching_service_accounts managed_by_label managed_by_value s.cluster)
        (λ sas.
          delete_orphans service_account_kind "ServiceAccount"
            (λ sa. should_delete_service_account sa expected namespaces) (metas (λ sa. sa.meta) sas)
            [])
        s

  module _ (sha256_hex : String → String) where
    unfoldable pub garbage_collect_roles :
        List WsaResource → Tracked c.State → List String × Tracked c.State
    unfolding delete_orphans metas managed_only expected_roles
    garbage_collect_roles rs s =
        collect_listed "Roles" (c.list_roles s.cluster)
          (λ roles.
            delete_orphans role_kind "Role"
              (λ role. not (contains (expected_roles sha256_hex rs) role.name))
              (metas (λ role. role.meta) (managed_only (λ role. role.meta) roles)) [])
          s

    unfoldable pub garbage_collect_role_bindings :
        List WsaResource → Tracked c.State → List String × Tracked c.State
    unfolding delete_orphans metas managed_only expected_bindings
    garbage_collect_role_bindings rs s =
        collect_listed "RoleBindings" (c.list_role_bindings s.cluster)
          (λ bindings.
            delete_orphans role_binding_kind "RoleBinding"
              (λ rb. not (
                contains (expected_bindings sha256_hex rs)
                  (record { namespace = rb.namespace; name = rb.name })))
              (metas (λ rb. rb.meta) (managed_only (λ rb. rb.meta) bindings)) [])
          s

    unfoldable pub garbage_collect_cluster_role_bindings :
        List WsaResource → Tracked c.State → List String × Tracked c.State
    unfolding delete_orphans metas managed_only expected_cluster_bindings
    garbage_collect_cluster_role_bindings rs s =
        collect_listed "ClusterRoleBindings" (c.list_cluster_role_bindings s.cluster)
          (λ bindings.
            delete_orphans cluster_role_binding_kind "ClusterRoleBinding"
              (λ crb. not (contains (expected_cluster_bindings sha256_hex rs) crb.name))
              (metas (λ crb. crb.meta) (managed_only (λ crb. crb.meta) bindings)) [])
          s
