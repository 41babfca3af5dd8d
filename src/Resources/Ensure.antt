-- ===== src/Resources/Ensure.antt =====
-- internal/rules/resource_management.go: `EnsureRoles`, `EnsureServiceAccounts` and
-- `EnsureRoleBindings`. A loop goes on after an error, and returns all of them.
pub mod Laws
pub mod Bindings
use octopus_permissions_cont.Prelude.{
  String, ◌<>◌, List, [], ◌∷◌, ◌++◌, Option, none, some, map, null, Map, put, lookup, lookup_or,
  join, if◌then◌else◌, string_eq, ◌==◌,
}
use octopus_permissions_cont.Result.{Result, ok, err}
use octopus_permissions_cont.Api.{NamespacedName, name_eq, RoleRef}
use octopus_permissions_cont.Cluster.{
  Client, service_account_ac, role_ac, cluster_role_ac, role_binding_ac, cluster_role_binding_ac,
  Subject,
}
use octopus_permissions_cont.Rules.Resource.{
  WsaResource, get_name, get_namespace, get_namespaced_name, get_permission_rules, get_roles,
  get_cluster_roles, is_cluster_scoped,
}
use octopus_permissions_cont.Rules.Grouping.{name_string}
use octopus_permissions_cont.Rules.Naming.{ServiceAccount, managed_by_label, managed_by_value}
use octopus_permissions_cont.Resources.Names.{
  Scheme, owner_reference_ac, ServiceAccountInfo, subjects_of, role_name, cluster_role_name,
  role_binding_name, cluster_role_binding_name,
}

abbrev pub managed_labels : Map String String
managed_labels = (managed_by_label, managed_by_value) ∷ []

-- `multierr.Append(err, …)`: a nil error changes nothing.
abbrev pub append_error : List String → Option String → List String
append_error errors none = errors
append_error errors (some e) = errors ++ (e ∷ [])

-- `fmt.Errorf("context: %w", err)` where there is an error.
abbrev pub in_context : String → Option String → Option String
in_context context none = none
in_context context (some e) = some (context <> ": " <> e)

-- The errors of a loop as one error, which is nil if there are none.
abbrev pub combined : List String → Option String
combined [] = none
combined (e ∷ es) = some (join "; " (e ∷ es))

-- The reference to the role that was made of a resource's permissions.
abbrev pub created_ref : WsaResource → String → RoleRef
created_ref r name = record {
  api_group = "rbac.authorization.k8s.io";
  kind = if is_cluster_scoped r then "ClusterRole" else "Role";
  name = name;
}

module _ (c : Client) (scheme : Scheme) (sha256_hex : String → String) where
  abbrev named : String → String → Option String × c.State → Result String × c.State
  named name what (none, s) = (ok name, s)
  named name what (some e, s) = (err ("failed to apply " <> what <> " " <> name <> ": " <> e), s)

  -- `createRoleIfNeeded`: of the role that it returns only the name is read, which is empty where
  -- there is nothing to permit.
  unfoldable pub create_role_if_needed : WsaResource → c.State → Result String × c.State
  create_role_if_needed r s =
      let rules = get_permission_rules r in
      let owner = owner_reference_ac scheme r in
      if null rules
      then (ok "", s)
      else if is_cluster_scoped r
      then named (cluster_role_name sha256_hex rules) "ClusterRole" (
          c.apply (cluster_role_ac (cluster_role_name sha256_hex rules) managed_labels rules owner)
            s)
      else named (role_name sha256_hex rules) "Role" (
          c.apply
            (role_ac (role_name sha256_hex rules) (get_namespace r) managed_labels rules owner) s)

  -- One round of `EnsureRoles`.
  abbrev record_role :
      WsaResource → Result String → Map NamespacedName String → Map NamespacedName String
  record_role r (ok name) roles =
      if name == "" then roles else put (get_namespaced_name r) name roles
  record_role r _ roles = roles

  abbrev role_error : Result String → Option String
  role_error (err e) = some e
  role_error _ = none

  unfoldable pub ensure_roles_from :
      List WsaResource
      → Map NamespacedName String
      → List String
      → c.State
      → Map NamespacedName String × List String × c.State
  unfolding create_role_if_needed
  ensure_roles_from [] roles errors s = (roles, errors, s)
  ensure_roles_from (r ∷ rs) roles errors s =
      let (created, s') = create_role_if_needed r s in
      ensure_roles_from rs (record_role r created roles) (append_error errors (role_error created))
        s'

  unfoldable pub ensure_roles :
      List WsaResource → c.State → Map NamespacedName String × List String × c.State
  unfolding ensure_roles_from
  ensure_roles rs s = ensure_roles_from rs [] [] s

  -- The template's labels, with the managed-by label set over them.
  unfoldable pub create_service_account :
      String → ServiceAccount → c.State → Option String × c.State
  create_service_account namespace template s =
      let (e, s') =
        c.apply
          (service_account_ac template.meta.name namespace
            (put managed_by_label managed_by_value template.meta.labels) template.meta.annotations)
          s in
      (
        in_context
            ("failed to apply ServiceAccount " <> template.meta.name <> " in namespace "
              <> namespace)
            e,
        s',
      )

  unfoldable pub in_namespaces :
      ServiceAccount → List String → List String → c.State → List String × c.State
  unfolding create_service_account
  in_namespaces sa [] errors s = (errors, s)
  in_namespaces sa (namespace ∷ rest) errors s =
      let (e, s') = create_service_account namespace sa s in
      in_namespaces sa rest (append_error errors e) s'

  unfoldable pub ensure_service_accounts_from :
      List ServiceAccount → List String → List String → c.State → List String × c.State
  unfolding in_namespaces
  ensure_service_accounts_from [] namespaces errors s = (errors, s)
  ensure_service_accounts_from (sa ∷ rest) namespaces errors s =
      let (errors', s') = in_namespaces sa namespaces errors s in
      ensure_service_accounts_from rest namespaces errors' s'

  unfoldable pub ensure_service_accounts :
      List ServiceAccount → List String → c.State → List String × c.State
  unfolding ensure_service_accounts_from
  ensure_service_accounts accounts namespaces s =
      ensure_service_accounts_from accounts namespaces [] s

  -- The owner reference is set where the resource's scope is that of the binding.
  unfoldable pub create_role_binding :
      WsaResource → List Subject → RoleRef → c.State → Option String × c.State
  create_role_binding r subjects ref s =
      let name = role_binding_name sha256_hex (get_name r) ref.name in
      let owner = if is_cluster_scoped r then none else owner_reference_ac scheme r in
      let (e, s') =
        c.apply (role_binding_ac name (get_namespace r) managed_labels ref subjects owner) s in
      (
        in_context ("failed to apply RoleBinding " <> name <> " in namespace " <> get_namespace r)
            e,
        s',
      )

  unfoldable pub create_cluster_role_binding :
      WsaResource → List Subject → RoleRef → c.State → Option String × c.State
  create_cluster_role_binding r subjects ref s =
      let name = cluster_role_binding_name sha256_hex (get_name r) ref.name in
      let owner = if is_cluster_scoped r then owner_reference_ac scheme r else none in
      let (e, s') = c.apply (cluster_role_binding_ac name managed_labels ref subjects owner) s in
      (in_context ("failed to apply ClusterRoleBinding " <> name) e, s')

  -- A loop of `createRoleBindingsForResource` over references.
  unfoldable pub bind_each :
      (RoleRef → c.State → Option String × c.State)
      → List RoleRef
      → List String
      → c.State
      → List String × c.State
  bind_each bind [] errors s = (errors, s)
  bind_each bind (ref ∷ refs) errors s =
      let (e, s') = bind ref s in bind_each bind refs (append_error errors e) s'

  abbrev pub bind_created :
      WsaResource → List Subject → Option String → List String → c.State → List String × c.State
  bind_created r subjects none errors s = (errors, s)
  bind_created r subjects (some name) errors s =
      let (e, s') =
        (if is_cluster_scoped r
          then create_cluster_role_binding r subjects (created_ref r name) s
          else create_role_binding r subjects (created_ref r name) s) in
      (append_error errors e, s')

  unfoldable pub create_role_bindings_for_resource :
      WsaResource
      → List ServiceAccountInfo
      → Map NamespacedName String
      → c.State
      → List String × c.State
  unfolding bind_each create_role_binding create_cluster_role_binding
  create_role_bindings_for_resource r accounts created_roles s =
      let subjects = subjects_of accounts in
      let (errors, s₁) = bind_each (create_role_binding r subjects) (get_roles r) [] s in
      let (errors', s₂) =
        bind_created r subjects (lookup (get_namespaced_name r) created_roles) errors s₁ in
      bind_each
        (if is_cluster_scoped r
          then create_cluster_role_binding r subjects
          else create_role_binding r subjects)
        (get_cluster_roles r) errors' s₂

  -- `allNamespacedServiceAccounts`.
  unfoldable pub namespaced_accounts : List String → List String → List ServiceAccountInfo
  namespaced_accounts [] namespaces = []
  namespaced_accounts (account ∷ rest) namespaces =
      map (λ ns. record { name = account; namespace = ns }) namespaces
      ++ namespaced_accounts rest namespaces

  unfoldable pub ensure_role_bindings_from :
      List WsaResource
      → Map NamespacedName String
      → Map NamespacedName (List String)
      → List String
      → List String
      → c.State
      → List String × c.State
  unfolding create_role_bindings_for_resource namespaced_accounts
  ensure_role_bindings_from [] roles names namespaces errors s = (errors, s)
  ensure_role_bindings_from (r ∷ rs) roles names namespaces errors s =
      let accounts = lookup_or [] (get_namespaced_name r) names in
      let skipped = ensure_role_bindings_from rs roles names namespaces errors s in
      let bound =
        let (es, s') =
          create_role_bindings_for_resource r (namespaced_accounts accounts namespaces) roles s in
        let context =
          "failed to ensure role bindings for resource " <> name_string (get_namespaced_name r) in
        ensure_role_bindings_from rs roles names namespaces
          (append_error errors (in_context context (combined es))) s' in
      if null accounts then skipped else bound

  unfoldable pub ensure_role_bindings :
      List WsaResource
      → Map NamespacedName String
      → Map NamespacedName (List String)
      → List String
      → c.State
      → List String × c.State
  unfolding ensure_role_bindings_from
  ensure_role_bindings rs roles names namespaces s =
      ensure_role_bindings_from rs roles names namespaces [] s
