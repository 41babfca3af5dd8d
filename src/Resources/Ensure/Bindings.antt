-- ===== src/Resources/Ensure/Bindings.antt =====
-- internal/rules/resource_management.go: the bindings of cluster roles after an ensure without an
-- error.
use octopus_permissions_cont.Prelude.{
  true, sym, ◌∙◌, ap, map, lookup, ◌++◌, String, List, [], ◌∷◌, Option, none, some, Map, null,
  lookup_or, Memᴰ, if◌then◌else◌, Bool-cases, inl, inr, string_eq, subst, ◌≡◌, refl, arith, false,
}
use octopus_permissions_cont.Api.{NamespacedName, name_eq, RoleRef}
use octopus_permissions_cont.Cluster.{
  Client, ApplyConfiguration, cluster_role_binding_ac, role_binding_ac, Subject,
}
use octopus_permissions_cont.Rules.Resource.{
  WsaResource, get_name, get_namespace, get_namespaced_name, get_roles, get_cluster_roles,
  is_cluster_scoped,
}
use octopus_permissions_cont.Resources.Names.{
  Scheme, owner_reference_ac, subjects_of, role_binding_name, cluster_role_binding_name,
  ServiceAccountInfo,
}
use octopus_permissions_cont.Resources.Ensure.{
  managed_labels, combined, bind_each, bind_created, created_ref, create_role_binding,
  create_cluster_role_binding, create_role_bindings_for_resource, namespaced_accounts,
  ensure_role_bindings_from, ensure_role_bindings,
}
use octopus_permissions_cont.Resources.Ensure.Laws.{
  Applies, AppliesWhere, Agree, append_error-none, in_context-none,
}

pub combined-none : (errors : List String) → combined errors ≡ none → errors ≡ []
combined-none [] h = refl
combined-none (e ∷ es) h = ground arith

-- The binding of a cluster role: for the cluster if the resource is, else in its namespace.
abbrev pub cluster_role_bound :
    Scheme → (String → String) → WsaResource → List Subject → RoleRef → ApplyConfiguration
cluster_role_bound scheme sha256_hex r subjects ref =
    if is_cluster_scoped r
    then cluster_role_binding_ac (cluster_role_binding_name sha256_hex (get_name r) ref.name)
        managed_labels ref subjects (owner_reference_ac scheme r)
    else role_binding_ac (role_binding_name sha256_hex (get_name r) ref.name) (get_namespace r)
        managed_labels ref subjects (owner_reference_ac scheme r)

-- The binding that `createRoleBinding` applies.
abbrev pub role_bound :
    Scheme → (String → String) → WsaResource → List Subject → RoleRef → ApplyConfiguration
role_bound scheme sha256_hex r subjects ref =
    role_binding_ac (role_binding_name sha256_hex (get_name r) ref.name) (get_namespace r)
      managed_labels ref subjects
      (if is_cluster_scoped r then none else owner_reference_ac scheme r)

-- The binding that `createClusterRoleBinding` applies.
abbrev wide_bound :
    Scheme → (String → String) → WsaResource → List Subject → RoleRef → ApplyConfiguration
wide_bound scheme sha256_hex r subjects ref =
    cluster_role_binding_ac (cluster_role_binding_name sha256_hex (get_name r) ref.name)
      managed_labels ref subjects
      (if is_cluster_scoped r then owner_reference_ac scheme r else none)

cluster_role_bound-wide :
    (scheme : Scheme) (sha256_hex : String → String) (r : WsaResource) (subjects : List Subject)
    (ref : RoleRef)
    → is_cluster_scoped r ≡ true
    → cluster_role_bound scheme sha256_hex r subjects ref
      ≡ wide_bound scheme sha256_hex r subjects ref
cluster_role_bound-wide scheme sha256_hex r subjects ref wide = rw wide refl

cluster_role_bound-narrow :
    (scheme : Scheme) (sha256_hex : String → String) (r : WsaResource) (subjects : List Subject)
    (ref : RoleRef)
    → is_cluster_scoped r ≡ false
    → cluster_role_bound scheme sha256_hex r subjects ref
      ≡ role_bound scheme sha256_hex r subjects ref
cluster_role_bound-narrow scheme sha256_hex r subjects ref narrow = rw narrow refl

-- The binding of the role that was made of a resource's permissions.
abbrev pub created_bound :
    Scheme
    → (String → String)
    → WsaResource
    → List Subject
    → Option String
    → List ApplyConfiguration
created_bound scheme sha256_hex r subjects none = []
created_bound scheme sha256_hex r subjects (some name) =
    cluster_role_bound scheme sha256_hex r subjects (created_ref r name) ∷ []

-- All bindings that are applied for a resource.
abbrev pub bindings_of :
    Scheme
    → (String → String)
    → WsaResource
    → List Subject
    → Option String
    → List ApplyConfiguration
bindings_of scheme sha256_hex r subjects created =
    map (role_bound scheme sha256_hex r subjects) (get_roles r)
    ++ (created_bound scheme sha256_hex r subjects created
        ++ map (cluster_role_bound scheme sha256_hex r subjects) (get_cluster_roles r))

Mem-append_left : {A : Type 0} (xs ys : List A) (a : A) → Memᴰ a xs → Memᴰ a (xs ++ ys)
Mem-append_left [] ys a m = elim m [ ]
Mem-append_left (x ∷ xs) ys a (Memᴰ.head e) = Memᴰ.head e
Mem-append_left (x ∷ xs) ys a (Memᴰ.tail m) = Memᴰ.tail (Mem-append_left xs ys a m)

pub Mem-append_right : {A : Type 0} (xs ys : List A) (a : A) → Memᴰ a ys → Memᴰ a (xs ++ ys)
Mem-append_right [] ys a m = m
Mem-append_right (x ∷ xs) ys a m = Memᴰ.tail (Mem-append_right xs ys a m)

pub Mem-map : {A B : Type 0} (f : A → B) (xs : List A) (a : A) → Memᴰ a xs → Memᴰ (f a) (map f xs)
Mem-map f [] a m = elim m [ ]
Mem-map f (x ∷ xs) a (Memᴰ.head h) = Memᴰ.head (ap f h)
Mem-map f (x ∷ xs) a (Memᴰ.tail m) = Memᴰ.tail (Mem-map f xs a m)

module _ (c : Client) (scheme : Scheme) (sha256_hex : String → String) where
  -- The accounts that a resource's bindings name.
  abbrev pub accounts_of :
      Map NamespacedName (List String) → List String → WsaResource → List ServiceAccountInfo
  accounts_of names namespaces r =
      namespaced_accounts c scheme sha256_hex (lookup_or [] (get_namespaced_name r) names)
        namespaces

  -- The bindings that a call applies for a resource.
  abbrev pub bindings_for :
      Map NamespacedName String
      → Map NamespacedName (List String)
      → List String
      → WsaResource
      → List ApplyConfiguration
  bindings_for roles names namespaces r =
      bindings_of scheme sha256_hex r (subjects_of (accounts_of names namespaces r))
        (lookup (get_namespaced_name r) roles)

module _ (c : Client) (scheme : Scheme) (sha256_hex : String → String)
    (IsCompatible : ApplyConfiguration → ApplyConfiguration → Type 0)
    (Holds : ApplyConfiguration → c.State → Type 0) (applies : AppliesWhere c IsCompatible Holds)
    (b : ApplyConfiguration) where
  abbrev Binder : Type 0
  Binder = RoleRef → c.State → Option String × c.State

  -- The binder keeps what holds, for the references of a list.
  abbrev Keeps : Binder → List RoleRef → Type 0
  Keeps bind refs =
      (ref : RoleRef) (s : c.State) → Memᴰ ref refs → Holds b s → Holds b (bind ref s).1

  abbrev Binds : Binder → RoleRef → Type 0
  Binds bind ref = (s : c.State) → (bind ref s).0 ≡ none → Holds b (bind ref s).1

  -- All of these bindings are compatible with the configuration.
  abbrev Fits : List ApplyConfiguration → Type 0
  Fits bound = (a : ApplyConfiguration) → Memᴰ a bound → IsCompatible a b

  bind_each-Keeps :
      (bind : Binder) (refs : List RoleRef) (errors : List String) (s : c.State)
      → Keeps bind refs
      → Holds b s
      → Holds b (bind_each c scheme sha256_hex bind refs errors s).1
  unfolding bind_each
  bind_each-Keeps bind [] errors s k h = h
  bind_each-Keeps bind (ref ∷ refs) errors s k h =
      bind_each-Keeps bind refs _ (bind ref s).1 (λ x s' m. k x s' (Memᴰ.tail m))
        (k ref s (Memᴰ.head refl) h)

  bind_each-errors :
      (bind : Binder) (refs : List RoleRef) (errors : List String) (s : c.State)
      → (bind_each c scheme sha256_hex bind refs errors s).0 ≡ []
      → errors ≡ []
  unfolding bind_each
  bind_each-errors bind [] errors s h = h
  bind_each-errors bind (ref ∷ refs) errors s h =
      (append_error-none errors (bind ref s).0 (bind_each-errors bind refs _ (bind ref s).1 h)).0

  bind_each-Binds :
      (bind : Binder) (refs : List RoleRef) (errors : List String) (s : c.State) (ref : RoleRef)
      → Keeps bind refs
      → Binds bind ref
      → (bind_each c scheme sha256_hex bind refs errors s).0 ≡ []
      → Memᴰ ref refs
      → Holds b (bind_each c scheme sha256_hex bind refs errors s).1
  unfolding bind_each
  bind_each-Binds bind [] errors s ref k a h m = elim m [ ]
  bind_each-Binds bind (x ∷ refs) errors s ref k a h (Memᴰ.tail m) =
      bind_each-Binds bind refs _ (bind x s).1 ref (λ y s' i. k y s' (Memᴰ.tail i)) a h m
  bind_each-Binds bind (x ∷ refs) errors s ref k a h (Memᴰ.head e) =
      bind_each-Keeps bind refs _ (bind x s).1 (λ y s' i. k y s' (Memᴰ.tail i))
        (subst (Binds bind) e a s
          (append_error-none errors (bind x s).0 (bind_each-errors bind refs _ (bind x s).1 h)).1)

  abbrev bind_cluster_role : WsaResource → List Subject → Binder
  bind_cluster_role r subjects =
      if is_cluster_scoped r
      then create_cluster_role_binding c scheme sha256_hex r subjects
      else create_role_binding c scheme sha256_hex r subjects

  bind_role-kept :
      (r : WsaResource) (subjects : List Subject) (ref : RoleRef) (s : c.State)
      → IsCompatible (role_bound scheme sha256_hex r subjects ref) b
      → Holds b s
      → Holds b (create_role_binding c scheme sha256_hex r subjects ref s).1
  unfolding create_role_binding
  bind_role-kept r subjects ref s fit h = applies.kept _ b s fit h

  bind_cluster_role-kept :
      (r : WsaResource) (subjects : List Subject) (ref : RoleRef) (s : c.State)
      → IsCompatible (cluster_role_bound scheme sha256_hex r subjects ref) b
      → Holds b s
      → Holds b (bind_cluster_role r subjects ref s).1
  unfolding create_role_binding create_cluster_role_binding
  bind_cluster_role-kept r subjects ref s fit h = elim (Bool-cases (is_cluster_scoped r)) [
    | inl wide ↦ rw wide (
        applies.kept _ b s
          (subst (λ a. IsCompatible a b)
            (cluster_role_bound-wide scheme sha256_hex r subjects ref wide) fit)
          h)
    | inr narrow ↦ rw narrow (
        applies.kept _ b s
          (subst (λ a. IsCompatible a b)
            (cluster_role_bound-narrow scheme sha256_hex r subjects ref narrow) fit)
          h)
  ]

  bind_cluster_role-Binds :
      (r : WsaResource) (subjects : List Subject) (ref : RoleRef)
      → b ≡ cluster_role_bound scheme sha256_hex r subjects ref
      → Binds (bind_cluster_role r subjects) ref
  unfolding create_role_binding create_cluster_role_binding
  bind_cluster_role-Binds r subjects ref is s h = elim (Bool-cases (is_cluster_scoped r)) [
    | inl wide ↦ rw wide (
        subst (λ x. Holds x (c.apply (wide_bound scheme sha256_hex r subjects ref) s).1)
          (sym (is ∙ cluster_role_bound-wide scheme sha256_hex r subjects ref wide))
          (applies.applied (wide_bound scheme sha256_hex r subjects ref) s
            (in_context-none _ _ (rw wide at h))))
    | inr narrow ↦ rw narrow (
        subst (λ x. Holds x (c.apply (role_bound scheme sha256_hex r subjects ref) s).1)
          (sym (is ∙ cluster_role_bound-narrow scheme sha256_hex r subjects ref narrow))
          (applies.applied (role_bound scheme sha256_hex r subjects ref) s
            (in_context-none _ _ (rw narrow at h))))
  ]

  created-kept :
      (r : WsaResource) (subjects : List Subject) (name : Option String) (errors : List String)
      (s : c.State)
      → Fits (created_bound scheme sha256_hex r subjects name)
      → Holds b s
      → Holds b (bind_created c scheme sha256_hex r subjects name errors s).1
  created-kept r subjects none errors s fit h = h
  created-kept r subjects (some name) errors s fit h =
      let k = bind_cluster_role-kept r subjects (created_ref r name) s (fit _ (Memᴰ.head refl)) h in
      elim (Bool-cases (is_cluster_scoped r)) [
        | inl wide ↦ rw wide (rw wide at k)
        | inr narrow ↦ rw narrow (rw narrow at k)
      ]

  cluster_roles-Keeps :
      (r : WsaResource) (subjects : List Subject) (created : Option String)
      → Fits (bindings_of scheme sha256_hex r subjects created)
      → Keeps (bind_cluster_role r subjects) (get_cluster_roles r)
  cluster_roles-Keeps r subjects created fit ref s m = bind_cluster_role-kept r subjects ref s (
      fit _ (
        Mem-append_right (map (role_bound scheme sha256_hex r subjects) (get_roles r)) _ _ (
          Mem-append_right (created_bound scheme sha256_hex r subjects created) _ _
            (Mem-map (cluster_role_bound scheme sha256_hex r subjects) _ ref m))))

  resource-kept :
      (r : WsaResource) (accounts : List ServiceAccountInfo) (roles : Map NamespacedName String)
      (s : c.State)
      → Fits (
          bindings_of scheme sha256_hex r
            (subjects_of accounts)
            (lookup (get_namespaced_name r) roles))
      → Holds b s
      → Holds b (create_role_bindings_for_resource c scheme sha256_hex r accounts roles s).1
  unfolding create_role_bindings_for_resource
  resource-kept r accounts roles s fit h =
      let subjects = subjects_of accounts in
      let created = lookup (get_namespaced_name r) roles in
      bind_each-Keeps (bind_cluster_role r subjects) (get_cluster_roles r) _ _
        (cluster_roles-Keeps r subjects created fit)
        (created-kept r subjects created _ _
          (λ a m. fit a (
            Mem-append_right (map (role_bound scheme sha256_hex r subjects) (get_roles r)) _ a
              (Mem-append_left _ _ a m)))
          (bind_each-Keeps (create_role_binding c scheme sha256_hex r subjects) (get_roles r) [] s
            (λ ref s' m. bind_role-kept r subjects ref s' (
              fit _ (
                Mem-append_left _ _ _ (Mem-map (role_bound scheme sha256_hex r subjects) _ ref m))))
            h))

  resource-Binds :
      (r : WsaResource) (accounts : List ServiceAccountInfo) (roles : Map NamespacedName String)
      (s : c.State) (ref : RoleRef)
      → Fits (
          bindings_of scheme sha256_hex r
            (subjects_of accounts)
            (lookup (get_namespaced_name r) roles))
      → b ≡ cluster_role_bound scheme sha256_hex r (subjects_of accounts) ref
      → (create_role_bindings_for_resource c scheme sha256_hex r accounts roles s).0 ≡ []
      → Memᴰ ref (get_cluster_roles r)
      → Holds b (create_role_bindings_for_resource c scheme sha256_hex r accounts roles s).1
  unfolding create_role_bindings_for_resource
  resource-Binds r accounts roles s ref fit is h m =
      let subjects = subjects_of accounts in
      bind_each-Binds (bind_cluster_role r subjects) (get_cluster_roles r) _ _ ref
        (cluster_roles-Keeps r subjects (lookup (get_namespaced_name r) roles) fit)
        (bind_cluster_role-Binds r subjects ref is) h m

  -- All bindings of all the resources are compatible with the configuration.
  abbrev pub BindingsFit :
      List WsaResource
      → Map NamespacedName String
      → Map NamespacedName (List String)
      → List String
      → Type 0
  BindingsFit rs roles names namespaces =
      (x : WsaResource) (a : ApplyConfiguration)
      → Memᴰ x rs
      → Memᴰ a (bindings_for c scheme sha256_hex roles names namespaces x)
      → IsCompatible a b

  pub bindings-kept :
      (rs : List WsaResource) (roles : Map NamespacedName String)
      (names : Map NamespacedName (List String)) (namespaces errors : List String) (s : c.State)
      → BindingsFit rs roles names namespaces
      → Holds b s
      → Holds b (ensure_role_bindings_from c scheme sha256_hex rs roles names namespaces errors s).1
  unfolding ensure_role_bindings_from
  bindings-kept [] roles names namespaces errors s fit h = h
  bindings-kept (r ∷ rs) roles names namespaces errors s fit h =
      elim (Bool-cases (null (lookup_or [] (get_namespaced_name r) names))) [
        | inl empty ↦
            rw empty
              (bindings-kept rs roles names namespaces errors s (λ x a m. fit x a (Memᴰ.tail m)) h)
        | inr some_names ↦ rw some_names (
            bindings-kept rs roles names namespaces _ _ (λ x a m. fit x a (Memᴰ.tail m))
              (resource-kept r (accounts_of c scheme sha256_hex names namespaces r) roles s
                (λ a m. fit r a (Memᴰ.head refl) m) h))
      ]

  bindings-errors :
      (rs : List WsaResource) (roles : Map NamespacedName String)
      (names : Map NamespacedName (List String)) (namespaces errors : List String) (s : c.State)
      → (ensure_role_bindings_from c scheme sha256_hex rs roles names namespaces errors s).0 ≡ []
      → errors ≡ []
  unfolding ensure_role_bindings_from
  bindings-errors [] roles names namespaces errors s h = h
  bindings-errors (r ∷ rs) roles names namespaces errors s h =
      elim (Bool-cases (null (lookup_or [] (get_namespaced_name r) names))) [
        | inl empty ↦ bindings-errors rs roles names namespaces errors s (rw empty at h)
        | inr some_names ↦
            (append_error-none errors _
              (bindings-errors rs roles names namespaces _ _ (rw some_names at h))).0
      ]

  pub bindings-Binds :
      (rs : List WsaResource) (roles : Map NamespacedName String)
      (names : Map NamespacedName (List String)) (namespaces errors : List String) (s : c.State)
      (r : WsaResource) (ref : RoleRef)
      → BindingsFit rs roles names namespaces
      → b
        ≡ cluster_role_bound scheme sha256_hex r
            (subjects_of (accounts_of c scheme sha256_hex names namespaces r))
            ref
      → (ensure_role_bindings_from c scheme sha256_hex rs roles names namespaces errors s).0 ≡ []
      → Memᴰ r rs
      → Memᴰ ref (get_cluster_roles r)
      → null (lookup_or [] (get_namespaced_name r) names) ≡ false
      → Holds b (ensure_role_bindings_from c scheme sha256_hex rs roles names namespaces errors s).1
  unfolding ensure_role_bindings_from
  bindings-Binds [] roles names namespaces errors s r ref fit is h m n i = elim m [ ]
  bindings-Binds (x ∷ rs) roles names namespaces errors s r ref fit is h (Memᴰ.tail m) n i =
      elim (Bool-cases (null (lookup_or [] (get_namespaced_name x) names))) [
        | inl empty ↦ rw empty (
            bindings-Binds rs roles names namespaces errors s r ref (λ y a j. fit y a (Memᴰ.tail j))
              is (rw empty at h) m n i)
        | inr named ↦ rw named (
            bindings-Binds rs roles names namespaces _ _ r ref (λ y a j. fit y a (Memᴰ.tail j)) is
              (rw named at h) m n i)
      ]
  bindings-Binds (x ∷ rs) roles names namespaces errors s r ref fit is h (Memᴰ.head e) n i =
      let accounts = accounts_of c scheme sha256_hex names namespaces x in
      let some_names = subst (λ y. null (lookup_or [] (get_namespaced_name y) names) ≡ false) e i in
      rw some_names (
        bindings-kept rs roles names namespaces _ _ (λ y a j. fit y a (Memᴰ.tail j))
          (resource-Binds x accounts roles s ref (λ a j. fit x a (Memᴰ.head refl) j)
            (subst
              (λ y.
                b
                ≡ cluster_role_bound scheme sha256_hex y
                    (subjects_of (accounts_of c scheme sha256_hex names namespaces y)) ref)
              e is)
            (combined-none _ (
              in_context-none _ _
                (append_error-none errors _
                  (bindings-errors rs roles names namespaces _ _ (rw some_names at h))).1))
            (subst (λ y. Memᴰ ref (get_cluster_roles y)) e n)))

-- If the call returns no error, then every resource that has service accounts has a binding of each
-- cluster role that it refers to, whose subjects are all its accounts in all the target namespaces:
-- a binding for the cluster if the resource is for the cluster, else one in the namespace of the
-- resource. No binding that the call applies may be another one of the same name and namespace, and
-- the API server must do what server-side apply documents.
pub ensure_role_bindings-Binds :
    (c : Client) (scheme : Scheme) (sha256_hex : String → String)
    (Holds : ApplyConfiguration → c.State → Type 0) (applies : Applies c Holds)
    (rs : List WsaResource) (roles : Map NamespacedName String)
    (names : Map NamespacedName (List String)) (namespaces : List String) (s : c.State)
    (r : WsaResource) (ref : RoleRef)
    → ((x : WsaResource) (a : ApplyConfiguration)
        → Memᴰ x rs
        → Memᴰ a (bindings_for c scheme sha256_hex roles names namespaces x)
        → Agree a (
            cluster_role_bound scheme sha256_hex r
              (subjects_of (accounts_of c scheme sha256_hex names namespaces r))
              ref))
    → (ensure_role_bindings c scheme sha256_hex rs roles names namespaces s).0 ≡ []
    → Memᴰ r rs
    → Memᴰ ref (get_cluster_roles r)
    → null (lookup_or [] (get_namespaced_name r) names) ≡ false
    → Holds
        (cluster_role_bound scheme sha256_hex r
          (subjects_of (accounts_of c scheme sha256_hex names namespaces r))
          ref)
        (ensure_role_bindings c scheme sha256_hex rs roles names namespaces s).1
unfolding ensure_role_bindings
ensure_role_bindings-Binds c scheme sha256_hex Holds applies rs roles names namespaces s r ref fit
      h =
    bindings-Binds c scheme sha256_hex Agree Holds applies _ rs roles names namespaces [] s r ref
      fit refl h
