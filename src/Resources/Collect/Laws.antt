-- ===== src/Resources/Collect/Laws.antt =====
-- internal/rules/resource_management.go: what garbage collection may delete.
use octopus_permissions_cont.Prelude.{
  String, Bool, true, false, ◌&&◌, List, [], ◌∷◌, Memᴰ, contains, Set, Bool-cases, inl, inr,
  string_eq, ◌≡◌, refl, arith,
}
use octopus_permissions_cont.Result.{Result, ok, err, panic}
use octopus_permissions_cont.Api.{name_eq, ObjectMeta}
use octopus_permissions_cont.Cluster.{Client, Kind, service_account_kind, role_binding_kind}
use octopus_permissions_cont.Rules.Resource.{WsaResource}
use octopus_permissions_cont.Rules.Naming.{
  ServiceAccount, is_octopus_managed, managed_by_label, managed_by_value,
}
use octopus_permissions_cont.Resources.Collect.{
  Tracked, delete_one, delete_orphans, metas, managed_only, expected_bindings,
  garbage_collect_role_bindings, collect_listed, garbage_collect_service_accounts,
  should_delete_service_account,
}

managed-metas :
    {A : Type 0} (meta : A → ObjectMeta) (xs : List A) (m : ObjectMeta)
    → Memᴰ m (metas meta (managed_only meta xs))
    → is_octopus_managed m.labels ≡ true
unfolding metas managed_only
managed-metas meta [] m h = elim h [ ]
managed-metas meta (x ∷ xs) m h = elim (Bool-cases (is_octopus_managed (meta x).labels)) [
  | inl managed ↦ elim (rw managed at h) [
    | Memᴰ.head e ↦ rw e managed
    | Memᴰ.tail i ↦ managed-metas meta xs m i
  ]
  | inr other ↦ managed-metas meta xs m (rw other at h)
]

module _ (c : Client) (has_tracker : Bool) (P : c.State → Type 0) where
  pub delete_orphans-preserves :
      (kind : Kind) (what : String) (orphan : ObjectMeta → Bool) (ms : List ObjectMeta)
      (errors : List String) (s : Tracked c.State)
      → ((m : ObjectMeta)
          → Memᴰ m ms
          → orphan m ≡ true
          → (t : c.State) → P t
          → P (c.delete kind m t).1)
      → P s.cluster
      → P (delete_orphans c has_tracker kind what orphan ms errors s).1.cluster
  unfolding delete_orphans delete_one
  delete_orphans-preserves kind what orphan [] errors s keeps p = p
  delete_orphans-preserves kind what orphan (m ∷ ms) errors s keeps p =
      elim (Bool-cases (orphan m)) [
        | inl h ↦ rw h (
            delete_orphans-preserves kind what orphan ms _ _ (λ m' i. keeps m' (Memᴰ.tail i))
              (keeps m (Memᴰ.head refl) h s.cluster p))
        | inr h ↦ rw h (
            delete_orphans-preserves kind what orphan ms errors s (λ m' i. keeps m' (Memᴰ.tail i))
              p)
      ]

  pub collect_listed-preserves :
      {A : Type 0} (what : String) (r : Result (List A))
      (loop : List A → Tracked c.State → List String × Tracked c.State) (s : Tracked c.State)
      → ((xs : List A) (t : Tracked c.State) → P t.cluster → P (loop xs t).1.cluster)
      → P s.cluster
      → P (collect_listed c has_tracker what r loop s).1.cluster
  collect_listed-preserves what (ok xs) loop s keeps p = keeps xs s p
  collect_listed-preserves what (err e) loop s keeps p = p
  collect_listed-preserves what panic loop s keeps p = p

  -- Whatever holds of the cluster keeps holding through the collection of role bindings, whatever
  -- the API server answers, if it survives the deletion of those bindings that carry the label of
  -- the controller and that no resource calls for: the collector deletes no other binding.
  pub garbage_collect_role_bindings-preserves :
      (sha256_hex : String → String) (rs : List WsaResource) (s : Tracked c.State)
      → ((m : ObjectMeta)
          → is_octopus_managed m.labels ≡ true
          → contains
              (expected_bindings sha256_hex rs)
              (record { namespace = m.namespace; name = m.name })
            ≡ false
          → (t : c.State) → P t
          → P (c.delete role_binding_kind m t).1)
      → P s.cluster
      → P (garbage_collect_role_bindings c has_tracker sha256_hex rs s).1.cluster
  unfolding garbage_collect_role_bindings
  garbage_collect_role_bindings-preserves sha256_hex rs s keeps p =
      collect_listed-preserves "RoleBindings" (c.list_role_bindings s.cluster) _ s
        (λ bindings t.
          delete_orphans-preserves role_binding_kind "RoleBinding" _ _ [] t λ m i orphan.
            keeps m (managed-metas (λ rb. rb.meta) bindings m i) (ground (arith, orphan)))
        p

  -- The same for service accounts: the collector deletes only accounts that the API server lists
  -- under the controller's label, and of these only those that are in no target namespace or have
  -- a name that the plan does not expect.
  pub garbage_collect_service_accounts-preserves :
      (expected namespaces : Set String) (s : Tracked c.State) (sas : List ServiceAccount)
      → c.list_matching_service_accounts managed_by_label managed_by_value s.cluster ≡ ok sas
      → ((m : ObjectMeta)
          → Memᴰ m (metas (λ sa. sa.meta) sas)
          → (contains namespaces m.namespace && contains expected m.name) ≡ false
          → (t : c.State) → P t
          → P (c.delete service_account_kind m t).1)
      → P s.cluster
      → P (garbage_collect_service_accounts c has_tracker expected namespaces s).1.cluster
  unfolding garbage_collect_service_accounts should_delete_service_account
  garbage_collect_service_accounts-preserves expected namespaces s sas listed keeps p = rw listed (
      delete_orphans-preserves service_account_kind "ServiceAccount" _ (metas (λ sa. sa.meta) sas)
        [] s (λ m i orphan. keeps m i (ground (arith, orphan))) p)
