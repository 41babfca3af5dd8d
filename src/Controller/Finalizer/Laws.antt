-- ===== src/Controller/Finalizer/Laws.antt =====
-- internal/controller: what a reconcile patches, and which event it queues.
use octopus_permissions_cont.Prelude.{
  ◌⊎◌, if◌then◌else◌, String, true, not, ◌&&◌, List, [], ◌∷◌, Option, none, some, contains, lookup,
  lookup-put, Bool-cases, inl, inr, string_eq, ◌==◌, ==_refl, eq_iff, ◌≡◌, refl, arith,
}
use octopus_permissions_cont.Api.{NamespacedName, name_eq, ObjectMeta}
use octopus_permissions_cont.Cluster.{found}
use octopus_permissions_cont.Rules.Resource.{WsaResource, owner_meta, get_namespaced_name}
use octopus_permissions_cont.Engine.{InMemoryEngine, is_wsa_in_maps}
use octopus_permissions_cont.Reconciliation.Batch.{new_event_info, event_type_delete}
use octopus_permissions_cont.Reconciliation.Collector.{EventCollector, add_event}
use octopus_permissions_cont.Controller.Finalizer.{
  ResourceClient, service_account_cleanup_finalizer, contains_cleanup_finalizer,
  remove_cleanup_finalizer, without, with_meta, is_being_deleted, handle_deletion, reconcile,
  patched,
}

contains-without :
    (fs : List String) (f x : String) → contains (without x fs) f ≡ (contains fs f && not (f == x))
unfolding without
contains-without [] f x = refl
contains-without (g ∷ gs) f x =
    ground (arith, contains-without gs f x, eq_iff g x, eq_iff f x, eq_iff g f)

-- Removing the finalizer takes it off, however often it stands there, and keeps every other one.
pub contains-remove_cleanup_finalizer :
    (m : ObjectMeta) (f : String)
    → contains (remove_cleanup_finalizer m).finalizers f
      ≡ (contains m.finalizers f && not (f == service_account_cleanup_finalizer))
unfolding remove_cleanup_finalizer
contains-remove_cleanup_finalizer m f =
    contains-without m.finalizers f service_account_cleanup_finalizer

module _ (c : ResourceClient) where
  -- What a reconcile of a resource that is being deleted writes to the API server.
  abbrev pub after_deletion : InMemoryEngine → WsaResource → c.State → c.State
  after_deletion engine r s =
      let m = owner_meta r in
      let named = is_wsa_in_maps engine (record { namespace = m.namespace; name = m.name }) in
      if contains_cleanup_finalizer m && not named
      then (c.patch r (remove_cleanup_finalizer m) s).1
      else s

  state-patched : (out : Option String × c.State) → (patched c out).1 ≡ out.1
  state-patched (none, s) = refl
  state-patched (some e, s) = refl

  handle_deletion_lem :
      (engine : InMemoryEngine) (r : WsaResource) (s : c.State)
      → (handle_deletion c engine r s).1 ≡ after_deletion engine r s
  unfolding handle_deletion
  handle_deletion_lem engine r s = elim (Bool-cases (contains_cleanup_finalizer (owner_meta r))) [
    | inr h ↦ rw h refl
    | inl h ↦
        elim (Bool-cases (
          is_wsa_in_maps engine
            (record { namespace = (owner_meta r).namespace; name = (owner_meta r).name }))) [
              | inl named ↦ rw (h, named) refl
              | inr forgotten ↦
                  rw (h, forgotten)
                    (state-patched (c.patch r (remove_cleanup_finalizer (owner_meta r)) s))
            ]
  ]

  -- A resource that is being deleted always queues its deletion. A reconcile of it writes to the
  -- API server only if it has the finalizer and the engine's maps do not name it any more, and then
  -- only the patch that removes the finalizer.
  pub reconcile-deleted :
      (engine : InMemoryEngine) (key : NamespacedName) (events : EventCollector) (s : c.State)
      (r : WsaResource)
      → c.get key s ≡ found r
      → is_being_deleted (owner_meta r) ≡ true
      → (lookup (get_namespaced_name r) (reconcile c engine key events s).1.event_map
          ≡ some (new_event_info r event_type_delete))
        × ((reconcile c engine key events s).2 ≡ after_deletion engine r s)
  unfolding reconcile add_event new_event_info
  reconcile-deleted engine key events s r answer deleting =
      rw (answer, deleting)
        (
          rw
              (
                lookup-put (get_namespaced_name r) (get_namespaced_name r)
                    (new_event_info r event_type_delete) events.event_map,
                ==_refl (get_namespaced_name r),
              )
              refl,
          handle_deletion_lem engine r s,
        )

  -- The event's resource is the one that was read: as it was, with nothing written, or with the
  -- metadata of a patch that the API server took.
  abbrev pub Stored : WsaResource → WsaResource → c.State → c.State → Type 0
  Stored r x s s' =
      ((x ≡ r) × (s' ≡ s))
      ⊎ ((x ≡ with_meta (owner_meta x) r)
          × ((c.patch r (owner_meta x) s).0 ≡ none)
          × (s' ≡ (c.patch r (owner_meta x) s).1))
