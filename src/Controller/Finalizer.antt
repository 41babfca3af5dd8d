-- ===== src/Controller/Finalizer.antt =====
-- internal/controller: helpers.go, finalizer_helpers.go, and the reconcile functions of both kinds.
pub mod Laws
use octopus_permissions_cont.Prelude.{
  ℕ, String, Bool, true, false, not, ◌&&◌, ◌||◌, List, [], ◌∷◌, ◌++◌, Option, none, some, contains,
  if◌then◌else◌, string_eq, ◌==◌,
}
use octopus_permissions_cont.Api.{NamespacedName, ObjectMeta}
use octopus_permissions_cont.Cluster.{Answer, found, not_found, failed}
use octopus_permissions_cont.Rules.Resource.{
  WsaResource, wsa_adapter, cluster_wsa_adapter, owner_meta,
}
use octopus_permissions_cont.Engine.{InMemoryEngine, is_wsa_in_maps}
use octopus_permissions_cont.Reconciliation.Batch.{
  EventInfo, new_event_info, new_create_or_update_event_info, event_type_delete,
}
use octopus_permissions_cont.Reconciliation.Collector.{EventCollector, add_event}

abbrev pub service_account_cleanup_finalizer : String
service_account_cleanup_finalizer = "octopus.com/serviceaccount-cleanup"

unfoldable pub contains_cleanup_finalizer : ObjectMeta → Bool
contains_cleanup_finalizer m = contains m.finalizers service_account_cleanup_finalizer

-- `controllerutil.AddFinalizer` where the finalizer is missing, and `RemoveFinalizer`.
unfoldable pub add_cleanup_finalizer : ObjectMeta → ObjectMeta
add_cleanup_finalizer m = record m {
  finalizers = m.finalizers ++ (service_account_cleanup_finalizer ∷ []);
}

unfoldable pub without : String → List String → List String
without x [] = []
without x (y ∷ ys) = if y == x then without x ys else y ∷ without x ys

unfoldable pub remove_cleanup_finalizer : ObjectMeta → ObjectMeta
unfolding without
remove_cleanup_finalizer m = record m {
  finalizers = without service_account_cleanup_finalizer m.finalizers;
}

abbrev pub with_meta : ObjectMeta → WsaResource → WsaResource
with_meta m (wsa_adapter w) = wsa_adapter (record w { meta = m })
with_meta m (cluster_wsa_adapter c) = cluster_wsa_adapter (record c { meta = m })

unfoldable pub is_being_deleted : ObjectMeta → Bool
is_being_deleted m = elim (m.deletion_timestamp) [ none ↦ false | some _ ↦ true ]

-- The API server over an unknown state: a read of a resource, and a patch of its metadata.
pub record ResourceClient : Type 1 where
  pub State : Type 0
  pub get : NamespacedName → State → Answer WsaResource
  pub patch : WsaResource → ObjectMeta → State → Option String × State

-- `ctrl.Result` with its error: whether the request comes back after the delay.
pub data ReconcileResult : Type 0 where
  done requeue_after_delay : ReconcileResult
  failed_with : String → ReconcileResult

module _ (c : ResourceClient) where
  -- `handleDeletion`.
  abbrev pub patched : Option String × c.State → ReconcileResult × c.State
  patched (none, s) = (done, s)
  patched (some e, s) = (failed_with e, s)

  unfoldable pub handle_deletion :
      InMemoryEngine → WsaResource → c.State → ReconcileResult × c.State
  unfolding contains_cleanup_finalizer remove_cleanup_finalizer
  handle_deletion engine r s =
      let m = owner_meta r in
      if not (contains_cleanup_finalizer m)
      then (done, s)
      else if is_wsa_in_maps engine (record { namespace = m.namespace; name = m.name })
      then (requeue_after_delay, s)
      else patched (c.patch r (remove_cleanup_finalizer m) s)

  -- `ensureFinalizer`: the error, and the resource with its finalizer.
  unfoldable pub ensure_finalizer : WsaResource → c.State → Option String × WsaResource × c.State
  unfolding contains_cleanup_finalizer add_cleanup_finalizer
  ensure_finalizer r s =
      let m = owner_meta r in
      let (e, s') = c.patch r (add_cleanup_finalizer m) s in
      if contains_cleanup_finalizer m
      then (none, r, s)
      else (e, with_meta (add_cleanup_finalizer m) r, s')

  -- The part of `Reconcile` for a resource that lives.
  abbrev pub queued :
      Option String × WsaResource × c.State
      → EventCollector
      → ReconcileResult × EventCollector × c.State
  queued (some e, r, s) events = (failed_with e, events, s)
  queued (none, r, s) events = (done, add_event (new_create_or_update_event_info r) events, s)

  -- The part for a resource that was found, by whether it is being deleted.
  abbrev pub reconcile_found :
      Bool
      → InMemoryEngine
      → WsaResource
      → EventCollector
      → c.State
      → ReconcileResult × EventCollector × c.State
  reconcile_found true engine r events s =
      let (result, s') = handle_deletion engine r s in
      (result, add_event (new_event_info r event_type_delete) events, s')
  reconcile_found false engine r events s = queued (ensure_finalizer r s) events

  abbrev pub reconcile_answer :
      Answer WsaResource
      → InMemoryEngine
      → EventCollector
      → c.State
      → ReconcileResult × EventCollector × c.State
  reconcile_answer not_found engine events s = (done, events, s)
  reconcile_answer (failed e) engine events s = (failed_with e, events, s)
  reconcile_answer (found r) engine events s =
      reconcile_found (is_being_deleted (owner_meta r)) engine r events s

  -- `Reconcile` of both reconcilers.
  unfoldable pub reconcile :
      InMemoryEngine
      → NamespacedName
      → EventCollector
      → c.State
      → ReconcileResult × EventCollector × c.State
  unfolding handle_deletion ensure_finalizer is_being_deleted
  reconcile engine key events s = reconcile_answer (c.get key s) engine events s
