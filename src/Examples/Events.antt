-- ===== src/Examples/Events.antt =====
-- Collector, retries and reconciles on the small installation.
use octopus_permissions_cont.Prelude.{
  ltb, length, ◌++◌, false, ℕ, suc, true, false, List, [], ◌∷◌, none, some, any, all, map, lookup,
  nat_eq, string_eq, ◌≡◌, refl,
}
use octopus_permissions_cont.Api.{NamespacedName, name_eq, name_beq}
use octopus_permissions_cont.Cluster.{found}
use octopus_permissions_cont.Rules.Resource.{
  WsaResource, wsa_adapter, owner_meta, get_namespaced_name,
}
use octopus_permissions_cont.Engine.{InMemoryEngine, new_in_memory_engine}
use octopus_permissions_cont.Reconciliation.Batch.{
  EventInfo, event_type_update, event_type_delete, new_event_info,
}
use octopus_permissions_cont.Reconciliation.Collector.{
  EventCollector, flush_events, add_event, adds, receives, run_steps,
}
use octopus_permissions_cont.Reconciliation.Collector.Laws.{
  WellFormed, entry, newer, lookup-flush_events, flush_events-delivers,
}
use octopus_permissions_cont.Controller.Finalizer.{
  ResourceClient, reconcile, is_being_deleted, service_account_cleanup_finalizer,
}
use octopus_permissions_cont.Controller.Finalizer.Laws.{reconcile-deleted, after_deletion}
use octopus_permissions_cont.Controller.Predicates.{
  WatchedObject, updated, external_change_predicate, controller_field_owner,
}
use octopus_permissions_cont.Controller.Predicates.Laws.{
  changed_at, not_after, external_change_predicate-updated,
}
use octopus_permissions_cont.Examples.Data.{first_to_last, deployer, meta_of, web}

-- Events of the first resource, of its generation.
abbrev web_event : EventInfo
web_event = record {
  resource = web;
  event_type = event_type_update;
  generation = 1;
  resource_version = "1";
}

abbrev web_name : NamespacedName
web_name = record { namespace = "team"; name = "deployer" }

-- A collector with one event and room for a batch, and one whose channel is full.
abbrev pub one_event : ℕ → EventCollector
one_event capacity = record {
  event_map = (web_name, web_event) ∷ [];
  max_batch_size = 100;
  ready = [];
  ready_capacity = capacity;
  triggers = 0;
  debounced = 1;
}

one_event-WellFormed : (capacity : ℕ) → WellFormed (one_event capacity)
unfolding get_namespaced_name name_beq
one_event-WellFormed capacity = record { unique = (refl, tt); keyed = refl }

web_waits : (capacity : ℕ) → lookup web_name (one_event capacity).event_map ≡ some web_event
unfolding lookup name_beq
web_waits capacity = refl

-- An event of a later generation, which comes while the flush does not hold the lock.
abbrev later_event : EventInfo
later_event = record web_event { generation = 2 }

still_full :
    ltb
      (length (run_steps (adds later_event ∷ []) (record (one_event 0) { event_map = [] })).ready)
      (run_steps (adds later_event ∷ []) (record (one_event 0) { event_map = [] })).ready_capacity
    ≡ false
unfolding run_steps add_event
still_full = refl

full_example :
    (lookup web_name
        (flush_events first_to_last (adds later_event ∷ []) (receives ∷ []) (one_event 0)).event_map
      ≡ newer (lookup web_name (one_event 0).event_map) (
          lookup web_name
            (run_steps
              (adds later_event ∷ receives ∷ [])
              (record (one_event 0) { event_map = [] })).event_map))
    × ((flush_events first_to_last (adds later_event ∷ []) (receives ∷ []) (one_event 0)).ready
        ≡ (run_steps
            (adds later_event ∷ receives ∷ [])
            (record (one_event 0) { event_map = [] })).ready)
full_example =
    lookup-flush_events first_to_last (adds later_event ∷ []) (receives ∷ []) (one_event 0) web_name
      web_name web_event (one_event-WellFormed 0) (web_waits 0) still_full

has_room :
    ltb
      (length (run_steps (adds later_event ∷ []) (record (one_event 10) { event_map = [] })).ready)
      (run_steps (adds later_event ∷ []) (record (one_event 10) { event_map = [] })).ready_capacity
    ≡ true
unfolding run_steps add_event
has_room = refl

delivered_example :
    (batch : List EventInfo) × ((flush_events first_to_last
        (adds later_event ∷ [])
        []
        (one_event 10)).ready
      ≡ (run_steps (adds later_event ∷ []) (record (one_event 10) { event_map = [] })).ready
        ++ (batch ∷ []))
    × ((flush_events first_to_last (adds later_event ∷ []) [] (one_event 10)).event_map
        ≡ (run_steps (adds later_event ∷ []) (record (one_event 10) { event_map = [] })).event_map)
    × ((j : NamespacedName) → lookup j (map entry batch) ≡ lookup j (one_event 10).event_map)
delivered_example =
    flush_events-delivers first_to_last (adds later_event ∷ []) [] (one_event 10) web_name web_event
      (one_event-WellFormed 10) has_room (web_waits 10)

-- The first resource, with its finalizer and on its way out.
abbrev leaving : WsaResource
leaving = wsa_adapter (record deployer {
  meta = record (meta_of "deployer" "team") {
    deletion_timestamp = some 1;
    finalizers = service_account_cleanup_finalizer ∷ [];
  };
})

-- A server that has one resource and counts the patches.
abbrev server : WsaResource → ResourceClient
server r = record { State = ℕ; get = λ key s. found r; patch = λ resource meta s. (none, suc s) }

-- An engine whose maps name the resource.
abbrev naming : InMemoryEngine
naming = record new_in_memory_engine { sa_to_wsa_map = ("octopus-sa-0", (web_name, web) ∷ []) ∷ [] }

leaving_leaves : is_being_deleted (owner_meta leaving) ≡ true
unfolding is_being_deleted
leaving_leaves = refl

deleted_example :
    (lookup
        (get_namespaced_name leaving)
        (reconcile (server leaving) naming web_name (one_event 10) 0).1.event_map
      ≡ some (new_event_info leaving event_type_delete))
    × ((reconcile (server leaving) naming web_name (one_event 10) 0).2
        ≡ after_deletion (server leaving) naming leaving 0)
deleted_example =
    reconcile-deleted (server leaving) naming web_name (one_event 10) 0 leaving refl leaving_leaves

-- An object that the controller changed last.
abbrev own_change : WatchedObject
own_change = record {
  uid = "u";
  generation = 1;
  is_service_account = true;
  labels = [];
  managed_fields =
      record { manager = "kubectl"; time = some 1 }
      ∷ record { manager = controller_field_owner; time = some 2 }
      ∷ [];
}

own_change_dropped : external_change_predicate (updated own_change own_change) ≡ false
unfolding external_change_predicate
own_change_dropped = refl

own_change_example :
    (u : ℕ) × (any
        (λ mf. changed_at controller_field_owner u mf.manager mf.time)
        own_change.managed_fields
      ≡ true)
    × (all (λ mf. not_after u mf.time) own_change.managed_fields ≡ true)
own_change_example = external_change_predicate-updated own_change own_change own_change_dropped
