-- ===== src/Reconciliation/Collector.antt =====
-- internal/reconciliation/collector.go: events wait in a map, one for a resource, until they are
-- sent as a batch. The two channels are the numbers of their items and their capacities.
pub mod Laws
pub mod Invariant
use octopus_permissions_cont.Prelude.{
  ℕ, suc, Bool, true, List, [], ◌∷◌, ◌++◌, Option, none, some, foldl, map, null, Map, put, lookup,
  ltb, leb, VisitOrder, if◌then◌else◌, length,
}
use octopus_permissions_cont.Api.{NamespacedName, name_eq}
use octopus_permissions_cont.Rules.Resource.{get_namespaced_name}
use octopus_permissions_cont.Reconciliation.Batch.{EventInfo}

-- `ready` is the content of `batchReadyCh`, oldest first; `triggers` and `debounced` count what was
-- sent to `batchTriggerCh` and to the debouncer.
pub record EventCollector : Type 0 where
  pub event_map : Map NamespacedName EventInfo
  pub max_batch_size : ℕ
  pub ready : List (List EventInfo)
  pub ready_capacity : ℕ
  pub triggers : ℕ
  pub debounced : ℕ

-- `NewEventCollector`.
unfoldable pub new_event_collector : ℕ → EventCollector
new_event_collector max_batch_size = record {
  event_map = [];
  max_batch_size = max_batch_size;
  ready = [];
  ready_capacity = 10;
  triggers = 0;
  debounced = 0;
}

abbrev pub key_of : EventInfo → NamespacedName
key_of e = get_namespaced_name e.resource

unfoldable pub add_event : EventInfo → EventCollector → EventCollector
add_event e c =
    let events = put (key_of e) e c.event_map in
    record c {
      event_map = events;
      debounced = suc c.debounced;
      triggers = if leb c.max_batch_size (length events) then suc c.triggers else c.triggers;
    }

-- The test by which an event of a dropped batch goes back into the map.
abbrev pub is_newer : EventInfo → Option EventInfo → Bool
is_newer e none = true
is_newer e (some existing) = ltb existing.generation e.generation

unfoldable pub put_back : Map NamespacedName EventInfo → EventInfo → Map NamespacedName EventInfo
put_back m e = if is_newer e (lookup (key_of e) m) then put (key_of e) e m else m

-- The orchestrator's receive from `BatchChannel`.
unfoldable pub receive : EventCollector → Option (List EventInfo × EventCollector)
receive c = elim c.ready [ [] ↦ none | batch ∷ rest ↦ some (batch, record c { ready = rest }) ]

-- What other goroutines do to the collector while the flush does not hold the lock: they add
-- events, or the orchestrator receives.
pub data CollectorStep : Type 0 where
  adds : EventInfo → CollectorStep
  receives : CollectorStep

unfoldable pub received : Option (List EventInfo × EventCollector) → EventCollector → EventCollector
received none c = c
received (some (batch, c')) c = c'

unfoldable pub run_steps : List CollectorStep → EventCollector → EventCollector
unfolding add_event receive received
run_steps [] c = c
run_steps (adds e ∷ rest) c = run_steps rest (add_event e c)
run_steps (receives ∷ rest) c = run_steps rest (received (receive c) c)

-- `sendBatch`. A full channel is found without the lock; `meanwhile` happens before the lock is
-- taken to put the events back.
unfoldable pub send_batch : List CollectorStep → List EventInfo → EventCollector → EventCollector
unfolding put_back run_steps
send_batch meanwhile batch c =
    let c' = run_steps meanwhile c in
    if ltb (length c.ready) c.ready_capacity
    then record c { ready = c.ready ++ (batch ∷ []) }
    else record c' { event_map = foldl put_back c'.event_map batch }

module _ (o : VisitOrder) where
  -- `collectEventsIntoBatch`, under the lock. A nil batch is an empty one.
  unfoldable pub collect_events_into_batch : EventCollector → List EventInfo × EventCollector
  collect_events_into_batch c =
      (o.visit (map (λ kv. kv.1) c.event_map), record c { event_map = [] })

  -- `FlushEvents`: the lock is released between the collection and the send, when `before` happens.
  unfoldable pub flush_events :
      (before meanwhile : List CollectorStep) → EventCollector → EventCollector
  unfolding collect_events_into_batch send_batch run_steps
  flush_events before meanwhile c =
      let (batch, c') = collect_events_into_batch c in
      if null batch then c' else send_batch meanwhile batch (run_steps before c')
