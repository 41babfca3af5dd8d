-- ===== src/Reconciliation/Collector/Invariant.antt =====
-- internal/reconciliation/collector.go: one event for a resource, under its name, through every
-- operation.
use octopus_permissions_cont.Prelude.{
  true, List, [], ◌∷◌, none, some, foldl, map, null, Map, put, lookup, UniqueKeys, put-UniqueKeys,
  ltb, VisitOrder, length, Bool-cases, inl, inr, ◌≡◌, refl, arith, ==_refl,
}
use octopus_permissions_cont.Api.{NamespacedName, name_eq}
use octopus_permissions_cont.Reconciliation.Batch.{EventInfo}
use octopus_permissions_cont.Reconciliation.Collector.{
  EventCollector, key_of, add_event, is_newer, put_back, is_newer, send_batch,
  collect_events_into_batch, flush_events, CollectorStep, adds, receives, run_steps, received,
  receive,
}
use octopus_permissions_cont.Reconciliation.Collector.Laws.{WellFormed, well_keyed}

well_keyed-put :
    (e : EventInfo) (m : Map NamespacedName EventInfo)
    → well_keyed m ≡ true
    → well_keyed (put (key_of e) e m) ≡ true
unfolding put
well_keyed-put e [] h = ground (arith, ==_refl (key_of e))
well_keyed-put e ((k, x) ∷ m) h = ground (arith, ==_refl (key_of e), well_keyed-put e m)

-- Every operation keeps the collector well formed.
add_event-WellFormed :
    (e : EventInfo) (c : EventCollector) → WellFormed c → WellFormed (add_event e c)
unfolding add_event
add_event-WellFormed e c w = record {
  unique = put-UniqueKeys (key_of e) e c.event_map w.unique;
  keyed = well_keyed-put e c.event_map w.keyed;
}

received-WellFormed : (c : EventCollector) → WellFormed c → WellFormed (received (receive c) c)
unfolding receive received
received-WellFormed c w =
    elim (c.ready)
      as (λ x. WellFormed (
        received (elim x [ [] ↦ none | batch ∷ rest ↦ some (batch, record c { ready = rest }) ])
          c)) [ [] ↦ w | batch ∷ rest ↦ record { unique = w.unique; keyed = w.keyed } ]

run_steps-WellFormed :
    (steps : List CollectorStep) (c : EventCollector)
    → WellFormed c
    → WellFormed (run_steps steps c)
unfolding run_steps
run_steps-WellFormed [] c w = w
run_steps-WellFormed (adds e ∷ rest) c w =
    run_steps-WellFormed rest (add_event e c) (add_event-WellFormed e c w)
run_steps-WellFormed (receives ∷ rest) c w = run_steps-WellFormed rest _ (received-WellFormed c w)

put_back-keeps :
    (m : Map NamespacedName EventInfo) (e : EventInfo)
    → UniqueKeys m
    → well_keyed m ≡ true
    → UniqueKeys (put_back m e) × (well_keyed (put_back m e) ≡ true)
unfolding put_back
put_back-keeps m e u k = elim (Bool-cases (is_newer e (lookup (key_of e) m))) [
  | inl newer ↦ rw newer (put-UniqueKeys (key_of e) e m u, well_keyed-put e m k)
  | inr older ↦ rw older (u, k)
]

foldl-put_back-keeps :
    (batch : List EventInfo) (m : Map NamespacedName EventInfo)
    → UniqueKeys m
    → well_keyed m ≡ true
    → UniqueKeys (foldl put_back m batch) × (well_keyed (foldl put_back m batch) ≡ true)
foldl-put_back-keeps [] m u k = (u, k)
foldl-put_back-keeps (e ∷ rest) m u k =
    let (u', k') = put_back-keeps m e u k in foldl-put_back-keeps rest (put_back m e) u' k'

send_batch-WellFormed :
    (meanwhile : List CollectorStep) (batch : List EventInfo) (c : EventCollector)
    → WellFormed c
    → WellFormed (send_batch meanwhile batch c)
unfolding send_batch
send_batch-WellFormed meanwhile batch c w =
    elim (Bool-cases (ltb (length c.ready) c.ready_capacity)) [
      | inl room ↦ rw room (record { unique = w.unique; keyed = w.keyed })
      | inr full ↦
          let w' = run_steps-WellFormed meanwhile c w in
          let (u, k) =
            foldl-put_back-keeps batch (run_steps meanwhile c).event_map w'.unique w'.keyed in
          rw full (record { unique = u; keyed = k })
    ]

flush_events-WellFormed :
    (o : VisitOrder) (before meanwhile : List CollectorStep) (c : EventCollector)
    → WellFormed c
    → WellFormed (flush_events o before meanwhile c)
unfolding flush_events collect_events_into_batch
flush_events-WellFormed o before meanwhile c w =
    let emptied : WellFormed (record c { event_map = [] }) = record { unique = tt; keyed = refl } in
    elim (Bool-cases (null (o.visit (map (λ kv. kv.1) c.event_map)))) [
      | inl h ↦ rw h emptied
      | inr h ↦ rw h (send_batch-WellFormed meanwhile _ _ (run_steps-WellFormed before _ emptied))
    ]
