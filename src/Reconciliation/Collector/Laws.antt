-- ===== src/Reconciliation/Collector/Laws.antt =====
-- internal/reconciliation/collector.go: the map of events and the channel, through every operation.
use octopus_permissions_cont.Prelude.{
  if◌then◌else◌, Bool, true, false, List, [], ◌∷◌, ◌++◌, Option, none, some, foldl, map, null, Map,
  lookup, lookup-put, has_key, UniqueKeys, UniqueKeys-of_perm, lookup_of_perm, ltb, all, VisitOrder,
  lookup-none, subst, length, Bool-cases, Option-cases, inl, inr, ◌==◌, ◌≡◌, refl, ap, ◌∙◌, sym,
  arith, Permᴰ,
}
use octopus_permissions_cont.Api.{NamespacedName, name_eq, name_beq_iff}
use octopus_permissions_cont.Reconciliation.Batch.{EventInfo}
use octopus_permissions_cont.Reconciliation.Collector.{
  EventCollector, key_of, add_event, put_back, send_batch, collect_events_into_batch, flush_events,
  CollectorStep, adds, receives, run_steps,
}

-- Each entry of the map stands under the name of its resource.
abbrev pub well_keyed : Map NamespacedName EventInfo → Bool
well_keyed m = all (λ kv. key_of kv.1 == kv.0) m

-- One event for a resource, under the resource's name.
pub record WellFormed (c : EventCollector) : Type 0 where
  pub unique : UniqueKeys c.event_map
  pub keyed : well_keyed c.event_map ≡ true

-- A batch as entries of a map.
abbrev pub entry : EventInfo → NamespacedName × EventInfo
entry e = (key_of e, e)

-- Of two events for a resource, the one of the later generation; of one generation, the second.
abbrev pub newer : Option EventInfo → Option EventInfo → Option EventInfo
newer none b = b
newer (some a) none = some a
newer (some a) (some b) = if ltb b.generation a.generation then some a else some b

newer-none : (a : Option EventInfo) → newer a none ≡ a
newer-none none = refl
newer-none (some a) = refl

lookup-put_back :
    (k : NamespacedName) (e : EventInfo) (m : Map NamespacedName EventInfo)
    → lookup k (put_back m e) ≡ (if key_of e == k then newer (some e) (lookup k m) else lookup k m)
unfolding put_back
lookup-put_back k e m = elim (Option-cases (lookup (key_of e) m)) [
  | inl missing ↦ elim (Bool-cases (key_of e == k)) [
    | inl same ↦
        rw (missing, lookup-put (key_of e) k e m, same)
          (ap (newer (some e)) (sym missing ∙ at_key same))
    | inr other ↦ rw (missing, lookup-put (key_of e) k e m, other) refl
  ]
  | inr (x, present) ↦ elim (Bool-cases (ltb x.generation e.generation)) [
    | inl older ↦ elim (Bool-cases (key_of e == k)) [
      | inl same ↦
          rw (present, older, lookup-put (key_of e) k e m, same, sym (at_key same) ∙ present, older)
            refl
      | inr other ↦ rw (present, older, lookup-put (key_of e) k e m, other) refl
    ]
    | inr later ↦ elim (Bool-cases (key_of e == k)) [
      | inl same ↦ rw (present, later, same, sym (at_key same) ∙ present, later) refl
      | inr other ↦ rw (present, later, other) refl
    ]
  ]
]
  where
    at_key : (key_of e == k) ≡ true → lookup (key_of e) m ≡ lookup k m
    at_key same = ap (λ j. lookup j m) ((name_beq_iff (key_of e) k).0 same)

lookup-foldl-put_back :
    (k : NamespacedName) (batch : List EventInfo) (m : Map NamespacedName EventInfo)
    → UniqueKeys (map entry batch)
    → lookup k (foldl put_back m batch) ≡ newer (lookup k (map entry batch)) (lookup k m)
unfolding lookup
lookup-foldl-put_back k [] m u = refl
lookup-foldl-put_back k (e ∷ rest) m u =
    lookup-foldl-put_back k rest (put_back m e) u.1
    ∙ rw (lookup-put_back k e m) (elim (Bool-cases (key_of e == k)) [
      | inl same ↦
          rw
            (
              same,
              lookup-none k (map entry rest)
                  (ap (has_key (map entry rest)) (sym ((name_beq_iff (key_of e) k).0 same)) ∙ u.0),
            )
            refl
      | inr other ↦ rw other refl
    ])

lookup_of_null :
    (k : NamespacedName) (batch : List EventInfo)
    → null batch ≡ true
    → none ≡ lookup k (map entry batch)
unfolding lookup
lookup_of_null k [] h = refl
lookup_of_null k (e ∷ rest) h = ground arith

Permᴰ-map :
    (batch batch' : List EventInfo)
    → Permᴰ batch batch'
    → Permᴰ (map entry batch) (map entry batch')
Permᴰ-map _ _ Permᴰ.nil = Permᴰ.nil
Permᴰ-map _ _ (Permᴰ.cons e r) = Permᴰ.cons (ap entry e) (Permᴰ-map _ _ r)
Permᴰ-map _ _ (Permᴰ.swap e f) = Permᴰ.swap (ap entry e) (ap entry f)
Permᴰ-map _ _ (Permᴰ.trans r s) = Permᴰ.trans (Permᴰ-map _ _ r) (Permᴰ-map _ _ s)

entries-of :
    (m : Map NamespacedName EventInfo) → well_keyed m ≡ true → map entry (map (λ kv. kv.1) m) ≡ m
entries-of [] h = refl
entries-of ((k, e) ∷ m) h =
    rw (entries-of m (ground arith))
      (ap (λ j. (j, e) ∷ m) ((name_beq_iff (key_of e) k).0 (ground arith)))

visited :
    (o : VisitOrder) (c : EventCollector)
    → WellFormed c
    → Permᴰ (map entry (o.visit (map (λ kv. kv.1) c.event_map))) c.event_map
visited o c w =
    subst (Permᴰ (map entry (o.visit (map (λ kv. kv.1) c.event_map))))
      (entries-of c.event_map w.keyed) (Permᴰ-map _ _ (o.visit_perm (map (λ kv. kv.1) c.event_map)))

-- A map in which an event waits gives a batch that is not empty.
null-waiting :
    (o : VisitOrder) (c : EventCollector) (k : NamespacedName) (e : EventInfo)
    → WellFormed c
    → lookup k c.event_map ≡ some e
    → null (o.visit (map (λ kv. kv.1) c.event_map)) ≡ false
null-waiting o c k e w waits =
    let batch = o.visit (map (λ kv. kv.1) c.event_map) in
    elim (Bool-cases (null batch)) [
      | inl h ↦
          let gone : none ≡ some e =
            lookup_of_null k batch h ∙ lookup_of_perm k (visited o c w) w.unique ∙ waits in
          ground arith
      | inr h ↦ h
    ]

run_steps-append :
    (xs ys : List CollectorStep) (c : EventCollector)
    → run_steps (xs ++ ys) c ≡ run_steps ys (run_steps xs c)
unfolding run_steps
run_steps-append [] ys c = refl
run_steps-append (adds e ∷ xs) ys c = run_steps-append xs ys (add_event e c)
run_steps-append (receives ∷ xs) ys c = run_steps-append xs ys _

-- A batch that finds the channel full is not lost, whatever other goroutines do while the flush
-- does not hold the lock. If an event waits and the channel is full after what happens before the
-- send, then at the end each name finds the newer of the event that waited for it and the event
-- that was added for it meanwhile, of which an added one of the same generation stays; and the
-- channel is as the others left it.
pub lookup-flush_events :
    (o : VisitOrder) (before meanwhile : List CollectorStep) (c : EventCollector)
    (k j : NamespacedName) (e : EventInfo)
    → WellFormed c
    → lookup k c.event_map ≡ some e
    → ltb
        (length (run_steps before (record c { event_map = [] })).ready)
        (run_steps before (record c { event_map = [] })).ready_capacity
      ≡ false
    → (lookup j (flush_events o before meanwhile c).event_map
        ≡ newer
            (lookup j c.event_map)
            (lookup j (run_steps (before ++ meanwhile) (record c { event_map = [] })).event_map))
      × ((flush_events o before meanwhile c).ready
          ≡ (run_steps (before ++ meanwhile) (record c { event_map = [] })).ready)
unfolding flush_events collect_events_into_batch send_batch
lookup-flush_events o before meanwhile c k j e w waits full =
    let batch = o.visit (map (λ kv. kv.1) c.event_map) in
    let same = visited o c w in
    let emptied : EventCollector = record c { event_map = [] } in
    rw (null-waiting o c k e w waits, full, run_steps-append before meanwhile emptied)
      (
        lookup-foldl-put_back j batch (run_steps meanwhile (run_steps before emptied)).event_map
              (UniqueKeys-of_perm same w.unique)
            ∙ ap
                (λ x. newer x (lookup j (run_steps meanwhile (run_steps before emptied)).event_map))
                (lookup_of_perm j same w.unique),
        refl,
      )

-- If an event waits and the channel has room after what other goroutines do before the send, then
-- the flush adds one batch to the channel, behind the batches that are there. The batch has for
-- each name the event that waited for it, and the map has what was added before the send, which is
-- nothing if nothing happens there.
pub flush_events-delivers :
    (o : VisitOrder) (before meanwhile : List CollectorStep) (c : EventCollector)
    (k : NamespacedName) (e : EventInfo)
    → WellFormed c
    → ltb
        (length (run_steps before (record c { event_map = [] })).ready)
        (run_steps before (record c { event_map = [] })).ready_capacity
      ≡ true
    → lookup k c.event_map ≡ some e
    → (batch : List EventInfo) × ((flush_events o before meanwhile c).ready
        ≡ (run_steps before (record c { event_map = [] })).ready ++ (batch ∷ []))
      × ((flush_events o before meanwhile c).event_map
          ≡ (run_steps before (record c { event_map = [] })).event_map)
      × ((j : NamespacedName) → lookup j (map entry batch) ≡ lookup j c.event_map)
unfolding flush_events collect_events_into_batch send_batch
flush_events-delivers o before meanwhile c k e w room waits =
    let none_lost = null-waiting o c k e w waits in
    (
      o.visit (map (λ kv. kv.1) c.event_map),
      rw (none_lost, room) refl,
      rw (none_lost, room) refl,
      λ j. lookup_of_perm j (visited o c w) w.unique,
    )
