-- ===== src/Reconciliation/Debouncer/Laws.antt =====
-- What holds of a debouncer along every run.
use mathlib.Core.Option.{some_inj}
use octopus_permissions_cont.Prelude.{
  ℕ, suc, ◌+◌, ◌≤◌, Bool, true, false, List, [], ◌∷◌, ◌++◌, Option, none, some, length, ltb, ◌≡◌,
  refl, subst, ap, arith, Bool-cases, inl, inr, null,
}
use octopus_permissions_cont.Reconciliation.Debouncer.{
  BasicDebouncer, new_debouncer, DebouncerEvent, debounced, timestamp_taken, ticked, debounce,
  note_timestamp, take_from, take_timestamp, tick, time_chan_capacity, or_same, debouncer_step,
  debouncer_run,
}

abbrev one_if : Bool → ℕ
one_if true = 1
one_if false = 0

abbrev is_some : Option ℕ → Bool
is_some none = false
is_some (some _) = true

abbrev is_debounced : DebouncerEvent → Bool
is_debounced (debounced now) = true
is_debounced _ = false

-- How often `Debounce` was called.
abbrev pub debounces : List DebouncerEvent → ℕ
debounces [] = 0
debounces (e ∷ es) = one_if (is_debounced e) + debounces es

-- The ticker runs exactly while a start is noted, and the channel keeps its capacity.
pub record IsOrdered (d : BasicDebouncer) : Type 0 where
  pub bounded : length d.time_chan ≤ time_chan_capacity
  pub running : d.ticking ≡ is_some d.started_time

-- The callbacks that the timestamps and the ticker still call for.
abbrev pub outstanding : BasicDebouncer → ℕ
outstanding d = length d.time_chan + one_if d.ticking

length-append : (now : ℕ) (xs : List ℕ) → length (xs ++ (now ∷ [])) ≡ suc (length xs)
length-append now [] = refl
length-append now (x ∷ xs) = ground (arith, length-append now xs)

note_lem :
    (timestamp : ℕ) (rest : List ℕ) (started : Option ℕ) (d : BasicDebouncer)
    → d.started_time ≡ started
    → d.time_chan ≡ timestamp ∷ rest
    → IsOrdered d
    → IsOrdered (note_timestamp timestamp rest started d)
      × (outstanding (note_timestamp timestamp rest started d) ≤ outstanding d)
unfolding note_timestamp
note_lem timestamp rest none d s h i = (
  record { bounded = ground (arith, i.bounded, h); running = refl },
  ground (arith, h, i.running, s),
)
note_lem timestamp rest (some _) d s h i = (
  record { bounded = ground (arith, i.bounded, h); running = ground (arith, i.running, s) },
  ground (arith, h),
)

take_lem :
    (ts : List ℕ) (d : BasicDebouncer)
    → d.time_chan ≡ ts
    → IsOrdered d
    → IsOrdered (or_same d 0 (take_from d ts)).0
      × ((or_same d 0 (take_from d ts)).1 + outstanding (or_same d 0 (take_from d ts)).0
          ≤ outstanding d)
unfolding or_same take_from
take_lem [] d h i = (i, ground arith)
take_lem (t ∷ rest) d h i =
    let (i', b) = note_lem t rest d.started_time d refl h i in (i', ground arith)

pub debouncer_step_lem :
    (e : DebouncerEvent) (d : BasicDebouncer)
    → IsOrdered d
    → IsOrdered (debouncer_step e d).0
      × ((debouncer_step e d).1 + outstanding (debouncer_step e d).0
          ≤ one_if (is_debounced e) + outstanding d)
unfolding debouncer_step or_same debounce take_timestamp tick
debouncer_step_lem (debounced now) d i =
    elim (Bool-cases (ltb (length d.time_chan) time_chan_capacity)) [
      | inl room ↦ rw room (
        record { bounded = ground (arith, length-append now d.time_chan); running = i.running },
        ground (arith, length-append now d.time_chan),
      )
      | inr full ↦ rw full (i, ground arith)
    ]
debouncer_step_lem timestamp_taken d i =
    let (i', b) = take_lem d.time_chan d refl i in (i', ground arith)
debouncer_step_lem ticked d i = elim (Bool-cases d.ticking) [
  | inl on ↦ rw on (record { bounded = i.bounded; running = refl }, ground (arith, on))
  | inr off ↦ simp off (i, ground (arith, off))
]

debouncer_run_lem :
    (es : List DebouncerEvent) (d : BasicDebouncer)
    → IsOrdered d
    → IsOrdered (debouncer_run es d).0
      × ((debouncer_run es d).1 + outstanding (debouncer_run es d).0 ≤ debounces es + outstanding d)
unfolding debouncer_run
debouncer_run_lem [] d i = (i, ground arith)
debouncer_run_lem (e ∷ es) d i =
    let (i', h) = debouncer_step_lem e d i in
    let (i'', h') = debouncer_run_lem es (debouncer_step e d).0 i' in (i'', ground arith)

pub new_debouncer-IsOrdered : IsOrdered new_debouncer
unfolding new_debouncer
new_debouncer-IsOrdered = record { bounded = ground arith; running = refl }

-- Whatever happens to a new debouncer in whatever order, its channel holds at most a hundred
-- timestamps, its ticker runs exactly while a start is noted, and it runs its callback at most as
-- often as `Debounce` was called, the calls that it still owes counted.
pub debouncer_run-IsOrdered :
    (es : List DebouncerEvent)
    → IsOrdered (debouncer_run es new_debouncer).0
      × ((debouncer_run es new_debouncer).1 + outstanding (debouncer_run es new_debouncer).0
          ≤ debounces es)
unfolding new_debouncer
debouncer_run-IsOrdered es =
    let (i, h) = debouncer_run_lem es new_debouncer new_debouncer-IsOrdered in
    (i, ground (arith, h))

-- The whole channel is taken, then the ticker ticks.
abbrev pub drained : List ℕ → List DebouncerEvent
drained [] = ticked ∷ []
drained (t ∷ ts) = timestamp_taken ∷ drained ts

drained_lem :
    (ts : List ℕ) (started : ℕ)
    → debouncer_run
        (drained ts)
        (record { time_chan = ts; started_time = some started; ticking = true })
      ≡ (new_debouncer, 1)
unfolding debouncer_run debouncer_step or_same take_timestamp take_from note_timestamp tick
    new_debouncer
drained_lem [] started = refl
drained_lem (t ∷ ts) started = rw (drained_lem ts started) refl

-- A burst of calls costs one callback and is not lost: a debouncer that was idle and holds at
-- least one timestamp, once it has taken all of them and its ticker ticks, has run the callback
-- exactly once and is as new.
pub debouncer_run-drained :
    (t : ℕ) (ts : List ℕ)
    → debouncer_run
        (drained (t ∷ ts))
        (record { time_chan = t ∷ ts; started_time = none; ticking = false })
      ≡ (new_debouncer, 1)
unfolding debouncer_run debouncer_step or_same take_timestamp take_from note_timestamp
debouncer_run-drained t ts = rw (drained_lem ts t) refl

append-not_null : (now : ℕ) (xs : List ℕ) → null (xs ++ (now ∷ [])) ≡ false
append-not_null now [] = refl
append-not_null now (x ∷ xs) = refl

-- What one step of the channel or of the ticker leaves, for the syncer.
pub debounce_lem :
    (now : ℕ) (d d' : BasicDebouncer)
    → IsOrdered d
    → debounce now d ≡ some d'
    → IsOrdered d' × (null d'.time_chan ≡ false)
unfolding debounce
debounce_lem now d d' i h = elim (Bool-cases (ltb (length d.time_chan) time_chan_capacity)) [
  | inl room ↦
      subst (λ x. IsOrdered x × (null x.time_chan ≡ false)) (some_inj.0 (rw room at h))
        (
          record { bounded = ground (arith, length-append now d.time_chan); running = i.running },
          append-not_null now d.time_chan,
        )
  | inr full ↦ ground (arith, rw full at h)
]

take_from_lem :
    (ts : List ℕ) (d d' : BasicDebouncer)
    → d.time_chan ≡ ts
    → IsOrdered d
    → take_from d ts ≡ some d'
    → IsOrdered d' × (d'.ticking ≡ true)
unfolding take_from note_timestamp
take_from_lem [] d d' e i h = ground arith
take_from_lem (t ∷ rest) d d' e i h =
    subst (λ x. IsOrdered x × (x.ticking ≡ true)) (some_inj.0 h)
      ((note_lem t rest d.started_time d refl e i).0, note-ticking t rest d.started_time d refl i)
  where
    note-ticking :
        (t : ℕ) (rest : List ℕ) (s : Option ℕ) (d : BasicDebouncer)
        → d.started_time ≡ s
        → IsOrdered d
        → (note_timestamp t rest s d).ticking ≡ true
    note-ticking t rest none d e i = refl
    note-ticking t rest (some s) d e i = ground (arith, i.running, e)

pub take_timestamp_lem :
    (d d' : BasicDebouncer)
    → IsOrdered d
    → take_timestamp d ≡ some d'
    → IsOrdered d' × (d'.ticking ≡ true)
unfolding take_timestamp
take_timestamp_lem d d' i h = take_from_lem d.time_chan d d' refl i h

pub tick_lem : (d d' : BasicDebouncer) → IsOrdered d → tick d ≡ some d' → IsOrdered d'
unfolding tick
tick_lem d d' i h = elim (Bool-cases d.ticking) [
  | inl on ↦
      subst IsOrdered (some_inj.0 (simp on at h)) (record { bounded = i.bounded; running = refl })
  | inr off ↦ ground (arith, simp off at h)
]

take_from-some :
    (ts : List ℕ) (d : BasicDebouncer)
    → null ts ≡ false
    → (d' : BasicDebouncer) × (take_from d ts ≡ some d')
unfolding take_from
take_from-some [] d h = ground arith
take_from-some (t ∷ rest) d h = (_, refl)

pub take_timestamp-some :
    (d : BasicDebouncer)
    → null d.time_chan ≡ false
    → (d' : BasicDebouncer) × (take_timestamp d ≡ some d')
unfolding take_timestamp
take_timestamp-some d h = take_from-some d.time_chan d h

pub tick-some : (d : BasicDebouncer) → d.ticking ≡ true → (d' : BasicDebouncer) × (tick d ≡ some d')
unfolding tick
tick-some d h = (record d { started_time = none; ticking = false }, simp h refl)

-- The send of `Debounce` goes through at once, or once one timestamp is taken.
pub debounce-some :
    (now : ℕ) (d : BasicDebouncer)
    → ltb (length d.time_chan) time_chan_capacity ≡ true
    → (d' : BasicDebouncer) × (debounce now d ≡ some d')
unfolding debounce
debounce-some now d h = (record d { time_chan = d.time_chan ++ (now ∷ []) }, rw h refl)

take_from-makes_room :
    (ts : List ℕ) (d d' : BasicDebouncer)
    → d.time_chan ≡ ts
    → IsOrdered d
    → take_from d ts ≡ some d'
    → ltb (length d'.time_chan) time_chan_capacity ≡ true
unfolding take_from note_timestamp
take_from-makes_room [] d d' e i h = ground arith
take_from-makes_room (t ∷ rest) d d' e i h =
    subst (λ x. ltb (length x.time_chan) time_chan_capacity ≡ true) (some_inj.0 h)
      (rw (rest_of t rest d.started_time d) (ground (arith, i.bounded, ap length e)))
  where
    rest_of :
        (t : ℕ) (rest : List ℕ) (s : Option ℕ) (d : BasicDebouncer)
        → (note_timestamp t rest s d).time_chan ≡ rest
    rest_of t rest none d = refl
    rest_of t rest (some s) d = refl

pub take_timestamp-makes_room :
    (d d' : BasicDebouncer)
    → IsOrdered d
    → take_timestamp d ≡ some d'
    → ltb (length d'.time_chan) time_chan_capacity ≡ true
unfolding take_timestamp
take_timestamp-makes_room d d' i h = take_from-makes_room d.time_chan d d' refl i h
