-- ===== src/Reconciliation/Debouncer.antt =====
-- internal/reconciliation/debouncer.go. The ticker is one of Go's package time, of which the state
-- keeps whether it runs; a timestamp is a number.
pub mod Laws
use octopus_permissions_cont.Prelude.{
  ℕ, ◌+◌, Bool, true, false, List, [], ◌∷◌, ◌++◌, Option, none, some, length, ltb, if◌then◌else◌,
}

-- `make(chan time.Time, 100)`.
abbrev pub time_chan_capacity : ℕ
time_chan_capacity = 100

-- `BasicDebouncer`, with the variables of its goroutine.
pub record BasicDebouncer : Type 0 where
  pub time_chan : List ℕ
  pub started_time : Option ℕ
  pub ticking : Bool

unfoldable pub new_debouncer : BasicDebouncer
new_debouncer = record { time_chan = []; started_time = none; ticking = false }

-- `Debounce`: `none` while the channel is full, where the send blocks.
unfoldable pub debounce : ℕ → BasicDebouncer → Option BasicDebouncer
debounce now d =
    if ltb (length d.time_chan) time_chan_capacity
    then some (record d { time_chan = d.time_chan ++ (now ∷ []) })
    else none

-- `if startedTime == nil`.
unfoldable pub note_timestamp : ℕ → List ℕ → Option ℕ → BasicDebouncer → BasicDebouncer
note_timestamp timestamp rest none d = record {
  time_chan = rest;
  started_time = some timestamp;
  ticking = true;
}
note_timestamp timestamp rest (some started) d = record d { time_chan = rest }

unfoldable pub take_from : BasicDebouncer → List ℕ → Option BasicDebouncer
unfolding note_timestamp
take_from d [] = none
take_from d (timestamp ∷ rest) = some (note_timestamp timestamp rest d.started_time d)

-- `case timestamp := <-m.timeChan`: `none` while nothing is there.
unfoldable pub take_timestamp : BasicDebouncer → Option BasicDebouncer
unfolding take_from
take_timestamp d = take_from d d.time_chan

-- `case <-ticker.C`, of which the caller runs the callback: `none` while the ticker is stopped.
unfoldable pub tick : BasicDebouncer → Option BasicDebouncer
tick d = if d.ticking then some (record d { started_time = none; ticking = false }) else none

-- What happens to a debouncer: a call from outside, or a case of its goroutine's `select`.
pub data DebouncerEvent : Type 0 where
  debounced : (now : ℕ) → DebouncerEvent
  timestamp_taken ticked : DebouncerEvent

-- The debouncer after an event, and how often the callback ran. An event that cannot happen, for
-- a channel that is full or empty or a ticker that is stopped, changes nothing.
unfoldable pub or_same : BasicDebouncer → ℕ → Option BasicDebouncer → BasicDebouncer × ℕ
or_same d calls none = (d, 0)
or_same d calls (some d') = (d', calls)

unfoldable pub debouncer_step : DebouncerEvent → BasicDebouncer → BasicDebouncer × ℕ
unfolding or_same debounce take_timestamp tick
debouncer_step (debounced now) d = or_same d 0 (debounce now d)
debouncer_step timestamp_taken d = or_same d 0 (take_timestamp d)
debouncer_step ticked d = or_same d 1 (tick d)

unfoldable pub debouncer_run : List DebouncerEvent → BasicDebouncer → BasicDebouncer × ℕ
unfolding debouncer_step
debouncer_run [] d = (d, 0)
debouncer_run (e ∷ es) d =
    let (d', calls) = debouncer_step e d in
    let (d'', more) = debouncer_run es d' in (d'', calls + more)
