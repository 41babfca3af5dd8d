-- ===== src/Reconciliation/StateSyncer/Rest.antt =====
-- The syncer's own goroutines come to rest.
use mathlib.Core.Option.{some_inj}
use octopus_permissions_cont.Prelude.{
  ◌+◌, ◌*◌, ◌≤◌, List, [], ◌∷◌, ◌++◌, some, if◌then◌else◌, Option-cases, ℕ, suc, String, Bool, true,
  false, ◌&&◌, ltb, length, VisitOrder, ◌≡◌, refl, ap, subst, arith, inl, inr, Bool-cases,
}
use octopus_permissions_cont.Result.{Result, ok, err, panic, ok-injective}
use octopus_permissions_cont.Cluster.{Client}
use octopus_permissions_cont.Engine.{ClusterState}
use octopus_permissions_cont.Reconciliation.Debouncer.{
  time_chan_capacity, BasicDebouncer, take_from, note_timestamp, take_timestamp, tick, debounce,
}
use octopus_permissions_cont.Reconciliation.StateSyncer.{
  StateSyncer, offer, trigger, reconcile_state, request_rebuild, rebuilt, rebuild,
}
use octopus_permissions_cont.Reconciliation.StateSyncer.Runs.{
  Loop, not_started, starting, returned, waiting, debouncing, rebuilding, Replica, Step, Trace,
  here, later, changes, changes_else, merges, reconciles, starts, starts_failing, started,
  start_fails, receives_trigger, debounces, takes_timestamp, ticks, receives_rebuild,
  receives_rebuild_failing, rebuilds, rebuild_fails, wins, stands_down, stops, leads,
}

module _ (o : VisitOrder) (sha256_hex : String → String) (c : Client) where
  -- The steps of the syncer's own goroutines. The others are the cluster's, the election's and the
  -- leader's, the end of the loop, and reads that fail.
  abbrev pub is_own : {r t : Replica o sha256_hex c} → Step o sha256_hex c r t → Bool
  is_own (changes s) = false
  is_own (changes_else s hw hc) = false
  is_own (merges n e) = false
  is_own (reconciles n e) = true
  is_own (starts l) = true
  is_own (starts_failing e l) = false
  is_own (started x s l e) = true
  is_own (start_fails x e l f) = false
  is_own (receives_trigger n l e) = true
  is_own (debounces now d l e) = true
  is_own (takes_timestamp d e) = true
  is_own (ticks d e) = true
  is_own (receives_rebuild n l e) = true
  is_own (receives_rebuild_failing e n l f) = false
  is_own (rebuilds x s l e) = true
  is_own (rebuild_fails x e l f) = false
  is_own wins = false
  is_own (stands_down l e) = false
  is_own (stops l) = false
  is_own (leads x e) = false

  -- A path of such steps alone.
  abbrev pub all_own : {r t : Replica o sha256_hex c} → Trace o sha256_hex c r t → Bool
  all_own here = true
  all_own (later p s) = all_own p && is_own s

  abbrev pub append_trace :
      {r t u : Replica o sha256_hex c}
      → Trace o sha256_hex c r t
      → Trace o sha256_hex c t u
      → Trace o sha256_hex c r u
  append_trace p here = p
  append_trace p (later q s) = later (append_trace p q) s

  pub all_own-append :
      {r t u : Replica o sha256_hex c} (p : Trace o sha256_hex c r t) (q : Trace o sha256_hex c t u)
      → all_own p ≡ true
      → all_own q ≡ true
      → all_own (append_trace p q) ≡ true
  all_own-append p here h k = h
  all_own-append p (later q s) h k = ground (arith, k, all_own-append p q h)

  -- How many steps of its own a replica has before it, at most.
  abbrev pub loop_work : Loop → ℕ
  loop_work not_started = 2
  loop_work (starting x) = 1
  loop_work waiting = 0
  loop_work debouncing = 5
  loop_work (rebuilding x) = 1
  loop_work (returned e) = 0

  abbrev pub debouncer_work : BasicDebouncer → ℕ
  debouncer_work d = 4 * length d.time_chan + (if d.ticking then 3 else 0)

  abbrev pub work : Replica o sha256_hex c → ℕ
  work r =
      7 * r.requests
      + 6 * r.syncer.trigger_ch
      + debouncer_work r.syncer.debouncer
      + 2 * r.syncer.rebuild_ch
      + loop_work r.loop

  offer-bound : (n : ℕ) → offer n ≤ suc n
  unfolding offer
  offer-bound n = ground arith

  take_from-work :
      (d : BasicDebouncer) (xs : List ℕ) (d' : BasicDebouncer)
      → take_from d xs ≡ some d'
      → suc (debouncer_work d') ≤ 4 * length xs + (if d.ticking then 3 else 0)
  unfolding take_from note_timestamp
  take_from-work d [] d' h = ground arith
  take_from-work d (x ∷ xs) d' h = elim (Option-cases d.started_time) [
    | inl e ↦
        subst (λ y. suc (debouncer_work y) ≤ 4 * suc (length xs) + (if d.ticking then 3 else 0))
          (some_inj.0 (rw e at h)) (ground arith)
    | inr (y, e) ↦
        subst (λ z. suc (debouncer_work z) ≤ 4 * suc (length xs) + (if d.ticking then 3 else 0))
          (some_inj.0 (rw e at h)) (ground arith)
  ]

  take_timestamp-work :
      (d d' : BasicDebouncer)
      → take_timestamp d ≡ some d'
      → suc (debouncer_work d') ≤ debouncer_work d
  unfolding take_timestamp
  take_timestamp-work d d' h = take_from-work d d.time_chan d' h

  tick-work : (d d' : BasicDebouncer) → tick d ≡ some d' → debouncer_work d' + 3 ≡ debouncer_work d
  unfolding tick
  tick-work d d' h = elim (Bool-cases d.ticking) [
    | inl e ↦
        subst (λ y. debouncer_work y + 3 ≡ debouncer_work d) (some_inj.0 (rw e at h))
          (ground (arith, e))
    | inr e ↦ ground (arith, rw e at h)
  ]

  length-append_one : (xs : List ℕ) (x : ℕ) → length (xs ++ (x ∷ [])) ≡ suc (length xs)
  length-append_one [] x = refl
  length-append_one (y ∷ xs) x = ap suc (length-append_one xs x)

  debounce-work :
      (now : ℕ) (d d' : BasicDebouncer)
      → debounce now d ≡ some d'
      → debouncer_work d' ≡ debouncer_work d + 4
  unfolding debounce
  debounce-work now d d' h = elim (Bool-cases (ltb (length d.time_chan) time_chan_capacity)) [
    | inl e ↦
        subst (λ y. debouncer_work y ≡ debouncer_work d + 4) (some_inj.0 (rw e at h))
          (ground (arith, length-append_one d.time_chan now))
    | inr e ↦ ground (arith, rw e at h)
  ]

  -- What a rebuild leaves of the work.
  rebuild-work :
      (x : Result ClusterState) (s s' : StateSyncer)
      → rebuild x s ≡ ok s'
      → (s'.trigger_ch ≡ s.trigger_ch)
        × (s'.rebuild_ch ≡ s.rebuild_ch)
        × (s'.debouncer ≡ s.debouncer)
  unfolding rebuild rebuilt
  rebuild-work (ok state) s s' h =
      subst
        (λ y.
          (y.trigger_ch ≡ s.trigger_ch)
          × (y.rebuild_ch ≡ s.rebuild_ch)
          × (y.debouncer ≡ s.debouncer))
        (ok-injective h) (refl, refl, refl)
  rebuild-work (err m) s s' h = ground arith
  rebuild-work panic s s' h = ground arith

  -- Each step of its own leaves less.
  pub Step-work :
      (r t : Replica o sha256_hex c) (s : Step o sha256_hex c r t)
      → is_own s ≡ true
      → suc (work t) ≤ work r
  unfolding reconcile_state trigger request_rebuild
  Step-work r t (changes s) h = ground arith
  Step-work r t (changes_else s hw hc) h = ground arith
  Step-work r t (merges n e) h = ground arith
  Step-work r t (reconciles n e) h = ground (arith, e, offer-bound r.syncer.trigger_ch)
  Step-work r t (starts l) h = ground (arith, l)
  Step-work r t (starts_failing e l) h = ground arith
  Step-work r t (started x s l e) h = ground (arith, l, rebuild-work x r.syncer s e)
  Step-work r t (start_fails x e l f) h = ground arith
  Step-work r t (receives_trigger n l e) h = ground (arith, l, e)
  Step-work r t (debounces now d l e) h =
      ground (arith, l, debounce-work now r.syncer.debouncer d e)
  Step-work r t (takes_timestamp d e) h = ground (arith, take_timestamp-work r.syncer.debouncer d e)
  Step-work r t (ticks d e) h =
      ground (arith, tick-work r.syncer.debouncer d e, offer-bound r.syncer.rebuild_ch)
  Step-work r t (receives_rebuild n l e) h = ground (arith, l, e)
  Step-work r t (receives_rebuild_failing e n l f) h = ground arith
  Step-work r t (rebuilds x s l e) h = ground (arith, l, rebuild-work x r.syncer s e)
  Step-work r t (rebuild_fails x e l f) h = ground arith
  Step-work r t wins h = ground arith
  Step-work r t (stands_down l e) h = ground arith
  Step-work r t (stops l) h = ground arith
  Step-work r t (leads x e) h = ground arith

  abbrev pub steps_of : {r t : Replica o sha256_hex c} → Trace o sha256_hex c r t → ℕ
  steps_of here = 0
  steps_of (later p s) = suc (steps_of p)
