-- ===== src/Reconciliation/StateSyncer/Answers.antt =====
-- Every request for a rebuild can be answered.
use octopus_permissions_cont.Prelude.{
  ◌≤◌, ℕ, zero, suc, String, Bool, true, false, none, nat_beq, ltb, length, null, VisitOrder, ◌≡◌,
  refl, ◌∙◌, ap, subst, arith, ◌⊎◌, inl, inr, sym, Bool-cases,
}
use octopus_permissions_cont.Result.{ok}
use octopus_permissions_cont.Cluster.{Client}
use octopus_permissions_cont.Engine.{
  InMemoryEngine, ClusterState, refreshed, compute_state_from_cluster,
}
use octopus_permissions_cont.Reconciliation.Debouncer.{time_chan_capacity}
use octopus_permissions_cont.Reconciliation.Debouncer.Laws.{
  IsOrdered, debounce_lem, take_timestamp_lem, take_timestamp-some, take_timestamp-makes_room,
  debounce-some, tick-some,
}
use octopus_permissions_cont.Reconciliation.StateSyncer.{
  offer, trigger, reconcile_state, request_rebuild, rebuilt, rebuild,
}
use octopus_permissions_cont.Reconciliation.StateSyncer.Runs.{
  waiting, debouncing, Replica, new_replica, Step, Trace, here, later, reconciles, receives_trigger,
  debounces, takes_timestamp, ticks, receives_rebuild, rebuilds,
}
use octopus_permissions_cont.Reconciliation.StateSyncer.Invariant.{
  is_quiet, Trace-IsKept, new_replica-IsKept,
}
use octopus_permissions_cont.Reconciliation.StateSyncer.Liveness.{is_requested}
use octopus_permissions_cont.Reconciliation.StateSyncer.Rest.{
  is_own, all_own, append_trace, all_own-append, work, Step-work,
}

offer-suc : (n : ℕ) → (k : ℕ) × (offer n ≡ suc k)
unfolding offer
offer-suc zero = (0, refl)
offer-suc (suc n) = (n, ground arith)

positive : (n : ℕ) → nat_beq n 0 ≡ false → (k : ℕ) × (n ≡ suc k)
positive zero h = ground arith
positive (suc n) h = (n, refl)

module _ (o : VisitOrder) (sha256_hex : String → String) (c : Client) where
  -- From here the replica can come, by its own steps, to wait with mappings that it computed of this
  -- cluster.
  pub record Answers (r : Replica o sha256_hex c) (state : ClusterState) : Type 0 where
    pub after : Replica o sha256_hex c
    pub path : Trace o sha256_hex c r after
    pub own : all_own o sha256_hex c path ≡ true
    pub waits : after.loop ≡ waiting
    pub cluster : after.cluster ≡ r.cluster
    pub engine : after.syncer.engine ≡ refreshed state r.syncer.engine
    pub synced : after.syncer.synced ≡ true
    pub no_error : after.last_error ≡ none
    pub less : suc (work o sha256_hex c after) ≤ work o sha256_hex c r

  -- The same, with every request answered.
  pub record Settles (r : Replica o sha256_hex c) (state : ClusterState) : Type 0 where
    pub answer : Answers r state
    pub quiet : is_requested o sha256_hex c answer.after ≡ false

  module _ (state : ClusterState) where
    abbrev Computes : Replica o sha256_hex c → Type 0
    Computes r = compute_state_from_cluster o sha256_hex c r.cluster ≡ ok state

    -- A step that leaves the cluster and the engine as they were.
    Answers-step :
        (r t : Replica o sha256_hex c) (s : Step o sha256_hex c r t)
        → is_own o sha256_hex c s ≡ true
        → t.cluster ≡ r.cluster
        → t.syncer.engine ≡ r.syncer.engine
        → Answers t state
        → Answers r state
    Answers-step r t s mine hc he a = record {
      after = a.after;
      path = append_trace o sha256_hex c (later here s) a.path;
      own = all_own-append o sha256_hex c (later here s) a.path (ground (arith, mine)) a.own;
      waits = a.waits;
      cluster = a.cluster ∙ hc;
      engine = a.engine ∙ ap (refreshed state) he;
      synced = a.synced;
      no_error = a.no_error;
      less = ground (arith, Step-work o sha256_hex c r t s mine, a.less);
    }

    Answers-rebuild_ch :
        (r : Replica o sha256_hex c) (n : ℕ)
        → Computes r
        → r.loop ≡ waiting
        → r.syncer.rebuild_ch ≡ suc n
        → Answers r state
    unfolding rebuild rebuilt
    Answers-rebuild_ch r n h l e = record {
      after = record r {
        loop = waiting;
        syncer = rebuilt state (record r.syncer { rebuild_ch = n });
        last_error = none;
      };
      path =
          later (later here (receives_rebuild n l e))
            (rebuilds (compute_state_from_cluster o sha256_hex c r.cluster) _ refl (rw h refl));
      own = refl;
      waits = refl;
      cluster = refl;
      engine = refl;
      synced = refl;
      no_error = refl;
      less = ground (arith, l, e);
    }

    Answers-ticking :
        (r : Replica o sha256_hex c)
        → Computes r
        → r.loop ≡ waiting
        → r.syncer.debouncer.ticking ≡ true
        → Answers r state
    unfolding request_rebuild
    Answers-ticking r h l e =
        let (k, f) = offer-suc r.syncer.rebuild_ch in
        let (d, ticked) = tick-some r.syncer.debouncer e in
        Answers-step r _ (ticks d ticked) refl refl refl (Answers-rebuild_ch _ k h l f)

    Answers-time_chan :
        (r : Replica o sha256_hex c)
        → Computes r
        → IsOrdered r.syncer.debouncer
        → r.loop ≡ waiting
        → null r.syncer.debouncer.time_chan ≡ false
        → Answers r state
    Answers-time_chan r h i l e =
        let (d, taken) = take_timestamp-some r.syncer.debouncer e in
        Answers-step r _ (takes_timestamp d taken) refl refl refl
          (Answers-ticking _ h l (take_timestamp_lem r.syncer.debouncer d i taken).1)

    -- The send of `Debounce`, at once or after a timestamp is taken.
    Answers-debouncing :
        (r : Replica o sha256_hex c)
        → Computes r
        → IsOrdered r.syncer.debouncer
        → r.loop ≡ debouncing
        → Answers r state
    Answers-debouncing r h i l =
        elim (Bool-cases (ltb (length r.syncer.debouncer.time_chan) time_chan_capacity)) [
          | inl room ↦ sent r h i l room
          | inr full ↦
              let (d, taken) = take_timestamp-some r.syncer.debouncer (ground arith) in
              let t = record r { syncer = record r.syncer { debouncer = d } } in
              Answers-step r t (takes_timestamp d taken) refl refl refl (
                sent t h (take_timestamp_lem r.syncer.debouncer d i taken).0 l
                  (take_timestamp-makes_room r.syncer.debouncer d i taken))
        ]
      where
        sent :
            (r : Replica o sha256_hex c)
            → Computes r
            → IsOrdered r.syncer.debouncer
            → r.loop ≡ debouncing
            → ltb (length r.syncer.debouncer.time_chan) time_chan_capacity ≡ true
            → Answers r state
        sent r h i l room =
            let (d, e) = debounce-some 0 r.syncer.debouncer room in
            let (i', n) = debounce_lem 0 r.syncer.debouncer d i e in
            Answers-step r _ (debounces 0 d l e) refl refl refl (Answers-time_chan _ h i' refl n)

    Answers-trigger_ch :
        (r : Replica o sha256_hex c) (n : ℕ)
        → Computes r
        → IsOrdered r.syncer.debouncer
        → r.loop ≡ waiting
        → r.syncer.trigger_ch ≡ suc n
        → Answers r state
    Answers-trigger_ch r n h i l e =
        Answers-step r _ (receives_trigger n l e) refl refl refl (Answers-debouncing _ h i refl)

    Answers-requests :
        (r : Replica o sha256_hex c) (n : ℕ)
        → Computes r
        → IsOrdered r.syncer.debouncer
        → r.loop ≡ waiting
        → r.requests ≡ suc n
        → Answers r state
    unfolding reconcile_state trigger
    Answers-requests r n h i l e =
        let (k, f) = offer-suc r.syncer.trigger_ch in
        Answers-step r _ (reconciles n e) refl refl refl (Answers-trigger_ch _ k h i l f)

    -- Which part of the syncer the request is in.
    Answers-is_quiet :
        (r : Replica o sha256_hex c)
        → Computes r
        → IsOrdered r.syncer.debouncer
        → r.loop ≡ waiting
        → is_quiet o sha256_hex c r ≡ false
        → Answers r state
    Answers-is_quiet r h i l q = elim (Bool-cases (nat_beq r.requests 0)) [
      | inr some_request ↦
          let (k, e) = positive r.requests some_request in Answers-requests r k h i l e
      | inl no_request ↦ elim (Bool-cases (nat_beq r.syncer.trigger_ch 0)) [
        | inr some_trigger ↦
            let (k, e) = positive r.syncer.trigger_ch some_trigger in Answers-trigger_ch r k h i l e
        | inl no_trigger ↦ elim (Bool-cases (null r.syncer.debouncer.time_chan)) [
          | inr some_timestamp ↦ Answers-time_chan r h i l some_timestamp
          | inl no_timestamp ↦ elim (Bool-cases r.syncer.debouncer.ticking) [
            | inl is_ticking ↦ Answers-ticking r h l is_ticking
            | inr not_ticking ↦
                let (k, e) = positive r.syncer.rebuild_ch (ground arith) in
                Answers-rebuild_ch r k h l e
          ]
        ]
      ]
    ]

  -- A request is answered from here.
  answered :
      (s : c.State) (engine : InMemoryEngine) (elected : Bool) (r : Replica o sha256_hex c)
      (state : ClusterState)
      → Trace o sha256_hex c (new_replica o sha256_hex c s engine elected) r
      → (r.loop ≡ waiting) ⊎ (r.loop ≡ debouncing)
      → is_requested o sha256_hex c r ≡ true
      → Computes state r
      → Answers r state
  answered s engine elected r state p l q h =
      let k =
        Trace-IsKept o sha256_hex c _ r (new_replica-IsKept o sha256_hex c s engine elected) p in
      answer l k.ordered
    where
      answer :
          (r.loop ≡ waiting) ⊎ (r.loop ≡ debouncing)
          → IsOrdered r.syncer.debouncer
          → Answers r state
      answer (inl w) i = Answers-is_quiet state r h i w (ground (arith, w))
      answer (inr d) i = Answers-debouncing state r h i d

  -- Two answers, one after the other.
  then-Settles :
      (r : Replica o sha256_hex c) (state : ClusterState) (a : Answers r state)
      → Settles a.after state
      → Settles r state
  then-Settles r state a s = record {
    answer = record {
      after = s.answer.after;
      path = append_trace o sha256_hex c a.path s.answer.path;
      own = all_own-append o sha256_hex c a.path s.answer.path a.own s.answer.own;
      waits = s.answer.waits;
      cluster = s.answer.cluster ∙ a.cluster;
      engine = s.answer.engine ∙ ap (refreshed state) a.engine;
      synced = s.answer.synced;
      no_error = s.answer.no_error;
      less = ground (arith, a.less, s.answer.less);
    };
    quiet = s.quiet;
  }

  -- One answer after the other, as long as there is work.
  settle :
      (n : ℕ) (s : c.State) (engine : InMemoryEngine) (elected : Bool) (r : Replica o sha256_hex c)
      (state : ClusterState)
      → Trace o sha256_hex c (new_replica o sha256_hex c s engine elected) r
      → (r.loop ≡ waiting) ⊎ (r.loop ≡ debouncing)
      → is_requested o sha256_hex c r ≡ true
      → Computes state r
      → work o sha256_hex c r ≤ n
      → Settles r state
  settle zero s engine elected r state p l q h b =
      let a = answered s engine elected r state p l q h in ground (arith, a.less)
  settle (suc n) s engine elected r state p l q h b =
      let a = answered s engine elected r state p l q h in
      elim (Bool-cases (is_requested o sha256_hex c a.after)) [
        | inr none_left ↦ record { answer = a; quiet = none_left }
        | inl more ↦ then-Settles r state a (
            settle n s engine elected a.after state (append_trace o sha256_hex c p a.path)
              (inl a.waits) more
              (subst (λ x. compute_state_from_cluster o sha256_hex c x ≡ ok state) (sym a.cluster)
                h)
              (ground (arith, a.less)))
      ]

  -- Every request can be answered. From every state that a replica can come to, by any interleaving
  -- of its steps from its start, in which its loop waits or sends to the debouncer and a request is
  -- on its way: if the state of the cluster can be computed, steps of the syncer's own goroutines
  -- alone, without a change of the cluster or anything else from outside, lead to where the loop
  -- waits and no request is left. There the replica is ready, its last rebuild returned no error,
  -- the cluster is as it was and the engine has the mappings computed of it.
  pub Trace-Settles :
      (s : c.State) (engine : InMemoryEngine) (elected : Bool) (r : Replica o sha256_hex c)
      (state : ClusterState)
      → Trace o sha256_hex c (new_replica o sha256_hex c s engine elected) r
      → (r.loop ≡ waiting) ⊎ (r.loop ≡ debouncing)
      → is_requested o sha256_hex c r ≡ true
      → compute_state_from_cluster o sha256_hex c r.cluster ≡ ok state
      → Settles r state
  Trace-Settles s engine elected r state p l q h =
      settle (work o sha256_hex c r) s engine elected r state p l q h (ground arith)
