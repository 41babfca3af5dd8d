-- ===== src/Reconciliation/StateSyncer/Readiness.antt =====
-- A replica that says it is ready has mappings of the cluster.
use octopus_permissions_cont.Prelude.{
  String, Bool, true, false, none, some, VisitOrder, ◌≡◌, refl, sym, ◌∙◌, ap, arith,
}
use octopus_permissions_cont.Result.{Result, ok, err, panic, ok-injective}
use octopus_permissions_cont.Cluster.{Client}
use octopus_permissions_cont.Engine.{
  InMemoryEngine, ClusterState, compute_state_from_cluster, refresh_scope_mappings,
}
use octopus_permissions_cont.Reconciliation.StateSyncer.{
  StateSyncer, new_state_syncer, trigger, reconcile_state, request_rebuild, rebuilt, rebuild,
  has_synced, readyz_check,
}
use octopus_permissions_cont.Reconciliation.StateSyncer.Runs.{
  Loop, not_started, waiting, debouncing, starting, rebuilding, returned, Replica, new_replica,
  Step, Trace, here, later, changes, changes_else, merges, reconciles, starts, starts_failing,
  started, start_fails, receives_trigger, debounces, takes_timestamp, ticks, receives_rebuild,
  receives_rebuild_failing, rebuilds, rebuild_fails, wins, stands_down, stops, leads,
}

module _ (o : VisitOrder) (sha256_hex : String → String) (c : Client)
    (start : Replica o sha256_hex c) where
  -- The replica has been where its cluster gave this state.
  record HasSeen (r : Replica o sha256_hex c) (state : ClusterState) : Type 0 where
    before : Replica o sha256_hex c
    reached : Trace o sha256_hex c start before
    since : Trace o sha256_hex c before r
    computed : compute_state_from_cluster o sha256_hex c before.cluster ≡ ok state

  HasSeen-step :
      {r t : Replica o sha256_hex c} {state : ClusterState}
      → Step o sha256_hex c r t
      → HasSeen r state
      → HasSeen t state
  HasSeen-step s h = record {
    before = h.before;
    reached = h.reached;
    since = later h.since s;
    computed = h.computed;
  }

  -- The engine's mappings are those of a cluster that the replica has seen.
  pub record IsBuilt (r : Replica o sha256_hex c) (engine : InMemoryEngine) : Type 0 where
    pub before : Replica o sha256_hex c
    pub reached : Trace o sha256_hex c start before
    pub since : Trace o sha256_hex c before r
    pub old : InMemoryEngine
    pub built : refresh_scope_mappings o sha256_hex c before.cluster old ≡ ok engine

  -- What the syncer owes to the past, by where its loop is.
  abbrev LoopBuilt : Replica o sha256_hex c → Bool → Loop → Type 0
  LoopBuilt r synced not_started = synced ≡ false
  LoopBuilt r synced (starting x) =
      (synced ≡ false) × ((state : ClusterState) → x ≡ ok state → HasSeen r state)
  LoopBuilt r synced (rebuilding x) = (state : ClusterState) → x ≡ ok state → HasSeen r state
  LoopBuilt r synced (returned (some e)) = synced ≡ false
  LoopBuilt r synced (returned none) = Unit {0}
  LoopBuilt r synced waiting = Unit {0}
  LoopBuilt r synced debouncing = Unit {0}

  abbrev EngineBuilt : Replica o sha256_hex c → StateSyncer → Type 0
  EngineBuilt r s = s.synced ≡ true → s.elected ≡ false → IsBuilt r s.engine

  abbrev Remembers : Replica o sha256_hex c → Type 0
  Remembers r = LoopBuilt r r.syncer.synced r.loop × EngineBuilt r r.syncer

  module _ {r t : Replica o sha256_hex c} (q : Step o sha256_hex c r t) where
    LoopBuilt-step : (b : Bool) (l : Loop) → LoopBuilt r b l → LoopBuilt t b l
    LoopBuilt-step b not_started h = h
    LoopBuilt-step b (starting x) h = (h.0, λ state e. HasSeen-step q (h.1 state e))
    LoopBuilt-step b (rebuilding x) h = λ state e. HasSeen-step q (h state e)
    LoopBuilt-step b (returned (some e)) h = h
    LoopBuilt-step b (returned none) h = tt
    LoopBuilt-step b waiting h = tt
    LoopBuilt-step b debouncing h = tt

    IsBuilt-step : (e : InMemoryEngine) → IsBuilt r e → IsBuilt t e
    IsBuilt-step e h = record {
      before = h.before;
      reached = h.reached;
      since = later h.since q;
      old = h.old;
      built = h.built;
    }

    -- A step that leaves the loop, the flags and the engine as they were.
    Remembers-step :
        t.loop ≡ r.loop
        → t.syncer.synced ≡ r.syncer.synced
        → t.syncer.elected ≡ r.syncer.elected
        → t.syncer.engine ≡ r.syncer.engine
        → Remembers r
        → Remembers t
    Remembers-step hl hs he hn (l, b) = (
      simp (hl, hs) (LoopBuilt-step r.syncer.synced r.loop l),
      λ s e. simp hn (IsBuilt-step r.syncer.engine (b (sym hs ∙ s) (sym he ∙ e))),
    )

  -- A read of the cluster is of the cluster that is seen now.
  HasSeen-now :
      (r t : Replica o sha256_hex c) (state : ClusterState)
      → Trace o sha256_hex c start r
      → Step o sha256_hex c r t
      → compute_state_from_cluster o sha256_hex c r.cluster ≡ ok state
      → HasSeen t state
  HasSeen-now r t state p q e = record {
    before = r;
    reached = p;
    since = later here q;
    computed = e;
  }

  rebuilt-Remembers :
      (r : Replica o sha256_hex c) (x : Result ClusterState) (s : StateSyncer)
      → Step o sha256_hex c r (record r { loop = waiting; syncer = s; last_error = none })
      → ((state : ClusterState) → x ≡ ok state → HasSeen r state)
      → rebuild x r.syncer ≡ ok s
      → Remembers (record r { loop = waiting; syncer = s; last_error = none })
  unfolding rebuild rebuilt refresh_scope_mappings
  rebuilt-Remembers r (ok state) s q u h =
      let seen = HasSeen-step q (u state refl) in
      (
        tt,
        λ _ _. record {
          before = seen.before;
          reached = seen.reached;
          since = seen.since;
          old = r.syncer.engine;
          built = rw seen.computed (ap (λ y. ok y.engine) (ok-injective h));
        },
      )
  rebuilt-Remembers r (err m) s q u h = ground arith
  rebuilt-Remembers r panic s q u h = ground arith

  step-Remembers :
      (r t : Replica o sha256_hex c)
      → Trace o sha256_hex c start r
      → Remembers r
      → Step o sha256_hex c r t
      → Remembers t
  unfolding trigger reconcile_state request_rebuild
  step-Remembers r t p k (changes s) = Remembers-step (changes s) refl refl refl refl k
  step-Remembers r t p k (changes_else s hw hc) =
      Remembers-step (changes_else s hw hc) refl refl refl refl k
  step-Remembers r t p k (merges n h) = Remembers-step (merges n h) refl refl refl refl k
  step-Remembers r t p k (reconciles n h) = Remembers-step (reconciles n h) refl refl refl refl k
  step-Remembers r t p k (starts l) = (
    ((simp l at k.0), λ state e. HasSeen-now r _ state p (starts l) e),
    λ s e. IsBuilt-step (starts l) _ (k.1 s e),
  )
  step-Remembers r t p k (starts_failing m l) = (
    ((simp l at k.0), λ state e. ground arith),
    λ s e. IsBuilt-step (starts_failing m l) _ (k.1 s e),
  )
  step-Remembers r t p k (started x s l h) =
      rebuilt-Remembers r x s (started x s l h) (simp l at k.0).1 h
  step-Remembers r t p k (start_fails x e l h) =
      ((simp l at k.0).0, λ s n. IsBuilt-step (start_fails x e l h) _ (k.1 s n))
  step-Remembers r t p k (receives_trigger n l h) =
      (tt, λ s e. IsBuilt-step (receives_trigger n l h) _ (k.1 s e))
  step-Remembers r t p k (debounces now d l h) =
      (tt, λ s e. IsBuilt-step (debounces now d l h) _ (k.1 s e))
  step-Remembers r t p k (takes_timestamp d h) =
      Remembers-step (takes_timestamp d h) refl refl refl refl k
  step-Remembers r t p k (ticks d h) = Remembers-step (ticks d h) refl refl refl refl k
  step-Remembers r t p k (receives_rebuild n l h) = (
    λ state e. HasSeen-now r _ state p (receives_rebuild n l h) e,
    λ s e. IsBuilt-step (receives_rebuild n l h) _ (k.1 s e),
  )
  step-Remembers r t p k (receives_rebuild_failing m n l h) =
      (λ state e. ground arith, λ s e. IsBuilt-step (receives_rebuild_failing m n l h) _ (k.1 s e))
  step-Remembers r t p k (rebuilds x s l h) =
      rebuilt-Remembers r x s (rebuilds x s l h) (simp l at k.0) h
  step-Remembers r t p k (rebuild_fails x e l h) =
      (tt, λ s n. IsBuilt-step (rebuild_fails x e l h) _ (k.1 s n))
  step-Remembers r t p k wins =
      (LoopBuilt-step wins r.syncer.synced r.loop k.0, λ s e. ground arith)
  step-Remembers r t p k (stands_down l h) = (tt, λ s e. IsBuilt-step (stands_down l h) _ (k.1 s e))
  step-Remembers r t p k (stops l) = (tt, λ s e. IsBuilt-step (stops l) _ (k.1 s e))
  step-Remembers r t p k (leads x h) =
      (LoopBuilt-step (leads x h) r.syncer.synced r.loop k.0, λ s e. ground arith)

  Trace-Remembers :
      (r : Replica o sha256_hex c) → Remembers start → Trace o sha256_hex c start r → Remembers r
  Trace-Remembers r k here = k
  Trace-Remembers r k (later {t = u} q s) = step-Remembers u r q (Trace-Remembers u k q) s

module _ (o : VisitOrder) (sha256_hex : String → String) (c : Client) where
  new_replica-Remembers :
      (s : c.State) (engine : InMemoryEngine) (elected : Bool)
      → Remembers o sha256_hex c
          (new_replica o sha256_hex c s engine elected)
          (new_replica o sha256_hex c s engine elected)
  unfolding new_replica new_state_syncer
  new_replica-Remembers s engine elected = (refl, λ h e. ground arith)

  synced_of_readyz : (s : StateSyncer) → readyz_check s ≡ none → s.synced ≡ true
  unfolding readyz_check has_synced
  synced_of_readyz s h = ground arith

  readyz_of_synced :
      (s : StateSyncer)
      → s.synced ≡ false
      → readyz_check s ≡ some "in-memory state has not been built yet"
  unfolding readyz_check has_synced
  readyz_of_synced s h = rw h refl

  -- Along every interleaving of a replica's steps from its start: while the replica is not elected
  -- and its readiness check passes, the mappings of its engine are what a refresh computed without
  -- an error of the cluster as the replica saw it at some moment since its start.
  pub readyz_check-IsBuilt :
      (s : c.State) (engine : InMemoryEngine) (elected : Bool) (r : Replica o sha256_hex c)
      → Trace o sha256_hex c (new_replica o sha256_hex c s engine elected) r
      → r.syncer.elected ≡ false
      → readyz_check r.syncer ≡ none
      → IsBuilt o sha256_hex c (new_replica o sha256_hex c s engine elected) r r.syncer.engine
  readyz_check-IsBuilt s engine elected r p e h =
      (Trace-Remembers o sha256_hex c _ r (new_replica-Remembers s engine elected) p).1
        (synced_of_readyz r.syncer h) e

  -- Along every interleaving of a replica's steps from its start: if `Start` has returned an
  -- error, the readiness check fails.
  pub readyz_check-returned :
      (s : c.State) (engine : InMemoryEngine) (elected : Bool) (r : Replica o sha256_hex c)
      (m : String)
      → Trace o sha256_hex c (new_replica o sha256_hex c s engine elected) r
      → r.loop ≡ returned (some m)
      → readyz_check r.syncer ≡ some "in-memory state has not been built yet"
  readyz_check-returned s engine elected r m p l =
      readyz_of_synced r.syncer (
        simp l at (Trace-Remembers o sha256_hex c _ r (new_replica-Remembers s engine elected) p).0)
