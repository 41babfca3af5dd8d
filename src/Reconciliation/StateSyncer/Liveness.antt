-- ===== src/Reconciliation/StateSyncer/Liveness.antt =====
-- No request for a rebuild is lost.
use octopus_permissions_cont.Prelude.{
  String, Bool, true, false, not, ◌||◌, none, VisitOrder, ◌≡◌, refl, subst, arith, ◌⊎◌, inl, inr,
}
use octopus_permissions_cont.Result.{Result, ok, err, panic, ok-injective}
use octopus_permissions_cont.Cluster.{Client}
use octopus_permissions_cont.Engine.{InMemoryEngine, ClusterState, compute_state_from_cluster}
use octopus_permissions_cont.Reconciliation.Debouncer.Laws.{
  IsOrdered, debounce_lem, take_timestamp_lem,
}
use octopus_permissions_cont.Reconciliation.StateSyncer.{
  StateSyncer, offer, trigger, reconcile_state, request_rebuild, rebuilt, rebuild,
}
use octopus_permissions_cont.Reconciliation.StateSyncer.Runs.{
  Loop, waiting, debouncing, rebuilding, Replica, new_replica, Step, Trace, changes, changes_else,
  merges, reconciles, starts, starts_failing, started, start_fails, receives_trigger, debounces,
  takes_timestamp, ticks, receives_rebuild, receives_rebuild_failing, rebuilds, rebuild_fails, wins,
  stands_down, stops, leads,
}
use octopus_permissions_cont.Reconciliation.StateSyncer.Invariant.{
  is_quiet, Trace-IsKept, new_replica-IsKept,
}

abbrev pub is_debouncing : Loop → Bool
is_debouncing debouncing = true
is_debouncing _ = false

module _ (o : VisitOrder) (sha256_hex : String → String) (c : Client) where
  -- A request is on its way, or is being sent to the debouncer.
  abbrev pub is_requested : Replica o sha256_hex c → Bool
  is_requested r = not (is_quiet o sha256_hex c r) || is_debouncing r.loop

  rebuild-is_requested :
      (r : Replica o sha256_hex c) (x : Result ClusterState) (s : StateSyncer)
      → rebuild x r.syncer ≡ ok s
      → is_debouncing r.loop ≡ false
      → is_requested r ≡ true
      → is_requested (record r { loop = waiting; syncer = s; last_error = none }) ≡ true
  unfolding rebuild rebuilt
  rebuild-is_requested r (ok state) s e l h =
      subst (λ y. is_requested (record r { loop = waiting; syncer = y; last_error = none }) ≡ true)
        (ok-injective e) (ground arith)
  rebuild-is_requested r (err m) s e l h = ground arith
  rebuild-is_requested r panic s e l h = ground arith

  -- A rebuild begins here, from a waiting loop, with what the cluster gives now or a failed read.
  pub record Begins (r t : Replica o sha256_hex c) : Type 0 where
    pub idle : r.loop ≡ waiting
    pub state : Result ClusterState
    pub begun : t.loop ≡ rebuilding state
    pub read :
        (state ≡ compute_state_from_cluster o sha256_hex c r.cluster)
        ⊎ ((e : String) × (state ≡ err e))

  step-is_requested :
      (r t : Replica o sha256_hex c)
      → IsOrdered r.syncer.debouncer
      → Step o sha256_hex c r t
      → is_requested r ≡ true
      → (is_requested t ≡ true) ⊎ Begins r t
  unfolding trigger reconcile_state request_rebuild offer
  step-is_requested r t i (changes s) h = inl (ground arith)
  step-is_requested r t i (changes_else s hw hc) h = inl h
  step-is_requested r t i (merges n e) h = inl (ground arith)
  step-is_requested r t i (reconciles n e) h = inl (ground arith)
  step-is_requested r t i (starts l) h = inl (ground (arith, l))
  step-is_requested r t i (starts_failing e l) h = inl (ground (arith, l))
  step-is_requested r t i (started x s l e) h = inl (rebuild-is_requested r x s e (rw l refl) h)
  step-is_requested r t i (start_fails x e l f) h = inl (ground (arith, l))
  step-is_requested r t i (receives_trigger n l e) h = inl (ground arith)
  step-is_requested r t i (debounces now d l e) h =
      inl (ground (arith, debounce_lem now r.syncer.debouncer d i e))
  step-is_requested r t i (takes_timestamp d e) h =
      inl (ground (arith, take_timestamp_lem r.syncer.debouncer d i e))
  step-is_requested r t i (ticks d e) h = inl (ground arith)
  step-is_requested r t i (receives_rebuild n l e) h = inr (record {
    idle = l;
    state = compute_state_from_cluster o sha256_hex c r.cluster;
    begun = refl;
    read = inl refl;
  })
  step-is_requested r t i (receives_rebuild_failing e n l f) h =
      inr (record { idle = l; state = err e; begun = refl; read = inr (e, refl) })
  step-is_requested r t i (rebuilds x s l e) h = inl (rebuild-is_requested r x s e (rw l refl) h)
  step-is_requested r t i (rebuild_fails x e l f) h = inl (ground (arith, l))
  step-is_requested r t i wins h = inl h
  step-is_requested r t i (stands_down l e) h = inl (ground (arith, l))
  step-is_requested r t i (stops l) h = inl (ground (arith, l))
  step-is_requested r t i (leads x e) h = inl h

  -- No request is lost. Along every interleaving of a replica's steps from its start: while a
  -- request is on its way, every step leaves one on its way, unless in this very step the loop, which
  -- waited, begins a rebuild with what it reads of the cluster now, or with a failed read. So a
  -- request that comes while a rebuild is under way is still there when that rebuild ends.
  pub Step-is_requested :
      (s : c.State) (engine : InMemoryEngine) (elected : Bool) (r t : Replica o sha256_hex c)
      → Trace o sha256_hex c (new_replica o sha256_hex c s engine elected) r
      → Step o sha256_hex c r t
      → is_requested r ≡ true
      → (is_requested t ≡ true) ⊎ Begins r t
  Step-is_requested s engine elected r t p q =
      let k =
        Trace-IsKept o sha256_hex c _ r (new_replica-IsKept o sha256_hex c s engine elected) p in
      step-is_requested r t k.ordered q
