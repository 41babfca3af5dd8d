-- ===== src/Reconciliation/StateSyncer/Invariant.antt =====
-- A replica that has nothing left to do answers for the resources in its cache.
use octopus_permissions_cont.Prelude.{
  String, Bool, true, false, not, ◌&&◌, ◌++◌, List, none, nat_beq, null, VisitOrder, ◌≡◌, refl, sym,
  ◌∙◌, subst, arith, Memᴰ,
}
use octopus_permissions_cont.Result.{Result, ok, err, panic, ok-injective}
use octopus_permissions_cont.Api.{WorkloadServiceAccount, ClusterWorkloadServiceAccount}
use octopus_permissions_cont.Cluster.{Client}
use octopus_permissions_cont.Rules.Resource.{WsaResource}
use octopus_permissions_cont.Rules.Coverage.Laws.{IsLiteral}
use octopus_permissions_cont.Engine.{
  InMemoryEngine, ClusterState, live_wsas, live_cluster_wsas, all_resources,
  compute_state_from_cluster, refresh_scope_mappings,
}
use octopus_permissions_cont.Engine.Laws.{Serves, refresh_scope_mappings-Serves}
use octopus_permissions_cont.Reconciliation.Debouncer.{or_same, debouncer_step}
use octopus_permissions_cont.Reconciliation.Debouncer.Laws.{
  IsOrdered, new_debouncer-IsOrdered, debounce_lem, take_timestamp_lem, tick_lem,
}
use octopus_permissions_cont.Reconciliation.StateSyncer.{
  StateSyncer, new_state_syncer, offer, trigger, reconcile_state, request_rebuild, rebuilt, rebuild,
}
use octopus_permissions_cont.Reconciliation.StateSyncer.Runs.{
  Loop, not_started, waiting, debouncing, starting, rebuilding, returned, Replica, new_replica,
  Step, Trace, here, later, changes, changes_else, merges, reconciles, starts, starts_failing,
  started, start_fails, receives_trigger, debounces, takes_timestamp, ticks, receives_rebuild,
  receives_rebuild_failing, rebuilds, rebuild_fails, wins, stands_down, stops, leads,
}

-- No request for a rebuild is on its way through the syncer.
abbrev pub is_idle : StateSyncer → Bool
is_idle s =
    nat_beq s.trigger_ch 0
    && null s.debouncer.time_chan
    && not s.debouncer.ticking
    && nat_beq s.rebuild_ch 0

module _ (o : VisitOrder) (sha256_hex : String → String) (c : Client) where
  -- Nothing is on its way, neither in the work queue nor in the syncer.
  abbrev pub is_quiet : Replica o sha256_hex c → Bool
  is_quiet r = nat_beq r.requests 0 && is_idle r.syncer

  -- What a quiet replica owes to its cache, by where its loop is.
  abbrev pub UpToDate : Replica o sha256_hex c → Loop → Type 0
  UpToDate r not_started = Unit {0}
  UpToDate r (starting x) =
      (state : ClusterState)
      → x ≡ ok state
      → compute_state_from_cluster o sha256_hex c r.cluster ≡ ok state
  UpToDate r (rebuilding x) =
      (state : ClusterState)
      → x ≡ ok state
      → compute_state_from_cluster o sha256_hex c r.cluster ≡ ok state
  UpToDate r waiting =
      r.last_error ≡ none
      → refresh_scope_mappings o sha256_hex c r.cluster r.syncer.engine ≡ ok r.syncer.engine
  UpToDate r debouncing = Unit {0}
  UpToDate r (returned x) = Unit {0}

  pub record IsKept (r : Replica o sha256_hex c) : Type 0 where
    pub ordered : IsOrdered r.syncer.debouncer
    pub up_to_date : r.syncer.elected ≡ false → is_quiet r ≡ true → UpToDate r r.loop

  compute-of_lists :
      (s s' : c.State)
      → c.list_wsas s ≡ c.list_wsas s'
      → c.list_cluster_wsas s ≡ c.list_cluster_wsas s'
      → compute_state_from_cluster o sha256_hex c s ≡ compute_state_from_cluster o sha256_hex c s'
  unfolding compute_state_from_cluster all_resources
  compute-of_lists s s' hw hc = rw (hw, hc) refl

  UpToDate-of_lists :
      (r : Replica o sha256_hex c) (s : c.State) (l : Loop)
      → c.list_wsas s ≡ c.list_wsas r.cluster
      → c.list_cluster_wsas s ≡ c.list_cluster_wsas r.cluster
      → UpToDate r l
      → UpToDate (record r { cluster = s }) l
  unfolding refresh_scope_mappings
  UpToDate-of_lists r s not_started hw hc u = tt
  UpToDate-of_lists r s (starting x) hw hc u =
      λ state e. compute-of_lists s r.cluster hw hc ∙ u state e
  UpToDate-of_lists r s (rebuilding x) hw hc u =
      λ state e. compute-of_lists s r.cluster hw hc ∙ u state e
  UpToDate-of_lists r s waiting hw hc u = λ e. rw (compute-of_lists s r.cluster hw hc) (u e)
  UpToDate-of_lists r s debouncing hw hc u = tt
  UpToDate-of_lists r s (returned x) hw hc u = tt

  -- After a rebuild that returned no error.
  rebuilt-IsKept :
      (r : Replica o sha256_hex c) (x : Result ClusterState) (s : StateSyncer)
      → IsOrdered r.syncer.debouncer
      → (r.syncer.elected ≡ false
          → is_quiet r ≡ true
          → (state : ClusterState) → x ≡ ok state
          → compute_state_from_cluster o sha256_hex c r.cluster ≡ ok state)
      → rebuild x r.syncer ≡ ok s
      → IsKept (record r { loop = waiting; syncer = s; last_error = none })
  unfolding rebuild rebuilt refresh_scope_mappings
  rebuilt-IsKept r (ok state) s i u h =
      subst (λ y. IsKept (record r { loop = waiting; syncer = y; last_error = none }))
        (ok-injective h) (record { ordered = i; up_to_date = λ e q _. rw (u e q state refl) refl })
  rebuilt-IsKept r (err e) s i u h = ground arith
  rebuilt-IsKept r panic s i u h = ground arith

  step-IsKept : (r t : Replica o sha256_hex c) → IsKept r → Step o sha256_hex c r t → IsKept t
  unfolding debouncer_step or_same offer trigger reconcile_state request_rebuild
  step-IsKept r t k (changes s) = record { ordered = k.ordered; up_to_date = λ e q. ground arith }
  step-IsKept r t k (changes_else s hw hc) = record {
    ordered = k.ordered;
    up_to_date = λ e q. UpToDate-of_lists r s r.loop hw hc (k.up_to_date e q);
  }
  step-IsKept r t k (merges n h) = record { ordered = k.ordered; up_to_date = λ e q. ground arith }
  step-IsKept r t k (reconciles n h) = record {
    ordered = k.ordered;
    up_to_date = λ e q. ground arith;
  }
  step-IsKept r t k (starts l) = record { ordered = k.ordered; up_to_date = λ e q state x. x }
  step-IsKept r t k (starts_failing e l) = record {
    ordered = k.ordered;
    up_to_date = λ e q state x. ground arith;
  }
  step-IsKept r t k (started x s l h) =
      rebuilt-IsKept r x s k.ordered (λ e q. rw l at (k.up_to_date e q)) h
  step-IsKept r t k (start_fails x e l h) = record { ordered = k.ordered; up_to_date = λ e q. tt }
  step-IsKept r t k (receives_trigger n l h) = record {
    ordered = k.ordered;
    up_to_date = λ e q. tt;
  }
  step-IsKept r t k (debounces now d l h) =
      let (i, n) = debounce_lem now r.syncer.debouncer d k.ordered h in
      record { ordered = i; up_to_date = λ e q. ground (arith, n) }
  step-IsKept r t k (takes_timestamp d h) =
      let (i, n) = take_timestamp_lem r.syncer.debouncer d k.ordered h in
      record { ordered = i; up_to_date = λ e q. ground (arith, n) }
  step-IsKept r t k (ticks d h) = record {
    ordered = tick_lem r.syncer.debouncer d k.ordered h;
    up_to_date = λ e q. ground arith;
  }
  step-IsKept r t k (receives_rebuild n l h) = record {
    ordered = k.ordered;
    up_to_date = λ e q state x. x;
  }
  step-IsKept r t k (receives_rebuild_failing e n l h) = record {
    ordered = k.ordered;
    up_to_date = λ e q state x. ground arith;
  }
  step-IsKept r t k (rebuilds x s l h) =
      rebuilt-IsKept r x s k.ordered (λ e q. rw l at (k.up_to_date e q)) h
  step-IsKept r t k (rebuild_fails x e l h) = record {
    ordered = k.ordered;
    up_to_date = λ e q n. ground arith;
  }
  step-IsKept r t k wins = record { ordered = k.ordered; up_to_date = λ e q. ground arith }
  step-IsKept r t k (stands_down l h) = record { ordered = k.ordered; up_to_date = λ e q. tt }
  step-IsKept r t k (stops l) = record { ordered = k.ordered; up_to_date = λ e q. tt }
  step-IsKept r t k (leads x h) = record { ordered = k.ordered; up_to_date = λ e q. ground arith }

  pub Trace-IsKept : (r t : Replica o sha256_hex c) → IsKept r → Trace o sha256_hex c r t → IsKept t
  Trace-IsKept r t k here = k
  Trace-IsKept r t k (later {t = u} p q) = step-IsKept u t (Trace-IsKept r u k p) q

  pub new_replica-IsKept :
      (s : c.State) (engine : InMemoryEngine) (elected : Bool)
      → IsKept (new_replica o sha256_hex c s engine elected)
  unfolding new_replica new_state_syncer
  new_replica-IsKept s engine elected = record {
    ordered = new_debouncer-IsOrdered;
    up_to_date = λ e q. tt;
  }

  -- Eventual consistency of the replicas that do not lead. Along every interleaving of a replica's
  -- steps from its start, with any changes of the cluster, whenever the replica waits, is not
  -- elected, its last rebuild returned no error, and no request is on its way (no request in the
  -- work queue, both channels empty, the debouncer idle), the engine answers for the live
  -- resources that the cluster lists then, provided that these list no wildcard value.
  pub Trace-Serves :
      (s : c.State) (engine : InMemoryEngine) (elected : Bool) (r : Replica o sha256_hex c)
      (ws : List WorkloadServiceAccount) (cs : List ClusterWorkloadServiceAccount)
      → Trace o sha256_hex c (new_replica o sha256_hex c s engine elected) r
      → r.loop ≡ waiting
      → r.syncer.elected ≡ false
      → r.last_error ≡ none
      → is_quiet r ≡ true
      → c.list_wsas r.cluster ≡ ok ws
      → c.list_cluster_wsas r.cluster ≡ ok cs
      → ((w : WsaResource) → Memᴰ w (live_wsas ws ++ live_cluster_wsas cs) → IsLiteral w)
      → Serves (live_wsas ws ++ live_cluster_wsas cs) r.syncer.engine
  Trace-Serves s engine elected r ws cs p l e n q lw lc literal =
      let k = Trace-IsKept _ r (new_replica-IsKept s engine elected) p in
      let (e', made, serves, _) =
        refresh_scope_mappings-Serves o sha256_hex c r.cluster r.syncer.engine ws cs lw lc
          literal in
      let same = rw l at (k.up_to_date e q) n in
      subst (Serves (live_wsas ws ++ live_cluster_wsas cs)) (ok-injective (sym made ∙ same)) serves
