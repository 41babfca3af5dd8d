-- ===== src/Reconciliation/StateSyncer/Runs.antt =====
-- The loop of `Start` of internal/reconciliation/state_syncer.go, the debouncer's goroutine, the
-- watches of state_sync_controller.go and the cluster, interleaved in any order.
use octopus_permissions_cont.Prelude.{
  ℕ, suc, String, ◌<>◌, Bool, true, Option, none, some, VisitOrder, ◌≡◌,
}
use octopus_permissions_cont.Result.{Result, ok, err}
use octopus_permissions_cont.Cluster.{Client}
use octopus_permissions_cont.Engine.{InMemoryEngine, ClusterState, compute_state_from_cluster}
use octopus_permissions_cont.Reconciliation.Debouncer.{
  BasicDebouncer, debounce, take_timestamp, tick,
}
use octopus_permissions_cont.Reconciliation.StateSyncer.{
  StateSyncer, new_state_syncer, reconcile_state, request_rebuild, rebuild,
}

-- Where `Start` is. While it rebuilds, the mappings are computed and not stored yet.
pub data Loop : Type 0 where
  not_started waiting debouncing : Loop
  starting rebuilding : Result ClusterState → Loop
  returned : Option String → Loop

module _ (o : VisitOrder) (sha256_hex : String → String) (c : Client) where
  -- A replica, the resources in its cache, the requests in the work queue of the `statesync`
  -- controller, and what the last `rebuild` returned.
  pub record Replica : Type 0 where
    pub cluster : c.State
    pub requests : ℕ
    pub syncer : StateSyncer
    pub loop : Loop
    pub last_error : Option String

  unfoldable pub new_replica : c.State → InMemoryEngine → Bool → Replica
  unfolding new_state_syncer
  new_replica s engine elected = record {
    cluster = s;
    requests = 0;
    syncer = new_state_syncer engine elected;
    loop = not_started;
    last_error = none;
  }

  pub data Step (r : Replica) : Replica → Type 0 where
    -- The cache changes, and a watch puts a request into the queue.
    changes : (s : c.State) → Step r (record r { cluster = s; requests = suc r.requests })
    -- A change of anything but the specs of the resources, which the watches leave out.
    changes_else :
        (s : c.State)
        → c.list_wsas s ≡ c.list_wsas r.cluster
        → c.list_cluster_wsas s ≡ c.list_cluster_wsas r.cluster
        → Step r (record r { cluster = s })
    -- The queue keeps one request for a resource that has changed twice.
    merges : (n : ℕ) → r.requests ≡ suc (suc n) → Step r (record r { requests = suc n })
    reconciles :
        (n : ℕ)
        → r.requests ≡ suc n
        → Step r (record r { requests = n; syncer = reconcile_state r.syncer })
    -- The initial rebuild of `Start` and the others read the cache, which may fail at any time.
    starts :
        r.loop ≡ not_started
        → Step r
            (record r { loop = starting (compute_state_from_cluster o sha256_hex c r.cluster) })
    starts_failing :
        (e : String) → r.loop ≡ not_started → Step r (record r { loop = starting (err e) })
    started :
        (x : Result ClusterState) (s : StateSyncer)
        → r.loop ≡ starting x
        → rebuild x r.syncer ≡ ok s
        → Step r (record r { loop = waiting; syncer = s; last_error = none })
    start_fails :
        (x : Result ClusterState) (e : String)
        → r.loop ≡ starting x
        → rebuild x r.syncer ≡ err e
        → Step r (record r {
          loop = returned (some ("failed to build initial state: " <> e));
          last_error = some e;
        })
    -- `case <-s.triggerCh`, then the send of `Debounce` once the channel has room.
    receives_trigger :
        (n : ℕ)
        → r.loop ≡ waiting
        → r.syncer.trigger_ch ≡ suc n
        → Step r (record r { loop = debouncing; syncer = record r.syncer { trigger_ch = n } })
    debounces :
        (now : ℕ) (d : BasicDebouncer)
        → r.loop ≡ debouncing
        → debounce now r.syncer.debouncer ≡ some d
        → Step r (record r { loop = waiting; syncer = record r.syncer { debouncer = d } })
    takes_timestamp :
        (d : BasicDebouncer)
        → take_timestamp r.syncer.debouncer ≡ some d
        → Step r (record r { syncer = record r.syncer { debouncer = d } })
    ticks :
        (d : BasicDebouncer)
        → tick r.syncer.debouncer ≡ some d
        → Step r (record r { syncer = request_rebuild d r.syncer })
    -- `case <-s.rebuildCh`.
    receives_rebuild :
        (n : ℕ)
        → r.loop ≡ waiting
        → r.syncer.rebuild_ch ≡ suc n
        → Step r (record r {
          loop = rebuilding (compute_state_from_cluster o sha256_hex c r.cluster);
          syncer = record r.syncer { rebuild_ch = n };
        })
    receives_rebuild_failing :
        (e : String) (n : ℕ)
        → r.loop ≡ waiting
        → r.syncer.rebuild_ch ≡ suc n
        → Step r
            (record r { loop = rebuilding (err e); syncer = record r.syncer { rebuild_ch = n } })
    rebuilds :
        (x : Result ClusterState) (s : StateSyncer)
        → r.loop ≡ rebuilding x
        → rebuild x r.syncer ≡ ok s
        → Step r (record r { loop = waiting; syncer = s; last_error = none })
    -- The error is only logged.
    rebuild_fails :
        (x : Result ClusterState) (e : String)
        → r.loop ≡ rebuilding x
        → rebuild x r.syncer ≡ err e
        → Step r (record r { loop = waiting; last_error = some e })
    wins : Step r (record r { syncer = record r.syncer { elected = true } })
    -- `case <-s.elected` and `case <-ctx.Done()`.
    stands_down :
        r.loop ≡ waiting → r.syncer.elected ≡ true → Step r (record r { loop = returned none })
    stops : r.loop ≡ waiting → Step r (record r { loop = returned none })
    -- The reconciliation of the leader changes the engine.
    leads :
        (e : InMemoryEngine)
        → r.syncer.elected ≡ true
        → Step r (record r { syncer = record r.syncer { engine = e } })

  pub data Trace (r : Replica) : Replica → Type 0 where
    here : Trace r r
    later : {t u : Replica} → Trace r t → Step t u → Trace r u
