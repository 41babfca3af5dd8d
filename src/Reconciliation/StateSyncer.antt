-- ===== src/Reconciliation/StateSyncer.antt =====
-- internal/reconciliation/state_syncer.go and internal/controller/state_sync_controller.go: what a
-- replica does to keep the mappings that its webhook reads.
pub mod Runs
pub mod Invariant
pub mod Liveness
pub mod Rest
pub mod Answers
pub mod Readiness
use octopus_permissions_cont.Prelude.{
  ℕ, suc, String, Bool, true, false, Option, none, some, ltb, if◌then◌else◌,
}
use octopus_permissions_cont.Result.{Result, ok, ◌>>=◌}
use octopus_permissions_cont.Engine.{InMemoryEngine, ClusterState, refreshed}
use octopus_permissions_cont.Reconciliation.Debouncer.{BasicDebouncer, new_debouncer}

-- `StateSyncer`. A channel of capacity 1 is the number of its items, and `elected` says whether
-- that channel is closed. The mutable state of the engine stands in the syncer.
pub record StateSyncer : Type 0 where
  pub engine : InMemoryEngine
  pub debouncer : BasicDebouncer
  pub elected : Bool
  pub trigger_ch : ℕ
  pub rebuild_ch : ℕ
  pub synced : Bool

unfoldable pub new_state_syncer : InMemoryEngine → Bool → StateSyncer
unfolding new_debouncer
new_state_syncer engine elected = record {
  engine = engine;
  debouncer = new_debouncer;
  elected = elected;
  trigger_ch = 0;
  rebuild_ch = 0;
  synced = false;
}

unfoldable pub need_leader_election : Bool
need_leader_election = false

-- `select { case ch <- struct{}{}: default: }` on a channel of capacity 1.
unfoldable pub offer : ℕ → ℕ
offer items = if ltb items 1 then suc items else items

unfoldable pub trigger : StateSyncer → StateSyncer
unfolding offer
trigger s = record s { trigger_ch = offer s.trigger_ch }

-- The callback that `NewStateSyncer` gives the debouncer.
unfoldable pub request_rebuild : BasicDebouncer → StateSyncer → StateSyncer
unfolding offer
request_rebuild d s = record s { debouncer = d; rebuild_ch = offer s.rebuild_ch }

-- `rebuild`, from what the engine has computed of the cluster.
unfoldable pub rebuilt : ClusterState → StateSyncer → StateSyncer
rebuilt state s = record s { engine = refreshed state s.engine; synced = true }

unfoldable pub rebuild : Result ClusterState → StateSyncer → Result StateSyncer
unfolding rebuilt
rebuild computed s = computed >>= λ state. ok (rebuilt state s)

unfoldable pub has_synced : StateSyncer → Bool
has_synced s = s.synced

-- The error, if there is one.
unfoldable pub readyz_check : StateSyncer → Option String
unfolding has_synced
readyz_check s = if has_synced s then none else some "in-memory state has not been built yet"

-- `StateSyncReconciler.Reconcile`, which ignores the request.
unfoldable pub reconcile_state : StateSyncer → StateSyncer
unfolding trigger
reconcile_state s = trigger s
