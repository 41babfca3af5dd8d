-- ===== src/Examples/Replicas.antt =====
-- A replica of the small installation, from its start to a change that it answers.
use octopus_permissions_cont.Prelude.{
  ◌+◌, ◌≤◌, ◌+◌, ◌≤◌, true, false, [], ◌∷◌, ◌++◌, none, some, ◌≡◌, ◌⊎◌, inl, refl, Memᴰ, map,
  if◌then◌else◌, string_eq,
}
use octopus_permissions_cont.Result.{ok}
use octopus_permissions_cont.Api.{ClusterWorkloadServiceAccount}
use octopus_permissions_cont.Rules.Resource.{get_namespaced_name}
use octopus_permissions_cont.Rules.Naming.{managed_by_label, managed_by_value}
use octopus_permissions_cont.Controller.Predicates.{WatchedObject, is_managed_service_account}
use octopus_permissions_cont.Controller.Mapper.{map_service_account_to_resources}
use octopus_permissions_cont.Controller.Mapper.Laws.{map_service_account_to_resources-live}
use octopus_permissions_cont.Engine.{
  ClusterState, new_in_memory_engine, compute_state_from_cluster, all_resources, live_wsas,
  live_cluster_wsas,
}
use octopus_permissions_cont.Engine.Laws.{Serves, state_of_resources-Serves}
use octopus_permissions_cont.Reconciliation.Debouncer.{
  new_debouncer, debounced, timestamp_taken, ticked, debouncer_run,
}
use octopus_permissions_cont.Reconciliation.Debouncer.Laws.{
  IsOrdered, outstanding, debounces, drained, debouncer_run-IsOrdered, debouncer_run-drained,
}
use octopus_permissions_cont.Reconciliation.StateSyncer.{
  new_state_syncer, reconcile_state, rebuild, rebuilt, readyz_check,
}
use octopus_permissions_cont.Reconciliation.StateSyncer.Runs.{
  waiting, returned, Replica, new_replica, Trace, here, later, changes, reconciles, starts,
  starts_failing, started, start_fails,
}
use octopus_permissions_cont.Reconciliation.StateSyncer.Invariant.{Trace-Serves}
use octopus_permissions_cont.Reconciliation.StateSyncer.Liveness.{
  is_requested, Begins, Step-is_requested,
}
use octopus_permissions_cont.Reconciliation.StateSyncer.Answers.{Settles, Trace-Settles}
use octopus_permissions_cont.Reconciliation.StateSyncer.Readiness.{
  IsBuilt, readyz_check-IsBuilt, readyz_check-returned,
}
use octopus_permissions_cont.Examples.Data.{
  first_to_last, plain, deployer, auditor, resources, resources-IsLiteral, recorder, nothing,
}

abbrev RecorderReplica : Type 0
RecorderReplica = Replica first_to_last plain recorder

computed :
    (state : ClusterState) × (compute_state_from_cluster first_to_last plain recorder nothing
      ≡ ok state)
unfolding compute_state_from_cluster all_resources live_wsas live_cluster_wsas
computed =
    let (state, made, _) =
      state_of_resources-Serves first_to_last plain resources resources-IsLiteral in
    (state, rw made refl)

abbrev new : RecorderReplica
new = new_replica first_to_last plain recorder nothing new_in_memory_engine false

-- After the initial rebuild.
abbrev ready : RecorderReplica
ready = record new { loop = waiting; syncer = rebuilt computed.0 new.syncer; last_error = none }

to_ready : Trace first_to_last plain recorder new ready
unfolding new_replica rebuild
to_ready =
    later (later here (starts refl))
      (started _ (rebuilt computed.0 new.syncer) refl (rw computed.1 refl))

-- After a change of a resource.
abbrev changed : RecorderReplica
changed = record ready { requests = 1 }

to_changed : Trace first_to_last plain recorder new changed
unfolding new_replica
to_changed = later to_ready (changes nothing)

serves_example :
    Serves (live_wsas (deployer ∷ []) ++ live_cluster_wsas (auditor ∷ [])) ready.syncer.engine
unfolding new_replica new_state_syncer new_debouncer rebuilt live_wsas live_cluster_wsas
serves_example =
    Trace-Serves first_to_last plain recorder nothing new_in_memory_engine false ready
      (deployer ∷ []) (auditor ∷ []) to_ready refl refl refl refl refl refl resources-IsLiteral

reply_example : Settles first_to_last plain recorder changed computed.0
unfolding new_replica
reply_example =
    Trace-Settles first_to_last plain recorder nothing new_in_memory_engine false changed computed.0
      to_changed (inl refl) refl computed.1

abbrev triggered : RecorderReplica
triggered = record changed { requests = 0; syncer = reconcile_state changed.syncer }

-- The step of the syncer alone that takes the request into the trigger channel.
abbrev to_triggered : Trace first_to_last plain recorder changed triggered
to_triggered = later here (reconciles 0 refl)

requested_example :
    (is_requested first_to_last plain recorder triggered ≡ true)
    ⊎ Begins first_to_last plain recorder changed triggered
unfolding new_replica
requested_example =
    Step-is_requested first_to_last plain recorder nothing new_in_memory_engine false changed
      triggered to_changed (reconciles 0 refl) refl

built_example : IsBuilt first_to_last plain recorder new ready ready.syncer.engine
unfolding new_replica new_state_syncer rebuilt readyz_check
built_example =
    readyz_check-IsBuilt first_to_last plain recorder nothing new_in_memory_engine false ready
      to_ready refl refl

-- A replica whose initial rebuild failed.
abbrev failed_replica : RecorderReplica
failed_replica = record new {
  loop = returned (some "failed to build initial state: timeout");
  last_error = some "timeout";
}

to_failed : Trace first_to_last plain recorder new failed_replica
unfolding new_replica rebuild
to_failed = later (later here (starts_failing "timeout" refl)) (start_fails _ "timeout" refl refl)

returned_example :
    readyz_check failed_replica.syncer ≡ some "in-memory state has not been built yet"
returned_example =
    readyz_check-returned first_to_last plain recorder nothing new_in_memory_engine false
      failed_replica "failed to build initial state: timeout" to_failed refl

ordered_example :
    IsOrdered (debouncer_run (debounced 5 ∷ timestamp_taken ∷ ticked ∷ []) new_debouncer).0
    × ((debouncer_run (debounced 5 ∷ timestamp_taken ∷ ticked ∷ []) new_debouncer).1
          + outstanding
              (debouncer_run (debounced 5 ∷ timestamp_taken ∷ ticked ∷ []) new_debouncer).0
        ≤ debounces (debounced 5 ∷ timestamp_taken ∷ ticked ∷ []))
ordered_example = debouncer_run-IsOrdered (debounced 5 ∷ timestamp_taken ∷ ticked ∷ [])

drained_example :
    debouncer_run
      (drained (5 ∷ 6 ∷ []))
      (record { time_chan = 5 ∷ 6 ∷ []; started_time = none; ticking = false })
    ≡ (new_debouncer, 1)
drained_example = debouncer_run-drained 5 (6 ∷ [])

-- A service account that the controller made.
abbrev managed_account : WatchedObject
managed_account = record {
  uid = "1";
  generation = 1;
  is_service_account = true;
  labels = (managed_by_label, managed_by_value) ∷ [];
  managed_fields = [];
}

mapper_example :
    (map_service_account_to_resources managed_account (ok (map (λ w. w.meta) (deployer ∷ [])))
      ++ map_service_account_to_resources managed_account (ok (map (λ w. w.meta) (auditor ∷ []))))
    ≡ (if is_managed_service_account managed_account
        then map get_namespaced_name (live_wsas (deployer ∷ []) ++ live_cluster_wsas (auditor ∷ []))
        else [])
mapper_example =
    map_service_account_to_resources-live managed_account (deployer ∷ []) (auditor ∷ [])
      auditor_without_namespace
  where
    auditor_without_namespace :
        (w : ClusterWorkloadServiceAccount) → Memᴰ w (auditor ∷ []) → w.meta.namespace ≡ ""
    auditor_without_namespace w (Memᴰ.head e) = rw e refl
    auditor_without_namespace w (Memᴰ.tail m) = elim m [ ]
