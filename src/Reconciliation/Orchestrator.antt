-- ===== src/Reconciliation/Orchestrator.antt =====
-- internal/reconciliation/orchestrator.go: a batch goes through the stages, and is retried. The texts
-- of events leave out the batch's id and the durations.
pub mod Laws
use octopus_permissions_cont.Prelude.{
  ℕ, suc, ◌+◌, String, ◌<>◌, Bool, true, false, List, [], ◌∷◌, ◌++◌, Option, none, some, map, null,
  leb, ltb, length, decimal, join, lookup_or, Map, if◌then◌else◌, string_eq, ◌==◌,
}
use octopus_permissions_cont.Result.{Result, ok, err, panic}
use octopus_permissions_cont.Api.{NamespacedName, name_eq}
use octopus_permissions_cont.Rules.Resource.{WsaResource, get_namespaced_name}
use octopus_permissions_cont.Reconciliation.Batch.{Batch, Plan, new_event_info, event_type_update}
use octopus_permissions_cont.Reconciliation.Collector.{EventCollector, add_event}
use octopus_permissions_cont.Reconciliation.Queue.{
  WorkQueue, BatchQueue, add_rate_limited, forget, num_requeues,
}

-- `metav1.ConditionStatus`.
pub data ConditionStatus : Type 0 where
  condition_true condition_false condition_unknown : ConditionStatus

abbrev pub condition_type_ready : String
condition_type_ready = "Ready"

abbrev pub reason_in_progress : String
reason_in_progress = "InProgress"

abbrev pub reason_succeeded : String
reason_succeeded = "Succeeded"

abbrev pub reason_failed : String
reason_failed = "Failed"

-- `stageToConditionType`. A stage that is not in the map has no condition.
unfoldable pub condition_type : String → String
condition_type stage =
    if stage == "planning"
    then "Planning"
    else if stage == "validation"
    then "Validation"
    else if stage == "execution"
    then "Execution"
    else ""

-- What is done for every resource of a batch: a condition set, or an event recorded. A condition
-- that cannot be set is only logged.
pub data Notice : Type 0 where
  condition : (type : String) (status : ConditionStatus) (reason message : String) → Notice
  event : (warning : Bool) (reason message : String) → Notice

pub record Noticed : Type 0 where
  pub resources : List WsaResource
  pub notice : Notice

-- The interface `Stage`, over the world that stages share.
pub record Stage (W : Type 0) : Type 0 where
  pub name : String
  pub execute : Batch → W → Result (Unit {0}) × Batch × W

abbrev status_of : String → ConditionStatus
status_of reason =
    if reason == reason_succeeded
    then condition_true
    else if reason == reason_in_progress
    then condition_unknown
    else condition_false

-- `updateStageStatus`.
abbrev pub stage_status : Batch → String → String → String → List Noticed
stage_status b stage reason message =
    if condition_type stage == ""
    then []
    else record {
      resources = b.resources;
      notice = condition (condition_type stage) (status_of reason) reason message;
    }
      ∷ []

abbrev pub emit_event : Batch → Bool → String → String → List Noticed
emit_event b warning reason message =
    record { resources = b.resources; notice = event warning reason message } ∷ []

-- `updateFinalConditions`, which tells a failure by the name of the stage that failed.
abbrev pub final_success : Batch → List Noticed
final_success b =
    record {
      resources = b.resources;
      notice =
          condition condition_type_ready condition_true reason_succeeded
            "All stages completed successfully";
    }
    ∷ []

abbrev pub final_conditions : Batch → Option (String × String) → List Noticed
final_conditions b none = final_success b
final_conditions b (some (stage, e)) =
    if stage == ""
    then final_success b
    else record {
      resources = b.resources;
      notice =
          condition condition_type_ready condition_false reason_failed
            ("Stage " <> stage <> " failed: " <> e);
    }
      ∷ []

-- What a run of the stages leaves: the stage that failed with its error, the batch, the world and
-- the notices, the first one first. `none` is a panic.
abbrev pub Staged : Type 0 → Type 0
Staged W = Option (String × String) × Batch × W × List Noticed

-- `emitReconcileEvents`, for one resource.
abbrev pub reconciled : Plan → WsaResource → Noticed
reconciled plan r =
    let names = lookup_or [] (get_namespaced_name r) plan.wsa_to_sa_names in
    record {
      resources = r ∷ [];
      notice = event false "Reconciled" (
          if null names
          then "No ServiceAccounts generated (no matching scopes)"
          else "Reconciled "
            <> decimal (length names)
            <> " ServiceAccount(s): "
            <> join ", " names
            <> " across "
            <> decimal (length plan.target_namespaces)
            <> " namespace(s)");
    }

abbrev pub reconcile_events : Batch → List Noticed
reconcile_events b = elim (b.plan) [ none ↦ [] | some plan ↦ map (reconciled plan) b.resources ]

-- What `processBatch` returns and leaves, and whether a follow-up is scheduled.
pub record Processed (W : Type 0) : Type 0 where
  pub error : Option String
  pub batch : Batch
  pub world : W
  pub notices : List Noticed
  pub follow_up : Bool

module _ {W : Type 0} where
  -- What follows a stage, with what the stages after it would give.
  abbrev pub stage_ended :
      Stage W → Result (Unit {0}) → Batch → W → List Noticed → Option (Staged W) → Option (Staged W)
  stage_ended stage panic b w started next = none
  stage_ended stage (ok _) b w started next = next
  stage_ended stage (err e) b w started next = some (
    some (stage.name, e),
    b,
    w,
    started
        ++ stage_status b stage.name reason_failed e
        ++ emit_event b true "StageFailed" ("Stage " <> stage.name <> " failed: " <> e),
  )

  -- The loop over the stages.
  unfoldable pub run_stages : List (Stage W) → Batch → W → List Noticed → Option (Staged W)
  run_stages [] b w log = some (none, b, w, log)
  run_stages (stage ∷ rest) b w log =
      let started =
        log
        ++ stage_status b stage.name reason_in_progress "Processing"
        ++ emit_event b false "StageStarted" ("Stage " <> stage.name <> " started") in
      let (result, b', w') = stage.execute b w in
      stage_ended stage result b' w' started (
        run_stages rest b' w' (
          started
          ++ stage_status b' stage.name reason_succeeded "Complete"
          ++ emit_event b' false "StageCompleted" ("Stage " <> stage.name <> " completed")))

  unfoldable pub process_batch : List (Stage W) → Batch → W → Option (Processed W)
  unfolding run_stages
  process_batch stages b w =
      let staged = run_stages stages b w [] in
      if null b.resources
      then some (record { error = none; batch = b; world = w; notices = []; follow_up = false })
      else elim staged [
        | none ↦ none
        | some (some (stage, e), b', w', log) ↦ some (record {
          error = some ("stage " <> stage <> " failed: " <> e);
          batch = b';
          world = w';
          notices = log ++ final_conditions b' (some (stage, e));
          follow_up = false;
        })
        | some (none, b', w', log) ↦ some (record {
          error = none;
          batch = b';
          world = w';
          notices = log ++ final_conditions b' none ++ reconcile_events b';
          follow_up = ltb 0 b'.requeue_after;
        })
      ]

-- The state of the orchestrator: its retry queue, the collector, the world and all notices.
pub record Orchestrator (q : WorkQueue) (W : Type 0) : Type 0 where
  pub retry_queue : BatchQueue q
  pub collector : EventCollector
  pub world : W
  pub notices : List Noticed
  pub processed : ℕ
  pub failed : ℕ

-- `stages`, `maxRetries`, the engine's rebuild, and the client's read of a resource.
pub record Services (W : Type 0) : Type 0 where
  pub stages : List (Stage W)
  pub max_retries : ℕ
  pub rebuild : W → Result W
  pub fetch : WsaResource → W → Option WsaResource

module _ (q : WorkQueue) {W : Type 0} (services : Services W) where
  open services use {stages, max_retries, rebuild, fetch}

  unfoldable pub requeue_failed_resources : List WsaResource → W → EventCollector → EventCollector
  requeue_failed_resources [] w c = c
  requeue_failed_resources (r ∷ rest) w c = elim (fetch r w) [
    | none ↦ requeue_failed_resources rest w c
    | some fresh ↦
        requeue_failed_resources rest w (add_event (new_event_info fresh event_type_update) c)
  ]

  -- What follows the rebuild: an error is only logged, and a panic ends the process.
  abbrev pub rebuilt : Batch → Orchestrator q W → Result W → Option (Orchestrator q W)
  rebuilt b s panic = none
  rebuilt b s (err _) = some s
  rebuilt b s (ok w) =
      some (record s { world = w; collector = requeue_failed_resources b.resources w s.collector })

  unfoldable pub handle_permanent_failure :
      Batch → ℕ → String → Orchestrator q W → Option (Orchestrator q W)
  unfolding requeue_failed_resources
  handle_permanent_failure b retries e s =
      let noticed =
        s.notices
        ++ emit_event b true "ReconcileFailed"
            ("Permanent failure after " <> decimal retries <> " retries: " <> e) in
      rebuilt b (record s { notices = noticed; failed = suc s.failed }) (rebuild s.world)

  -- The two ends of a failed run, by whether another try is allowed.
  abbrev pub retry_or_give_up :
      Bool → ℕ → String → Batch → Orchestrator q W → Option (Orchestrator q W)
  retry_or_give_up true retry_count e b s = some (record s {
    notices =
        s.notices
        ++ emit_event b true "RetryQueued"
            ("Queued for retry " <> decimal retry_count <> "/" <> decimal max_retries <> ": " <> e);
    retry_queue = add_rate_limited q b s.retry_queue;
  })
  retry_or_give_up false retry_count e b s =
      handle_permanent_failure b retry_count e (record s { retry_queue = forget q b s.retry_queue })

  -- What follows a run of the stages.
  unfoldable pub settle : Option String → Batch → Orchestrator q W → Option (Orchestrator q W)
  unfolding handle_permanent_failure
  settle none b s =
      some (record s { retry_queue = forget q b s.retry_queue; processed = suc s.processed })
  settle (some e) b s =
      let retry_count = num_requeues q b s.retry_queue + 1 in
      retry_or_give_up (leb retry_count max_retries) retry_count e
        (record b { last_error = some e }) s

  unfoldable pub process_batch_with_retry : Batch → Orchestrator q W → Option (Orchestrator q W)
  unfolding process_batch settle
  process_batch_with_retry b s = elim (process_batch stages b s.world) [
    | none ↦ none
    | some p ↦
        let s' = record s { world = p.world; notices = s.notices ++ p.notices } in
        settle p.error p.batch s'
  ]
