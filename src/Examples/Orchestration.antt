-- ===== src/Examples/Orchestration.antt =====
-- Runs of the orchestrator on the small installation: stages, retries and conditions.
use octopus_permissions_cont.Prelude.{
  ℕ, suc, ◌++◌, Memᴰ, if◌then◌else◌, ◌==◌, true, false, List, [], ◌∷◌, none, some, Map, put,
  lookup-put, lookup_or, delete, lookup-delete, nat_eq, string_eq, ==_refl, ◌≡◌, refl, arith,
}
use octopus_permissions_cont.Result.{ok, err}
use octopus_permissions_cont.Api.{name_eq}
use octopus_permissions_cont.Reconciliation.Batch.{Batch}
use octopus_permissions_cont.Reconciliation.Queue.{WorkQueue}
use octopus_permissions_cont.Reconciliation.Orchestrator.{
  Orchestrator, Services, Stage, Noticed, run_stages, reason_succeeded, settle, Processed,
  process_batch, stage_status, emit_event, final_conditions, reason_in_progress, reason_failed,
  condition_false, condition_type_ready, condition_type,
}
use octopus_permissions_cont.Reconciliation.Orchestrator.Laws.{
  Counts, Failed, run_stages-failed, settle-Failed,
}
use octopus_permissions_cont.Reconciliation.Conditions.{Condition, StatusClient, deliver_all}
use octopus_permissions_cont.Reconciliation.Conditions.Laws.{
  Sets, find_status_condition, condition_of, told, process_batch-told,
}
use octopus_permissions_cont.Examples.Data.{web}
use octopus_permissions_cont.Examples.Events.{one_event}

-- A work queue that only counts.
abbrev counter : WorkQueue
counter = record {
  State = Map ℕ ℕ;
  add = λ id s. s;
  add_rate_limited = λ id s. put id (suc (lookup_or 0 id s)) s;
  get = λ s. none;
  done = λ id s. s;
  forget = λ id s. delete id s;
  num_requeues = λ id s. lookup_or 0 id s;
  shut_down = λ s. s;
}

counter_counts : Counts counter
counter_counts = record {
  added = λ id s. rw (lookup-put id id (suc (lookup_or 0 id s)) s, ==_refl id) refl;
  forgotten = λ id s. rw (lookup-delete id id s, ==_refl id) refl;
}

abbrev failing : Stage (Unit {0})
failing = record { name = "planning"; execute = λ b w. (err "no answer", b, w) }

abbrev succeeding : Stage (Unit {0})
succeeding = record { name = "validation"; execute = λ b w. (ok tt, b, w) }

abbrev services : Services (Unit {0})
services = record {
  stages = failing ∷ [];
  max_retries = 3;
  rebuild = λ w. ok w;
  fetch = λ r w. some r;
}

abbrev batch : Batch
batch = record {
  id = 7;
  resources = web ∷ [];
  plan = none;
  validation_result = none;
  last_error = none;
  requeue_after = 0;
}

-- The batch was queued again three times.
abbrev tired : Orchestrator counter (Unit {0})
tired = record {
  retry_queue = record { queue = (7, 3) ∷ []; batches = (7, batch) ∷ [] };
  collector = one_event 10;
  world = tt;
  notices = [];
  processed = 0;
  failed = 0;
}

given_up_example :
    (s' : Orchestrator counter (Unit {0})) × (settle counter services (some "no answer") batch tired
      ≡ some s')
    × Failed counter services "no answer" batch tired s'
given_up_example = settle-Failed counter services counter_counts "no answer" batch tired refl

abbrev succeeded_notices : List Noticed
succeeded_notices =
    stage_status batch "validation" reason_in_progress "Processing"
    ++ emit_event batch false "StageStarted" "Stage validation started"
    ++ stage_status batch "validation" reason_succeeded "Complete"
    ++ emit_event batch false "StageCompleted" "Stage validation completed"

succeeding_runs :
    run_stages (succeeding ∷ []) batch tt [] ≡ some (none, batch, tt, succeeded_notices)
unfolding run_stages condition_type
succeeding_runs = refl

stages_example :
    (log : List Noticed) × (run_stages (succeeding ∷ failing ∷ succeeding ∷ []) batch tt []
      ≡ some (some ("planning", "no answer"), batch, tt, log))
stages_example =
    run_stages-failed (succeeding ∷ []) (succeeding ∷ []) failing batch batch batch tt tt tt []
      succeeded_notices "no answer" succeeding_runs refl

-- A run that fails in planning.
abbrev ran : Processed (Unit {0})
ran = record {
  error = some "stage planning failed: no answer";
  batch = batch;
  world = tt;
  notices =
      stage_status batch "planning" reason_in_progress "Processing"
      ++ emit_event batch false "StageStarted" "Stage planning started"
      ++ stage_status batch "planning" reason_failed "no answer"
      ++ emit_event batch true "StageFailed" "Stage planning failed: no answer"
      ++ final_conditions batch (some ("planning", "no answer"));
  follow_up = false;
}

-- An API server that refuses every status.
abbrev set_condition : List Condition → Condition → List Condition
set_condition [] x = x ∷ []
set_condition (y ∷ ys) x =
    let rest = set_condition ys x in if y.type == x.type then x ∷ ys else y ∷ rest

abbrev refusing : StatusClient
refusing = record {
  State = ℕ;
  set_status_condition = set_condition;
  group_version_kind = λ r. ("agent.octopus.com/v1beta1", "WorkloadServiceAccount");
  marshal = λ p. (none, p.name);
  patch = λ r text s. (some "conflict", suc s);
}

found-set_condition :
    (cs : List Condition) (x : Condition)
    → find_status_condition x.type (set_condition cs x) ≡ some x
found-set_condition [] x = ground (arith, ==_refl x.type)
found-set_condition (y ∷ ys) x = ground (arith, ==_refl x.type, found-set_condition ys x)

refusing-Sets : Sets refusing
refusing-Sets = record { found = found-set_condition }

run_ended : process_batch (failing ∷ succeeding ∷ []) batch tt ≡ some ran
unfolding process_batch run_stages condition_type
run_ended = refl

told_example :
    told (condition_of (deliver_all refusing ran.notices [] 0).0 web condition_type_ready)
    ≡ some (condition_false, reason_failed)
told_example =
    process_batch-told refusing refusing-Sets (failing ∷ succeeding ∷ []) batch tt ran web [] 0
      run_ended refl refl (Memᴰ.head refl)
