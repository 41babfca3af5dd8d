-- ===== src/Reconciliation/Orchestrator/Laws.antt =====
-- internal/reconciliation/orchestrator.go: the stages in order, and the bound on retries.
use mathlib.Core.Option.{some_inj}
use octopus_permissions_cont.Prelude.{
  all, not, ◌==◌, string_eq, subst, ℕ, suc, ◌+◌, ◌≤◌, String, ◌<>◌, Bool, true, false, List, [],
  ◌∷◌, ◌++◌, Option, none, some, leb, lookup, lookup-put, lookup-delete, if◌then◌else◌, Bool-cases,
  inl, inr, nat_eq, ==_refl, ◌≡◌, refl, ap, ◌∙◌, arith, decimal,
}
use octopus_permissions_cont.Result.{Result, ok, err, panic, is_panic}
use octopus_permissions_cont.Reconciliation.Batch.{Batch}
use octopus_permissions_cont.Reconciliation.Queue.{
  WorkQueue, add_rate_limited, forget, num_requeues,
}
use octopus_permissions_cont.Reconciliation.Orchestrator.{
  Orchestrator, Services, Stage, Staged, Noticed, run_stages, stage_ended, stage_status,
  reason_in_progress, reason_succeeded, reason_failed, settle, rebuilt, handle_permanent_failure,
  emit_event,
}

module _ {W : Type 0} where
  -- The stages that follow what a run of stages left: none of them if one failed.
  abbrev then_run : List (Stage W) → Option (Staged W) → Option (Staged W)
  then_run later none = none
  then_run later (some (some failure, b, w, log)) = some (some failure, b, w, log)
  then_run later (some (none, b, w, log)) = run_stages later b w log

  stage_ended-then_run :
      (later : List (Stage W)) (stage : Stage W) (result : Result (Unit {0})) (b : Batch) (w : W)
      (started : List Noticed) (next : Option (Staged W))
      → stage_ended stage result b w started (then_run later next)
        ≡ then_run later (stage_ended stage result b w started next)
  stage_ended-then_run later stage (ok _) b w started next = refl
  stage_ended-then_run later stage (err e) b w started next = refl
  stage_ended-then_run later stage panic b w started next = refl

  run_stages-append :
      (earlier later : List (Stage W)) (b : Batch) (w : W) (log : List Noticed)
      → run_stages (earlier ++ later) b w log ≡ then_run later (run_stages earlier b w log)
  unfolding run_stages
  run_stages-append [] later b w log = refl
  run_stages-append (stage ∷ rest) later b w log =
      let started =
        log
        ++ stage_status b stage.name reason_in_progress "Processing"
        ++ emit_event b false "StageStarted" ("Stage " <> stage.name <> " started") in
      let (result, b', w') = stage.execute b w in
      let completed =
        started
        ++ stage_status b' stage.name reason_succeeded "Complete"
        ++ emit_event b' false "StageCompleted" ("Stage " <> stage.name <> " completed") in
      ap (stage_ended stage result b' w' started) (run_stages-append rest later b' w' completed)
      ∙ stage_ended-then_run later stage result b' w' started (run_stages rest b' w' completed)

  -- A stage that fails ends the run: if the stages before it ran without an error, each on the
  -- batch and the world that the one before it left, and the stage fails on what they leave, then
  -- the run gives that stage's name and error with the batch and the world that this stage left,
  -- whatever stages come after it: none of them runs.
  pub run_stages-failed :
      (earlier later : List (Stage W)) (stage : Stage W) (b b₁ b₂ : Batch) (w w₁ w₂ : W)
      (log log₁ : List Noticed) (e : String)
      → run_stages earlier b w log ≡ some (none, b₁, w₁, log₁)
      → stage.execute b₁ w₁ ≡ (err e, b₂, w₂)
      → (log₂ : List Noticed) × (run_stages (earlier ++ (stage ∷ later)) b w log
          ≡ some (some (stage.name, e), b₂, w₂, log₂))
  unfolding run_stages
  run_stages-failed earlier later stage b b₁ b₂ w w₁ w₂ log log₁ e before fails = (
    log₁
        ++ stage_status b₁ stage.name reason_in_progress "Processing"
        ++ emit_event b₁ false "StageStarted" ("Stage " <> stage.name <> " started")
        ++ stage_status b₂ stage.name reason_failed e
        ++ emit_event b₂ true "StageFailed" ("Stage " <> stage.name <> " failed: " <> e),
    rw (run_stages-append earlier (stage ∷ later) b w log, before, fails) refl,
  )

  -- All the stages have names, as those of the program do.
  abbrev pub all_named : List (Stage W) → Bool
  all_named stages = all (λ stage. not (stage.name == "")) stages

  stage_ended-named :
      (stage : Stage W) (result : Result (Unit {0})) (b b' : Batch) (w w' : W)
      (started log : List Noticed) (next : Option (Staged W)) (name e : String)
      → (stage.name == "") ≡ false
      → (next ≡ some (some (name, e), b', w', log) → (name == "") ≡ false)
      → stage_ended stage result b w started next ≡ some (some (name, e), b', w', log)
      → (name == "") ≡ false
  stage_ended-named stage (ok _) b b' w w' started log next name e named rest h = rest h
  stage_ended-named stage panic b b' w w' started log next name e named rest h = ground arith
  stage_ended-named stage (err m) b b' w w' started log next name e named rest h =
      subst (λ n. (n == "") ≡ false) (ap (λ x. x.0) (some_inj.0 (ap (λ x. x.0) (some_inj.0 h))))
        named

  -- A run that failed tells the name of one of its stages.
  pub run_stages-named :
      (stages : List (Stage W)) (b b' : Batch) (w w' : W) (log log' : List Noticed)
      (name e : String)
      → all_named stages ≡ true
      → run_stages stages b w log ≡ some (some (name, e), b', w', log')
      → (name == "") ≡ false
  unfolding run_stages
  run_stages-named [] b b' w w' log log' name e named h = ground (arith, h)
  run_stages-named (stage ∷ rest) b b' w w' log log' name e named h =
      let (result, b₁, w₁) = stage.execute b w in
      stage_ended-named stage result b₁ b' w₁ w' _ log' _ name e (ground arith)
        (run_stages-named rest b₁ b' w₁ w' _ log' name e (ground arith)) h

-- What the work queue documents of its rate limiter: it counts the times that an item was added
-- again, until the item is forgotten.
pub record Counts (q : WorkQueue) : Type 0 where
  pub added :
      (id : ℕ) (s : q.State)
      → q.num_requeues id (q.add_rate_limited id s) ≡ suc (q.num_requeues id s)
  pub forgotten : (id : ℕ) (s : q.State) → q.num_requeues id (q.forget id s) ≡ 0

-- What the retry queue keeps of a batch that failed.
abbrev pub kept : Bool → Batch → Option Batch
kept true b = some b
kept false b = none

module _ (q : WorkQueue) {W : Type 0} (services : Services W) where
  open services use {max_retries, rebuild}

  abbrev pub may_retry : Batch → Orchestrator q W → Bool
  may_retry b s = leb (num_requeues q b s.retry_queue + 1) max_retries

  -- After a run that failed.
  pub record Failed (e : String) (b : Batch) (s s' : Orchestrator q W) : Type 0 where
    pub queued :
        lookup b.id s'.retry_queue.batches ≡ kept (may_retry b s) (record b { last_error = some e })
    pub counted :
        num_requeues q b s'.retry_queue
        ≡ (if may_retry b s then num_requeues q b s.retry_queue + 1 else 0)
    pub given_up : s'.failed ≡ (if may_retry b s then s.failed else suc s.failed)
    pub bounded : num_requeues q b s'.retry_queue ≤ max_retries

  abbrev retried : String → Batch → Orchestrator q W → Orchestrator q W
  retried e b s =
      let retries = num_requeues q b s.retry_queue + 1 in
      let failed = record b { last_error = some e } in
      record s {
        notices =
            s.notices
            ++ emit_event failed true "RetryQueued"
                ("Queued for retry " <> decimal retries <> "/" <> decimal max_retries <> ": " <> e);
        retry_queue = add_rate_limited q failed s.retry_queue;
      }

  -- A rebuild that does not panic leaves the retry queue and the count of failures.
  rebuilt_lem :
      (b : Batch) (s : Orchestrator q W) (r : Result W)
      → is_panic r ≡ false
      → (s' : Orchestrator q W) × (rebuilt q services b s r ≡ some s')
        × (s'.retry_queue ≡ s.retry_queue)
        × (s'.failed ≡ s.failed)
  rebuilt_lem b s (ok w) calm = (_, refl, refl, refl)
  rebuilt_lem b s (err e) calm = (s, refl, refl, refl)
  rebuilt_lem b s panic calm = ground arith

  -- While the engine's rebuild does not panic, a batch that failed is settled. If it was queued
  -- again less often than the limit, the retry queue has it with its error, and the count of its
  -- retries grows by one; else it is forgotten, its count is 0, and one failure is recorded. The
  -- count never passes the limit.
  pub settle-Failed :
      (counts : Counts q) (e : String) (b : Batch) (s : Orchestrator q W)
      → is_panic (rebuild s.world) ≡ false
      → (s' : Orchestrator q W) × (settle q services (some e) b s ≡ some s') × Failed e b s s'
  unfolding settle handle_permanent_failure add_rate_limited forget num_requeues
  settle-Failed counts e b s calm = elim (Bool-cases (may_retry b s)) [
    | inl h ↦ (
      retried e b s,
      rw h refl,
      record {
        queued = rw h (
            rw
              (
                lookup-put b.id b.id (record b { last_error = some e }) s.retry_queue.batches,
                ==_refl b.id,
              )
              refl);
        counted = rw h (rw (counts.added b.id s.retry_queue.queue) (ground arith));
        given_up = rw h refl;
        bounded = rw (counts.added b.id s.retry_queue.queue) (ground (arith, h));
      },
    )
    | inr h ↦
        let retries = num_requeues q b s.retry_queue + 1 in
        let failed = record b { last_error = some e } in
        let forgot = record s { retry_queue = forget q failed s.retry_queue } in
        let noticed = record forgot {
          notices =
              s.notices
              ++ emit_event failed true "ReconcileFailed"
                  ("Permanent failure after " <> decimal retries <> " retries: " <> e);
          failed = suc s.failed;
        } in
        let (s', made, same_queue, same_failed) =
          rebuilt_lem failed noticed (rebuild s.world) calm in
        (
          s',
          rw h made,
          record {
            queued =
                rw (h, same_queue)
                  (rw (lookup-delete b.id b.id s.retry_queue.batches, ==_refl b.id) refl);
            counted = rw (h, same_queue) (counts.forgotten b.id s.retry_queue.queue);
            given_up = rw (h, same_failed) refl;
            bounded = rw (same_queue, counts.forgotten b.id s.retry_queue.queue) (ground arith);
          },
        )
  ]
