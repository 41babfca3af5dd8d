-- ===== src/Reconciliation/Queue.antt =====
-- internal/reconciliation/batch_queue.go, over the rate-limited work queue of client-go, which is a
-- parameter.
use octopus_permissions_cont.Prelude.{ℕ, Option, none, some, Map, put, lookup, delete, nat_eq}
use octopus_permissions_cont.Reconciliation.Batch.{Batch}

-- `workqueue.TypedRateLimitingInterface[BatchID]`. `get` gives an item, or says that the queue was
-- shut down; it blocks on an empty queue, so `none` is no return.
pub record WorkQueue : Type 1 where
  pub State : Type 0
  pub add : ℕ → State → State
  pub add_rate_limited : ℕ → State → State
  pub get : State → Option (Option ℕ × State)
  pub done : ℕ → State → State
  pub forget : ℕ → State → State
  pub num_requeues : ℕ → State → ℕ
  pub shut_down : State → State

module _ (w : WorkQueue) where
  pub record BatchQueue : Type 0 where
    pub queue : w.State
    pub batches : Map ℕ Batch

  unfoldable pub add : Batch → BatchQueue → BatchQueue
  add b q = record { queue = w.add b.id q.queue; batches = put b.id b q.batches }

  unfoldable pub add_rate_limited : Batch → BatchQueue → BatchQueue
  add_rate_limited b q = record {
    queue = w.add_rate_limited b.id q.queue;
    batches = put b.id b q.batches;
  }

  -- What `Get` returns: a batch, no batch, or that the queue was shut down.
  pub data Got : Type 0 where
    got : Batch → Got
    no_batch shutdown : Got

  unfoldable pub get : BatchQueue → Option (Got × BatchQueue)
  get q = elim (w.get q.queue) [
    | none ↦ none
    | some (none, s) ↦ some (shutdown, record q { queue = s })
    | some (some id, s) ↦ elim (lookup id q.batches) [
      | some b ↦ some (got b, record q { queue = s })
      | none ↦ some (no_batch, record q { queue = w.forget id (w.done id s) })
    ]
  ]

  unfoldable pub done : Batch → BatchQueue → BatchQueue
  done b q = record q { queue = w.done b.id q.queue }

  unfoldable pub forget : Batch → BatchQueue → BatchQueue
  forget b q = record { queue = w.forget b.id q.queue; batches = delete b.id q.batches }

  unfoldable pub num_requeues : Batch → BatchQueue → ℕ
  num_requeues b q = w.num_requeues b.id q.queue

  unfoldable pub shut_down : BatchQueue → BatchQueue
  shut_down q = record q { queue = w.shut_down q.queue }
