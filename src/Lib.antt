-- ===== src/Lib.antt =====
-- The Octopus permissions controller: which service account a workload pod gets, and how the
-- accounts, roles and bindings behind it are kept.
--
-- The program. WorkloadServiceAccounts and ClusterWorkloadServiceAccounts say which permissions a
-- workload in a scope (project, project group, environment, tenant, step, space) has. Reconcilers
-- put the changes of these resources into a collector; batches of them go through three stages
-- (planning, validation, execution), which compute for every relevant scope the resources that
-- apply, make one service account for each set of resources, write roles and bindings to the
-- cluster, delete what nothing calls for, and at last publish the mappings to the engine in memory.
-- A webhook on every replica reads the engine to set the service account of a new pod; on a replica
-- that does not lead, a syncer keeps the engine current with what the cluster lists.
--
-- The files and the code they model:
--   Api          api/v1beta1: the two kinds of resource, with the metadata that is read
--   Cluster      the API server: what is applied, listed and deleted through the client
--   Rules/Scope, Rules/Resource, Rules/Vocabulary, Rules/Coverage, Rules/ScopeMap, Rules/Grouping,
--   Rules/Naming, Rules/Mappings
--                internal/types/scope.go, internal/rules/wsa_resource.go, generator.go and
--                scope_computation.go, in the order in which the computation goes through them
--   Rules/NamespaceDiscovery
--                internal/rules/namespace_discovery.go and the cache in engine.go
--   Rules/Selection
--                the whole computation against the meaning of the resources' scopes
--   Engine       internal/rules/engine.go: the state in memory and what replaces it
--   Resources/Names, Resources/Ensure, Resources/Collect
--                internal/rules/resource_management.go
--   Resources/Objects
--                which object of the cluster a configuration or a deletion is of
--   Reconciliation/Batch, Reconciliation/Collector, Reconciliation/Queue,
--   Reconciliation/Orchestrator, Reconciliation/Stages
--                internal/reconciliation: types.go, collector.go, batch_queue.go, orchestrator.go
--                and stages/*.go
--   Reconciliation/Conditions
--                internal/condition/apply.go, and what the orchestrator's notices do with it
--   Reconciliation/Stages/Pipeline
--                planning and execution in one run, seen from the webhook
--   Reconciliation/Debouncer, Reconciliation/StateSyncer
--                internal/reconciliation/debouncer.go and state_syncer.go, with
--                internal/controller/state_sync_controller.go: a replica's loop, its debouncer, its
--                watches and the cluster as one step relation (StateSyncer/Runs)
--   Webhook/Pod, Webhook/Validator
--                internal/webhook/v1/pod_webhook.go and
--                internal/webhook/v1beta1/workloadserviceaccount_webhook.go
--   Controller/Predicates, Controller/Finalizer, Controller/Mapper
--                internal/controller: predicates.go, helpers.go, finalizer_helpers.go, sa_mapper.go
--                and the Reconcile functions of both reconcilers
--   Examples     one small installation, at which the theorems are applied
-- A file Laws in the folder of a component proves what holds of the component, and a file Agreement
-- that two replicas get the same from it.
--
-- How the code is read. A method that changes state is a function from the state to the state. A
-- call that may fail gives Result, whose panic stands for a run-time panic; in the pure computation
-- a panic is none. Go's maps and go-set's sets are association lists and lists without order; the
-- order in which Go visits them is a parameter, VisitOrder, of which it is only known that it
-- visits everything, so the theorems hold for each such order. One VisitOrder gives equal lists
-- equal orders, which Go does not promise: what compares two visits takes two of them, as the
-- agreement of the leader and its replicas in Engine/Agreement does.
--
-- Parameters, for code that is not in the repository: Client (controller-runtime), StatusClient
-- (its status writer, apimachinery's SetStatusCondition and the JSON encoder), WorkQueue
-- (client-go), the hash sha256, the scheme's kinds, the regular expression of the namespaces, and
-- the generation predicate of controller-runtime. Counts names what client-go documents of the rate
-- limiter, Sets what apimachinery documents of SetStatusCondition, Applies that a server-side apply
-- without an error takes effect and that an apply to another object leaves it, Creates that an apply
-- without an error leaves its object there and takes no object away, and Deletes that a deletion
-- touches only the object that it names. A theorem that needs nothing of a parameter holds for each
-- value of it.
--
-- Bounds. The only fuel is that of decimal in Prelude/Text, which prints a number one digit for a
-- step with the number itself as fuel; a number has no more digits than that, or is 0. Generations are
-- natural numbers and are only compared; a deletion timestamp is a number that is there or not.
--
-- Interleavings. A replica's run is a path of steps in any order, each the step of one goroutine or
-- of the cluster; a select takes any case that is ready, and how long a timer waits is left open. A
-- rebuild reads the cluster in one step and stores what it computed in a later one. A channel is the
-- list or the number of its items, with its capacity; a send that would block is not taken. A flush
-- of the collector takes the lock twice, and what other goroutines do to the collector before the
-- send and before the second lock are arguments of flush_events.
--
-- Not modelled: metrics and logging, the wiring in cmd/main.go, the locks as such (what runs under one
-- lock is one step), the expiry of caches, the GC tracker's cache, and generated code. Collecting
-- cluster roles is not modelled because the code does not do it.
pub mod Prelude
pub mod Result
pub mod Api
pub mod Rules
pub mod Cluster
pub mod Engine
pub mod Resources
pub mod Reconciliation
pub mod Webhook
pub mod Controller
pub mod Examples
