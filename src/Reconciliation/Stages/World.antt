-- ===== src/Reconciliation/Stages/World.antt =====
-- What the stages share and change, and what is fixed for them.
use octopus_permissions_cont.Prelude.{String, Bool, List, VisitOrder}
use octopus_permissions_cont.Result.{Result}
use octopus_permissions_cont.Cluster.{Client}
use octopus_permissions_cont.Engine.{InMemoryEngine}
use octopus_permissions_cont.Rules.NamespaceDiscovery.{Namespaces}
use octopus_permissions_cont.Reconciliation.Batch.{Batch}
use octopus_permissions_cont.Resources.Names.{Scheme}

-- The client and the other things that the controller does not implement.
pub record Setting : Type 1 where
  pub client : Client
  pub order : VisitOrder
  pub sha256_hex : String → String
  pub scheme : Scheme
  pub namespace_matches : String → Bool
  -- Whether the service's `gcTracker` is set.
  pub has_tracker : Bool

pub record World (e : Setting) : Type 0 where
  pub cluster : e.client.State
  pub marked : List String
  pub engine : InMemoryEngine
  pub namespaces : Namespaces

-- What `Execute` leaves: its error, the batch and the world.
abbrev pub Run : Setting → Type 0
Run e = Result (Unit {0}) × Batch × World e
