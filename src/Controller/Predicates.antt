-- ===== src/Controller/Predicates.antt =====
-- internal/controller/predicates.go.
pub mod Laws
use octopus_permissions_cont.Prelude.{
  ℕ, String, Bool, true, false, not, ◌&&◌, ◌||◌, List, [], ◌∷◌, Option, none, some, all, null, ltb,
  Map, lookup_or, if◌then◌else◌, string_eq, ◌==◌,
}
use octopus_permissions_cont.Rules.Naming.{managed_by_label, managed_by_value}

abbrev pub controller_field_owner : String
controller_field_owner = "octopus-permissions-controller"

-- `metav1.ManagedFieldsEntry`: its manager, and its time, which may be missing.
pub record ManagedFieldsEntry : Type 0 where
  pub manager : String
  pub time : Option ℕ

-- What the predicates read of an object.
pub record WatchedObject : Type 0 where
  pub uid : String
  pub generation : ℕ
  pub is_service_account : Bool
  pub labels : Map String String
  pub managed_fields : List ManagedFieldsEntry

pub data WatchEvent : Type 0 where
  created : WatchedObject → WatchEvent
  updated : (old new : WatchedObject) → WatchEvent
  deleted : WatchedObject → WatchEvent
  generic : WatchedObject → WatchEvent

abbrev pub Predicate : Type 0
Predicate = WatchEvent → Bool

unfoldable pub is_managed_service_account : WatchedObject → Bool
is_managed_service_account o =
    if o.is_service_account
    then lookup_or "" managed_by_label o.labels == managed_by_value
    else false

-- `predicate.Funcs` passes the events that it has no function for.
unfoldable pub managed_service_account_predicate : Predicate
unfolding is_managed_service_account
managed_service_account_predicate (created o) = is_managed_service_account o
managed_service_account_predicate (updated old new) = is_managed_service_account new
managed_service_account_predicate (deleted o) = is_managed_service_account o
managed_service_account_predicate (generic o) = true

unfoldable pub is_only_managed_by_controller : WatchedObject → Bool
is_only_managed_by_controller o =
    if null o.managed_fields
    then false
    else all (λ mf. mf.manager == controller_field_owner) o.managed_fields

-- The loop of `wasMostRecentChangeByController`: the entry found so far with its time, and the
-- entry that the loop is at.
abbrev pub later : Option (String × ℕ) → String → Option ℕ → Option (String × ℕ)
later latest manager none = latest
later none manager (some t) = some (manager, t)
later (some (m, t')) manager (some t) = if ltb t' t then some (manager, t) else some (m, t')

unfoldable pub most_recent : List ManagedFieldsEntry → Option (String × ℕ) → Option (String × ℕ)
most_recent [] latest = latest
most_recent (mf ∷ rest) latest = most_recent rest (later latest mf.manager mf.time)

abbrev pub is_controllers : Option (String × ℕ) → Bool
is_controllers none = false
is_controllers (some (manager, _)) = manager == controller_field_owner

unfoldable pub was_most_recent_change_by_controller : WatchedObject → Bool
unfolding most_recent
was_most_recent_change_by_controller o = is_controllers (most_recent o.managed_fields none)

unfoldable pub external_change_predicate : Predicate
unfolding is_only_managed_by_controller was_most_recent_change_by_controller
external_change_predicate (created o) = not (is_only_managed_by_controller o)
external_change_predicate (updated old new) = not (was_most_recent_change_by_controller new)
external_change_predicate (deleted o) = true
external_change_predicate (generic o) = true

-- The tracker's answer for a UID, if there is a tracker (gc_tracker.go, an expirable LRU cache).
unfoldable pub external_delete_predicate : Option (String → Bool) → Predicate
external_delete_predicate tracker (deleted o) = elim tracker [
  | none ↦ true
  | some is_being_deleted ↦ not (is_being_deleted o.uid)
]
external_delete_predicate tracker _ = true

unfoldable pub only_deletes : Predicate
only_deletes (deleted o) = true
only_deletes _ = false

-- `GenerationOrDeletePredicate`, with controller-runtime's predicate as a parameter.
unfoldable pub generation_or_delete_predicate : Predicate → Predicate
unfolding external_change_predicate only_deletes
generation_or_delete_predicate changed e =
    changed e || external_change_predicate e || only_deletes e
