-- ===== src/Reconciliation/Batch.antt =====
-- internal/reconciliation/types.go. Times are left out; a batch's identity is a number.
use octopus_permissions_cont.Prelude.{
  ℕ, String, Bool, true, false, List, [], ◌∷◌, ◌++◌, Option, none, map, Map, nat_eq, ◌==◌,
  if◌then◌else◌,
}
use octopus_permissions_cont.Api.{NamespacedName}
use octopus_permissions_cont.Rules.Scope.{Scope}
use octopus_permissions_cont.Rules.Resource.{WsaResource, get_generation, get_resource_version}
use octopus_permissions_cont.Rules.Vocabulary.{GlobalVocabulary}
use octopus_permissions_cont.Rules.ScopeMap.{WsaMap}
use octopus_permissions_cont.Rules.Naming.{ServiceAccount}

pub data EventType : Type 0 where
  event_type_create event_type_update event_type_delete : EventType

pub record EventInfo : Type 0 where
  pub resource : WsaResource
  pub event_type : EventType
  pub generation : ℕ
  pub resource_version : String

unfoldable pub new_event_info : WsaResource → EventType → EventInfo
new_event_info r t = record {
  resource = r;
  event_type = t;
  generation = get_generation r;
  resource_version = get_resource_version r;
}

unfoldable pub new_create_or_update_event_info : WsaResource → EventInfo
unfolding new_event_info
new_create_or_update_event_info r =
    new_event_info r (if get_generation r == 1 then event_type_create else event_type_update)

pub record Plan : Type 0 where
  pub scope_to_sa : Map Scope String
  pub sa_to_wsa_map : Map String WsaMap
  pub wsa_to_sa_names : Map NamespacedName (List String)
  pub vocabulary : GlobalVocabulary
  pub unique_accounts : List ServiceAccount
  pub all_resources : List WsaResource
  pub target_namespaces : List String

-- `ValidationError` and `ValidationWarning`.
pub record Finding : Type 0 where
  pub type : String
  pub resource : String
  pub message : String

pub record ValidationResult : Type 0 where
  pub valid : Bool
  pub errors : List Finding
  pub warnings : List Finding

unfoldable pub new_validation_result : ValidationResult
new_validation_result = record { valid = true; errors = []; warnings = [] }

unfoldable pub add_error : Finding → ValidationResult → ValidationResult
add_error f v = record v { valid = false; errors = v.errors ++ (f ∷ []) }

unfoldable pub add_warning : Finding → ValidationResult → ValidationResult
add_warning f v = record v { warnings = v.warnings ++ (f ∷ []) }

pub record Batch : Type 0 where
  pub id : ℕ
  pub resources : List WsaResource
  pub plan : Option Plan
  pub validation_result : Option ValidationResult
  pub last_error : Option String
  pub requeue_after : ℕ

unfoldable pub new_batch : ℕ → List EventInfo → Batch
new_batch id events = record {
  id = id;
  resources = map (λ e. e.resource) events;
  plan = none;
  validation_result = none;
  last_error = none;
  requeue_after = 0;
}
