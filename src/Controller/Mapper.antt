-- ===== src/Controller/Mapper.antt =====
-- internal/controller/sa_mapper.go: which reconciliations a change of a service account asks for.
pub mod Laws
use octopus_permissions_cont.Prelude.{
  String, Bool, true, false, not, List, [], ◌∷◌, Option, none, some, map, if◌then◌else◌, string_eq,
  ◌==◌,
}
use octopus_permissions_cont.Result.{Result, ok, err, panic}
use octopus_permissions_cont.Api.{
  NamespacedName, ObjectMeta, WorkloadServiceAccount, ClusterWorkloadServiceAccount,
}
use octopus_permissions_cont.Controller.Predicates.{WatchedObject, is_managed_service_account}

-- The request of one item. A namespace is set only if the item has one.
unfoldable pub request_of : ObjectMeta → NamespacedName
request_of m =
    if not (m.namespace == "")
    then record { namespace = m.namespace; name = m.name }
    else record { namespace = ""; name = m.name }

-- The loop over the items.
unfoldable pub requests_of : List ObjectMeta → List NamespacedName
unfolding request_of
requests_of [] = []
requests_of (m ∷ ms) = elim (m.deletion_timestamp) [
  | some _ ↦ requests_of ms
  | none ↦ request_of m ∷ requests_of ms
]

-- An error of the list is logged and gives no request.
unfoldable pub requests_of_listed : Result (List ObjectMeta) → List NamespacedName
unfolding requests_of
requests_of_listed (ok items) = requests_of items
requests_of_listed (err e) = []
requests_of_listed panic = []

-- The list, and what `extractItems` gives of it, are an argument.
unfoldable pub map_service_account_to_resources :
    WatchedObject → Result (List ObjectMeta) → List NamespacedName
unfolding requests_of_listed
map_service_account_to_resources obj listed =
    if is_managed_service_account obj then requests_of_listed listed else []
