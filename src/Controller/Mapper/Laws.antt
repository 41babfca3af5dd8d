-- ===== src/Controller/Mapper/Laws.antt =====
-- A change of a managed service account asks for the resources that the engine computes from.
use octopus_permissions_cont.Prelude.{
  List, [], ◌∷◌, ◌++◌, map, Memᴰ, Option-cases, Bool-cases, inl, inr, if◌then◌else◌, string_eq,
  eq_iff, ◌==◌, ◌≡◌, refl, sym, ap,
}
use octopus_permissions_cont.Result.{ok}
use octopus_permissions_cont.Api.{ObjectMeta, WorkloadServiceAccount, ClusterWorkloadServiceAccount}
use octopus_permissions_cont.Rules.Resource.{WsaResource, get_namespaced_name}
use octopus_permissions_cont.Engine.{live_wsas, live_cluster_wsas}
use octopus_permissions_cont.Controller.Predicates.{WatchedObject, is_managed_service_account}
use octopus_permissions_cont.Controller.Mapper.{
  request_of, requests_of, requests_of_listed, map_service_account_to_resources,
}

map-append :
    (rs ts : List WsaResource)
    → map get_namespaced_name (rs ++ ts) ≡ map get_namespaced_name rs ++ map get_namespaced_name ts
map-append [] ts = refl
map-append (r ∷ rs) ts = ap (λ x. get_namespaced_name r ∷ x) (map-append rs ts)

request_of_lem : (m : ObjectMeta) → request_of m ≡ record { namespace = m.namespace; name = m.name }
unfolding request_of
request_of_lem m = elim (Bool-cases (m.namespace == "")) [
  | inl e ↦
      rw e (ap (λ x. record { namespace = x; name = m.name }) (sym ((eq_iff m.namespace "").0 e)))
  | inr e ↦ rw e refl
]

requests_of-live_wsas :
    (ws : List WorkloadServiceAccount)
    → requests_of (map (λ w. w.meta) ws) ≡ map get_namespaced_name (live_wsas ws)
unfolding requests_of live_wsas get_namespaced_name
requests_of-live_wsas [] = refl
requests_of-live_wsas (w ∷ ws) = elim (Option-cases w.meta.deletion_timestamp) [
  | inl e ↦ rw e (rw (request_of_lem w.meta, requests_of-live_wsas ws) refl)
  | inr (t, e) ↦ rw e (requests_of-live_wsas ws)
]

requests_of-live_cluster_wsas :
    (cs : List ClusterWorkloadServiceAccount)
    → ((w : ClusterWorkloadServiceAccount) → Memᴰ w cs → w.meta.namespace ≡ "")
    → requests_of (map (λ w. w.meta) cs) ≡ map get_namespaced_name (live_cluster_wsas cs)
unfolding requests_of live_cluster_wsas get_namespaced_name
requests_of-live_cluster_wsas [] h = refl
requests_of-live_cluster_wsas (w ∷ cs) h =
    let rest = requests_of-live_cluster_wsas cs (λ x m. h x (Memᴰ.tail m)) in
    elim (Option-cases w.meta.deletion_timestamp) [
      | inl e ↦ rw e (rw (request_of_lem w.meta, h w (Memᴰ.head refl), rest) refl)
      | inr (t, e) ↦ rw e rest
    ]

-- A change of a service account that the controller manages asks, where the lists succeed and the
-- cluster-scoped resources have no namespace, for a reconciliation of exactly the live resources
-- that the engine computes its mappings from, both kinds together, in that order. A change of any
-- other service account asks for none.
pub map_service_account_to_resources-live :
    (obj : WatchedObject) (ws : List WorkloadServiceAccount)
    (cs : List ClusterWorkloadServiceAccount)
    → ((w : ClusterWorkloadServiceAccount) → Memᴰ w cs → w.meta.namespace ≡ "")
    → (map_service_account_to_resources obj (ok (map (λ w. w.meta) ws))
        ++ map_service_account_to_resources obj (ok (map (λ w. w.meta) cs)))
      ≡ (if is_managed_service_account obj
          then map get_namespaced_name (live_wsas ws ++ live_cluster_wsas cs)
          else [])
unfolding map_service_account_to_resources requests_of_listed
map_service_account_to_resources-live obj ws cs h =
    elim (Bool-cases (is_managed_service_account obj)) [
      | inl e ↦ rw e (
          rw (requests_of-live_wsas ws, requests_of-live_cluster_wsas cs h)
            (sym (map-append (live_wsas ws) (live_cluster_wsas cs))))
      | inr e ↦ rw e refl
    ]
