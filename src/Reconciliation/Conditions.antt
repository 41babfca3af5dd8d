-- ===== src/Reconciliation/Conditions.antt =====
-- internal/condition/apply.go, and how the orchestrator sets the conditions of a batch's resources:
-- the resources in memory and the status on the API server. The time of a condition's last
-- transition is left out.
pub mod Laws
use octopus_permissions_cont.Prelude.{
  ℕ, String, List, [], ◌∷◌, Option, none, some, Map, put, lookup_or, if◌then◌else◌, string_eq, ◌==◌,
}
use octopus_permissions_cont.Api.{NamespacedName, name_eq}
use octopus_permissions_cont.Rules.Resource.{WsaResource, get_namespaced_name, owner_meta}
use octopus_permissions_cont.Reconciliation.Orchestrator.{
  ConditionStatus, Notice, condition, event, Noticed,
}

-- `metav1.Condition`.
pub record Condition : Type 0 where
  pub type : String
  pub status : ConditionStatus
  pub reason : String
  pub message : String
  pub observed_generation : ℕ

-- The map `patch` of `Apply`.
pub record ConditionPatch : Type 0 where
  pub api_version : String
  pub kind : String
  pub name : String
  pub namespace : String
  pub conditions : List Condition

-- What `Apply` calls: `meta.SetStatusCondition`, the kind of an object, `json.Marshal`, and the
-- status writer of the client over a state of the API server that is not seen.
pub record StatusClient : Type 1 where
  pub State : Type 0
  pub set_status_condition : List Condition → Condition → List Condition
  pub group_version_kind : WsaResource → String × String
  -- The error, and the text.
  pub marshal : ConditionPatch → Option String × String
  pub patch : WsaResource → String → State → Option String × State

-- The conditions that the resources have in memory. A batch has one resource of a name, so the name
-- stands for the object.
abbrev pub Conditions : Type 0
Conditions = Map NamespacedName (List Condition)

module _ (c : StatusClient) where
  -- The patch is sent if it could be marshalled.
  abbrev pub send_patch : WsaResource → Option String × String → c.State → Option String × c.State
  send_patch r (some e, text) s = (some e, s)
  send_patch r (none, text) s = c.patch r text s

  -- `Apply`: the conditions in memory change before anything is sent.
  unfoldable pub apply :
      WsaResource
      → ConditionStatus
      → (type reason message : String) → Conditions
      → c.State
      → Option String × Conditions × c.State
  apply r status type reason message m s =
      let meta = owner_meta r in
      let conditions = c.set_status_condition (lookup_or [] (get_namespaced_name r) m) (record {
        type = type;
        status = status;
        reason = reason;
        message = message;
        observed_generation = meta.generation;
      }) in
      let gvk = c.group_version_kind r in
      let patch : ConditionPatch = record {
        api_version = gvk.0;
        kind = gvk.1;
        name = meta.name;
        namespace = meta.namespace;
        conditions = conditions;
      } in
      let (e, s') = send_patch r (c.marshal patch) s in
      (e, put (get_namespaced_name r) conditions m, s')

  -- `updateConditions`: an error is logged, and the next resource follows.
  unfoldable pub update_conditions :
      List WsaResource
      → ConditionStatus
      → (type reason message : String) → Conditions
      → c.State
      → Conditions × c.State
  unfolding apply
  update_conditions [] status type reason message m s = (m, s)
  update_conditions (r ∷ rs) status type reason message m s =
      let (e, m', s') = apply r status type reason message m s in
      update_conditions rs status type reason message m' s'

  -- What a notice of the orchestrator does to the conditions. Events go to the recorder.
  unfoldable pub deliver : Noticed → Conditions → c.State → Conditions × c.State
  unfolding update_conditions
  deliver noticed m s = elim (noticed.notice) [
    | condition type status reason message ↦
        update_conditions noticed.resources status type reason message m s
    | event warning reason message ↦ (m, s)
  ]

  unfoldable pub deliver_all : List Noticed → Conditions → c.State → Conditions × c.State
  unfolding deliver
  deliver_all [] m s = (m, s)
  deliver_all (n ∷ ns) m s = let (m', s') = deliver n m s in deliver_all ns m' s'
