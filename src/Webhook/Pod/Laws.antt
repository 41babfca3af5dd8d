-- ===== src/Webhook/Pod/Laws.antt =====
-- internal/webhook/v1/pod_webhook.go: which pods change, and how.
use octopus_permissions_cont.Prelude.{
  String, Bool, true, false, not, ◌&&◌, List, [], ◌∷◌, Option, none, some, any, if◌then◌else◌,
  Bool-cases, inl, inr, string_eq, eq_iff, ◌==◌, ◌≡◌, refl, ap, arith,
}
use octopus_permissions_cont.Rules.Scope.{is_empty}
use octopus_permissions_cont.Rules.Resource.{WsaResource}
use octopus_permissions_cont.Rules.Coverage.Laws.{applies_to}
use octopus_permissions_cont.Engine.{InMemoryEngine, service_account_for_scope}
use octopus_permissions_cont.Engine.Laws.{Serves}
use octopus_permissions_cont.Webhook.Pod.{
  Pod, Container, EnvVar, success, default, respond, with_account, should_run_on_pod, get_pod_scope,
  inject_version_environment_variable, inject_into, set_version, opc_version_env_var_key,
}

-- The value of the first variable of the name.
abbrev pub env_value : String → List EnvVar → Option String
env_value n [] = none
env_value n (v ∷ rest) = if v.name == n then some v.value else env_value n rest

-- Setting the version gives the version's variable that value, and leaves the first value of
-- every other variable as it was.
pub env_value-set_version :
    (n version : String) (env : List EnvVar)
    → env_value n (set_version version env)
      ≡ (if opc_version_env_var_key == n then some version else env_value n env)
unfolding set_version
env_value-set_version n version [] = refl
env_value-set_version n version (v ∷ rest) = ground (
  arith,
  env_value-set_version n version rest,
  eq_iff v.name opc_version_env_var_key,
  eq_iff v.name n,
  eq_iff opc_version_env_var_key n,
)

set_version-set_version :
    (version : String) (env : List EnvVar)
    → set_version version (set_version version env) ≡ set_version version env
unfolding set_version
set_version-set_version version [] = refl
set_version-set_version version (v ∷ rest) = elim (Bool-cases (v.name == opc_version_env_var_key)) [
  | inl same ↦ rw (same, same) refl
  | inr other ↦ rw (other, other) (ap (λ r. v ∷ r) (set_version-set_version version rest))
]

inject_into-inject_into :
    (version : String) (cs : List Container)
    → inject_into version (inject_into version cs) ≡ inject_into version cs
unfolding inject_into
inject_into-inject_into version [] = refl
inject_into-inject_into version (c ∷ rest) =
    rw (set_version-set_version version c.env, inject_into-inject_into version rest) refl

-- Every container has the version.
abbrev pub HaveVersion : String → List Container → Type 0
HaveVersion version [] = Unit {0}
HaveVersion version (c ∷ cs) =
    (env_value opc_version_env_var_key c.env ≡ some version) × HaveVersion version cs

HaveVersion-inject_into :
    (version : String) (cs : List Container) → HaveVersion version (inject_into version cs)
unfolding inject_into
HaveVersion-inject_into version [] = tt
HaveVersion-inject_into version (c ∷ cs) = (
  env_value-set_version opc_version_env_var_key version c.env,
  HaveVersion-inject_into version cs,
)

-- The webhook works for the pod: it has the label, and its scope is not empty.
abbrev pub assigns : Pod → Bool
assigns p = should_run_on_pod p && not (is_empty (get_pod_scope p))

-- Over an engine that answers for a list of resources, a pod gets the account that the engine
-- answers for its scope if it carries the label, its scope is not empty and some resource of the
-- list applies to it. Every other pod keeps the account that it had.
pub service_account_name-default :
    (engine : InMemoryEngine) (version : String) (p : Pod) (rs : List WsaResource)
    → Serves rs engine
    → (default engine version p).1.service_account_name ≡ (
        if assigns p && any (λ r. applies_to r (get_pod_scope p)) rs
        then service_account_for_scope engine (get_pod_scope p)
        else p.service_account_name)
unfolding default inject_version_environment_variable Serves
service_account_name-default engine version p rs serves = elim (Bool-cases (should_run_on_pod p)) [
  | inl runs ↦ elim (Bool-cases (is_empty (get_pod_scope p))) [
    | inl empty ↦ rw (runs, empty) refl
    | inr scoped ↦ rw (runs, scoped) (ground (arith, serves (get_pod_scope p)))
  ]
  | inr off ↦ rw off refl
]

-- In a pod with the label every container and every init container has the controller's version
-- in its environment afterwards, also where the pod's scope is empty.
pub HaveVersion-default :
    (engine : InMemoryEngine) (version : String) (p : Pod)
    → should_run_on_pod p ≡ true
    → HaveVersion version (default engine version p).1.containers
      × HaveVersion version (default engine version p).1.init_containers
unfolding default inject_version_environment_variable
HaveVersion-default engine version p runs = rw runs (versions (is_empty (get_pod_scope p)))
  where
    versions :
        (empty : Bool)
        → HaveVersion version (respond engine version p true empty).1.containers
          × HaveVersion version (respond engine version p true empty).1.init_containers
    versions true = (
      HaveVersion-inject_into version p.containers,
      HaveVersion-inject_into version p.init_containers,
    )
    versions false = elim (Bool-cases (service_account_for_scope engine (get_pod_scope p) == "")) [
      | inl h ↦ rw h (
        HaveVersion-inject_into version p.containers,
        HaveVersion-inject_into version p.init_containers,
      )
      | inr h ↦ rw h (
        HaveVersion-inject_into version p.containers,
        HaveVersion-inject_into version p.init_containers,
      )
    ]

labels-with_account : (name : String) (p : Pod) → (with_account name p).labels ≡ p.labels
labels-with_account name p = elim (Bool-cases (name == "")) [
  | inl h ↦ rw h refl
  | inr h ↦ rw h refl
]

annotations-with_account :
    (name : String) (p : Pod) → (with_account name p).annotations ≡ p.annotations
annotations-with_account name p = elim (Bool-cases (name == "")) [
  | inl h ↦ rw h refl
  | inr h ↦ rw h refl
]

with_account-inject :
    (name version : String) (p : Pod)
    → with_account name (
        inject_version_environment_variable version
          (with_account name (inject_version_environment_variable version p)))
      ≡ with_account name (inject_version_environment_variable version p)
unfolding inject_version_environment_variable
with_account-inject name version p = elim (Bool-cases (name == "")) [
  | inl h ↦
      rw
        (
          h,
          inject_into-inject_into version p.containers,
          inject_into-inject_into version p.init_containers,
        )
        refl
  | inr h ↦
      rw
        (
          h,
          inject_into-inject_into version p.containers,
          inject_into-inject_into version p.init_containers,
        )
        refl
]

module _ (engine : InMemoryEngine) (version : String) (p : Pod) where
  should_run_on_pod-respond :
      (runs empty : Bool)
      → should_run_on_pod (respond engine version p runs empty).1 ≡ should_run_on_pod p
  unfolding should_run_on_pod inject_version_environment_variable
  should_run_on_pod-respond false empty = refl
  should_run_on_pod-respond true true = refl
  should_run_on_pod-respond true false =
      ap (λ l. should_run_on_pod (record p { labels = l }))
        (labels-with_account (service_account_for_scope engine (get_pod_scope p))
          (inject_version_environment_variable version p))

  get_pod_scope-respond :
      (runs empty : Bool) → get_pod_scope (respond engine version p runs empty).1 ≡ get_pod_scope p
  unfolding get_pod_scope inject_version_environment_variable
  get_pod_scope-respond false empty = refl
  get_pod_scope-respond true true = refl
  get_pod_scope-respond true false =
      ap (λ l. get_pod_scope (record p { annotations = l }))
        (annotations-with_account (service_account_for_scope engine (get_pod_scope p))
          (inject_version_environment_variable version p))

  respond-respond :
      (runs empty : Bool)
      → respond engine version (respond engine version p runs empty).1 runs empty
        ≡ respond engine version p runs empty
  unfolding inject_version_environment_variable
  respond-respond false empty = refl
  respond-respond true true =
      rw
        (
          inject_into-inject_into version p.containers,
          inject_into-inject_into version p.init_containers,
        )
        refl
  respond-respond true false = rw (get_pod_scope-respond true false) (
      ap (λ q. (success, q))
        (with_account-inject (service_account_for_scope engine (get_pod_scope p)) version p))

-- The API server may call the webhook again on its own result: nothing changes then.
pub default-default :
    (engine : InMemoryEngine) (version : String) (p : Pod)
    → default engine version (default engine version p).1 ≡ default engine version p
unfolding default
default-default engine version p =
    let runs = should_run_on_pod p in
    let empty = is_empty (get_pod_scope p) in
    rw
      (
        should_run_on_pod-respond engine version p runs empty,
        get_pod_scope-respond engine version p runs empty,
      )
      (respond-respond engine version p runs empty)
