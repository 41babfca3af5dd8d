-- ===== src/Reconciliation/Stages/Validation/Laws.antt =====
-- internal/reconciliation/stages/validation.go: which plans are valid.
use octopus_permissions_cont.Prelude.{
  String, ◌<>◌, Bool, true, false, ◌&&◌, ◌||◌, List, [], ◌∷◌, some, all, Bool-cases, inl, inr,
  string_eq, ◌==◌, ◌≡◌, refl, ◌∙◌, arith,
}
use octopus_permissions_cont.Result.{Result, ok, err, panic, wrap, ◌>>=◌}
use octopus_permissions_cont.Cluster.{Client, Answer, found, not_found, failed, Role}
use octopus_permissions_cont.Rules.Resource.{WsaResource, get_name, get_namespace}
use octopus_permissions_cont.Rules.Naming.{ServiceAccount, is_octopus_managed}
use octopus_permissions_cont.Reconciliation.Batch.{
  Batch, Plan, ValidationResult, add_error, add_warning, new_validation_result,
}
use octopus_permissions_cont.Reconciliation.Stages.World.{Setting, World}
use octopus_permissions_cont.Reconciliation.Stages.Validation.{
  note_account, note_role, note_namespace, check_account, check_account_in, check_accounts,
  check_role, check_roles, check_namespaces, check_owner_references, check_namespace_existence,
  validate, validate_batch, validated,
}

-- The answer allows the account: there is none, or the controller manages it.
abbrev pub is_free : Answer ServiceAccount → Bool
is_free not_found = true
is_free (found sa) = is_octopus_managed sa.meta.labels
is_free (failed _) = false

abbrev pub is_there : Answer (Unit {0}) → Bool
is_there (found _) = true
is_there _ = false

abbrev pub is_read : Answer Role → Bool
is_read (failed _) = false
is_read _ = true

-- A run of the checks that ends without an error and leaves a valid result.
passes : Result ValidationResult → Bool
passes (ok v) = v.valid
passes _ = false

passes-bind :
    (r : Result ValidationResult) (f : ValidationResult → Result ValidationResult) (q : Bool)
    → ((v : ValidationResult) → passes (f v) ≡ (v.valid && q))
    → passes (r >>= f) ≡ (passes r && q)
unfolding passes
passes-bind (ok v) f q h = h v
passes-bind (err e) f q h = refl
passes-bind panic f q h = refl

passes-wrap : (context : String) (r : Result ValidationResult) → passes (wrap context r) ≡ passes r
unfolding passes
passes-wrap context (ok v) = refl
passes-wrap context (err e) = refl
passes-wrap context panic = refl

passes-note_account :
    (name ns : String) (a : Answer ServiceAccount) (v : ValidationResult)
    → passes (note_account name ns a v) ≡ (v.valid && is_free a)
unfolding passes add_error
passes-note_account name ns not_found v = ground arith
passes-note_account name ns (failed e) v = ground arith
passes-note_account name ns (found sa) v = elim (Bool-cases (is_octopus_managed sa.meta.labels)) [
  | inl m ↦ rw m (ground arith)
  | inr m ↦ rw m (ground arith)
]

passes-note_namespace :
    (ns : String) (a : Answer (Unit {0})) (v : ValidationResult)
    → passes (note_namespace ns a v) ≡ (v.valid && is_there a)
unfolding passes add_error
passes-note_namespace ns (found _) v = ground arith
passes-note_namespace ns not_found v = ground arith
passes-note_namespace ns (failed e) v = ground arith

passes-note_role :
    (name ns : String) (a : Answer Role) (v : ValidationResult)
    → passes (note_role name ns a v) ≡ (v.valid && is_read a)
unfolding passes add_warning
passes-note_role name ns not_found v = ground arith
passes-note_role name ns (failed e) v = ground arith
passes-note_role name ns (found role) v = elim (Bool-cases (is_octopus_managed role.meta.labels)) [
  | inl m ↦ rw m (ground arith)
  | inr m ↦ rw m (ground arith)
]

module _ (c : Client) (s : c.State) where
  -- The account's name is free in each of the namespaces.
  abbrev pub is_free_in : List String → String → Bool
  is_free_in namespaces name =
      all (λ ns. is_free (c.get_service_account (record { namespace = ns; name = name }) s))
        namespaces

  -- The role that is looked for by the resource's name can be read.
  abbrev pub role_is_read : WsaResource → Bool
  role_is_read r =
      get_namespace r == ""
      || is_read
          (c.get_role (record { namespace = get_namespace r; name = "octopus-" <> get_name r }) s)

  passes-check_account_in :
      (name : String) (namespaces : List String) (v : ValidationResult)
      → passes (check_account_in c s name namespaces v) ≡ (v.valid && is_free_in namespaces name)
  unfolding check_account_in check_account passes
  passes-check_account_in name [] v = ground arith
  passes-check_account_in name (ns ∷ rest) v =
      let answer = c.get_service_account (record { namespace = ns; name = name }) s in
      passes-bind (note_account name ns answer v) (check_account_in c s name rest) _
        (passes-check_account_in name rest)
      ∙ ground (arith, passes-note_account name ns answer v)

  passes-check_accounts :
      (accounts : List ServiceAccount) (namespaces : List String) (v : ValidationResult)
      → passes (check_accounts c s accounts namespaces v)
        ≡ (v.valid && all (λ sa. is_free_in namespaces sa.meta.name) accounts)
  unfolding check_accounts passes
  passes-check_accounts [] namespaces v = ground arith
  passes-check_accounts (sa ∷ rest) namespaces v =
      passes-bind (check_account_in c s sa.meta.name namespaces v)
        (check_accounts c s rest namespaces) _ (passes-check_accounts rest namespaces)
      ∙ ground (arith, passes-check_account_in sa.meta.name namespaces v)

  passes-check_namespaces :
      (namespaces : List String) (v : ValidationResult)
      → passes (check_namespaces c s namespaces v)
        ≡ (v.valid && all (λ ns. is_there (c.get_namespace ns s)) namespaces)
  unfolding check_namespaces passes
  passes-check_namespaces [] v = ground arith
  passes-check_namespaces (ns ∷ rest) v =
      passes-bind (note_namespace ns (c.get_namespace ns s) v) (check_namespaces c s rest) _
        (passes-check_namespaces rest)
      ∙ ground (arith, passes-note_namespace ns (c.get_namespace ns s) v)

  passes-check_role :
      (r : WsaResource) (v : ValidationResult)
      → passes (check_role c s r v) ≡ (v.valid && role_is_read r)
  unfolding check_role passes
  passes-check_role r v =
      let name = "octopus-" <> get_name r in
      let answer = c.get_role (record { namespace = get_namespace r; name = name }) s in
      elim (Bool-cases (get_namespace r == "")) [
        | inl h ↦ rw h (ground arith)
        | inr h ↦ rw h (passes-note_role name (get_namespace r) answer v)
      ]

  passes-check_roles :
      (rs : List WsaResource) (v : ValidationResult)
      → passes (check_roles c s rs v) ≡ (v.valid && all role_is_read rs)
  unfolding check_roles passes
  passes-check_roles [] v = ground arith
  passes-check_roles (r ∷ rest) v =
      passes-bind (check_role c s r v) (check_roles c s rest) _ (passes-check_roles rest)
      ∙ ground (arith, passes-check_role r v)

  -- The API server's answers allow the plan, for a batch of the resources.
  abbrev pub allows : Plan → List WsaResource → Bool
  allows plan rs =
      all (λ sa. is_free_in plan.target_namespaces sa.meta.name) plan.unique_accounts
      && all role_is_read rs
      && all (λ ns. is_there (c.get_namespace ns s)) plan.target_namespaces

  passes-validate :
      (b : Batch) (plan : Plan)
      → b.plan ≡ some plan
      → passes (validate c s b) ≡ allows plan b.resources
  unfolding validate check_owner_references check_namespace_existence new_validation_result
  passes-validate b plan h = rw h (
      passes-bind
        (wrap "failed to check owner references" (
          check_accounts c s plan.unique_accounts plan.target_namespaces new_validation_result
          >>= check_roles c s b.resources))
        (λ v.
          wrap "failed to check namespace existence"
            (check_namespaces c s plan.target_namespaces v))
        (all (λ ns. is_there (c.get_namespace ns s)) plan.target_namespaces)
        (λ v.
          passes-wrap "failed to check namespace existence"
            (check_namespaces c s plan.target_namespaces v)
          ∙ passes-check_namespaces plan.target_namespaces v)
      ∙ ground (
        arith,
        passes-wrap "failed to check owner references" (
            check_accounts c s plan.unique_accounts plan.target_namespaces new_validation_result
            >>= check_roles c s b.resources),
        passes-bind
            (check_accounts c s plan.unique_accounts plan.target_namespaces new_validation_result)
            (check_roles c s b.resources) (all role_is_read b.resources)
            (passes-check_roles b.resources),
        passes-check_accounts plan.unique_accounts plan.target_namespaces new_validation_result,
      ))

abbrev pub succeeds : Result (Unit {0}) → Bool
succeeds (ok _) = true
succeeds _ = false

succeeds-validated :
    (e : Setting) (r : Result ValidationResult) (b : Batch) (w : World e)
    → succeeds (validated e r b w).0 ≡ passes r
unfolding passes
succeeds-validated e (ok v) b w = elim (Bool-cases v.valid) [
  | inl h ↦ rw h refl
  | inr h ↦ rw h refl
]
succeeds-validated e (err m) b w = refl
succeeds-validated e panic b w = refl

-- For a batch with a plan, the validation stage succeeds exactly if every service account of the
-- plan is absent or managed by the controller in every target namespace, every target namespace is
-- there, and the API server can answer for the role of each resource of the batch that has a
-- namespace. An account of somebody else, a namespace that is missing and an answer that fails
-- each stop the batch.
pub succeeds-validate_batch :
    (e : Setting) (b : Batch) (plan : Plan) (w : World e)
    → b.plan ≡ some plan
    → succeeds (validate_batch e b w).0 ≡ allows e.client w.cluster plan b.resources
unfolding validate_batch
succeeds-validate_batch e b plan w h =
    succeeds-validated e (validate e.client w.cluster b) b w
    ∙ passes-validate e.client w.cluster b plan h
