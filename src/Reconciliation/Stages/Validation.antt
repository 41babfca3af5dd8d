-- ===== src/Reconciliation/Stages/Validation.antt =====
-- internal/reconciliation/stages/validation.go. The stage only reads the cluster.
pub mod Laws
use octopus_permissions_cont.Prelude.{
  String, ◌<>◌, Bool, true, false, not, List, [], ◌∷◌, Option, none, some, decimal, length,
  if◌then◌else◌, string_eq, ◌==◌,
}
use octopus_permissions_cont.Result.{Result, ok, err, panic, wrap, ◌>>=◌}
use octopus_permissions_cont.Cluster.{Client, Answer, found, not_found, failed, Role}
use octopus_permissions_cont.Rules.Resource.{WsaResource, get_name, get_namespace}
use octopus_permissions_cont.Rules.Naming.{ServiceAccount, is_octopus_managed}
use octopus_permissions_cont.Reconciliation.Batch.{
  Batch, Plan, Finding, ValidationResult, new_validation_result, add_error, add_warning,
}
use octopus_permissions_cont.Reconciliation.Stages.World.{Setting, World, Run}

abbrev pub account_conflict : String → String → Finding
account_conflict name namespace = record {
  type = "OwnerConflict";
  resource = "ServiceAccount/" <> namespace <> "/" <> name;
  message = "Service account exists but is not managed by octopus-permissions-controller";
}

abbrev pub role_conflict : String → String → Finding
role_conflict name namespace = record {
  type = "OwnerConflict";
  resource = "Role/" <> namespace <> "/" <> name;
  message = "Role exists but is not managed by octopus-permissions-controller";
}

abbrev pub namespace_missing : String → Finding
namespace_missing ns = record {
  type = "NamespaceNotFound";
  resource = "Namespace/" <> ns;
  message = "Target namespace '" <> ns <> "' does not exist";
}

-- What each loop does with the answer of the API server.
abbrev pub note_account :
    String → String → Answer ServiceAccount → ValidationResult → Result ValidationResult
note_account name namespace not_found v = ok v
note_account name namespace (failed e) v =
    err ("failed to get service account " <> namespace <> "/" <> name <> ": " <> e)
note_account name namespace (found sa) v =
    ok (
      if is_octopus_managed sa.meta.labels
      then v
      else add_error (account_conflict name namespace) v)

abbrev pub note_role : String → String → Answer Role → ValidationResult → Result ValidationResult
note_role name namespace not_found v = ok v
note_role name namespace (failed e) v =
    err ("failed to get role " <> namespace <> "/" <> name <> ": " <> e)
note_role name namespace (found role) v = ok (
    if is_octopus_managed role.meta.labels then v else add_warning (role_conflict name namespace) v)

abbrev pub note_namespace : String → Answer (Unit {0}) → ValidationResult → Result ValidationResult
note_namespace ns (found _) v = ok v
note_namespace ns not_found v = ok (add_error (namespace_missing ns) v)
note_namespace ns (failed e) v = err ("failed to get namespace " <> ns <> ": " <> e)

module _ (c : Client) (s : c.State) where
  -- One round of the loops over the accounts and the namespaces.
  unfoldable pub check_account : String → String → ValidationResult → Result ValidationResult
  check_account name namespace v =
      note_account name namespace
        (c.get_service_account (record { namespace = namespace; name = name }) s) v

  unfoldable pub check_account_in :
      String → List String → ValidationResult → Result ValidationResult
  unfolding check_account
  check_account_in name [] v = ok v
  check_account_in name (ns ∷ rest) v = check_account name ns v >>= check_account_in name rest

  unfoldable pub check_accounts :
      List ServiceAccount → List String → ValidationResult → Result ValidationResult
  unfolding check_account_in
  check_accounts [] namespaces v = ok v
  check_accounts (sa ∷ rest) namespaces v =
      check_account_in sa.meta.name namespaces v >>= check_accounts rest namespaces

  -- One round of the loop over the batch's resources.
  unfoldable pub check_role : WsaResource → ValidationResult → Result ValidationResult
  check_role r v =
      let role = "octopus-" <> get_name r in
      let namespace = get_namespace r in
      if namespace == ""
      then ok v
      else note_role role namespace (c.get_role (record { namespace = namespace; name = role }) s) v

  unfoldable pub check_roles : List WsaResource → ValidationResult → Result ValidationResult
  unfolding check_role
  check_roles [] v = ok v
  check_roles (r ∷ rest) v = check_role r v >>= check_roles rest

  abbrev pub check_plan_accounts : Option Plan → ValidationResult → Result ValidationResult
  check_plan_accounts none v = err "batch plan is nil"
  check_plan_accounts (some plan) v = check_accounts plan.unique_accounts plan.target_namespaces v

  -- The accounts, and then the roles of the batch's resources.
  unfoldable pub check_owner_references : Batch → ValidationResult → Result ValidationResult
  unfolding check_accounts check_roles
  check_owner_references b v = check_plan_accounts b.plan v >>= check_roles b.resources

  unfoldable pub check_namespaces : List String → ValidationResult → Result ValidationResult
  check_namespaces [] v = ok v
  check_namespaces (ns ∷ rest) v =
      note_namespace ns (c.get_namespace ns s) v >>= check_namespaces rest

  abbrev pub check_plan_namespaces : Option Plan → ValidationResult → Result ValidationResult
  check_plan_namespaces none v = err "batch plan is nil"
  check_plan_namespaces (some plan) v = check_namespaces plan.target_namespaces v

  unfoldable pub check_namespace_existence : Batch → ValidationResult → Result ValidationResult
  unfolding check_namespaces
  check_namespace_existence b v = check_plan_namespaces b.plan v

  unfoldable pub validate : Batch → Result ValidationResult
  unfolding check_owner_references check_namespace_existence new_validation_result
  validate b =
      wrap "failed to check owner references" (check_owner_references b new_validation_result)
      >>= λ v. wrap "failed to check namespace existence" (check_namespace_existence b v)

module _ (e : Setting) where
  -- The result is stored in the batch also where it is not valid.
  abbrev pub validated : Result ValidationResult → Batch → World e → Run e
  validated (err message) b w = (err message, b, w)
  validated panic b w = (panic, b, w)
  validated (ok v) b w = (
    if v.valid
        then ok tt
        else err ("validation failed with " <> decimal (length v.errors) <> " errors"),
    record b { validation_result = some v },
    w,
  )

  unfoldable pub validate_batch : Batch → World e → Run e
  unfolding validate
  validate_batch b w = validated (validate e.client w.cluster b) b w
