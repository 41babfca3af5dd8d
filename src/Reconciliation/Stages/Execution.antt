-- ===== src/Reconciliation/Stages/Execution.antt =====
-- internal/reconciliation/stages/execution.go.
pub mod Laws
pub mod Cluster
use octopus_permissions_cont.Prelude.{
  String, ◌<>◌, Bool, List, [], ◌∷◌, Option, none, some, map, null, Set, from_list, Map,
  if◌then◌else◌, string_eq,
}
use octopus_permissions_cont.Result.{Result, ok, err}
use octopus_permissions_cont.Api.{NamespacedName}
use octopus_permissions_cont.Engine.{apply_batch_plan}
use octopus_permissions_cont.Resources.Ensure.{
  combined, ensure_roles, ensure_service_accounts, ensure_role_bindings,
}
use octopus_permissions_cont.Resources.Collect.{
  Tracked, garbage_collect_service_accounts, garbage_collect_roles, garbage_collect_role_bindings,
  garbage_collect_cluster_role_bindings,
}
use octopus_permissions_cont.Reconciliation.Batch.{Batch, Plan}
use octopus_permissions_cont.Reconciliation.Stages.World.{Setting, World, Run}

-- An effect on a state that may end in an error.
abbrev pub Step : Type 0 → Type 0
Step S = S → Option String × S

-- `if err := a(); err != nil { return fmt.Errorf("context: %w", err) }`, and then the rest.
abbrev pub or_stop : {S : Type 0} → String → Option String × S → Step S → Option String × S
or_stop context (some e, s) rest = (some (context <> ": " <> e), s)
or_stop context (none, s) rest = rest s

abbrev pub checked : {S : Type 0} → String → Step S → Step S → Step S
checked context step rest s = or_stop context (step s) rest

-- `if err := a(); err != nil { return err }`.
abbrev pub or_return : {S : Type 0} → Option String × S → Step S → Option String × S
or_return (some e, s) rest = (some e, s)
or_return (none, s) rest = rest s

abbrev pub as_result : Option String → Result (Unit {0})
as_result none = ok tt
as_result (some m) = err m

module _ (e : Setting) where
  -- A loop that works on the cluster, as a step of the world.
  abbrev pub on_cluster : (e.client.State → List String × e.client.State) → Step (World e)
  on_cluster loop w =
      let (errors, cluster) = loop w.cluster in (combined errors, record w { cluster = cluster })

  abbrev pub on_tracked :
      (Tracked e.client.State → List String × Tracked e.client.State) → Step (World e)
  on_tracked loop w =
      let (errors, t) = loop (record { cluster = w.cluster; marked = w.marked }) in
      (combined errors, record w { cluster = t.cluster; marked = t.marked })

  -- The seven calls of the stage, each as a step of the world.
  abbrev pub collect_service_accounts : Plan → Step (World e)
  collect_service_accounts plan = on_tracked (
      garbage_collect_service_accounts e.client e.has_tracker
        (from_list (map (λ sa. sa.meta.name) plan.unique_accounts))
        (from_list plan.target_namespaces))

  abbrev pub collect_roles : Plan → Step (World e)
  collect_roles plan =
      on_tracked (garbage_collect_roles e.client e.has_tracker e.sha256_hex plan.all_resources)

  abbrev pub collect_role_bindings : Plan → Step (World e)
  collect_role_bindings plan =
      on_tracked
        (garbage_collect_role_bindings e.client e.has_tracker e.sha256_hex plan.all_resources)

  abbrev pub collect_cluster_role_bindings : Plan → Step (World e)
  collect_cluster_role_bindings plan =
      on_tracked (
        garbage_collect_cluster_role_bindings e.client e.has_tracker e.sha256_hex
          plan.all_resources)

  abbrev pub ensure_accounts : Plan → Step (World e)
  ensure_accounts plan = on_cluster (
      ensure_service_accounts e.client e.scheme e.sha256_hex plan.unique_accounts
        plan.target_namespaces)

  abbrev pub ensure_bindings : Plan → Map NamespacedName String → Step (World e)
  ensure_bindings plan roles = on_cluster (
      ensure_role_bindings e.client e.scheme e.sha256_hex plan.all_resources roles
        plan.wsa_to_sa_names plan.target_namespaces)

  abbrev pub finished : Step (World e)
  finished w = (none, w)

  unfoldable pub garbage_collect : Plan → Step (World e)
  garbage_collect plan =
      checked "failed to garbage collect service accounts" (collect_service_accounts plan) (
        checked "failed to garbage collect roles" (collect_roles plan) (
          checked "failed to garbage collect role bindings" (collect_role_bindings plan) (
            checked "failed to garbage collect cluster role bindings"
              (collect_cluster_role_bindings plan) finished)))

  unfoldable pub ensure_resources : Plan → Step (World e)
  ensure_resources plan w =
      let (roles, role_errors, s) =
        ensure_roles e.client e.scheme e.sha256_hex plan.all_resources w.cluster in
      or_stop "failed to ensure roles" (combined role_errors, record w { cluster = s })
        (checked "failed to ensure service accounts" (ensure_accounts plan)
          (checked "failed to ensure role bindings" (ensure_bindings plan roles) finished))

  -- The in-memory state changes last, after the cluster holds what it names.
  abbrev pub publish : Plan → Step (World e)
  publish plan w = (
    none,
    record w {
      engine =
          apply_batch_plan
            (record {
              scope_to_sa = plan.scope_to_sa;
              sa_to_wsa_map = plan.sa_to_wsa_map;
              vocabulary = some plan.vocabulary;
            })
            w.engine;
    },
  )

  unfoldable pub execute_plan : Plan → Step (World e)
  unfolding ensure_resources garbage_collect
  execute_plan plan w =
      if null plan.target_namespaces
      then (some "no target namespaces in plan", w)
      else or_return (if null plan.all_resources then (none, w) else ensure_resources plan w)
          (checked "failed to garbage collect" (garbage_collect plan) (publish plan))

  abbrev pub executed : Batch → Option String × World e → Run e
  executed b (error, w) = (as_result error, b, w)

  abbrev pub execute_planned : Option Plan → Batch → World e → Run e
  execute_planned none b w = (err "batch plan is nil", b, w)
  execute_planned (some plan) b w = executed b (execute_plan plan w)

  unfoldable pub execute_batch : Batch → World e → Run e
  unfolding execute_plan
  execute_batch b w = execute_planned b.plan b w
