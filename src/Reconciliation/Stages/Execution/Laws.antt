-- ===== src/Reconciliation/Stages/Execution/Laws.antt =====
-- internal/reconciliation/stages/execution.go: when the engine's state changes.
use octopus_permissions_cont.Prelude.{
  String, Option, none, some, null, Bool-cases, inl, inr, string_eq, ◌≡◌, refl, ◌∙◌,
}
use octopus_permissions_cont.Engine.{InMemoryEngine, apply_batch_plan}
use octopus_permissions_cont.Resources.Ensure.{combined, ensure_roles}
use octopus_permissions_cont.Reconciliation.Batch.{Plan}
use octopus_permissions_cont.Reconciliation.Stages.World.{Setting, World}
use octopus_permissions_cont.Reconciliation.Stages.Execution.{
  collect_service_accounts, collect_roles, collect_role_bindings, collect_cluster_role_bindings,
  ensure_accounts, ensure_bindings, finished, Step, or_stop, or_return, checked, ensure_resources,
  garbage_collect, publish, execute_plan,
}

module _ (e : Setting) where
  -- The engine that a plan's run leaves: the plan's mappings if it ended without an error, else
  -- the engine as it was.
  abbrev pub engine_after : Plan → Option String → InMemoryEngine → InMemoryEngine
  engine_after plan (some _) engine = engine
  engine_after plan none engine =
      apply_batch_plan
        (record {
          scope_to_sa = plan.scope_to_sa;
          sa_to_wsa_map = plan.sa_to_wsa_map;
          vocabulary = some plan.vocabulary;
        })
        engine

  abbrev Keeps : Step (World e) → Type 0
  Keeps step = (w : World e) → (step w).1.engine ≡ w.engine

  abbrev Publishes : Plan → Step (World e) → Type 0
  Publishes plan step = (w : World e) → (step w).1.engine ≡ engine_after plan (step w).0 w.engine

  or_stop-Keeps :
      (context : String) (out : Option String × World e) (rest : Step (World e))
      → Keeps rest
      → (or_stop context out rest).1.engine ≡ out.1.engine
  or_stop-Keeps context (some m, w) rest k = refl
  or_stop-Keeps context (none, w) rest k = k w

  checked-Keeps :
      (context : String) (step rest : Step (World e))
      → Keeps step
      → Keeps rest
      → Keeps (checked context step rest)
  checked-Keeps context step rest ks kr w = or_stop-Keeps context (step w) rest kr ∙ ks w

  ensure_resources-Keeps : (plan : Plan) → Keeps (ensure_resources e plan)
  unfolding ensure_resources
  ensure_resources-Keeps plan w =
      let (roles, role_errors, s) =
        ensure_roles e.client e.scheme e.sha256_hex plan.all_resources w.cluster in
      or_stop-Keeps "failed to ensure roles" (combined role_errors, record w { cluster = s })
        (checked "failed to ensure service accounts" (ensure_accounts e plan)
          (checked "failed to ensure role bindings" (ensure_bindings e plan roles) (finished e)))
        (checked-Keeps "failed to ensure service accounts" (ensure_accounts e plan) _ (λ w. refl)
          (checked-Keeps "failed to ensure role bindings" (ensure_bindings e plan roles)
            (finished e) (λ w. refl) (λ w. refl)))

  garbage_collect-Keeps : (plan : Plan) → Keeps (garbage_collect e plan)
  unfolding garbage_collect
  garbage_collect-Keeps plan =
      checked-Keeps "failed to garbage collect service accounts" (collect_service_accounts e plan) _
        (λ w. refl)
        (checked-Keeps "failed to garbage collect roles" (collect_roles e plan) _ (λ w. refl)
          (checked-Keeps "failed to garbage collect role bindings" (collect_role_bindings e plan) _
            (λ w. refl)
            (checked-Keeps "failed to garbage collect cluster role bindings"
              (collect_cluster_role_bindings e plan) (finished e) (λ w. refl) (λ w. refl))))

  or_return-Publishes :
      (plan : Plan) (out : Option String × World e) (rest : Step (World e))
      (engine : InMemoryEngine)
      → out.1.engine ≡ engine
      → Publishes plan rest
      → (or_return out rest).1.engine ≡ engine_after plan (or_return out rest).0 engine
  or_return-Publishes plan (some m, w) rest engine k p = k
  or_return-Publishes plan (none, w) rest engine k p = rw (← k) (p w)

  or_stop-Publishes :
      (plan : Plan) (context : String) (out : Option String × World e) (rest : Step (World e))
      (engine : InMemoryEngine)
      → out.1.engine ≡ engine
      → Publishes plan rest
      → (or_stop context out rest).1.engine ≡ engine_after plan (or_stop context out rest).0 engine
  or_stop-Publishes plan context (some m, w) rest engine k p = k
  or_stop-Publishes plan context (none, w) rest engine k p = rw (← k) (p w)

  -- The engine changes last or not at all, whatever the API server answers to the calls before: a
  -- run that ends in an error leaves the engine as it was, and one without an error leaves it with
  -- the plan's mappings and vocabulary.
  pub engine-execute_plan :
      (plan : Plan) (w : World e)
      → (execute_plan e plan w).1.engine ≡ engine_after plan (execute_plan e plan w).0 w.engine
  unfolding execute_plan
  engine-execute_plan plan w = elim (Bool-cases (null plan.target_namespaces)) [
    | inl h ↦ rw h refl
    | inr h ↦ elim (Bool-cases (null plan.all_resources)) [
      | inl g ↦
          rw (h, g)
            (or_stop-Publishes plan "failed to garbage collect" (garbage_collect e plan w)
              (publish e plan) w.engine (garbage_collect-Keeps plan w) (λ w'. refl))
      | inr g ↦
          rw (h, g)
            (or_return-Publishes plan (ensure_resources e plan w)
              (checked "failed to garbage collect" (garbage_collect e plan) (publish e plan))
              w.engine (ensure_resources-Keeps plan w)
              λ w'.
                or_stop-Publishes plan "failed to garbage collect" (garbage_collect e plan w')
                  (publish e plan) w'.engine (garbage_collect-Keeps plan w') (λ w''. refl))
    ]
  ]
