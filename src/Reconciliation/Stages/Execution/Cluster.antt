-- ===== src/Reconciliation/Stages/Execution/Cluster.antt =====
-- internal/reconciliation/stages/execution.go: what the cluster holds after a run without an error.
use octopus_permissions_cont.Prelude.{
  String, List, [], ◌∷◌, Option, none, some, null, false, lookup_or, Memᴰ, Bool-cases, inl, inr,
  string_eq, ◌≡◌, refl, arith,
}
use octopus_permissions_cont.Api.{name_eq, RoleRef}
use octopus_permissions_cont.Cluster.{ApplyConfiguration}
use octopus_permissions_cont.Rules.Resource.{WsaResource, get_namespaced_name, get_cluster_roles}
use octopus_permissions_cont.Rules.Naming.{ServiceAccount}
use octopus_permissions_cont.Resources.Names.{subjects_of}
use octopus_permissions_cont.Resources.Ensure.{combined, ensure_roles, ensure_role_bindings}
use octopus_permissions_cont.Resources.Objects.{Object, object_of}
use octopus_permissions_cont.Resources.Ensure.Laws.{
  Applies, Creates, Agree, account_in, ensure_service_accounts-exists,
}
use octopus_permissions_cont.Resources.Ensure.Bindings.{
  combined-none, cluster_role_bound, accounts_of, bindings_for, bindings-kept,
  ensure_role_bindings-Binds,
}
use octopus_permissions_cont.Resources.Collect.Spares.{
  Deletes, SparedBy, accounts-Spared, roles-Spared, bindings-Spared, cluster_bindings-Spared,
  account_in-Spared, cluster_role_bound-Spared,
}
use octopus_permissions_cont.Reconciliation.Batch.{Plan}
use octopus_permissions_cont.Reconciliation.Stages.World.{Setting, World}
use octopus_permissions_cont.Reconciliation.Stages.Execution.{
  collect_service_accounts, collect_roles, collect_role_bindings, collect_cluster_role_bindings,
  ensure_accounts, ensure_bindings, finished, Step, or_stop, or_return, checked, ensure_resources,
  garbage_collect, publish, execute_plan,
}

module _ (e : Setting) (Holds : ApplyConfiguration → e.client.State → Type 0) where
  -- Where a step ends without an error, the world after it has the property.
  abbrev Gives : (World e → Type 0) → Step (World e) → World e → Type 0
  Gives P step w = (step w).0 ≡ none → P (step w).1

  checked-Gives :
      (P Q : World e → Type 0) (context : String) (step rest : Step (World e)) (w : World e)
      → Gives P step w
      → ((w' : World e) → P w' → Gives Q rest w')
      → Gives Q (checked context step rest) w
  checked-Gives P Q context step rest w p q h = or_stop-Gives (step w) p h
    where
      or_stop-Gives :
          (out : Option String × World e)
          → (out.0 ≡ none → P out.1)
          → (or_stop context out rest).0 ≡ none
          → Q (or_stop context out rest).1
      or_stop-Gives (some m, w') p h = ground arith
      or_stop-Gives (none, w') p h = q w' (p refl) h

  abbrev After : ApplyConfiguration → World e → Type 0
  After b w = Holds b w.cluster

  module _ (deletes : Deletes e.client Holds) (plan : Plan) where
    garbage_collect-Gives :
        (b : ApplyConfiguration)
        → SparedBy e.sha256_hex plan.unique_accounts plan.target_namespaces plan.all_resources b
        → (w : World e) → After b w
        → Gives (After b) (garbage_collect e plan) w
    unfolding garbage_collect
    garbage_collect-Gives b spared w p =
        checked-Gives (After b) (After b) "failed to garbage collect service accounts"
          (collect_service_accounts e plan) _ w
          (λ _.
            accounts-Spared e.client e.has_tracker e.sha256_hex Holds deletes _ _ plan.all_resources
              b spared _ p)
          λ w' p'.
            checked-Gives (After b) (After b) "failed to garbage collect roles"
              (collect_roles e plan) _ w'
              (λ _.
                roles-Spared e.client e.has_tracker e.sha256_hex Holds deletes _ _
                  plan.all_resources b spared _ p')
              λ w₂ p₂.
                checked-Gives (After b) (After b) "failed to garbage collect role bindings"
                  (collect_role_bindings e plan) _ w₂
                  (λ _.
                    bindings-Spared e.client e.has_tracker e.sha256_hex Holds deletes _ _
                      plan.all_resources b spared _ p₂)
                  λ w₃ p₃.
                    checked-Gives (After b) (After b)
                      "failed to garbage collect cluster role bindings"
                      (collect_cluster_role_bindings e plan) (finished e) w₃
                      (λ _.
                        cluster_bindings-Spared e.client e.has_tracker e.sha256_hex Holds deletes _
                          _ plan.all_resources b spared _ p₃)
                      λ w₄ p₄ _. p₄

    abbrev Anything : World e → Type 0
    Anything w = Unit {0}

    -- The seven steps, for what the second call applies and for what the third one does.
    ensure_resources-Gives :
        (P Q : World e → Type 0) (w : World e)
        → ((w' : World e) → Gives P (ensure_accounts e plan) w')
        → ((w' : World e)
            → P w'
            → Gives Q
                (ensure_bindings e plan
                  (ensure_roles e.client e.scheme e.sha256_hex plan.all_resources w.cluster).0)
                w')
        → Gives Q (ensure_resources e plan) w
    unfolding ensure_resources
    ensure_resources-Gives P Q w p q =
        let (roles, role_errors, s) =
          ensure_roles e.client e.scheme e.sha256_hex plan.all_resources w.cluster in
        checked-Gives Anything Q "failed to ensure roles"
          (λ _. (combined role_errors, record w { cluster = s })) _ w (λ _. tt)
          λ w' _.
            checked-Gives P Q "failed to ensure service accounts" (ensure_accounts e plan) _ w'
              (p w')
              λ w₂ p₂.
                checked-Gives Q Q "failed to ensure role bindings" (ensure_bindings e plan roles)
                  (finished e) w₂ (q w₂ p₂) (λ w₃ q₃ _. q₃)

    -- What the ensuring half gives and the collecting half spares is there when the plan is
    -- published.
    execute_plan-Gives :
        (b : ApplyConfiguration) (w : World e)
        → null plan.all_resources ≡ false
        → SparedBy e.sha256_hex plan.unique_accounts plan.target_namespaces plan.all_resources b
        → Gives (After b) (ensure_resources e plan) w
        → Gives (After b) (execute_plan e plan) w
    unfolding execute_plan
    execute_plan-Gives b w some_resource spared given h =
        elim (Bool-cases (null plan.target_namespaces)) [
          | inl no_namespace ↦ ground (arith, rw no_namespace at h)
          | inr some_namespace ↦
              rw (some_namespace, some_resource)
                (or_return-Gives (ensure_resources e plan w) given
                  (rw (some_namespace, some_resource) at h))
        ]
      where
        or_return-Gives :
            (out : Option String × World e)
            → (out.0 ≡ none → After b out.1)
            → (or_return out
                (checked "failed to garbage collect" (garbage_collect e plan) (publish e plan))).0
              ≡ none
            → After b
                (or_return out
                  (checked "failed to garbage collect" (garbage_collect e plan) (publish e plan))).1
        or_return-Gives (some m, w') p h = ground arith
        or_return-Gives (none, w') p h =
            checked-Gives (After b) (After b) "failed to garbage collect" (garbage_collect e plan)
              (publish e plan) w' (garbage_collect-Gives b spared w' (p refl)) (λ w₂ p₂ _. p₂) h

null-mem : {A : Type 0} (xs : List A) (a : A) → Memᴰ a xs → null xs ≡ false
null-mem [] a m = elim m [ ]
null-mem (x ∷ xs) a m = refl

-- Publication is safe: if a run with at least one resource ends without an error, so that the engine
-- answers from the plan, then every service account of the plan is in every target namespace at the
-- end, after the garbage collection. This holds over any API server whose applies make objects and
-- take none away, and whose deletions touch no other object.
pub execute_plan-account_in :
    (e : Setting) (Exists : Object → e.client.State → Type 0) (creates : Creates e.client Exists)
    (deletes : Deletes e.client (λ a. Exists (object_of a))) (plan : Plan) (w : World e)
    (r : WsaResource) (sa : ServiceAccount) (ns : String)
    → Memᴰ r plan.all_resources
    → Memᴰ sa plan.unique_accounts
    → Memᴰ ns plan.target_namespaces
    → (execute_plan e plan w).0 ≡ none
    → Exists (object_of (account_in sa ns)) (execute_plan e plan w).1.cluster
unfolding ensure_role_bindings
execute_plan-account_in e Exists creates deletes plan w r sa ns i m n =
    let Holds : ApplyConfiguration → e.client.State → Type 0 = λ a. Exists (object_of a) in
    let b = account_in sa ns in
    execute_plan-Gives e Holds deletes plan b w (null-mem plan.all_resources r i)
      (account_in-Spared e.sha256_hex plan.unique_accounts plan.target_namespaces plan.all_resources
        sa ns m n)
      (ensure_resources-Gives e Holds deletes plan (After e Holds b) (After e Holds b) w
        (λ w' h.
          ensure_service_accounts-exists e.client e.scheme e.sha256_hex Exists creates
            plan.unique_accounts plan.target_namespaces w'.cluster sa ns (combined-none _ h) m n)
        λ w' p _.
          bindings-kept e.client e.scheme e.sha256_hex (λ a b'. Unit {0}) Holds creates b
            plan.all_resources _ plan.wsa_to_sa_names plan.target_namespaces [] w'.cluster
            (λ x a j k. tt) p)

-- The same for permissions: if a run ends without an error, then every resource of the plan that has
-- service accounts has, at the end, a binding of each cluster role that it refers to, whose subjects
-- are all its accounts in all the target namespaces. No binding that the run applies may be another
-- one of the same name and namespace. This holds over any API server that does what server-side
-- apply documents and whose deletions touch no other object.
pub execute_plan-cluster_role_bound :
    (e : Setting) (Holds : ApplyConfiguration → e.client.State → Type 0)
    (applies : Applies e.client Holds) (deletes : Deletes e.client Holds) (plan : Plan)
    (w : World e) (r : WsaResource) (ref : RoleRef)
    → ((x : WsaResource) (a : ApplyConfiguration)
        → Memᴰ x plan.all_resources
        → Memᴰ a (
            bindings_for e.client e.scheme e.sha256_hex
              (ensure_roles e.client e.scheme e.sha256_hex plan.all_resources w.cluster).0
              plan.wsa_to_sa_names
              plan.target_namespaces
              x)
        → Agree a (
            cluster_role_bound e.scheme e.sha256_hex r
              (subjects_of (
                accounts_of e.client e.scheme e.sha256_hex plan.wsa_to_sa_names
                  plan.target_namespaces r))
              ref))
    → Memᴰ r plan.all_resources
    → Memᴰ ref (get_cluster_roles r)
    → null (lookup_or [] (get_namespaced_name r) plan.wsa_to_sa_names) ≡ false
    → (execute_plan e plan w).0 ≡ none
    → Holds
        (cluster_role_bound e.scheme e.sha256_hex r
          (subjects_of (
            accounts_of e.client e.scheme e.sha256_hex plan.wsa_to_sa_names plan.target_namespaces
              r))
          ref)
        (execute_plan e plan w).1.cluster
execute_plan-cluster_role_bound e Holds applies deletes plan w r ref fit i m n =
    let subjects =
      subjects_of (
        accounts_of e.client e.scheme e.sha256_hex plan.wsa_to_sa_names plan.target_namespaces r) in
    let b = cluster_role_bound e.scheme e.sha256_hex r subjects ref in
    execute_plan-Gives e Holds deletes plan b w (null-mem plan.all_resources r i)
      (cluster_role_bound-Spared e.sha256_hex plan.unique_accounts plan.target_namespaces
        plan.all_resources e.scheme subjects r ref i m)
      (ensure_resources-Gives e Holds deletes plan (Anything e Holds deletes plan) (After e Holds b)
        w (λ w' _. tt)
        λ w' _ h.
          ensure_role_bindings-Binds e.client e.scheme e.sha256_hex Holds applies plan.all_resources
            _ plan.wsa_to_sa_names plan.target_namespaces w'.cluster r ref fit (combined-none _ h) i
            m n)
