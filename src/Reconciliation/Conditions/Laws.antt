-- ===== src/Reconciliation/Conditions/Laws.antt =====
-- internal/condition and orchestrator.go: the conditions that a processed batch leaves.
use mathlib.Core.Option.{some_inj}
use octopus_permissions_cont.Prelude.{
  true, Option-cases, ◌<>◌, String, false, List, [], ◌∷◌, ◌++◌, Option, none, some, map, null, any,
  lookup_or, lookup-put, Memᴰ, any_of_mem, if◌then◌else◌, string_eq, ◌==◌, ==_refl, ◌≡◌, refl, ◌∙◌,
  ap, subst, arith, Bool-cases, inl, inr,
}
use octopus_permissions_cont.Api.{name_eq}
use octopus_permissions_cont.Rules.Resource.{WsaResource, get_namespaced_name}
use octopus_permissions_cont.Reconciliation.Batch.{Batch, Plan}
use octopus_permissions_cont.Reconciliation.Orchestrator.{
  ConditionStatus, condition_true, condition_false, Noticed, Stage, reconciled, reconcile_events,
  run_stages, process_batch, Processed, reason_succeeded, reason_failed, condition_type_ready,
  final_conditions,
}
use octopus_permissions_cont.Reconciliation.Orchestrator.Laws.{all_named, run_stages-named}
use octopus_permissions_cont.Reconciliation.Conditions.{
  Condition, StatusClient, Conditions, apply, update_conditions, deliver, deliver_all,
}

-- The first condition of a type: what `meta.FindStatusCondition` documents.
abbrev pub find_status_condition : String → List Condition → Option Condition
find_status_condition t [] = none
find_status_condition t (x ∷ xs) =
    let rest = find_status_condition t xs in if x.type == t then some x else rest

abbrev pub condition_of : Conditions → WsaResource → String → Option Condition
condition_of m r t = find_status_condition t (lookup_or [] (get_namespaced_name r) m)

-- The status and the reason of a condition.
abbrev pub told : Option Condition → Option (ConditionStatus × String)
told none = none
told (some x) = some (x.status, x.reason)

-- What the condition Ready tells of an error.
abbrev pub ready_of {ℓ} : {A : Type ℓ} → Option A → ConditionStatus × String
ready_of none = (condition_true, reason_succeeded)
ready_of (some _) = (condition_false, reason_failed)

-- What apimachinery documents of `meta.SetStatusCondition`: the condition is then found.
pub record Sets (c : StatusClient) : Type 0 where
  pub found :
      (cs : List Condition) (x : Condition)
      → find_status_condition x.type (c.set_status_condition cs x) ≡ some x

module _ (c : StatusClient) (sets : Sets c) where
  module _ (type : String) (status : ConditionStatus) (reason message : String) where
    condition_of-apply :
        (x r : WsaResource) (m : Conditions) (s : c.State)
        → told (condition_of (apply c x status type reason message m s).1 r type) ≡ (
            if get_namespaced_name x == get_namespaced_name r
            then some (status, reason)
            else told (condition_of m r type))
    unfolding apply
    condition_of-apply x r m s =
        elim (Bool-cases (get_namespaced_name x == get_namespaced_name r)) [
          | inl same ↦
              rw (lookup-put (get_namespaced_name x) (get_namespaced_name r) _ m, same)
                (ap told (sets.found _ _))
          | inr other ↦
              rw (lookup-put (get_namespaced_name x) (get_namespaced_name r) _ m, other) refl
        ]

    condition_of-update_conditions :
        (rs : List WsaResource) (r : WsaResource) (m : Conditions) (s : c.State)
        → told (condition_of (update_conditions c rs status type reason message m s).0 r type) ≡ (
            if any (λ x. get_namespaced_name x == get_namespaced_name r) rs
            then some (status, reason)
            else told (condition_of m r type))
    unfolding update_conditions
    condition_of-update_conditions [] r m s = refl
    condition_of-update_conditions (x ∷ rs) r m s =
        condition_of-update_conditions rs r (apply c x status type reason message m s).1
          (apply c x status type reason message m s).2
        ∙ ground (arith, condition_of-apply x r m s)

  deliver_all-append :
      (xs ys : List Noticed) (m : Conditions) (s : c.State)
      → deliver_all c (xs ++ ys) m s
        ≡ deliver_all c ys (deliver_all c xs m s).0 (deliver_all c xs m s).1
  unfolding deliver_all
  deliver_all-append [] ys m s = refl
  deliver_all-append (x ∷ xs) ys m s =
      deliver_all-append xs ys (deliver c x m s).0 (deliver c x m s).1

  deliver_all-reconciled :
      (plan : Plan) (rs : List WsaResource) (m : Conditions) (s : c.State)
      → deliver_all c (map (reconciled plan) rs) m s ≡ (m, s)
  unfolding deliver_all deliver
  deliver_all-reconciled plan [] m s = refl
  deliver_all-reconciled plan (r ∷ rs) m s = deliver_all-reconciled plan rs m s

  deliver_all-reconcile_events :
      (b : Batch) (m : Conditions) (s : c.State) → deliver_all c (reconcile_events b) m s ≡ (m, s)
  unfolding deliver_all
  deliver_all-reconcile_events b m s = elim (Option-cases b.plan) [
    | inl e ↦ rw e refl
    | inr (plan, e) ↦ rw e (deliver_all-reconciled plan b.resources m s)
  ]

  -- A failure tells the name of a stage.
  abbrev IsNamed : Option (String × String) → Type 0
  IsNamed none = Unit {0}
  IsNamed (some (stage, e)) = (stage == "") ≡ false

  final-told :
      (b : Batch) (outcome : Option (String × String)) (r : WsaResource) (m : Conditions)
      (s : c.State)
      → IsNamed outcome
      → Memᴰ r b.resources
      → told
          (condition_of (deliver_all c (final_conditions b outcome) m s).0 r condition_type_ready)
        ≡ some (ready_of outcome)
  unfolding deliver_all deliver
  final-told b none r m s named listed =
      condition_of-update_conditions condition_type_ready condition_true reason_succeeded
        "All stages completed successfully" b.resources r m s
      ∙ ground (
        arith,
        any_of_mem (λ x. get_namespaced_name x == get_namespaced_name r) b.resources r listed
            (==_refl (get_namespaced_name r)),
      )
  final-told b (some (stage, e)) r m s named listed = rw named (
      condition_of-update_conditions condition_type_ready condition_false reason_failed
        ("Stage " <> stage <> " failed: " <> e) b.resources r m s
      ∙ ground (
        arith,
        any_of_mem (λ x. get_namespaced_name x == get_namespaced_name r) b.resources r listed
            (==_refl (get_namespaced_name r)),
      ))

  -- Notices that end with the final conditions.
  final_last :
      (b : Batch) (outcome : Option (String × String)) (log : List Noticed) (r : WsaResource)
      (m : Conditions) (s : c.State)
      → IsNamed outcome
      → Memᴰ r b.resources
      → told (
          condition_of
            (deliver_all c (log ++ final_conditions b outcome) m s).0
            r
            condition_type_ready)
        ≡ some (ready_of outcome)
  final_last b outcome log r m s named listed =
      ap (λ x. told (condition_of x.0 r condition_type_ready))
        (deliver_all-append log (final_conditions b outcome) m s)
      ∙ final-told b outcome r (deliver_all c log m s).0 (deliver_all c log m s).1 named listed

  -- The events after them set no condition.
  events_last :
      (b : Batch) (log : List Noticed) (m : Conditions) (s : c.State)
      → deliver_all c (log ++ reconcile_events b) m s ≡ deliver_all c log m s
  events_last b log m s =
      deliver_all-append log (reconcile_events b) m s
      ∙ deliver_all-reconcile_events b (deliver_all c log m s).0 (deliver_all c log m s).1

  abbrev Tells : {W : Type 0} → Processed W → Type 0
  Tells p =
      (r : WsaResource) (m : Conditions) (s : c.State)
      → Memᴰ r p.batch.resources
      → told (condition_of (deliver_all c p.notices m s).0 r condition_type_ready)
        ≡ some (ready_of p.error)

  -- When all stages have names and a batch that is not empty was processed, and its conditions were set in the order of the
  -- run, the condition Ready of every resource of the batch tells how the run ended: true with the
  -- reason Succeeded if the run gave no error, else false with the reason Failed. That holds
  -- whatever conditions there were before, and whether or not the patches of the statuses reached
  -- the API server.
  pub process_batch-told :
      {W : Type 0} (stages : List (Stage W)) (b : Batch) (w : W) (p : Processed W) (r : WsaResource)
      (m : Conditions) (s : c.State)
      → process_batch stages b w ≡ some p
      → all_named stages ≡ true
      → null b.resources ≡ false
      → Memᴰ r p.batch.resources
      → told (condition_of (deliver_all c p.notices m s).0 r condition_type_ready)
        ≡ some (ready_of p.error)
  unfolding process_batch
  process_batch-told stages b w p r m s processed named filled listed =
      elim (Option-cases (run_stages stages b w [])) [
        | inl e ↦ ground (arith, rw (filled, e) at processed)
        | inr ((none, b', w', log), e) ↦
            subst Tells (some_inj.0 (rw (filled, e) at processed))
              (λ r' m' s' i.
                ap (λ x. told (condition_of x.0 r' condition_type_ready))
                  (events_last b' (log ++ final_conditions b' none) m' s')
                ∙ final_last b' none log r' m' s' tt i)
              r m s listed
        | inr ((some (stage, text), b', w', log), e) ↦
            subst Tells (some_inj.0 (rw (filled, e) at processed))
              (λ r' m' s'.
                final_last b' (some (stage, text)) log r' m' s'
                  (run_stages-named stages b b' w w' [] log stage text named e))
              r m s listed
      ]
