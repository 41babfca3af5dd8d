-- ===== src/Rules/Coverage/Product.antt =====
-- The recursion over the dimensions builds the Cartesian product of the sets.
use octopus_permissions_cont.Prelude.{
  String, List, [], ◌∷◌, foldl, Bool, true, ◌&&◌, ◌||◌, any, all, any-and_left, any-and_right,
  any_congr, any_of_perm, Set, contains, contains-insert, VisitOrder, string_eq, ◌==◌, ◌≡◌, ap, ◌∙◌,
  arith,
}
use mathlib.Core.Bool.{and_assoc}
use octopus_permissions_cont.Rules.Scope.{
  Scope, scope_eq, scope_beq, zero_scope, DimensionIndex, project_index, project_group_index,
  environment_index, tenant_index, step_index, space_index, dimensions, value_at, with_value,
}
use octopus_permissions_cont.Rules.Coverage.{
  dimension_coverage, generate_scope_combinations, compute_wsa_coverage,
}
use octopus_permissions_cont.Rules.Resource.{WsaResource}
use octopus_permissions_cont.Rules.Vocabulary.{GlobalVocabulary}

-- A loop that adds to a set what each item stands for.
contains-foldl :
    {A : Type 0} (f : Set Scope → A → Set Scope) (g : A → Bool) (s : Scope)
    → ((acc : Set Scope) (a : A) → contains (f acc a) s ≡ (contains acc s || g a))
    → (xs : List A) (acc : Set Scope) → contains (foldl f acc xs) s ≡ (contains acc s || any g xs)
contains-foldl f g s step [] acc = ground arith
contains-foldl f g s step (x ∷ xs) acc =
    ground (arith, contains-foldl f g s step xs (f acc x), step acc x)

-- The scopes that the recursion reaches from `current`.
reaches : (DimensionIndex → Set String) → List DimensionIndex → Scope → Scope → Bool
reaches sets [] current s = current == s
reaches sets (d ∷ ds) current s = any (λ v. reaches sets ds (with_value d v current) s) (sets d)

contains-generate :
    (o : VisitOrder) (sets : DimensionIndex → Set String) (s : Scope) (ds : List DimensionIndex)
    (current : Scope) (result : Set Scope)
    → contains (generate_scope_combinations o ds current sets result) s
      ≡ (contains result s || reaches sets ds current s)
unfolding generate_scope_combinations reaches
contains-generate o sets s [] current result = ground (arith, contains-insert current s result)
contains-generate o sets s (d ∷ ds) current result =
    contains-foldl _ (λ v. reaches sets ds (with_value d v current) s) s
      (λ acc v. contains-generate o sets s ds (with_value d v current) acc) (o.visit (sets d))
      result
    ∙ ap (λ b. contains result s || b) (any_of_perm _ (o.visit_perm (sets d)))

and_true_path : (b : Bool) → b ≡ (b && true)
and_true_path b = ground arith

module _ (sets : DimensionIndex → Set String) (s : Scope) where
  abbrev chosen : DimensionIndex → Bool
  chosen d = contains (sets d) (value_at d s)

  -- A test of one field between tests of others leaves the loop as a membership.
  reaches-cons :
      (d : DimensionIndex) (ds : List DimensionIndex) (current : Scope) (before after : Bool)
      → ((v : String)
          → reaches sets ds (with_value d v current) s ≡ (before && v == value_at d s && after))
      → reaches sets (d ∷ ds) current s ≡ (before && (chosen d && after))
  unfolding reaches
  reaches-cons d ds current before after inner =
      any_congr _ _ (sets d) (λ v _. inner v)
      ∙ any-and_right (λ v. before && v == value_at d s) after (sets d)
      ∙ ap (λ b. b && after) (any-and_left (λ v. v == value_at d s) before (sets d))
      ∙ and_assoc before (chosen d) after

  -- The field that a dimension stands for already has its value.
  abbrev same : Scope → DimensionIndex → Bool
  same current d = value_at d current == value_at d s

  from_space :
      (c : Scope)
      → reaches sets (space_index ∷ []) c s ≡ (
          same c project_index
          && same c project_group_index
          && same c environment_index
          && same c tenant_index
          && same c step_index
          && (chosen space_index && true))
  unfolding reaches scope_beq with_value value_at
  from_space c =
      reaches-cons space_index ([]) c
        (same c project_index
          && same c project_group_index
          && same c environment_index
          && same c tenant_index
          && same c step_index)
        (true) (λ v. and_true_path (scope_beq (with_value space_index v c) s))

  from_step :
      (c : Scope)
      → reaches sets (step_index ∷ space_index ∷ []) c s ≡ (
          same c project_index
          && same c project_group_index
          && same c environment_index
          && same c tenant_index
          && (chosen step_index && (chosen space_index && true)))
  unfolding reaches scope_beq with_value value_at
  from_step c =
      reaches-cons step_index (space_index ∷ []) c
        (same c project_index
          && same c project_group_index
          && same c environment_index
          && same c tenant_index)
        ((chosen space_index && true)) (λ v. from_space (with_value step_index v c))

  from_tenant :
      (c : Scope)
      → reaches sets (tenant_index ∷ step_index ∷ space_index ∷ []) c s ≡ (
          same c project_index
          && same c project_group_index
          && same c environment_index
          && (chosen tenant_index && (chosen step_index && (chosen space_index && true))))
  unfolding reaches scope_beq with_value value_at
  from_tenant c =
      reaches-cons tenant_index (step_index ∷ space_index ∷ []) c
        (same c project_index && same c project_group_index && same c environment_index)
        ((chosen step_index && (chosen space_index && true)))
        (λ v. from_step (with_value tenant_index v c))

  from_environment :
      (c : Scope)
      → reaches sets (environment_index ∷ tenant_index ∷ step_index ∷ space_index ∷ []) c s ≡ (
          same c project_index
          && same c project_group_index
          && (chosen environment_index
              && (chosen tenant_index && (chosen step_index && (chosen space_index && true)))))
  unfolding reaches scope_beq with_value value_at
  from_environment c =
      reaches-cons environment_index (tenant_index ∷ step_index ∷ space_index ∷ []) c
        (same c project_index && same c project_group_index)
        ((chosen tenant_index && (chosen step_index && (chosen space_index && true))))
        (λ v. from_tenant (with_value environment_index v c))

  from_project_group :
      (c : Scope)
      → reaches sets
          (project_group_index ∷ environment_index ∷ tenant_index ∷ step_index ∷ space_index ∷ [])
          c
          s
        ≡ (same c project_index
            && (chosen project_group_index
                && (chosen environment_index
                    && (chosen tenant_index
                        && (chosen step_index && (chosen space_index && true))))))
  unfolding reaches scope_beq with_value value_at
  from_project_group c =
      reaches-cons project_group_index
        (environment_index ∷ tenant_index ∷ step_index ∷ space_index ∷ []) c (same c project_index)
        ((chosen environment_index
          && (chosen tenant_index && (chosen step_index && (chosen space_index && true)))))
        (λ v. from_environment (with_value project_group_index v c))

  reaches_all :
      (c : Scope)
      → reaches sets
          (project_index ∷ project_group_index ∷ environment_index ∷ tenant_index ∷ step_index
            ∷ space_index ∷ [])
          c
          s
        ≡ (true
            && (chosen project_index
                && (chosen project_group_index
                    && (chosen environment_index
                        && (chosen tenant_index
                            && (chosen step_index && (chosen space_index && true)))))))
  unfolding reaches scope_beq with_value value_at
  reaches_all c =
      reaches-cons project_index
        (project_group_index ∷ environment_index ∷ tenant_index ∷ step_index ∷ space_index ∷ []) c
        (true)
        ((chosen project_group_index
          && (chosen environment_index
              && (chosen tenant_index && (chosen step_index && (chosen space_index && true))))))
        (λ v. from_project_group (with_value project_index v c))

-- A resource covers a scope exactly if each of the six values of the scope is covered in its
-- dimension: the recursion over the dimensions makes the whole product and nothing else.
pub contains-compute_wsa_coverage :
    (o : VisitOrder) (r : WsaResource) (v : GlobalVocabulary) (s : Scope)
    → contains (compute_wsa_coverage o r v) s
      ≡ all (λ d. contains (dimension_coverage r v d) (value_at d s)) dimensions
unfolding compute_wsa_coverage
contains-compute_wsa_coverage o r v s =
    contains-generate o (dimension_coverage r v) s dimensions zero_scope []
    ∙ reaches_all (dimension_coverage r v) s zero_scope
