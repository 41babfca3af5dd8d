-- ===== src/Rules/Scope.antt =====
-- internal/types/scope.go, and the dimensions of internal/rules/generator.go.
use octopus_permissions_cont.Prelude.{
  String, ◌<>◌, Bool, true, List, [], ◌∷◌, Eq, ◌==◌, ◌&&◌, ◌≡◌, ◌↔◌, arith, eq_iff, string_eq,
}

pub record Scope : Type 0 where
  pub project : String
  pub project_group : String
  pub environment : String
  pub tenant : String
  pub step : String
  pub space : String

unfoldable pub is_empty : Scope → Bool
is_empty s =
    s.project == ""
    && s.project_group == ""
    && s.environment == ""
    && s.tenant == ""
    && s.step == ""
    && s.space == ""

unfoldable pub to_string : Scope → String
to_string s =
    "projects=" <> s.project <> ",projectGroups=" <> s.project_group <> ",environments="
    <> s.environment <> ",tenants=" <> s.tenant <> ",steps=" <> s.step <> ",spaces=" <> s.space

unfoldable pub scope_beq : Scope → Scope → Bool
scope_beq s t =
    s.project == t.project
    && s.project_group == t.project_group
    && s.environment == t.environment
    && s.tenant == t.tenant
    && s.step == t.step
    && s.space == t.space

pub scope_beq_iff : (s t : Scope) → (scope_beq s t ≡ true) ↔ (s ≡ t)
unfolding scope_beq
scope_beq_iff s t = (
  λ h. ground (
    arith,
    eq_iff s.project t.project,
    eq_iff s.project_group t.project_group,
    eq_iff s.environment t.environment,
    eq_iff s.tenant t.tenant,
    eq_iff s.step t.step,
    eq_iff s.space t.space,
  ),
  λ h. ground (
    arith,
    eq_iff s.project t.project,
    eq_iff s.project_group t.project_group,
    eq_iff s.environment t.environment,
    eq_iff s.tenant t.tenant,
    eq_iff s.step t.step,
    eq_iff s.space t.space,
  ),
)

instance abbrev pub scope_eq : Eq Scope
scope_eq = record { equal = scope_beq; equal_iff = scope_beq_iff }

-- `Scope{}`.
abbrev pub zero_scope : Scope
zero_scope = record {
  project = "";
  project_group = "";
  environment = "";
  tenant = "";
  step = "";
  space = "";
}

-- `WildcardValue`.
abbrev pub wildcard_value : String
wildcard_value = "*"

pub data DimensionIndex : Type 0 where
  project_index project_group_index environment_index tenant_index step_index space_index :
      DimensionIndex

-- The indices from 0 up to `MaxDimensionIndex`, in the order in which the loops run.
abbrev pub dimensions : List DimensionIndex
dimensions =
    project_index ∷ project_group_index ∷ environment_index ∷ tenant_index ∷ step_index
    ∷ space_index ∷ []

-- The field of a scope that a dimension stands for.
unfoldable pub value_at : DimensionIndex → Scope → String
value_at project_index s = s.project
value_at project_group_index s = s.project_group
value_at environment_index s = s.environment
value_at tenant_index s = s.tenant
value_at step_index s = s.step
value_at space_index s = s.space

-- The `switch` of `generateScopeCombinations`.
unfoldable pub with_value : DimensionIndex → String → Scope → Scope
with_value project_index v s = record s { project = v }
with_value project_group_index v s = record s { project_group = v }
with_value environment_index v s = record s { environment = v }
with_value tenant_index v s = record s { tenant = v }
with_value step_index v s = record s { step = v }
with_value space_index v s = record s { space = v }
