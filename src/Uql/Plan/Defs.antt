-- ===== src/Uql/Plan/Defs.antt =====
-- Execution plans: their data, the texts in them and the steps that the builders append.
use Prim.Native.String.{◌++◌ as ◌+++◌}
use mirador_core.Prelude.{
  ℕ, zero, suc, ◌-◌, Bool, true, false, not, Option, none, some, List, [], ◌∷◌, ◌++◌, map, String,
  if◌then◌else◌, ◌==◌, string_keys, GoMap,
}
use mirador_core.Prelude.Int.{ℤ, pos}
use mirador_core.Uql.Syntax.{
  UqlOperator, UqlQueryType, UqlField, UqlOrderBy, UqlExpression, UqlCondition, no_condition,
  condition, UqlDataSource,
}
use mirador_core.Uql.Text.{Formats, operator_text, engine_text, direction_text}

pub record QueryPlanDataSource : Type 0 where
  pub source_name : String
  pub source_type : String
  pub source_engine : String
  pub filters : List String
  pub indexes : List String
  pub estimated_cardinality : ℤ

-- The values that the builders put in `Properties`.
pub data PropertyValue : Type 0 where
  text_property : String → PropertyValue
  texts_property : List String → PropertyValue
  number_property : ℤ → PropertyValue
  window_property : Option ℤ → PropertyValue

-- `C` is the type of the costs, float64.
pub record QueryPlanStep (C : Type 0) : Type 0 where
  pub step_id : ℕ
  pub operation : String
  pub description : String
  pub cost : C
  pub rows : ℤ
  pub step_source : Option QueryPlanDataSource
  pub children : List ℕ
  pub properties : GoMap String PropertyValue

pub record QueryPlan (C : Type 0) : Type 0 where
  pub query_id : String
  pub plan_type : UqlQueryType
  pub steps : List (QueryPlanStep C)
  pub estimated_cost : C
  pub estimated_rows : ℤ
  pub data_sources : List QueryPlanDataSource
  pub optimizations : List String
  pub generated_at : ℤ

-- The arithmetic of float64 that costs need: a whole number, the sum, and the products by 0.7 and 0.9.
pub record Costs (C : Type 0) : Type 0 where
  pub whole : ℕ → C
  pub add_cost : C → C → C
  pub seven_tenths : C → C
  pub nine_tenths : C → C

-- What a builder has made so far; `next_id` is its variable `stepID`.
pub record Building (C : Type 0) : Type 0 where
  pub next_id : ℕ
  pub made : List (QueryPlanStep C)

module _ {C : Type 0} where
  -- `plan.Steps[i].Children = ...`, `i` being in range in each builder.
  unfoldable pub set_children : ℕ → List ℕ → List (QueryPlanStep C) → List (QueryPlanStep C)
  set_children i ids [] = []
  set_children zero ids (s ∷ steps) = record s { children = ids } ∷ steps
  set_children (suc i) ids (s ∷ steps) = s ∷ set_children i ids steps

  -- `plan.Steps[i].Rows`, `i` being in range in each builder.
  unfoldable pub rows_at : ℕ → List (QueryPlanStep C) → ℤ
  rows_at i [] = pos 0
  rows_at zero (s ∷ steps) = s.rows
  rows_at (suc i) (s ∷ steps) = rows_at i steps

  -- `Rows` of the step before, `plan.Steps[stepID-1].Rows`.
  abbrev pub previous_rows : Building C → ℤ
  previous_rows b = rows_at (b.next_id - 1) b.made

  -- A step is appended under the next id, and becomes the child of the one before it.
  unfoldable pub add_first : (ℕ → QueryPlanStep C) → Building C → Building C
  add_first step b = record { next_id = suc b.next_id; made = b.made ++ step b.next_id ∷ [] }

  unfoldable pub add_linked : (ℕ → QueryPlanStep C) → Building C → Building C
  unfolding set_children
  add_linked step b = record {
    next_id = suc b.next_id;
    made = set_children (b.next_id - 1) (b.next_id ∷ []) (b.made ++ step b.next_id ∷ []);
  }

  abbrev pub add_if : Bool → (ℕ → QueryPlanStep C) → Building C → Building C
  add_if given step b = if given then add_linked step b else b

abbrev pub format_field : UqlField → String
format_field f =
    if not (f.function == "") then f.function +++ ("(" +++ (f.name +++ ")")) else f.name

abbrev pub format_fields : List UqlField → List String
format_fields fields = map format_field fields

abbrev pub format_order_by : List UqlOrderBy → List String
format_order_by order_by = map (λ o. o.field +++ (" " +++ direction_text o.direction)) order_by

abbrev pub source_text : UqlDataSource → String
source_text s = engine_text s.engine +++ (":" +++ s.query)

abbrev pub format_expression : UqlExpression → String
format_expression e = elim e.source [ none ↦ "unknown" | some s ↦ source_text s ]

module _ {V : Type 0} (f : Formats V) where
  -- The condition itself, without those below it.
  unfoldable pub own_filter : String → UqlOperator → V → String
  own_filter field operator value =
      field +++ (" " +++ (operator_text operator +++ (" " +++ f.show_value value)))

  unfoldable pub extract_filters : UqlCondition V → List String
  unfolding own_filter
  extract_filters no_condition = []
  extract_filters (condition field operator value and or) =
      (if not (field == "") then own_filter field operator value ∷ [] else [])
      ++ (extract_filters and ++ extract_filters or)

  -- A joined condition, when there is one.
  abbrev pub after_word : String → UqlCondition V → String → String
  after_word word no_condition text = ""
  after_word word (condition _ _ _ _ _) text = word +++ text

  unfoldable pub format_condition : UqlCondition V → String
  unfolding own_filter
  format_condition no_condition = ""
  format_condition (condition field operator value and or) =
      (if not (field == "") then own_filter field operator value else "")
      +++ (after_word " AND " and (format_condition and)
          +++ after_word " OR " or (format_condition or))

-- A pointer to a condition is not nil.
abbrev pub is_given_condition : {V : Type 0} → UqlCondition V → Bool
is_given_condition no_condition = false
is_given_condition (condition _ _ _ _ _) = true

abbrev pub is_given {ℓ} : {A : Type ℓ} → Option A → Bool
is_given none = false
is_given (some _) = true

abbrev pub is_nonempty {ℓ} : {A : Type ℓ} → List A → Bool
is_nonempty [] = false
is_nonempty (_ ∷ _) = true
