-- ===== src/Uql/Plan/Build.antt =====
-- The builders of the plans and `GenerateQueryPlan`.
use Prim.Native.String.{◌++◌ as ◌+++◌}
use mirador_core.Prelude.{
  ℕ, suc, ◌*◌, ◌-◌, Option, none, some, List, [], ◌∷◌, ◌++◌, String, GoMap, length,
}
use mirador_core.Prelude.Int.{ℤ, pos}
use mirador_core.Uql.Syntax.{
  UqlQuery, UqlSelect, UqlAggregation, UqlCorrelation, UqlJoin, UqlDataSource, UqlCondition,
}
use mirador_core.Uql.Text.{Formats, operator_text, engine_text, join_type_text, list_text}
use mirador_core.Uql.Plan.Defs.{
  QueryPlanDataSource, PropertyValue, text_property, texts_property, number_property,
  window_property, QueryPlanStep, Costs, Building, set_children, add_first, add_linked, add_if,
  previous_rows, source_text, format_fields, format_order_by, format_expression, extract_filters,
  format_condition, is_given_condition, is_nonempty,
}

abbrev pub empty_building : {C : Type 0} → Building C
empty_building = record { next_id = 0; made = [] }

-- What a builder adds to the plan: its data sources and its steps.
pub record Built (C : Type 0) : Type 0 where
  pub sources : List QueryPlanDataSource
  pub building : Building C

abbrev pub plan_source : String → String → String → List String → ℕ → QueryPlanDataSource
plan_source name kind engine filters cardinality = record {
  source_name = name;
  source_type = kind;
  source_engine = engine;
  filters = filters;
  indexes = [];
  estimated_cardinality = pos cardinality;
}

module _ {C : Type 0} (costs : Costs C) where
  abbrev pub plan_step :
      String
      → String
      → ℕ
      → ℤ
      → Option QueryPlanDataSource
      → GoMap String PropertyValue
      → ℕ
      → QueryPlanStep C
  plan_step operation description cost rows source properties id = record {
    step_id = id;
    operation = operation;
    description = description;
    cost = costs.whole cost;
    rows = rows;
    step_source = source;
    children = [];
    properties = properties;
  }

  -- The third step of a correlation or a join is the child of both scans.
  unfoldable pub link_both : Building C → (ℕ → QueryPlanStep C) → Building C
  unfolding set_children
  link_both b step = record {
    next_id = suc b.next_id;
    made =
        set_children (b.next_id - 1) (b.next_id ∷ [])
          (set_children (b.next_id - 2) (b.next_id ∷ []) (b.made ++ step b.next_id ∷ []));
  }

module _ {C V : Type 0} (costs : Costs C) (f : Formats V) where
  abbrev pub engine_source : UqlDataSource → List String → ℕ → QueryPlanDataSource
  engine_source s filters cardinality =
      plan_source (source_text s) (engine_text s.engine) (engine_text s.engine) filters cardinality

  abbrev pub scan_properties : UqlDataSource → GoMap String PropertyValue
  scan_properties s =
      ("engine", text_property (engine_text s.engine)) ∷ ("query", text_property s.query) ∷ []

  abbrev pub filter_step : String → ℕ → UqlCondition V → ℕ → QueryPlanStep C
  filter_step description rows c =
      plan_step costs "Filter" description 5 (pos rows) none
        (("conditions", text_property (format_condition f c)) ∷ [])

  abbrev pub limit_step : Option ℤ → Building C → Building C
  limit_step none b = b
  limit_step (some n) b =
      add_linked
        (plan_step costs "Limit" ("Limit to " +++ (f.show_number n +++ " rows")) 1 n none
          (("limit", number_property n) ∷ []))
        b

  abbrev pub group_step : List String → Building C → Building C
  group_step group_by b =
      add_if (is_nonempty group_by)
        (plan_step costs "Group By" ("Group by " +++ list_text group_by) 15
          (pos (length group_by * 10)) none (("group_fields", texts_property group_by) ∷ []))
        b

  abbrev pub projection_step : UqlSelect V → Building C → Building C
  projection_step s b =
      add_linked
        (plan_step costs "Projection" "Select and compute final fields" 2 (previous_rows b) none
          (("fields", texts_property (format_fields s.fields)) ∷ []))
        b

  abbrev pub sort_step : UqlQuery V → Building C → Building C
  sort_step q b =
      add_if (is_nonempty q.order_by)
        (plan_step costs "Sort" "Order results" 20 (previous_rows b) none
          (("order_fields", texts_property (format_order_by q.order_by)) ∷ []))
        b

  -- The steps of a SELECT before its limit.
  abbrev pub select_steps : UqlQuery V → UqlSelect V → (ℕ → QueryPlanStep C) → Building C
  select_steps q s scan = sort_step q (
      projection_step s (
        group_step s.group_by (
          add_if (is_given_condition s.filter) (filter_step "Apply WHERE conditions" 100 s.filter)
            (add_first scan empty_building))))

  abbrev pub select_source : UqlSelect V → QueryPlanDataSource
  select_source s = engine_source s.data_source (extract_filters f s.filter) 1000

  abbrev pub select_scan : UqlSelect V → ℕ → QueryPlanStep C
  select_scan s =
      plan_step costs "DataSource Scan"
        ("Scan " +++ (engine_text s.data_source.engine +++ " data source")) 10 (pos 1000)
        (some (select_source s)) (scan_properties s.data_source)

  unfoldable pub build_select : UqlQuery V → UqlSelect V → Built C
  unfolding extract_filters
  build_select q s = record {
    sources = select_source s ∷ [];
    building = limit_step q.limit (select_steps q s (select_scan s));
  }

  unfoldable pub build_aggregation : UqlAggregation V → Built C
  unfolding extract_filters
  build_aggregation a =
      let source = engine_source a.agg_source (extract_filters f a.agg_filter) 10_000 in
      let scan =
        plan_step costs "DataSource Scan"
          ("Scan " +++ (source.source_type +++ " data source for aggregation")) 15 (pos 10_000)
          (some source) (scan_properties a.agg_source) in
      let aggregate =
        plan_step costs "Aggregation"
          ("Compute " +++ (a.agg_function +++ ("(" +++ (a.agg_field +++ ")")))) 25 (pos 1) none
          (("function", text_property a.agg_function)
            ∷ ("field", text_property a.agg_field)
            ∷ ("group_by", texts_property a.agg_group_by)
            ∷ []) in
      record {
        sources = source ∷ [];
        building = add_linked aggregate (
            add_if (is_given_condition a.agg_filter)
              (filter_step "Apply WHERE conditions before aggregation" 1000 a.agg_filter)
              (add_first scan empty_building));
      }

  abbrev pub side_scan : String → QueryPlanDataSource → ℕ → QueryPlanStep C
  side_scan description source =
      plan_step costs "DataSource Scan" description 10 (pos 1000) (some source) []

  abbrev pub window_text : Option ℤ → String
  window_text none = ""
  window_text (some w) = " within " +++ f.show_duration w

  -- The data source of an expression is read without a test for nil.
  unfoldable pub build_correlation : UqlCorrelation V → UqlDataSource → UqlDataSource → Built C
  unfolding link_both add_first
  build_correlation c left_source right_source =
      let left = engine_source left_source [] 1000 in
      let right = engine_source right_source [] 1000 in
      let correlate =
        plan_step costs "Correlation"
          ("Correlate using " +++ (operator_text c.operator +++ window_text c.time_window)) 30
          (pos 50) none
          (("operator", text_property (operator_text c.operator))
            ∷ ("time_window", window_property c.time_window)
            ∷ ("left_source", text_property left.source_name)
            ∷ ("right_source", text_property right.source_name)
            ∷ []) in
      record {
        sources = left ∷ right ∷ [];
        building =
            link_both costs
              (add_first (side_scan ("Scan right data source: " +++ right.source_name) right) (
                add_first (side_scan ("Scan left data source: " +++ left.source_name) left)
                  empty_building))
              correlate;
      }

  unfoldable pub build_join : UqlJoin V → Built C
  unfolding link_both add_first
  build_join j =
      let left = plan_source (format_expression j.left) "join_source" "join" [] 1000 in
      let right = plan_source (format_expression j.right) "join_source" "join" [] 1000 in
      let combine =
        plan_step costs "Join" (join_type_text j.join_type +++ " Join") 50 (pos 10_000) none (
          ("join_type", text_property (join_type_text j.join_type))
          ∷ ("condition", text_property (format_condition f j.on))
          ∷ []) in
      record {
        sources = left ∷ right ∷ [];
        building =
            link_both costs
              (add_first (side_scan "Scan right join source" right)
                (add_first (side_scan "Scan left join source" left) empty_building))
              combine;
      }
