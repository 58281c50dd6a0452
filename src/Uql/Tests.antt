-- ===== src/Uql/Tests.antt =====
-- Queries to run the optimizer, the planner and the translators on.
use mirador_core.Prelude.{
  ℕ, ◌+◌, ◌*◌, ◌/◌, ◌≡◌, refl, Option, none, some, [], ◌∷◌, String, string_keys,
}
use mirador_core.Prelude.Int.{pos}
use mirador_core.Uql.Syntax.{
  UqlQuery, UqlSelect, UqlCondition, no_condition, condition, UqlField, UqlDataSource, op_eq,
  engine_logs, type_select, type_other, dir_asc,
}
use mirador_core.Uql.Outcome.{OnDone}
use mirador_core.Uql.Text.{Formats, join_texts}
use mirador_core.Uql.Optimizer.Passes.{new_uql_optimizer, optimize}
use mirador_core.Uql.Optimizer.Refines.{IsRefined}
use mirador_core.Uql.Optimizer.Keeping.{optimize-IsRefined}
use mirador_core.Uql.Plan.Defs.{Costs, QueryPlan}
use mirador_core.Uql.Plan.Generate.{generate_query_plan}
use mirador_core.Uql.Plan.Flow.{IsFlow}
use mirador_core.Uql.Plan.Laws.{generate_query_plan-IsFlow}
use mirador_core.Uql.Translate.Filters.{build_label_selectors, build_tag_filters}
use mirador_core.Uql.Translate.Engines.{translate_with, new_registry}
use mirador_core.Uql.Translate.Laws.{Reaches, target, new_registry-Reaches}
use mirador_core.Uql.Translate.FilterLaws.{selectors, build_label_selectors_lem}

abbrev formats : Formats String
formats = record { show_value = λ v. v; show_duration = λ d. "5m0s"; show_number = λ n. "10" }

abbrev costs : Costs ℕ
costs = record {
  whole = λ n. n;
  add_cost = λ a b. a + b;
  seven_tenths = λ n. n * 7 / 10;
  nine_tenths = λ n. n * 9 / 10;
}

abbrev as_text : String → Option String
as_text v = some v

-- level = error OR level = fatal
abbrev level_error : UqlCondition String
level_error =
    condition "level" op_eq "error" no_condition
      (condition "level" op_eq "fatal" no_condition no_condition)

abbrev field : String → UqlField
field name = record { name = name; function = ""; alias = ""; arguments = [] }

abbrev logs_error : UqlDataSource
logs_error = record { engine = engine_logs; query = "error" }

abbrev select_clause : UqlSelect String
select_clause = record {
  fields = field "service" ∷ field "message" ∷ field "service" ∷ [];
  data_source = logs_error;
  filter = level_error;
  group_by = "service" ∷ [];
  having = no_condition;
}

abbrev base_query : UqlQuery String
base_query = record {
  query_type = type_other "";
  raw_query = "q";
  select = none;
  correlation = none;
  aggregation = none;
  join = none;
  window = some (pos 61_000_000_000);
  limit = some (pos 10);
  order_by = [];
}

abbrev select_query : UqlQuery String
select_query = record base_query {
  query_type = type_select;
  select = some select_clause;
  order_by =
      record { field = "service"; direction = dir_asc }
      ∷ record { field = "level"; direction = dir_asc }
      ∷ [];
}

optimize-IsRefined_example :
    IsRefined select_query (optimize new_uql_optimizer (pos 3) select_query).0
optimize-IsRefined_example =
    optimize-IsRefined new_uql_optimizer (pos 3) select_query (refl, (refl, refl))

generate_query_plan-IsFlow_example :
    OnDone
      (λ (p : QueryPlan ℕ). IsFlow p.steps)
      (generate_query_plan costs formats new_uql_optimizer "query_1" (pos 5) select_query)
generate_query_plan-IsFlow_example =
    generate_query_plan-IsFlow costs formats new_uql_optimizer "query_1" (pos 5) select_query

new_registry-Reaches_example :
    Reaches
      (target type_select select_query)
      (translate_with (new_registry formats as_text) select_query)
new_registry-Reaches_example = new_registry-Reaches formats as_text select_query

build_label_selectors_lem_example :
    build_label_selectors formats as_text level_error
    ≡ join_texts "," (selectors formats as_text level_error)
build_label_selectors_lem_example = build_label_selectors_lem formats as_text level_error

tag_filters_run :
    build_tag_filters formats as_text level_error ≡ "level=\"error\" && level=\"fatal\""
unfolding build_tag_filters
tag_filters_run = refl
