-- ===== src/Uql/Translate/Engines.antt =====
-- The translators of the four engines, and the registry that chooses among them.
use Prim.Native.String.{◌++◌ as ◌+++◌}
use mirador_core.Prelude.{
  Bool, true, false, not, Option, none, some, List, [], ◌∷◌, ◌++◌, String, if◌then◌else◌, ◌==◌,
  string_keys, GoMap, fetch, map,
}
use mirador_core.Uql.Outcome.{Outcome, done, failed, panicked}
use mirador_core.Uql.Syntax.{
  UqlQuery, UqlSelect, UqlAggregation, UqlCorrelation, UqlField, UqlQueryType, type_select,
  type_aggregation, type_correlation, UqlEngine, engine_metrics, engine_logs, engine_traces,
  engine_correlation,
}
use mirador_core.Uql.Text.{Formats, query_type_text, join_texts}
use mirador_core.Uql.Translate.Defs.{
  AggregationSpec, TranslatedQuery, plain_query, Translator, contains_text, quoted, if_text,
  can_translate_engine,
}
use mirador_core.Uql.Translate.Filters.{build_label_selectors, build_logs_filter, build_tag_filters}

abbrev pub is_metrics : UqlEngine → Bool
is_metrics engine_metrics = true
is_metrics _ = false

abbrev pub is_logs : UqlEngine → Bool
is_logs engine_logs = true
is_logs _ = false

abbrev pub is_traces : UqlEngine → Bool
is_traces engine_traces = true
is_traces _ = false

-- The cases of the switch, and the name itself by default.
abbrev pub function_name : GoMap String String → String → String
function_name names fn = elim (fetch names fn) [ none ↦ fn | some name ↦ name ]

abbrev pub logs_functions : GoMap String String
logs_functions =
    ("COUNT", "count")
    ∷ ("SUM", "sum")
    ∷ ("AVG", "avg")
    ∷ ("MIN", "min")
    ∷ ("MAX", "max")
    ∷ ("RATE", "rate")
    ∷ ("INCREASE", "increase")
    ∷ []

abbrev pub promql_functions : GoMap String String
promql_functions =
    ("COUNT", "count")
    ∷ ("SUM", "sum")
    ∷ ("AVG", "avg")
    ∷ ("MIN", "min")
    ∷ ("MAX", "max")
    ∷ ("RATE", "rate")
    ∷ ("INCREASE", "increase")
    ∷ ("PERCENTILE", "quantile")
    ∷ ("HISTOGRAM", "histogram_quantile")
    ∷ []

unfoldable pub convert_function_to_promql : String → String
convert_function_to_promql fn = function_name promql_functions fn

unfoldable pub convert_function_to_logsql : String → String
convert_function_to_logsql fn = function_name logs_functions fn

-- A field of a SELECT: a call of its function or its name, the wildcard standing for the metric.
unfoldable pub promql_field : String → UqlField → String
unfolding convert_function_to_promql
promql_field metric field =
    let name = if field.name == "*" then metric else field.name in
    if not (field.function == "")
    then convert_function_to_promql field.function +++ ("(" +++ (name +++ ")"))
    else name

abbrev pub traces_base : String → String
traces_base query =
    if contains_text query "service:" then query else "{service.name=" +++ (quoted query +++ "}")

module _ {V : Type 0} (f : Formats V) (as_text : V → Option String) where
  abbrev pub aggregation_spec : String → UqlAggregation V → Option AggregationSpec
  aggregation_spec fn a =
      some
        (record { spec_function = fn; spec_field = a.agg_field; spec_parameters = a.agg_arguments })

  unfoldable pub translate_select_to_promql : UqlQuery V → UqlSelect V → TranslatedQuery
  unfolding promql_field join_texts
  translate_select_to_promql q s =
      let fields = join_texts ", " (map (promql_field s.data_source.query) s.fields) in
      record (plain_query engine_metrics
        (fields +++ if_text "{" (build_label_selectors f as_text s.filter) "}")) {
          to_window = q.window;
        }

  unfoldable pub translate_aggregation_to_promql : UqlAggregation V → TranslatedQuery
  translate_aggregation_to_promql a =
      let fn = convert_function_to_promql a.agg_function in
      record (plain_query engine_metrics (
        (fn +++ ("(" +++ (a.agg_field +++ ")")))
        +++ if_text "{" (build_label_selectors f as_text a.agg_filter) "}")) {
          to_aggregation = aggregation_spec fn a;
        }

  unfoldable pub translate_select_to_logsql : UqlQuery V → UqlSelect V → TranslatedQuery
  translate_select_to_logsql q s =
      record (plain_query engine_logs
        (s.data_source.query +++ if_text " | " (build_logs_filter f as_text s.filter) "")) {
          to_limit = q.limit;
        }

  unfoldable pub translate_aggregation_to_logsql : UqlAggregation V → TranslatedQuery
  translate_aggregation_to_logsql a =
      let fn = convert_function_to_logsql a.agg_function in
      record (plain_query engine_logs (
        (a.agg_source.query +++ if_text " | " (build_logs_filter f as_text a.agg_filter) "")
        +++ (" | " +++ (fn +++ ("(" +++ (a.agg_field +++ ")")))))) {
          to_aggregation = aggregation_spec fn a;
        }

  unfoldable pub translate_select_to_traces : UqlSelect V → TranslatedQuery
  translate_select_to_traces s =
      plain_query engine_traces (
        traces_base s.data_source.query
        +++ if_text " && " (build_tag_filters f as_text s.filter) "")

  unfoldable pub translate_aggregation_to_traces : UqlAggregation V → TranslatedQuery
  translate_aggregation_to_traces a =
      record (plain_query engine_traces (
        traces_base a.agg_source.query
        +++ if_text " && " (build_tag_filters f as_text a.agg_filter) "")) {
          to_aggregation = aggregation_spec a.agg_function a;
        }

  -- A clause is read without a test for nil.
  abbrev pub of_clause : {A : Type 0} → (A → TranslatedQuery) → Option A → Outcome TranslatedQuery
  of_clause translate none = panicked
  of_clause translate (some a) = done (translate a)

  -- `TranslateQuery` of the three translators of an engine.
  abbrev pub translate_clause :
      String
      → (UqlSelect V → TranslatedQuery)
      → (UqlAggregation V → TranslatedQuery)
      → UqlQueryType
      → UqlQuery V
      → Outcome TranslatedQuery
  translate_clause language on_select on_aggregation type_select q = of_clause on_select q.select
  translate_clause language on_select on_aggregation type_aggregation q =
      of_clause on_aggregation q.aggregation
  translate_clause language on_select on_aggregation t q = failed (
      "unsupported UQL query type for " +++ (language +++ (" translation: " +++ query_type_text t)))

  unfoldable pub promql_translator : Translator V
  unfolding translate_select_to_promql translate_aggregation_to_promql
  promql_translator = record {
    can_translate = λ q. can_translate_engine is_metrics q.query_type q;
    translate_query = λ q.
        translate_clause "PromQL" (translate_select_to_promql q) translate_aggregation_to_promql
          q.query_type q;
    supported_engines = engine_metrics ∷ [];
  }

  unfoldable pub logsql_translator : Translator V
  unfolding translate_select_to_logsql translate_aggregation_to_logsql
  logsql_translator = record {
    can_translate = λ q. can_translate_engine is_logs q.query_type q;
    translate_query = λ q.
        translate_clause "LogsQL" (translate_select_to_logsql q) translate_aggregation_to_logsql
          q.query_type q;
    supported_engines = engine_logs ∷ [];
  }

  unfoldable pub traces_translator : Translator V
  unfolding translate_select_to_traces translate_aggregation_to_traces
  traces_translator = record {
    can_translate = λ q. can_translate_engine is_traces q.query_type q;
    translate_query = λ q.
        translate_clause "TracesQL" translate_select_to_traces translate_aggregation_to_traces
          q.query_type q;
    supported_engines = engine_traces ∷ [];
  }

abbrev pub can_translate_correlation : UqlQueryType → Bool
can_translate_correlation type_correlation = true
can_translate_correlation _ = false

abbrev pub wrap_failure : Outcome TranslatedQuery → Outcome TranslatedQuery
wrap_failure (failed message) = failed ("translation failed: " +++ message)
wrap_failure o = o

module _ {V : Type 0} where
  abbrev pub translate_correlation :
      UqlQuery V → Option (UqlCorrelation V) → Outcome TranslatedQuery
  translate_correlation q none = failed "missing correlation clause"
  translate_correlation q (some c) =
      done (record (plain_query engine_correlation q.raw_query) { to_window = c.time_window })

  unfoldable pub correlation_translator : Translator V
  correlation_translator = record {
    can_translate = λ q. can_translate_correlation q.query_type;
    translate_query = λ q. translate_correlation q q.correlation;
    supported_engines = engine_correlation ∷ [];
  }

  -- The registry's loop over its translators.
  unfoldable pub translate_with : List (Translator V) → UqlQuery V → Outcome TranslatedQuery
  translate_with [] q =
      failed ("no translator found for UQL query type: " +++ query_type_text q.query_type)
  translate_with (t ∷ translators) q =
      if t.can_translate q then wrap_failure (t.translate_query q) else translate_with translators q

  -- `RegisterTranslator`.
  unfoldable pub register_translator : List (Translator V) → Translator V → List (Translator V)
  register_translator translators t = translators ++ t ∷ []

module _ {V : Type 0} (f : Formats V) (as_text : V → Option String) where
  unfoldable pub new_registry : List (Translator V)
  unfolding register_translator promql_translator logsql_translator traces_translator
      correlation_translator
  new_registry =
      register_translator
        (register_translator
          (register_translator (register_translator [] (promql_translator f as_text))
            (logsql_translator f as_text))
          (traces_translator f as_text))
        correlation_translator
