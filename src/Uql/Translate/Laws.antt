-- ===== src/Uql/Translate/Laws.antt =====
-- Which engine the registry translates a query for.
use mirador_core.Prelude.{◌≡◌, refl, Option, none, some, String, if◌then◌else◌}
use mirador_core.Uql.Outcome.{Outcome, done, failed}
use mirador_core.Uql.Syntax.{
  UqlQuery, UqlSelect, UqlAggregation, UqlCorrelation, UqlQueryType, type_select, type_aggregation,
  type_correlation, type_join, type_other, UqlEngine, engine_metrics, engine_logs, engine_traces,
  engine_correlation, engine_other,
}
use mirador_core.Uql.Text.{Formats}
use mirador_core.Uql.Translate.Defs.{
  TranslatedQuery, select_engine_is, aggregation_engine_is, can_translate_engine,
}
use mirador_core.Uql.Translate.Engines.{
  is_metrics, is_logs, is_traces, translate_select_to_promql, translate_aggregation_to_promql,
  translate_select_to_logsql, translate_aggregation_to_logsql, translate_select_to_traces,
  translate_aggregation_to_traces, of_clause, translate_clause, promql_translator,
  logsql_translator, traces_translator, correlation_translator, translate_correlation,
  can_translate_correlation, wrap_failure, translate_with, new_registry, register_translator,
}

-- An engine that has a language of its own.
abbrev pub queried_engine : UqlEngine → Option UqlEngine
queried_engine engine_metrics = some engine_metrics
queried_engine engine_logs = some engine_logs
queried_engine engine_traces = some engine_traces
queried_engine _ = none

-- A query for the engine, or an error where there is none.
abbrev pub Reaches : Option UqlEngine → Outcome TranslatedQuery → Type 0
Reaches (some e) (done t) = t.to_engine ≡ e
Reaches none (failed message) = Unit
Reaches _ _ = ⊥

-- The choice among the three translators of an engine, by the engine of the source.
choose :
    (e : UqlEngine) (p l t : TranslatedQuery) (other : String)
    → p.to_engine ≡ engine_metrics
    → l.to_engine ≡ engine_logs
    → t.to_engine ≡ engine_traces
    → Reaches (queried_engine e) (
        if is_metrics e
        then done p
        else if is_logs e
        then done l
        else if is_traces e
        then done t
        else failed other)
choose engine_metrics p l t other hp hl ht = hp
choose engine_logs p l t other hp hl ht = hl
choose engine_traces p l t other hp hl ht = ht
choose engine_correlation p l t other hp hl ht = tt
choose (engine_other _) p l t other hp hl ht = tt

module _ {V : Type 0} where
  abbrev pub select_target : Option (UqlSelect V) → Option UqlEngine
  select_target none = none
  select_target (some s) = queried_engine s.data_source.engine

  abbrev pub aggregation_target : Option (UqlAggregation V) → Option UqlEngine
  aggregation_target none = none
  aggregation_target (some a) = queried_engine a.agg_source.engine

  abbrev pub correlation_target : Option (UqlCorrelation V) → Option UqlEngine
  correlation_target none = none
  correlation_target (some c) = some engine_correlation

  -- The engine that a query is for: that of the source of its clause.
  abbrev pub target : UqlQueryType → UqlQuery V → Option UqlEngine
  target type_select q = select_target q.select
  target type_aggregation q = aggregation_target q.aggregation
  target type_correlation q = correlation_target q.correlation
  target type_join q = none
  target (type_other _) q = none

module _ {V : Type 0} (f : Formats V) (as_text : V → Option String) where
  -- The registry's loop, as the translators stand in it.
  abbrev route : UqlQueryType → UqlQuery V → String → Outcome TranslatedQuery
  route t q other =
      if can_translate_engine is_metrics t q
      then wrap_failure (
          translate_clause f as_text "PromQL" (translate_select_to_promql f as_text q)
            (translate_aggregation_to_promql f as_text) t q)
      else if can_translate_engine is_logs t q
      then wrap_failure (
          translate_clause f as_text "LogsQL" (translate_select_to_logsql f as_text q)
            (translate_aggregation_to_logsql f as_text) t q)
      else if can_translate_engine is_traces t q
      then wrap_failure (
          translate_clause f as_text "TracesQL" (translate_select_to_traces f as_text)
            (translate_aggregation_to_traces f as_text) t q)
      else if can_translate_correlation t
      then wrap_failure (translate_correlation q q.correlation)
      else failed other

  select_route :
      (o : Option (UqlSelect V)) (q : UqlQuery V) (other : String)
      → Reaches (select_target o) (
          if select_engine_is is_metrics o
          then wrap_failure (of_clause f as_text (translate_select_to_promql f as_text q) o)
          else if select_engine_is is_logs o
          then wrap_failure (of_clause f as_text (translate_select_to_logsql f as_text q) o)
          else if select_engine_is is_traces o
          then wrap_failure (of_clause f as_text (translate_select_to_traces f as_text) o)
          else failed other)
  unfolding translate_select_to_promql translate_select_to_logsql translate_select_to_traces
  select_route none q other = tt
  select_route (some s) q other = choose s.data_source.engine _ _ _ other refl refl refl

  aggregation_route :
      (o : Option (UqlAggregation V)) (other : String)
      → Reaches (aggregation_target o) (
          if aggregation_engine_is is_metrics o
          then wrap_failure (of_clause f as_text (translate_aggregation_to_promql f as_text) o)
          else if aggregation_engine_is is_logs o
          then wrap_failure (of_clause f as_text (translate_aggregation_to_logsql f as_text) o)
          else if aggregation_engine_is is_traces o
          then wrap_failure (of_clause f as_text (translate_aggregation_to_traces f as_text) o)
          else failed other)
  unfolding translate_aggregation_to_promql translate_aggregation_to_logsql
      translate_aggregation_to_traces
  aggregation_route none other = tt
  aggregation_route (some a) other = choose a.agg_source.engine _ _ _ other refl refl refl

  correlation_route :
      (q : UqlQuery V) (o : Option (UqlCorrelation V))
      → Reaches (correlation_target o) (wrap_failure (translate_correlation q o))
  correlation_route q none = tt
  correlation_route q (some c) = refl

  route_lem :
      (t : UqlQueryType) (q : UqlQuery V) (other : String) → Reaches (target t q) (route t q other)
  route_lem type_select q other = select_route q.select q other
  route_lem type_aggregation q other = aggregation_route q.aggregation other
  route_lem type_correlation q other = correlation_route q q.correlation
  route_lem type_join q other = tt
  route_lem (type_other _) q other = tt

  -- The registry translates a query for the engine of the source of its clause when that is metrics, logs
  -- or traces, and a correlation that has its clause for the correlation engine. On every other query
  -- it returns an error, and it never panics.
  pub new_registry-Reaches :
      (q : UqlQuery V) → Reaches (target q.query_type q) (translate_with (new_registry f as_text) q)
  unfolding new_registry translate_with register_translator promql_translator logsql_translator
      traces_translator correlation_translator
  new_registry-Reaches q = route_lem q.query_type q _
