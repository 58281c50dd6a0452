-- ===== src/Uql/Parse/Queries.antt =====
-- The parser of aggregations, and `Parse`.
use Prim.Native.String.{◌++◌ as ◌+++◌}
use mirador_core.Prelude.{
  Bool, true, false, ◌&&◌, ◌||◌, not, Option, none, some, List, [], ◌∷◌, String, if◌then◌else◌,
  ◌==◌, string_keys, contains,
}
use mirador_core.Uql.Outcome.{Outcome, done, failed, ◌>>=◌, ◌>>◌, reject_if}
use mirador_core.Uql.Syntax.{UqlQuery, no_condition, type_aggregation}
use mirador_core.Uql.Parse.Texts.{TextLibrary, has_prefix, match_call, match_from, Call}
use mirador_core.Uql.Parse.Clauses.{parse_data_source}
use mirador_core.Uql.Parse.Conditions.{UqlValue}
use mirador_core.Uql.Parse.Select.{parse_select_query, has_text}
use mirador_core.Uql.Parse.Correlations.{parse_correlation_query}

abbrev pub functions : List String
functions =
    "COUNT" ∷ "SUM" ∷ "AVG" ∷ "MIN" ∷ "MAX" ∷ "RATE" ∷ "INCREASE" ∷ "PERCENTILE" ∷ "HISTOGRAM"
    ∷ "QUANTILE" ∷ []

module _ {F : Type 0} (lib : TextLibrary F) where
  abbrev pub is_correlation_query : String → Bool
  is_correlation_query query =
      let upper = lib.to_upper query in
      has_text lib upper " AND "
      || has_text lib upper " OR "
      || has_text lib upper " WITHIN "
      || has_text lib upper " NEAR "
      || has_text lib upper " BEFORE "
      || has_text lib upper " AFTER "

  -- The call and the rest after FROM.
  unfoldable pub match_aggregation : String → Option (Call × String)
  unfolding match_call match_from
  match_aggregation query = elim (match_call query) [
    | none ↦ none
    | some call ↦ elim (match_from call.rest) [ none ↦ none | some rest ↦ some (call, rest) ]
  ]

  abbrev pub is_aggregation_query : String → Bool
  is_aggregation_query query = elim (match_aggregation query) [ none ↦ false | some _ ↦ true ]

  -- `(.+)$`: at least one character, and no line feed.
  abbrev pub is_one_line : String → Bool
  is_one_line s = not (s == "") && not (has_text lib s "\n")

  abbrev pub matched_aggregation : String → Outcome (Call × String)
  matched_aggregation query = elim (match_aggregation query) [
    | none ↦ failed "invalid aggregation query format"
    | some m ↦ if is_one_line m.1 then done m else failed "invalid aggregation query format"
  ]

  unfoldable pub parse_aggregation_query : String → Outcome (UqlQuery (UqlValue F))
  unfolding match_aggregation parse_data_source
  parse_aggregation_query query = do
    m ← matched_aggregation query
    let function = lib.to_upper m.0.name
    reject_if (not (contains function functions)) ("unknown aggregation function: " +++ function)
    reject_if (m.0.arguments == "" && not (function == "COUNT"))
        ("aggregation function " +++ (function +++ " requires a field"))
    source ← parse_data_source lib m.1
    done (record {
      query_type = type_aggregation;
      raw_query = query;
      select = none;
      correlation = none;
      aggregation = some (record {
        agg_function = function;
        agg_field = m.0.arguments;
        agg_source = source;
        agg_filter = no_condition;
        agg_group_by = [];
        agg_arguments = [];
      });
      join = none;
      window = none;
      limit = none;
      order_by = [];
    })

  unfoldable pub parse : String → Outcome (UqlQuery (UqlValue F))
  unfolding parse_select_query parse_correlation_query parse_aggregation_query
  parse text = do
    let query = lib.trim text
    reject_if (query == "") "empty query"
    (if has_prefix (lib.to_upper query) "SELECT"
        then parse_select_query lib query
        else if is_correlation_query query
        then parse_correlation_query lib query
        else if is_aggregation_query query
        then parse_aggregation_query query
        else parse_correlation_query lib query)
