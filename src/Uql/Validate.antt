-- ===== src/Uql/Validate.antt =====
-- `UQLQuery.Validate` (internal/models/unified_query_language.go). The result is the text of the error,
-- or none.
use Prim.Native.String.{◌++◌ as ◌+++◌}
use mirador_core.Prelude.{
  Bool, true, false, Option, none, some, List, [], ◌∷◌, String, if◌then◌else◌, ◌==◌, string_keys,
}
use mirador_core.Uql.Syntax.{
  UqlQuery, UqlSelect, UqlCorrelation, UqlAggregation, UqlJoin, UqlQueryType, type_select,
  type_correlation, type_aggregation, type_join, type_other,
}
use mirador_core.Uql.Text.{engine_text}

abbrev pub is_empty {ℓ} : {A : Type ℓ} → List A → Bool
is_empty [] = true
is_empty (_ ∷ _) = false

module _ {V : Type 0} where
  unfoldable pub validate_select : Option (UqlSelect V) → Option String
  validate_select none = some "missing select clause"
  validate_select (some s) =
      if is_empty s.fields
      then some "select must have at least one field"
      else if engine_text s.data_source.engine == ""
      then some "missing data source engine"
      else none

  unfoldable pub validate_correlation : Option (UqlCorrelation V) → Option String
  validate_correlation none = some "missing correlation clause"
  validate_correlation (some c) =
      if c.left_expression.expression_type == ""
      then some "missing left expression in correlation"
      else if c.right_expression.expression_type == ""
      then some "missing right expression in correlation"
      else none

  unfoldable pub validate_aggregation : Option (UqlAggregation V) → Option String
  validate_aggregation none = some "missing aggregation clause"
  validate_aggregation (some a) =
      if a.agg_function == ""
      then some "missing aggregation function"
      else if engine_text a.agg_source.engine == ""
      then some "missing data source engine"
      else none

  unfoldable pub validate_join : Option (UqlJoin V) → Option String
  validate_join none = some "missing join clause"
  validate_join (some j) =
      if j.left.expression_type == ""
      then some "missing left expression in join"
      else if j.right.expression_type == ""
      then some "missing right expression in join"
      else none

  unfoldable pub validate_clause : UqlQueryType → UqlQuery V → Option String
  unfolding validate_select validate_correlation validate_aggregation validate_join
  validate_clause type_select q = validate_select q.select
  validate_clause type_correlation q = validate_correlation q.correlation
  validate_clause type_aggregation q = validate_aggregation q.aggregation
  validate_clause type_join q = validate_join q.join
  validate_clause (type_other t) q = some ("unknown query type: " +++ t)

  unfoldable pub validate : UqlQuery V → Option String
  unfolding validate_clause
  validate q = if q.raw_query == "" then some "empty query" else validate_clause q.query_type q
