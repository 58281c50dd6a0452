-- ===== src/Uql/Text.antt =====
-- The texts behind the names of unified_query_language.go, and the texts that the standard library makes
-- of values: `%v` of a value or a duration and `%d` of an integer, which are parameters.
use Prim.Native.String.{◌++◌ as ◌+++◌}
use mirador_core.Prelude.{String, List, [], ◌∷◌}
use mirador_core.Prelude.Int.{ℤ}
use mirador_core.Uql.Syntax.{
  UqlOperator, op_and, op_or, op_not, op_eq, op_neq, op_lt, op_le, op_gt, op_ge, op_like, op_match,
  op_within, op_near, op_before, op_after, op_join, op_on, op_other, UqlEngine, engine_metrics,
  engine_logs, engine_traces, engine_correlation, engine_other, UqlQueryType, type_select,
  type_correlation, type_aggregation, type_join, type_other, UqlJoinType, join_inner, join_left,
  join_right, join_full, join_time, join_other, UqlDirection, dir_asc, dir_desc, dir_other,
}

pub record Formats (V : Type 0) : Type 0 where
  pub show_value : V → String
  pub show_duration : ℤ → String
  pub show_number : ℤ → String

abbrev pub operator_text : UqlOperator → String
operator_text op_and = "AND"
operator_text op_or = "OR"
operator_text op_not = "NOT"
operator_text op_eq = "="
operator_text op_neq = "!="
operator_text op_lt = "<"
operator_text op_le = "<="
operator_text op_gt = ">"
operator_text op_ge = ">="
operator_text op_like = "LIKE"
operator_text op_match = "MATCH"
operator_text op_within = "WITHIN"
operator_text op_near = "NEAR"
operator_text op_before = "BEFORE"
operator_text op_after = "AFTER"
operator_text op_join = "JOIN"
operator_text op_on = "ON"
operator_text (op_other text) = text

abbrev pub engine_text : UqlEngine → String
engine_text engine_metrics = "metrics"
engine_text engine_logs = "logs"
engine_text engine_traces = "traces"
engine_text engine_correlation = "correlation"
engine_text (engine_other text) = text

abbrev pub query_type_text : UqlQueryType → String
query_type_text type_select = "select"
query_type_text type_correlation = "correlation"
query_type_text type_aggregation = "aggregation"
query_type_text type_join = "join"
query_type_text (type_other text) = text

abbrev pub join_type_text : UqlJoinType → String
join_type_text join_inner = "INNER"
join_type_text join_left = "LEFT"
join_type_text join_right = "RIGHT"
join_type_text join_full = "FULL"
join_type_text join_time = "TIME"
join_type_text (join_other text) = text

abbrev pub direction_text : UqlDirection → String
direction_text dir_asc = "ASC"
direction_text dir_desc = "DESC"
direction_text (dir_other text) = text

-- `strings.Join`.
unfoldable pub join_texts : String → List String → String
join_texts separator [] = ""
join_texts separator (t ∷ []) = t
join_texts separator (t ∷ u ∷ ts) = t +++ (separator +++ join_texts separator (u ∷ ts))

-- `%v` of a list of texts.
abbrev pub list_text : List String → String
list_text ts = "[" +++ (join_texts " " ts +++ "]")
