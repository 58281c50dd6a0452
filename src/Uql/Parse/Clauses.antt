-- ===== src/Uql/Parse/Clauses.antt =====
-- The parsers of the parts of a query.
use Prim.Native.String.{◌++◌ as ◌+++◌, len, slice}
use mirador_core.Prelude.{
  ◌+◌, ◌-◌, Bool, not, Option, none, some, List, [], ◌∷◌, String, if◌then◌else◌, ◌==◌, string_keys,
  map, keep,
}
use mirador_core.Uql.Outcome.{Outcome, done, failed, ◌>>=◌, ◌>>◌, reject_if}
use mirador_core.Uql.Syntax.{
  UqlField, UqlDataSource, UqlOrderBy, UqlEngine, engine_metrics, engine_logs, engine_traces,
  engine_correlation, dir_asc, dir_desc, UqlExpression,
}
use mirador_core.Uql.Parse.Texts.{
  TextLibrary, has_suffix, last_index, from, split_commas, cut_colon, match_call,
}

abbrev pub is_text : String → Bool
is_text s = not (s == "")

-- The engine of a name in lower case.
abbrev pub engine_named : String → Option UqlEngine
engine_named name =
    if name == "metrics"
    then some engine_metrics
    else if name == "logs"
    then some engine_logs
    else if name == "traces"
    then some engine_traces
    else if name == "correlation"
    then some engine_correlation
    else none

module _ {F : Type 0} (lib : TextLibrary F) where
  abbrev pub known_engine : String → Outcome UqlEngine
  known_engine name = elim (engine_named (lib.to_lower name)) [
    | none ↦ failed ("unknown engine: " +++ name)
    | some engine ↦ done engine
  ]

  -- The two parts around the first colon.
  abbrev pub two_parts : String → String → Outcome (String × String)
  two_parts message s = elim (cut_colon s) [
    | none ↦ failed (message +++ s)
    | some parts ↦ done parts
  ]

  unfoldable pub parse_data_source : String → Outcome UqlDataSource
  unfolding cut_colon
  parse_data_source ds = do
    parts ← two_parts "invalid data source format: " ds
    reject_if (lib.trim parts.1 == "") ("empty query part in data source: " +++ ds)
    engine ← known_engine parts.0
    done (record { engine = engine; query = parts.1 })

  unfoldable pub parse_single_expression : String → Outcome UqlExpression
  unfolding cut_colon
  parse_single_expression expr = do
    parts ← two_parts "missing engine prefix in expression: " (lib.trim expr)
    engine ← known_engine parts.0
    done (record {
      expression_type = "data_source";
      source = some (record { engine = engine; query = parts.1 });
    })

  -- The text and the alias of a field.
  abbrev pub split_alias : String → String × String
  split_alias s = elim (last_index (lib.to_upper s) " AS ") [
    | none ↦ (s, "")
    | some i ↦ (lib.trim (slice s 0 i), lib.trim (from s (i + 4)))
  ]

  unfoldable pub parse_field : String → UqlField
  unfolding last_index match_call
  parse_field s =
      let (text, alias) = split_alias (lib.trim s) in
      elim (match_call text) [
        | none ↦ record { name = text; function = ""; alias = alias; arguments = [] }
        | some call ↦ record {
          name = call.arguments;
          function = lib.to_upper call.name;
          alias = alias;
          arguments = map (λ a. lib.trim a) (split_commas call.arguments);
        }
      ]

  -- The parts between commas, trimmed, without the empty ones.
  abbrev pub comma_parts : String → List String
  comma_parts s = keep is_text (map (λ p. lib.trim p) (split_commas s))

  abbrev pub given_fields : List UqlField → Outcome (List UqlField)
  given_fields [] = failed "no valid fields found in SELECT clause"
  given_fields (f ∷ fields) = done (f ∷ fields)

  unfoldable pub parse_select_fields : String → Outcome (List UqlField)
  unfolding parse_field split_commas
  parse_select_fields s = do
    let text = lib.trim s
    reject_if (text == "") "missing fields in SELECT clause"
    (if text == "*"
        then done (record { name = "*"; function = ""; alias = ""; arguments = [] } ∷ [])
        else given_fields (map parse_field (comma_parts text)))

  unfoldable pub parse_group_by : String → List String
  unfolding split_commas
  parse_group_by s = comma_parts s

  unfoldable pub parse_order_by_part : String → UqlOrderBy
  unfolding has_suffix
  parse_order_by_part part =
      if has_suffix (lib.to_upper part) " DESC"
      then record { field = lib.trim (slice part 0 (len part - 5)); direction = dir_desc }
      else if has_suffix (lib.to_upper part) " ASC"
      then record { field = lib.trim (slice part 0 (len part - 4)); direction = dir_asc }
      else record { field = part; direction = dir_asc }

  unfoldable pub parse_order_by : String → List UqlOrderBy
  unfolding split_commas parse_order_by_part
  parse_order_by s = map parse_order_by_part (comma_parts s)
