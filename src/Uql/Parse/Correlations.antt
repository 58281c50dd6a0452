-- ===== src/Uql/Parse/Correlations.antt =====
-- The parsers of correlations and of their windows.
use Prim.Native.Char.{code}
use Prim.Native.String.{◌++◌ as ◌+++◌, len, slice}
use mirador_core.Prelude.{
  ℕ, ◌+◌, ◌*◌, ◌%◌, ◌^◌, Bool, true, ◌&&◌, not, Option, none, some, List, [], ◌∷◌, String,
  if◌then◌else◌, ◌==◌, string_keys, ◌=ℕ◌, ltb, ◌-◌,
}
use mirador_core.Prelude.Int.{ℤ, pos, negsuc}
use mirador_core.Uql.Outcome.{Outcome, done, failed, ◌>>=◌, wrap_error}
use mirador_core.Uql.Syntax.{
  UqlQuery, UqlExpression, UqlOperator, op_within, op_near, op_before, op_after, op_and, op_or,
  op_other, no_condition, UqlCorrelation, type_correlation,
}
use mirador_core.Uql.Text.{operator_text}
use mirador_core.Uql.Optimizer.Windows.{minute}
use mirador_core.Uql.Parse.Texts.{TextLibrary, index, from, span, is_digit, is_word}
use mirador_core.Uql.Parse.Clauses.{parse_single_expression}
use mirador_core.Uql.Parse.Conditions.{UqlValue}

-- The nanoseconds of a unit of time.
abbrev pub unit_nanos : ℕ → Option ℕ
unit_nanos c =
    if c =ℕ b's'
    then some 1_000_000_000
    else if c =ℕ b'm'
    then some minute
    else if c =ℕ b'h'
    then some (60 * minute)
    else if c =ℕ b'd'
    then some (1440 * minute)
    else none

-- The product of a duration, in 64 bits.
abbrev pub wrap_duration : ℕ → ℤ
wrap_duration n =
    let low = n % 2 ^ 64 in if ltb low (2 ^ 63) then pos low else negsuc (2 ^ 64 - 1 - low)

-- `\b` after a letter.
abbrev pub at_word_end : String → Bool
at_word_end String.[] = true
at_word_end (String.◌∷◌ c s) = not (is_word (code c))

-- `^(\d+)([smhd])\b`: the digits, the nanoseconds of the unit and the rest.
abbrev pub unit_of : String → String → Option (String × ℕ × String)
unit_of digits String.[] = none
unit_of digits (String.◌∷◌ c s) = elim (unit_nanos (code c)) [
  | none ↦ none
  | some nanos ↦ if not (digits == "") && at_word_end s then some (digits, nanos, s) else none
]

unfoldable pub match_window : String → Option (String × ℕ × String)
unfolding span
match_window s = let (digits, rest) = span is_digit s in unit_of digits rest

abbrev pub window_operators : List UqlOperator
window_operators = op_within ∷ op_near ∷ op_before ∷ op_after ∷ []

abbrev pub no_expression : UqlExpression
no_expression = record { expression_type = ""; source = none }

module _ {F : Type 0} (lib : TextLibrary F) where
  -- The product of the value by the nanoseconds of the unit; the digits are a number that is not negative.
  abbrev pub times_nanos : ℤ → ℕ → ℤ
  times_nanos (pos n) nanos = wrap_duration (n * nanos)
  times_nanos (negsuc n) nanos = negsuc n

  abbrev pub window_number : String → Outcome ℤ
  window_number digits = elim (lib.atoi digits) [
    | none ↦ failed ("invalid time value: " +++ digits)
    | some n ↦ done n
  ]

  abbrev pub matched_window : String → Outcome (String × ℕ × String)
  matched_window input = elim (match_window input) [
    | none ↦ failed ("invalid time window format: " +++ input)
    | some m ↦ done m
  ]

  -- The window and what is left of the text.
  unfoldable pub parse_time_window : String → Outcome (ℤ × String)
  unfolding match_window
  parse_time_window text = do
    m ← matched_window (lib.trim text)
    n ← window_number m.0
    done (times_nanos n m.1, lib.trim m.2)

  abbrev pub correlation_of : String → UqlCorrelation (UqlValue F) → UqlQuery (UqlValue F)
  correlation_of query c = record {
    query_type = type_correlation;
    raw_query = query;
    select = none;
    correlation = some c;
    aggregation = none;
    join = none;
    window = none;
    limit = none;
    order_by = [];
  }

  unfoldable pub parse_time_window_correlation :
      String → ℕ → UqlOperator → Outcome (UqlQuery (UqlValue F))
  unfolding parse_time_window parse_single_expression
  parse_time_window_correlation query i op = do
    window ←
        wrap_error "invalid time window: "
          (parse_time_window (from query (i + len (" " +++ (operator_text op +++ " ")))))
    left ← parse_single_expression lib (slice query 0 i)
    right ← parse_single_expression lib window.1
    done (
        correlation_of query (record {
          left_expression = left;
          right_expression = right;
          operator = op;
          time_window = some window.0;
          join_condition = no_condition;
        }))

  unfoldable pub parse_pair : String → ℕ → UqlOperator → ℕ → Outcome (UqlQuery (UqlValue F))
  unfolding parse_single_expression
  parse_pair query i op width = do
    left ← parse_single_expression lib (slice query 0 i)
    right ← parse_single_expression lib (from query (i + width))
    done (
        correlation_of query (record {
          left_expression = left;
          right_expression = right;
          operator = op;
          time_window = none;
          join_condition = no_condition;
        }))

  unfoldable pub parse_single : String → Outcome (UqlQuery (UqlValue F))
  unfolding parse_single_expression
  parse_single query = do
    left ← parse_single_expression lib query
    done (
        correlation_of query (record {
          left_expression = left;
          right_expression = no_expression;
          operator = op_other "";
          time_window = none;
          join_condition = no_condition;
        }))

  unfoldable pub parse_simple_correlation : String → Outcome (UqlQuery (UqlValue F))
  unfolding parse_pair parse_single index
  parse_simple_correlation query = elim (index (lib.to_upper query) " OR ") [
    | some i ↦ parse_pair query i op_or 4
    | none ↦ elim (index (lib.to_upper query) " AND ") [
      | some i ↦ parse_pair query i op_and 5
      | none ↦ parse_single query
    ]
  ]

  -- The first of the operators that stands in the query, in the order in which they are tried.
  unfoldable pub parse_windowed : List UqlOperator → String → Outcome (UqlQuery (UqlValue F))
  unfolding parse_time_window_correlation parse_simple_correlation index
  parse_windowed [] query = parse_simple_correlation query
  parse_windowed (op ∷ ops) query =
      let rest = parse_windowed ops query in
      elim (index (lib.to_upper query) (" " +++ (operator_text op +++ " "))) [
        | some i ↦ parse_time_window_correlation query i op
        | none ↦ rest
      ]

  unfoldable pub parse_correlation_query : String → Outcome (UqlQuery (UqlValue F))
  unfolding parse_windowed
  parse_correlation_query query = parse_windowed window_operators query
