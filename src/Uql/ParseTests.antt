-- ===== src/Uql/ParseTests.antt =====
-- Queries to parse.
use mirador_core.Prelude.{
  ℕ, ◌+◌, ◌≡◌, refl, true, false, none, some, String, ◌==◌, string_keys, ◌⊎◌,
}
use mirador_core.Prelude.Int.{pos}
use mirador_core.Uql.Outcome.{done, failed, panicked, OnDone, IsDone, ◌>>=◌, wrap_error}
use mirador_core.Uql.Syntax.{UqlQuery, no_condition, condition, op_eq, op_other}
use mirador_core.Uql.Text.{Formats}
use mirador_core.Uql.Optimizer.Passes.{new_uql_optimizer, optimize}
use mirador_core.Uql.Plan.Defs.{Costs}
use mirador_core.Uql.Plan.Generate.{generate_query_plan}
use mirador_core.Uql.Parse.Texts.{TextLibrary}
use mirador_core.Uql.Parse.Conditions.{
  UqlValue, text_value, no_value, parse_condition, whole_condition, parse_value,
}
use mirador_core.Uql.Parse.Queries.{parse}
use mirador_core.Uql.Parse.Parts.{IsOneSided}
use mirador_core.Uql.Parse.Laws.{IsWellParsed, parse-IsWellParsed}
use mirador_core.Uql.Pipeline.{parse-optimize_plan}

-- A library for texts in upper case, without blanks at their ends or numbers but 10 and 5.
abbrev library : TextLibrary ℕ
library = record {
  trim = λ s. s;
  to_upper = λ s. s;
  to_lower = λ s. s;
  atoi = λ s. elim (s == "10") [
    | true ↦ some (pos 10)
    | false ↦ elim (s == "5") [ true ↦ some (pos 5) | false ↦ none ]
  ];
  atoi_error = λ s. "invalid syntax";
  parse_float = λ s. none;
  equal_fold = λ s t. s == t;
}

abbrev value_formats : Formats (UqlValue ℕ)
value_formats = record {
  show_value = λ v. "v";
  show_duration = λ d. "5m0s";
  show_number = λ n. "10";
}

abbrev plain_costs : Costs ℕ
plain_costs = record {
  whole = λ n. n;
  add_cost = λ a b. a + b;
  seven_tenths = λ n. n;
  nine_tenths = λ n. n;
}

abbrev select_text : String
select_text = "SELECT SERVICE FROM logs:error WHERE LEVEL='E' AND CODE='F' LIMIT 10"

parse-IsWellParsed_example : OnDone (IsWellParsed library select_text) (parse library select_text)
parse-IsWellParsed_example = parse-IsWellParsed library select_text

parse-optimize_plan_example :
    OnDone
      (λ (q : UqlQuery (UqlValue ℕ)).
        IsDone (
          generate_query_plan plain_costs value_formats new_uql_optimizer "query_1"
            (pos 5)
            (optimize new_uql_optimizer (pos 3) q).0)
        ⊎ IsOneSided q)
      (parse library select_text)
parse-optimize_plan_example =
    parse-optimize_plan library plain_costs value_formats new_uql_optimizer new_uql_optimizer
      (pos 3) "query_1" (pos 5) select_text

-- The condition on the left is gone.
left_dropped :
    whole_condition library "LEVEL='E' AND CODE='F'"
    ≡ done (
        condition ""
          (op_other "")
          no_value
          (condition "CODE" op_eq (text_value "F") no_condition no_condition)
          no_condition)
unfolding parse_condition ◌>>=◌
left_dropped = refl

lone_quote : parse_value library "'" ≡ panicked
unfolding parse_value
lone_quote = refl

select_parsed : OnDone (λ q. q.limit ≡ some (pos 10)) (parse library select_text)
unfolding parse ◌>>=◌ wrap_error
select_parsed = refl

-- The word OF of the grammar is taken for a part of the engine's name.
of_refused : parse library "logs:e WITHIN 5m OF metrics:c" ≡ failed "unknown engine:  OF metrics"
unfolding parse ◌>>=◌ wrap_error
of_refused = refl
