-- ===== src/Uql/Parse/Parts.antt =====
-- What the parsers of the parts of a query promise.
use Prim.Native.String.{◌++◌ as ◌+++◌}
use mirador_core.Prelude.{
  ℕ, ◌≡◌, refl, Bool, true, false, Option, none, some, List, [], ◌∷◌, String, if◌then◌else◌, ◌==◌,
  string_keys, arith, inl, inr, ◌⊎◌, map,
}
use mirador_core.Prelude.Int.{ℤ}
use mirador_core.Uql.Outcome.{done, failed, reject_if, OnDone, bind_lem, bind_any}
use mirador_core.Uql.Syntax.{
  UqlQuery, UqlField, UqlDataSource, UqlExpression, UqlOperator, UqlEngine, engine_metrics,
  engine_logs, engine_traces, engine_correlation, engine_other, UqlCorrelation, no_condition,
}
use mirador_core.Uql.Text.{engine_text}
use mirador_core.Uql.Validate.{validate_clause, validate_correlation, is_empty}
use mirador_core.Uql.Optimizer.Copy.{IsSingle}
use mirador_core.Uql.Plan.Defs.{is_given}
use mirador_core.Uql.Plan.Validity.{HasSources}
use mirador_core.Uql.Parse.Texts.{TextLibrary}
use mirador_core.Uql.Parse.Clauses.{
  engine_named, known_engine, parse_data_source, parse_single_expression, given_fields,
  parse_select_fields, parse_field, comma_parts,
}
use mirador_core.Uql.Parse.Conditions.{UqlValue}
use mirador_core.Uql.Parse.Correlations.{parse_time_window_correlation, parse_pair, parse_single}

pub accepted_if : (b : Bool) (message : String) → OnDone (λ _. b ≡ false) (reject_if b message)
accepted_if true message = tt
accepted_if false message = refl

abbrev pub HasEngine : UqlDataSource → Type 0
HasEngine s = (engine_text s.engine == "") ≡ false

abbrev pub IsSource : UqlExpression → Type 0
IsSource e = (e.expression_type ≡ "data_source") × (is_given e.source ≡ true)

pub named_engine :
    (name : String) (e : UqlEngine) → engine_named name ≡ some e → (engine_text e == "") ≡ false
named_engine name engine_metrics h = refl
named_engine name engine_logs h = refl
named_engine name engine_traces h = refl
named_engine name engine_correlation h = refl
named_engine name (engine_other t) h = ground (arith, h)

abbrev pub HasFields : List UqlField → Type 0
HasFields fields = is_empty fields ≡ false

module _ {F : Type 0} where
  -- A query that the parser returns for a text holds the text, and the clause of its type only.
  abbrev pub HoldsText : String → UqlQuery (UqlValue F) → Type 0
  HoldsText text q = (q.raw_query ≡ text) × IsSingle q

  -- Its clause is valid, and both sides of a correlation are data sources.
  abbrev pub IsComplete : UqlQuery (UqlValue F) → Type 0
  IsComplete q = (validate_clause q.query_type q ≡ none) × HasSources q.correlation

  -- A correlation that has one side only.
  abbrev pub IsOneSided : UqlQuery (UqlValue F) → Type 0
  IsOneSided q =
      (c : UqlCorrelation (UqlValue F)) × (q.correlation ≡ some c)
      × (c.right_expression.expression_type ≡ "")

  abbrev pub IsParsed : String → UqlQuery (UqlValue F) → Type 0
  IsParsed text q = HoldsText text q × (IsComplete q ⊎ IsOneSided q)

module _ {F : Type 0} (lib : TextLibrary F) where
  abbrev pub sides :
      UqlExpression → UqlExpression → UqlOperator → Option ℤ → UqlCorrelation (UqlValue F)
  sides l r op window = record {
    left_expression = l;
    right_expression = r;
    operator = op;
    time_window = window;
    join_condition = no_condition;
  }

  pub complete_pair :
      (l r : UqlExpression) (op : UqlOperator) (window : Option ℤ)
      → IsSource l
      → IsSource r
      → (validate_correlation (some (sides l r op window)) ≡ none)
        × HasSources (some (sides l r op window))
  unfolding validate_correlation
  complete_pair l r op window hl hr = (rw (hl.0, hr.0) refl, rw (hl.1, hr.1) refl)

  pub known_engine_lem :
      (name : String) → OnDone (λ e. (engine_text e == "") ≡ false) (known_engine lib name)
  known_engine_lem name = go (engine_named (lib.to_lower name)) refl
    where
      go :
          (o : Option UqlEngine)
          → engine_named (lib.to_lower name) ≡ o
          → OnDone
              (λ e. (engine_text e == "") ≡ false)
              (elim o [ none ↦ failed ("unknown engine: " +++ name) | some engine ↦ done engine ])
      go none h = tt
      go (some e) h = named_engine (lib.to_lower name) e h

  pub data_source-HasEngine : (s : String) → OnDone HasEngine (parse_data_source lib s)
  unfolding parse_data_source
  data_source-HasEngine s = bind_any HasEngine _ _ (λ parts. bind_any HasEngine _ _ (λ _.
      bind_lem (λ e. (engine_text e == "") ≡ false) HasEngine _ _ (known_engine_lem parts.0)
        (λ e h. h)))

  pub expression-IsSource : (s : String) → OnDone IsSource (parse_single_expression lib s)
  unfolding parse_single_expression
  expression-IsSource s =
      bind_any IsSource _ _ (λ parts. bind_any IsSource _ _ (λ engine. (refl, refl)))

  pub select_fields-HasFields : (s : String) → OnDone HasFields (parse_select_fields lib s)
  unfolding parse_select_fields
  select_fields-HasFields s =
      bind_any HasFields _ _
        (λ _. fields (lib.trim s == "*") (map (parse_field lib) (comma_parts lib (lib.trim s))))
    where
      fields :
          (b : Bool) (l : List UqlField)
          → OnDone HasFields (
              if b
              then done (record { name = "*"; function = ""; alias = ""; arguments = [] } ∷ [])
              else given_fields lib l)
      fields true l = refl
      fields false [] = tt
      fields false (f ∷ l) = refl

  pub pair-IsParsed :
      (query : String) (i : ℕ) (op : UqlOperator) (w : ℕ)
      → OnDone (IsParsed query) (parse_pair lib query i op w)
  unfolding parse_pair validate_clause
  pair-IsParsed query i op w =
      bind_lem IsSource (IsParsed query) _ _ (expression-IsSource _) (λ l hl.
        bind_lem IsSource (IsParsed query) _ _ (expression-IsSource _)
          (λ r hr. ((refl, (refl, (refl, refl))), inl (complete_pair l r op none hl hr))))

  pub window-IsParsed :
      (query : String) (i : ℕ) (op : UqlOperator)
      → OnDone (IsParsed query) (parse_time_window_correlation lib query i op)
  unfolding parse_time_window_correlation validate_clause
  window-IsParsed query i op = bind_any (IsParsed query) _ _ (λ window.
      bind_lem IsSource (IsParsed query) _ _ (expression-IsSource _) (λ l hl.
        bind_lem IsSource (IsParsed query) _ _ (expression-IsSource _) (λ r hr.
          ((refl, (refl, (refl, refl))), inl (complete_pair l r op (some window.0) hl hr)))))

  pub single-IsParsed : (query : String) → OnDone (IsParsed query) (parse_single lib query)
  unfolding parse_single
  single-IsParsed query =
      bind_any (IsParsed query) _ _ (λ l. ((refl, (refl, (refl, refl))), inr (_, refl, refl)))
