-- ===== src/Uql/Parse/Laws.antt =====
-- What the parser promises of the queries that it returns.
use Prim.Native.String.{◌++◌ as ◌+++◌, slice}
use mirador_core.Prelude.{
  ℕ, ◌+◌, ◌≡◌, refl, ap, ◌∙◌, Bool, true, false, not, Option, none, some, List, [], ◌∷◌, String,
  if◌then◌else◌, ◌==◌, string_keys, Bool-cases, inl, inr, ◌⊎◌, contains, eq_of_same,
}
use mirador_core.Uql.Outcome.{OnDone, bind_lem, bind_any, bind_wrapped, OnDone-trans}
use mirador_core.Uql.Syntax.{UqlQuery, UqlOperator, op_and, op_or}
use mirador_core.Uql.Text.{operator_text}
use mirador_core.Uql.Validate.{validate_clause, validate_select, validate_aggregation, validate}
use mirador_core.Uql.Optimizer.Copy.{IsSingle}
use mirador_core.Uql.Plan.Validity.{HasSources}
use mirador_core.Uql.Parse.Texts.{TextLibrary, index, has_prefix}
use mirador_core.Uql.Parse.Conditions.{UqlValue}
use mirador_core.Uql.Parse.Select.{parse_select_query, find_clause_end}
use mirador_core.Uql.Parse.Queries.{
  functions, parse, parse_aggregation_query, is_correlation_query, is_aggregation_query,
}
use mirador_core.Uql.Parse.Correlations.{
  parse_correlation_query, parse_windowed, parse_time_window_correlation, parse_simple_correlation,
  parse_pair, parse_single, window_operators,
}
use mirador_core.Uql.Parse.Parts.{
  accepted_if, HasEngine, data_source-HasEngine, HasFields, select_fields-HasFields, IsOneSided,
  IsParsed, pair-IsParsed, window-IsParsed, single-IsParsed,
}

module _ {F : Type 0} (lib : TextLibrary F) where
  simple-IsParsed : (query : String) → OnDone (IsParsed query) (parse_simple_correlation lib query)
  unfolding parse_simple_correlation
  simple-IsParsed query =
      go (index (lib.to_upper query) " OR ") (index (lib.to_upper query) " AND ")
    where
      go :
          (o a : Option ℕ)
          → OnDone (IsParsed query) (elim o [
            | some i ↦ parse_pair lib query i op_or 4
            | none ↦ elim a [
              | some i ↦ parse_pair lib query i op_and 5
              | none ↦ parse_single lib query
            ]
          ])
      go (some i) a = pair-IsParsed lib query i op_or 4
      go none (some i) = pair-IsParsed lib query i op_and 5
      go none none = single-IsParsed lib query

  windowed-IsParsed :
      (ops : List UqlOperator) (query : String)
      → OnDone (IsParsed query) (parse_windowed lib ops query)
  unfolding parse_windowed
  windowed-IsParsed [] query = simple-IsParsed query
  windowed-IsParsed (op ∷ ops) query =
      go (index (lib.to_upper query) (" " +++ (operator_text op +++ " ")))
        (windowed-IsParsed ops query)
    where
      go :
          (o : Option ℕ)
          → OnDone (IsParsed query) (parse_windowed lib ops query)
          → OnDone (IsParsed query) (elim o [
            | some i ↦ parse_time_window_correlation lib query i op
            | none ↦ parse_windowed lib ops query
          ])
      go (some i) h = window-IsParsed lib query i op
      go none h = h

  function-IsText : (f : String) → not (contains f functions) ≡ false → (f == "") ≡ false
  function-IsText f h = elim (Bool-cases (f == "")) [
    | inl empty ↦ cc (ap (λ t. not (contains t functions)) (eq_of_same f "" empty), h)
    | inr text ↦ text
  ]

  aggregation-IsParsed :
      (query : String) → OnDone (IsParsed query) (parse_aggregation_query lib query)
  unfolding parse_aggregation_query validate_clause validate_aggregation
  aggregation-IsParsed query = bind_any (IsParsed query) _ _ (λ m.
      bind_lem (λ _. not (contains (lib.to_upper m.0.name) functions) ≡ false) (IsParsed query) _ _
        (accepted_if _ _)
        (λ _ known. bind_any (IsParsed query) _ _ (λ _.
          bind_lem HasEngine (IsParsed query) _ _ (data_source-HasEngine lib m.1) (λ source engine.
            (
              (refl, (refl, (refl, refl))),
              inl (rw (function-IsText (lib.to_upper m.0.name) known, engine) refl, tt),
            )))))

  select-IsParsed : (query : String) → OnDone (IsParsed query) (parse_select_query lib query)
  unfolding parse_select_query validate_clause validate_select
  select-IsParsed query = bind_any (IsParsed query) _ _ (λ select_at.
      bind_any (IsParsed query) _ _ (λ from_at. bind_any (IsParsed query) _ _ (λ _.
        bind_wrapped HasFields (IsParsed query) _ _ _ (select_fields-HasFields lib _)
          (λ fields some_field.
            bind_wrapped HasEngine (IsParsed query) _ _ _
              (data_source-HasEngine lib (
                lib.trim (
                  slice query (from_at + 6) (
                    find_clause_end lib query (from_at + 6)
                      ("WHERE" ∷ "GROUP" ∷ "ORDER" ∷ "LIMIT" ∷ "HAVING" ∷ [])))))
              (λ source engine. bind_any (IsParsed query) _ _ (λ filtered.
                bind_any (IsParsed query) _ _ (λ grouped. bind_any (IsParsed query) _ _ (λ had.
                  bind_any (IsParsed query) _ _ (λ ordered. bind_any (IsParsed query) _ _ (λ limit.
                    bind_any (IsParsed query) _ _ (λ _. (
                      (refl, (refl, (refl, refl))),
                      inl (rw (some_field, engine) refl, tt),
                    ))))))))))))

  correlation-IsParsed :
      (query : String) → OnDone (IsParsed query) (parse_correlation_query lib query)
  unfolding parse_correlation_query
  correlation-IsParsed query = windowed-IsParsed window_operators query

  chosen-IsParsed :
      (query : String) (s c a : Bool)
      → OnDone (IsParsed query) (
          if s
          then parse_select_query lib query
          else if c
          then parse_correlation_query lib query
          else if a
          then parse_aggregation_query lib query
          else parse_correlation_query lib query)
  chosen-IsParsed query true c a = select-IsParsed query
  chosen-IsParsed query false true a = correlation-IsParsed query
  chosen-IsParsed query false false true = aggregation-IsParsed query
  chosen-IsParsed query false false false = correlation-IsParsed query

  -- The query holds the text and the clause of its type only. It is valid, both sides of a correlation
  -- being data sources, unless it is a correlation of one side.
  abbrev pub IsWellParsed : String → UqlQuery (UqlValue F) → Type 0
  IsWellParsed query q =
      (q.raw_query ≡ query)
      × IsSingle q
      × (((validate q ≡ none) × HasSources q.correlation) ⊎ IsOneSided q)

  IsParsed-IsWellParsed :
      (query : String) (q : UqlQuery (UqlValue F))
      → (query == "") ≡ false
      → IsParsed query q
      → IsWellParsed query q
  unfolding validate
  IsParsed-IsWellParsed query q given (held, inl complete) =
      (held.0, held.1, inl (rw (validate, ap (λ t. t == "") held.0 ∙ given) complete.0, complete.1))
  IsParsed-IsWellParsed query q given (held, inr one) = (held.0, held.1, inr one)

  -- A query that `Parse` returns for a text holds the text without the blanks around it, and the clause of
  -- its type only. It is valid, and both sides of a correlation are data sources, unless it is a
  -- correlation of one side.
  pub parse-IsWellParsed : (text : String) → OnDone (IsWellParsed (lib.trim text)) (parse lib text)
  unfolding parse
  parse-IsWellParsed text =
      bind_lem (λ _. (lib.trim text == "") ≡ false) (IsWellParsed (lib.trim text)) _ _
        (accepted_if _ _)
        (λ _ given.
          OnDone-trans (IsParsed (lib.trim text)) (IsWellParsed (lib.trim text)) _
            (λ q. IsParsed-IsWellParsed (lib.trim text) q given)
            (chosen-IsParsed (lib.trim text) (has_prefix (lib.to_upper (lib.trim text)) "SELECT")
              (is_correlation_query lib (lib.trim text))
              (is_aggregation_query lib (lib.trim text))))
