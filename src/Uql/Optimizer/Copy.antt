-- ===== src/Uql/Optimizer/Copy.antt =====
-- The copies that the optimizer works on.
use mirador_core.Prelude.{◌≡◌, refl, sym, Option, none, some}
use mirador_core.Uql.Syntax.{
  UqlQuery, UqlSelect, UqlCorrelation, UqlAggregation, UqlCondition, no_condition, condition,
  UqlQueryType, type_select, type_correlation, type_aggregation, type_join, type_other,
}

-- A clause that is given is copied.
abbrev pub copy_given {ℓ} : {A : Type ℓ} → (A → A) → Option A → Option A
copy_given copy none = none
copy_given copy (some a) = some (copy a)

module _ {V : Type 0} where
  unfoldable pub deep_copy_condition : UqlCondition V → UqlCondition V
  deep_copy_condition no_condition = no_condition
  deep_copy_condition (condition field operator value and or) =
      condition field operator value (deep_copy_condition and) (deep_copy_condition or)

  unfoldable pub deep_copy_select : UqlSelect V → UqlSelect V
  unfolding deep_copy_condition
  deep_copy_select s = record {
    fields = s.fields;
    data_source = s.data_source;
    filter = deep_copy_condition s.filter;
    group_by = s.group_by;
    having = deep_copy_condition s.having;
  }

  unfoldable pub deep_copy_correlation : UqlCorrelation V → UqlCorrelation V
  unfolding deep_copy_condition
  deep_copy_correlation c = record {
    left_expression = c.left_expression;
    right_expression = c.right_expression;
    operator = c.operator;
    time_window = c.time_window;
    join_condition = deep_copy_condition c.join_condition;
  }

  unfoldable pub deep_copy_aggregation : UqlAggregation V → UqlAggregation V
  unfolding deep_copy_condition
  deep_copy_aggregation a = record {
    agg_function = a.agg_function;
    agg_field = a.agg_field;
    agg_source = a.agg_source;
    agg_filter = deep_copy_condition a.agg_filter;
    agg_group_by = a.agg_group_by;
    agg_arguments = a.agg_arguments;
  }

  -- The cases of the switch: only the clause of the query's type is copied, and a join is not.
  unfoldable pub copied_select : UqlQueryType → Option (UqlSelect V) → Option (UqlSelect V)
  unfolding deep_copy_select
  copied_select type_select s = copy_given deep_copy_select s
  copied_select _ s = none

  unfoldable pub copied_correlation :
      UqlQueryType → Option (UqlCorrelation V) → Option (UqlCorrelation V)
  unfolding deep_copy_correlation
  copied_correlation type_correlation c = copy_given deep_copy_correlation c
  copied_correlation _ c = none

  unfoldable pub copied_aggregation :
      UqlQueryType → Option (UqlAggregation V) → Option (UqlAggregation V)
  unfolding deep_copy_aggregation
  copied_aggregation type_aggregation a = copy_given deep_copy_aggregation a
  copied_aggregation _ a = none

  unfoldable pub deep_copy_query : UqlQuery V → UqlQuery V
  unfolding copied_select copied_correlation copied_aggregation
  deep_copy_query q = record {
    query_type = q.query_type;
    raw_query = q.raw_query;
    select = copied_select q.query_type q.select;
    correlation = copied_correlation q.query_type q.correlation;
    aggregation = copied_aggregation q.query_type q.aggregation;
    join = none;
    window = q.window;
    limit = q.limit;
    order_by = q.order_by;
  }

  -- The clauses of the other types are not there.
  abbrev pub OnlyClause : UqlQueryType → UqlQuery V → Type 0
  OnlyClause type_select q = (q.correlation ≡ none) × (q.aggregation ≡ none)
  OnlyClause type_correlation q = (q.select ≡ none) × (q.aggregation ≡ none)
  OnlyClause type_aggregation q = (q.select ≡ none) × (q.correlation ≡ none)
  OnlyClause type_join q = (q.select ≡ none) × (q.correlation ≡ none) × (q.aggregation ≡ none)
  OnlyClause (type_other _) q = (q.select ≡ none) × (q.correlation ≡ none) × (q.aggregation ≡ none)

  -- A query holds the clause of its type and no other, as the parser builds it, and is no join.
  abbrev pub IsSingle : UqlQuery V → Type 0
  IsSingle q = (q.join ≡ none) × OnlyClause q.query_type q

  deep_copy_condition-eq : (c : UqlCondition V) → deep_copy_condition c ≡ c
  unfolding deep_copy_condition
  deep_copy_condition-eq no_condition = refl
  deep_copy_condition-eq (condition field operator value and or) =
      simp (deep_copy_condition-eq and, deep_copy_condition-eq or)

  copied_select-eq : (s : Option (UqlSelect V)) → copied_select type_select s ≡ s
  unfolding copied_select deep_copy_select
  copied_select-eq none = refl
  copied_select-eq (some s) =
      simp (deep_copy_condition-eq s.filter, deep_copy_condition-eq s.having)

  copied_correlation-eq :
      (c : Option (UqlCorrelation V)) → copied_correlation type_correlation c ≡ c
  unfolding copied_correlation deep_copy_correlation
  copied_correlation-eq none = refl
  copied_correlation-eq (some c) = simp (deep_copy_condition-eq c.join_condition)

  copied_aggregation-eq :
      (a : Option (UqlAggregation V)) → copied_aggregation type_aggregation a ≡ a
  unfolding copied_aggregation deep_copy_aggregation
  copied_aggregation-eq none = refl
  copied_aggregation-eq (some a) = simp (deep_copy_condition-eq a.agg_filter)

  clauses-eq :
      (t : UqlQueryType) (q : UqlQuery V)
      → OnlyClause t q
      → (copied_select t q.select ≡ q.select)
        × (copied_correlation t q.correlation ≡ q.correlation)
        × (copied_aggregation t q.aggregation ≡ q.aggregation)
  unfolding copied_select copied_correlation copied_aggregation
  clauses-eq type_select q only = (copied_select-eq q.select, sym only.0, sym only.1)
  clauses-eq type_correlation q only = (sym only.0, copied_correlation-eq q.correlation, sym only.1)
  clauses-eq type_aggregation q only = (sym only.0, sym only.1, copied_aggregation-eq q.aggregation)
  clauses-eq type_join q only = (sym only.0, sym only.1, sym only.2)
  clauses-eq (type_other _) q only = (sym only.0, sym only.1, sym only.2)

  -- The copy of a query that holds the clause of its type only, and is no join, is that query.
  pub deep_copy_query_lem : (q : UqlQuery V) → IsSingle q → deep_copy_query q ≡ q
  unfolding deep_copy_query
  deep_copy_query_lem q (no_join, only) =
      let (s, c, a) = clauses-eq q.query_type q only in cc (s, c, a, no_join)
