-- ===== src/Uql/Optimizer/Passes.antt =====
-- The optimization passes and their driver. No pass reports an error, and the parts of a pass that only
-- write to the log, or that are still empty, change neither the query nor the counts.
use mirador_core.Prelude.{
  ℕ, suc, ◌*◌, Bool, true, false, Option, none, some, List, [], ◌∷◌, String, if◌then◌else◌, GoMap,
  fetch, string_keys,
}
use mirador_core.Prelude.Int.{ℤ, pos, ltb_ℤ}
use mirador_core.Uql.Syntax.{
  UqlQuery, UqlSelect, UqlCorrelation, UqlAggregation, UqlJoin, UqlOperator, op_near, op_within,
  UqlQueryType, type_select, type_correlation, type_aggregation, type_join, type_other, join_time,
}
use mirador_core.Uql.Optimizer.Copy.{deep_copy_query}
use mirador_core.Uql.Optimizer.Windows.{minute, optimize_time_window}
use mirador_core.Uql.Optimizer.Fields.{optimize_field_selection, optimize_order_by, prune}

pub record OptimizationStats : Type 0 where
  pub query_rewrites : ℕ
  pub predicate_pushdowns : ℕ
  pub time_window_opt : ℕ
  pub join_optimizations : ℕ
  pub index_selections : ℕ
  pub cost_based_optimizations : ℕ
  pub execution_time : ℤ

-- The map of the passes that are enabled, and the counts.
pub record UqlOptimizer : Type 0 where
  pub enabled_opts : GoMap String Bool
  pub stats : OptimizationStats

unfoldable pub new_uql_optimizer : UqlOptimizer
new_uql_optimizer = record {
  enabled_opts =
      ("predicate_pushdown", true)
      ∷ ("query_rewrite", true)
      ∷ ("time_window_opt", true)
      ∷ ("field_pruning", true)
      ∷ ("constant_folding", true)
      ∷ ("join_optimization", true)
      ∷ ("index_selection", true)
      ∷ ("cost_based_opt", true)
      ∷ ("query_plan_caching", true)
      ∷ ("subquery_optimization", true)
      ∷ ("materialized_view_check", true)
      ∷ [];
  stats = record {
    query_rewrites = 0;
    predicate_pushdowns = 0;
    time_window_opt = 0;
    join_optimizations = 0;
    index_selections = 0;
    cost_based_optimizations = 0;
    execution_time = pos 0;
  };
}

abbrev pub Pass : Type 0 → Type 0
Pass V = UqlQuery V → OptimizationStats → UqlQuery V × OptimizationStats

-- `optimizeTimeWindow` at a window that is given, and the count of those.
abbrev pub optimize_given : Option ℤ → Option ℤ
optimize_given none = none
optimize_given (some w) = some (optimize_time_window w)

abbrev pub count_window : Option ℤ → OptimizationStats → OptimizationStats
count_window none st = st
count_window (some w) st = record st { time_window_opt = suc st.time_window_opt }

abbrev pub count_rewrite : OptimizationStats → OptimizationStats
count_rewrite st = record st { query_rewrites = suc st.query_rewrites }

-- NEAR becomes WITHIN in a window of less than five minutes.
abbrev pub faster_operator : Option ℤ → UqlOperator → UqlOperator
faster_operator (some w) op_near = if ltb_ℤ w (pos (5 * minute)) then op_within else op_near
faster_operator _ op = op

-- `o.enabledOpts[name]`, false on a missing key.
abbrev pub is_enabled : GoMap String Bool → String → Bool
is_enabled enabled name = elim (fetch enabled name) [ none ↦ false | some on ↦ on ]

-- A switch on the type of a query: SELECT, correlation, aggregation, JOIN, and the default.
abbrev pub on_type {ℓ} : {A : Type ℓ} → UqlQueryType → A → A → A → A → A → A
on_type type_select s c a j other = s
on_type type_correlation s c a j other = c
on_type type_aggregation s c a j other = a
on_type type_join s c a j other = j
on_type (type_other _) s c a j other = other

pub on_type-all {ℓ κ} :
    {A : Type ℓ} (P : A → Type κ) (t : UqlQueryType) {s c a j other : A}
    → P s
    → P c
    → P a
    → P j
    → P other
    → P (on_type t s c a j other)
on_type-all P type_select hs hc ha hj ho = hs
on_type-all P type_correlation hs hc ha hj ho = hc
on_type-all P type_aggregation hs hc ha hj ho = ha
on_type-all P type_join hs hc ha hj ho = hj
on_type-all P (type_other _) hs hc ha hj ho = ho

module _ {V : Type 0} where
  unfoldable pub optimize_correlation_window : Option (UqlCorrelation V) → Pass V
  optimize_correlation_window none q st = (q, st)
  optimize_correlation_window (some c) q st = (
    record q { correlation = some (record c { time_window = optimize_given c.time_window }) },
    count_window c.time_window st,
  )

  abbrev pub count_pushdown : Option (UqlSelect V) → OptimizationStats → OptimizationStats
  count_pushdown none st = st
  count_pushdown (some s) st = record st { predicate_pushdowns = suc st.predicate_pushdowns }

  unfoldable pub predicate_pushdown : Pass V
  unfolding optimize_correlation_window
  predicate_pushdown q st =
      on_type q.query_type (q, count_pushdown q.select st)
        (optimize_correlation_window q.correlation q st) (q, st) (q, st) (q, st)

  unfoldable pub rewrite_select_query : Option (UqlSelect V) → Pass V
  rewrite_select_query none q st = (q, st)
  rewrite_select_query (some s) q st = (
    record q {
      select = some (record s { fields = optimize_field_selection s.fields });
      order_by = optimize_order_by q.order_by;
    },
    count_rewrite st,
  )

  unfoldable pub optimize_correlation_operators : UqlCorrelation V → UqlCorrelation V
  optimize_correlation_operators c = record c {
    operator = faster_operator c.time_window c.operator;
  }

  unfoldable pub rewrite_correlation_query : Option (UqlCorrelation V) → Pass V
  unfolding optimize_correlation_operators
  rewrite_correlation_query none q st = (q, st)
  rewrite_correlation_query (some c) q st =
      (record q { correlation = some (optimize_correlation_operators c) }, count_rewrite st)

  unfoldable pub rewrite_aggregation_query : Option (UqlAggregation V) → Pass V
  rewrite_aggregation_query none q st = (q, st)
  rewrite_aggregation_query (some a) q st = (q, count_rewrite st)

  unfoldable pub query_rewrite : Pass V
  unfolding rewrite_select_query rewrite_correlation_query rewrite_aggregation_query
  query_rewrite q st =
      on_type q.query_type (rewrite_select_query q.select q st)
        (rewrite_correlation_query q.correlation q st)
        (rewrite_aggregation_query q.aggregation q st) (q, st) (q, st)

  abbrev pub optimize_own_window : Pass V
  optimize_own_window q st =
      (record q { window = optimize_given q.window }, count_window q.window st)

  unfoldable pub time_window_optimization : Pass V
  unfolding optimize_correlation_window
  time_window_optimization q st =
      let (q', st') = optimize_own_window q st in
      on_type q.query_type (q', st') (optimize_correlation_window q.correlation q' st') (q', st')
        (q', st') (q', st')

  abbrev pub prune_select : Option (UqlSelect V) → UqlQuery V → UqlQuery V
  prune_select none q = q
  prune_select (some s) q = record q { select = some (record s { fields = prune s q.order_by }) }

  unfoldable pub field_pruning : Pass V
  field_pruning q st =
      on_type q.query_type (prune_select q.select q, st) (q, st) (q, st) (q, st) (q, st)

  -- `selectJoinAlgorithm`.
  abbrev pub join_given : Option (UqlJoin V) → Pass V
  join_given none q st = (q, st)
  join_given (some j) q st = (
    record q { join = some (record j { join_type = join_time }) },
    record st { join_optimizations = suc st.join_optimizations },
  )

  unfoldable pub join_optimization : Pass V
  join_optimization q st =
      on_type q.query_type (q, st) (q, st) (q, st) (join_given q.join q st) (q, st)

  unfoldable pub index_selection : Pass V
  index_selection q st = (q, record st { index_selections = suc st.index_selections })

  unfoldable pub cost_based_optimization : Pass V
  cost_based_optimization q st =
      (q, record st { cost_based_optimizations = suc st.cost_based_optimizations })

  -- The passes that find nothing to do: folding, the cache of plans, which is always empty, subqueries
  -- and materialized views.
  unfoldable pub keep_query : Pass V
  keep_query q st = (q, st)

  unfoldable pub passes : List (String × Pass V)
  unfolding keep_query predicate_pushdown query_rewrite time_window_optimization field_pruning
      join_optimization index_selection cost_based_optimization
  passes =
      ("constant_folding", keep_query)
      ∷ ("predicate_pushdown", predicate_pushdown)
      ∷ ("query_rewrite", query_rewrite)
      ∷ ("time_window_opt", time_window_optimization)
      ∷ ("field_pruning", field_pruning)
      ∷ ("join_optimization", join_optimization)
      ∷ ("index_selection", index_selection)
      ∷ ("cost_based_opt", cost_based_optimization)
      ∷ ("query_plan_caching", keep_query)
      ∷ ("subquery_optimization", keep_query)
      ∷ ("materialized_view_check", keep_query)
      ∷ []

  unfoldable pub run_passes :
      GoMap String Bool
      → List (String × Pass V)
      → UqlQuery V
      → OptimizationStats
      → UqlQuery V × OptimizationStats
  run_passes enabled [] q st = (q, st)
  run_passes enabled (pass ∷ rest) q st =
      let (q', st') = if is_enabled enabled pass.0 then pass.1 q st else (q, st) in
      run_passes enabled rest q' st'

  -- `elapsed` is the time that the clock measures.
  unfoldable pub optimize : UqlOptimizer → ℤ → UqlQuery V → UqlQuery V × UqlOptimizer
  unfolding passes run_passes deep_copy_query
  optimize o elapsed q =
      let (optimized, st) = run_passes o.enabled_opts passes (deep_copy_query q) o.stats in
      (optimized, record o { stats = record st { execution_time = elapsed } })
