-- ===== src/Uql/Optimizer/Keeping.antt =====
-- Each pass of the optimizer, and `Optimize` itself, keeps what the query asks for.
use mathlib.Core.Path.{subst}
use mirador_core.Prelude.{
  ◌≡◌, refl, sym, Bool, Option, none, some, List, [], ◌∷◌, String, inl, inr, GoMap, string_keys,
  Bool-cases, All,
}
use mirador_core.Prelude.Int.{ℤ}
use mirador_core.Uql.Syntax.{UqlQuery, UqlSelect, UqlJoin, join_time}
use mirador_core.Uql.Optimizer.Copy.{IsSingle, deep_copy_query, deep_copy_query_lem}
use mirador_core.Uql.Optimizer.Fields.{prune}
use mirador_core.Uql.Optimizer.Passes.{
  UqlOptimizer, OptimizationStats, Pass, is_enabled, query_rewrite, time_window_optimization,
  field_pruning, prune_select, join_given, join_optimization, index_selection,
  cost_based_optimization, passes, run_passes, optimize, optimize_own_window, on_type-all,
}
use mirador_core.Uql.Optimizer.Refines.{
  Both, KeepsSelect, KeepsJoin, IsRefined, IsRefined-refl, IsRefined-trans, Keeps, select_refl,
  correlation_refl, join_refl, window_refl,
}
use mathlib.Core.List.Perm
use mirador_core.Uql.Optimizer.Rewrites.{
  optimize_given-window, prune_fields, keep_query-Keeps, correlation_window-Keeps,
  predicate_pushdown-Keeps, rewrite_select-Keeps, rewrite_correlation-Keeps,
  rewrite_aggregation-Keeps,
}

module _ {V : Type 0} where
  query_rewrite-Keeps : Keeps (query_rewrite {V = V})
  unfolding query_rewrite
  query_rewrite-Keeps q st =
      on_type-all (λ (r : UqlQuery V × OptimizationStats). IsRefined q r.0) q.query_type
        (rewrite_select-Keeps q.select q st refl)
        (rewrite_correlation-Keeps q.correlation q st refl)
        (rewrite_aggregation-Keeps q.aggregation q st) (IsRefined-refl q) (IsRefined-refl q)

  own_window-Keeps : Keeps (optimize_own_window {V = V})
  own_window-Keeps q st = (
    refl,
    refl,
    refl,
    refl,
    select_refl q.select,
    correlation_refl q.correlation,
    join_refl q.join,
    optimize_given-window q.window,
    Perm.refl q.order_by,
  )

  time_window-Keeps : Keeps (time_window_optimization {V = V})
  unfolding time_window_optimization
  time_window-Keeps q st =
      on_type-all (λ (r : UqlQuery V × OptimizationStats). IsRefined q r.0) q.query_type
        (own_window-Keeps q st)
        (IsRefined-trans q _ _ (own_window-Keeps q st) (
          correlation_window-Keeps q.correlation (optimize_own_window q st).0
            (optimize_own_window q st).1 refl))
        (own_window-Keeps q st) (own_window-Keeps q st) (own_window-Keeps q st)

  prune_select-Keeps :
      (s : Option (UqlSelect V)) (q : UqlQuery V) → q.select ≡ s → IsRefined q (prune_select s q)
  prune_select-Keeps none q at = IsRefined-refl q
  prune_select-Keeps (some s) q at = (
    refl,
    refl,
    refl,
    refl,
    subst (λ o. Both KeepsSelect o (some (record s { fields = prune s q.order_by }))) (sym at)
        (refl, refl, refl, refl, prune_fields s q.order_by),
    correlation_refl q.correlation,
    join_refl q.join,
    window_refl q.window,
    Perm.refl q.order_by,
  )

  field_pruning-Keeps : Keeps (field_pruning {V = V})
  unfolding field_pruning
  field_pruning-Keeps q st =
      on_type-all (λ (r : UqlQuery V × OptimizationStats). IsRefined q r.0) q.query_type
        (prune_select-Keeps q.select q refl) (IsRefined-refl q) (IsRefined-refl q)
        (IsRefined-refl q) (IsRefined-refl q)

  join_given-Keeps :
      (j : Option (UqlJoin V)) (q : UqlQuery V) (st : OptimizationStats)
      → q.join ≡ j
      → IsRefined q (join_given j q st).0
  join_given-Keeps none q st at = IsRefined-refl q
  join_given-Keeps (some j) q st at = (
    refl,
    refl,
    refl,
    refl,
    select_refl q.select,
    correlation_refl q.correlation,
    subst (λ o. Both KeepsJoin o (some (record j { join_type = join_time }))) (sym at)
        (refl, refl, refl, refl),
    window_refl q.window,
    Perm.refl q.order_by,
  )

  join_optimization-Keeps : Keeps (join_optimization {V = V})
  unfolding join_optimization
  join_optimization-Keeps q st =
      on_type-all (λ (r : UqlQuery V × OptimizationStats). IsRefined q r.0) q.query_type
        (IsRefined-refl q) (IsRefined-refl q) (IsRefined-refl q) (join_given-Keeps q.join q st refl)
        (IsRefined-refl q)

passes-Keep : (V : Type 0) → All (λ (pass : String × Pass V). Keeps pass.1) (passes {V = V})
unfolding passes index_selection cost_based_optimization
passes-Keep V = (
  keep_query-Keeps {V = V},
  (
    predicate_pushdown-Keeps,
    (
      query_rewrite-Keeps,
      (
        time_window-Keeps,
        (
          field_pruning-Keeps,
          (
            join_optimization-Keeps,
            (
              (λ q st. IsRefined-refl q),
              (
                (λ q st. IsRefined-refl q),
                (keep_query-Keeps, (keep_query-Keeps, (keep_query-Keeps, tt))),
              ),
            ),
          ),
        ),
      ),
    ),
  ),
)

module _ {V : Type 0} where
  run_passes-Keeps :
      (enabled : GoMap String Bool) (ps : List (String × Pass V))
      → All (λ (pass : String × Pass V). Keeps pass.1) ps
      → Keeps (run_passes enabled ps)
  unfolding run_passes
  run_passes-Keeps enabled [] all q st = IsRefined-refl q
  run_passes-Keeps enabled (pass ∷ rest) all q st = elim (Bool-cases (is_enabled enabled pass.0)) [
    | inl on ↦
        rw (run_passes, on)
          (IsRefined-trans q _ _ (all.0 q st) (run_passes-Keeps enabled rest all.1 _ _))
    | inr off ↦ rw (run_passes, off) (run_passes-Keeps enabled rest all.1 q st)
  ]

  -- Against the copy of the query that it works on, `Optimize` keeps what is asked for.
  pub optimize-copy :
      (o : UqlOptimizer) (elapsed : ℤ) (q : UqlQuery V)
      → IsRefined (deep_copy_query q) (optimize o elapsed q).0
  unfolding optimize
  optimize-copy o elapsed q =
      run_passes-Keeps o.enabled_opts passes (passes-Keep V) (deep_copy_query q) o.stats

  -- Whatever passes are enabled, the query that `Optimize` returns for one that holds the clause of its
  -- type only, and is no join, refines it: the same type, text, limit, sources, conditions and groups,
  -- no new field, the columns to sort by in some order, NEAR kept or made WITHIN, and each window
  -- kept or made a common interval.
  pub optimize-IsRefined :
      (o : UqlOptimizer) (elapsed : ℤ) (q : UqlQuery V)
      → IsSingle q
      → IsRefined q (optimize o elapsed q).0
  optimize-IsRefined o elapsed q single =
      subst (λ q'. IsRefined q' (optimize o elapsed q).0) (deep_copy_query_lem q single)
        (optimize-copy o elapsed q)
