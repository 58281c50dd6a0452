-- ===== src/Uql/Optimizer/Rewrites.antt =====
-- The rewrites of the optimizer, each of which keeps what the query asks for.
use mathlib.Core.Path.{subst}
use mirador_core.Prelude.{
  ◌*◌, ◌≡◌, refl, sym, ◌∙◌, Bool, Option, none, some, List, [], ◌∷◌, arith, if◌then◌else◌, inl, inr,
  string_keys, keep, Bool-cases, ltb, length,
}
use mirador_core.Prelude.Int.{ℤ, pos, ltb_ℤ}
use mirador_core.Prelude.Sorting.{sort_by-perm}
use mirador_core.Uql.Syntax.{
  UqlQuery, UqlSelect, UqlCorrelation, UqlAggregation, UqlOperator, UqlField, UqlOrderBy, op_and,
  op_or, op_not, op_eq, op_neq, op_lt, op_le, op_gt, op_ge, op_like, op_match, op_within, op_near,
  op_before, op_after, op_join, op_on, op_other,
}
use mirador_core.Uql.Optimizer.Windows.{optimize_time_window_lem, minute}
use mirador_core.Uql.Optimizer.Fields.{
  optimize_field_selection, optimize_field_selection_lem, optimize_order_by, by_field, prune,
  identify_used_fields, is_field_used,
}
use mirador_core.Uql.Optimizer.Passes.{
  OptimizationStats, optimize_given, faster_operator, predicate_pushdown,
  optimize_correlation_window, rewrite_select_query, rewrite_correlation_query,
  rewrite_aggregation_query, keep_query, optimize_correlation_operators, on_type-all,
}
use mirador_core.Uql.Optimizer.Refines.{
  Both, KeepsWindow, KeepsFields, KeepsOperator, KeepsSelect, KeepsCorrelation, IsRefined,
  IsRefined-refl, Keeps, select_refl, correlation_refl, join_refl, window_refl,
}
use mathlib.Core.List.Perm

pub optimize_given-window : (w : Option ℤ) → Both KeepsWindow w (optimize_given w)
optimize_given-window none = tt
optimize_given-window (some w) = elim (optimize_time_window_lem w) [
  | inl same ↦ inl same
  | inr near ↦ inr near.0
]

pub faster_operator-kept :
    (w : Option ℤ) (op : UqlOperator) → KeepsOperator op (faster_operator w op)
faster_operator-kept none op = inl refl
faster_operator-kept (some w) op_near = elim (Bool-cases (ltb_ℤ w (pos (5 * minute)))) [
  | inl short ↦ inr (refl, rw short refl)
  | inr long ↦ inl (rw long refl)
]
faster_operator-kept (some w) op_and = inl refl
faster_operator-kept (some w) op_or = inl refl
faster_operator-kept (some w) op_not = inl refl
faster_operator-kept (some w) op_eq = inl refl
faster_operator-kept (some w) op_neq = inl refl
faster_operator-kept (some w) op_lt = inl refl
faster_operator-kept (some w) op_le = inl refl
faster_operator-kept (some w) op_gt = inl refl
faster_operator-kept (some w) op_ge = inl refl
faster_operator-kept (some w) op_like = inl refl
faster_operator-kept (some w) op_match = inl refl
faster_operator-kept (some w) op_within = inl refl
faster_operator-kept (some w) op_before = inl refl
faster_operator-kept (some w) op_after = inl refl
faster_operator-kept (some w) op_join = inl refl
faster_operator-kept (some w) op_on = inl refl
faster_operator-kept (some w) (op_other _) = inl refl

pub keep_fields :
    (p : UqlField → Bool) (fields : List UqlField) → KeepsFields fields (keep p fields)
keep_fields p [] k h = h
keep_fields p (f ∷ fields) k h = ground (arith, keep_fields p fields k, h)

module _ {V : Type 0} where
  pub prune_fields :
      (s : UqlSelect V) (order_by : List UqlOrderBy) → KeepsFields s.fields (prune s order_by)
  unfolding prune
  prune_fields s order_by =
      choose _ (keep_fields (is_field_used (identify_used_fields s order_by)) s.fields)
    where
      choose :
          (fields' : List UqlField)
          → KeepsFields s.fields fields'
          → KeepsFields s.fields
              (if ltb (length fields') (length s.fields) then fields' else s.fields)
      choose fields' kept = elim (Bool-cases (ltb (length fields') (length s.fields))) [
        | inl fewer ↦ rw fewer kept
        | inr all ↦ rw all (λ k h. h)
      ]

  pub keep_query-Keeps : Keeps (keep_query {V = V})
  unfolding keep_query
  keep_query-Keeps q st = IsRefined-refl q

  pub correlation_window-Keeps :
      (c : Option (UqlCorrelation V)) (q : UqlQuery V) (st : OptimizationStats)
      → q.correlation ≡ c
      → IsRefined q (optimize_correlation_window c q st).0
  unfolding optimize_correlation_window
  correlation_window-Keeps none q st at = IsRefined-refl q
  correlation_window-Keeps (some c) q st at = (
    refl,
    refl,
    refl,
    refl,
    select_refl q.select,
    subst
        (λ o.
          Both KeepsCorrelation o (some (record c { time_window = optimize_given c.time_window })))
        (sym at) (refl, refl, refl, inl refl, optimize_given-window c.time_window),
    join_refl q.join,
    window_refl q.window,
    Perm.refl q.order_by,
  )

  pub predicate_pushdown-Keeps : Keeps (predicate_pushdown {V = V})
  unfolding predicate_pushdown
  predicate_pushdown-Keeps q st =
      on_type-all (λ (r : UqlQuery V × OptimizationStats). IsRefined q r.0) q.query_type
        (IsRefined-refl q) (correlation_window-Keeps q.correlation q st refl) (IsRefined-refl q)
        (IsRefined-refl q) (IsRefined-refl q)

  pub rewrite_select-Keeps :
      (s : Option (UqlSelect V)) (q : UqlQuery V) (st : OptimizationStats)
      → q.select ≡ s
      → IsRefined q (rewrite_select_query s q st).0
  unfolding rewrite_select_query optimize_order_by
  rewrite_select-Keeps none q st at = IsRefined-refl q
  rewrite_select-Keeps (some s) q st at = (
    refl,
    refl,
    refl,
    refl,
    subst (λ o. Both KeepsSelect o (some (record s { fields = optimize_field_selection s.fields })))
        (sym at)
        (refl, refl, refl, refl, λ k on. sym ((optimize_field_selection_lem s.fields).1 k) ∙ on),
    correlation_refl q.correlation,
    join_refl q.join,
    window_refl q.window,
    sort_by-perm by_field q.order_by,
  )

  pub rewrite_correlation-Keeps :
      (c : Option (UqlCorrelation V)) (q : UqlQuery V) (st : OptimizationStats)
      → q.correlation ≡ c
      → IsRefined q (rewrite_correlation_query c q st).0
  unfolding rewrite_correlation_query optimize_correlation_operators
  rewrite_correlation-Keeps none q st at = IsRefined-refl q
  rewrite_correlation-Keeps (some c) q st at = (
    refl,
    refl,
    refl,
    refl,
    select_refl q.select,
    subst (λ o. Both KeepsCorrelation o (some (optimize_correlation_operators c))) (sym at)
        (refl, refl, refl, faster_operator-kept c.time_window c.operator, window-opt c.time_window),
    join_refl q.join,
    window_refl q.window,
    Perm.refl q.order_by,
  )
    where
      window-opt : (w : Option ℤ) → Both KeepsWindow w w
      window-opt w = window_refl w

  pub rewrite_aggregation-Keeps :
      (a : Option (UqlAggregation V)) (q : UqlQuery V) (st : OptimizationStats)
      → IsRefined q (rewrite_aggregation_query a q st).0
  unfolding rewrite_aggregation_query
  rewrite_aggregation-Keeps none q st = IsRefined-refl q
  rewrite_aggregation-Keeps (some a) q st = IsRefined-refl q
