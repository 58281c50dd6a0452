-- ===== src/Uql/Plan/Generate.antt =====
-- `GenerateQueryPlan` with its estimates.
use mirador_core.Prelude.{
  Bool, Option, none, some, List, [], ◌∷◌, ◌++◌, String, if◌then◌else◌, GoMap, ◌&&◌,
}
use mirador_core.Prelude.Int.{ℤ, pos}
use mirador_core.Uql.Syntax.{
  UqlQuery, UqlCorrelation, UqlDataSource, UqlQueryType, type_select, type_correlation,
  type_aggregation, type_join, type_other,
}
use mirador_core.Uql.Outcome.{Outcome, done, failed, panicked, map_outcome}
use mirador_core.Uql.Text.{Formats}
use mirador_core.Uql.Optimizer.Passes.{UqlOptimizer, is_enabled}
use mirador_core.Uql.Plan.Defs.{QueryPlanStep, QueryPlan, Costs, is_nonempty}
use mirador_core.Uql.Plan.Build.{
  Built, build_select, build_aggregation, build_correlation, build_join,
}
use Prim.Native.String.{◌++◌ as ◌+++◌}

-- The totals that the loop over the steps keeps.
pub record Estimate (C : Type 0) : Type 0 where
  pub total_cost : C
  pub total_rows : ℤ
  pub applied : List String

module _ {C : Type 0} (costs : Costs C) (enabled : GoMap String Bool) (indexed : Bool) where
  -- The cost of a step once the index and the cache are counted in.
  abbrev pub reduced_cost : C → C
  reduced_cost c =
      let c' =
        if is_enabled enabled "index_selection" && indexed then costs.seven_tenths c else c in
      if is_enabled enabled "query_plan_caching" then costs.nine_tenths c' else c'

  abbrev pub optimizations_of_step : List String
  optimizations_of_step =
      (if is_enabled enabled "index_selection" && indexed then "index_selection" ∷ [] else [])
      ++ (if is_enabled enabled "query_plan_caching" then "query_plan_caching" ∷ [] else [])

  abbrev pub count_step : QueryPlanStep C → Estimate C → Estimate C
  count_step s e = record {
    total_cost = costs.add_cost e.total_cost s.cost;
    total_rows = s.rows;
    applied = e.applied ++ optimizations_of_step;
  }

  unfoldable pub estimate_steps :
      List (QueryPlanStep C) → Estimate C → List (QueryPlanStep C) × Estimate C
  estimate_steps [] e = ([], e)
  estimate_steps (s ∷ steps) e =
      let (steps', e') = estimate_steps steps (count_step s e) in
      (record s { cost = reduced_cost s.cost } ∷ steps', e')

module _ {C V : Type 0} (costs : Costs C) (f : Formats V) where
  -- The plan of what a builder made; `id` and `now` are the clock's.
  unfoldable pub finish_plan : UqlOptimizer → String → ℤ → UqlQueryType → Built C → QueryPlan C
  unfolding estimate_steps
  finish_plan o id now t built =
      let (steps, e) =
        estimate_steps costs o.enabled_opts (is_nonempty built.sources) built.building.made
          (record { total_cost = costs.whole 0; total_rows = pos 0; applied = [] }) in
      record {
        query_id = id;
        plan_type = t;
        steps = steps;
        estimated_cost = e.total_cost;
        estimated_rows = e.total_rows;
        data_sources = built.sources;
        optimizations = e.applied;
        generated_at = now;
      }

  -- The left source is read first, and each is read before anything else is done with it.
  abbrev pub correlation_built :
      UqlCorrelation V → Option UqlDataSource → Option UqlDataSource → Outcome (Built C)
  correlation_built c (some left) (some right) = done (build_correlation costs f c left right)
  correlation_built c _ _ = panicked

  abbrev pub given_or {ℓ} :
      {A : Type ℓ} → String → Option A → (A → Outcome (Built C)) → Outcome (Built C)
  given_or message none build = failed message
  given_or message (some a) build = build a

  unfoldable pub build_plan : UqlQueryType → UqlQuery V → Outcome (Built C)
  unfolding build_select build_aggregation build_correlation build_join
  build_plan type_select q =
      given_or "missing select clause" q.select (λ s. done (build_select costs f q s))
  build_plan type_aggregation q =
      given_or "missing aggregation clause" q.aggregation (λ a. done (build_aggregation costs f a))
  build_plan type_correlation q =
      given_or "missing correlation clause" q.correlation
        (λ c. correlation_built c c.left_expression.source c.right_expression.source)
  build_plan type_join q = given_or "missing join clause" q.join (λ j. done (build_join costs f j))
  build_plan (type_other t) q = failed ("unsupported query type: " +++ t)

  unfoldable pub generate_query_plan :
      UqlOptimizer → String → ℤ → UqlQuery V → Outcome (QueryPlan C)
  unfolding build_plan finish_plan
  generate_query_plan o id now q =
      map_outcome (finish_plan o id now q.query_type) (build_plan q.query_type q)
