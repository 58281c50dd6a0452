-- ===== src/Uql/Plan/Laws.antt =====
-- What `GenerateQueryPlan` promises of its plans.
use mathlib.Core.Path.{subst}
use mirador_core.Prelude.{
  ℕ, suc, ◌<◌, ◌≡◌, refl, sym, ap, Bool, Option, none, some, List, [], ◌∷◌, String, arith, length,
  GoMap,
}
use mirador_core.Prelude.Int.{ℤ}
use mirador_core.Uql.Syntax.{
  UqlQuery, UqlSelect, UqlAggregation, UqlCorrelation, UqlJoin, UqlDataSource, UqlQueryType,
  type_select, type_correlation, type_aggregation, type_join, type_other,
}
use mirador_core.Uql.Outcome.{Outcome, done, failed, panicked, map_outcome, OnDone}
use mirador_core.Uql.Text.{Formats}
use mirador_core.Uql.Optimizer.Passes.{UqlOptimizer}
use mirador_core.Uql.Plan.Defs.{
  QueryPlanStep, QueryPlan, Costs, Building, is_given_condition, is_nonempty,
}
use mirador_core.Uql.Plan.Build.{
  Built, build_select, build_aggregation, build_correlation, build_join, limit_step,
}
use mirador_core.Uql.Plan.Generate.{
  Estimate, count_step, estimate_steps, finish_plan, build_plan, generate_query_plan, given_or,
  correlation_built,
}
use mirador_core.Uql.Plan.Flow.{
  IsChain, add_linked-IsChain, add_first-IsChain, add_if-IsChain, IsFlowFrom, IsFlow,
  IsChain-IsFlow,
}

module _ {C : Type 0} (costs : Costs C) (enabled : GoMap String Bool) (indexed : Bool) where
  length-estimate_steps :
      (steps : List (QueryPlanStep C)) (e : Estimate C)
      → length (estimate_steps costs enabled indexed steps e).0 ≡ length steps
  unfolding estimate_steps
  length-estimate_steps [] e = refl
  length-estimate_steps (s ∷ steps) e = ap suc (length-estimate_steps steps _)

  estimate_steps-flow :
      (n k : ℕ) (steps : List (QueryPlanStep C)) (e : Estimate C)
      → IsFlowFrom n k steps
      → IsFlowFrom n k (estimate_steps costs enabled indexed steps e).0
  unfolding estimate_steps
  estimate_steps-flow n k [] e h = h
  estimate_steps-flow n k (s ∷ []) e h = h
  estimate_steps-flow n k (s ∷ t ∷ rest) e h = (
    h.0,
    h.1,
    estimate_steps-flow n (suc k) (t ∷ rest) (count_step costs enabled indexed s e) h.2,
  )

module _ {C V : Type 0} (costs : Costs C) (f : Formats V) where
  limit_step-IsChain :
      (limit : Option ℤ) (b : Building C) → IsChain b → IsChain (limit_step costs f limit b)
  limit_step-IsChain none b h = h
  limit_step-IsChain (some n) b h = add_linked-IsChain _ b (λ id. (refl, refl)) h

  build_select-IsFlow :
      (q : UqlQuery V) (s : UqlSelect V) → IsFlow (build_select costs f q s).building.made
  unfolding build_select
  build_select-IsFlow q s = IsChain-IsFlow _ (
      limit_step-IsChain q.limit _ (
        add_if-IsChain (is_nonempty q.order_by) _ _ (λ id. (refl, refl))
          (add_linked-IsChain _ _ (λ id. (refl, refl))
            (add_if-IsChain (is_nonempty s.group_by) _ _ (λ id. (refl, refl))
              (add_if-IsChain (is_given_condition s.filter) _ _ (λ id. (refl, refl))
                (add_first-IsChain _ (λ id. (refl, refl))))))))

  build_aggregation-IsFlow :
      (a : UqlAggregation V) → IsFlow (build_aggregation costs f a).building.made
  unfolding build_aggregation
  build_aggregation-IsFlow a = IsChain-IsFlow _ (
      add_linked-IsChain _ _ (λ id. (refl, refl))
        (add_if-IsChain (is_given_condition a.agg_filter) _ _ (λ id. (refl, refl))
          (add_first-IsChain _ (λ id. (refl, refl)))))

  build_correlation-IsFlow :
      (c : UqlCorrelation V) (l r : UqlDataSource)
      → IsFlow (build_correlation costs f c l r).building.made
  unfolding build_correlation
  build_correlation-IsFlow c l r = (
    omega arith,
    ((
      refl,
      (2, refl, omega arith, omega arith),
      (refl, (2, refl, omega arith, omega arith), (refl, refl)),
    )),
  )

  build_join-IsFlow : (j : UqlJoin V) → IsFlow (build_join costs f j).building.made
  unfolding build_join
  build_join-IsFlow j = (
    omega arith,
    ((
      refl,
      (2, refl, omega arith, omega arith),
      (refl, (2, refl, omega arith, omega arith), (refl, refl)),
    )),
  )

  finish_plan-IsFlow :
      (o : UqlOptimizer) (id : String) (now : ℤ) (t : UqlQueryType) (built : Built C)
      → IsFlow built.building.made
      → IsFlow (finish_plan costs f o id now t built).steps
  unfolding finish_plan
  finish_plan-IsFlow o id now t built h =
      subst (λ n. (0 < n) × IsFlowFrom n 0 (finish_plan costs f o id now t built).steps)
        (sym (
          length-estimate_steps costs o.enabled_opts (is_nonempty built.sources) built.building.made
            _))
        (
          h.0,
          estimate_steps-flow costs o.enabled_opts (is_nonempty built.sources)
              (length built.building.made) 0 built.building.made _ h.1,
        )

  correlation_built-IsFlow :
      (c : UqlCorrelation V) (l r : Option UqlDataSource)
      → OnDone (λ (b : Built C). IsFlow b.building.made) (correlation_built costs f c l r)
  correlation_built-IsFlow c none none = tt
  correlation_built-IsFlow c none (some r) = tt
  correlation_built-IsFlow c (some l) none = tt
  correlation_built-IsFlow c (some l) (some r) = build_correlation-IsFlow c l r

  given-IsFlow :
      {A : Type 0} (message : String) (o : Option A) (build : A → Outcome (Built C))
      → ((a : A) → OnDone (λ (b : Built C). IsFlow b.building.made) (build a))
      → OnDone (λ (b : Built C). IsFlow b.building.made) (given_or costs f message o build)
  given-IsFlow message none build h = tt
  given-IsFlow message (some a) build h = h a

  build_plan-IsFlow :
      (t : UqlQueryType) (q : UqlQuery V)
      → OnDone (λ (b : Built C). IsFlow b.building.made) (build_plan costs f t q)
  unfolding build_plan
  build_plan-IsFlow type_select q = given-IsFlow _ q.select _ (λ s. build_select-IsFlow q s)
  build_plan-IsFlow type_aggregation q =
      given-IsFlow _ q.aggregation _ (λ a. build_aggregation-IsFlow a)
  build_plan-IsFlow type_correlation q =
      given-IsFlow _ q.correlation _
        (λ c. correlation_built-IsFlow c c.left_expression.source c.right_expression.source)
  build_plan-IsFlow type_join q = given-IsFlow _ q.join _ (λ j. build_join-IsFlow j)
  build_plan-IsFlow (type_other _) q = tt

  -- The steps of every plan that is generated are numbered from zero in their order, and there is at least
  -- one. Each but the last has one child, a later step of the plan, and the last has none.
  pub generate_query_plan-IsFlow :
      (o : UqlOptimizer) (id : String) (now : ℤ) (q : UqlQuery V)
      → OnDone (λ (p : QueryPlan C). IsFlow p.steps) (generate_query_plan costs f o id now q)
  unfolding generate_query_plan
  generate_query_plan-IsFlow o id now q =
      finish (build_plan costs f q.query_type q) (build_plan-IsFlow q.query_type q)
    where
      finish :
          (built : Outcome (Built C))
          → OnDone (λ (b : Built C). IsFlow b.building.made) built
          → OnDone
              (λ (p : QueryPlan C). IsFlow p.steps)
              (map_outcome (finish_plan costs f o id now q.query_type) built)
      finish (done b) h = finish_plan-IsFlow o id now q.query_type b h
      finish (failed _) h = tt
      finish panicked h = tt
