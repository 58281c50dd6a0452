-- ===== src/Uql/Plan/Estimates.antt =====
-- The estimates of a plan: its cost and its rows.
use mirador_core.Prelude.{
  ℕ, zero, suc, ◌-◌, ◌≡◌, refl, ◌∙◌, Bool, true, Option, none, some, List, [], ◌∷◌, ◌++◌, String,
  GoMap,
}
use mirador_core.Prelude.Int.{ℤ, pos}
use mirador_core.Uql.Syntax.{UqlQuery, UqlSelect, type_select}
use mirador_core.Uql.Outcome.{Outcome, done, failed, panicked, map_outcome}
use mirador_core.Uql.Text.{Formats}
use mirador_core.Uql.Optimizer.Passes.{UqlOptimizer}
use mirador_core.Uql.Plan.Defs.{
  QueryPlanStep, QueryPlan, Costs, Building, set_children, add_linked, is_nonempty,
}
use mirador_core.Uql.Plan.Build.{Built, build_select, limit_step, select_steps, select_scan}
use mirador_core.Uql.Plan.Generate.{
  Estimate, count_step, estimate_steps, finish_plan, build_plan, generate_query_plan,
}

module _ {C : Type 0} (costs : Costs C) where
  -- The sum of the costs of the steps, as the loop adds them.
  abbrev pub sum_costs : C → List (QueryPlanStep C) → C
  sum_costs total [] = total
  sum_costs total (s ∷ steps) = sum_costs (costs.add_cost total s.cost) steps

  abbrev pub last_rows : ℤ → List (QueryPlanStep C) → ℤ
  last_rows rows [] = rows
  last_rows rows (s ∷ steps) = last_rows s.rows steps

  estimate_steps_lem :
      (enabled : GoMap String Bool) (indexed : Bool) (steps : List (QueryPlanStep C))
      (e : Estimate C)
      → let e' = (estimate_steps costs enabled indexed steps e).1 in
        (e'.total_cost ≡ sum_costs e.total_cost steps)
        × (e'.total_rows ≡ last_rows e.total_rows steps)
  unfolding estimate_steps
  estimate_steps_lem enabled indexed [] e = (refl, refl)
  estimate_steps_lem enabled indexed (s ∷ steps) e =
      estimate_steps_lem enabled indexed steps (count_step costs enabled indexed s e)

  last_rows-append :
      (i : ℕ) (ids : List ℕ) (rows : ℤ) (steps : List (QueryPlanStep C)) (new : QueryPlanStep C)
      → last_rows rows (set_children i ids (steps ++ new ∷ [])) ≡ new.rows
  unfolding set_children
  last_rows-append zero ids rows [] new = refl
  last_rows-append (suc i) ids rows [] new = refl
  last_rows-append zero ids rows (s ∷ steps) new = plain s.rows steps
    where
      plain : (r : ℤ) (xs : List (QueryPlanStep C)) → last_rows r (xs ++ new ∷ []) ≡ new.rows
      plain r [] = refl
      plain r (x ∷ xs) = plain x.rows xs
  last_rows-append (suc i) ids rows (s ∷ steps) new = last_rows-append i ids s.rows steps new

module _ {C V : Type 0} (costs : Costs C) (f : Formats V) where
  limit_step-rows :
      {n : ℤ} (limit : Option ℤ) (b : Building C)
      → limit ≡ some n
      → last_rows costs (pos 0) (limit_step costs f limit b).made ≡ n
  unfolding add_linked
  limit_step-rows none b h = cc h
  limit_step-rows (some m) b h =
      last_rows-append costs (b.next_id - 1) (b.next_id ∷ []) (pos 0) b.made _ ∙ cc h

  -- The estimates of a plan, when there is one.
  abbrev pub estimates : Outcome (QueryPlan C) → Outcome (C × ℤ)
  estimates (done p) = done (p.estimated_cost, p.estimated_rows)
  estimates (failed message) = failed message
  estimates panicked = panicked

  finish_plan-estimates :
      (o o' : UqlOptimizer) (id id' : String) (now now' : ℤ) (q : UqlQuery V)
      (r : Outcome (Built C))
      → estimates (map_outcome (finish_plan costs f o id now q.query_type) r)
        ≡ estimates (map_outcome (finish_plan costs f o' id' now' q.query_type) r)
  unfolding finish_plan
  finish_plan-estimates o o' id id' now now' q (failed _) = refl
  finish_plan-estimates o o' id id' now now' q panicked = refl
  finish_plan-estimates o o' id id' now now' q (done b) =
      let start : Estimate C = record {
        total_cost = costs.whole 0;
        total_rows = pos 0;
        applied = [];
      } in
      let (c, r) =
        estimate_steps_lem costs o.enabled_opts (is_nonempty b.sources) b.building.made start in
      let (c', r') =
        estimate_steps_lem costs o'.enabled_opts (is_nonempty b.sources) b.building.made start in
      cc (c, r, c', r')

  -- The estimated cost and rows of the plan of a query do not depend on the passes that are enabled: the
  -- reductions for an index and for the cache reach the steps of the plan and not its total.
  pub generate_query_plan-estimates :
      (o o' : UqlOptimizer) (id id' : String) (now now' : ℤ) (q : UqlQuery V)
      → estimates (generate_query_plan costs f o id now q)
        ≡ estimates (generate_query_plan costs f o' id' now' q)
  unfolding generate_query_plan
  generate_query_plan-estimates o o' id id' now now' q =
      finish_plan-estimates o o' id id' now now' q (build_plan costs f q.query_type q)

  -- The rows that a SELECT with a limit is estimated to return are the limit.
  pub generate_query_plan-limit :
      (o : UqlOptimizer) (id : String) (now : ℤ) (q : UqlQuery V) (s : UqlSelect V) (n : ℤ)
      → q.query_type ≡ type_select
      → q.select ≡ some s
      → q.limit ≡ some n
      → (p : QueryPlan C) × (generate_query_plan costs f o id now q ≡ done p)
        × (p.estimated_rows ≡ n)
  unfolding generate_query_plan build_plan finish_plan build_select add_linked
  generate_query_plan-limit o id now q s n t given limited = (
    finish_plan costs f o id now q.query_type (build_select costs f q s),
    rw (generate_query_plan, t, build_plan, given) refl,
    (estimate_steps_lem costs o.enabled_opts true (build_select costs f q s).building.made
          (record { total_cost = costs.whole 0; total_rows = pos 0; applied = [] })).1
        ∙ limit_step-rows q.limit (select_steps costs f q s (select_scan costs f s)) limited,
  )
