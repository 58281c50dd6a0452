-- ===== src/Uql/Plan/Validity.antt =====
-- What validation promises to the planner, and what the optimizer leaves of it.
use mathlib.Core.Path.{subst}
use mirador_core.Prelude.{
  ◌≡◌, refl, ap, ◌∙◌, Bool, true, false, ◌&&◌, Option, none, some, String, arith, string_keys, ◌⊎◌,
  inl, inr,
}
use mirador_core.Prelude.Int.{ℤ}
use mirador_core.Uql.Syntax.{
  UqlQuery, UqlSelect, UqlAggregation, UqlCorrelation, UqlJoin, UqlDataSource, UqlQueryType,
  type_select, type_correlation, type_aggregation, type_join, type_other,
}
use mirador_core.Uql.Outcome.{Outcome, done, failed, panicked, map_outcome, IsDone}
use mirador_core.Uql.Text.{Formats}
use mirador_core.Uql.Validate.{
  validate, validate_clause, validate_correlation, validate_aggregation, validate_join,
  validate_select,
}
use mirador_core.Uql.Optimizer.Copy.{IsSingle, deep_copy_query}
use mirador_core.Uql.Optimizer.Refines.{IsRefined, Both, KeepsJoin, KeepsCorrelation}
use mirador_core.Uql.Optimizer.Keeping.{optimize-copy, optimize-IsRefined}
use mirador_core.Uql.Optimizer.Passes.{UqlOptimizer, optimize}
use mirador_core.Uql.Plan.Defs.{Costs, is_given}
use mirador_core.Uql.Plan.Build.{Built}
use mirador_core.Uql.Plan.Generate.{
  build_plan, generate_query_plan, given_or, correlation_built, finish_plan,
}

module _ {V : Type 0} where
  -- Both expressions of a correlation, if there is one, hold a data source.
  abbrev pub HasSources : Option (UqlCorrelation V) → Type 0
  HasSources none = Unit
  HasSources (some c) =
      is_given c.left_expression.source && is_given c.right_expression.source ≡ true

  valid_clause : (q : UqlQuery V) → validate q ≡ none → validate_clause q.query_type q ≡ none
  unfolding validate
  valid_clause q h = ground (arith, h)

  valid_select-ne : (o : Option (UqlSelect V)) → validate_select o ≡ none → is_given o ≡ true
  unfolding validate_select
  valid_select-ne none h = cc h
  valid_select-ne (some s) h = refl

  valid_correlation-ne :
      (o : Option (UqlCorrelation V)) → validate_correlation o ≡ none → is_given o ≡ true
  unfolding validate_correlation
  valid_correlation-ne none h = cc h
  valid_correlation-ne (some c) h = refl

  valid_aggregation-ne :
      (o : Option (UqlAggregation V)) → validate_aggregation o ≡ none → is_given o ≡ true
  unfolding validate_aggregation
  valid_aggregation-ne none h = cc h
  valid_aggregation-ne (some a) h = refl

  valid_join-ne : (o : Option (UqlJoin V)) → validate_join o ≡ none → is_given o ≡ true
  unfolding validate_join
  valid_join-ne none h = cc h
  valid_join-ne (some j) h = refl

  -- The clause of the query's type is there.
  abbrev pub has_clause : UqlQueryType → UqlQuery V → Bool
  has_clause type_select q = is_given q.select
  has_clause type_correlation q = is_given q.correlation
  has_clause type_aggregation q = is_given q.aggregation
  has_clause type_join q = is_given q.join
  has_clause (type_other _) q = false

  valid-has_clause :
      (t : UqlQueryType) (q : UqlQuery V) → validate_clause t q ≡ none → has_clause t q ≡ true
  unfolding validate_clause
  valid-has_clause type_select q h = valid_select-ne q.select h
  valid-has_clause type_correlation q h = valid_correlation-ne q.correlation h
  valid-has_clause type_aggregation q h = valid_aggregation-ne q.aggregation h
  valid-has_clause type_join q h = valid_join-ne q.join h
  valid-has_clause (type_other _) q h = cc h

  pub validate-has_clause : (q : UqlQuery V) → validate q ≡ none → has_clause q.query_type q ≡ true
  validate-has_clause q valid = valid-has_clause q.query_type q (valid_clause q valid)

module _ {C V : Type 0} (costs : Costs C) (f : Formats V) where
  correlation-IsPlanned :
      (c : UqlCorrelation V) (l r : Option UqlDataSource)
      → is_given l && is_given r ≡ true
      → IsDone (correlation_built costs f c l r)
  correlation-IsPlanned c (some l) (some r) h = tt
  correlation-IsPlanned c (some l) none h = cc h
  correlation-IsPlanned c none r h = cc h

  given-IsPlanned :
      {A : Type 0} (message : String) (o : Option A) (build : A → Outcome (Built C))
      → is_given o ≡ true
      → ((a : A) → o ≡ some a → IsDone (build a))
      → IsDone (given_or costs f message o build)
  given-IsPlanned message none build h all = cc h
  given-IsPlanned message (some a) build h all = all a refl

  pub clause-IsPlanned :
      (t : UqlQueryType) (q : UqlQuery V)
      → has_clause t q ≡ true
      → HasSources q.correlation
      → IsDone (build_plan costs f t q)
  unfolding build_plan
  clause-IsPlanned type_select q h s = given-IsPlanned _ q.select _ h (λ a at. tt)
  clause-IsPlanned type_correlation q h s = given-IsPlanned _ q.correlation _ h (λ c at.
      correlation-IsPlanned c c.left_expression.source c.right_expression.source
        (subst HasSources at s))
  clause-IsPlanned type_aggregation q h s = given-IsPlanned _ q.aggregation _ h (λ a at. tt)
  clause-IsPlanned type_join q h s = given-IsPlanned _ q.join _ h (λ a at. tt)
  clause-IsPlanned (type_other _) q h s = cc h

  map-IsPlanned : {A B : Type 0} (g : A → B) (r : Outcome A) → IsDone r → IsDone (map_outcome g r)
  map-IsPlanned g (done a) h = tt
  map-IsPlanned g (failed _) h = h
  map-IsPlanned g panicked h = h

  pub has_clause-IsDone :
      (o : UqlOptimizer) (id : String) (now : ℤ) (q : UqlQuery V)
      → has_clause q.query_type q ≡ true
      → HasSources q.correlation
      → IsDone (generate_query_plan costs f o id now q)
  unfolding generate_query_plan
  has_clause-IsDone o id now q given sources =
      map-IsPlanned (finish_plan costs f o id now q.query_type) (build_plan costs f q.query_type q)
        (clause-IsPlanned q.query_type q given sources)

  -- A query that `Validate` accepts is planned, without an error or a panic, provided that, where it has a
  -- correlation, both sides of that are data sources.
  pub generate_query_plan-IsDone :
      (o : UqlOptimizer) (id : String) (now : ℤ) (q : UqlQuery V)
      → validate q ≡ none
      → HasSources q.correlation
      → IsDone (generate_query_plan costs f o id now q)
  generate_query_plan-IsDone o id now q valid sources =
      has_clause-IsDone o id now q (validate-has_clause q valid) sources

  given_join_none : (b : Option (UqlJoin V)) → Both KeepsJoin none b → b ≡ none
  given_join_none none h = refl
  given_join_none (some j) h = elim h [ ]

  unplanned :
      (o : UqlOptimizer) (id : String) (now : ℤ) (q : UqlQuery V)
      → q.query_type ≡ type_join
      → q.join ≡ none
      → generate_query_plan costs f o id now q ≡ failed "missing join clause"
  unfolding generate_query_plan build_plan
  unplanned o id now q t j = rw (generate_query_plan, t, build_plan, j)

  -- No JOIN query can be planned once it has been optimized, whatever passes are enabled: its clause is
  -- lost, and planning it fails with the error of a missing clause.
  pub optimize_join_lem :
      (o : UqlOptimizer) (elapsed : ℤ) (o' : UqlOptimizer) (id : String) (now : ℤ) (q : UqlQuery V)
      → q.query_type ≡ type_join
      → generate_query_plan costs f o' id now (optimize o elapsed q).0
        ≡ failed "missing join clause"
  unfolding deep_copy_query
  optimize_join_lem o elapsed o' id now q t =
      let kept = optimize-copy o elapsed q in
      unplanned o' id now (optimize o elapsed q).0 (kept.0 ∙ t) (given_join_none _ kept.6)

module _ {V : Type 0} where
  kept_correlation :
      (a b : Option (UqlCorrelation V))
      → Both KeepsCorrelation a b
      → validate_correlation b ≡ validate_correlation a
  unfolding validate_correlation
  kept_correlation none none h = refl
  kept_correlation none (some _) h = elim h [ ]
  kept_correlation (some _) none h = elim h [ ]
  kept_correlation (some a) (some b) h = rw (h.0, h.1)

  kept_clause :
      (t : UqlQueryType) (q q' : UqlQuery V)
      → (t ≡ type_correlation) ⊎ (t ≡ type_aggregation)
      → IsRefined q q'
      → validate_clause t q' ≡ validate_clause t q
  unfolding validate_clause
  kept_clause type_correlation q q' h r = kept_correlation q.correlation q'.correlation r.5
  kept_clause type_aggregation q q' h r = ap validate_aggregation r.3
  kept_clause type_select q q' h r = elim h [ inl e ↦ cc e | inr e ↦ cc e ]
  kept_clause type_join q q' h r = elim h [ inl e ↦ cc e | inr e ↦ cc e ]
  kept_clause (type_other _) q q' h r = elim h [ inl e ↦ cc | inr e ↦ cc ]

  -- `Validate` says the same of a correlation or an aggregation that holds no other clause before and after
  -- it is optimized.
  pub validate-optimize :
      (o : UqlOptimizer) (elapsed : ℤ) (q : UqlQuery V)
      → IsSingle q
      → (q.query_type ≡ type_correlation) ⊎ (q.query_type ≡ type_aggregation)
      → validate (optimize o elapsed q).0 ≡ validate q
  unfolding validate
  validate-optimize o elapsed q single h =
      let r = optimize-IsRefined o elapsed q single in
      let same = kept_clause q.query_type q (optimize o elapsed q).0 h r in
      rw (validate, r.0, r.1, same)
