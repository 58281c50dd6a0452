-- ===== src/Uql/Pipeline.antt =====
-- The parser, the optimizer and the planner one after the other, as the query engine calls them.
use mathlib.Core.Path.{subst}
use mirador_core.Prelude.{◌≡◌, refl, sym, ap, ◌∙◌, true, Option, none, some, String, ◌⊎◌, inl, inr}
use mirador_core.Prelude.Int.{ℤ}
use mirador_core.Uql.Outcome.{OnDone, IsDone, OnDone-trans}
use mirador_core.Uql.Syntax.{
  UqlQuery, UqlCorrelation, UqlQueryType, type_select, type_correlation, type_aggregation,
  type_join, type_other,
}
use mirador_core.Uql.Text.{Formats}
use mirador_core.Uql.Optimizer.Passes.{UqlOptimizer, optimize}
use mirador_core.Uql.Optimizer.Refines.{IsRefined, Both, KeepsCorrelation}
use mirador_core.Uql.Optimizer.Keeping.{optimize-IsRefined}
use mirador_core.Uql.Plan.Defs.{Costs, is_given}
use mirador_core.Uql.Plan.Generate.{generate_query_plan}
use mirador_core.Uql.Plan.Validity.{HasSources, has_clause, validate-has_clause, has_clause-IsDone}
use mirador_core.Uql.Parse.Texts.{TextLibrary}
use mirador_core.Uql.Parse.Conditions.{UqlValue}
use mirador_core.Uql.Parse.Queries.{parse}
use mirador_core.Uql.Parse.Parts.{IsOneSided}
use mirador_core.Uql.Parse.Laws.{IsWellParsed, parse-IsWellParsed}

Both-given {ℓ} :
    {A : Type ℓ} (R : A → A → Type 0) (o p : Option A)
    → Both R o p
    → is_given o ≡ true
    → is_given p ≡ true
Both-given R none none h g = g
Both-given R none (some b) h g = refl
Both-given R (some a) none h g = elim h [ ]
Both-given R (some a) (some b) h g = refl

module _ {V : Type 0} where
  kept_sources :
      (a b : Option (UqlCorrelation V)) → Both KeepsCorrelation a b → HasSources a → HasSources b
  kept_sources none none h s = s
  kept_sources none (some _) h s = elim h [ ]
  kept_sources (some _) none h s = elim h [ ]
  kept_sources (some a) (some b) h s = rw (h.0, h.1) s

  refined-has_clause :
      (t : UqlQueryType) (q q' : UqlQuery V)
      → IsRefined q q'
      → has_clause t q ≡ true
      → has_clause t q' ≡ true
  refined-has_clause type_select q q' r h = Both-given _ q.select q'.select r.4 h
  refined-has_clause type_correlation q q' r h = Both-given _ q.correlation q'.correlation r.5 h
  refined-has_clause type_aggregation q q' r h = ap is_given r.3 ∙ h
  refined-has_clause type_join q q' r h = Both-given _ q.join q'.join r.6 h
  refined-has_clause (type_other _) q q' r h = h

module _ {C F : Type 0} (lib : TextLibrary F) (costs : Costs C) (f : Formats (UqlValue F)) where
  well_parsed-IsDone :
      (query : String) (o o' : UqlOptimizer) (elapsed : ℤ) (id : String) (now : ℤ)
      (q : UqlQuery (UqlValue F))
      → IsWellParsed lib query q
      → IsDone (generate_query_plan costs f o' id now (optimize o elapsed q).0) ⊎ IsOneSided q
  well_parsed-IsDone query o o' elapsed id now q (text, single, inr one) = inr one
  well_parsed-IsDone query o o' elapsed id now q (text, single, inl (valid, sources)) =
      let r = optimize-IsRefined o elapsed q single in
      let q' = (optimize o elapsed q).0 in
      inl (
        has_clause-IsDone costs f o' id now q'
          (subst (λ t. has_clause t q' ≡ true) (sym r.0)
            (refined-has_clause q.query_type q q' r (validate-has_clause q valid)))
          (kept_sources q.correlation q'.correlation r.5 sources))

  -- Every query that `Parse` returns, unless it is a correlation of one side, gets a plan once it is
  -- optimized, without an error or a panic, whatever passes are enabled.
  pub parse-optimize_plan :
      (o o' : UqlOptimizer) (elapsed : ℤ) (id : String) (now : ℤ) (text : String)
      → OnDone
          (λ (q : UqlQuery (UqlValue F)).
            IsDone (generate_query_plan costs f o' id now (optimize o elapsed q).0) ⊎ IsOneSided q)
          (parse lib text)
  parse-optimize_plan o o' elapsed id now text =
      OnDone-trans (IsWellParsed lib (lib.trim text)) _ (parse lib text)
        (λ q. well_parsed-IsDone (lib.trim text) o o' elapsed id now q)
        (parse-IsWellParsed lib text)
