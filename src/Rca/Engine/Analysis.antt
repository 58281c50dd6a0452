-- ===== src/Rca/Engine/Analysis.antt =====
-- What `ComputeRCA` reports.
use mathlib.Core.List.{Perm}
use mathlib.Core.List.Perm
use mathlib.Core.Path.{subst}
use mirador_core.Prelude.{
  ℕ, suc, Bool, Option, if◌then◌else◌, ◌-◌, ◌≡◌, refl, ap, ◌∙◌, true, false, none, some, List, [],
  ◌∷◌, ◌++◌, map, String, arith, ◌=ℕ◌, length, All, GoMap, Bool-cases, inl, inr, ◌⊎◌,
}
use mirador_core.Prelude.Int.{ℤ, pos, pos_part, leb_ℤ}
use mirador_core.Rca.Events.{Numbers}
use mirador_core.Rca.ServiceGraph.{ServiceGraph}
use mirador_core.Rca.Dimensions.{RcaDiagnostics, RcaDimensionConfig, validate_and_normalize}
use mirador_core.Rca.Chain.{
  IncidentContext, KpiIncidentMetadata, RcaChain, RcaIncident, add_chain, new_rca_incident,
}
use mirador_core.Rca.Scoring.{
  CandidateCause, take, floats, rank_anew, groups_of, IsReordered, rank_anew-IsReordered,
  apply_kpi_sentiment_bias-IsReordered,
}
use mirador_core.Rca.Engine.Chains.{build_chain_for_candidate}
use mirador_core.Rca.Engine.ChainLaws.{IsChain, take_nil, take_none, take_more}
use mirador_core.Rca.Engine.Paths.{build_chain_for_candidate_lem}
use mirador_core.Rca.Engine.Compute.{
  RcaOptions, AnalysisWording, build_chains, analyze_incident, adjust_candidates, align_candidates,
  noted, config_reasons, biased_candidates,
}
use mirador_core.Rca.Engine.Reports.{IsReport, conclude_lem, add_chain_lem, unranked_chain}

-- Before the limit one more chain is built.
more_chains :
    (built : ℕ) (max : ℤ)
    → leb_ℤ max (pos built) ≡ false
    → pos_part max - built ≡ suc (pos_part max - suc built)
more_chains built max h = ground arith

no_chains : (n : ℕ) → n - 0 ≡ n
no_chains n = omega arith

first_chains :
    {A : Type 0} (n : ℕ) (xs ys : List A) → Perm xs (take (n - 0) ys) → Perm xs (take n ys)
first_chains n xs ys p = subst (λ m. Perm xs (take m ys)) (no_chains n) p

no_more : (built : ℕ) (max : ℤ) → leb_ℤ max (pos built) ≡ true → pos_part max - built ≡ 0
no_more built max h = ground arith

module _ (nu : Numbers) (w : AnalysisWording nu) {S : Type 0} (error_rate : S → nu.scores.F)
    (sg : ServiceGraph S) where
  -- The chain that is built for a candidate, but for its rank.
  abbrev pub chain_for :
      IncidentContext nu.scores → RcaOptions nu → CandidateCause nu → RcaChain nu.scores
  chain_for incident opts c =
      unranked_chain nu
        (build_chain_for_candidate nu w.steps error_rate sg incident c opts.max_steps_per_chain)

  build_chains_lem :
      (opts : RcaOptions nu) (built : ℕ) (cs : List (CandidateCause nu)) (r : RcaIncident nu.scores)
      → r.root_cause ≡ none
      → All (IsChain nu) r.chains
      → let s = build_chains nu w error_rate sg opts built cs r in
        (s.root_cause ≡ none)
        × All (IsChain nu) s.chains
        × (map (unranked_chain nu) s.chains
            ≡ map (unranked_chain nu) r.chains
              ++ take (pos_part opts.max_chains - built) (map (chain_for r.impact opts) cs))
  unfolding build_chains add_chain
  build_chains_lem opts built [] r fresh all =
      (fresh, all, take_nil (pos_part opts.max_chains - built) (map (unranked_chain nu) r.chains))
  build_chains_lem opts built (c ∷ cs) r fresh all =
      let chain =
        build_chain_for_candidate nu w.steps error_rate sg r.impact c opts.max_steps_per_chain in
      elim (Bool-cases (leb_ℤ opts.max_chains (pos built))) [
        | inl full ↦ rw full (fresh, all, take_none _ _ _ (no_more built opts.max_chains full))
        | inr more ↦
            let (fresh', all', added) =
              add_chain_lem nu r chain fresh all
                (build_chain_for_candidate_lem nu w.steps error_rate sg r.impact c
                  opts.max_steps_per_chain).0 in
            let (fresh'', all'', rest) =
              build_chains_lem opts (suc built) cs (add_chain nu.scores r chain) fresh' all' in
            rw more (
              fresh'',
              all'',
              rest
                  ∙ ap
                      (λ l.
                        l
                        ++ take (pos_part opts.max_chains - suc built)
                            (map (chain_for r.impact opts) cs))
                      added
                  ∙ take_more _ _ (map (unranked_chain nu) r.chains) _ _ _ refl
                      (more_chains built opts.max_chains more),
            )
      ]

  groups-align_candidates :
      (impact : GoMap String String) (cfg : RcaDimensionConfig (floats nu))
      (cs : List (CandidateCause nu)) (rd : RcaDiagnostics)
      → groups_of nu (align_candidates nu w impact cfg cs rd).0 ≡ groups_of nu cs
  unfolding align_candidates
  groups-align_candidates impact cfg [] rd = refl
  groups-align_candidates impact cfg (c ∷ cs) rd =
      ap (λ l. c.group ∷ l) (groups-align_candidates impact cfg cs _)

  -- The candidates as they are, or the same groups of anomalies by falling score.
  abbrev pub IsAdjusted : List (CandidateCause nu) → List (CandidateCause nu) → Type 0
  IsAdjusted cs result = (result ≡ cs) ⊎ IsReordered nu cs result

  biased-IsAdjusted :
      (unused : Bool) (metadata : Option KpiIncidentMetadata) (cs : List (CandidateCause nu))
      (rd : RcaDiagnostics) (aligned : List (CandidateCause nu) × RcaDiagnostics)
      → groups_of nu aligned.0 ≡ groups_of nu cs
      → IsAdjusted cs (if unused then (cs, rd) else biased_candidates nu w metadata aligned).0
  biased-IsAdjusted true metadata cs rd aligned h = inl refl
  biased-IsAdjusted false metadata cs rd aligned h =
      let ranked = rank_anew-IsReordered nu aligned.0 in
      let biased =
        apply_kpi_sentiment_bias-IsReordered nu w.bias_reason (rank_anew nu aligned.0) metadata
          (nu.hundredths 5) (some aligned.1) ranked.falling in
      inr (record {
        falling = biased.falling;
        same_groups =
            Perm.trans biased.same_groups
              (subst (Perm (groups_of nu (rank_anew nu aligned.0))) h ranked.same_groups);
      })

  adjust_candidates-IsAdjusted :
      (incident : IncidentContext nu.scores) (cfg : RcaDimensionConfig (floats nu))
      (cs : List (CandidateCause nu)) (rd : RcaDiagnostics)
      → IsAdjusted cs (adjust_candidates nu w incident cfg cs rd).0
  unfolding adjust_candidates
  adjust_candidates-IsAdjusted incident cfg cs rd =
      biased-IsAdjusted (length cfg.extra_dimensions =ℕ 0) incident.kpi_metadata cs rd _
        (groups-align_candidates _ cfg cs rd)

  -- The notes do not count.
  pub noted-IsReport :
      (r : RcaIncident nu.scores) (extra : List String)
      → IsReport nu r
      → IsReport nu (noted nu w error_rate sg r extra)
  noted-IsReport r extra x = record {
    numbered = x.numbered;
    falling = x.falling;
    chained = x.chained;
    root = x.root;
  }

  -- The chains of the report are, but for their ranks, each once those of the first candidates, as
  -- many as the limit on chains allows; the candidates are those given, or hold the same groups by
  -- falling score.
  abbrev pub Explains :
      IncidentContext nu.scores
      → RcaOptions nu
      → List (CandidateCause nu)
      → RcaIncident nu.scores
      → Type 0
  Explains incident opts cs r =
      IsReport nu r
      × (adjusted : List (CandidateCause nu)) × IsAdjusted cs adjusted
      × Perm (map (unranked_chain nu) r.chains)
          (take (pos_part opts.max_chains) (map (chain_for incident opts) adjusted))

  -- The report on the candidates of an incident has its chains ranked from 1 by falling score, each
  -- well-formed, and the last step of the best as root cause; the chains are those that are built for
  -- the first candidates, as many as the limit on chains allows, each once. The candidates are those
  -- given, or hold the same groups of anomalies by falling score.
  pub analyze_incident_lem :
      (incident : IncidentContext nu.scores) (opts : RcaOptions nu) (cs : List (CandidateCause nu))
      → Explains incident opts cs (analyze_incident nu w error_rate sg incident opts cs)
  unfolding analyze_incident new_rca_incident
  analyze_incident_lem incident opts [] = (
    record { numbered = tt; falling = tt; chained = tt; root = refl },
    [],
    inl refl,
    subst (Perm []) (take_nil (pos_part opts.max_chains) []) (Perm.refl []),
  )
  analyze_incident_lem incident opts (c ∷ cs) =
      let checked = validate_and_normalize (floats nu) opts.dimension_config in
      let blank : RcaIncident nu.scores = new_rca_incident nu.scores incident in
      let rd = config_reasons nu w blank.diagnostics checked.1 in
      let cands = adjust_candidates nu w incident checked.0 (c ∷ cs) rd in
      let (fresh, all, built) =
        build_chains_lem opts 0 cands.0 (record blank { diagnostics = cands.1 }) refl tt in
      let (report, same) = conclude_lem nu _ fresh all in
      (
        noted-IsReport _ [] report,
        cands.0,
        adjust_candidates-IsAdjusted incident checked.0 (c ∷ cs) rd,
        first_chains (pos_part opts.max_chains) _ _ (subst (Perm _) built same),
      )
