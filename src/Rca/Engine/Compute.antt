-- ===== src/Rca/Engine/Compute.antt =====
-- `ComputeRCA`. `buildChainForCandidate` gives no error and its chain has a step, so that the guards
-- on its result always pass. The wording of the notes is a parameter.
use Prim.Native.String.{◌++◌ as ◌+++◌}
use mirador_core.Prelude.{
  ℕ, suc, Bool, not, Option, none, some, List, [], ◌∷◌, ◌++◌, map, String, if◌then◌else◌, ◌==◌,
  ◌=ℕ◌, length, string_keys, keep, GoMap, ◌⊎◌, inl, inr,
}
use mirador_core.Prelude.Int.{ℤ, pos, leb_ℤ}
use mirador_core.Prelude.Sorting.{sort_by}
use mirador_core.Rca.Events.{Numbers, AnomalyEvent}
use mirador_core.Rca.ServiceGraph.{ServiceGraph}
use mirador_core.Rca.Grouping.{AnomalyGroup}
use mirador_core.Rca.Dimensions.{
  RcaDiagnostics, RcaDimensionConfig, ConfigError, Warning, validate_and_normalize,
  add_reduced_accuracy_reason,
}
use mirador_core.Rca.Chain.{
  IncidentContext, KpiIncidentMetadata, validate, RcaChain, RcaIncident, new_rca_incident,
  add_chain, set_root_cause_from_best_chain,
}
use mirador_core.Rca.Scoring.{
  CandidateCause, clamp_score, rank_anew, apply_kpi_sentiment_bias, DimensionWording, floats, Tally,
  compute_dimension_alignment_score, extract_impact_service_dimensions,
}
use mirador_core.Rca.Collect.{
  RcaError, CandidateCauseOptions, compute_candidates, unless_invalid, or_fail,
}
use mirador_core.Rca.Engine.Chains.{EngineWording, build_chain_for_candidate}

pub record NotesWording : Type 0 where
  pub missing_labels_note : String → String
  pub undetected_note : String → String
  pub isolation_note : String → String
  pub metrics_note : String → String

-- `strings.Join(l, ", ")`.
abbrev pub joined : List String → String
joined [] = ""
joined (s ∷ []) = s
joined (s ∷ t ∷ l) = s +++ (", " +++ joined (t ∷ l))

-- The names that map to false, in the order of the map's list.
abbrev pub undetected : GoMap String Bool → List String
undetected [] = []
undetected (entry ∷ m) = if not entry.1 then entry.0 ∷ undetected m else undetected m

unfoldable pub to_notes : NotesWording → RcaDiagnostics → List String
to_notes w rd =
    (if length rd.missing_labels =ℕ 0
      then []
      else w.missing_labels_note (joined rd.missing_labels) ∷ [])
    ++ (map w.undetected_note (undetected rd.dimension_detection_status)
        ++ (map w.isolation_note rd.isolation_forest_issues
            ++ (rd.reduced_accuracy_reasons ++ map w.metrics_note rd.metrics_query_errors)))

module _ (nu : Numbers) where
  pub record RcaOptions : Type 0 where
    pub candidate_cause_options : CandidateCauseOptions nu
    pub dimension_config : RcaDimensionConfig (floats nu)
    pub max_chains : ℤ
    pub max_steps_per_chain : ℤ

  -- All the texts that the package fmt prints for the engine.
  pub record AnalysisWording : Type 0 where
    pub steps : EngineWording nu.scores.F
    pub notes : NotesWording
    pub dimensions : DimensionWording
    pub config_error : ConfigError (floats nu) → String
    pub config_warning : Warning (floats nu) → String
    pub bias_reason : String → String → nu.scores.F → String

  -- A chain with the higher score comes first.
  abbrev pub better_chain : RcaChain nu.scores → RcaChain nu.scores → Bool
  better_chain a b = nu.scores.lt b.score a.score

  unfoldable pub number_chains : ℕ → List (RcaChain nu.scores) → List (RcaChain nu.scores)
  number_chains rank [] = []
  number_chains rank (chain ∷ chains) =
      record chain { rank = rank } ∷ number_chains (suc rank) chains

  -- What both analyses do last: sort, number, and take the root cause.
  unfoldable pub conclude : RcaIncident nu.scores → RcaIncident nu.scores
  unfolding number_chains set_root_cause_from_best_chain
  conclude result =
      set_root_cause_from_best_chain nu.scores
        (record result { chains = number_chains 1 (sort_by better_chain result.chains) })

  unfoldable pub filter_groups_by_service :
      List (CandidateCause nu) → String → List (AnomalyGroup nu.scores)
  filter_groups_by_service candidates service =
      map (λ (c : CandidateCause nu). c.group)
        (keep (λ (c : CandidateCause nu). c.group.group_service == service) candidates)

  module _ (w : AnalysisWording) where
    abbrev pub reasons_of : RcaDiagnostics → List (Warning (floats nu)) → RcaDiagnostics
    reasons_of rd [] = rd
    reasons_of rd (x ∷ warnings) =
        reasons_of (add_reduced_accuracy_reason rd (w.config_warning x)) warnings

    -- The diagnostics after the check of the configuration.
    abbrev pub config_reasons :
        RcaDiagnostics → ConfigError (floats nu) ⊎ List (Warning (floats nu)) → RcaDiagnostics
    config_reasons rd (inl e) = add_reduced_accuracy_reason rd (w.config_error e)
    config_reasons rd (inr warnings) = reasons_of rd warnings

    -- The share of 5% that the alignment has in the score.
    abbrev pub mixed_score : nu.scores.F → nu.scores.F → nu.scores.F
    mixed_score score alignment = clamp_score nu (
        nu.scores.add (nu.mul score (nu.sub nu.one (nu.hundredths 5)))
          (nu.mul alignment (nu.hundredths 5)))

    abbrev pub adjusted : CandidateCause nu → nu.scores.F × Tally nu → CandidateCause nu
    adjusted c (alignment, tally) = record c {
      score = mixed_score c.score alignment;
      detailed_score = record c.detailed_score {
        dimension_alignment_score = alignment;
        dimension_alignments = tally.alignments;
      };
    }

    abbrev pub told_or : RcaDiagnostics → Option RcaDiagnostics → RcaDiagnostics
    told_or rd none = rd
    told_or rd (some told) = told

    -- The loop that adjusts the candidates.
    unfoldable pub align_candidates :
        GoMap String String
        → RcaDimensionConfig (floats nu)
        → List (CandidateCause nu)
        → RcaDiagnostics
        → List (CandidateCause nu) × RcaDiagnostics
    unfolding compute_dimension_alignment_score
    align_candidates impact cfg [] rd = ([], rd)
    align_candidates impact cfg (c ∷ cs) rd =
        let scored =
          compute_dimension_alignment_score nu w.dimensions c.group impact cfg (some rd) in
        let rest = align_candidates impact cfg cs (told_or rd scored.1.told) in
        (adjusted c scored ∷ rest.0, rest.1)

    abbrev pub biased_candidates :
        Option KpiIncidentMetadata
        → List (CandidateCause nu) × RcaDiagnostics
        → List (CandidateCause nu) × RcaDiagnostics
    biased_candidates metadata (cs, rd) =
        let result =
          apply_kpi_sentiment_bias nu w.bias_reason (rank_anew nu cs) metadata (nu.hundredths 5)
            (some rd) in
        (result.0, told_or rd result.1)

    -- The step that only runs with extra dimensions, the bias of the KPI in it. The bias looks at the
    -- metadata itself, as the test before its call does.
    unfoldable pub adjust_candidates :
        IncidentContext nu.scores
        → RcaDimensionConfig (floats nu)
        → List (CandidateCause nu)
        → RcaDiagnostics
        → List (CandidateCause nu) × RcaDiagnostics
    unfolding filter_groups_by_service align_candidates rank_anew apply_kpi_sentiment_bias
        extract_impact_service_dimensions
    adjust_candidates incident cfg candidates rd =
        if length cfg.extra_dimensions =ℕ 0
        then (candidates, rd)
        else biased_candidates incident.kpi_metadata (
            align_candidates
              (extract_impact_service_dimensions nu
                (filter_groups_by_service candidates incident.impact_service) cfg.extra_dimensions)
              cfg candidates rd)

    module _ {S : Type 0} (error_rate : S → nu.scores.F) (sg : ServiceGraph S) where
      -- The loop over the candidates, with the number of chains built.
      unfoldable pub build_chains :
          RcaOptions → ℕ → List (CandidateCause nu) → RcaIncident nu.scores → RcaIncident nu.scores
      unfolding build_chain_for_candidate add_chain
      build_chains opts chains_built [] result = result
      build_chains opts chains_built (c ∷ cs) result =
          if leb_ℤ opts.max_chains (pos chains_built)
          then result
          else build_chains opts (suc chains_built) cs (
              add_chain nu.scores result (
                build_chain_for_candidate nu w.steps error_rate sg result.impact c
                  opts.max_steps_per_chain))

      abbrev pub noted : RcaIncident nu.scores → List String → RcaIncident nu.scores
      noted result extra = record result {
        notes = result.notes ++ (extra ++ to_notes w.notes result.diagnostics);
      }

      abbrev pub with_candidates :
          RcaOptions
          → RcaDimensionConfig (floats nu)
          → RcaIncident nu.scores
          → List (CandidateCause nu)
          → RcaIncident nu.scores
      with_candidates opts cfg result [] =
          noted result ("No anomalies found to explain the incident" ∷ [])
      with_candidates opts cfg result (c ∷ cs) =
          let cands = adjust_candidates result.impact cfg (c ∷ cs) result.diagnostics in
          noted (conclude (build_chains opts 0 cands.0 (record result { diagnostics = cands.1 })))
            []

      unfoldable pub analyze_incident :
          IncidentContext nu.scores → RcaOptions → List (CandidateCause nu) → RcaIncident nu.scores
      unfolding new_rca_incident validate_and_normalize adjust_candidates build_chains conclude
          to_notes add_reduced_accuracy_reason
      analyze_incident incident opts candidates =
          let checked = validate_and_normalize (floats nu) opts.dimension_config in
          let fresh : RcaIncident nu.scores = new_rca_incident nu.scores incident in
          with_candidates opts checked.0
            (record fresh { diagnostics = config_reasons fresh.diagnostics checked.1 }) candidates

      unfoldable pub compute_rca :
          {E : Type 0}
          → (ℤ → ℤ → List String → E ⊎ List (AnomalyEvent nu.scores))
          → IncidentContext nu.scores
          → RcaOptions
          → RcaError E ⊎ RcaIncident nu.scores
      unfolding analyze_incident compute_candidates
      compute_rca get_anomalies incident opts = unless_invalid (validate nu.scores incident) (
          or_fail RcaError.failed_to_compute (analyze_incident incident opts)
            (compute_candidates nu sg get_anomalies incident opts.candidate_cause_options))
