-- ===== src/Rca/Engine/Window.antt =====
-- `ComputeRCAByTimeRange`: the steps of an anchor's chain, the chains, and the report. The correlation
-- engine is a parameter, by its answer.
use mirador_core.Prelude.{
  ℕ, suc, ◌+◌, Bool, ◌&&◌, ◌||◌, Option, none, some, List, [], ◌∷◌, ◌++◌, String, if◌then◌else◌,
  ◌==◌, ltb, leb, length, string_keys, ◌⊎◌, inl, inr,
}
use mirador_core.Prelude.Int.{ℤ, pos}
use mirador_core.Prelude.Sorting.{sort_by}
use mirador_core.Rca.TimeRing.{ring_immediate, ring_short}
use mirador_core.Rca.Events.{Numbers, direction_same, direction_upstream}
use mirador_core.Rca.Dimensions.{RcaDiagnostics, new_rca_diagnostics}
use mirador_core.Rca.Chain.{
  IncidentContext, RcaStep, RcaChain, RcaIncident, new_rca_step, add_evidence, new_rca_chain,
  add_step, new_rca_incident, add_chain, template_based_summary,
}
use mirador_core.Rca.Engine.Compute.{conclude}
use mirador_core.Rca.Engine.Correlation.{
  CauseCandidate, RedAnchor, CorrelationResult, WindowWording, higher_suspicion, context_of,
  unknown_context,
}

module _ (nu : Numbers) (w : WindowWording nu) (t_start t_end : ℤ) where
  abbrev pub in_window : RcaStep nu.scores → RcaStep nu.scores
  in_window s = record s { time_start = t_start; time_end = t_end }

  abbrev pub worded : RcaStep nu.scores → String → Option RcaDiagnostics → RcaStep nu.scores
  worded s impact diagnostics = record s {
    summary = template_based_summary nu.scores w.summaries s impact diagnostics;
  }

  unfoldable pub impact_step :
      IncidentContext nu.scores → nu.scores.F → RedAnchor nu → RcaStep nu.scores
  unfolding new_rca_step add_evidence template_based_summary new_rca_diagnostics
  impact_step incident confidence anchor =
      let s : RcaStep nu.scores =
        in_window
          (new_rca_step nu.scores 1 incident.impact_service incident.impact_signal.metric_name) in
      worded
        (add_evidence nu.scores
          (record s { ring = ring_immediate; direction = direction_same; step_score = confidence })
          "red_anchor" anchor.anchor_service (w.anchor_evidence anchor.anchor_score))
        incident.impact_service (some new_rca_diagnostics)

  unfoldable pub anchor_step : String → RedAnchor nu → RcaStep nu.scores
  unfolding new_rca_step add_evidence template_based_summary
  anchor_step impact anchor =
      let s : RcaStep nu.scores =
        in_window (new_rca_step nu.scores 2 anchor.anchor_service anchor.metric) in
      worded
        (add_evidence nu.scores
          (record s {
            ring = ring_immediate;
            direction = direction_upstream;
            step_score = anchor.anchor_score;
          })
          "red_anchor" anchor.anchor_service (w.metric_evidence anchor.metric anchor.anchor_score))
        impact none

  abbrev pub add_reasons : String → List String → RcaStep nu.scores → RcaStep nu.scores
  add_reasons kpi [] s = s
  add_reasons kpi (reason ∷ reasons) s =
      add_reasons kpi reasons (add_evidence nu.scores s "correlation_reason" kpi reason)

  abbrev pub add_stats : String → Option String → RcaStep nu.scores → RcaStep nu.scores
  add_stats kpi none s = s
  add_stats kpi (some text) s = add_evidence nu.scores s "correlation_stats" kpi text

  unfoldable pub cause_step : ℕ → String → CauseCandidate nu → RcaStep nu.scores
  unfolding new_rca_step add_evidence template_based_summary
  cause_step why_index impact cause =
      let s : RcaStep nu.scores =
        in_window (new_rca_step nu.scores why_index cause.cause_service cause.kpi) in
      worded
        (add_reasons cause.kpi cause.reasons (
          add_stats cause.kpi cause.stats_evidence (record s {
            ring = ring_short;
            direction = direction_upstream;
            step_score = cause.suspicion_score;
          })))
        impact none

  abbrev pub is_anchor : RedAnchor nu → CauseCandidate nu → Bool
  is_anchor anchor cause =
      cause.cause_service == anchor.anchor_service && cause.kpi == anchor.metric

  -- The loop over the sorted causes; the anchor itself is passed over.
  unfoldable pub add_cause_steps :
      String → RedAnchor nu → List (CauseCandidate nu) → ℕ → RcaChain nu.scores → RcaChain nu.scores
  unfolding cause_step add_step
  add_cause_steps impact anchor [] why_index chain = chain
  add_cause_steps impact anchor (cause ∷ causes) why_index chain =
      let same = is_anchor anchor cause in
      if ltb 5 why_index
      then chain
      else add_cause_steps impact anchor causes (if same then why_index else suc why_index)
          (if same then chain else add_step nu.scores chain (cause_step why_index impact cause))

  abbrev pub weighted :
      ℕ → List (RcaStep nu.scores) → nu.scores.F × nu.scores.F → nu.scores.F × nu.scores.F
  weighted idx [] sums = sums
  weighted idx (s ∷ steps) (score, weight) =
      let share = nu.div nu.one (nu.of_int (pos (idx + 1))) in
      weighted (suc idx) steps
        (nu.scores.add score (nu.mul s.step_score share), nu.scores.add weight share)

  abbrev pub weighted_score : RcaChain nu.scores → RcaChain nu.scores
  weighted_score chain =
      let zero = nu.scores.zero_score in
      let (score, weight) = weighted 0 chain.steps (zero, zero) in
      record chain { score = if nu.scores.lt zero weight then nu.div score weight else chain.score }

  unfoldable pub anchor_chain :
      IncidentContext nu.scores → CorrelationResult nu → RedAnchor nu → RcaChain nu.scores
  unfolding impact_step anchor_step add_cause_steps add_step new_rca_chain
  anchor_chain incident corr anchor = weighted_score (
      add_cause_steps incident.impact_service anchor (sort_by (higher_suspicion nu) corr.causes) 3 (
        add_step nu.scores
          (add_step nu.scores (new_rca_chain nu.scores)
            (impact_step incident corr.confidence anchor))
          (anchor_step incident.impact_service anchor)))

  -- The loop over the anchors, of which three count.
  unfoldable pub add_anchor_chains :
      CorrelationResult nu → ℕ → List (RedAnchor nu) → RcaIncident nu.scores → RcaIncident nu.scores
  unfolding anchor_chain add_chain
  add_anchor_chains corr i [] result = result
  add_anchor_chains corr i (anchor ∷ anchors) result =
      if leb 3 i
      then result
      else add_anchor_chains corr (suc i) anchors
          (add_chain nu.scores result (anchor_chain result.impact corr anchor))

  abbrev pub noting : RcaIncident nu.scores → List String → RcaIncident nu.scores
  noting result notes = record result { notes = result.notes ++ notes }

  abbrev pub low_confidence : nu.scores.F → ℤ → RcaIncident nu.scores
  low_confidence severity now =
      noting (new_rca_incident nu.scores (unknown_context nu w t_start t_end severity now))
        ("Correlation produced no candidates; returning low-confidence RCA" ∷ [])

  abbrev pub has_data : CorrelationResult nu → Bool
  has_data corr = ltb 0 (length corr.affected_services) || ltb 0 (length corr.red_anchors)

  unfoldable pub report_correlation : ℤ → Option (CorrelationResult nu) → RcaIncident nu.scores
  unfolding new_rca_incident add_anchor_chains conclude
  report_correlation now none = low_confidence nu.scores.zero_score now
  report_correlation now (some corr) =
      if has_data corr
      then noting
          (conclude nu (
            add_anchor_chains corr 0 corr.red_anchors
              (new_rca_incident nu.scores (context_of nu w t_start t_end corr))))
          corr.recommendations
      else low_confidence corr.confidence now

  -- The errors: no correlation engine, and one that failed.
  pub data WindowError (E : Type 0) : Type 0 where
    not_configured : WindowError E
    correlation_failed : E → WindowError E

  abbrev pub answer :
      {E : Type 0} → ℤ → E ⊎ Option (CorrelationResult nu) → WindowError E ⊎ RcaIncident nu.scores
  answer now (inl e) = inl (correlation_failed e)
  answer now (inr corr) = inr (report_correlation now corr)

  unfoldable pub compute_rca_by_time_range :
      {E : Type 0}
      → Option (ℤ → ℤ → E ⊎ Option (CorrelationResult nu))
      → ℤ
      → WindowError E ⊎ RcaIncident nu.scores
  unfolding report_correlation
  compute_rca_by_time_range none now = inl not_configured
  compute_rca_by_time_range (some correlate) now = answer now (correlate t_start t_end)
