-- ===== src/Rca/Engine/Correlation.antt =====
-- What the correlation engine answers for a window of time (internal/models/models.go, and the start of
-- `ComputeRCAByTimeRange` in internal/rca/engine.go): the service in focus, and the context that the
-- answer gives. The texts that the package fmt prints are parameters.
use mirador_core.Prelude.{
  Bool, false, ◌||◌, not, Option, none, some, List, [], ◌∷◌, String, if◌then◌else◌, ◌==◌,
  string_keys,
}
use mirador_core.Prelude.Int.{ℤ}
use mirador_core.Rca.Events.{Numbers}
use mirador_core.Rca.Chain.{Wording, IncidentContext}

module _ (nu : Numbers) where
  pub record CauseCandidate : Type 0 where
    pub kpi : String
    pub cause_service : String
    pub suspicion_score : nu.scores.F
    pub reasons : List String
    -- The text of the statistics, where there are any, as a summary and as evidence.
    pub stats_summary : Option String
    pub stats_evidence : Option String

  pub record RedAnchor : Type 0 where
    pub anchor_service : String
    pub metric : String
    pub anchor_score : nu.scores.F

  pub record CorrelationResult : Type 0 where
    pub correlation_id : String
    pub confidence : nu.scores.F
    pub affected_services : List String
    pub causes : List CauseCandidate
    pub red_anchors : List RedAnchor
    pub recommendations : List String
    pub created_at : ℤ

  pub record WindowWording : Type 0 where
    pub summaries : Wording
    pub no_data : ℤ → ℤ → String
    pub impact_detected : String → nu.scores.F → String
    pub with_top_cause : String → String → String → Bool → String
    pub anchor_evidence : nu.scores.F → String
    pub metric_evidence : String → nu.scores.F → String

  -- The loop for the highest score, the first of several.
  abbrev pub best_from : CauseCandidate → List CauseCandidate → CauseCandidate
  best_from best [] = best
  best_from best (c ∷ cs) =
      best_from (if nu.scores.lt best.suspicion_score c.suspicion_score then c else best) cs

  abbrev pub name_of_cause : CauseCandidate → String
  name_of_cause c = if not (c.cause_service == "") then c.cause_service else c.kpi

  abbrev pub focal_of : List String → List CauseCandidate → List RedAnchor → String
  focal_of (service ∷ services) causes anchors = service
  focal_of [] (c ∷ cs) anchors = name_of_cause (best_from c cs)
  focal_of [] [] (a ∷ anchors) = a.anchor_service
  focal_of [] [] [] = "unknown"

  abbrev pub metric_of : List RedAnchor → String
  metric_of [] = "unknown"
  metric_of (a ∷ anchors) = a.metric

  abbrev pub has_reason : String → List String → Bool
  has_reason tag [] = false
  has_reason tag (r ∷ reasons) = r == tag || has_reason tag reasons

  abbrev pub higher_suspicion : CauseCandidate → CauseCandidate → Bool
  higher_suspicion a b = nu.scores.lt b.suspicion_score a.suspicion_score

  module _ (w : WindowWording) (t_start t_end : ℤ) where
    abbrev pub summary_with : String → List CauseCandidate → String
    summary_with text [] = text
    summary_with text (c ∷ cs) =
        let best = best_from c cs in
        elim best.stats_summary [
          | none ↦ text
          | some s ↦
              w.with_top_cause text best.kpi s (has_reason "high_anomaly_density" best.reasons)
        ]

    abbrev pub context_of : CorrelationResult → IncidentContext nu.scores
    context_of corr =
        let focal = focal_of corr.affected_services corr.causes corr.red_anchors in
        record {
          id = corr.correlation_id;
          impact_service = focal;
          impact_signal = record {
            service_name = focal;
            metric_name = metric_of corr.red_anchors;
            labels = [];
            signal_direction = "higher_is_worse";
            threshold = nu.scores.zero_score;
          };
          time_bounds = record { t_start = t_start; t_peak = t_end; t_end = t_end };
          impact_summary = summary_with (w.impact_detected focal corr.confidence) corr.causes;
          severity = corr.confidence;
          created_at = corr.created_at;
          kpi_impact_id = "";
          kpi_metadata = none;
        }

    abbrev pub unknown_context : nu.scores.F → ℤ → IncidentContext nu.scores
    unknown_context severity now = record {
      id = "incident_unknown";
      impact_service = "unknown";
      impact_signal = record {
        service_name = "unknown";
        metric_name = "unknown";
        labels = [];
        signal_direction = "higher_is_worse";
        threshold = nu.scores.zero_score;
      };
      time_bounds = record { t_start = t_start; t_peak = t_end; t_end = t_end };
      impact_summary = w.no_data t_start t_end;
      severity = severity;
      created_at = now;
      kpi_impact_id = "";
      kpi_metadata = none;
    }
