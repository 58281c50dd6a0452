-- ===== src/Rca/Detector/Tests.antt =====
-- The detection on short series.
use mirador_core.Prelude.{ℕ, ◌≡◌, ◌≢◌, ◌↔◌, refl, some, none, List, [], ◌∷◌, inl, inr}
use mirador_core.Prelude.Int.{pos}
use mirador_core.Rca.Samples.{points, naturals}
use mirador_core.Rca.Chain.{
  IncidentContext, IncidentTimeWindow, validate, is_valid, bad_time_bounds,
}
use mirador_core.Rca.Detector.Defs.{
  IncidentDetectorConfig, MetricTimeSeries, SpikeText, default_incident_detector_config,
  detect_incident, is_valid_series,
}
use mirador_core.Rca.Detector.Laws.{Detects, detect_incident_lem}
use mirador_core.Rca.Detector.Validity.{detect_incident-validate}

abbrev spike : SpikeText naturals
spike metric service peak baseline start ending = metric

abbrev config : IncidentDetectorConfig naturals
unfolding default_incident_detector_config
config = default_incident_detector_config naturals

abbrev errors : List ℕ → MetricTimeSeries naturals
errors values = record {
  timestamps = pos 1 ∷ pos 2 ∷ pos 3 ∷ pos 4 ∷ pos 5 ∷ [];
  values = values;
  series_service = "web";
  series_metric = "errors";
  direction = "higher_is_worse";
}

abbrev slow_rise : MetricTimeSeries naturals
slow_rise = errors (10 ∷ 10 ∷ 30 ∷ 40 ∷ 10 ∷ [])

abbrev sudden : MetricTimeSeries naturals
sudden = errors (10 ∷ 10 ∷ 40 ∷ 30 ∷ 10 ∷ [])

abbrev spiked : IncidentTimeWindow → IncidentContext points
spiked window = record {
  id = "i1";
  impact_service = "web";
  impact_signal = record {
    service_name = "web";
    metric_name = "errors";
    labels = [];
    signal_direction = "higher_is_worse";
    threshold = 15;
  };
  time_bounds = window;
  impact_summary = "errors";
  severity = 100;
  created_at = pos 9;
  kpi_impact_id = "";
  kpi_metadata = none;
}

abbrev rise : IncidentContext points
rise = spiked (record { t_start = pos 3; t_peak = pos 4; t_end = pos 5 })

abbrev jump : IncidentContext points
jump = spiked (record { t_start = pos 3; t_peak = pos 3; t_end = pos 5 })

rise_detected : detect_incident naturals spike 0 config (pos 9) slow_rise "i1" ≡ inr (some rise)
unfolding detect_incident is_valid_series config
rise_detected = refl

-- A spike whose first sample is the highest is detected, and refused.
jump_refused :
    (detect_incident naturals spike 0 config (pos 9) sudden "i1" ≡ inr (some jump))
    × (validate points jump ≡ some bad_time_bounds)
unfolding detect_incident is_valid_series config validate is_valid
jump_refused = (refl, refl)

detect_incident_lem_example :
    Detects naturals spike 0 config
      (pos 9)
      slow_rise
      "i1"
      (detect_incident naturals spike 0 config (pos 9) slow_rise "i1")
detect_incident_lem_example = detect_incident_lem naturals spike 0 config (pos 9) slow_rise "i1"

detect_incident-validate_example :
    (validate points rise ≡ none) ↔ (rise.time_bounds.t_start ≢ rise.time_bounds.t_peak)
detect_incident-validate_example =
    detect_incident-validate naturals spike 0 config (pos 9) slow_rise "i1" rise rise_detected
      (λ p. cc) (inl refl) ((λ p. cc), ((λ p. cc), ((λ p. cc), ((λ p. cc), ((λ p. cc), tt)))))
