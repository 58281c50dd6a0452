-- ===== src/Rca/Detector/Defs.antt =====
-- `DetectIncident` with its helpers. A position in the series is a sample with those that follow it.
-- The logger is left out, and so is the test of the minimal duration, whose branch is empty.
use mirador_core.Prelude.{
  ◌/◌, Bool, true, false, Option, none, some, List, [], ◌∷◌, String, if◌then◌else◌, ◌==◌, ◌=ℕ◌, not,
  length, ltb, string_keys, ◌⊎◌, inl, inr,
}
use mirador_core.Prelude.Int.{ℤ, pos, ltb_ℤ}
use mirador_core.Rca.Events.{Numbers}
use mirador_core.Rca.Chain.{IncidentContext}
use mirador_core.Rca.Scoring.{take}

-- The checks of `IsValid`.
pub data SeriesError : Type 0 where
  empty_series length_mismatch no_service no_metric not_ordered : SeriesError

abbrev pub are_ordered : List ℤ → Bool
are_ordered [] = true
are_ordered (t ∷ []) = true
are_ordered (t ∷ u ∷ ts) = if ltb_ℤ t u then are_ordered (u ∷ ts) else false

module _ (nu : Numbers) where
  pub record IncidentDetectorConfig : Type 0 where
    pub threshold_percentile_above_normal : nu.scores.F
    pub min_duration_for_incident : ℤ
    pub recovery_threshold : nu.scores.F

  unfoldable pub default_incident_detector_config : IncidentDetectorConfig
  default_incident_detector_config = record {
    threshold_percentile_above_normal = nu.hundredths 5000;
    min_duration_for_incident = pos 10_000_000_000;
    recovery_threshold = nu.hundredths 30;
  }

  pub record MetricTimeSeries : Type 0 where
    pub timestamps : List ℤ
    pub values : List nu.scores.F
    pub series_service : String
    pub series_metric : String
    pub direction : String

  unfoldable pub is_valid_series : MetricTimeSeries → Option SeriesError
  is_valid_series mts =
      if length mts.timestamps =ℕ 0
      then some empty_series
      else if not (length mts.timestamps =ℕ length mts.values)
      then some length_mismatch
      else if mts.series_service == ""
      then some no_service
      else if mts.series_metric == ""
      then some no_metric
      else if not (are_ordered mts.timestamps)
      then some not_ordered
      else none

  pub record Sample : Type 0 where
    pub at : ℤ
    pub reading : nu.scores.F

  abbrev pub samples : List ℤ → List nu.scores.F → List Sample
  samples (t ∷ ts) (v ∷ vs) = record { at = t; reading = v } ∷ samples ts vs
  samples _ _ = []

  abbrev pub sum_of : nu.scores.F → List nu.scores.F → nu.scores.F
  sum_of sum [] = sum
  sum_of sum (v ∷ vs) = sum_of (nu.scores.add sum v) vs

  abbrev pub mean : List nu.scores.F → nu.scores.F
  mean [] = nu.scores.zero_score
  mean (v ∷ vs) = nu.scores.over (sum_of nu.scores.zero_score (v ∷ vs)) (length (v ∷ vs))

  abbrev pub abs : nu.scores.F → nu.scores.F
  abs x = if nu.scores.lt x nu.scores.zero_score then nu.neg x else x

  abbrev pub min : nu.scores.F → nu.scores.F → nu.scores.F
  min a b = if nu.scores.lt a b then a else b

  -- The mean of the first fifth, and of one value at least.
  abbrev pub baseline_of : List nu.scores.F → nu.scores.F
  baseline_of values = let n = length values / 5 in mean (take (if ltb n 1 then 1 else n) values)

  module _ (direction : String) where
    abbrev pub threshold_of : nu.scores.F → nu.scores.F → nu.scores.F
    threshold_of percentile baseline =
        let share = nu.div percentile (nu.hundredths 10000) in
        if direction == "lower_is_worse"
        then nu.mul baseline (nu.sub nu.one share)
        else nu.mul baseline (nu.scores.add nu.one share)

    -- The comparison with the threshold, and that with the peak so far.
    abbrev pub is_beyond : nu.scores.F → nu.scores.F → Bool
    is_beyond limit v =
        if direction == "higher_is_worse" then nu.scores.lt limit v else nu.scores.lt v limit

    abbrev pub is_recovered : nu.scores.F → nu.scores.F → Bool
    is_recovered limit v = if direction == "higher_is_worse" then nu.le v limit else nu.le limit v

    abbrev pub first_breach : nu.scores.F → List Sample → Option (Sample × List Sample)
    first_breach threshold [] = none
    first_breach threshold (s ∷ rest) =
        if is_beyond threshold s.reading then some (s, rest) else first_breach threshold rest

    -- The peak so far with the samples after it, and those that are still to be read.
    abbrev pub find_peak : Sample → List Sample → List Sample → Sample × List Sample
    find_peak peak after [] = (peak, after)
    find_peak peak after (s ∷ rest) =
        let beyond = is_beyond peak.reading s.reading in
        find_peak (if beyond then s else peak) (if beyond then rest else after) rest

    -- The first sample that is recovered, and the last one of the series if none is.
    abbrev pub find_end : nu.scores.F → Sample → List Sample → Sample
    find_end recovery final [] = final
    find_end recovery final (s ∷ rest) =
        if is_recovered recovery s.reading then s else find_end recovery final rest

    abbrev pub recovery_of : nu.scores.F → nu.scores.F → nu.scores.F → nu.scores.F
    recovery_of share baseline peak =
        if direction == "lower_is_worse"
        then nu.sub baseline (nu.mul (nu.sub baseline peak) share)
        else nu.scores.add baseline (nu.mul (nu.sub peak baseline) share)

    -- `tiny` is the constant 1e-9.
    abbrev pub severity_of : nu.scores.F → nu.scores.F → nu.scores.F → nu.scores.F
    severity_of tiny baseline peak =
        let base = nu.scores.add baseline tiny in
        let deviation =
          if direction == "lower_is_worse"
          then nu.div (nu.sub baseline peak) base
          else nu.div (nu.sub peak baseline) base in
        min nu.one (abs deviation)

  abbrev pub last_of : Sample → List Sample → Sample
  last_of s [] = s
  last_of s (t ∷ rest) = last_of t rest

  -- The text of the summary: metric, service, peak, baseline, start and end.
  abbrev pub SpikeText : Type 0
  SpikeText = String → String → nu.scores.F → nu.scores.F → ℤ → ℤ → String

  module _ (spike : SpikeText) (tiny : nu.scores.F) (config : IncidentDetectorConfig)
      (now : ℤ) where
    abbrev pub incident_of :
        MetricTimeSeries
        → String
        → nu.scores.F
        → nu.scores.F
        → Sample
        → Sample
        → Sample
        → IncidentContext nu.scores
    incident_of mts id baseline threshold start peak ending = record {
      id = id;
      impact_service = mts.series_service;
      impact_signal = record {
        service_name = mts.series_service;
        metric_name = mts.series_metric;
        labels = [];
        signal_direction = mts.direction;
        threshold = threshold;
      };
      time_bounds = record { t_start = start.at; t_peak = peak.at; t_end = ending.at };
      impact_summary =
          spike mts.series_metric mts.series_service peak.reading baseline start.at ending.at;
      severity = severity_of mts.direction tiny baseline peak.reading;
      created_at = now;
      kpi_impact_id = "";
      kpi_metadata = none;
    }

    abbrev pub incident_from :
        MetricTimeSeries
        → String
        → nu.scores.F
        → nu.scores.F
        → Option (Sample × List Sample)
        → Option (IncidentContext nu.scores)
    incident_from mts id baseline threshold none = none
    incident_from mts id baseline threshold (some (start, rest)) =
        let (peak, after) = find_peak mts.direction start rest rest in
        let recovery = recovery_of mts.direction config.recovery_threshold baseline peak.reading in
        some (
          incident_of mts id baseline threshold start peak
            (find_end mts.direction recovery (last_of start rest) after))

    abbrev pub detected : MetricTimeSeries → String → Option (IncidentContext nu.scores)
    detected mts id =
        let baseline = baseline_of mts.values in
        let threshold =
          threshold_of mts.direction config.threshold_percentile_above_normal baseline in
        incident_from mts id baseline threshold
          (first_breach mts.direction threshold (samples mts.timestamps mts.values))

    unfoldable pub detect_incident :
        MetricTimeSeries → String → SeriesError ⊎ Option (IncidentContext nu.scores)
    unfolding is_valid_series
    detect_incident mts id = elim (is_valid_series mts) [
      | some e ↦ inl e
      | none ↦ inr (detected mts id)
    ]
