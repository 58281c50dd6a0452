-- ===== src/Rca/Detector/Laws.antt =====
-- What the detection reports.
use mirador_core.Prelude.{
  ◌≡◌, refl, if◌then◌else◌, ◌==◌, string_keys, false, Option, none, some, List, ◌∷◌, String, All,
  Option-cases, inl, inr, ◌⊎◌,
}
use mirador_core.Prelude.Int.{ℤ}
use mirador_core.Rca.Events.{Numbers}
use mirador_core.Rca.Chain.{IncidentContext}
use mirador_core.Rca.Detector.Defs.{
  IncidentDetectorConfig, MetricTimeSeries, SeriesError, is_valid_series, Sample, samples,
  baseline_of, find_peak, last_of, SpikeText, detect_incident, incident_from,
}
use mirador_core.Rca.Detector.Parts.{
  Beyond, IsBreach, Breached, first_breach_lem, IsPeak, find_peak_lem, IsEnd, find_end_lem,
}

module _ (nu : Numbers) (spike : SpikeText nu) (tiny : nu.scores.F)
    (config : IncidentDetectorConfig nu) (now : ℤ) where
  abbrev pub series_of : MetricTimeSeries nu → List (Sample nu)
  series_of mts = samples nu mts.timestamps mts.values

  -- The baseline, raised by the percentage of the configuration, or lowered where lower is worse.
  abbrev pub limit : MetricTimeSeries nu → nu.scores.F
  limit mts =
      let share = nu.div config.threshold_percentile_above_normal (nu.hundredths 10000) in
      if mts.direction == "lower_is_worse"
      then nu.mul (baseline_of nu mts.values) (nu.sub nu.one share)
      else nu.mul (baseline_of nu mts.values) (nu.scores.add nu.one share)

  -- What a value has to come back to: the baseline, and the fraction of the configuration of what the
  -- peak is above it, or below it where lower is worse.
  abbrev pub recovery : MetricTimeSeries nu → nu.scores.F → nu.scores.F
  recovery mts peak =
      let base = baseline_of nu mts.values in
      if mts.direction == "lower_is_worse"
      then nu.sub base (nu.mul (nu.sub base peak) config.recovery_threshold)
      else nu.scores.add base (nu.mul (nu.sub peak base) config.recovery_threshold)

  -- The incident starts at the first sample beyond the threshold; its peak is a sample from there on
  -- that none after it is beyond; and it ends at the first sample after the peak that is recovered,
  -- or with the series.
  pub record IsIncident (mts : MetricTimeSeries nu) (id : String)
      (found : IncidentContext nu.scores) : Type 0 where
    pub start : Sample nu
    pub rest : List (Sample nu)
    pub peak : Sample nu
    pub after : List (Sample nu)
    pub ending : Sample nu
    pub breached : IsBreach nu mts.direction (limit mts) (series_of mts) start rest
    pub peaked : IsPeak nu mts.direction (start ∷ rest) (peak, after)
    pub ended :
        IsEnd nu mts.direction (recovery mts peak.reading) (last_of nu start rest) after ending
    pub bounds :
        found.time_bounds ≡ record { t_start = start.at; t_peak = peak.at; t_end = ending.at }
    pub told :
        (found.id ≡ id)
        × (found.impact_service ≡ mts.series_service)
        × (found.impact_signal.service_name ≡ mts.series_service)
        × (found.impact_signal.metric_name ≡ mts.series_metric)
        × (found.impact_signal.signal_direction ≡ mts.direction)

  -- The error of a series that is not valid; of a valid one nothing, if no value is beyond the
  -- threshold, and else an incident.
  abbrev pub Detects :
      MetricTimeSeries nu → String → SeriesError ⊎ Option (IncidentContext nu.scores) → Type 0
  Detects mts id (inl e) = is_valid_series nu mts ≡ some e
  Detects mts id (inr none) =
      (is_valid_series nu mts ≡ none)
      × All (λ s. Beyond nu mts.direction (limit mts) s.reading false) (series_of mts)
  Detects mts id (inr (some found)) = (is_valid_series nu mts ≡ none) × IsIncident mts id found

  incident_from-Detects :
      (mts : MetricTimeSeries nu) (id : String) (o : Option (Sample nu × List (Sample nu)))
      → is_valid_series nu mts ≡ none
      → Breached nu mts.direction (limit mts) (series_of mts) o
      → Detects mts id (
          inr (
            incident_from nu spike tiny config now mts id
              (baseline_of nu mts.values)
              (limit mts)
              o))
  incident_from-Detects mts id none valid h = (valid, h)
  incident_from-Detects mts id (some (start, rest)) valid h = (
    valid,
    record {
      start = start;
      rest = rest;
      peak = (find_peak nu mts.direction start rest rest).0;
      after = (find_peak nu mts.direction start rest rest).1;
      ending = _;
      breached = h;
      peaked = find_peak_lem nu mts.direction start rest;
      ended = find_end_lem nu mts.direction _ _ _;
      bounds = refl;
      told = (refl, refl, refl, refl, refl);
    },
  )

  -- A series that is not valid gives its error. A valid one gives an incident exactly if a value is
  -- beyond the threshold: from the first such sample, with a peak that no later sample is beyond, to
  -- the first sample after the peak that has come back to the baseline and a fraction of what the
  -- peak is off it, or to the last of the series.
  pub detect_incident_lem :
      (mts : MetricTimeSeries nu) (id : String)
      → Detects mts id (detect_incident nu spike tiny config now mts id)
  unfolding detect_incident
  detect_incident_lem mts id = elim (Option-cases (is_valid_series nu mts)) [
    | inl valid ↦
        rw (detect_incident, valid)
          (incident_from-Detects mts id _ valid (first_breach_lem nu mts.direction _ _))
    | inr (e, invalid) ↦ rw (detect_incident, invalid) invalid
  ]
