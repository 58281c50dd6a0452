-- ===== src/Rca/Detector/Validity.antt =====
-- When an incident that is detected passes the validation of incidents.
use mathlib.Core.Path.{subst}
use mirador_core.Prelude.{
  ◌≡◌, ◌≢◌, ◌↔◌, ap, sym, ◌∙◌, true, none, some, ◌∷◌, String, arith, All, Option-cases, inl, inr,
  ◌⊎◌, ne_of_not_same, string_keys,
}
use mirador_core.Prelude.Int.{ℤ, pos_part, neg_part, ◌<ℤ◌}
use mirador_core.Rca.Events.{Numbers, Scores}
use mirador_core.Rca.Chain.{
  IncidentContext, validate, validate_lem, IsComplete, IsOrdered, zero_time, ContextError, Verdict,
  Lacks, no_id, no_impact_service, no_signal_service, no_metric, bad_direction, bad_time_bounds,
}
use mirador_core.Rca.Detector.Defs.{
  IncidentDetectorConfig, MetricTimeSeries, is_valid_series, Sample, SpikeText, are_ordered,
  detect_incident,
}
use mirador_core.Rca.Detector.Parts.{Rising, Rising-right, All-right}
use mirador_core.Rca.Detector.Order.{
  samples-Rising, samples-All, peak_later, parts-All, ending_later,
}
use mirador_core.Rca.Detector.Laws.{IsIncident, Detects, detect_incident_lem, series_of}

rises_apart : {t u : ℤ} → t <ℤ u → t ≢ u
rises_apart h p = omega (arith, ap pos_part p, ap neg_part p)

module _ (sc : Scores) where
  not_lacking : (e : ContextError) (ic : IncidentContext sc) → IsComplete sc ic → Lacks sc e ic → ⊥
  not_lacking no_id ic c h = c.has_id h
  not_lacking no_impact_service ic c h = c.has_service h
  not_lacking no_signal_service ic c h = c.has_signal_service h
  not_lacking no_metric ic c h = c.has_metric h
  not_lacking bad_direction ic c h = elim c.has_direction [ inl d ↦ h.0 d | inr d ↦ h.1 d ]
  not_lacking bad_time_bounds ic c h = h c.ordered

  IsComplete-validate : (ic : IncidentContext sc) → (validate sc ic ≡ none) ↔ IsComplete sc ic
  IsComplete-validate ic = (
    λ h. subst (λ v. Verdict sc v ic) h (validate_lem sc ic),
    λ c. elim (Option-cases (validate sc ic)) [
      | inl h ↦ h
      | inr (e, h) ↦
          absurd (not_lacking e ic c (subst (λ v. Verdict sc v ic) h (validate_lem sc ic)))
    ],
  )

module _ (nu : Numbers) where
  record IsSeries (mts : MetricTimeSeries nu) : Type 0 where
    service : mts.series_service ≢ ""
    metric : mts.series_metric ≢ ""
    ordered : are_ordered mts.timestamps ≡ true

  is_valid_series-IsSeries :
      (mts : MetricTimeSeries nu) → is_valid_series nu mts ≡ none → IsSeries mts
  unfolding is_valid_series
  is_valid_series-IsSeries mts h = record {
    service = ne_of_not_same mts.series_service "" (ground arith);
    metric = ne_of_not_same mts.series_metric "" (ground arith);
    ordered = ground arith;
  }

  abbrev pub IsKnown : String → Type 0
  IsKnown direction = (direction ≡ "higher_is_worse") ⊎ (direction ≡ "lower_is_worse")

  module _ (spike : SpikeText nu) (tiny : nu.scores.F) (config : IncidentDetectorConfig nu)
      (now : ℤ) (mts : MetricTimeSeries nu) (id : String) (found : IncidentContext nu.scores) where
    abbrev IsFound : Type 0
    IsFound = IsIncident nu spike tiny config now mts id found

    module _ (i : IsFound) where
      from_start :
          (P : Sample nu → Type 0)
          → All P (series_of nu spike tiny config now mts)
          → All P (i.start ∷ i.rest)
      from_start P h =
          All-right P i.breached.before (i.start ∷ i.rest) (subst (All P) i.breached.series h)

      rising : IsSeries mts → Rising nu (i.start ∷ i.rest)
      rising s = Rising-right nu i.breached.before (i.start ∷ i.rest) (
          subst (Rising nu) i.breached.series
            (samples-Rising nu mts.timestamps mts.values s.ordered))

      parts-IsOrdered :
          IsSeries mts
          → All (λ t. t ≢ zero_time) mts.timestamps
          → found.time_bounds.t_start ≢ found.time_bounds.t_peak
          → IsOrdered found.time_bounds
      parts-IsOrdered s times apart =
          subst (λ b. b.t_start ≢ b.t_peak → IsOrdered b) (sym i.bounds) in_order apart
        where
          present : (i.start.at ≢ zero_time) × (i.peak.at ≢ zero_time) × (i.ending.at ≢ zero_time)
          present =
              parts-All nu mts.direction i.start i.rest i.peak i.after i.peaked _ i.ending
                (λ x. x.at ≢ zero_time) i.ended
                (from_start _ (samples-All nu (λ t. t ≢ zero_time) mts.timestamps mts.values times))

          in_order :
              i.start.at ≢ i.peak.at
              → IsOrdered (record { t_start = i.start.at; t_peak = i.peak.at; t_end = i.ending.at })
          in_order differ = record {
            started = present.0;
            peaked = present.1;
            ended = present.2;
            rises =
                elim (peak_later nu mts.direction i.start i.rest i.peak i.after i.peaked
                  (rising s)) [ inl same ↦ absurd (differ same) | inr later ↦ later ];
            falls =
                ending_later nu mts.direction i.start i.rest i.peak i.after i.peaked _ i.ending
                  i.ended (rising s);
          }

      complete :
          IsSeries mts
          → id ≢ ""
          → IsKnown mts.direction
          → IsOrdered found.time_bounds
          → IsComplete nu.scores found
      complete s named known o =
          let (a, b, c, d, e) = i.told in
          record {
            has_id = λ p. named (sym a ∙ p);
            has_service = λ p. s.service (sym b ∙ p);
            has_signal_service = λ p. s.service (sym c ∙ p);
            has_metric = λ p. s.metric (sym d ∙ p);
            has_direction = subst IsKnown (sym e) known;
            ordered = o;
          }

    -- Of a series without the zero time, an incident that is detected under an identifier and in a known direction
    -- passes the validation of incidents exactly if its peak is not its start.
    pub detect_incident-validate :
        detect_incident nu spike tiny config now mts id ≡ inr (some found)
        → id ≢ ""
        → IsKnown mts.direction
        → All (λ t. t ≢ zero_time) mts.timestamps
        → (validate nu.scores found ≡ none) ↔ (found.time_bounds.t_start ≢ found.time_bounds.t_peak)
    detect_incident-validate h named known times =
        let (valid, i) =
          subst (Detects nu spike tiny config now mts id) h
            (detect_incident_lem nu spike tiny config now mts id) in
        let s = is_valid_series-IsSeries mts valid in
        (
          λ v p. rises_apart ((IsComplete-validate nu.scores found).0 v).ordered.rises p,
          λ apart.
              (IsComplete-validate nu.scores found).1
                (complete i s named known (parts-IsOrdered i s times apart)),
        )
