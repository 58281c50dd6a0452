-- ===== src/Rca/Events/Tests.antt =====
-- The mapping of telemetry at a span that failed.
use mirador_core.Prelude.{◌≡◌, ◌||◌, refl, true, false, [], ◌∷◌, map, All, fetch, string_keys}
use mirador_core.Prelude.Int.{pos}
use mirador_core.Rca.Samples.{naturals}
use mirador_core.Rca.Events.Build.{severity_of_score}
use mirador_core.Rca.Events.Mapper.{
  AnomalyEventConfig, SpanData, map_span_to_anomaly_events, truth, number,
}
use mirador_core.Rca.Events.Laws
use mirador_core.Rca.Events.Laws.{TellsOf, is_nonempty, is_classified}

abbrev config : AnomalyEventConfig naturals
config = record {
  iforest_classification_attribute = "iforest_is_anomaly";
  iforest_score_attribute = "iforest_anomaly_score";
  latency_p99_threshold = 2000;
}

abbrev failed : SpanData naturals
failed = record {
  span_id = "s1";
  span_service = "api";
  span_name = "GET";
  duration_ms = 30;
  error_status = true;
  error_message = "Span status: ERROR";
  span_timestamp = pos 7;
  span_attributes = ("iforest_is_anomaly", truth false) ∷ ("iforest_anomaly_score", number 90) ∷ [];
  span_tags = [];
}

-- A span that failed but is classified as normal gives one event of the severity LOW.
classified_low :
    map (λ e. e.severity) (map_span_to_anomaly_events naturals (pos 0) config failed) ≡ 25 ∷ []
unfolding map_span_to_anomaly_events severity_of_score fetch
classified_low = refl

map_span_lem_example :
    All
      (TellsOf naturals (pos 0) config failed)
      (map_span_to_anomaly_events naturals (pos 0) config failed)
    × (is_nonempty (map_span_to_anomaly_events naturals (pos 0) config failed) ≡ (
        is_classified naturals (pos 0) config failed.span_attributes
        || (true || naturals.scores.lt config.latency_p99_threshold failed.duration_ms)))
map_span_lem_example = Laws.map_span_lem naturals (pos 0) config failed
