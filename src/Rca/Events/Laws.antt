-- ===== src/Rca/Events/Laws.antt =====
-- When the mapper makes events of a span, a log or a metric, and what they carry over.
use mirador_core.Prelude.{
  ◌≡◌, refl, Bool, true, false, ◌||◌, Option, none, some, List, [], ◌∷◌, ◌++◌, arith, Bool-cases,
  inl, inr, All,
}
use mirador_core.Prelude.Int.{ℤ}
use mirador_core.Rca.Events.Defs.{Numbers, AnomalyEvent, signal_type_traces}
use mirador_core.Rca.Events.Build.{copy_tags, is_error}
use mirador_core.Rca.Events.Mapper.{
  AnomalyEventConfig, SpanData, LogData, MetricData, map_span_to_anomaly_events,
  map_log_to_anomaly_event, map_metric_to_anomaly_event, classification, forest_score, events_of,
  error_events, latency_events, metric_event, Attributes,
}

module _ {ℓ} {A : Type ℓ} where
  abbrev pub is_present : Option A → Bool
  is_present none = false
  is_present (some a) = true

  abbrev pub is_nonempty : List A → Bool
  is_nonempty [] = false
  is_nonempty (x ∷ xs) = true

module _ (nu : Numbers) (now : ℤ) (aem : AnomalyEventConfig nu) where
  -- The event tells of the span: its service, instant, identifier and tags.
  abbrev pub TellsOf : SpanData nu → AnomalyEvent nu.scores → Type 0
  TellsOf span e =
      (e.service ≡ span.span_service)
      × (e.timestamp ≡ span.span_timestamp)
      × (e.source_id ≡ span.span_id)
      × (e.signal_type ≡ signal_type_traces)
      × (e.tags ≡ copy_tags span.span_tags [])

  abbrev pub both : Option Bool → Option nu.scores.F → Bool
  both (some _) (some _) = true
  both _ _ = false

  -- Both attributes of the isolation forest are there.
  abbrev pub is_classified : Attributes nu → Bool
  is_classified attributes =
      both (classification nu now aem attributes) (forest_score nu now aem attributes)

  rule_events :
      (span : SpanData nu)
      → All (TellsOf span) (error_events nu now aem span ++ latency_events nu now aem span)
        × (is_nonempty (error_events nu now aem span ++ latency_events nu now aem span)
            ≡ (span.error_status || nu.scores.lt aem.latency_p99_threshold span.duration_ms))
  unfolding map_span_to_anomaly_events
  rule_events span = elim (Bool-cases span.error_status) [
    | inl failed ↦ elim (Bool-cases (nu.scores.lt aem.latency_p99_threshold span.duration_ms)) [
      | inl slow ↦ ground arith
      | inr fast ↦ ground arith
    ]
    | inr fine ↦ elim (Bool-cases (nu.scores.lt aem.latency_p99_threshold span.duration_ms)) [
      | inl slow ↦ ground arith
      | inr fast ↦ ground arith
    ]
  ]

  split_events :
      (c : Option Bool) (score : Option nu.scores.F) (span : SpanData nu)
      → All (TellsOf span) (events_of nu now aem c score span)
        × (is_nonempty (events_of nu now aem c score span) ≡ (
            both c score
            || (span.error_status || nu.scores.lt aem.latency_p99_threshold span.duration_ms)))
  unfolding map_span_to_anomaly_events
  split_events (some is_anomaly) (some score) span = ((((refl, refl, refl, refl, refl), tt)), refl)
  split_events (some is_anomaly) none span = rule_events span
  split_events none (some score) span = rule_events span
  split_events none none span = rule_events span

  -- Each event that a span gives tells of the span, and the span gives one exactly if both attributes
  -- of the isolation forest are there, whatever they say, or it failed, or it took longer than the
  -- threshold.
  pub map_span_lem :
      (span : SpanData nu)
      → All (TellsOf span) (map_span_to_anomaly_events nu now aem span)
        × (is_nonempty (map_span_to_anomaly_events nu now aem span) ≡ (
            is_classified span.span_attributes
            || (span.error_status || nu.scores.lt aem.latency_p99_threshold span.duration_ms)))
  unfolding map_span_to_anomaly_events
  map_span_lem span =
      split_events (classification nu now aem span.span_attributes)
        (forest_score nu now aem span.span_attributes) span

  metric_present :
      (c : Option Bool) (score : Option nu.scores.F) (metric : MetricData nu)
      → is_present (metric_event nu now aem c score metric) ≡ both c score
  unfolding map_metric_to_anomaly_event
  metric_present (some is_anomaly) (some score) metric = refl
  metric_present (some is_anomaly) none metric = refl
  metric_present none (some score) metric = refl
  metric_present none none metric = refl

  -- A metric gives an event exactly if both attributes are there, so also one that the isolation
  -- forest takes for normal; a log gives one exactly if the classification is there, whatever it
  -- says, or its severity is an error.
  pub map_metric_log_lem :
      (metric : MetricData nu) (log : LogData nu)
      → (is_present (map_metric_to_anomaly_event nu now aem metric)
          ≡ is_classified metric.metric_attributes)
        × (is_present (map_log_to_anomaly_event nu now aem log) ≡ (
            is_present (classification nu now aem log.log_attributes)
            || is_error nu now log.log_severity))
  unfolding map_metric_to_anomaly_event map_log_to_anomaly_event
  map_metric_log_lem metric log = (
    metric_present (classification nu now aem metric.metric_attributes)
        (forest_score nu now aem metric.metric_attributes) metric,
    ground arith,
  )
