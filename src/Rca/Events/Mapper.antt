-- ===== src/Rca/Events/Mapper.antt =====
-- `AnomalyEventMapper`. The attributes of a record of telemetry are values
-- of any type; the mapper looks for truth values, numbers and texts.
use Prim.Native.String.{◌++◌ as ◌+++◌}
use mirador_core.Prelude.{
  Bool, true, false, Option, none, some, List, [], ◌∷◌, ◌++◌, String, if◌then◌else◌, ◌==◌, GoMap,
  fetch, store, string_keys,
}
use mirador_core.Prelude.Int.{ℤ, pos, time_sub}
use mirador_core.Rca.Events.Defs.{
  Numbers, AnomalyEvent, new_anomaly_event, severity_medium, signal_type_traces,
}
use mirador_core.Rca.Events.Build.{
  copy_tags, anomaly_event_from_isolation_forest_span, anomaly_event_from_metric,
  anomaly_event_from_log, anomaly_event_from_error_span, is_error,
}

pub data Attribute (F : Type 0) : Type 0 where
  truth : Bool → Attribute F
  number : F → Attribute F
  text : String → Attribute F
  other : Attribute F

module _ {F : Type 0} where
  -- `m[key].(bool)`, `m[key].(float64)` and `m[key].(string)`.
  abbrev pub as_bool : Option (Attribute F) → Option Bool
  as_bool (some (truth b)) = some b
  as_bool _ = none

  abbrev pub as_number : Option (Attribute F) → Option F
  as_number (some (number x)) = some x
  as_number _ = none

  abbrev pub as_text : Option (Attribute F) → Option String
  as_text (some (text s)) = some s
  as_text _ = none

module _ (nu : Numbers) where
  abbrev pub Attributes : Type 0
  Attributes = GoMap String (Attribute nu.scores.F)

  pub record AnomalyEventConfig : Type 0 where
    pub iforest_classification_attribute : String
    pub iforest_score_attribute : String
    pub latency_p99_threshold : nu.scores.F

  pub record SpanData : Type 0 where
    pub span_id : String
    pub span_service : String
    pub span_name : String
    pub duration_ms : nu.scores.F
    pub error_status : Bool
    pub error_message : String
    pub span_timestamp : ℤ
    pub span_attributes : Attributes
    pub span_tags : GoMap String String

  pub record LogData : Type 0 where
    pub log_id : String
    pub log_service : String
    pub log_severity : String
    pub log_timestamp : ℤ
    pub log_attributes : Attributes
    pub log_tags : GoMap String String

  pub record MetricData : Type 0 where
    pub metric_service : String
    pub metric_name : String
    pub value : nu.scores.F
    pub metric_timestamp : ℤ
    pub metric_attributes : Attributes
    pub metric_tags : GoMap String String

  module _ (now : ℤ) (aem : AnomalyEventConfig) where
    abbrev pub classification : Attributes → Option Bool
    classification attributes = as_bool (fetch attributes aem.iforest_classification_attribute)

    abbrev pub forest_score : Attributes → Option nu.scores.F
    forest_score attributes = as_number (fetch attributes aem.iforest_score_attribute)

    abbrev pub flag_error : Bool → GoMap String Bool → GoMap String Bool
    flag_error error flags = if error then store flags "span_error" true else flags

    abbrev pub forest_event : SpanData → Bool → nu.scores.F → AnomalyEvent nu.scores
    forest_event span is_anomaly score =
        let event : AnomalyEvent nu.scores =
          anomaly_event_from_isolation_forest_span nu now span.span_id span.span_service
            span.span_name span.duration_ms is_anomaly score span.span_tags in
        record event {
          timestamp = span.span_timestamp;
          error_flags = flag_error span.error_status event.error_flags;
        }

    abbrev pub error_events : SpanData → List (AnomalyEvent nu.scores)
    error_events span =
        if span.error_status
        then record (anomaly_event_from_error_span nu now span.span_id span.span_service
            span.span_name span.error_message span.duration_ms span.span_tags) {
              timestamp = span.span_timestamp;
            }
          ∷ []
        else []

    abbrev pub latency_events : SpanData → List (AnomalyEvent nu.scores)
    latency_events span =
        let event : AnomalyEvent nu.scores =
          new_anomaly_event nu.scores now span.span_service "span" signal_type_traces in
        if nu.scores.lt aem.latency_p99_threshold span.duration_ms
        then record event {
          source_id = span.span_id;
          source_type = "span";
          metric_or_field = "span_duration_ms";
          field_value = span.duration_ms;
          severity = severity_medium nu;
          confidence = nu.hundredths 70;
          error_flags = store event.error_flags "latency_high" true;
          timestamp = span.span_timestamp;
          tags = copy_tags span.span_tags event.tags;
        }
          ∷ []
        else []

    -- The two attributes are there, or the rules on errors and latency decide.
    abbrev pub events_of :
        Option Bool → Option nu.scores.F → SpanData → List (AnomalyEvent nu.scores)
    events_of (some is_anomaly) (some score) span = forest_event span is_anomaly score ∷ []
    events_of _ _ span = error_events span ++ latency_events span

    unfoldable pub map_span_to_anomaly_events : SpanData → List (AnomalyEvent nu.scores)
    unfolding anomaly_event_from_isolation_forest_span anomaly_event_from_error_span
        new_anomaly_event copy_tags
    map_span_to_anomaly_events span =
        events_of (classification span.span_attributes) (forest_score span.span_attributes) span

    abbrev pub score_or_half : Option nu.scores.F → nu.scores.F
    score_or_half (some score) = score
    score_or_half none = nu.hundredths 50

    abbrev pub log_event : LogData → Bool → Option nu.scores.F → AnomalyEvent nu.scores
    log_event log is_anomaly score =
        record (anomaly_event_from_log nu now log.log_id log.log_service log.log_severity is_anomaly
          score log.log_tags) { timestamp = log.log_timestamp }

    unfoldable pub map_log_to_anomaly_event : LogData → Option (AnomalyEvent nu.scores)
    unfolding anomaly_event_from_log
    map_log_to_anomaly_event log = elim (classification log.log_attributes) [
      | some is_anomaly ↦
          some (log_event log is_anomaly (some (score_or_half (forest_score log.log_attributes))))
      | none ↦ if is_error nu now log.log_severity then some (log_event log false none) else none
    ]

    abbrev pub metric_event :
        Option Bool → Option nu.scores.F → MetricData → Option (AnomalyEvent nu.scores)
    metric_event (some is_anomaly) (some score) metric =
        some
          (record (anomaly_event_from_metric nu now metric.metric_service metric.metric_name
            metric.value is_anomaly score metric.metric_tags) {
              timestamp = metric.metric_timestamp;
            })
    metric_event _ _ metric = none

    unfoldable pub map_metric_to_anomaly_event : MetricData → Option (AnomalyEvent nu.scores)
    unfolding anomaly_event_from_metric
    map_metric_to_anomaly_event metric =
        metric_event (classification metric.metric_attributes)
          (forest_score metric.metric_attributes) metric

  pub record RawTraceSpan : Type 0 where
    pub raw_span_id : String
    pub raw_service : String
    pub raw_name : String
    pub start_time : ℤ
    pub end_time : ℤ
    pub status : String
    pub raw_attributes : Attributes

  -- A text that is there under its key.
  abbrev pub tag_text : String → Attributes → GoMap String String → GoMap String String
  tag_text key attributes tags = elim (as_text (fetch attributes key)) [
    | some t ↦ store tags key t
    | none ↦ tags
  ]

  -- `seconds` is `Duration.Seconds`.
  unfoldable pub map_raw_span_to_span_data : (ℤ → nu.scores.F) → RawTraceSpan → SpanData
  map_raw_span_to_span_data seconds raw = record {
    span_id = raw.raw_span_id;
    span_service = raw.raw_service;
    span_name = raw.raw_name;
    duration_ms = nu.mul (seconds (time_sub raw.end_time raw.start_time)) (nu.of_int (pos 1000));
    error_status = raw.status == "ERROR";
    error_message = "Span status: " +++ raw.status;
    span_timestamp = raw.start_time;
    span_attributes = raw.raw_attributes;
    span_tags =
        tag_text "transaction_id" raw.raw_attributes
          (tag_text "trace_id" raw.raw_attributes (tag_text "service" raw.raw_attributes []));
  }
