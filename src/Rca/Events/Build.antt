-- ===== src/Rca/Events/Build.antt =====
-- The constructors of events. `now` is the clock's instant; the loop that copies a map stores its
-- entries one by one.
use mirador_core.Prelude.{
  Bool, true, ◌||◌, Option, some, [], ◌∷◌, String, if◌then◌else◌, ◌==◌, GoMap, store, string_keys,
}
use mirador_core.Prelude.Int.{ℤ}
use mirador_core.Rca.Events.Defs.{
  Numbers, AnomalyEvent, new_anomaly_event, severity_low, severity_medium, severity_high,
  severity_critical, signal_type_traces, signal_type_metrics, signal_type_logs,
}

unfoldable pub copy_tags : GoMap String String → GoMap String String → GoMap String String
copy_tags [] tags = tags
copy_tags (entry ∷ entries) tags = copy_tags entries (store tags entry.0 entry.1)

module _ (nu : Numbers) (now : ℤ) where
  -- The severity by the anomaly score.
  unfoldable pub severity_of_score : Bool → nu.scores.F → nu.scores.F
  severity_of_score is_anomaly anomaly_score =
      if is_anomaly
      then (if nu.scores.lt (nu.hundredths 80) anomaly_score
          then severity_critical nu
          else if nu.scores.lt (nu.hundredths 60) anomaly_score
          then severity_high nu
          else if nu.scores.lt (nu.hundredths 40) anomaly_score
          then severity_medium nu
          else severity_low nu)
      else severity_low nu

  unfoldable pub anomaly_event_from_isolation_forest_span :
      String
      → String
      → String
      → nu.scores.F
      → Bool
      → nu.scores.F
      → GoMap String String
      → AnomalyEvent nu.scores
  unfolding new_anomaly_event severity_of_score copy_tags
  anomaly_event_from_isolation_forest_span span_id service span_name duration is_anomaly score
        tags =
      let ae : AnomalyEvent nu.scores =
        new_anomaly_event nu.scores now service "span" signal_type_traces in
      record ae {
        source_id = span_id;
        source_type = "span";
        metric_or_field = span_name;
        field_value = duration;
        iforest_classification = some is_anomaly;
        iforest_score = some score;
        anomaly_score = score;
        severity = severity_of_score is_anomaly score;
        confidence = score;
        tags = copy_tags tags ae.tags;
      }

  unfoldable pub anomaly_event_from_metric :
      String
      → String
      → nu.scores.F
      → Bool
      → nu.scores.F
      → GoMap String String
      → AnomalyEvent nu.scores
  unfolding new_anomaly_event severity_of_score copy_tags
  anomaly_event_from_metric service metric_name metric_value is_anomaly score attributes =
      let ae : AnomalyEvent nu.scores =
        new_anomaly_event nu.scores now service "metric" signal_type_metrics in
      record ae {
        metric_or_field = metric_name;
        field_value = metric_value;
        iforest_classification = some is_anomaly;
        iforest_score = some score;
        anomaly_score = score;
        severity = severity_of_score is_anomaly score;
        confidence = score;
        source_type = "metric";
        tags = copy_tags attributes ae.tags;
      }

  abbrev pub is_error : String → Bool
  is_error severity = severity == "ERROR" || severity == "FATAL"

  -- The switch on the severity of the log.
  unfoldable pub severity_of_log : String → nu.scores.F
  severity_of_log severity =
      if severity == "FATAL" || severity == "CRITICAL"
      then severity_critical nu
      else if severity == "ERROR"
      then severity_high nu
      else if severity == "WARN"
      then severity_medium nu
      else severity_low nu

  -- What the classification adds; without one, the confidence by the severity.
  abbrev pub classified :
      Bool → Option nu.scores.F → String → AnomalyEvent nu.scores → AnomalyEvent nu.scores
  classified true (some score) severity ae = record ae {
    iforest_classification = some true;
    iforest_score = some score;
    anomaly_score = score;
    confidence = score;
  }
  classified _ _ severity ae = record ae {
    confidence = if is_error severity then nu.hundredths 90 else nu.hundredths 50;
  }

  unfoldable pub anomaly_event_from_log :
      String
      → String
      → String
      → Bool
      → Option nu.scores.F
      → GoMap String String
      → AnomalyEvent nu.scores
  unfolding new_anomaly_event severity_of_log copy_tags
  anomaly_event_from_log log_id service severity is_anomaly score attributes =
      let ae : AnomalyEvent nu.scores =
        new_anomaly_event nu.scores now service "logs" signal_type_logs in
      let ae : AnomalyEvent nu.scores = record ae {
        source_id = log_id;
        source_type = "log";
        metric_or_field = "severity";
        field_value_string = severity;
        error_flags =
            if is_error severity then store ae.error_flags "log_error" true else ae.error_flags;
        severity = severity_of_log severity;
      } in
      let ae : AnomalyEvent nu.scores = classified is_anomaly score severity ae in
      record ae { tags = copy_tags attributes ae.tags }

  unfoldable pub anomaly_event_from_error_span :
      String → String → String → String → nu.scores.F → GoMap String String → AnomalyEvent nu.scores
  unfolding new_anomaly_event copy_tags
  anomaly_event_from_error_span span_id service span_name error_message duration tags =
      let ae : AnomalyEvent nu.scores =
        new_anomaly_event nu.scores now service "span" signal_type_traces in
      record ae {
        source_id = span_id;
        source_type = "span";
        metric_or_field = span_name;
        field_value = duration;
        field_value_string = error_message;
        severity = severity_high nu;
        confidence = nu.hundredths 95;
        error_flags = store ae.error_flags "span_error" true;
        tags = copy_tags tags ae.tags;
      }
