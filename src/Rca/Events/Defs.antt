-- ===== src/Rca/Events/Defs.antt =====
-- `AnomalyEvent` and `EnrichedAnomalyEvent`. Severities and scores are floating-point numbers, of
-- which only the operations that the code applies are given; an instant is a count of nanoseconds.
use mirador_core.Prelude.{
  ℕ, ◌≡◌, Bool, true, false, ◌&&◌, not, Option, none, [], String, if◌then◌else◌, ◌==◌, GoMap,
  string_keys,
}
use mirador_core.Prelude.Int.{ℤ}
use mirador_core.Rca.TimeRing.{TimeRing, ring_immediate, ring_short, ring_out_of_scope}

-- A `float64` with its zero, `<`, `+` and the quotient by a count.
pub record Scores : Type 1 where
  pub F : Type 0
  pub zero_score : F
  pub lt : F → F → Bool
  pub add : F → F → F
  pub over : F → ℕ → F

-- The other operations of a `float64`; a constant that the code writes is a number of hundredths.
-- Of the order only what holds with NaN too is assumed.
pub record Numbers : Type 1 where
  pub scores : Scores
  pub one : scores.F
  pub hundredths : ℕ → scores.F
  pub of_int : ℤ → scores.F
  pub sub : scores.F → scores.F → scores.F
  pub mul : scores.F → scores.F → scores.F
  pub div : scores.F → scores.F → scores.F
  pub neg : scores.F → scores.F
  pub log : scores.F → scores.F
  pub le : scores.F → scores.F → Bool
  pub same_number : scores.F → scores.F → Bool
  pub lt_asymm : (x y : scores.F) → scores.lt x y ≡ true → scores.lt y x ≡ false
  pub same_sym : (x y : scores.F) → same_number x y ≡ same_number y x
  pub zero-zero : scores.lt scores.zero_score scores.zero_score ≡ false
  pub one-zero : scores.lt one scores.zero_score ≡ false
  pub one-one : scores.lt one one ≡ false

abbrev pub direction_upstream : String
direction_upstream = "upstream"

abbrev pub direction_downstream : String
direction_downstream = "downstream"

abbrev pub direction_same : String
direction_same = "same"

abbrev pub direction_unknown : String
direction_unknown = "unknown"

abbrev pub signal_type_metrics : String
signal_type_metrics = "metrics"

abbrev pub signal_type_traces : String
signal_type_traces = "traces"

abbrev pub signal_type_logs : String
signal_type_logs = "logs"

module _ (sc : Scores) where
  pub record AnomalyEvent : Type 0 where
    pub id : String
    pub timestamp : ℤ
    pub service : String
    pub component : String
    pub signal_type : String
    pub metric_or_field : String
    pub field_value : sc.F
    pub field_value_string : String
    pub severity : sc.F
    pub anomaly_score : sc.F
    pub confidence : sc.F
    pub error_flags : GoMap String Bool
    pub tags : GoMap String String
    pub source_id : String
    pub source_type : String
    pub iforest_classification : Option Bool
    pub iforest_score : Option sc.F

  pub record EnrichedAnomalyEvent : Type 0 where
    pub anomaly_event : AnomalyEvent
    pub ring : TimeRing
    pub graph_direction : String
    pub graph_distance_to_impact : ℤ
    pub impact_service : String

  -- The instant `now` is the clock's.
  unfoldable pub new_anomaly_event : ℤ → String → String → String → AnomalyEvent
  new_anomaly_event now service component signal_type = record {
    id = "";
    timestamp = now;
    service = service;
    component = component;
    signal_type = signal_type;
    metric_or_field = "";
    field_value = sc.zero_score;
    field_value_string = "";
    severity = sc.zero_score;
    anomaly_score = sc.zero_score;
    confidence = sc.zero_score;
    error_flags = [];
    tags = [];
    source_id = "";
    source_type = "";
    iforest_classification = none;
    iforest_score = none;
  }

abbrev pub is_candidate : TimeRing → Bool
is_candidate ring_out_of_scope = false
is_candidate _ = true

abbrev pub is_near : TimeRing → Bool
is_near ring_immediate = true
is_near ring_short = true
is_near _ = false

module _ (nu : Numbers) where
  abbrev pub severity_low : nu.scores.F
  severity_low = nu.hundredths 25

  abbrev pub severity_medium : nu.scores.F
  severity_medium = nu.hundredths 50

  abbrev pub severity_high : nu.scores.F
  severity_high = nu.hundredths 75

  abbrev pub severity_critical : nu.scores.F
  severity_critical = nu.one

  unfoldable pub is_high_priority : EnrichedAnomalyEvent nu.scores → Bool
  is_high_priority eae =
      if not (is_candidate eae.ring)
      then false
      else if not (is_near eae.ring)
      then false
      else if not (eae.graph_direction == direction_same)
          && not (eae.graph_direction == direction_upstream)
      then false
      else if nu.scores.lt eae.anomaly_event.severity severity_medium
      then false
      else true
