-- ===== src/Rca/Chain/Context.antt =====
-- `IncidentContext` with its window of time. Instants are of one location, so that `!=` compares
-- them; the zero time is that of the year 1. An error is the check that failed.
use mirador_core.Prelude.{
  ◌*◌, ◌-◌, Bool, true, false, ◌&&◌, ◌||◌, not, Option, none, some, String, if◌then◌else◌, ◌==◌,
  string_keys, int_keys, GoMap,
}
use mirador_core.Prelude.Int.{ℤ, negsuc, ltb_ℤ, time_sub}
use mirador_core.Rca.Events.{Scores}

abbrev pub zero_time : ℤ
zero_time = negsuc (62_135_596_800 * 1_000_000_000 - 1)

abbrev pub is_zero : ℤ → Bool
is_zero t = t == zero_time

pub record IncidentTimeWindow : Type 0 where
  pub t_start : ℤ
  pub t_peak : ℤ
  pub t_end : ℤ

unfoldable pub duration : IncidentTimeWindow → ℤ
duration itw = time_sub itw.t_end itw.t_start

unfoldable pub is_valid : IncidentTimeWindow → Bool
is_valid itw =
    if is_zero itw.t_start || is_zero itw.t_peak || is_zero itw.t_end
    then false
    else if not (ltb_ℤ itw.t_start itw.t_peak)
    then false
    else if not (ltb_ℤ itw.t_peak itw.t_end) && not (itw.t_peak == itw.t_end)
    then false
    else true

pub record KpiIncidentMetadata : Type 0 where
  pub kpi_definition_id : String
  pub kpi_name : String
  pub kpi_kind : String
  pub kpi_sentiment : String
  pub impact_is_kpi : Bool

pub data ContextError : Type 0 where
  no_id no_impact_service no_signal_service no_metric bad_direction bad_time_bounds : ContextError

module _ (sc : Scores) where
  pub record ImpactSignal : Type 0 where
    pub service_name : String
    pub metric_name : String
    pub labels : GoMap String String
    pub signal_direction : String
    pub threshold : sc.F

  pub record IncidentContext : Type 0 where
    pub id : String
    pub impact_service : String
    pub impact_signal : ImpactSignal
    pub time_bounds : IncidentTimeWindow
    pub impact_summary : String
    pub severity : sc.F
    pub created_at : ℤ
    pub kpi_impact_id : String
    pub kpi_metadata : Option KpiIncidentMetadata

  unfoldable pub validate : IncidentContext → Option ContextError
  unfolding is_valid
  validate ic =
      if ic.id == ""
      then some no_id
      else if ic.impact_service == ""
      then some no_impact_service
      else if ic.impact_signal.service_name == ""
      then some no_signal_service
      else if ic.impact_signal.metric_name == ""
      then some no_metric
      else if not (ic.impact_signal.signal_direction == "higher_is_worse")
          && not (ic.impact_signal.signal_direction == "lower_is_worse")
      then some bad_direction
      else if not (is_valid ic.time_bounds)
      then some bad_time_bounds
      else none
