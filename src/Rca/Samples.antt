-- ===== src/Rca/Samples.antt =====
-- Small inputs of the analysis: numbers that are natural numbers of hundredths, an incident at a shop,
-- its graph of services, events, groups and candidates.
use Prim.Native.String.{◌++◌ as ◌+++◌}
use mirador_core.Prelude.{
  ℕ, ◌+◌, ◌-◌, ◌*◌, ◌/◌, ◌≡◌, refl, true, false, some, List, [], ◌∷◌, String, arith, ltb, leb, ◌=ℕ◌,
  ◌⊎◌, inr,
}
use mirador_core.Prelude.Int.{ℤ, pos, pos_part}
use mirador_core.Rca.TimeRing.{ring_short, TimeRing}
use mirador_core.Rca.Events.{
  Scores, Numbers, AnomalyEvent, EnrichedAnomalyEvent, new_anomaly_event, signal_type_metrics,
}
use mirador_core.Rca.ServiceGraph
use mirador_core.Rca.ServiceGraph.{
  ServiceEdge, ServiceGraph, new_service_graph, add_edge, IsConsistent,
}
use mirador_core.Rca.Grouping.{AnomalyGroup, new_anomaly_group, default_grouping_config}
use mirador_core.Rca.Dimensions.{RcaDimensionConfig}
use mirador_core.Rca.Chain.{IncidentContext, KpiIncidentMetadata, Wording}
use mirador_core.Rca.Scoring.{
  ScoringConfig, default_scoring_config, CandidateCause, score_candidate, floats,
}
use mirador_core.Rca.Collect.{default_collect_options}
use mirador_core.Rca.Engine.Chains.{EngineWording}
use mirador_core.Rca.Engine.Compute.{AnalysisWording, RcaOptions}

abbrev pub points : Scores
points = record { F = ℕ; zero_score = 0; lt = ltb; add = λ a b. a + b; over = λ a n. a / n }

pub ltb_asymm : (x y : ℕ) → ltb x y ≡ true → ltb y x ≡ false
ltb_asymm x y h = ground arith

pub same_sym : (x y : ℕ) → (x =ℕ y) ≡ (y =ℕ x)
same_sym x y = ground arith

abbrev pub naturals : Numbers
naturals = record {
  scores = points;
  one = 100;
  hundredths = λ n. n;
  of_int = λ z. pos_part z * 100;
  sub = λ a b. a - b;
  mul = λ a b. a * b / 100;
  div = λ a b. a * 100 / b;
  neg = λ a. 0;
  log = λ a. a;
  le = leb;
  same_number = λ a b. a =ℕ b;
  lt_asymm = ltb_asymm;
  same_sym = same_sym;
  zero-zero = refl;
  one-zero = refl;
  one-one = refl;
}

abbrev pub call : String → String → ServiceEdge ℕ
call a b = record { source = a; target = b; stats = 3 }

-- db is called by nobody here, and calls api, which calls web.
abbrev pub shop : ServiceGraph ℕ
shop = add_edge (add_edge new_service_graph (call "db" "api")) (call "api" "web")

pub shop-IsConsistent : IsConsistent shop
shop-IsConsistent =
    ServiceGraph.add_edge-IsConsistent _ _
      (ServiceGraph.add_edge-IsConsistent _ _ ServiceGraph.new_service_graph-IsConsistent)

abbrev pub kpi_of_shop : KpiIncidentMetadata
kpi_of_shop = record {
  kpi_definition_id = "k1";
  kpi_name = "orders";
  kpi_kind = "impact";
  kpi_sentiment = "NEGATIVE";
  impact_is_kpi = true;
}

abbrev pub incident : IncidentContext points
incident = record {
  id = "i1";
  impact_service = "web";
  impact_signal = record {
    service_name = "web";
    metric_name = "error_rate";
    labels = [];
    signal_direction = "higher_is_worse";
    threshold = 5;
  };
  time_bounds = record { t_start = pos 100; t_peak = pos 200; t_end = pos 300 };
  impact_summary = "";
  severity = 80;
  created_at = pos 300;
  kpi_impact_id = "k1";
  kpi_metadata = some kpi_of_shop;
}

abbrev pub event : String → ℕ → AnomalyEvent points
event service at = record (new_anomaly_event points (pos at) service "pool" signal_type_metrics) {
  severity = 70;
  anomaly_score = 60;
}

abbrev pub enriched : TimeRing → ℕ → EnrichedAnomalyEvent points
enriched ring at = record {
  anomaly_event = event "db" at;
  ring = ring;
  graph_direction = "upstream";
  graph_distance_to_impact = pos 2;
  impact_service = "web";
}

abbrev pub group : String → AnomalyGroup points
group service = record (new_anomaly_group points service "pool" ring_short) {
  group_service = service;
  extra_dimension_values = ("env", "prod") ∷ [];
}

abbrev pub scoring : ScoringConfig naturals
scoring = default_scoring_config naturals

abbrev pub candidate : String → CandidateCause naturals
candidate service = record (score_candidate naturals (group service) scoring) {
  group = group service;
}

abbrev pub dimensions : RcaDimensionConfig (floats naturals)
dimensions = record {
  extra_dimensions = "env" ∷ [];
  dimension_weights = [];
  alignment_penalty = 20;
  alignment_bonus = 10;
}

abbrev pub options : RcaOptions naturals
options = record {
  candidate_cause_options = record {
    collect_options = default_collect_options naturals;
    grouping_config = default_grouping_config points;
    scoring_config = scoring;
  };
  dimension_config = dimensions;
  max_chains = pos 5;
  max_steps_per_chain = pos 10;
}

abbrev pub wording : Wording
wording = record {
  own = λ why service component ring at count. service;
  related = λ why service component at ring direction distance impact count. service +++ impact;
  hops = λ n. "hops away";
}

abbrev pub engine_wording : EngineWording ℕ
engine_wording = record {
  summaries = wording;
  event_id = λ i id. "event_" +++ id;
  event_details = λ severity score. "Severity";
  edge_details = λ rate. "Error rate";
}

abbrev pub analysis_wording : AnalysisWording naturals
analysis_wording = record {
  steps = engine_wording;
  notes = record {
    missing_labels_note = λ l. l;
    undetected_note = λ d. d;
    isolation_note = λ i. i;
    metrics_note = λ m. m;
  };
  dimensions = record { missing_note = λ d a b. d; missing_reason = λ d. d };
  config_error = λ e. "Dimension config validation";
  config_warning = λ x. "warning";
  bias_reason = λ name sentiment bias. name +++ sentiment;
}

-- A provider with one event.
abbrev pub provider : ℤ → ℤ → List String → String ⊎ List (AnomalyEvent points)
provider from to services = inr (event "db" 150 ∷ [])
