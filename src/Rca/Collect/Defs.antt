-- ===== src/Rca/Collect/Defs.antt =====
-- `IncidentAnomalyCollector` and `CandidateCauseServiceImpl`. The provider of anomalies is a
-- parameter, and the loggers are left out. The sum on instants is exact.
use mirador_core.Prelude.{
  ℕ, Bool, true, false, ◌&&◌, not, Option, none, some, List, [], ◌++◌, map, String, if◌then◌else◌,
  ◌==◌, ◌=ℕ◌, ltb, length, keep, contains, string_keys, ◌⊎◌, inl, inr,
}
use mirador_core.Prelude.Int.{ℤ, pos, negsuc, ltb_ℤ, ◌-ℤ◌, pos_part}
use mirador_core.Prelude.Sorting.{sort_by}
use mirador_core.Rca.TimeRing.{
  TimeRing, TimeRingConfig, default_time_ring_config, assign_time_ring, priority, ring_immediate,
  ring_short, ring_medium, ring_long,
}
use mirador_core.Rca.Events.{
  Numbers, AnomalyEvent, EnrichedAnomalyEvent, direction_upstream, direction_downstream,
  direction_same, direction_unknown,
}
use mirador_core.Rca.ServiceGraph.{ServiceGraph, is_upstream}
use mirador_core.Rca.ServiceGraph.ShortestPath.{shortest_path}
use mirador_core.Rca.Grouping.{GroupingConfig, AnomalyGroup, group_enriched_anomalies}
use mirador_core.Rca.Chain.{ContextError, IncidentContext, validate}
use mirador_core.Rca.Scoring.{ScoringConfig, CandidateCause, rank_candidate_causes, take}

-- The errors, each with what it wraps; `E` is that of the provider.
pub data RcaError (E : Type 0) : Type 0 where
  invalid_context : ContextError → RcaError E
  failed_to_get_anomalies : E → RcaError E
  failed_to_collect : RcaError E → RcaError E
  failed_to_compute : RcaError E → RcaError E

-- The check at the head of each entry point.
abbrev pub unless_invalid : {E A : Type 0} → Option ContextError → RcaError E ⊎ A → RcaError E ⊎ A
unless_invalid none rest = rest
unless_invalid (some e) rest = inl (invalid_context e)

-- A call whose error is wrapped and whose result is worked on.
abbrev pub or_fail : {D E A B : Type 0} → (D → RcaError E) → (A → B) → D ⊎ A → RcaError E ⊎ B
or_fail wrap work (inl e) = inl (wrap e)
or_fail wrap work (inr a) = inr (work a)

-- `IsUpstream` and `ShortestPath` always answer on a consistent graph; lack of fuel reads as no.
abbrev pub answers : Option Bool → Bool
answers (some true) = true
answers _ = false

abbrev pub found_path : Option (Option (List String)) → Option (List String)
found_path none = none
found_path (some path) = path

-- The number of edges of a path, or -1.
abbrev pub distance_of : Option (List String) → ℤ
distance_of none = negsuc 0
distance_of (some path) = pos (length path) -ℤ pos 1

module _ {S : Type 0} where
  unfoldable pub analyze_graph_relationship : ServiceGraph S → String → String → String × ℤ
  analyze_graph_relationship sg anomaly_service impact_service =
      if anomaly_service == impact_service
      then (direction_same, pos 0)
      else if answers (is_upstream sg anomaly_service impact_service)
      then (
        direction_upstream,
        distance_of (found_path (shortest_path sg anomaly_service impact_service)),
      )
      else if answers (is_upstream sg impact_service anomaly_service)
      then (
        direction_downstream,
        distance_of (found_path (shortest_path sg impact_service anomaly_service)),
      )
      else (direction_unknown, negsuc 0)

module _ (nu : Numbers) where
  pub record CollectOptions : Type 0 where
    pub time_padding_before : ℤ
    pub time_padding_after : ℤ
    pub min_severity : nu.scores.F
    pub min_anomaly_score : nu.scores.F
    pub signal_types_to_include : List String
    pub services_to_include : List String
    pub max_events_per_ring : ℤ
    pub sort_by_ring_and_priority : Bool
    pub time_ring_config : Option TimeRingConfig

  unfoldable pub default_collect_options : CollectOptions
  default_collect_options = record {
    time_padding_before = pos 0;
    time_padding_after = pos 0;
    min_severity = nu.scores.zero_score;
    min_anomaly_score = nu.scores.zero_score;
    signal_types_to_include = [];
    services_to_include = [];
    max_events_per_ring = pos 0;
    sort_by_ring_and_priority = true;
    time_ring_config = none;
  }

  abbrev pub is_wanted : CollectOptions → AnomalyEvent nu.scores → Bool
  is_wanted opts anomaly =
      if nu.scores.lt anomaly.severity opts.min_severity
      then false
      else if nu.scores.lt anomaly.anomaly_score opts.min_anomaly_score
      then false
      else if ltb 0 (length opts.signal_types_to_include)
          && not (contains anomaly.signal_type opts.signal_types_to_include)
      then false
      else true

  unfoldable pub filter_anomalies :
      List (AnomalyEvent nu.scores) → CollectOptions → List (AnomalyEvent nu.scores)
  filter_anomalies anomalies opts = keep (is_wanted opts) anomalies

  unfoldable pub limit_events_per_ring :
      List (EnrichedAnomalyEvent nu.scores) → ℕ → List (EnrichedAnomalyEvent nu.scores)
  limit_events_per_ring events max_per_ring =
      let group = λ (ring : TimeRing).
        take max_per_ring (
          keep (λ (e : EnrichedAnomalyEvent nu.scores). priority e.ring =ℕ priority ring) events) in
      group ring_immediate ++ (group ring_short ++ (group ring_medium ++ group ring_long))

  abbrev pub before_in_ring : EnrichedAnomalyEvent nu.scores → EnrichedAnomalyEvent nu.scores → Bool
  before_in_ring a b =
      let x = a.anomaly_event in
      let y = b.anomaly_event in
      if not (priority a.ring =ℕ priority b.ring)
      then ltb (priority a.ring) (priority b.ring)
      else if not (nu.same_number x.severity y.severity)
      then nu.scores.lt y.severity x.severity
      else if not (nu.same_number x.anomaly_score y.anomaly_score)
      then nu.scores.lt y.anomaly_score x.anomaly_score
      else ltb_ℤ x.timestamp y.timestamp

  unfoldable pub sort_events :
      List (EnrichedAnomalyEvent nu.scores) → List (EnrichedAnomalyEvent nu.scores)
  sort_events events = sort_by before_in_ring events

  abbrev pub ring_config : Option TimeRingConfig → TimeRingConfig
  ring_config none = default_time_ring_config
  ring_config (some cfg) = cfg

  pub record CandidateCauseOptions : Type 0 where
    pub collect_options : CollectOptions
    pub grouping_config : GroupingConfig nu.scores
    pub scoring_config : ScoringConfig nu

  module _ {S : Type 0} (sg : ServiceGraph S) where
    abbrev pub enrich :
        IncidentContext nu.scores
        → TimeRingConfig
        → AnomalyEvent nu.scores
        → EnrichedAnomalyEvent nu.scores
    enrich incident cfg anomaly =
        let related = analyze_graph_relationship sg anomaly.service incident.impact_service in
        record {
          anomaly_event = anomaly;
          ring = assign_time_ring incident.time_bounds.t_peak anomaly.timestamp cfg;
          graph_direction = related.0;
          graph_distance_to_impact = related.1;
          impact_service = incident.impact_service;
        }

    unfoldable pub enrich_anomalies :
        List (AnomalyEvent nu.scores)
        → IncidentContext nu.scores
        → TimeRingConfig
        → List (EnrichedAnomalyEvent nu.scores)
    unfolding analyze_graph_relationship
    enrich_anomalies anomalies incident cfg = map (enrich incident cfg) anomalies

    abbrev pub arrange :
        CollectOptions
        → List (EnrichedAnomalyEvent nu.scores)
        → List (EnrichedAnomalyEvent nu.scores)
    arrange opts enriched =
        let limited =
          if ltb_ℤ (pos 0) opts.max_events_per_ring
          then limit_events_per_ring enriched (pos_part opts.max_events_per_ring)
          else enriched in
        if opts.sort_by_ring_and_priority then sort_events limited else limited

    module _ {E : Type 0}
        (get_anomalies : ℤ → ℤ → List String → E ⊎ List (AnomalyEvent nu.scores)) where
      unfoldable pub collect :
          IncidentContext nu.scores
          → CollectOptions
          → RcaError E ⊎ List (EnrichedAnomalyEvent nu.scores)
      unfolding filter_anomalies enrich_anomalies limit_events_per_ring sort_events
      collect incident opts = unless_invalid (validate nu.scores incident) (
          or_fail failed_to_get_anomalies
            (λ raw. arrange opts (
              enrich_anomalies (filter_anomalies raw opts) incident
                (ring_config opts.time_ring_config)))
            (get_anomalies (incident.time_bounds.t_start -ℤ opts.time_padding_before)
              (incident.time_bounds.t_end -ℤ (pos 0 -ℤ opts.time_padding_after))
              opts.services_to_include))

      abbrev pub rank_groups :
          ScoringConfig nu → List (AnomalyGroup nu.scores) → List (CandidateCause nu)
      rank_groups cfg groups = rank_candidate_causes nu (map some groups) cfg

      -- Without events there are no groups, and without groups no candidates: the two early returns.
      unfoldable pub compute_candidates :
          IncidentContext nu.scores → CandidateCauseOptions → RcaError E ⊎ List (CandidateCause nu)
      unfolding collect
      compute_candidates incident opts = unless_invalid (validate nu.scores incident) (
          or_fail failed_to_collect
            (λ enriched.
              if length enriched =ℕ 0
              then []
              else rank_groups opts.scoring_config
                  (group_enriched_anomalies nu.scores (map some enriched) opts.grouping_config))
            (collect incident opts.collect_options))
