-- ===== src/Rca/Grouping/Group.antt =====
-- `AnomalyGroup` with `AddEvent` and `FinalizeStats`. Severities and scores are floating-point numbers,
-- of which only the operations that the code applies are given; an instant is a count of nanoseconds.
use mirador_core.Prelude.{
  ℕ, suc, ◌&&◌, ◌||◌, not, Option, none, some, List, [], ◌∷◌, ◌++◌, String, if◌then◌else◌, ◌==◌,
  ◌=ℕ◌, string_keys, length, contains, GoMap, fetch,
}
use mirador_core.Prelude.Int.{ℤ, pos, negsuc, ltb_ℤ, leb_ℤ}
use mirador_core.Rca.TimeRing.{TimeRing}
use mirador_core.Rca.Events.{
  Scores, EnrichedAnomalyEvent, direction_unknown, direction_upstream, direction_same,
}

module _ (sc : Scores) where
  pub record AnomalyGroup : Type 0 where
    pub group_service : String
    pub group_component : String
    pub group_ring : TimeRing
    pub start : ℤ
    pub end : ℤ
    pub events : List (EnrichedAnomalyEvent sc)
    pub event_count : ℕ
    pub distinct_txn_count : ℕ
    pub max_severity : sc.F
    pub avg_severity : sc.F
    pub max_score : sc.F
    pub avg_score : sc.F
    pub direction : String
    pub min_graph_distance : ℤ
    pub max_graph_distance : ℤ
    pub extra_dimension_values : GoMap String String

  -- The range of a group without events is the zero time; 0 stands for it, and the first event
  -- replaces it.
  unfoldable pub new_anomaly_group : String → String → TimeRing → AnomalyGroup
  new_anomaly_group service component ring = record {
    group_service = service;
    group_component = component;
    group_ring = ring;
    start = pos 0;
    end = pos 0;
    events = [];
    event_count = 0;
    distinct_txn_count = 0;
    max_severity = sc.zero_score;
    avg_severity = sc.zero_score;
    max_score = sc.zero_score;
    avg_score = sc.zero_score;
    direction = direction_unknown;
    min_graph_distance = negsuc 0;
    max_graph_distance = negsuc 0;
    extra_dimension_values = [];
  }

  -- The direction of a group that has seen one more.
  unfoldable pub merge_direction : String → String → String
  merge_direction old new =
      if not (new == direction_unknown)
      then (if old == direction_unknown
          then new
          else if not (old == new)
          then (if new == direction_upstream || old == direction_upstream
              then direction_upstream
              else if new == direction_same || old == direction_same
              then direction_same
              else old)
          else old)
      else old

  abbrev pub max_of : sc.F → sc.F → sc.F
  max_of old new = if sc.lt old new then new else old

  abbrev pub earliest : ℤ → ℤ → ℤ
  earliest old new = if ltb_ℤ new old then new else old

  abbrev pub latest : ℤ → ℤ → ℤ
  latest old new = if ltb_ℤ old new then new else old

  unfoldable pub add_event : AnomalyGroup → EnrichedAnomalyEvent sc → AnomalyGroup
  unfolding merge_direction
  add_event g e = record g {
    events = g.events ++ (e ∷ []);
    start =
        if g.event_count =ℕ 0
        then e.anomaly_event.timestamp
        else earliest g.start e.anomaly_event.timestamp;
    end =
        if g.event_count =ℕ 0
        then e.anomaly_event.timestamp
        else latest g.end e.anomaly_event.timestamp;
    event_count = suc g.event_count;
    max_severity = max_of g.max_severity e.anomaly_event.severity;
    max_score = max_of g.max_score e.anomaly_event.anomaly_score;
    direction = merge_direction g.direction e.graph_direction;
    min_graph_distance =
        if leb_ℤ (pos 0) e.graph_distance_to_impact
        then (if ltb_ℤ g.min_graph_distance (pos 0)
            then e.graph_distance_to_impact
            else earliest g.min_graph_distance e.graph_distance_to_impact)
        else g.min_graph_distance;
    max_graph_distance =
        if leb_ℤ (pos 0) e.graph_distance_to_impact
        then (if ltb_ℤ g.min_graph_distance (pos 0)
            then e.graph_distance_to_impact
            else latest g.max_graph_distance e.graph_distance_to_impact)
        else g.max_graph_distance;
  }

  abbrev pub total : (EnrichedAnomalyEvent sc → sc.F) → sc.F → List (EnrichedAnomalyEvent sc) → sc.F
  total value sum [] = sum
  total value sum (e ∷ es) = total value (sc.add sum (value e)) es

  -- The set `txnIDs`.
  abbrev pub enter_txn : Option String → List String → List String
  enter_txn none ids = ids
  enter_txn (some id) ids = if not (id == "") && not (contains id ids) then id ∷ ids else ids

  abbrev pub txn_ids : List (EnrichedAnomalyEvent sc) → List String → List String
  txn_ids [] ids = ids
  txn_ids (e ∷ es) ids = txn_ids es (enter_txn (fetch e.anomaly_event.tags "transaction_id") ids)

  unfoldable pub finalize_stats : AnomalyGroup → AnomalyGroup
  finalize_stats g = if g.event_count =ℕ 0 then g else record g {
    avg_severity =
        sc.over (total (λ e. e.anomaly_event.severity) sc.zero_score g.events) g.event_count;
    avg_score =
        sc.over (total (λ e. e.anomaly_event.anomaly_score) sc.zero_score g.events) g.event_count;
    distinct_txn_count = length (txn_ids g.events []);
  }
