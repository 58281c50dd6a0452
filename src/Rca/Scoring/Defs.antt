-- ===== src/Rca/Scoring/Defs.antt =====
-- `ScoreCandidate` with the scores that it weighs. The function does not read the incident.
use mirador_core.Prelude.{
  ℕ, Bool, ◌&&◌, List, [], ◌∷◌, ◌++◌, String, if◌then◌else◌, ◌==◌, ◌=ℕ◌, ltb, leb, string_keys,
  int_keys,
}
use mirador_core.Prelude.Int.{ℤ, pos, ltb_ℤ}
use mirador_core.Rca.TimeRing.{
  TimeRing, ring_immediate, ring_short, ring_medium, ring_long, ring_out_of_scope,
}
use mirador_core.Rca.Events.{Numbers, direction_upstream, direction_same, direction_downstream}
use mirador_core.Rca.Grouping.{AnomalyGroup}

module _ (nu : Numbers) where
  -- A negative limit is no limit, as 0 is.
  pub record ScoringConfig : Type 0 where
    pub weight_ring : nu.scores.F
    pub weight_graph_direction : nu.scores.F
    pub weight_distance : nu.scores.F
    pub weight_severity : nu.scores.F
    pub weight_anomaly_score : nu.scores.F
    pub weight_transaction_count : nu.scores.F
    pub max_candidates_to_return : ℤ

  unfoldable pub default_scoring_config : ScoringConfig
  default_scoring_config = record {
    weight_ring = nu.hundredths 20;
    weight_graph_direction = nu.hundredths 25;
    weight_distance = nu.hundredths 15;
    weight_severity = nu.hundredths 20;
    weight_anomaly_score = nu.hundredths 10;
    weight_transaction_count = nu.hundredths 10;
    max_candidates_to_return = pos 0;
  }

  pub record DimensionAlignment : Type 0 where
    pub dimension_key : String
    pub impact_service_value : String
    pub candidate_value : String
    pub is_aligned : Bool
    pub weight : nu.scores.F

  pub record DetailedScore : Type 0 where
    pub ring_score : nu.scores.F
    pub direction_score : nu.scores.F
    pub distance_score : nu.scores.F
    pub severity_score : nu.scores.F
    pub anomaly_score_contribution : nu.scores.F
    pub transaction_count_score : nu.scores.F
    pub dimension_alignment_score : nu.scores.F
    pub dimension_alignments : List DimensionAlignment

  pub record CandidateCause : Type 0 where
    pub group : AnomalyGroup nu.scores
    pub score : nu.scores.F
    pub rank : ℕ
    pub reasons : List String
    pub detailed_score : DetailedScore

  unfoldable pub compute_ring_score : TimeRing → nu.scores.F
  compute_ring_score ring_immediate = nu.one
  compute_ring_score ring_short = nu.hundredths 75
  compute_ring_score ring_medium = nu.hundredths 50
  compute_ring_score ring_long = nu.hundredths 25
  compute_ring_score ring_out_of_scope = nu.scores.zero_score

  unfoldable pub compute_direction_score : String → nu.scores.F
  compute_direction_score direction =
      if direction == direction_upstream
      then nu.one
      else if direction == direction_same
      then nu.hundredths 80
      else if direction == direction_downstream
      then nu.hundredths 30
      else nu.hundredths 50

  unfoldable pub compute_distance_score : ℤ → nu.scores.F
  compute_distance_score min_dist =
      if ltb_ℤ min_dist (pos 0)
      then nu.hundredths 30
      else if min_dist == pos 0
      then nu.one
      else nu.div nu.one (nu.scores.add nu.one (nu.of_int min_dist))

  abbrev pub at_most_one : nu.scores.F → nu.scores.F
  at_most_one x = if nu.scores.lt nu.one x then nu.one else x

  abbrev pub at_least_zero : nu.scores.F → nu.scores.F
  at_least_zero x = if nu.scores.lt x nu.scores.zero_score then nu.scores.zero_score else x

  -- The clamp that the package writes out in each place.
  unfoldable pub clamp_score : nu.scores.F → nu.scores.F
  clamp_score x = at_least_zero (at_most_one x)

  unfoldable pub compute_transaction_count_score : ℕ → nu.scores.F
  compute_transaction_count_score txn_count =
      if txn_count =ℕ 0
      then nu.scores.zero_score
      else at_most_one (
          nu.div (nu.log (nu.scores.add (nu.of_int (pos txn_count)) nu.one))
            (nu.log (nu.of_int (pos 1001))))

  abbrev pub tag : Bool → String → List String → List String
  tag b reason others = if b then reason ∷ [] else others

  unfoldable pub generate_reasons : AnomalyGroup nu.scores → DetailedScore → List String
  generate_reasons g d =
      tag (nu.le (nu.hundredths 75) d.ring_score) "ring_immediate_or_short" (
        tag (nu.le (nu.hundredths 50) d.ring_score) "ring_medium"
          (tag (nu.scores.lt nu.scores.zero_score d.ring_score) "ring_long" []))
      ++ (tag (nu.le (nu.hundredths 80) d.direction_score)
            (if g.direction == direction_upstream
              then "upstream_dependency"
              else "same_service_impact")
            (tag (nu.le (nu.hundredths 50) d.direction_score) "unknown_graph_direction"
              (tag (nu.scores.lt nu.scores.zero_score d.direction_score) "downstream_service" []))
          ++ (tag (g.min_graph_distance == pos 0) "direct_impact_target" (
                tag (g.min_graph_distance == pos 1) "direct_neighbor_one_hop"
                  (tag (nu.le (nu.hundredths 30) d.distance_score) "within_proximity_chain" []))
              ++ (tag (nu.le (nu.hundredths 75) d.severity_score) "high_severity_events"
                    (tag (nu.le (nu.hundredths 50) d.severity_score) "medium_severity_events" [])
                  ++ (tag (nu.le (nu.hundredths 80) d.anomaly_score_contribution)
                        "high_isolation_forest_score"
                        (tag (nu.le (nu.hundredths 50) d.anomaly_score_contribution)
                          "medium_isolation_forest_score" [])
                      ++ (tag
                            (nu.le (nu.hundredths 70) d.transaction_count_score
                              && ltb 100 g.distinct_txn_count)
                            "wide_transaction_impact"
                            (tag
                              (nu.le (nu.hundredths 40) d.transaction_count_score
                                && ltb 10 g.distinct_txn_count)
                              "multiple_transactions_affected" [])
                          ++ tag (leb 10 g.event_count) "high_event_volume" [])))))

  abbrev pub total_weight : ScoringConfig → nu.scores.F
  total_weight cfg =
      let add = nu.scores.add in
      let sum =
        add
          (add
            (add (add (add cfg.weight_ring cfg.weight_graph_direction) cfg.weight_distance)
              cfg.weight_severity)
            cfg.weight_anomaly_score)
          cfg.weight_transaction_count in
      if nu.le sum nu.scores.zero_score then nu.one else sum

  abbrev pub weighted_sum : ScoringConfig → DetailedScore → nu.scores.F
  weighted_sum cfg d =
      let add = nu.scores.add in
      let share = λ (score weight : nu.scores.F). nu.div (nu.mul score weight) (total_weight cfg) in
      add
        (add
          (add
            (add
              (add (share d.ring_score cfg.weight_ring)
                (share d.direction_score cfg.weight_graph_direction))
              (share d.distance_score cfg.weight_distance))
            (share d.severity_score cfg.weight_severity))
          (share d.anomaly_score_contribution cfg.weight_anomaly_score))
        (share d.transaction_count_score cfg.weight_transaction_count)

  abbrev pub detail : AnomalyGroup nu.scores → DetailedScore
  detail g = record {
    ring_score = compute_ring_score g.group_ring;
    direction_score = compute_direction_score g.direction;
    distance_score = compute_distance_score g.min_graph_distance;
    severity_score = g.max_severity;
    anomaly_score_contribution = g.max_score;
    transaction_count_score = compute_transaction_count_score g.distinct_txn_count;
    dimension_alignment_score = nu.scores.zero_score;
    dimension_alignments = [];
  }

  unfoldable pub score_candidate : AnomalyGroup nu.scores → ScoringConfig → CandidateCause
  unfolding compute_ring_score compute_direction_score compute_distance_score
      compute_transaction_count_score generate_reasons clamp_score
  score_candidate g cfg = record {
    group = g;
    score = clamp_score (weighted_sum cfg (detail g));
    rank = 0;
    reasons = generate_reasons g (detail g);
    detailed_score = detail g;
  }
