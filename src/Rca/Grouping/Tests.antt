-- ===== src/Rca/Grouping/Tests.antt =====
-- The theorems at three events, with scores that are natural numbers.
use mirador_core.Prelude.{
  ℕ, ◌+◌, ◌/◌, ◌≡◌, refl, true, Option, none, some, List, [], ◌∷◌, String, fetch, store, keep,
  string_keys, int_keys, pair_keys, ltb, length,
}
use mirador_core.Prelude.Int.{pos, negsuc}
use mirador_core.Rca.TimeRing.{ring_short}
use mirador_core.Rca.Events.{signal_type_metrics, new_anomaly_event, Scores, EnrichedAnomalyEvent}
use mirador_core.Rca.Grouping.Group.{
  AnomalyGroup, new_anomaly_group, add_event, finalize_stats, merge_direction,
}
use mirador_core.Rca.Grouping.Defs.{
  GroupKey, GroupingConfig, compute_time_bucket, collect_groups, group_enriched_anomalies,
  passes_filters, key_of, truncate_to, ring_keys,
}
use mirador_core.Rca.Grouping.Bounds
use mirador_core.Rca.Grouping.Bounds.{IsSummary}
use mirador_core.Rca.Grouping.Partition
use mirador_core.Rca.Grouping.Partition.{events_at, has_key, present}

abbrev points : Scores
points = record { F = ℕ; zero_score = 0; lt = ltb; add = λ a b. a + b; over = λ a n. a / n }

abbrev seen : ℕ → String → EnrichedAnomalyEvent points
seen at component = record {
  anomaly_event = record (new_anomaly_event points (pos at) "api" component signal_type_metrics) {
    severity = 3;
    anomaly_score = 7;
    tags = ("transaction_id", "t1") ∷ [];
  };
  ring = ring_short;
  graph_direction = "upstream";
  graph_distance_to_impact = pos 1;
  impact_service = "web";
}

abbrev cfg : GroupingConfig points
cfg = record {
  bucket_width = pos 10;
  min_events_per_group = pos 0;
  min_severity = 0;
  min_anomaly_score = 0;
  group_by_component = true;
}

abbrev three : List (Option (EnrichedAnomalyEvent points))
three = some (seen 12 "db") ∷ none ∷ some (seen 31 "db") ∷ some (seen 19 "db") ∷ []

abbrev first_key : GroupKey
first_key = ("api", ("db", (ring_short, pos 10)))

two_groups : length (group_enriched_anomalies points three cfg) ≡ 2
unfolding group_enriched_anomalies collect_groups key_of compute_time_bucket truncate_to
    passes_filters finalize_stats add_event new_anomaly_group merge_direction store
    new_anomaly_event
two_groups = refl

collect_groups_lem_example :
    events_at points cfg (fetch (collect_groups points cfg three []) first_key)
    ≡ keep (has_key points cfg first_key) (present points cfg three)
collect_groups_lem_example = Partition.collect_groups_lem points cfg first_key three

abbrev empty_group : AnomalyGroup points
empty_group = new_anomaly_group points "api" "db" ring_short

add_event-IsSummary_example : IsSummary points (add_event points empty_group (seen 12 "db"))
add_event-IsSummary_example =
    Bounds.add_event-IsSummary points empty_group (seen 12 "db")
      (Bounds.new_anomaly_group-IsSummary points "api" "db" ring_short)

-- Instants on both sides of the epoch share a bucket.
around_epoch : compute_time_bucket (negsuc 4) (pos 10) ≡ compute_time_bucket (pos 5) (pos 10)
unfolding compute_time_bucket truncate_to
around_epoch = refl
