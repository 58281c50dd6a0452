-- ===== src/Rca/Grouping/Defs.antt =====
-- `GroupEnrichedAnomalies` with its configuration, its buckets of time and its filters.
use mirador_core.Prelude.{
  ℕ, suc, ◌*◌, ◌/◌, ◌-◌, ◌≡◌, ◌↔◌, Bool, true, false, ◌&&◌, Option, none, some, List, [], ◌∷◌,
  String, arith, if◌then◌else◌, ◌=ℕ◌, GoMap, fetch, store, keep, map, Comparable, int_keys,
  string_keys, pair_keys,
}
use mirador_core.Prelude.Int.{ℤ, pos, negsuc, pos_part, ltb_ℤ, leb_ℤ}
use mirador_core.Rca.TimeRing.{TimeRing, priority, second}
use mirador_core.Rca.Events.{Scores, EnrichedAnomalyEvent}
use mirador_core.Rca.Grouping.Group.{AnomalyGroup, new_anomaly_group, add_event, finalize_stats}

-- `==` on rings.
pub same_ring_iff : (a b : TimeRing) → ((priority a =ℕ priority b) ≡ true) ↔ (a ≡ b)
same_ring_iff a b = ground arith

instance abbrev pub ring_keys : Comparable TimeRing
ring_keys = record { same = λ a b. priority a =ℕ priority b; same_iff = same_ring_iff }

-- `GroupKey`: service, component, ring and bucket.
abbrev pub GroupKey : Type 0
GroupKey = String × (String × (TimeRing × ℤ))

-- `(ts / width) * width` of Go, whose quotient rounds towards zero.
unfoldable pub truncate_to : ℕ → ℤ → ℤ
truncate_to width (pos n) = pos (n / width * width)
truncate_to width (negsuc n) =
    let m = suc n / width * width in if m =ℕ 0 then pos 0 else negsuc (m - 1)

-- The width that the configuration asks for; without one, 10 seconds.
abbrev pub bucket_nanos : ℤ → ℕ
bucket_nanos width = if leb_ℤ width (pos 0) then 10 * second else pos_part width

unfoldable pub compute_time_bucket : ℤ → ℤ → ℤ
unfolding truncate_to
compute_time_bucket ts width = truncate_to (bucket_nanos width) ts

module _ (sc : Scores) where
  pub record GroupingConfig : Type 0 where
    pub bucket_width : ℤ
    pub min_events_per_group : ℤ
    pub min_severity : sc.F
    pub min_anomaly_score : sc.F
    pub group_by_component : Bool

  unfoldable pub default_grouping_config : GroupingConfig
  default_grouping_config = record {
    bucket_width = pos (10 * second);
    min_events_per_group = pos 0;
    min_severity = sc.zero_score;
    min_anomaly_score = sc.zero_score;
    group_by_component = true;
  }

  unfoldable pub key_of : GroupingConfig → EnrichedAnomalyEvent sc → GroupKey
  unfolding compute_time_bucket
  key_of cfg e = (
    e.anomaly_event.service,
    (
      (if cfg.group_by_component then e.anomaly_event.component else ""),
      (e.ring, compute_time_bucket e.anomaly_event.timestamp cfg.bucket_width),
    ),
  )

  abbrev pub get_or_create : Option (AnomalyGroup sc) → GroupKey → AnomalyGroup sc
  get_or_create (some g) key = g
  get_or_create none key = new_anomaly_group sc key.0 key.1.0 key.1.1.0

  -- The loop over the events; `none` is a nil event, or one without its anomaly.
  unfoldable pub collect_groups :
      GroupingConfig
      → List (Option (EnrichedAnomalyEvent sc))
      → GoMap GroupKey (AnomalyGroup sc)
      → GoMap GroupKey (AnomalyGroup sc)
  unfolding key_of add_event new_anomaly_group
  collect_groups cfg [] groups = groups
  collect_groups cfg (none ∷ events) groups = collect_groups cfg events groups
  collect_groups cfg (some e ∷ events) groups = collect_groups cfg events (
      store groups (key_of cfg e)
        (add_event sc (get_or_create (fetch groups (key_of cfg e)) (key_of cfg e)) e))

  unfoldable pub passes_filters : AnomalyGroup sc → GroupingConfig → Bool
  passes_filters g cfg =
      if ltb_ℤ (pos 0) cfg.min_events_per_group
        && ltb_ℤ (pos g.event_count) cfg.min_events_per_group
      then false
      else if sc.lt sc.zero_score cfg.min_severity && sc.lt g.max_severity cfg.min_severity
      then false
      else if sc.lt sc.zero_score cfg.min_anomaly_score && sc.lt g.max_score cfg.min_anomaly_score
      then false
      else true

  -- The groups in the order of the map's list; no caller relies on the order.
  unfoldable pub group_enriched_anomalies :
      List (Option (EnrichedAnomalyEvent sc)) → GroupingConfig → List (AnomalyGroup sc)
  unfolding collect_groups finalize_stats passes_filters
  group_enriched_anomalies events cfg =
      keep (λ g. passes_filters g cfg)
        (map (λ entry. finalize_stats sc entry.1) (collect_groups cfg events []))
