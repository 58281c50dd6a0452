-- ===== src/Rca/Engine/Tests.antt =====
-- The theorems on the analysis at the incident of the samples.
use mathlib.Core.Option
use mirador_core.Prelude.{
  ℕ, ◌≡◌, ◌≢◌, refl, ne_of_not_same, none, some, [], ◌∷◌, String, arith, if◌then◌else◌, fetch,
  store, string_keys, keep, contains, inr, pair_keys,
}
use mirador_core.Prelude.Int.{pos}
use mirador_core.Prelude.Sorting.{sort_by, insert_by}
use mirador_core.Rca.TimeRing.{ring_short, ring_immediate}
use mirador_core.Rca.Chain.{RcaStep, validate, last_step}
use mirador_core.Rca.Chain
use mirador_core.Rca.Chain.{Verdict}
use mirador_core.Rca.ServiceGraph.{add_edge, new_service_graph, rebuild_indexes, index_edges}
use mirador_core.Rca.ServiceGraph.ShortestPath.{shortest_path, bfs_loop, scan_neighbors, walk_back}
use mirador_core.Rca.Scoring
use mirador_core.Rca.Scoring.{
  take, more_suspicious, IsRanking, rank_candidate_causes, score_groups, unranked, IsBiased,
  RanksGroups, apply_kpi_sentiment_bias, extract_impact_service_dimensions, first_value,
}
use mirador_core.Rca.Collect
use mirador_core.Rca.Collect.{limit_events_per_ring}
use mirador_core.Rca.Collect.Limits
use mirador_core.Rca.Engine.Chains.{build_chain_for_candidate}
use mirador_core.Rca.Engine.Paths
use mirador_core.Rca.Engine.Analysis
use mirador_core.Rca.Engine.Analysis.{Explains}
use mirador_core.Rca.Engine.Compute.{analyze_incident, compute_rca}
use mirador_core.Rca.Engine.Errors
use mirador_core.Rca.Engine.Errors.{AnswersTo, provided}
use mirador_core.Rca.Engine.Correlation.{WindowWording, CorrelationResult}
use mirador_core.Rca.Engine.Window.{compute_rca_by_time_range}
use mirador_core.Rca.Engine.WindowLaws
use mirador_core.Rca.Engine.WindowLaws.{Concludes}
use mirador_core.Rca.Samples.{
  points, naturals, shop, shop-IsConsistent, kpi_of_shop, incident, enriched, group, scoring,
  candidate, options, engine_wording, analysis_wording, wording, provider,
}

abbrev rate : ℕ → ℕ
rate n = n

shop_path : shortest_path shop "db" "web" ≡ some (some ("db" ∷ "api" ∷ "web" ∷ []))
unfolding shortest_path bfs_loop scan_neighbors walk_back add_edge new_service_graph rebuild_indexes
    index_edges sort_by insert_by store fetch
shop_path = refl

validate_lem_example : Verdict points (validate points incident) incident
validate_lem_example = Chain.validate_lem points incident

rank_candidate_causes_lem_example :
    RanksGroups naturals
      (some (group "db") ∷ none ∷ some (group "api") ∷ [])
      scoring
      (rank_candidate_causes naturals (some (group "db") ∷ none ∷ some (group "api") ∷ []) scoring)
rank_candidate_causes_lem_example =
    Scoring.rank_candidate_causes_lem naturals (some (group "db") ∷ none ∷ some (group "api") ∷ [])
      scoring

apply_kpi_sentiment_bias_lem_example :
    IsBiased naturals analysis_wording.bias_reason
      (some kpi_of_shop)
      5
      (candidate "db" ∷ candidate "api" ∷ [])
      (apply_kpi_sentiment_bias naturals analysis_wording.bias_reason
        (candidate "db" ∷ candidate "api" ∷ [])
        (some kpi_of_shop)
        5
        none).0
apply_kpi_sentiment_bias_lem_example =
    Scoring.apply_kpi_sentiment_bias_lem naturals analysis_wording.bias_reason (candidate "db")
      (candidate "api" ∷ []) (some kpi_of_shop) 5 none

extract_impact_service_dimensions_lem_example :
    fetch (extract_impact_service_dimensions naturals (group "web" ∷ []) ("env" ∷ [])) "env" ≡ (
      if contains {K = String} "env" ("env" ∷ [])
      then first_value naturals (group "web" ∷ []) "env"
      else none)
extract_impact_service_dimensions_lem_example =
    Scoring.extract_impact_service_dimensions_lem naturals (group "web" ∷ []) ("env" ∷ []) "env"

limit_events_per_ring_lem_example :
    keep (Limits.is_in naturals ring_short) (
      limit_events_per_ring naturals
        (enriched ring_short 1 ∷ enriched ring_immediate 2 ∷ enriched ring_short 3 ∷ [])
        1)
    ≡ take 1 (
        keep
          (Limits.is_in naturals ring_short)
          (enriched ring_short 1 ∷ enriched ring_immediate 2 ∷ enriched ring_short 3 ∷ []))
limit_events_per_ring_lem_example =
    Limits.limit_events_per_ring_lem naturals
      (enriched ring_short 1 ∷ enriched ring_immediate 2 ∷ enriched ring_short 3 ∷ []) 1 ring_short

db-web : (candidate "db").group.group_service ≢ incident.impact_service
db-web = ne_of_not_same {K = String} "db" "web" refl

build_chain_root_example :
    Option.map
      (λ (s : RcaStep points). s.service)
      (last_step points
        (build_chain_for_candidate naturals engine_wording rate shop incident
          (candidate "db")
          (pos 10)).steps)
    ≡ some "web"
build_chain_root_example =
    Paths.build_chain_root naturals engine_wording rate shop incident (candidate "db") (pos 10)
      shop-IsConsistent db-web shop_path (omega arith)

analyze_incident_lem_example :
    Explains naturals analysis_wording rate shop incident options
      (candidate "db" ∷ candidate "api" ∷ [])
      (analyze_incident naturals analysis_wording rate shop incident options
        (candidate "db" ∷ candidate "api" ∷ []))
analyze_incident_lem_example =
    Analysis.analyze_incident_lem naturals analysis_wording rate shop incident options
      (candidate "db" ∷ candidate "api" ∷ [])

compute_rca_lem_example :
    AnswersTo naturals analysis_wording rate shop provider incident options
      (validate points incident)
      (provided naturals analysis_wording rate shop provider incident
        options.candidate_cause_options.collect_options)
      (compute_rca naturals analysis_wording rate shop provider incident options)
compute_rca_lem_example =
    Errors.compute_rca_lem naturals analysis_wording rate shop provider incident options

abbrev window_wording : WindowWording naturals
window_wording = record {
  summaries = wording;
  no_data = λ from to. "No correlation data";
  impact_detected = λ focal confidence. focal;
  with_top_cause = λ text kpi stats high. text;
  anchor_evidence = λ score. "anchor_score";
  metric_evidence = λ metric score. metric;
}

abbrev correlation : CorrelationResult naturals
correlation = record {
  correlation_id = "c1";
  confidence = 90;
  affected_services = "web" ∷ [];
  causes = [];
  red_anchors = record { anchor_service = "api"; metric = "latency"; anchor_score = 40 } ∷ [];
  recommendations = [];
  created_at = pos 1;
}

compute_rca_by_time_range_lem_example :
    Concludes naturals window_wording (pos 100) (pos 200) {E = String} (inr (some correlation)) (
      compute_rca_by_time_range naturals window_wording
        (pos 100)
        (pos 200)
        (some (λ from to. inr (some correlation)))
        (pos 300))
compute_rca_by_time_range_lem_example =
    WindowLaws.compute_rca_by_time_range_lem naturals window_wording (pos 100) (pos 200)
      (λ from to. inr (some correlation)) (pos 300)
