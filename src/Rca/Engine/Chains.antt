-- ===== src/Rca/Engine/Chains.antt =====
-- The chain of a candidate: `buildChainForCandidate` with the steps it makes and its score. The
-- wording of what the package fmt prints is a parameter; so is the reading of an edge's error rate.
-- The loggers and the context are left out.
use Prim.Native.String.{◌++◌ as ◌+++◌}
use mirador_core.Prelude.{
  ℕ, suc, not, Option, none, some, List, [], ◌∷◌, String, if◌then◌else◌, ◌==◌, leb, length,
  string_keys, ◌=ℕ◌,
}
use mirador_core.Prelude.Int.{ℤ, pos, negsuc, leb_ℤ}
use mirador_core.Rca.TimeRing.{ring_short}
use mirador_core.Rca.Events.{Numbers, EnrichedAnomalyEvent, direction_upstream}
use mirador_core.Rca.ServiceGraph.{ServiceGraph, ServiceEdge, get_edge}
use mirador_core.Rca.ServiceGraph.ShortestPath.{shortest_path}
use mirador_core.Rca.Dimensions.{RcaDiagnostics}
use mirador_core.Rca.Chain.{
  Wording, IncidentContext, RcaStep, RcaChain, new_rca_step, add_evidence, new_rca_chain, add_step,
  template_based_summary,
}
use mirador_core.Rca.Scoring.{CandidateCause}
use mirador_core.Rca.Collect.{found_path}

pub record EngineWording (F : Type 0) : Type 0 where
  pub summaries : Wording
  pub event_id : ℕ → String → String
  pub event_details : F → F → String
  pub edge_details : F → String

-- The index of a name in a path.
abbrev pub index_of : String → List String → ℕ → Option ℕ
index_of name [] i = none
index_of name (s ∷ path) i = if s == name then some i else index_of name path (suc i)

-- The names at the last two indices.
abbrev pub last_edge : List String → Option (String × String)
last_edge [] = none
last_edge (a ∷ []) = none
last_edge (a ∷ b ∷ []) = some (a, b)
last_edge (a ∷ b ∷ c ∷ path) = last_edge (b ∷ c ∷ path)

abbrev pub as_distance : Option ℕ → ℤ
as_distance none = negsuc 0
as_distance (some i) = pos i

abbrev pub tail {ℓ} : {A : Type ℓ} → List A → List A
tail [] = []
tail (x ∷ xs) = xs

module _ (nu : Numbers) (w : EngineWording nu.scores.F) where
  -- The loop over the events, of which five count.
  unfoldable pub add_events :
      ℕ → List (EnrichedAnomalyEvent nu.scores) → RcaStep nu.scores → RcaStep nu.scores
  unfolding add_evidence
  add_events i [] step = step
  add_events i (event ∷ events) step =
      let e = event.anomaly_event in
      if leb 5 i
      then step
      else add_events (suc i) events (
          add_evidence nu.scores step "anomaly_group" (w.event_id i e.id)
            (w.event_details e.severity e.anomaly_score))

  abbrev pub summarized : RcaStep nu.scores → String → Option RcaDiagnostics → RcaStep nu.scores
  summarized step impact_service diagnostics = record step {
    summary = template_based_summary nu.scores w.summaries step impact_service diagnostics;
  }

  unfoldable pub build_step_from_candidate :
      ℕ → CandidateCause nu → IncidentContext nu.scores → Option RcaDiagnostics → RcaStep nu.scores
  unfolding new_rca_step add_events template_based_summary
  build_step_from_candidate why_index candidate incident diagnostics =
      let g = candidate.group in
      let fresh : RcaStep nu.scores =
        new_rca_step nu.scores why_index g.group_service g.group_component in
      summarized
        (add_events 0 g.events (record fresh {
          ring = g.group_ring;
          direction = g.direction;
          distance = g.min_graph_distance;
          time_start = g.start;
          time_end = g.end;
          step_score = candidate.score;
        }))
        incident.impact_service diagnostics

  -- The average of the scores, discounted by the length.
  abbrev pub sum_scores : nu.scores.F → List (RcaStep nu.scores) → nu.scores.F
  sum_scores total [] = total
  sum_scores total (step ∷ steps) = sum_scores (nu.scores.add total step.step_score) steps

  abbrev pub length_discount : ℕ → ℤ → nu.scores.F
  length_discount count max_steps =
      let discount =
        nu.sub nu.one
          (nu.mul (nu.div (nu.of_int (pos count)) (nu.of_int max_steps)) (nu.hundredths 20)) in
      if nu.scores.lt discount (nu.hundredths 50) then nu.hundredths 50 else discount

  unfoldable pub finalize_chain_score : RcaChain nu.scores → ℤ → RcaChain nu.scores
  finalize_chain_score chain max_steps = record chain {
    score =
        if length chain.steps =ℕ 0
        then nu.scores.zero_score
        else nu.mul
            (nu.div (sum_scores nu.scores.zero_score chain.steps)
              (nu.of_int (pos (length chain.steps))))
            (length_discount (length chain.steps) max_steps);
  }

  module _ {S : Type 0} (error_rate : S → nu.scores.F) (sg : ServiceGraph S) where
    -- The score and the evidence of an edge, where the graph has it.
    abbrev pub with_edge : RcaStep nu.scores → Option (ServiceEdge S) → RcaStep nu.scores
    with_edge step none = step
    with_edge step (some edge) =
        let scored : RcaStep nu.scores = record step { step_score = error_rate edge.stats } in
        add_evidence nu.scores scored "service_graph_edge" (edge.source +++ ("->" +++ edge.target))
          (w.edge_details (error_rate edge.stats))

    abbrev pub edge_of : Option (String × String) → Option (ServiceEdge S)
    edge_of none = none
    edge_of (some (a, b)) = get_edge sg a b

    unfoldable pub build_intermediate_step_from_graph :
        ℕ → String → List String → IncidentContext nu.scores → RcaStep nu.scores
    unfolding new_rca_step add_evidence template_based_summary get_edge
    build_intermediate_step_from_graph why_index current_service path incident =
        let fresh : RcaStep nu.scores =
          new_rca_step nu.scores why_index current_service "network" in
        summarized
          (with_edge
            (record fresh {
              direction = direction_upstream;
              distance = as_distance (index_of incident.impact_service path 0);
              time_start = incident.time_bounds.t_start;
              time_end = incident.time_bounds.t_end;
              ring = ring_short;
            })
            (edge_of (last_edge path)))
          incident.impact_service none

    -- The loop along the path, from its second name.
    unfoldable pub add_path_steps :
        ℤ
        → List String
        → IncidentContext nu.scores
        → ℕ
        → List String
        → RcaChain nu.scores
        → RcaChain nu.scores
    unfolding build_intermediate_step_from_graph add_step
    add_path_steps max_steps path incident why_index [] chain = chain
    add_path_steps max_steps path incident why_index (svc ∷ svcs) chain =
        if leb_ℤ (pos why_index) max_steps
        then add_path_steps max_steps path incident (suc why_index) svcs (
            add_step nu.scores chain
              (build_intermediate_step_from_graph why_index svc path incident))
        else chain

    abbrev pub first_chain : CandidateCause nu → IncidentContext nu.scores → RcaChain nu.scores
    first_chain candidate incident =
        record (add_step nu.scores (new_rca_chain nu.scores)
          (build_step_from_candidate 1 candidate incident none)) { score = candidate.score }

    abbrev pub along_path :
        ℤ
        → IncidentContext nu.scores
        → Option (List String)
        → RcaChain nu.scores
        → RcaChain nu.scores
    along_path max_steps incident none chain = chain
    along_path max_steps incident (some path) chain =
        finalize_chain_score (add_path_steps max_steps path incident 2 (tail path) chain) max_steps

    unfoldable pub build_chain_for_candidate :
        IncidentContext nu.scores → CandidateCause nu → ℤ → RcaChain nu.scores
    unfolding build_step_from_candidate add_step new_rca_chain add_path_steps finalize_chain_score
    build_chain_for_candidate incident candidate max_steps =
        if not (candidate.group.group_service == incident.impact_service)
        then along_path max_steps incident
            (found_path (shortest_path sg candidate.group.group_service incident.impact_service))
            (first_chain candidate incident)
        else finalize_chain_score (first_chain candidate incident) max_steps
