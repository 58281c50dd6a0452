-- ===== src/Rca/Chain/Defs.antt =====
-- `RCAStep`, `RCAChain` and `RCAIncident`. The wording of the summaries, which the package fmt
-- prints, is a parameter; the text of a ring and an instant belongs to it.
use Prim.Native.String.{◌++◌ as ◌+++◌, len, slice}
use mirador_core.Prelude.{
  ℕ, ◌+◌, Bool, false, not, Option, none, some, List, [], ◌∷◌, ◌++◌, String, if◌then◌else◌, ◌==◌,
  ltb, length, string_keys,
}
use mirador_core.Prelude.Int.{ℤ, pos, negsuc, leb_ℤ}
use mirador_core.Rca.TimeRing.{TimeRing, ring_out_of_scope}
use mirador_core.Rca.Events.{Scores, direction_upstream, direction_same}
use mirador_core.Rca.Dimensions.{RcaDiagnostics, new_rca_diagnostics, has_significant_issues}
use mirador_core.Rca.Chain.Context.{IncidentContext}

pub record Wording : Type 0 where
  pub own : ℕ → String → String → TimeRing → ℤ → ℕ → String
  pub related : ℕ → String → String → ℤ → TimeRing → String → String → String → ℕ → String
  pub hops : ℤ → String

pub record EvidenceRef : Type 0 where
  pub kind : String
  pub evidence_id : String
  pub details : String

module _ (sc : Scores) where
  -- The range of time is its two instants. A ring that is not set is an empty text in the code;
  -- every step of the engine sets it.
  pub record RcaStep : Type 0 where
    pub why_index : ℕ
    pub service : String
    pub component : String
    pub time_start : ℤ
    pub time_end : ℤ
    pub ring : TimeRing
    pub direction : String
    pub distance : ℤ
    pub evidence : List EvidenceRef
    pub summary : String
    pub step_score : sc.F

  pub record RcaChain : Type 0 where
    pub steps : List RcaStep
    pub score : sc.F
    pub rank : ℕ
    pub impact_path : List String
    pub duration_hops : ℕ

  -- The instant of the report is left out: nothing reads it.
  pub record RcaIncident : Type 0 where
    pub impact : IncidentContext sc
    pub root_cause : Option RcaStep
    pub chains : List RcaChain
    pub incident_score : sc.F
    pub notes : List String
    pub diagnostics : RcaDiagnostics

  unfoldable pub new_rca_step : ℕ → String → String → RcaStep
  new_rca_step why_index service component = record {
    why_index = why_index;
    service = service;
    component = component;
    time_start = pos 0;
    time_end = pos 0;
    ring = ring_out_of_scope;
    direction = "";
    distance = negsuc 0;
    evidence = [];
    summary = "";
    step_score = sc.zero_score;
  }

  unfoldable pub add_evidence : RcaStep → String → String → String → RcaStep
  add_evidence step kind id details = record step {
    evidence = step.evidence ++ (record { kind = kind; evidence_id = id; details = details } ∷ []);
  }

  unfoldable pub new_rca_chain : RcaChain
  new_rca_chain = record {
    steps = [];
    score = sc.zero_score;
    rank = 0;
    impact_path = [];
    duration_hops = 0;
  }

  unfoldable pub add_step : RcaChain → RcaStep → RcaChain
  add_step chain step = record chain {
    steps = chain.steps ++ (step ∷ []);
    impact_path =
        if not (step.service == "")
        then chain.impact_path ++ (step.service ∷ [])
        else chain.impact_path;
    duration_hops = length (chain.steps ++ (step ∷ []));
  }

  unfoldable pub new_rca_incident : IncidentContext sc → RcaIncident
  unfolding new_rca_diagnostics
  new_rca_incident impact = record {
    impact = impact;
    root_cause = none;
    chains = [];
    incident_score = sc.zero_score;
    notes = [];
    diagnostics = new_rca_diagnostics;
  }

  unfoldable pub add_chain : RcaIncident → RcaChain → RcaIncident
  add_chain incident chain = record incident {
    chains = incident.chains ++ (record chain { rank = length incident.chains + 1 } ∷ []);
  }

  -- `steps[len(steps)-1]`, where there is one.
  abbrev pub last_step : List RcaStep → Option RcaStep
  last_step [] = none
  last_step (step ∷ []) = some step
  last_step (step ∷ next ∷ steps) = last_step (next ∷ steps)

  abbrev pub rooted : RcaIncident → RcaChain → Option RcaStep → RcaIncident
  rooted incident best none = incident
  rooted incident best (some step) = record incident {
    root_cause = some step;
    incident_score = best.score;
  }

  abbrev pub with_root_cause : RcaIncident → List RcaChain → RcaIncident
  with_root_cause incident [] = incident
  with_root_cause incident (best ∷ others) = rooted incident best (last_step best.steps)

  unfoldable pub set_root_cause_from_best_chain : RcaIncident → RcaIncident
  set_root_cause_from_best_chain incident = with_root_cause incident incident.chains

  abbrev pub direction_text : String → String
  direction_text direction =
      if direction == direction_upstream
      then "upstream"
      else if direction == direction_same
      then "same service"
      else "related"

  abbrev pub is_significant : Option RcaDiagnostics → Bool
  is_significant none = false
  is_significant (some rd) = has_significant_issues rd

  unfoldable pub template_based_summary :
      Wording → RcaStep → String → Option RcaDiagnostics → String
  unfolding has_significant_issues
  template_based_summary w step impact_service diagnostics =
      let base =
        if step.service == impact_service
        then w.own step.why_index step.service step.component step.ring step.time_start
            (length step.evidence)
        else w.related step.why_index step.service step.component step.time_start step.ring
            (direction_text step.direction)
            (if leb_ℤ (pos 0) step.distance then w.hops step.distance else "unknown distance")
            impact_service (length step.evidence) in
      if is_significant diagnostics
      then base
        +++ " [Note: RCA accuracy may be reduced due to missing metrics labels or configuration issues.]"
      else base

-- Bytes, which are the characters of an ASCII text.
unfoldable pub enhance_narrative_with_kpi_description : String → String → String
enhance_narrative_with_kpi_description base_narrative kpi_description =
    if kpi_description == ""
    then base_narrative
    else base_narrative
      +++ (" Context: "
          +++ (if ltb 200 (len kpi_description)
              then slice kpi_description 0 200 +++ "..."
              else kpi_description))
