-- ===== src/Rca/Engine/WindowLaws.antt =====
-- What the analysis of a window of time reports.
use mathlib.Core.List.{Perm}
use mathlib.Core.List.Perm
use mathlib.Core.Path.{subst}
use mirador_core.Prelude.{
  ◌||◌, map, ◌++◌, ℕ, suc, ◌-◌, ◌≤◌, ◌≡◌, refl, sym, ap, ◌∙◌, Option, none, some, List, [], ◌∷◌,
  String, arith, if◌then◌else◌, ltb, leb, length, All, Bool-cases, inl, inr, ◌⊎◌,
}
use mirador_core.Prelude.Int.{ℤ}
use mirador_core.Prelude.Sorting.{sort_by}
use mirador_core.Rca.Events.{Numbers}
use mirador_core.Rca.Chain.{
  IncidentContext, RcaStep, RcaChain, RcaIncident, new_rca_chain, add_step, add_evidence, add_chain,
  new_rca_incident,
}
use mirador_core.Rca.Scoring.{take}
use mirador_core.Rca.Engine.ChainLaws.{
  IsChain, add_step-IsChain, new_rca_chain-IsChain, rescored-IsChain, length-add_step, take_nil,
  take_none, take_more,
}
use mirador_core.Rca.Engine.Reports.{IsReport, conclude_lem, add_chain_lem, unranked_chain}
use mirador_core.Rca.Engine.Correlation.{
  WindowWording, CorrelationResult, RedAnchor, CauseCandidate, higher_suspicion, context_of,
}
use mirador_core.Rca.Engine.Window.{
  impact_step, anchor_step, cause_step, add_reasons, add_stats, add_cause_steps, anchor_chain,
  add_anchor_chains, is_anchor, has_data, report_correlation, WindowError,
  compute_rca_by_time_range, correlation_failed, answer,
}

module _ (nu : Numbers) (w : WindowWording nu) (t_start t_end : ℤ) where
  add_reasons-IsStep :
      (kpi : String) (reasons : List String) (s : RcaStep nu.scores) (why : ℕ)
      → s.why_index ≡ why
      → (add_reasons nu w t_start t_end kpi reasons s).why_index ≡ why
  unfolding add_evidence
  add_reasons-IsStep kpi [] s why h = h
  add_reasons-IsStep kpi (r ∷ reasons) s why h = add_reasons-IsStep kpi reasons _ why h

  add_stats-IsStep :
      (kpi : String) (stats : Option String) (s : RcaStep nu.scores) (why : ℕ)
      → s.why_index ≡ why
      → (add_stats nu w t_start t_end kpi stats s).why_index ≡ why
  unfolding add_evidence
  add_stats-IsStep kpi none s why h = h
  add_stats-IsStep kpi (some text) s why h = h

  cause_step-why :
      (why : ℕ) (impact : String) (cause : CauseCandidate nu)
      → (cause_step nu w t_start t_end why impact cause).why_index ≡ why
  unfolding cause_step
  cause_step-why why impact cause =
      add_reasons-IsStep cause.kpi cause.reasons _ why
        (add_stats-IsStep cause.kpi cause.stats_evidence _ why refl)

  -- The chain with a step for each cause, up to the fifth.
  cause_steps :
      (impact : String) (anchor : RedAnchor nu) (causes : List (CauseCandidate nu)) (why : ℕ)
      (chain : RcaChain nu.scores)
      → IsChain nu chain
      → suc (length chain.steps) ≡ why
      → why ≤ 6
      → let r = add_cause_steps nu w t_start t_end impact anchor causes why chain in
        IsChain nu r × (length chain.steps ≤ length r.steps) × (length r.steps ≤ 5)
  unfolding add_cause_steps
  cause_steps impact anchor [] why chain c h le = (c, omega arith, omega (arith, h))
  cause_steps impact anchor (cause ∷ causes) why chain c h le = elim (Bool-cases (ltb 5 why)) [
    | inl full ↦ rw full (c, omega arith, omega (arith, h))
    | inr room ↦ elim (Bool-cases (is_anchor nu w t_start t_end anchor cause)) [
      | inl same ↦ rw (room, same) (cause_steps impact anchor causes why chain c h le)
      | inr other ↦
          let s = cause_step nu w t_start t_end why impact cause in
          let n = length-add_step nu chain s in
          let (c', grown, short) =
            cause_steps impact anchor causes (suc why) (add_step nu.scores chain s)
              (add_step-IsChain nu chain s c (cause_step-why why impact cause ∙ sym h))
              (ap suc n ∙ ap suc h) (ground arith) in
          rw (room, other) (c', omega (arith, n, grown), short)
    ]
  ]

  -- The chain of an anchor is well-formed, with at least the steps of the impact and the anchor, and
  -- at most five.
  pub anchor_chain_lem :
      (incident : IncidentContext nu.scores) (corr : CorrelationResult nu) (anchor : RedAnchor nu)
      → let chain = anchor_chain nu w t_start t_end incident corr anchor in
        IsChain nu chain × (2 ≤ length chain.steps) × (length chain.steps ≤ 5)
  unfolding anchor_chain
  anchor_chain_lem incident corr anchor =
      let one = impact_step nu w t_start t_end incident corr.confidence anchor in
      let two = anchor_step nu w t_start t_end incident.impact_service anchor in
      let start = new_rca_chain nu.scores in
      let chain1 = add_step nu.scores start one in
      let c1 = add_step-IsChain nu start one (new_rca_chain-IsChain nu) (refl) in
      let n1 = length-add_step nu start one in
      let c2 = add_step-IsChain nu chain1 two c1 (ap suc (sym n1)) in
      let n2 = length-add_step nu chain1 two in
      let (c, grown, short) =
        cause_steps incident.impact_service anchor (sort_by (higher_suspicion nu) corr.causes) 3
          (add_step nu.scores chain1 two) c2 (ap suc n2 ∙ ap (λ n. suc (suc n)) n1) (omega arith) in
      (rescored-IsChain nu _ _ c, omega (arith, n1, n2, grown), short)

  -- The chain of an anchor, but for its rank.
  abbrev pub chain_of :
      IncidentContext nu.scores → CorrelationResult nu → RedAnchor nu → RcaChain nu.scores
  chain_of incident corr anchor =
      unranked_chain nu (anchor_chain nu w t_start t_end incident corr anchor)

  anchor_chains :
      (corr : CorrelationResult nu) (i : ℕ) (anchors : List (RedAnchor nu))
      (r : RcaIncident nu.scores)
      → r.root_cause ≡ none
      → All (IsChain nu) r.chains
      → let s = add_anchor_chains nu w t_start t_end corr i anchors r in
        (s.root_cause ≡ none)
        × All (IsChain nu) s.chains
        × (map (unranked_chain nu) s.chains
            ≡ map (unranked_chain nu) r.chains
              ++ take (3 - i) (map (chain_of r.impact corr) anchors))
  unfolding add_anchor_chains add_chain
  anchor_chains corr i [] r fresh all =
      (fresh, all, take_nil (3 - i) (map (unranked_chain nu) r.chains))
  anchor_chains corr i (anchor ∷ anchors) r fresh all = elim (Bool-cases (leb 3 i)) [
    | inl full ↦ let e : 3 - i ≡ 0 = ground arith in rw full (fresh, all, take_none _ _ _ e)
    | inr more ↦
        let e : 3 - i ≡ suc (3 - suc i) = ground arith in
        let (fresh', all', added) =
          add_chain_lem nu r (anchor_chain nu w t_start t_end r.impact corr anchor) fresh all
            (anchor_chain_lem r.impact corr anchor).0 in
        let (fresh'', all'', rest) =
          anchor_chains corr (suc i) anchors
            (add_chain nu.scores r (anchor_chain nu w t_start t_end r.impact corr anchor)) fresh'
            all' in
        rw more (
          fresh'',
          all'',
          rest
              ∙ ap (λ l. l ++ take (3 - suc i) (map (chain_of r.impact corr) anchors)) added
              ∙ take_more _ _ (map (unranked_chain nu) r.chains) _ _ _ refl e,
        )
  ]

  -- The chains that a correlation calls for: one of each of the first three red anchors, in the
  -- context that the correlation gives; and none where it knows of no affected service and no anchor.
  abbrev pub wanted_chains : Option (CorrelationResult nu) → List (RcaChain nu.scores)
  wanted_chains none = []
  wanted_chains (some corr) =
      if ltb 0 (length corr.affected_services) || ltb 0 (length corr.red_anchors)
      then take 3 (map (chain_of (context_of nu w t_start t_end corr) corr) corr.red_anchors)
      else []

  abbrev pub HasWanted : Option (CorrelationResult nu) → RcaIncident nu.scores → Type 0
  HasWanted corr r = IsReport nu r × Perm (map (unranked_chain nu) r.chains) (wanted_chains corr)

  report_correlation-HasWanted :
      (now : ℤ) (corr : Option (CorrelationResult nu))
      → HasWanted corr (report_correlation nu w t_start t_end now corr)
  unfolding report_correlation new_rca_incident
  report_correlation-HasWanted now none =
      (record { numbered = tt; falling = tt; chained = tt; root = refl }, Perm.refl [])
  report_correlation-HasWanted now (some corr) =
      elim (Bool-cases (has_data nu w t_start t_end corr)) [
        | inl h ↦
            let (fresh, all, built) =
              anchor_chains corr 0 corr.red_anchors
                (new_rca_incident nu.scores (context_of nu w t_start t_end corr)) refl tt in
            let (x, same) = conclude_lem nu _ fresh all in
            rw h (
              record {
                numbered = x.numbered;
                falling = x.falling;
                chained = x.chained;
                root = x.root;
              },
              subst (Perm _) built same,
            )
        | inr h ↦
            rw h (record { numbered = tt; falling = tt; chained = tt; root = refl }, Perm.refl [])
      ]

  -- The answer that a correlation calls for.
  abbrev pub Concludes :
      {E : Type 0}
      → E ⊎ Option (CorrelationResult nu)
      → WindowError nu w t_start t_end E ⊎ RcaIncident nu.scores
      → Type 0
  Concludes (inl e) answer = answer ≡ inl (correlation_failed e)
  Concludes (inr corr) answer = (r : RcaIncident nu.scores) × (answer ≡ inr r) × HasWanted corr r

  by_answer :
      {E : Type 0} (now : ℤ) (c : E ⊎ Option (CorrelationResult nu))
      → Concludes c (answer nu w t_start t_end now c)
  by_answer now (inl e) = refl
  by_answer now (inr corr) = (_, refl, report_correlation-HasWanted now corr)

  -- `ComputeRCAByTimeRange` with a correlation engine answers with the engine's error if it fails on
  -- the window; else with a report whose chains are, but for their ranks, those of the first three red
  -- anchors, each once, and none where the engine knows of no affected service and no anchor. They are
  -- ranked by falling score, and the root cause is the last step of the best.
  pub compute_rca_by_time_range_lem :
      {E : Type 0} (correlate : ℤ → ℤ → E ⊎ Option (CorrelationResult nu)) (now : ℤ)
      → Concludes
          (correlate t_start t_end)
          (compute_rca_by_time_range nu w t_start t_end (some correlate) now)
  unfolding compute_rca_by_time_range
  compute_rca_by_time_range_lem correlate now = by_answer now (correlate t_start t_end)
