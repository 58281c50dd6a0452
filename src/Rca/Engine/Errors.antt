-- ===== src/Rca/Engine/Errors.antt =====
-- How `ComputeRCA` answers: the errors of its parts as it wraps them, or a report.
use mirador_core.Prelude.{◌≡◌, refl, ◌⊎◌, inl, inr, Option, none, some, List, String}
use mirador_core.Prelude.Int.{ℤ, pos, ◌-ℤ◌}
use mirador_core.Rca.Events.{Numbers, AnomalyEvent}
use mirador_core.Rca.ServiceGraph.{ServiceGraph}
use mirador_core.Rca.Chain.{ContextError, IncidentContext, validate, RcaIncident}
use mirador_core.Rca.Collect.{RcaError, CollectOptions, collect, compute_candidates}
use mirador_core.Rca.Engine.Compute.{RcaOptions, AnalysisWording, compute_rca}
use mirador_core.Rca.Scoring.{CandidateCause}
use mirador_core.Rca.Engine.Analysis.{Explains, analyze_incident_lem}

module _ (nu : Numbers) (w : AnalysisWording nu) {S : Type 0} (error_rate : S → nu.scores.F)
    (sg : ServiceGraph S) {E : Type 0}
    (get_anomalies : ℤ → ℤ → List String → E ⊎ List (AnomalyEvent nu.scores)) where
  -- What the provider is asked for: the window of the incident with its padding.
  abbrev pub provided :
      IncidentContext nu.scores → CollectOptions nu → E ⊎ List (AnomalyEvent nu.scores)
  provided incident opts =
      get_anomalies (incident.time_bounds.t_start -ℤ opts.time_padding_before)
        (incident.time_bounds.t_end -ℤ (pos 0 -ℤ opts.time_padding_after)) opts.services_to_include

  -- The answer that the check of the incident and the provider call for.
  abbrev pub AnswersTo :
      IncidentContext nu.scores
      → RcaOptions nu
      → Option ContextError
      → E ⊎ List (AnomalyEvent nu.scores)
      → RcaError E ⊎ RcaIncident nu.scores
      → Type 0
  AnswersTo incident opts (some e) events answer = answer ≡ inl (RcaError.invalid_context e)
  AnswersTo incident opts none (inl e) answer =
      answer
      ≡ inl (
          RcaError.failed_to_compute
            (RcaError.failed_to_collect (RcaError.failed_to_get_anomalies e)))
  AnswersTo incident opts none (inr events) answer =
      (cs : List (CandidateCause nu)) × (r : RcaIncident nu.scores) × (compute_candidates nu sg
          get_anomalies incident opts.candidate_cause_options
        ≡ inr cs)
      × (answer ≡ inr r)
      × Explains nu w error_rate sg incident opts cs r

  go :
      (incident : IncidentContext nu.scores) (opts : RcaOptions nu) (check : Option ContextError)
      (events : E ⊎ List (AnomalyEvent nu.scores))
      → validate nu.scores incident ≡ check
      → provided incident opts.candidate_cause_options.collect_options ≡ events
      → AnswersTo incident opts check events
          (compute_rca nu w error_rate sg get_anomalies incident opts)
  unfolding compute_rca compute_candidates collect
  go incident opts (some e) events c p = rw c refl
  go incident opts none (inl e) c p = rw (c, p) refl
  go incident opts none (inr events) c p =
      rw (c, p) (_, _, refl, refl, analyze_incident_lem nu w error_rate sg incident opts _)

  -- `ComputeRCA` answers with the error of an incident that is not valid; of a valid one with the
  -- provider's error, wrapped three times, if the provider fails on the padded window of the incident;
  -- and else with the report on the candidates that are computed from what it provides: its chains are
  -- those of the first candidates, as many as the limit allows, ranked by falling score, and its root
  -- cause is the last step of the best.
  pub compute_rca_lem :
      (incident : IncidentContext nu.scores) (opts : RcaOptions nu)
      → AnswersTo incident opts
          (validate nu.scores incident)
          (provided incident opts.candidate_cause_options.collect_options)
          (compute_rca nu w error_rate sg get_anomalies incident opts)
  compute_rca_lem incident opts = go incident opts _ _ refl refl
