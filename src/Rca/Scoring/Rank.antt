-- ===== src/Rca/Scoring/Rank.antt =====
-- `RankCandidateCauses` and `ApplyKPISentimentBias`. A candidate is its value: the code changes the
-- candidates in place, and nothing else holds them.
use mirador_core.Prelude.{
  ℕ, zero, suc, Bool, true, false, ◌&&◌, not, Option, none, some, List, [], ◌∷◌, map, String,
  if◌then◌else◌, ◌==◌, length, string_keys,
}
use mirador_core.Prelude.Int.{ℤ, pos, ltb_ℤ, pos_part}
use mirador_core.Prelude.Strings.{str_ltb}
use mirador_core.Prelude.Sorting.{sort_by}
use mirador_core.Rca.Events.{Numbers}
use mirador_core.Rca.Dimensions.{RcaDiagnostics, add_reduced_accuracy_reason}
use mirador_core.Rca.Grouping.{AnomalyGroup}
use mirador_core.Rca.Chain.{KpiIncidentMetadata}
use mirador_core.Rca.Scoring.Defs.{ScoringConfig, CandidateCause, score_candidate, clamp_score}

-- `l[:n]` where `l` is longer.
abbrev pub take {ℓ} : {A : Type ℓ} → ℕ → List A → List A
take zero xs = []
take (suc n) [] = []
take (suc n) (x ∷ xs) = x ∷ take n xs

module _ (nu : Numbers) where
  -- The comparison of `RankCandidateCauses`.
  abbrev pub more_suspicious : CandidateCause nu → CandidateCause nu → Bool
  more_suspicious a b =
      if not (nu.same_number a.score b.score)
      then nu.scores.lt b.score a.score
      else if not (a.group.group_service == b.group.group_service)
      then str_ltb a.group.group_service b.group.group_service
      else str_ltb a.group.group_component b.group.group_component

  abbrev pub higher_score : CandidateCause nu → CandidateCause nu → Bool
  higher_score a b = nu.scores.lt b.score a.score

  -- The loop that numbers the candidates, from `rank` on.
  unfoldable pub number_from : ℕ → List (CandidateCause nu) → List (CandidateCause nu)
  number_from rank [] = []
  number_from rank (c ∷ cs) = record c { rank = rank } ∷ number_from (suc rank) cs

  -- Sort by the score alone and number anew; the engine and the bias both do this.
  unfoldable pub rank_anew : List (CandidateCause nu) → List (CandidateCause nu)
  unfolding number_from
  rank_anew candidates = number_from 1 (sort_by higher_score candidates)

  unfoldable pub score_groups :
      List (Option (AnomalyGroup nu.scores)) → ScoringConfig nu → List (CandidateCause nu)
  unfolding score_candidate
  score_groups [] cfg = []
  score_groups (none ∷ groups) cfg = score_groups groups cfg
  score_groups (some g ∷ groups) cfg = score_candidate nu g cfg ∷ score_groups groups cfg

  unfoldable pub limit_candidates : ℤ → List (CandidateCause nu) → List (CandidateCause nu)
  limit_candidates max candidates =
      if ltb_ℤ (pos 0) max && ltb_ℤ max (pos (length candidates))
      then take (pos_part max) candidates
      else candidates

  unfoldable pub rank_candidate_causes :
      List (Option (AnomalyGroup nu.scores)) → ScoringConfig nu → List (CandidateCause nu)
  unfolding score_groups number_from limit_candidates
  rank_candidate_causes groups cfg =
      limit_candidates cfg.max_candidates_to_return
        (number_from 1 (sort_by more_suspicious (score_groups groups cfg)))

  unfoldable pub add_bias : nu.scores.F → List (CandidateCause nu) → List (CandidateCause nu)
  unfolding clamp_score
  add_bias bias =
      map (λ (c : CandidateCause nu). record c {
        score = clamp_score nu (nu.scores.add c.score bias);
      })

  -- The switch on the sentiment: the bias, and whether the diagnostics are told.
  abbrev pub bias_of : String → nu.scores.F → Option (nu.scores.F × Bool)
  bias_of sentiment magnitude =
      if sentiment == "NEGATIVE"
      then some (magnitude, true)
      else if sentiment == "POSITIVE"
      then some (nu.neg magnitude, true)
      else if sentiment == "NEUTRAL"
      then some (nu.scores.zero_score, false)
      else none

  -- What `reason` stands for is the text that is printed of the name, the sentiment and the bias.
  module _ (reason : String → String → nu.scores.F → String) where
    abbrev pub tell :
        KpiIncidentMetadata → nu.scores.F → Bool → Option RcaDiagnostics → Option RcaDiagnostics
    tell kpi bias told none = none
    tell kpi bias told (some rd) = some (
        if told
        then add_reduced_accuracy_reason rd (reason kpi.kpi_name kpi.kpi_sentiment bias)
        else rd)

    abbrev pub apply_bias :
        KpiIncidentMetadata
        → Option (nu.scores.F × Bool)
        → List (CandidateCause nu)
        → Option RcaDiagnostics
        → List (CandidateCause nu) × Option RcaDiagnostics
    apply_bias kpi none candidates diagnostics = (candidates, diagnostics)
    apply_bias kpi (some (bias, told)) candidates diagnostics = (
      (if nu.same_number bias nu.scores.zero_score
          then candidates
          else rank_anew (add_bias bias candidates)),
      tell kpi bias told diagnostics,
    )

    -- The metadata of the incident; an incident that is nil has none.
    unfoldable pub apply_kpi_sentiment_bias :
        List (CandidateCause nu)
        → Option KpiIncidentMetadata
        → nu.scores.F
        → Option RcaDiagnostics
        → List (CandidateCause nu) × Option RcaDiagnostics
    unfolding rank_anew add_bias
    apply_kpi_sentiment_bias [] metadata magnitude diagnostics = ([], diagnostics)
    apply_kpi_sentiment_bias (c ∷ cs) none magnitude diagnostics = (c ∷ cs, diagnostics)
    apply_kpi_sentiment_bias (c ∷ cs) (some kpi) magnitude diagnostics =
        if not kpi.impact_is_kpi
        then (c ∷ cs, diagnostics)
        else apply_bias kpi (bias_of kpi.kpi_sentiment magnitude) (c ∷ cs) diagnostics
