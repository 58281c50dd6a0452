-- ===== src/Rca/Scoring/Bias.antt =====
-- What `ApplyKPISentimentBias` returns.
use mathlib.Core.List.{Perm}
use mathlib.Core.Path.{subst}
use mirador_core.Prelude.{
  suc, ◌≡◌, ◌≢◌, not, ◌==◌, true, false, eq_of_same, ne_of_not_same, refl, ap, ◌∙◌, Bool, Option,
  none, some, List, [], ◌∷◌, map, String, arith, if◌then◌else◌, length, string_keys, All,
  Bool-cases, inl, inr,
}
use mirador_core.Prelude.Sorting.{sort_by, length-sort_by}
use mirador_core.Rca.Events.{Numbers}
use mirador_core.Rca.Scoring.Defs.{CandidateCause, clamp_score}
use mirador_core.Rca.Scoring.Rank.{higher_score, rank_anew, add_bias}
use mirador_core.Rca.Chain.{KpiIncidentMetadata}
use mirador_core.Rca.Dimensions.{RcaDiagnostics}
use mirador_core.Rca.Scoring.Rank.{bias_of, apply_bias, apply_kpi_sentiment_bias}
use mirador_core.Rca.Scoring.Order.{NotBelow, IsRanked, IsRanking-IsRanked}
use mirador_core.Rca.Scoring.RankLaws.{
  InRange, clamp_score-InRange, unranked, rank-IsRanking, same_causes, length-number_from,
}

module _ (nu : Numbers) where
  -- The bias that the metadata of an incident calls for, if any: the magnitude where the KPI has the
  -- sentiment NEGATIVE, and its opposite for POSITIVE.
  pub data CallsFor (magnitude : nu.scores.F)
      : Option KpiIncidentMetadata → Option nu.scores.F → Type 0 where
    no_metadata : CallsFor magnitude none none
    no_kpi :
        {kpi : KpiIncidentMetadata} → kpi.impact_is_kpi ≡ false → CallsFor magnitude (some kpi) none
    negative :
        {kpi : KpiIncidentMetadata}
        → kpi.impact_is_kpi ≡ true
        → kpi.kpi_sentiment ≡ "NEGATIVE"
        → CallsFor magnitude (some kpi) (some magnitude)
    positive :
        {kpi : KpiIncidentMetadata}
        → kpi.impact_is_kpi ≡ true
        → kpi.kpi_sentiment ≡ "POSITIVE"
        → CallsFor magnitude (some kpi) (some (nu.neg magnitude))
    neutral :
        {kpi : KpiIncidentMetadata}
        → kpi.impact_is_kpi ≡ true
        → kpi.kpi_sentiment ≡ "NEUTRAL"
        → CallsFor magnitude (some kpi) (some nu.scores.zero_score)
    no_sentiment :
        {kpi : KpiIncidentMetadata}
        → kpi.impact_is_kpi ≡ true
        → kpi.kpi_sentiment ≢ "NEGATIVE"
        → kpi.kpi_sentiment ≢ "POSITIVE"
        → kpi.kpi_sentiment ≢ "NEUTRAL"
        → CallsFor magnitude (some kpi) none

  -- The number, or the end of the range from 0 to 1 that it is beyond.
  abbrev pub within : nu.scores.F → nu.scores.F
  within x =
      if nu.scores.lt nu.one x
      then nu.one
      else if nu.scores.lt x nu.scores.zero_score
      then nu.scores.zero_score
      else x

  abbrev pub biased : nu.scores.F → CandidateCause nu → CandidateCause nu
  biased bias c = record c { score = within (nu.scores.add c.score bias); rank = 0 }

  -- Without a bias, or with one of 0, the candidates stay as they are; with another they are, but for
  -- the ranks, those with the bias added within 0 and 1, each once, and numbered by falling score.
  abbrev pub BiasedBy :
      Option nu.scores.F → List (CandidateCause nu) → List (CandidateCause nu) → Type 0
  BiasedBy none cs result = result ≡ cs
  BiasedBy (some bias) cs result =
      if nu.same_number bias nu.scores.zero_score
      then (result ≡ cs)
      else (IsRanked nu (NotBelow nu) result
          × Perm (map (unranked nu) result) (map (biased bias) cs))

  clamp_score-within : (x : nu.scores.F) → clamp_score nu x ≡ within x
  unfolding clamp_score
  clamp_score-within x = ground (arith, nu.one-zero)

  add_bias-InRange :
      (bias : nu.scores.F) (cs : List (CandidateCause nu))
      → All (λ c. InRange nu c.score) (add_bias nu bias cs)
  unfolding add_bias
  add_bias-InRange bias [] = tt
  add_bias-InRange bias (c ∷ cs) = (clamp_score-InRange nu _, add_bias-InRange bias cs)

  unranked-add_bias :
      (bias : nu.scores.F) (cs : List (CandidateCause nu))
      → map (unranked nu) (add_bias nu bias cs) ≡ map (biased bias) cs
  unfolding add_bias
  unranked-add_bias bias [] = refl
  unranked-add_bias bias (c ∷ cs) =
      rw (clamp_score-within (nu.scores.add c.score bias))
        (ap (λ t. biased bias c ∷ t) (unranked-add_bias bias cs))

  anew-IsRanked :
      (bias : nu.scores.F) (cs : List (CandidateCause nu))
      → IsRanked nu (NotBelow nu) (rank_anew nu (add_bias nu bias cs))
        × Perm (map (unranked nu) (rank_anew nu (add_bias nu bias cs))) (map (biased bias) cs)
  unfolding rank_anew
  anew-IsRanked bias cs = (
    IsRanking-IsRanked nu (higher_score nu) (NotBelow nu) (λ a b h. h) _
        (rank-IsRanking nu (higher_score nu) (λ a b j k. refl) (λ a b. nu.lt_asymm b.score a.score)
          (add_bias nu bias cs) (add_bias-InRange bias cs)),
    subst (λ t. Perm (map (unranked nu) (rank_anew nu (add_bias nu bias cs))) t)
        (unranked-add_bias bias cs) (same_causes nu (higher_score nu) (add_bias nu bias cs)),
  )

  length-add_bias :
      (bias : nu.scores.F) (cs : List (CandidateCause nu))
      → length (add_bias nu bias cs) ≡ length cs
  unfolding add_bias
  length-add_bias bias [] = refl
  length-add_bias bias (c ∷ cs) = ap suc (length-add_bias bias cs)

  pub length-rank_anew : (cs : List (CandidateCause nu)) → length (rank_anew nu cs) ≡ length cs
  unfolding rank_anew
  length-rank_anew cs =
      length-number_from nu 1 (sort_by (higher_score nu) cs) ∙ length-sort_by (higher_score nu) cs

  module _ (reason : String → String → nu.scores.F → String) where
    apply_bias-BiasedBy :
        (kpi : KpiIncidentMetadata) (bias : nu.scores.F) (told : Bool)
        (cs : List (CandidateCause nu)) (rd : Option RcaDiagnostics)
        → BiasedBy (some bias) cs (apply_bias nu reason kpi (some (bias, told)) cs rd).0
    unfolding apply_kpi_sentiment_bias
    apply_bias-BiasedBy kpi bias told cs rd =
        elim (Bool-cases (nu.same_number bias nu.scores.zero_score)) [
          | inl h ↦ rw h refl
          | inr h ↦ rw h (anew-IsRanked bias cs)
        ]

    -- Some bias is called for, or none, and it is applied.
    abbrev pub IsBiased :
        Option KpiIncidentMetadata
        → nu.scores.F
        → List (CandidateCause nu)
        → List (CandidateCause nu)
        → Type 0
    IsBiased metadata magnitude cs result =
        (bias : Option nu.scores.F) × CallsFor magnitude metadata bias × BiasedBy bias cs result

    by_sentiment :
        (kpi : KpiIncidentMetadata) (magnitude : nu.scores.F) (cs : List (CandidateCause nu))
        (rd : Option RcaDiagnostics)
        → kpi.impact_is_kpi ≡ true
        → IsBiased
            (some kpi)
            magnitude
            cs
            (apply_bias nu reason kpi (bias_of nu kpi.kpi_sentiment magnitude) cs rd).0
    by_sentiment kpi magnitude cs rd is_kpi =
        let s = kpi.kpi_sentiment in
        elim (Bool-cases (s == "NEGATIVE")) [
          | inl n ↦ rw n (
            some magnitude,
            negative is_kpi (eq_of_same s "NEGATIVE" n),
            apply_bias-BiasedBy kpi magnitude true cs rd,
          )
          | inr n ↦ elim (Bool-cases (s == "POSITIVE")) [
            | inl p ↦
                rw (n, p)
                  (
                    some (nu.neg magnitude),
                    positive is_kpi (eq_of_same s "POSITIVE" p),
                    apply_bias-BiasedBy kpi (nu.neg magnitude) true cs rd,
                  )
            | inr p ↦ elim (Bool-cases (s == "NEUTRAL")) [
              | inl u ↦
                  rw (n, p, u)
                    (
                      some nu.scores.zero_score,
                      neutral is_kpi (eq_of_same s "NEUTRAL" u),
                      apply_bias-BiasedBy kpi nu.scores.zero_score false cs rd,
                    )
              | inr u ↦
                  rw (n, p, u)
                    (
                      none,
                      no_sentiment is_kpi (ne_of_not_same s "NEGATIVE" n)
                          (ne_of_not_same s "POSITIVE" p) (ne_of_not_same s "NEUTRAL" u),
                      refl,
                    )
            ]
          ]
        ]

    by_impact :
        (b : Bool) (kpi : KpiIncidentMetadata) (magnitude : nu.scores.F)
        (cs : List (CandidateCause nu)) (rd : Option RcaDiagnostics)
        → kpi.impact_is_kpi ≡ b
        → IsBiased
            (some kpi)
            magnitude
            cs
            (if not b
              then (cs, rd)
              else apply_bias nu reason kpi (bias_of nu kpi.kpi_sentiment magnitude) cs rd).0
    by_impact true kpi magnitude cs rd h = by_sentiment kpi magnitude cs rd h
    by_impact false kpi magnitude cs rd h = (none, no_kpi h, refl)

    -- `ApplyKPISentimentBias` changes the candidates, if there are any, by the bias that the metadata
    -- of the incident calls for: the magnitude for a KPI of the sentiment NEGATIVE, its opposite for
    -- POSITIVE, 0 for NEUTRAL, and none for another sentiment, without metadata, or where the impact
    -- is no KPI. A bias that is not 0 is added to each score within 0 and 1, and the candidates are
    -- numbered anew by falling score; otherwise they stay as they are.
    pub apply_kpi_sentiment_bias_lem :
        (c : CandidateCause nu) (cs : List (CandidateCause nu))
        (metadata : Option KpiIncidentMetadata) (magnitude : nu.scores.F)
        (rd : Option RcaDiagnostics)
        → IsBiased metadata magnitude
            (c ∷ cs)
            (apply_kpi_sentiment_bias nu reason (c ∷ cs) metadata magnitude rd).0
    unfolding apply_kpi_sentiment_bias
    apply_kpi_sentiment_bias_lem c cs none magnitude rd = (none, no_metadata, refl)
    apply_kpi_sentiment_bias_lem c cs (some kpi) magnitude rd =
        by_impact kpi.impact_is_kpi kpi magnitude (c ∷ cs) rd refl

    length-apply_bias :
        (kpi : KpiIncidentMetadata) (b : Option (nu.scores.F × Bool))
        (cs : List (CandidateCause nu)) (rd : Option RcaDiagnostics)
        → length (apply_bias nu reason kpi b cs rd).0 ≡ length cs
    unfolding apply_kpi_sentiment_bias
    length-apply_bias kpi none cs rd = refl
    length-apply_bias kpi (some (bias, told)) cs rd =
        elim (Bool-cases (nu.same_number bias nu.scores.zero_score)) [
          | inl h ↦ rw h refl
          | inr h ↦ rw h (length-rank_anew (add_bias nu bias cs) ∙ length-add_bias bias cs)
        ]

    pub length-apply_kpi_sentiment_bias :
        (cs : List (CandidateCause nu)) (metadata : Option KpiIncidentMetadata)
        (magnitude : nu.scores.F) (rd : Option RcaDiagnostics)
        → length (apply_kpi_sentiment_bias nu reason cs metadata magnitude rd).0 ≡ length cs
    unfolding apply_kpi_sentiment_bias
    length-apply_kpi_sentiment_bias [] metadata magnitude rd = refl
    length-apply_kpi_sentiment_bias (c ∷ cs) none magnitude rd = refl
    length-apply_kpi_sentiment_bias (c ∷ cs) (some kpi) magnitude rd =
        elim (Bool-cases kpi.impact_is_kpi) [
          | inl h ↦
              rw h (length-apply_bias kpi (bias_of nu kpi.kpi_sentiment magnitude) (c ∷ cs) rd)
          | inr h ↦ rw h refl
        ]
