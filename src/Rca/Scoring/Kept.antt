-- ===== src/Rca/Scoring/Kept.antt =====
-- The groups of candidates that are ranked anew or biased, and their order.
use mathlib.Core.List.{Perm}
use mathlib.Core.List.Perm
use mathlib.Core.Path.{subst}
use mirador_core.Prelude.{
  ℕ, suc, Bool, if◌then◌else◌, ◌≡◌, refl, ap, Option, none, some, List, [], ◌∷◌, map, String, true,
  false,
}
use mirador_core.Prelude.Sorting.{sort_by, sort_by-perm, sort_by-IsSorted}
use mirador_core.Rca.Events.{Numbers}
use mirador_core.Rca.Grouping.{AnomalyGroup}
use mirador_core.Rca.Chain.{KpiIncidentMetadata}
use mirador_core.Rca.Dimensions.{RcaDiagnostics}
use mirador_core.Rca.Scoring.Defs.{CandidateCause}
use mirador_core.Rca.Scoring.Rank.{higher_score, number_from, rank_anew, apply_kpi_sentiment_bias}
use mirador_core.Rca.Scoring.RankLaws.{unranked, number_from-IsSorted}
use mirador_core.Rca.Scoring.Order.{InOrder, IsSorted-InOrder, NotBelow, IsRanked}
use mirador_core.Rca.Scoring.Bias.{biased, BiasedBy, apply_kpi_sentiment_bias_lem}

module _ (nu : Numbers) where
  abbrev pub groups_of : List (CandidateCause nu) → List (AnomalyGroup nu.scores)
  groups_of = map (λ (c : CandidateCause nu). c.group)

  groups-number_from :
      (k : ℕ) (cs : List (CandidateCause nu)) → groups_of (number_from nu k cs) ≡ groups_of cs
  unfolding number_from
  groups-number_from k [] = refl
  groups-number_from k (c ∷ cs) = ap (λ l. c.group ∷ l) (groups-number_from (suc k) cs)

  groups-unranked :
      (cs : List (CandidateCause nu)) → groups_of (map (unranked nu) cs) ≡ groups_of cs
  groups-unranked [] = refl
  groups-unranked (c ∷ cs) = ap (λ l. c.group ∷ l) (groups-unranked cs)

  groups-biased :
      (b : nu.scores.F) (cs : List (CandidateCause nu))
      → groups_of (map (biased nu b) cs) ≡ groups_of cs
  groups-biased b [] = refl
  groups-biased b (c ∷ cs) = ap (λ l. c.group ∷ l) (groups-biased b cs)

  -- The same groups, by falling score.
  pub record IsReordered (cs result : List (CandidateCause nu)) : Type 0 where
    pub falling : InOrder (NotBelow nu) result
    pub same_groups : Perm (groups_of result) (groups_of cs)

  pub rank_anew-IsReordered : (cs : List (CandidateCause nu)) → IsReordered cs (rank_anew nu cs)
  unfolding rank_anew
  rank_anew-IsReordered cs =
      let less = higher_score nu in
      record {
        falling =
            IsSorted-InOrder less (NotBelow nu) (λ a b h. h) _
              (number_from-IsSorted nu less (λ a b j k. refl) 1 (sort_by less cs)
                (sort_by-IsSorted less (λ a b. nu.lt_asymm b.score a.score) cs));
        same_groups =
            rw (groups-number_from 1 (sort_by less cs))
              (Perm.map (λ (c : CandidateCause nu). c.group) (sort_by-perm less cs));
      }

  reordered :
      (z : Bool) (b : nu.scores.F) (cs result : List (CandidateCause nu))
      → (if z
          then (result ≡ cs)
          else (IsRanked nu (NotBelow nu) result
              × Perm (map (unranked nu) result) (map (biased nu b) cs)))
      → InOrder (NotBelow nu) cs
      → IsReordered cs result
  reordered true b cs result h falling =
      rw h (record { falling = falling; same_groups = Perm.refl _ })
  reordered false b cs result (ranked, causes) falling = record {
    falling = ranked.ordered;
    same_groups =
        subst (λ l. Perm l (groups_of cs)) (groups-unranked result)
          (subst (Perm (groups_of (map (unranked nu) result))) (groups-biased b cs)
            (Perm.map (λ (c : CandidateCause nu). c.group) causes));
  }

  biased-IsReordered :
      (o : Option nu.scores.F) (cs result : List (CandidateCause nu))
      → BiasedBy nu o cs result
      → InOrder (NotBelow nu) cs
      → IsReordered cs result
  biased-IsReordered none cs result h falling =
      rw h (record { falling = falling; same_groups = Perm.refl _ })
  biased-IsReordered (some b) cs result h falling =
      reordered (nu.same_number b nu.scores.zero_score) b cs result h falling

  pub apply_kpi_sentiment_bias-IsReordered :
      (reason : String → String → nu.scores.F → String) (cs : List (CandidateCause nu))
      (metadata : Option KpiIncidentMetadata) (magnitude : nu.scores.F) (rd : Option RcaDiagnostics)
      → InOrder (NotBelow nu) cs
      → IsReordered cs (apply_kpi_sentiment_bias nu reason cs metadata magnitude rd).0
  unfolding apply_kpi_sentiment_bias
  apply_kpi_sentiment_bias-IsReordered reason [] metadata magnitude rd falling = record {
    falling = tt;
    same_groups = Perm.refl [];
  }
  apply_kpi_sentiment_bias-IsReordered reason (c ∷ cs) metadata magnitude rd falling =
      let (bias, called, by) = apply_kpi_sentiment_bias_lem nu reason c cs metadata magnitude rd in
      biased-IsReordered bias (c ∷ cs) _ by falling
