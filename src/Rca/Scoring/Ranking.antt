-- ===== src/Rca/Scoring/Ranking.antt =====
-- What `RankCandidateCauses` returns.
use mathlib.Core.List.{Perm}
use mathlib.Core.Path.{subst}
use mirador_core.Prelude.{
  ◌≡◌, sym, refl, ap, Option, none, some, List, [], ◌∷◌, map, arith, if◌then◌else◌, length,
  string_keys, All, Bool-cases, inl, inr,
}
use mirador_core.Prelude.Int.{ℤ, pos, ltb_ℤ, pos_part}
use mirador_core.Prelude.Sorting.{sort_by}
use mirador_core.Rca.Events.{Numbers}
use mirador_core.Rca.Grouping.{AnomalyGroup}
use mirador_core.Rca.Scoring.Defs.{ScoringConfig, CandidateCause, score_candidate}
use mirador_core.Rca.Scoring.Rank.{
  take, more_suspicious, number_from, score_groups, limit_candidates, rank_candidate_causes,
}
use mirador_core.Rca.Scoring.Order.{
  take_all, Precedes, more_suspicious-Precedes, IsRanked, IsRanking-IsRanked,
}
use mirador_core.Rca.Scoring.RankLaws.{
  InRange, clamp_score-InRange, unranked, rank-IsRanking, same_causes, more_suspicious_asymm,
}

module _ (nu : Numbers) where
  score_groups-InRange :
      (groups : List (Option (AnomalyGroup nu.scores))) (cfg : ScoringConfig nu)
      → All (λ c. InRange nu c.score) (score_groups nu groups cfg)
  unfolding score_groups score_candidate
  score_groups-InRange [] cfg = tt
  score_groups-InRange (none ∷ groups) cfg = score_groups-InRange groups cfg
  score_groups-InRange (some g ∷ groups) cfg =
      (clamp_score-InRange nu _, score_groups-InRange groups cfg)

  score_groups-unranked :
      (groups : List (Option (AnomalyGroup nu.scores))) (cfg : ScoringConfig nu)
      → map (unranked nu) (score_groups nu groups cfg) ≡ score_groups nu groups cfg
  unfolding score_groups score_candidate
  score_groups-unranked [] cfg = refl
  score_groups-unranked (none ∷ groups) cfg = score_groups-unranked groups cfg
  score_groups-unranked (some g ∷ groups) cfg =
      ap (λ t. score_candidate nu g cfg ∷ t) (score_groups-unranked groups cfg)

  limit_candidates-take :
      (max : ℤ) (full : List (CandidateCause nu))
      → limit_candidates nu max full
        ≡ (if ltb_ℤ (pos 0) max then take (pos_part max) full else full)
  unfolding limit_candidates
  limit_candidates-take max full = elim (Bool-cases (ltb_ℤ (pos 0) max)) [
    | inr h ↦ rw h refl
    | inl h ↦ elim (Bool-cases (ltb_ℤ max (pos (length full)))) [
      | inl g ↦ rw (h, g) refl
      | inr g ↦ rw (h, g) (sym (take_all (pos_part max) full (ground arith)))
    ]
  ]

  -- All the scored groups, each once, ranked; and of them the first ones, as many as a positive limit
  -- allows.
  abbrev pub RanksGroups :
      List (Option (AnomalyGroup nu.scores)) → ScoringConfig nu → List (CandidateCause nu) → Type 0
  RanksGroups groups cfg result =
      (full : List (CandidateCause nu)) × IsRanked nu (Precedes nu) full
      × Perm (map (unranked nu) full) (score_groups nu groups cfg)
      × (result ≡ (
          if ltb_ℤ (pos 0) cfg.max_candidates_to_return
          then take (pos_part cfg.max_candidates_to_return) full
          else full))

  -- `RankCandidateCauses` scores the groups, numbers them from 1 by falling score between 0 and 1,
  -- equal scores by the names of service and component, and returns the first of them, as many as a
  -- positive limit allows, or all.
  pub rank_candidate_causes_lem :
      (groups : List (Option (AnomalyGroup nu.scores))) (cfg : ScoringConfig nu)
      → RanksGroups groups cfg (rank_candidate_causes nu groups cfg)
  unfolding rank_candidate_causes
  rank_candidate_causes_lem groups cfg =
      let scored = score_groups nu groups cfg in
      let full = number_from nu 1 (sort_by (more_suspicious nu) scored) in
      (
        full,
        IsRanking-IsRanked nu (more_suspicious nu) (Precedes nu) (more_suspicious-Precedes nu) full
            (rank-IsRanking nu (more_suspicious nu) (λ a b j k. refl) (more_suspicious_asymm nu)
              scored (score_groups-InRange groups cfg)),
        subst (λ t. Perm (map (unranked nu) full) t) (score_groups-unranked groups cfg)
            (same_causes nu (more_suspicious nu) scored),
        limit_candidates-take cfg.max_candidates_to_return full,
      )
