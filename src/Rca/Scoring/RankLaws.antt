-- ===== src/Rca/Scoring/RankLaws.antt =====
-- What a ranking of candidates is, and how sorting, numbering and cutting keep it.
use mathlib.Core.List.{Perm}
use mathlib.Core.List.Perm
use mirador_core.Prelude.{
  ℕ, zero, suc, ◌≤◌, ◌≡◌, refl, ap, ◌∙◌, Bool, true, false, List, [], ◌∷◌, map, arith, length,
  string_keys, All,
}
use mirador_core.Prelude.Strings.{str_ltb_asymm}
use mirador_core.Prelude.Sorting.{
  sort_by, IsSorted, IsSortedFrom, sort_by-IsSorted, sort_by-perm, All-sort_by,
}
use mirador_core.Rca.Events.{Numbers}
use mirador_core.Rca.Scoring.Defs.{CandidateCause, clamp_score}
use mirador_core.Rca.Scoring.Rank.{take, more_suspicious, number_from}

module _ {ℓ} {A : Type ℓ} where
  take-All : (P : A → Type 0) (n : ℕ) (xs : List A) → All P xs → All P (take n xs)
  take-All P zero xs all = tt
  take-All P (suc n) [] all = tt
  take-All P (suc n) (x ∷ xs) all = (all.0, take-All P n xs all.1)

  pub length-take : (n : ℕ) (xs : List A) → length (take n xs) ≤ n
  length-take zero xs = omega arith
  length-take (suc n) [] = omega arith
  length-take (suc n) (x ∷ xs) = omega (arith, length-take n xs)

module _ (nu : Numbers) where
  -- A score between 0 and 1, as far as the comparisons of floats tell: NaN counts as one.
  abbrev pub InRange : nu.scores.F → Type 0
  InRange x = (nu.scores.lt nu.one x ≡ false) × (nu.scores.lt x nu.scores.zero_score ≡ false)

  pub clamp_score-InRange : (x : nu.scores.F) → InRange (clamp_score nu x)
  unfolding clamp_score
  clamp_score-InRange x = ground (arith, nu.one-one, nu.one-zero, nu.zero-zero)

  abbrev pub unranked : CandidateCause nu → CandidateCause nu
  unranked c = record c { rank = 0 }

  -- The ranks count on from a number.
  abbrev pub NumberedFrom : ℕ → List (CandidateCause nu) → Type 0
  NumberedFrom k [] = Unit
  NumberedFrom k (c ∷ cs) = (c.rank ≡ k) × NumberedFrom (suc k) cs

  -- The ranks are 1, 2, and so on, no candidate belongs before the one in front of it, and the scores
  -- lie between 0 and 1.
  pub record IsRanking (less : CandidateCause nu → CandidateCause nu → Bool)
      (cs : List (CandidateCause nu)) : Type 0 where
    pub numbered : NumberedFrom 1 cs
    pub sorted : IsSorted less cs
    pub in_range : All (λ c. InRange c.score) cs

  pub more_suspicious_asymm :
      (a b : CandidateCause nu) → more_suspicious nu a b ≡ true → more_suspicious nu b a ≡ false
  more_suspicious_asymm a b h = ground (
    arith,
    nu.same_sym a.score b.score,
    nu.lt_asymm b.score a.score,
    string_keys.same_iff a.group.group_service b.group.group_service,
    string_keys.same_iff b.group.group_service a.group.group_service,
    str_ltb_asymm a.group.group_service b.group.group_service,
    str_ltb_asymm a.group.group_component b.group.group_component,
  )

  number_from-ranks : (k : ℕ) (cs : List (CandidateCause nu)) → NumberedFrom k (number_from nu k cs)
  unfolding number_from
  number_from-ranks k [] = tt
  number_from-ranks k (c ∷ cs) = (refl, number_from-ranks (suc k) cs)

  take-NumberedFrom :
      (n k : ℕ) (cs : List (CandidateCause nu)) → NumberedFrom k cs → NumberedFrom k (take n cs)
  take-NumberedFrom zero k cs h = tt
  take-NumberedFrom (suc n) k [] h = tt
  take-NumberedFrom (suc n) k (c ∷ cs) h = (h.0, take-NumberedFrom n (suc k) cs h.1)

  number_from-All :
      (P : nu.scores.F → Type 0) (k : ℕ) (cs : List (CandidateCause nu))
      → All (λ c. P c.score) cs
      → All (λ c. P c.score) (number_from nu k cs)
  unfolding number_from
  number_from-All P k [] all = tt
  number_from-All P k (c ∷ cs) all = (all.0, number_from-All P (suc k) cs all.1)

  number_from-unranked :
      (k : ℕ) (cs : List (CandidateCause nu)) → map unranked (number_from nu k cs) ≡ map unranked cs
  unfolding number_from
  number_from-unranked k [] = refl
  number_from-unranked k (c ∷ cs) = ap (λ t. unranked c ∷ t) (number_from-unranked (suc k) cs)

  pub length-number_from :
      (k : ℕ) (cs : List (CandidateCause nu)) → length (number_from nu k cs) ≡ length cs
  unfolding number_from
  length-number_from k [] = refl
  length-number_from k (c ∷ cs) = ap suc (length-number_from (suc k) cs)

  -- A comparison that does not look at the ranks.
  module _ (less : CandidateCause nu → CandidateCause nu → Bool)
      (blind : (a b : CandidateCause nu) (j k : ℕ)
        → less (record a { rank = j }) (record b { rank = k }) ≡ less a b) where
    number_from-sorted :
        (j k : ℕ) (c : CandidateCause nu) (cs : List (CandidateCause nu))
        → IsSortedFrom less c cs
        → IsSortedFrom less (record c { rank = j }) (number_from nu k cs)
    unfolding number_from
    number_from-sorted j k c [] s = tt
    number_from-sorted j k c (d ∷ ds) s =
        (blind d c k j ∙ s.0, number_from-sorted k (suc k) d ds s.1)

    pub number_from-IsSorted :
        (k : ℕ) (cs : List (CandidateCause nu))
        → IsSorted less cs
        → IsSorted less (number_from nu k cs)
    unfolding number_from
    number_from-IsSorted k [] s = tt
    number_from-IsSorted k (c ∷ cs) s = number_from-sorted k (suc k) c cs s

    take-sorted :
        (n : ℕ) (c : CandidateCause nu) (cs : List (CandidateCause nu))
        → IsSortedFrom less c cs
        → IsSortedFrom less c (take n cs)
    take-sorted zero c cs s = tt
    take-sorted (suc n) c [] s = tt
    take-sorted (suc n) c (d ∷ ds) s = (s.0, take-sorted n d ds s.1)

    take-IsSorted :
        (n : ℕ) (cs : List (CandidateCause nu)) → IsSorted less cs → IsSorted less (take n cs)
    take-IsSorted zero cs s = tt
    take-IsSorted (suc n) [] s = tt
    take-IsSorted (suc n) (c ∷ cs) s = take-sorted n c cs s

    pub rank-IsRanking :
        (asymm : (a b : CandidateCause nu) → less a b ≡ true → less b a ≡ false)
        (cs : List (CandidateCause nu))
        → All (λ c. InRange c.score) cs
        → IsRanking less (number_from nu 1 (sort_by less cs))
    rank-IsRanking asymm cs all = record {
      numbered = number_from-ranks 1 (sort_by less cs);
      sorted = number_from-IsSorted 1 (sort_by less cs) (sort_by-IsSorted less asymm cs);
      in_range =
          number_from-All InRange 1 (sort_by less cs)
            (All-sort_by (λ c. InRange c.score) less cs all);
    }

    pub take-IsRanking :
        (n : ℕ) (cs : List (CandidateCause nu)) → IsRanking less cs → IsRanking less (take n cs)
    take-IsRanking n cs r = record {
      numbered = take-NumberedFrom n 1 cs r.numbered;
      sorted = take-IsSorted n cs r.sorted;
      in_range = take-All (λ c. InRange c.score) n cs r.in_range;
    }

  pub same_causes :
      (less : CandidateCause nu → CandidateCause nu → Bool) (cs : List (CandidateCause nu))
      → Perm (map unranked (number_from nu 1 (sort_by less cs))) (map unranked cs)
  same_causes less cs =
      rw (number_from-unranked 1 (sort_by less cs)) (Perm.map unranked (sort_by-perm less cs))
