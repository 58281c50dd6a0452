-- ===== src/Rca/Scoring/Order.antt =====
-- The order of a ranking, told by scores and names.
use mirador_core.Prelude.{
  ℕ, zero, suc, ◌≤◌, ◌≡◌, refl, ap, Bool, false, if◌then◌else◌, ◌==◌, List, [], ◌∷◌, arith, length,
  string_keys, All,
}
use mirador_core.Prelude.Strings.{str_ltb}
use mirador_core.Prelude.Sorting.{IsSorted, IsSortedFrom}
use mirador_core.Rca.Events.{Numbers}
use mirador_core.Rca.Scoring.Defs.{CandidateCause}
use mirador_core.Rca.Scoring.Rank.{take, more_suspicious}
use mirador_core.Rca.Scoring.RankLaws.{InRange, NumberedFrom, IsRanking}

module _ {ℓ} {A : Type ℓ} where
  pub take_all : (n : ℕ) (xs : List A) → length xs ≤ n → take n xs ≡ xs
  take_all zero [] h = refl
  take_all zero (x ∷ xs) h = absurd (omega arith)
  take_all (suc n) [] h = refl
  take_all (suc n) (x ∷ xs) h = ap (λ l. x ∷ l) (take_all n xs (omega arith))

  -- Each element and the next one.
  abbrev pub InOrderFrom : (A → A → Type 0) → A → List A → Type 0
  InOrderFrom P x [] = Unit
  InOrderFrom P x (y ∷ ys) = P x y × InOrderFrom P y ys

  abbrev pub InOrder : (A → A → Type 0) → List A → Type 0
  InOrder P [] = Unit
  InOrder P (x ∷ xs) = InOrderFrom P x xs

  module _ (less : A → A → Bool) (P : A → A → Type 0)
      (p : (a b : A) → less b a ≡ false → P a b) where
    sorted_from : (x : A) (xs : List A) → IsSortedFrom less x xs → InOrderFrom P x xs
    sorted_from x [] s = tt
    sorted_from x (y ∷ ys) s = (p x y s.0, sorted_from y ys s.1)

    pub IsSorted-InOrder : (xs : List A) → IsSorted less xs → InOrder P xs
    IsSorted-InOrder [] s = tt
    IsSorted-InOrder (x ∷ xs) s = sorted_from x xs s

module _ (nu : Numbers) where
  -- The score of the first is not below that of the second.
  abbrev pub NotBelow : CandidateCause nu → CandidateCause nu → Type 0
  NotBelow a b = nu.scores.lt a.score b.score ≡ false

  -- The first may stand in front of the second: of scores that differ its own is not the lower one;
  -- and where they are the same, neither is its service the later name, nor its component, if the
  -- services are the same.
  abbrev pub Precedes : CandidateCause nu → CandidateCause nu → Type 0
  Precedes a b =
      if nu.same_number b.score a.score
      then (if b.group.group_service == a.group.group_service
          then (str_ltb b.group.group_component a.group.group_component ≡ false)
          else (str_ltb b.group.group_service a.group.group_service ≡ false))
      else NotBelow a b

  pub more_suspicious-Precedes :
      (a b : CandidateCause nu) → more_suspicious nu b a ≡ false → Precedes a b
  more_suspicious-Precedes a b h = ground arith

  -- Numbered from 1, in order, and with scores between 0 and 1.
  pub record IsRanked (P : CandidateCause nu → CandidateCause nu → Type 0)
      (cs : List (CandidateCause nu)) : Type 0 where
    pub numbered : NumberedFrom nu 1 cs
    pub ordered : InOrder P cs
    pub in_range : All (λ c. InRange nu c.score) cs

  pub IsRanking-IsRanked :
      (less : CandidateCause nu → CandidateCause nu → Bool)
      (P : CandidateCause nu → CandidateCause nu → Type 0)
      (p : (a b : CandidateCause nu) → less b a ≡ false → P a b) (cs : List (CandidateCause nu))
      → IsRanking nu less cs
      → IsRanked P cs
  IsRanking-IsRanked less P p cs r = record {
    numbered = r.numbered;
    ordered = IsSorted-InOrder less P p cs r.sorted;
    in_range = r.in_range;
  }
