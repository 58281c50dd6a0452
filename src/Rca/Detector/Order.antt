-- ===== src/Rca/Detector/Order.antt =====
-- The order in time of the samples of a series, and of the parts of an incident.
use mathlib.Core.Path.{subst}
use mirador_core.Prelude.{
  ◌≡◌, refl, ap, sym, ◌∙◌, true, List, [], ◌∷◌, ◌++◌, String, arith, All, inl, inr, ◌⊎◌,
}
use mirador_core.Prelude.Int.{ℤ, ◌<ℤ◌, ◌≤ℤ◌}
use mirador_core.Rca.Events.{Numbers}
use mirador_core.Rca.Detector.Defs.{Sample, samples, are_ordered, last_of}
use mirador_core.Rca.Detector.Parts.{
  Rising, Rising-right, All-right, IsPeak, IsEnd, recovers, lasts,
}

skip_one : (t u : ℤ) (ts : List ℤ) → are_ordered (t ∷ u ∷ ts) ≡ true → are_ordered (t ∷ ts) ≡ true
skip_one t u [] h = refl
skip_one t u (v ∷ ts) h = ground arith

module _ (nu : Numbers) where
  samples-later :
      (t : ℤ) (ts : List ℤ) (vs : List nu.scores.F)
      → are_ordered (t ∷ ts) ≡ true
      → All (λ s. t <ℤ s.at) (samples nu ts vs)
  samples-later t [] vs h = tt
  samples-later t (u ∷ ts) [] h = tt
  samples-later t (u ∷ ts) (v ∷ vs) h = (ground arith, samples-later t ts vs (skip_one t u ts h))

  tail_ordered : (t : ℤ) (ts : List ℤ) → are_ordered (t ∷ ts) ≡ true → are_ordered ts ≡ true
  tail_ordered t [] h = refl
  tail_ordered t (u ∷ ts) h = ground arith

  pub samples-Rising :
      (ts : List ℤ) (vs : List nu.scores.F) → are_ordered ts ≡ true → Rising nu (samples nu ts vs)
  samples-Rising [] vs h = tt
  samples-Rising (t ∷ ts) [] h = tt
  samples-Rising (t ∷ ts) (v ∷ vs) h =
      (samples-later t ts vs h, samples-Rising ts vs (tail_ordered t ts h))

  pub samples-All :
      (P : ℤ → Type 0) (ts : List ℤ) (vs : List nu.scores.F)
      → All P ts
      → All (λ s. P s.at) (samples nu ts vs)
  samples-All P [] vs h = tt
  samples-All P (t ∷ ts) [] h = tt
  samples-All P (t ∷ ts) (v ∷ vs) (p, h) = (p, samples-All P ts vs h)

  All-last_of :
      (P : Sample nu → Type 0) (s : Sample nu) (rest : List (Sample nu))
      → P s
      → All P rest
      → P (last_of nu s rest)
  All-last_of P s [] p h = p
  All-last_of P s (t ∷ rest) p (q, h) = All-last_of P t rest q h

  abbrev last_or : Sample nu → List (Sample nu) → Sample nu
  last_or s [] = s
  last_or s (t ∷ rest) = last_of nu t rest

  abbrev first_or : Sample nu → List (Sample nu) → Sample nu
  first_or s [] = s
  first_or s (t ∷ rest) = t

  not_before : (t : ℤ) (ss : List (Sample nu)) → All (λ s. t <ℤ s.at) ss → All (λ s. t ≤ℤ s.at) ss
  not_before t [] h = tt
  not_before t (s ∷ ss) (p, h) = (omega arith, not_before t ss h)

  last_of-append :
      (s : Sample nu) (xs : List (Sample nu)) (t : Sample nu) (ys : List (Sample nu))
      → last_or s (xs ++ (t ∷ ys)) ≡ last_of nu t ys
  last_of-append s [] t ys = refl
  last_of-append s (x ∷ xs) t ys = last_of_lem x xs
    where
      last_of_lem :
          (x : Sample nu) (xs : List (Sample nu)) → last_of nu x (xs ++ (t ∷ ys)) ≡ last_of nu t ys
      last_of_lem x [] = refl
      last_of_lem x (y ∷ xs) = last_of_lem y xs

  module _ (direction : String) (start : Sample nu) (rest : List (Sample nu)) (peak : Sample nu)
      (after : List (Sample nu)) (p : IsPeak nu direction (start ∷ rest) (peak, after)) where
    -- The peak is the start, or comes later.
    pub peak_later : Rising nu (start ∷ rest) → (start.at ≡ peak.at) ⊎ (start.at <ℤ peak.at)
    peak_later rising = first_or_later p.between (subst (Rising nu) p.split rising) p.split
      where
        first_or_later :
            (xs : List (Sample nu))
            → Rising nu (xs ++ (peak ∷ after))
            → start ∷ rest ≡ xs ++ (peak ∷ after)
            → (start.at ≡ peak.at) ⊎ (start.at <ℤ peak.at)
        first_or_later [] r e = inl (ap (λ l. (first_or start l).at) e)
        first_or_later (x ∷ xs) r e = inr (
            subst (λ t. t <ℤ peak.at) (sym (ap (λ l. (first_or start l).at) e))
              (All-right _ xs (peak ∷ after) r.0).0)

    -- What holds of the samples from the start on holds of the three.
    pub parts-All :
        (recovery : nu.scores.F) (ending : Sample nu) (P : Sample nu → Type 0)
        → IsEnd nu direction recovery (last_of nu start rest) after ending
        → All P (start ∷ rest)
        → P start × P peak × P ending
    parts-All recovery ending P e h =
        (h.0, (All-right P p.between (peak ∷ after) (subst (All P) p.split h)).0, at_end e)
      where
        at_end : IsEnd nu direction recovery (last_of nu start rest) after ending → P ending
        at_end (recovers pre post e quiet low) =
            (All-right P pre (ending ∷ post) (
              subst (All P) e (All-right P p.between (peak ∷ after) (subst (All P) p.split h)).1)).0
        at_end (lasts quiet e) = subst P (sym e) (All-last_of P start rest h.0 h.1)

    -- The end is not before the peak.
    pub ending_later :
        (recovery : nu.scores.F) (ending : Sample nu)
        → IsEnd nu direction recovery (last_of nu start rest) after ending
        → Rising nu (start ∷ rest)
        → peak.at ≤ℤ ending.at
    ending_later recovery ending e rising = at_end e
      where
        falling : Rising nu (peak ∷ after)
        falling = Rising-right nu p.between (peak ∷ after) (subst (Rising nu) p.split rising)

        later : All (λ s. peak.at ≤ℤ s.at) after
        later = not_before peak.at after falling.0

        at_end :
            IsEnd nu direction recovery (last_of nu start rest) after ending → peak.at ≤ℤ ending.at
        at_end (recovers pre post e quiet low) =
            (All-right _ pre (ending ∷ post) (subst (All (λ s. peak.at ≤ℤ s.at)) e later)).0
        at_end (lasts quiet e) =
            subst (λ s. peak.at ≤ℤ s.at)
              (sym (e ∙ ap (last_or start) p.split ∙ last_of-append start p.between peak after))
              (All-last_of (λ s. peak.at ≤ℤ s.at) peak after (omega arith) later)
