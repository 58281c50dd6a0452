-- ===== src/Rca/Detector/Parts.antt =====
-- The parts of a series that the loops of the detection find.
use mathlib.Core.Path.{subst}
use mirador_core.Prelude.{
  if◌then◌else◌, ◌==◌, string_keys, Bool, arith, ◌≡◌, refl, ap, ◌∙◌, true, false, Option, none,
  some, List, [], ◌∷◌, ◌++◌, String, All, Bool-cases, inl, inr,
}
use mirador_core.Prelude.Int.{◌<ℤ◌}
use mirador_core.Rca.Events.{Numbers}
use mirador_core.Rca.Detector.Defs.{
  Sample, is_beyond, is_recovered, first_breach, find_peak, find_end,
}

module _ {A : Type 0} (P : A → Type 0) where
  pub All-left : (xs ys : List A) → All P (xs ++ ys) → All P xs
  All-left [] ys h = tt
  All-left (x ∷ xs) ys (p, h) = (p, All-left xs ys h)

  pub All-right : (xs ys : List A) → All P (xs ++ ys) → All P ys
  All-right [] ys h = h
  All-right (x ∷ xs) ys (p, h) = All-right xs ys h

  pub All-both : (xs ys : List A) → All P xs → All P ys → All P (xs ++ ys)
  All-both [] ys h g = g
  All-both (x ∷ xs) ys (p, h) g = (p, All-both xs ys h g)

abbrev append_one : {A : Type 0} → List A → A → List A
append_one xs x = xs ++ (x ∷ [])

append-append_one :
    {A : Type 0} (xs : List A) (x : A) (ys : List A) → append_one xs x ++ ys ≡ xs ++ (x ∷ ys)
append-append_one [] x ys = refl
append-append_one (z ∷ xs) x ys = ap (λ l. z ∷ l) (append-append_one xs x ys)

append-append : {A : Type 0} (xs ys zs : List A) → xs ++ (ys ++ zs) ≡ (xs ++ ys) ++ zs
append-append [] ys zs = refl
append-append (x ∷ xs) ys zs = ap (λ l. x ∷ l) (append-append xs ys zs)

module _ (nu : Numbers) where
  -- The samples come one after another.
  abbrev pub Rising : List (Sample nu) → Type 0
  Rising [] = Unit
  Rising (s ∷ ss) = All (λ t. s.at <ℤ t.at) ss × Rising ss

  pub Rising-right : (xs ys : List (Sample nu)) → Rising (xs ++ ys) → Rising ys
  Rising-right [] ys h = h
  Rising-right (x ∷ xs) ys (p, h) = Rising-right xs ys h

  module _ (direction : String) where
    -- Whether a value is beyond a limit: above it where higher is worse, and below it otherwise.
    abbrev pub Beyond : nu.scores.F → nu.scores.F → Bool → Type 0
    Beyond limit v b =
        if direction == "higher_is_worse"
        then (nu.scores.lt limit v ≡ b)
        else (nu.scores.lt v limit ≡ b)

    -- Whether a value has recovered: no higher than the limit where higher is worse, and no lower
    -- otherwise.
    abbrev pub Recovered : nu.scores.F → nu.scores.F → Bool → Type 0
    Recovered limit v b =
        if direction == "higher_is_worse" then (nu.le v limit ≡ b) else (nu.le limit v ≡ b)

    is_beyond-Beyond :
        (limit v : nu.scores.F) (b : Bool) → is_beyond nu direction limit v ≡ b → Beyond limit v b
    is_beyond-Beyond limit v b h = ground arith

    is_recovered-Recovered :
        (limit v : nu.scores.F) (b : Bool)
        → is_recovered nu direction limit v ≡ b
        → Recovered limit v b
    is_recovered-Recovered limit v b h = ground arith

    -- The first sample beyond the threshold, with those that follow it.
    pub record IsBreach (threshold : nu.scores.F) (all : List (Sample nu)) (start : Sample nu)
        (rest : List (Sample nu)) : Type 0 where
      pub before : List (Sample nu)
      pub series : all ≡ before ++ (start ∷ rest)
      pub quiet : All (λ s. Beyond threshold s.reading false) before
      pub breach : Beyond threshold start.reading true

    abbrev pub Breached :
        nu.scores.F → List (Sample nu) → Option (Sample nu × List (Sample nu)) → Type 0
    Breached threshold all none = All (λ s. Beyond threshold s.reading false) all
    Breached threshold all (some (start, rest)) = IsBreach threshold all start rest

    longer :
        (threshold : nu.scores.F) (s : Sample nu) (all : List (Sample nu))
        (found : Option (Sample nu × List (Sample nu)))
        → Beyond threshold s.reading false
        → Breached threshold all found
        → Breached threshold (s ∷ all) found
    longer threshold s all none below h = (below, h)
    longer threshold s all (some (start, rest)) below h = record {
      before = s ∷ h.before;
      series = ap (λ l. s ∷ l) h.series;
      quiet = (below, h.quiet);
      breach = h.breach;
    }

    pub first_breach_lem :
        (threshold : nu.scores.F) (all : List (Sample nu))
        → Breached threshold all (first_breach nu direction threshold all)
    first_breach_lem threshold [] = tt
    first_breach_lem threshold (s ∷ all) =
        elim (Bool-cases (is_beyond nu direction threshold s.reading)) [
          | inl beyond ↦ rw beyond (record {
            before = [];
            series = refl;
            quiet = tt;
            breach = is_beyond-Beyond _ _ _ beyond;
          })
          | inr below ↦ rw below (
              longer threshold s all _ (is_beyond-Beyond _ _ _ below)
                (first_breach_lem threshold all))
        ]

    -- A sample that none after it is beyond.
    pub record IsPeak (all : List (Sample nu)) (found : Sample nu × List (Sample nu)) : Type 0 where
      pub between : List (Sample nu)
      pub split : all ≡ between ++ (found.0 ∷ found.1)
      pub unbeaten : All (λ s. Beyond found.0.reading s.reading false) found.1

    find_peak-IsPeak :
        (peak : Sample nu) (scanned : List (Sample nu)) (rest : List (Sample nu))
        → All (λ s. Beyond peak.reading s.reading false) scanned
        → IsPeak (peak ∷ (scanned ++ rest)) (find_peak nu direction peak (scanned ++ rest) rest)
    find_peak-IsPeak peak scanned [] h = record {
      between = [];
      split = refl;
      unbeaten = All-both _ scanned [] h tt;
    }
    find_peak-IsPeak peak scanned (s ∷ rest) h =
        elim (Bool-cases (is_beyond nu direction peak.reading s.reading)) [
          | inl beyond ↦
              let later = find_peak-IsPeak s [] rest tt in
              rw beyond (record {
                between = peak ∷ (scanned ++ later.between);
                split =
                    ap (λ l. peak ∷ l)
                      (ap (λ l. scanned ++ l) later.split ∙ append-append scanned later.between _);
                unbeaten = later.unbeaten;
              })
          | inr below ↦ rw below (
              subst (λ l. IsPeak (peak ∷ l) (find_peak nu direction peak l rest))
                (append-append_one scanned s rest)
                (find_peak-IsPeak peak (append_one scanned s) rest
                  (All-both _ scanned _ h (is_beyond-Beyond _ _ _ below, tt))))
        ]

    pub find_peak_lem :
        (start : Sample nu) (rest : List (Sample nu))
        → IsPeak (start ∷ rest) (find_peak nu direction start rest rest)
    find_peak_lem start rest = find_peak-IsPeak start [] rest tt

    -- The first sample that is recovered, or the last one where none is.
    pub data IsEnd (recovery : nu.scores.F) (final : Sample nu) (after : List (Sample nu))
        (ending : Sample nu) : Type 0 where
      recovers :
          (pre post : List (Sample nu))
          → after ≡ pre ++ (ending ∷ post)
          → All (λ s. Recovered recovery s.reading false) pre
          → Recovered recovery ending.reading true
          → IsEnd recovery final after ending
      lasts :
          All (λ s. Recovered recovery s.reading false) after
          → ending ≡ final
          → IsEnd recovery final after ending

    not_yet :
        (recovery : nu.scores.F) (final s : Sample nu) (after : List (Sample nu))
        (ending : Sample nu)
        → Recovered recovery s.reading false
        → IsEnd recovery final after ending
        → IsEnd recovery final (s ∷ after) ending
    not_yet recovery final s after ending high (recovers pre post e h r) =
        recovers (s ∷ pre) post (ap (λ l. s ∷ l) e) (high, h) r
    not_yet recovery final s after ending high (lasts h e) = lasts (high, h) e

    pub find_end_lem :
        (recovery : nu.scores.F) (final : Sample nu) (after : List (Sample nu))
        → IsEnd recovery final after (find_end nu direction recovery final after)
    find_end_lem recovery final [] = lasts tt refl
    find_end_lem recovery final (s ∷ after) =
        elim (Bool-cases (is_recovered nu direction recovery s.reading)) [
          | inl low ↦ rw low (recovers [] after refl tt (is_recovered-Recovered _ _ _ low))
          | inr high ↦ rw high (
              not_yet recovery final s after _ (is_recovered-Recovered _ _ _ high)
                (find_end_lem recovery final after))
        ]
