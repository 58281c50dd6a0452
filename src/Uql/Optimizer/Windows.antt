-- ===== src/Uql/Optimizer/Windows.antt =====
-- `optimizeTimeWindow`. A duration is an integer of nanoseconds; its distances to the intervals, which
-- are at most a day, fit in 64 bits unless the window is within a day of the least duration.
use mathlib.Core.Path.{subst}
use mirador_core.Prelude.{
  contains, int_keys, ℕ, suc, ◌*◌, ◌/◌, ◌≡◌, refl, sym, ap, Bool, true, false, ◌&&◌, not, List, [],
  ◌∷◌, arith, if◌then◌else◌, ◌⊎◌, inl, inr, All, Bool-cases,
}
use mirador_core.Prelude.Int.{ℤ, pos, negsuc, ◌-ℤ◌, ◌<ℤ◌, ltb_ℤ, leb_ℤ}

abbrev pub minute : ℕ
minute = 60_000_000_000

abbrev pub common_intervals : List ℤ
common_intervals =
    pos minute
    ∷ pos (5 * minute)
    ∷ pos (15 * minute)
    ∷ pos (30 * minute)
    ∷ pos (60 * minute)
    ∷ pos (360 * minute)
    ∷ pos (720 * minute)
    ∷ pos (1440 * minute)
    ∷ []

-- The quotient by ten of Go, which rounds towards zero.
abbrev pub tenth_of : ℤ → ℤ
tenth_of (pos n) = pos (n / 10)
tenth_of (negsuc n) = pos 0 -ℤ pos (suc n / 10)

-- `diff` after its sign is dropped.
unfoldable pub distance : ℤ → ℤ → ℤ
distance window interval =
    let diff = window -ℤ interval in if ltb_ℤ diff (pos 0) then pos 0 -ℤ diff else diff

pub record Nearest : Type 0 where
  pub closest : ℤ
  pub min_diff : ℤ

unfoldable pub find_nearest : ℤ → List ℤ → Nearest → Nearest
unfolding distance
find_nearest window [] best = best
find_nearest window (interval ∷ intervals) best = find_nearest window intervals (
    if ltb_ℤ (distance window interval) best.min_diff
    then record { closest = interval; min_diff = distance window interval }
    else best)

abbrev pub is_zero : ℤ → Bool
is_zero z = leb_ℤ z (pos 0) && leb_ℤ (pos 0) z

-- Within the tolerance of 10 %.
abbrev pub is_accepted : ℤ → Nearest → Bool
is_accepted window best = not (is_zero best.closest) && ltb_ℤ best.min_diff (tenth_of window)

unfoldable pub optimize_time_window : ℤ → ℤ
unfolding find_nearest
optimize_time_window window =
    let best =
      find_nearest window common_intervals (record { closest = pos 0; min_diff = window }) in
    if is_accepted window best then best.closest else window

-- The nearest interval so far: none, or one of the list at its distance.
abbrev IsNearest : ℤ → (ℤ → Type 0) → Nearest → Type 0
IsNearest window P best =
    (best.closest ≡ pos 0) ⊎ (P best.closest × (best.min_diff ≡ distance window best.closest))

find_nearest-IsNearest :
    (window : ℤ) (P : ℤ → Type 0) (intervals : List ℤ) (best : Nearest)
    → All P intervals
    → IsNearest window P best
    → IsNearest window P (find_nearest window intervals best)
unfolding find_nearest
find_nearest-IsNearest window P [] best all h = h
find_nearest-IsNearest window P (interval ∷ intervals) best all h =
    find_nearest-IsNearest window P intervals _ all.1
      (step (ltb_ℤ (distance window interval) best.min_diff))
  where
    step :
        (b : Bool)
        → IsNearest window P
            (if b then record { closest = interval; min_diff = distance window interval } else best)
    step true = inr (all.0, refl)
    step false = h

abbrev IsRounded : ℤ → (ℤ → Type 0) → ℤ → Type 0
IsRounded window P r = (r ≡ window) ⊎ (P r × (distance window r <ℤ tenth_of window))

accepted :
    (window : ℤ) (P : ℤ → Type 0) (best : Nearest)
    → IsNearest window P best
    → is_accepted window best ≡ true
    → IsRounded window P best.closest
accepted window P best (inl no_interval) h = inl (ground (arith, h))
accepted window P best (inr (p, at)) h = inr (p, ground (arith, h))

choose :
    (window : ℤ) (P : ℤ → Type 0) (best : Nearest)
    → IsNearest window P best
    → IsRounded window P (if is_accepted window best then best.closest else window)
choose window P best h = elim (Bool-cases (is_accepted window best)) [
  | inl near ↦
      subst (λ (b : Bool). IsRounded window P (if b then best.closest else window)) (sym near)
        (accepted window P best h near)
  | inr far ↦
      subst (λ (b : Bool). IsRounded window P (if b then best.closest else window)) (sym far)
        (inl refl)
]

-- The window is left as it is, or becomes an interval with the property that all of them have, less
-- than a tenth of the window away from it.
rounded :
    (window : ℤ) (P : ℤ → Type 0)
    → All P common_intervals
    → IsRounded window P (optimize_time_window window)
unfolding optimize_time_window
rounded window P all =
    choose window P
      (find_nearest window common_intervals (record { closest = pos 0; min_diff = window }))
      (find_nearest-IsNearest window P common_intervals _ all (inl refl))

abbrev pub IsCommon : ℤ → Type 0
IsCommon w = contains w common_intervals ≡ true

pub optimize_time_window_lem :
    (w : ℤ)
    → (optimize_time_window w ≡ w)
      ⊎ (IsCommon (optimize_time_window w) × (distance w (optimize_time_window w) <ℤ tenth_of w))
optimize_time_window_lem w =
    rounded w IsCommon (refl, (refl, (refl, (refl, (refl, (refl, (refl, (refl, tt))))))))

abbrev pub IsStable : ℤ → Type 0
IsStable w = optimize_time_window w ≡ w

common_intervals-IsStable : All IsStable common_intervals
unfolding optimize_time_window find_nearest distance ◌-ℤ◌
common_intervals-IsStable = (refl, (refl, (refl, (refl, (refl, (refl, (refl, (refl, tt))))))))

-- A window that has been rounded is not rounded again.
pub optimize_time_window_idem :
    (w : ℤ) → optimize_time_window (optimize_time_window w) ≡ optimize_time_window w
optimize_time_window_idem w = settle (rounded w IsStable common_intervals-IsStable)
  where
    settle :
        (optimize_time_window w ≡ w)
          ⊎ (IsStable (optimize_time_window w)
              × (distance w (optimize_time_window w) <ℤ tenth_of w))
        → optimize_time_window (optimize_time_window w) ≡ optimize_time_window w
    settle (inl same) = ap optimize_time_window same
    settle (inr (stable, _)) = stable
