-- ===== src/Rca/TimeRing/Defs.antt =====
-- Types and functions of time_ring.go.
use mirador_core.Prelude.{
  ℕ, zero, suc, ◌*◌, Bool, true, false, ◌&&◌, List, [], ◌∷◌, ltb, if◌then◌else◌, length,
}
use mirador_core.Prelude.Int.{ℤ, pos, time_sub, ltb_ℤ, leb_ℤ}

pub data TimeRing : Type 0 where
  ring_immediate ring_short ring_medium ring_long ring_out_of_scope : TimeRing

pub record TimeRingConfig : Type 0 where
  pub r1_duration : ℤ
  pub r2_duration : ℤ
  pub r3_duration : ℤ
  pub r4_duration : ℤ
  pub allow_events_after_peak : Bool
  pub time_after_peak : ℤ

abbrev pub second : ℕ
second = 1_000_000_000

abbrev pub default_time_ring_config : TimeRingConfig
default_time_ring_config = record {
  r1_duration = pos (5 * second);
  r2_duration = pos (30 * second);
  r3_duration = pos (120 * second);
  r4_duration = pos (600 * second);
  allow_events_after_peak = true;
  time_after_peak = pos (30 * second);
}

-- The part for events before the peak: classification by the distance.
unfoldable pub ring_of_distance : ℤ → TimeRingConfig → TimeRing
ring_of_distance time_diff cfg =
    if leb_ℤ time_diff cfg.r1_duration
    then ring_immediate
    else if leb_ℤ time_diff cfg.r2_duration
    then ring_short
    else if leb_ℤ time_diff cfg.r3_duration
    then ring_medium
    else if leb_ℤ time_diff cfg.r4_duration
    then ring_long
    else ring_out_of_scope

unfoldable pub assign_time_ring : ℤ → ℤ → TimeRingConfig → TimeRing
assign_time_ring peak_time event_time cfg =
    let time_diff = time_sub peak_time event_time in
    if ltb_ℤ time_diff (pos 0)
    then (let after_peak_diff = time_sub event_time peak_time in
        if cfg.allow_events_after_peak && leb_ℤ after_peak_diff cfg.time_after_peak
        then ring_immediate
        else ring_out_of_scope)
    else ring_of_distance time_diff cfg

abbrev pub is_in_scope : TimeRing → Bool
is_in_scope ring_out_of_scope = false
is_in_scope _ = true

abbrev pub priority : TimeRing → ℕ
priority ring_immediate = 0
priority ring_short = 1
priority ring_medium = 2
priority ring_long = 3
priority ring_out_of_scope = 999

-- One run of the inner loop: `sorted[i]` is compared with each later element, and exchanged with
-- every one whose priority is below its own.
unfoldable pub exchange_pass : TimeRing → List TimeRing → TimeRing × List TimeRing
exchange_pass x [] = (x, [])
exchange_pass x (y ∷ ys) =
    let swap = ltb (priority y) (priority x) in
    let (first, rest) = exchange_pass (if swap then y else x) ys in
    (first, (if swap then x else y) ∷ rest)

-- The outer loop, on the number of positions left; a pass keeps the length, so the list ends with
-- the counter.
unfoldable pub exchange_sort : ℕ → List TimeRing → List TimeRing
exchange_sort zero xs = xs
exchange_sort (suc n) [] = []
exchange_sort (suc n) (x ∷ xs) =
    let (first, rest) = exchange_pass x xs in first ∷ exchange_sort n rest

unfoldable pub sort_by_proximity : List TimeRing → List TimeRing
unfolding exchange_pass exchange_sort
sort_by_proximity rings = exchange_sort (length rings) rings
