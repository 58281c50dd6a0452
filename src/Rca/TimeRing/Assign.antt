-- ===== src/Rca/TimeRing/Assign.antt =====
-- Which ring an event falls into.
use mirador_core.Prelude.{◌≤◌, ◌≡◌, ◌↔◌, ◌⊎◌, true, arith}
use mirador_core.Prelude.Int.{ℤ, ◌≤ℤ◌, ◌<ℤ◌, time_sub, time_sub_nonneg, time_sub_neg, time_sub_mono}
use mirador_core.Rca.TimeRing.Defs.{
  TimeRingConfig, ring_of_distance, assign_time_ring, is_in_scope, priority,
}

ring_of_distance_mono :
    (d e : ℤ) (cfg : TimeRingConfig)
    → d ≤ℤ e
    → priority (ring_of_distance d cfg) ≤ priority (ring_of_distance e cfg)
unfolding ring_of_distance
ring_of_distance_mono d e cfg h = ground arith

assign_before :
    (peak event : ℤ) (cfg : TimeRingConfig)
    → event ≤ℤ peak
    → assign_time_ring peak event cfg ≡ ring_of_distance (time_sub peak event) cfg
unfolding assign_time_ring
assign_before peak event cfg h = ground (arith, time_sub_nonneg peak event)

-- Between two events at or before the peak, the one closer to the peak never gets the larger
-- priority number, whatever the boundaries of the rings are.
pub assign_time_ring_mono :
    (peak near far : ℤ) (cfg : TimeRingConfig)
    → near ≤ℤ peak
    → far ≤ℤ near
    → priority (assign_time_ring peak near cfg) ≤ priority (assign_time_ring peak far cfg)
unfolding assign_time_ring
assign_time_ring_mono peak near far cfg h k =
    rw (assign_before peak near cfg h, assign_before peak far cfg (omega arith))
      (ring_of_distance_mono _ _ cfg (time_sub_mono peak near far k))

abbrev pub WithinLookback : ℤ → TimeRingConfig → Type 0
WithinLookback d cfg =
    (d ≤ℤ cfg.r1_duration)
    ⊎ (d ≤ℤ cfg.r2_duration)
    ⊎ (d ≤ℤ cfg.r3_duration)
    ⊎ (d ≤ℤ cfg.r4_duration)

-- An event at or before the peak is in scope exactly when its distance to the peak is within one of
-- the four boundaries.
pub in_scope_before_iff :
    (peak event : ℤ) (cfg : TimeRingConfig)
    → event ≤ℤ peak
    → (is_in_scope (assign_time_ring peak event cfg) ≡ true)
      ↔ WithinLookback (time_sub peak event) cfg
unfolding assign_time_ring ring_of_distance
in_scope_before_iff peak event cfg h = ground (arith, time_sub_nonneg peak event)

-- An event after the peak is in scope exactly when the configuration allows such events and it is
-- not later than the allowance.
pub in_scope_after_iff :
    (peak event : ℤ) (cfg : TimeRingConfig)
    → peak <ℤ event
    → (is_in_scope (assign_time_ring peak event cfg) ≡ true)
      ↔ ((cfg.allow_events_after_peak ≡ true) × (time_sub event peak ≤ℤ cfg.time_after_peak))
unfolding assign_time_ring
in_scope_after_iff peak event cfg h = ground (arith, time_sub_neg peak event)
