-- ===== src/Rca/Grouping/Bounds.antt =====
-- What the statistics of a group bound, and what a bucket bounds.
use native.Mathlib.Nat.{mod-lt, mod-add-div'}
use mirador_core.Prelude.{
  ℕ, ◌+◌, ◌*◌, ◌/◌, ◌<◌, ◌≡◌, refl, List, [], ◌∷◌, ◌++◌, String, arith, ◌=ℕ◌, All, length,
  length-append, inl, inr, Bool-cases,
}
use mirador_core.Prelude.Int.{ℤ, pos, ◌≤ℤ◌, ◌<ℤ◌, ltb_ℤ}
use mirador_core.Rca.TimeRing.{TimeRing}
use mirador_core.Rca.Events.{Scores, EnrichedAnomalyEvent}
use mirador_core.Rca.Grouping.Group.{AnomalyGroup, new_anomaly_group, add_event}
use mirador_core.Rca.Grouping.Defs.{compute_time_bucket, truncate_to, bucket_nanos}

module _ {A : Type 0} (P : A → Type 0) where
  All-append : (xs : List A) (y : A) → All P xs → P y → All P (xs ++ (y ∷ []))
  All-append [] y all new = (new, tt)
  All-append (x ∷ xs) y all new = (all.0, All-append xs y all.1 new)

  All-empty : (xs : List A) → length xs ≡ 0 → All P xs
  All-empty [] h = tt
  All-empty (x ∷ xs) h = ground (arith, h)

  All-weaken : (Q : A → Type 0) (xs : List A) → ((x : A) → P x → Q x) → All P xs → All Q xs
  All-weaken Q [] f all = tt
  All-weaken Q (x ∷ xs) f all = (f x all.0, All-weaken Q xs f all.1)

module _ (sc : Scores) where
  -- The count is the number of events; each event lies in the range of time; and the distances that
  -- are known lie between the least and the greatest, which are -1 until one is known.
  pub record IsSummary (g : AnomalyGroup sc) : Type 0 where
    pub counted : g.event_count ≡ length g.events
    pub spanned :
        All
          (λ e. (g.start ≤ℤ e.anomaly_event.timestamp) × (e.anomaly_event.timestamp ≤ℤ g.end))
          g.events
    pub ranged :
        All
          (λ e.
            pos 0 ≤ℤ e.graph_distance_to_impact
            → (g.min_graph_distance ≤ℤ e.graph_distance_to_impact)
              × (e.graph_distance_to_impact ≤ℤ g.max_graph_distance))
          g.events
    pub unknown :
        g.min_graph_distance <ℤ pos 0 → All (λ e. e.graph_distance_to_impact <ℤ pos 0) g.events

  pub new_anomaly_group-IsSummary :
      (service component : String) (ring : TimeRing)
      → IsSummary (new_anomaly_group sc service component ring)
  unfolding new_anomaly_group
  new_anomaly_group-IsSummary service component ring = record {
    counted = refl;
    spanned = tt;
    ranged = tt;
    unknown = λ h. tt;
  }

  -- `AddEvent` keeps the statistics of a group true of its events.
  pub add_event-IsSummary :
      (g : AnomalyGroup sc) (e : EnrichedAnomalyEvent sc)
      → IsSummary g
      → IsSummary (add_event sc g e)
  unfolding add_event
  add_event-IsSummary g e s = record {
    counted = omega (arith, s.counted, length-append g.events (e ∷ []));
    spanned =
        All-append _ g.events e
          (elim (Bool-cases (g.event_count =ℕ 0)) [
            | inl zero_count ↦ All-empty _ g.events (ground (arith, s.counted))
            | inr some_count ↦ All-weaken _ _ g.events (λ x h. ground arith) s.spanned
          ])
          (ground arith);
    ranged =
        All-append _ g.events e
          (elim (Bool-cases (ltb_ℤ g.min_graph_distance (pos 0))) [
            | inl none_known ↦
                All-weaken _ _ g.events (λ x h k. ground arith) (s.unknown (ground arith))
            | inr some_known ↦ All-weaken _ _ g.events (λ x h k. ground (arith, h k)) s.ranged
          ])
          (λ k. ground arith);
    unknown = λ h. All-append _ g.events e (s.unknown (ground arith)) (ground arith);
  }

bucket_nanos_pos : (width : ℤ) → 0 < bucket_nanos width
bucket_nanos_pos width = ground arith

-- An instant that is not before the epoch lies in its bucket: at or after the start, and less than
-- the width after it.
pub compute_time_bucket_lem :
    (n : ℕ) (width : ℤ)
    → (compute_time_bucket (pos n) width ≤ℤ pos n)
      × (n < bucket_nanos width + (n / bucket_nanos width * bucket_nanos width))
unfolding compute_time_bucket truncate_to
compute_time_bucket_lem n width = (
  omega (arith, mod-add-div' n (bucket_nanos width)),
  omega (arith, mod-add-div' n (bucket_nanos width), mod-lt n (bucket_nanos_pos width)),
)
