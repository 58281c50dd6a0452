-- ===== src/Rca/Collect/Limits.antt =====
-- What the limit by ring leaves.
use mathlib.Core.List.{append-nil}
use mirador_core.Prelude.{
  ℕ, zero, suc, ◌≡◌, refl, ap, Bool, true, false, List, [], ◌∷◌, ◌++◌, arith, if◌then◌else◌, ◌=ℕ◌,
  keep, Bool-cases, inl, inr,
}
use mirador_core.Rca.TimeRing.{
  TimeRing, priority, ring_immediate, ring_short, ring_medium, ring_long, ring_out_of_scope,
}
use mirador_core.Rca.Events.{Numbers, EnrichedAnomalyEvent}
use mirador_core.Rca.Scoring.{take}
use mirador_core.Rca.Collect.Defs.{limit_events_per_ring}

module _ {A : Type 0} (p : A → Bool) where
  keep-append : (xs ys : List A) → keep p (xs ++ ys) ≡ keep p xs ++ keep p ys
  keep-append [] ys = refl
  keep-append (x ∷ xs) ys = elim (Bool-cases (p x)) [
    | inl h ↦ rw h (ap (λ t. x ∷ t) (keep-append xs ys))
    | inr h ↦ rw h (keep-append xs ys)
  ]

  keep_four :
      (a b c d : List A)
      → keep p (a ++ (b ++ (c ++ d))) ≡ keep p a ++ (keep p b ++ (keep p c ++ keep p d))
  keep_four a b c d =
      rw (keep-append a (b ++ (c ++ d)), keep-append b (c ++ d), keep-append c d) refl

  keep-take_same : (n : ℕ) (xs : List A) → keep p (take n (keep p xs)) ≡ take n (keep p xs)
  keep-take_same zero xs = refl
  keep-take_same (suc n) [] = refl
  keep-take_same (suc n) (x ∷ xs) = elim (Bool-cases (p x)) [
    | inl h ↦ rw (h, h) (ap (λ t. x ∷ t) (keep-take_same n xs))
    | inr h ↦ rw h (keep-take_same (suc n) xs)
  ]

  module _ (q : A → Bool) (apart : (x : A) → q x ≡ true → p x ≡ false) where
    keep-take_other : (n : ℕ) (xs : List A) → keep p (take n (keep q xs)) ≡ []
    keep-take_other zero xs = refl
    keep-take_other (suc n) [] = refl
    keep-take_other (suc n) (x ∷ xs) = elim (Bool-cases (q x)) [
      | inl h ↦ rw (h, apart x h) (keep-take_other n xs)
      | inr h ↦ rw h (keep-take_other (suc n) xs)
    ]

module _ (nu : Numbers) where
  abbrev pub is_in : TimeRing → EnrichedAnomalyEvent nu.scores → Bool
  is_in ring e = priority e.ring =ℕ priority ring

  apart_rings :
      (r s : TimeRing) (e : EnrichedAnomalyEvent nu.scores)
      → (priority r =ℕ priority s) ≡ false
      → is_in s e ≡ true
      → is_in r e ≡ false
  apart_rings r s e h k = ground arith

  abbrev first_of :
      List (EnrichedAnomalyEvent nu.scores) → ℕ → TimeRing → List (EnrichedAnomalyEvent nu.scores)
  first_of events max ring = take max (keep (is_in ring) events)

  other_ring :
      (r s : TimeRing) (n : ℕ) (events : List (EnrichedAnomalyEvent nu.scores))
      → (priority r =ℕ priority s) ≡ false
      → keep (is_in r) (take n (keep (is_in s) events)) ≡ []
  other_ring r s n events h =
      keep-take_other (is_in r) (is_in s) (λ e k. apart_rings r s e h k) n events

  -- The events of a ring that the limit keeps are the first ones of that ring, in the order in which
  -- they came, as many as the limit allows; those out of scope are all dropped.
  pub limit_events_per_ring_lem :
      (events : List (EnrichedAnomalyEvent nu.scores)) (max : ℕ) (ring : TimeRing)
      → keep (is_in ring) (limit_events_per_ring nu events max) ≡ (
          if priority ring =ℕ priority ring_out_of_scope
          then []
          else take max (keep (is_in ring) events))
  unfolding limit_events_per_ring
  limit_events_per_ring_lem events max ring_immediate =
      rw
        (
          keep_four (is_in ring_immediate) (first_of events max ring_immediate)
              (first_of events max ring_short) (first_of events max ring_medium)
              (first_of events max ring_long),
          keep-take_same (is_in ring_immediate) max events,
          other_ring ring_immediate ring_short max events refl,
          other_ring ring_immediate ring_medium max events refl,
          other_ring ring_immediate ring_long max events refl,
        )
        (append-nil (first_of events max ring_immediate))
  limit_events_per_ring_lem events max ring_short =
      rw
        (
          keep_four (is_in ring_short) (first_of events max ring_immediate)
              (first_of events max ring_short) (first_of events max ring_medium)
              (first_of events max ring_long),
          other_ring ring_short ring_immediate max events refl,
          keep-take_same (is_in ring_short) max events,
          other_ring ring_short ring_medium max events refl,
          other_ring ring_short ring_long max events refl,
        )
        (append-nil (first_of events max ring_short))
  limit_events_per_ring_lem events max ring_medium =
      rw
        (
          keep_four (is_in ring_medium) (first_of events max ring_immediate)
              (first_of events max ring_short) (first_of events max ring_medium)
              (first_of events max ring_long),
          other_ring ring_medium ring_immediate max events refl,
          other_ring ring_medium ring_short max events refl,
          keep-take_same (is_in ring_medium) max events,
          other_ring ring_medium ring_long max events refl,
        )
        (append-nil (first_of events max ring_medium))
  limit_events_per_ring_lem events max ring_long =
      rw
        (
          keep_four (is_in ring_long) (first_of events max ring_immediate)
              (first_of events max ring_short) (first_of events max ring_medium)
              (first_of events max ring_long),
          other_ring ring_long ring_immediate max events refl,
          other_ring ring_long ring_short max events refl,
          other_ring ring_long ring_medium max events refl,
          keep-take_same (is_in ring_long) max events,
        )
        refl
  limit_events_per_ring_lem events max ring_out_of_scope =
      rw
        (
          keep_four (is_in ring_out_of_scope) (first_of events max ring_immediate)
              (first_of events max ring_short) (first_of events max ring_medium)
              (first_of events max ring_long),
          other_ring ring_out_of_scope ring_immediate max events refl,
          other_ring ring_out_of_scope ring_short max events refl,
          other_ring ring_out_of_scope ring_medium max events refl,
          other_ring ring_out_of_scope ring_long max events refl,
        )
        refl
