-- ===== src/Rca/Grouping/Partition.antt =====
-- The groups partition the events by their keys.
use mirador_core.Prelude.{
  ◌≡◌, refl, ap, ◌∙◌, Bool, true, false, Option, none, some, List, [], ◌∷◌, ◌++◌, if◌then◌else◌,
  ◌==◌, GoMap, fetch, store, fetch-store, keep, string_keys, int_keys, pair_keys, eq_of_same,
  Bool-cases, ◌⊎◌, inl, inr,
}
use mirador_core.Rca.Events.{Scores, EnrichedAnomalyEvent}
use mirador_core.Rca.Grouping.Group.{AnomalyGroup, new_anomaly_group, add_event}
use mirador_core.Rca.Grouping.Defs.{
  GroupKey, GroupingConfig, key_of, get_or_create, collect_groups, ring_keys,
}

module _ (sc : Scores) (cfg : GroupingConfig sc) where
  -- The events that are there, in order.
  abbrev pub present : List (Option (EnrichedAnomalyEvent sc)) → List (EnrichedAnomalyEvent sc)
  present [] = []
  present (none ∷ events) = present events
  present (some e ∷ events) = e ∷ present events

  abbrev pub events_at : Option (AnomalyGroup sc) → List (EnrichedAnomalyEvent sc)
  events_at none = []
  events_at (some g) = g.events

  abbrev pub has_key : GroupKey → EnrichedAnomalyEvent sc → Bool
  has_key key e = key_of sc cfg e == key

  events_at-add :
      (o : Option (AnomalyGroup sc)) (key : GroupKey) (e : EnrichedAnomalyEvent sc)
      → (add_event sc (get_or_create sc o key) e).events ≡ events_at o ++ (e ∷ [])
  unfolding add_event new_anomaly_group
  events_at-add none key e = refl
  events_at-add (some g) key e = refl

  append_assoc : {A : Type 0} (xs ys zs : List A) → (xs ++ ys) ++ zs ≡ xs ++ (ys ++ zs)
  append_assoc [] ys zs = refl
  append_assoc (x ∷ xs) ys zs = ap (λ l. x ∷ l) (append_assoc xs ys zs)

  append_nil : {A : Type 0} (xs : List A) → xs ≡ xs ++ []
  append_nil [] = refl
  append_nil (x ∷ xs) = ap (λ l. x ∷ l) (append_nil xs)

  events_at-store :
      (key : GroupKey) (e : EnrichedAnomalyEvent sc) (groups : GoMap GroupKey (AnomalyGroup sc))
      → events_at (
          fetch
            (store groups (key_of sc cfg e) (
              add_event sc (get_or_create sc (fetch groups (key_of sc cfg e)) (key_of sc cfg e)) e))
            key)
        ≡ (if has_key key e
            then events_at (fetch groups key) ++ (e ∷ [])
            else events_at (fetch groups key))
  events_at-store key e groups =
      ap events_at (fetch-store groups k (add_event sc (get_or_create sc (fetch groups k) k) e) key)
      ∙ settled (Bool-cases (has_key key e))
    where
      k : GroupKey
      k = key_of sc cfg e

      settled :
          (has_key key e ≡ true) ⊎ (has_key key e ≡ false)
          → events_at (
              if has_key key e
              then some (
                  add_event sc
                    (get_or_create sc (fetch groups (key_of sc cfg e)) (key_of sc cfg e))
                    e)
              else fetch groups key)
            ≡ (if has_key key e
                then events_at (fetch groups key) ++ (e ∷ [])
                else events_at (fetch groups key))
      settled (inr differs) = rw differs refl
      settled (inl agrees) = rw agrees (
          events_at-add (fetch groups (key_of sc cfg e)) (key_of sc cfg e) e
          ∙ ap (λ j. events_at (fetch groups j) ++ (e ∷ []))
              (eq_of_same (key_of sc cfg e) key agrees))

  append_branch :
      {A : Type 0} (b : Bool) (e : A) (xs ys : List A)
      → (if b then xs ++ (e ∷ []) else xs) ++ ys ≡ xs ++ (if b then e ∷ ys else ys)
  append_branch true e xs ys = append_assoc xs (e ∷ []) ys
  append_branch false e xs ys = refl

  events_at-collect_groups :
      (key : GroupKey) (events : List (Option (EnrichedAnomalyEvent sc)))
      (groups : GoMap GroupKey (AnomalyGroup sc))
      → events_at (fetch (collect_groups sc cfg events groups) key)
        ≡ events_at (fetch groups key) ++ keep (has_key key) (present events)
  unfolding collect_groups
  events_at-collect_groups key [] groups = append_nil _
  events_at-collect_groups key (none ∷ events) groups = events_at-collect_groups key events groups
  events_at-collect_groups key (some e ∷ events) groups =
      events_at-collect_groups key events _
      ∙ (ap (λ l. l ++ keep (has_key key) (present events)) (events_at-store key e groups)
          ∙ append_branch (has_key key e) e (events_at (fetch groups key))
              (keep (has_key key) (present events)))

  -- The group of a key has exactly the events with that key, in the order in which they came; a key
  -- that no event has has no group with events.
  pub collect_groups_lem :
      (key : GroupKey) (events : List (Option (EnrichedAnomalyEvent sc)))
      → events_at (fetch (collect_groups sc cfg events []) key)
        ≡ keep (has_key key) (present events)
  unfolding fetch
  collect_groups_lem key events = events_at-collect_groups key events []
