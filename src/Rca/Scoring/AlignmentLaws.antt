-- ===== src/Rca/Scoring/AlignmentLaws.antt =====
-- What the alignment of dimensions lists, and the values that the impact service has.
use mirador_core.Prelude.{
  ◌+◌, ◌≤◌, ◌≡◌, refl, ap, ◌∙◌, true, not, Option, none, some, List, [], ◌∷◌, ◌++◌, map, String,
  arith, if◌then◌else◌, ◌==◌, ◌=ℕ◌, =ℕ_iff, GoMap, fetch, store, length, string_keys, contains,
  contains-append, fetch-store, length-store_new, Subset, Bool-cases, Option-cases, inl, inr,
  same_refl,
}
use mirador_core.Prelude.Remaining.{remaining, remaining-le, remaining-le-length, remaining_cons}
use mirador_core.Rca.Events.{Numbers}
use mirador_core.Rca.Grouping.{AnomalyGroup}
use mirador_core.Rca.Scoring.Alignment.{
  is_there, usable, store_some, take_values, extract_loop, extract_impact_service_dimensions,
}

abbrev pub keys : GoMap String String → List String
keys = map (λ entry. entry.0)

contains-keys : (r : GoMap String String) (k : String) → contains k (keys r) ≡ is_there (fetch r k)
unfolding fetch
contains-keys [] k = refl
contains-keys (entry ∷ r) k = ground (arith, contains-keys r k)

keys-store_new :
    (r : GoMap String String) (k v : String)
    → fetch r k ≡ none
    → keys (store r k v) ≡ keys r ++ (k ∷ [])
unfolding fetch store
keys-store_new [] k v h = refl
keys-store_new (entry ∷ r) k v h = ground (arith, keys-store_new r k v)

-- The second value, where the first is missing.
abbrev pub or_value : Option String → Option String → Option String
or_value none second = second
or_value (some v) second = some v

fetch-put :
    (r : GoMap String String) (d k : String) (o : Option String)
    → fetch (if not (is_there (fetch r d)) then store_some r d o else r) k
      ≡ (if d == k then or_value (fetch r k) o else fetch r k)
fetch-put r d k none = elim (Option-cases (fetch r d)) [
  | inl e ↦ ground (arith, string_keys.same_iff d k)
  | inr (a, e) ↦ ground (arith, string_keys.same_iff d k)
]
fetch-put r d k (some v) = elim (Option-cases (fetch r d)) [
  | inl e ↦ ground (arith, string_keys.same_iff d k, fetch-store r d v k)
  | inr (a, e) ↦ ground (arith, string_keys.same_iff d k)
]

fetch-take_values :
    (dims : List String) (values r : GoMap String String) (k : String)
    → fetch (take_values dims values r) k
      ≡ (if contains k dims then or_value (fetch r k) (usable (fetch values k)) else fetch r k)
unfolding take_values
fetch-take_values [] values r k = refl
fetch-take_values (d ∷ dims) values r k = ground (
  arith,
  fetch-take_values dims values
      (if not (is_there (fetch r d)) then store_some r d (usable (fetch values d)) else r) k,
  fetch-put r d k (usable (fetch values d)),
  string_keys.same_iff d k,
)

-- What a round leaves: the entries and the dimensions still without one number no more than the
-- dimensions.
abbrev pub Fits : List String → GoMap String String → Type 0
Fits dims r = length r + remaining dims (keys r) ≤ length dims

put-Fits :
    (dims : List String) (r : GoMap String String) (d : String) (o : Option String)
    → contains d dims ≡ true
    → Fits dims r
    → Fits dims (if not (is_there (fetch r d)) then store_some r d o else r)
put-Fits dims r d none h f = ground arith
put-Fits dims r d (some v) h f = elim (Option-cases (fetch r d)) [
  | inl e ↦
      rw (e, keys-store_new r d v e, length-store_new r d v e)
        (omega (
          arith,
          remaining_cons d dims (keys r) h (contains-keys r d ∙ ap is_there e),
          remaining-le dims (d ∷ keys r) (keys r ++ (d ∷ []))
              (λ k m. ground (arith, contains-append k (keys r) (d ∷ []))),
        ))
  | inr (a, e) ↦ rw e f
]

take_values-Fits :
    (dims all : List String) (values r : GoMap String String)
    → Subset dims all
    → Fits all r
    → Fits all (take_values dims values r)
unfolding take_values
take_values-Fits [] all values r s f = f
take_values-Fits (d ∷ dims) all values r s f =
    take_values-Fits dims all values _ (λ k m. s k (ground arith))
      (put-Fits all r d (usable (fetch values d)) (s d (rw (same_refl d))) f)

remaining_zero :
    (xs v : List String) (x : String)
    → remaining xs v ≡ 0
    → contains x xs ≡ true
    → contains x v ≡ true
remaining_zero xs v x none_left h = elim (Bool-cases (contains x v)) [
  | inl e ↦ e
  | inr e ↦ absurd (omega (arith, remaining_cons x xs v h e))
]

module _ (nu : Numbers) where
  -- The value of a dimension in the first group that has one.
  abbrev pub first_value : List (AnomalyGroup nu.scores) → String → Option String
  first_value [] dim = none
  first_value (g ∷ groups) dim =
      or_value (usable (fetch g.extra_dimension_values dim)) (first_value groups dim)

  or_value-none : (a : Option String) → or_value a none ≡ a
  or_value-none none = refl
  or_value-none (some a) = refl

  or_value_assoc : (a b c : Option String) → or_value (or_value a b) c ≡ or_value a (or_value b c)
  or_value_assoc none b c = refl
  or_value_assoc (some a) b c = refl

  -- With as many entries as dimensions, every dimension has one.
  full :
      (dims : List String) (r : GoMap String String) (k : String)
      → Fits dims r
      → (length r =ℕ length dims) ≡ true
      → contains k dims ≡ true
      → (o : Option String) → or_value (fetch r k) o ≡ fetch r k
  full dims r k f h m o = elim (Option-cases (fetch r k)) [
    | inl e ↦ absurd (
        cc (
          remaining_zero dims (keys r) k (omega (arith, f, (=ℕ_iff (length r) (length dims)).0 h))
              m,
          contains-keys r k,
          ap is_there e,
        ))
    | inr (v, e) ↦ rw e refl
  ]

  fetch-extract_loop :
      (groups : List (AnomalyGroup nu.scores)) (dims : List String) (r : GoMap String String)
      (k : String)
      → Fits dims r
      → fetch (extract_loop nu groups dims r) k
        ≡ (if contains k dims then or_value (fetch r k) (first_value groups k) else fetch r k)
  unfolding extract_loop
  fetch-extract_loop [] dims r k f = ground (arith, or_value-none (fetch r k))
  fetch-extract_loop (g ∷ groups) dims r k f =
      let values = g.extra_dimension_values in
      let first = usable (fetch values k) in
      elim (Bool-cases (length r =ℕ length dims)) [
        | inl h ↦ rw h (elim (Bool-cases (contains k dims)) [
          | inl m ↦ rw (m, full dims r k f h m (or_value first (first_value groups k))) refl
          | inr m ↦ rw m refl
        ])
        | inr h ↦ rw h (
            ground (
              arith,
              fetch-extract_loop groups dims (take_values dims values r) k
                  (take_values-Fits dims dims values r (λ j m. m) f),
              fetch-take_values dims values r k,
              or_value_assoc (fetch r k) first (first_value groups k),
            ))
      ]

  -- Of the groups of the impact service a dimension gets the value of the first group that has one,
  -- although the loop stops as soon as it has as many values as dimensions; a dimension that is not
  -- configured gets none.
  pub extract_impact_service_dimensions_lem :
      (groups : List (AnomalyGroup nu.scores)) (dims : List String) (dim : String)
      → fetch (extract_impact_service_dimensions nu groups dims) dim
        ≡ (if contains dim dims then first_value groups dim else none)
  unfolding extract_impact_service_dimensions fetch
  extract_impact_service_dimensions_lem [] dims dim = ground arith
  extract_impact_service_dimensions_lem (g ∷ groups) [] dim = ground arith
  extract_impact_service_dimensions_lem (g ∷ groups) (d ∷ dims) dim = ground (
    arith,
    fetch-extract_loop (g ∷ groups) (d ∷ dims) [] dim
        (omega (arith, remaining-le-length (d ∷ dims) [])),
  )
