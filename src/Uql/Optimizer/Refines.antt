-- ===== src/Uql/Optimizer/Refines.antt =====
-- What the optimizer keeps of a query: the contract of `Optimize` and of each of its passes.
use mathlib.Core.List.{Perm}
use mathlib.Core.List.Perm
use mirador_core.Prelude.{
  ◌≡◌, refl, sym, ap, ◌∙◌, true, Option, none, some, List, map, String, ◌⊎◌, inl, inr, contains,
  string_keys, int_keys,
}
use mirador_core.Prelude.Int.{ℤ}
use mirador_core.Uql.Syntax.{
  UqlQuery, UqlSelect, UqlCorrelation, UqlJoin, UqlOperator, op_near, op_within, UqlField,
}
use mirador_core.Uql.Optimizer.Windows.{IsCommon, common_intervals}
use mirador_core.Uql.Optimizer.Fields.{field_key}
use mirador_core.Uql.Optimizer.Passes.{OptimizationStats, Pass}

-- Both are given and related, or neither is given.
abbrev pub Both {ℓ} : {A : Type ℓ} → (A → A → Type 0) → Option A → Option A → Type 0
Both R none none = Unit
Both R (some a) (some b) = R a b
Both R _ _ = ⊥

Both-refl {ℓ} : {A : Type ℓ} (R : A → A → Type 0) → ((a : A) → R a a) → (o : Option A) → Both R o o
Both-refl R r none = tt
Both-refl R r (some a) = r a

Both-trans {ℓ} :
    {A : Type ℓ} (R : A → A → Type 0)
    → ((a b c : A) → R a b → R b c → R a c)
    → (o p q : Option A) → Both R o p
    → Both R p q
    → Both R o q
Both-trans R t none none none h k = tt
Both-trans R t none none (some c) h k = elim k [ ]
Both-trans R t none (some b) q h k = elim h [ ]
Both-trans R t (some a) none q h k = elim h [ ]
Both-trans R t (some a) (some b) none h k = elim k [ ]
Both-trans R t (some a) (some b) (some c) h k = t a b c h k

-- A window is kept, or replaced by a common interval.
abbrev pub KeepsWindow : ℤ → ℤ → Type 0
KeepsWindow w w' = (w' ≡ w) ⊎ IsCommon w'

-- No field key is new.
abbrev pub KeepsFields : List UqlField → List UqlField → Type 0
KeepsFields fields fields' =
    (k : String)
    → contains k (map field_key fields') ≡ true
    → contains k (map field_key fields) ≡ true

pub window_refl : (w : Option ℤ) → Both KeepsWindow w w
window_refl = Both-refl KeepsWindow (λ w. inl refl)

-- NEAR may become WITHIN.
abbrev pub KeepsOperator : UqlOperator → UqlOperator → Type 0
KeepsOperator op op' = (op' ≡ op) ⊎ ((op ≡ op_near) × (op' ≡ op_within))

KeepsWindow-trans : (u v w : ℤ) → KeepsWindow u v → KeepsWindow v w → KeepsWindow u w
KeepsWindow-trans u v w h (inr common) = inr common
KeepsWindow-trans u v w (inl same) (inl same') = inl (same' ∙ same)
KeepsWindow-trans u v w (inr common) (inl same') =
    inr (ap (λ x. contains x common_intervals) same' ∙ common)

KeepsOperator-trans :
    (a b c : UqlOperator) → KeepsOperator a b → KeepsOperator b c → KeepsOperator a c
KeepsOperator-trans a b c (inl h) (inl k) = inl (k ∙ h)
KeepsOperator-trans a b c (inl h) (inr k) = inr (sym h ∙ k.0, k.1)
KeepsOperator-trans a b c (inr h) (inl k) = inr (h.0, k ∙ h.1)
KeepsOperator-trans a b c (inr h) (inr k) = inr (h.0, k.1)

module _ {V : Type 0} where
  abbrev pub KeepsSelect : UqlSelect V → UqlSelect V → Type 0
  KeepsSelect s s' =
      (s'.data_source ≡ s.data_source)
      × (s'.filter ≡ s.filter)
      × (s'.group_by ≡ s.group_by)
      × (s'.having ≡ s.having)
      × KeepsFields s.fields s'.fields

  abbrev pub KeepsCorrelation : UqlCorrelation V → UqlCorrelation V → Type 0
  KeepsCorrelation c c' =
      (c'.left_expression ≡ c.left_expression)
      × (c'.right_expression ≡ c.right_expression)
      × (c'.join_condition ≡ c.join_condition)
      × KeepsOperator c.operator c'.operator
      × Both KeepsWindow c.time_window c'.time_window

  abbrev pub KeepsJoin : UqlJoin V → UqlJoin V → Type 0
  KeepsJoin j j' =
      (j'.left ≡ j.left) × (j'.right ≡ j.right) × (j'.on ≡ j.on) × (j'.join_window ≡ j.join_window)

  -- The query asked for and the one that is executed in its place: the same sources, conditions, groups
  -- and limit, and the same columns to sort by, in any order.
  abbrev pub IsRefined : UqlQuery V → UqlQuery V → Type 0
  IsRefined q q' =
      (q'.query_type ≡ q.query_type)
      × (q'.raw_query ≡ q.raw_query)
      × (q'.limit ≡ q.limit)
      × (q'.aggregation ≡ q.aggregation)
      × Both KeepsSelect q.select q'.select
      × Both KeepsCorrelation q.correlation q'.correlation
      × Both KeepsJoin q.join q'.join
      × Both KeepsWindow q.window q'.window
      × Perm q'.order_by q.order_by

  KeepsSelect-trans : (a b c : UqlSelect V) → KeepsSelect a b → KeepsSelect b c → KeepsSelect a c
  KeepsSelect-trans a b c h k =
      (k.0 ∙ h.0, k.1 ∙ h.1, k.2 ∙ h.2, k.3 ∙ h.3, λ f on. h.4 f (k.4 f on))

  KeepsCorrelation-trans :
      (a b c : UqlCorrelation V)
      → KeepsCorrelation a b
      → KeepsCorrelation b c
      → KeepsCorrelation a c
  KeepsCorrelation-trans a b c h k = (
    k.0 ∙ h.0,
    k.1 ∙ h.1,
    k.2 ∙ h.2,
    KeepsOperator-trans _ _ _ h.3 k.3,
    Both-trans KeepsWindow KeepsWindow-trans _ _ _ h.4 k.4,
  )

  KeepsJoin-trans : (a b c : UqlJoin V) → KeepsJoin a b → KeepsJoin b c → KeepsJoin a c
  KeepsJoin-trans a b c h k = (k.0 ∙ h.0, k.1 ∙ h.1, k.2 ∙ h.2, k.3 ∙ h.3)

  pub select_refl : (s : Option (UqlSelect V)) → Both KeepsSelect s s
  select_refl = Both-refl KeepsSelect (λ s. (refl, refl, refl, refl, λ k h. h))

  pub correlation_refl : (c : Option (UqlCorrelation V)) → Both KeepsCorrelation c c
  correlation_refl =
      Both-refl KeepsCorrelation
        (λ c. (refl, refl, refl, inl refl, Both-refl KeepsWindow (λ w. inl refl) c.time_window))

  pub join_refl : (j : Option (UqlJoin V)) → Both KeepsJoin j j
  join_refl = Both-refl KeepsJoin (λ j. (refl, refl, refl, refl))

  pub IsRefined-refl : (q : UqlQuery V) → IsRefined q q
  IsRefined-refl q = (
    refl,
    refl,
    refl,
    refl,
    select_refl q.select,
    correlation_refl q.correlation,
    join_refl q.join,
    window_refl q.window,
    Perm.refl q.order_by,
  )

  pub IsRefined-trans : (a b c : UqlQuery V) → IsRefined a b → IsRefined b c → IsRefined a c
  IsRefined-trans a b c h k = (
    k.0 ∙ h.0,
    k.1 ∙ h.1,
    k.2 ∙ h.2,
    k.3 ∙ h.3,
    Both-trans KeepsSelect KeepsSelect-trans _ _ _ h.4 k.4,
    Both-trans KeepsCorrelation KeepsCorrelation-trans _ _ _ h.5 k.5,
    Both-trans KeepsJoin KeepsJoin-trans _ _ _ h.6 k.6,
    Both-trans KeepsWindow KeepsWindow-trans _ _ _ h.7 k.7,
    Perm.trans k.8 h.8,
  )

  -- A pass keeps every query.
  abbrev pub Keeps : Pass V → Type 0
  Keeps pass = (q : UqlQuery V) (st : OptimizationStats) → IsRefined q (pass q st).0
