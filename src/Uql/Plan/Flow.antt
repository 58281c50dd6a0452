-- ===== src/Uql/Plan/Flow.antt =====
-- The shape of the plans: the numbers of the steps and the links between them.
use mathlib.Core.Path.{subst}
use mirador_core.Prelude.{
  ℕ, zero, suc, ◌+◌, ◌-◌, ◌<◌, ◌≡◌, refl, sym, ap, ◌∙◌, Bool, true, false, List, [], ◌∷◌, ◌++◌,
  arith, length, length-append,
}
use mirador_core.Uql.Plan.Defs.{
  QueryPlanStep, Building, set_children, add_first, add_linked, add_if,
}

no_zero : {n : ℕ} → 0 ≡ suc n → ⊥
no_zero h = omega (arith, h)

no_two : {n : ℕ} → suc (suc n) ≡ 1 → ⊥
no_two h = omega (arith, h)

module _ {C : Type 0} where
  -- Each step is the child of the one before it, and they are numbered from `k`.
  abbrev pub IsChainFrom : ℕ → List (QueryPlanStep C) → Type 0
  IsChainFrom k [] = Unit
  IsChainFrom k (s ∷ []) = (s.step_id ≡ k) × (s.children ≡ [])
  IsChainFrom k (s ∷ t ∷ rest) =
      (s.step_id ≡ k) × (s.children ≡ suc k ∷ []) × IsChainFrom (suc k) (t ∷ rest)

  -- A step that is made under a number has it, and no child yet.
  abbrev pub IsFresh : (ℕ → QueryPlanStep C) → Type 0
  IsFresh step = (id : ℕ) → ((step id).step_id ≡ id) × ((step id).children ≡ [])

  abbrev pub IsChain : Building C → Type 0
  IsChain b = IsChainFrom 0 b.made × (length b.made ≡ b.next_id) × (0 < b.next_id)

  length-set_children :
      (i : ℕ) (ids : List ℕ) (steps : List (QueryPlanStep C))
      → length (set_children i ids steps) ≡ length steps
  unfolding set_children
  length-set_children i ids [] = refl
  length-set_children zero ids (s ∷ steps) = refl
  length-set_children (suc i) ids (s ∷ steps) = ap suc (length-set_children i ids steps)

  cons-chain :
      (k : ℕ) (s : QueryPlanStep C) (steps : List (QueryPlanStep C))
      → 0 < length steps
      → s.step_id ≡ k
      → s.children ≡ suc k ∷ []
      → IsChainFrom (suc k) steps
      → IsChainFrom k (s ∷ steps)
  cons-chain k s [] more i n rest = elim (nonempty more) [ ]
    where
      nonempty : 0 < 0 → ⊥
      nonempty h = omega (arith, h)
  cons-chain k s (t ∷ steps) more i n rest = (i, n, rest)

  append-chain :
      (k m : ℕ) (steps : List (QueryPlanStep C)) (new : QueryPlanStep C)
      → IsChainFrom k steps
      → length steps ≡ suc m
      → new.step_id ≡ k + suc m
      → new.children ≡ []
      → IsChainFrom k (set_children m ((k + suc m) ∷ []) (steps ++ new ∷ []))
  unfolding set_children
  append-chain k m [] new c l i n = elim (no_zero l) [ ]
  append-chain k zero (s ∷ []) new c l i n =
      (c.0, ap (λ (x : ℕ). x ∷ []) (omega arith), (i ∙ omega arith, n))
  append-chain k zero (s ∷ t ∷ rest) new c l i n = elim (no_two l) [ ]
  append-chain k (suc m) (s ∷ []) new c l i n = elim (no_two (sym l)) [ ]
  append-chain k (suc m) (s ∷ t ∷ rest) new c l i n =
      cons-chain k s (set_children m ((k + suc (suc m)) ∷ []) (t ∷ (rest ++ new ∷ [])))
        (omega (arith, length-set_children m ((k + suc (suc m)) ∷ []) (t ∷ (rest ++ new ∷ [])))) c.0
        c.1
        (subst (λ (x : ℕ). IsChainFrom (suc k) (set_children m (x ∷ []) (t ∷ (rest ++ new ∷ []))))
          (omega arith)
          (append-chain (suc k) m (t ∷ rest) new c.2 (omega (arith, l)) (i ∙ omega arith) n))

  pub add_linked-IsChain :
      (step : ℕ → QueryPlanStep C) (b : Building C)
      → IsFresh step
      → IsChain b
      → IsChain (add_linked step b)
  unfolding add_linked
  add_linked-IsChain step b fresh h = (
    subst
        (λ (x : ℕ).
          IsChainFrom 0 (set_children (b.next_id - 1) (x ∷ []) (b.made ++ step b.next_id ∷ [])))
        (omega (arith, h.2))
        (append-chain 0 (b.next_id - 1) b.made (step b.next_id) h.0 (omega (arith, h.1, h.2))
          ((fresh b.next_id).0 ∙ omega (arith, h.2)) (fresh b.next_id).1),
    omega (
      arith,
      h.1,
      length-set_children (b.next_id - 1) (b.next_id ∷ []) (b.made ++ step b.next_id ∷ []),
      length-append b.made (step b.next_id ∷ []),
    ),
    omega arith,
  )

  pub add_first-IsChain :
      (step : ℕ → QueryPlanStep C)
      → IsFresh step
      → IsChain (add_first step (record { next_id = 0; made = [] }))
  unfolding add_first
  add_first-IsChain step fresh = (((fresh 0).0, (fresh 0).1), refl, omega arith)

  pub add_if-IsChain :
      (given : Bool) (step : ℕ → QueryPlanStep C) (b : Building C)
      → IsFresh step
      → IsChain b
      → IsChain (add_if given step b)
  add_if-IsChain true step b fresh h = add_linked-IsChain step b fresh h
  add_if-IsChain false step b fresh h = h

  -- The steps of a plan of `n` steps: numbered from `k`, and each but the last has one child, which is
  -- a later step of the plan.
  abbrev pub IsFlowFrom : ℕ → ℕ → List (QueryPlanStep C) → Type 0
  IsFlowFrom n k [] = Unit
  IsFlowFrom n k (s ∷ []) = (s.step_id ≡ k) × (s.children ≡ [])
  IsFlowFrom n k (s ∷ t ∷ rest) =
      (s.step_id ≡ k)
      × ((c : ℕ) × (s.children ≡ c ∷ []) × (k < c) × (c < n))
      × IsFlowFrom n (suc k) (t ∷ rest)

  abbrev pub IsFlow : List (QueryPlanStep C) → Type 0
  IsFlow steps = (0 < length steps) × IsFlowFrom (length steps) 0 steps

  chain-flow :
      (n k : ℕ) (steps : List (QueryPlanStep C))
      → n ≡ k + length steps
      → IsChainFrom k steps
      → IsFlowFrom n k steps
  chain-flow n k [] l c = tt
  chain-flow n k (s ∷ []) l c = c
  chain-flow n k (s ∷ t ∷ rest) l c = (
    c.0,
    (suc k, c.1, omega arith, omega (arith, l)),
    chain-flow n (suc k) (t ∷ rest) (omega (arith, l)) c.2,
  )

  pub IsChain-IsFlow : (b : Building C) → IsChain b → IsFlow b.made
  IsChain-IsFlow b h =
      (omega (arith, h.1, h.2), chain-flow (length b.made) 0 b.made (omega arith) h.0)
