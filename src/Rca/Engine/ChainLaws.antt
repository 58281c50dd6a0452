-- ===== src/Rca/Engine/ChainLaws.antt =====
-- What the chain of a candidate is made of.
use mathlib.Core.List.{append_assoc, append-nil}
use mirador_core.Prelude.{
  ℕ, zero, suc, ◌+◌, ◌-◌, ◌≡◌, refl, sym, ap, ◌∙◌, Bool, true, false, not, leb, Option, none, some,
  List, [], ◌∷◌, ◌++◌, map, String, arith, if◌then◌else◌, ◌==◌, length, length-append, string_keys,
  keep, Bool-cases, inl, inr,
}
use mirador_core.Prelude.Int.{ℤ, pos, pos_part, leb_ℤ}
use mirador_core.Rca.Events.{Numbers, EnrichedAnomalyEvent}
use mirador_core.Rca.ServiceGraph.{ServiceGraph, ServiceEdge}
use mirador_core.Rca.Chain.{IncidentContext, RcaStep, RcaChain, new_rca_chain, add_step}
use mirador_core.Rca.Scoring.{CandidateCause, take}
use mirador_core.Rca.Engine.Chains.{
  EngineWording, add_events, build_step_from_candidate, build_intermediate_step_from_graph,
  add_path_steps, with_edge, edge_of, last_edge,
}

module _ {ℓ} {A : Type ℓ} where
  pub take_nil : (n : ℕ) (xs : List A) → xs ≡ xs ++ take n []
  take_nil zero xs = sym (append-nil xs)
  take_nil (suc n) xs = sym (append-nil xs)

  pub take_none : (n : ℕ) (xs ys : List A) → n ≡ 0 → xs ≡ xs ++ take n ys
  take_none n xs ys e = rw e (sym (append-nil xs))

  pub take_more :
      (m n : ℕ) (xs : List A) (x y : A) (ys : List A)
      → x ≡ y
      → m ≡ suc n
      → (xs ++ (x ∷ [])) ++ take n ys ≡ xs ++ take m (y ∷ ys)
  take_more m n xs x y ys e f = rw (e, f) (append_assoc xs (y ∷ []) (take n ys))

room :
    (k : ℕ) (max : ℤ)
    → leb_ℤ (pos (suc k)) max ≡ true
    → pos_part max - k ≡ suc (pos_part max - suc k)
room k max h = ground arith

no_room : (k : ℕ) (max : ℤ) → leb_ℤ (pos (suc k)) max ≡ false → pos_part max - k ≡ 0
no_room k max h = ground arith

module _ (nu : Numbers) where
  abbrev pub services : List (RcaStep nu.scores) → List String
  services = map (λ (s : RcaStep nu.scores). s.service)

  -- The steps count from a number on.
  abbrev pub CountFrom : ℕ → List (RcaStep nu.scores) → Type 0
  CountFrom n [] = Unit
  CountFrom n (s ∷ steps) = (s.why_index ≡ n) × CountFrom (suc n) steps

  -- The steps count from 1, the hops are the steps, and the path lists the services of the steps
  -- that have a name.
  pub record IsChain (chain : RcaChain nu.scores) : Type 0 where
    pub counted : CountFrom 1 chain.steps
    pub hops : chain.duration_hops ≡ length chain.steps
    pub path : chain.impact_path ≡ keep (λ s. not (s == "")) (services chain.steps)

  append-CountFrom :
      (n : ℕ) (steps : List (RcaStep nu.scores)) (s : RcaStep nu.scores)
      → CountFrom n steps
      → s.why_index ≡ n + length steps
      → CountFrom n (steps ++ (s ∷ []))
  append-CountFrom n [] s c h = (omega (arith, h), tt)
  append-CountFrom n (x ∷ steps) s c h =
      (c.0, append-CountFrom (suc n) steps s c.1 (omega (arith, h)))

  keep-last :
      (p : String → Bool) (l : List String) (x : String)
      → keep p (l ++ (x ∷ [])) ≡ (if p x then keep p l ++ (x ∷ []) else keep p l)
  keep-last p [] x = ground arith
  keep-last p (y ∷ l) x = ground (arith, keep-last p l x)

  services-last :
      (steps : List (RcaStep nu.scores)) (s : RcaStep nu.scores)
      → services (steps ++ (s ∷ [])) ≡ services steps ++ (s.service ∷ [])
  services-last [] s = refl
  services-last (x ∷ steps) s = ap (λ t. x.service ∷ t) (services-last steps s)

  extend_path :
      (p : String → Bool) (path l : List String) (x : String)
      → path ≡ keep p l
      → (if p x then path ++ (x ∷ []) else path) ≡ keep p (l ++ (x ∷ []))
  extend_path p path l x e = rw e (sym (keep-last p l x))

  pub add_step-IsChain :
      (chain : RcaChain nu.scores) (s : RcaStep nu.scores)
      → IsChain chain
      → s.why_index ≡ suc (length chain.steps)
      → IsChain (add_step nu.scores chain s)
  unfolding add_step
  add_step-IsChain chain s c h = record {
    counted = append-CountFrom 1 chain.steps s c.counted (omega (arith, h));
    hops = refl;
    path =
        extend_path (λ n. not (n == "")) chain.impact_path (services chain.steps) s.service c.path
        ∙ ap (keep (λ n. not (n == ""))) (sym (services-last chain.steps s));
  }

  services-add_step :
      (chain : RcaChain nu.scores) (s : RcaStep nu.scores)
      → services (add_step nu.scores chain s).steps ≡ services chain.steps ++ (s.service ∷ [])
  unfolding add_step
  services-add_step chain s = services-last chain.steps s

  pub length-add_step :
      (chain : RcaChain nu.scores) (s : RcaStep nu.scores)
      → length (add_step nu.scores chain s).steps ≡ suc (length chain.steps)
  unfolding add_step
  length-add_step chain s = omega (arith, length-append chain.steps (s ∷ []))

  pub new_rca_chain-IsChain : IsChain (new_rca_chain nu.scores)
  unfolding new_rca_chain
  new_rca_chain-IsChain = record { counted = tt; hops = refl; path = refl }

  -- A change of the score alone.
  pub rescored-IsChain :
      (chain : RcaChain nu.scores) (x : nu.scores.F)
      → IsChain chain
      → IsChain (record chain { score = x })
  rescored-IsChain chain x c = record { counted = c.counted; hops = c.hops; path = c.path }

  -- The step is the `why`-th and of the service.
  abbrev pub IsStep : ℕ → String → RcaStep nu.scores → Type 0
  IsStep why service s = (s.why_index ≡ why) × (s.service ≡ service)

  module _ (w : EngineWording nu.scores.F) where
    add_events-IsStep :
        (i : ℕ) (events : List (EnrichedAnomalyEvent nu.scores)) (s : RcaStep nu.scores) (why : ℕ)
        (service : String)
        → IsStep why service s
        → IsStep why service (add_events nu w i events s)
    unfolding add_events
    add_events-IsStep i [] s why service h = h
    add_events-IsStep i (e ∷ events) s why service h = elim (Bool-cases (leb 5 i)) [
      | inl stop_here ↦ rw stop_here h
      | inr more_room ↦ rw more_room (add_events-IsStep (suc i) events _ why service h)
    ]

    pub candidate-IsStep :
        (c : CandidateCause nu) (incident : IncidentContext nu.scores)
        → IsStep 1 c.group.group_service (build_step_from_candidate nu w 1 c incident none)
    unfolding build_step_from_candidate
    candidate-IsStep c incident =
        add_events-IsStep 0 c.group.events _ 1 c.group.group_service (refl, refl)

    module _ {S : Type 0} (error_rate : S → nu.scores.F) (sg : ServiceGraph S) where
      with_edge-IsStep :
          (s : RcaStep nu.scores) (edge : Option (ServiceEdge S)) (why : ℕ) (service : String)
          → IsStep why service s
          → IsStep why service (with_edge nu w error_rate sg s edge)
      unfolding build_intermediate_step_from_graph
      with_edge-IsStep s none why service h = h
      with_edge-IsStep s (some edge) why service h = h

      intermediate-IsStep :
          (why : ℕ) (svc : String) (path : List String) (incident : IncidentContext nu.scores)
          → IsStep why svc
              (build_intermediate_step_from_graph nu w error_rate sg why svc path incident)
      unfolding build_intermediate_step_from_graph
      intermediate-IsStep why svc path incident =
          with_edge-IsStep _ (edge_of nu w error_rate sg (last_edge path)) why svc (refl, refl)

      -- What the loop along the path adds: a step for each name, as far as the limit goes.
      pub path_steps :
          (max : ℤ) (path : List String) (incident : IncidentContext nu.scores) (k : ℕ)
          (svcs : List String) (chain : RcaChain nu.scores)
          → IsChain chain
          → length chain.steps ≡ k
          → let result = add_path_steps nu w error_rate sg max path incident (suc k) svcs chain in
            IsChain result
            × (services result.steps ≡ services chain.steps ++ take (pos_part max - k) svcs)
      unfolding add_path_steps
      path_steps max path incident k [] chain c h =
          (c, take_nil (pos_part max - k) (services chain.steps))
      path_steps max path incident k (svc ∷ svcs) chain c h =
          let step =
            build_intermediate_step_from_graph nu w error_rate sg (suc k) svc path incident in
          let (why, service) = intermediate-IsStep (suc k) svc path incident in
          elim (Bool-cases (leb_ℤ (pos (suc k)) max)) [
            | inl fits ↦
                let (chained, listed) =
                  path_steps max path incident (suc k) svcs (add_step nu.scores chain step)
                    (add_step-IsChain chain step c (why ∙ ap suc (sym h)))
                    (length-add_step chain step ∙ ap suc h) in
                rw fits (
                  chained,
                  listed
                      ∙ ap (λ t. t ++ take (pos_part max - suc k) svcs)
                          (services-add_step chain step)
                      ∙ take_more (pos_part max - k) (pos_part max - suc k) (services chain.steps)
                          step.service svc svcs service (room k max fits),
                )
            | inr full ↦ rw full (
              c,
              take_none (pos_part max - k) (services chain.steps) (svc ∷ svcs) (no_room k max full),
            )
          ]
