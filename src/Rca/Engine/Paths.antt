-- ===== src/Rca/Engine/Paths.antt =====
-- The services that the chain of a candidate goes through, and the one that it ends at.
use mathlib.Core.Option
use mathlib.Core.Path.{subst}
use mirador_core.Prelude.{
  ℕ, zero, suc, ◌-◌, ◌≤◌, ◌≡◌, ◌≢◌, refl, sym, ap, ◌∙◌, not, Option, none, some, List, [], ◌∷◌,
  ◌++◌, String, arith, if◌then◌else◌, ◌==◌, length, string_keys, Bool-cases, inl, inr, eq_of_same,
}
use mirador_core.Prelude.Int.{ℤ, pos_part}
use mirador_core.Rca.Events.{Numbers}
use mirador_core.Rca.ServiceGraph.{ServiceGraph, IsConsistent}
use mirador_core.Rca.ServiceGraph.ShortestPath.{
  shortest_path, shortest_path_lem, Walk, stop, go, IsShortest,
}
use mirador_core.Rca.Chain.{IncidentContext, RcaStep, RcaChain, new_rca_chain, add_step, last_step}
use mirador_core.Rca.Scoring.{CandidateCause, take}
use mirador_core.Rca.Collect.{found_path}
use mirador_core.Rca.Engine.Chains.{
  EngineWording, tail, build_step_from_candidate, build_chain_for_candidate, finalize_chain_score,
  first_chain, along_path,
}
use mirador_core.Rca.Engine.ChainLaws.{
  services, IsChain, path_steps, candidate-IsStep, add_step-IsChain, new_rca_chain-IsChain,
  rescored-IsChain,
}

abbrev pub tail_of : Option (List String) → List String
tail_of none = []
tail_of (some path) = tail path

abbrev pub last_name : List String → Option String
last_name [] = none
last_name (x ∷ []) = some x
last_name (x ∷ y ∷ xs) = last_name (y ∷ xs)

take_all : (n : ℕ) (xs : List String) → length xs ≤ n → take n xs ≡ xs
take_all zero [] h = refl
take_all zero (x ∷ xs) h = absurd (omega arith)
take_all (suc n) [] h = refl
take_all (suc n) (x ∷ xs) h = ap (λ t. x ∷ t) (take_all n xs (omega arith))

take_of_nil : (n : ℕ) → [] ≡ take n (tail_of none)
take_of_nil zero = refl
take_of_nil (suc n) = refl

module _ (nu : Numbers) where
  last_step-services :
      (steps : List (RcaStep nu.scores))
      → Option.map (λ (s : RcaStep nu.scores). s.service) (last_step nu.scores steps)
        ≡ last_name (services nu steps)
  last_step-services [] = refl
  last_step-services (s ∷ []) = refl
  last_step-services (s ∷ t ∷ steps) = last_step-services (t ∷ steps)

  module _ (w : EngineWording nu.scores.F) {S : Type 0} (error_rate : S → nu.scores.F)
      (sg : ServiceGraph S) where
    -- The services after the candidate's on the way to the impact.
    abbrev pub names_after : String → String → List String
    names_after service impact =
        if not (service == impact)
        then tail_of (found_path (shortest_path sg service impact))
        else []

    abbrev pub HasServices : RcaChain nu.scores → List String → Type 0
    HasServices chain names = IsChain nu chain × (services nu chain.steps ≡ names)

    first-HasServices :
        (c : CandidateCause nu) (incident : IncidentContext nu.scores)
        → HasServices (first_chain nu w error_rate sg c incident) (c.group.group_service ∷ [])
    unfolding add_step new_rca_chain
    first-HasServices c incident =
        let step = build_step_from_candidate nu w 1 c incident none in
        let (why, service) = candidate-IsStep nu w c incident in
        (
          rescored-IsChain nu _ c.score
              (add_step-IsChain nu (new_rca_chain nu.scores) step (new_rca_chain-IsChain nu) why),
          ap (λ t. t ∷ []) service,
        )

    along-HasServices :
        (max : ℤ) (incident : IncidentContext nu.scores) (o : Option (List String))
        (c : CandidateCause nu)
        → HasServices
            (along_path nu w error_rate sg max incident o
              (first_chain nu w error_rate sg c incident))
            (c.group.group_service ∷ take (pos_part max - 1) (tail_of o))
    unfolding finalize_chain_score add_step new_rca_chain
    along-HasServices max incident none c =
        let (chained, listed) = first-HasServices c incident in
        (chained, listed ∙ ap (λ t. c.group.group_service ∷ t) (take_of_nil (pos_part max - 1)))
    along-HasServices max incident (some path) c =
        let (chained, listed) = first-HasServices c incident in
        let (all, names) =
          path_steps nu w error_rate sg max path incident 1 (tail path)
            (first_chain nu w error_rate sg c incident) chained refl in
        (
          rescored-IsChain nu _ _ all,
          names ∙ ap (λ t. t ++ take (pos_part max - 1) (tail path)) listed,
        )

    alone-HasServices :
        (max : ℤ) (incident : IncidentContext nu.scores) (c : CandidateCause nu)
        → HasServices
            (finalize_chain_score nu w (first_chain nu w error_rate sg c incident) max)
            (c.group.group_service ∷ take (pos_part max - 1) [])
    unfolding finalize_chain_score
    alone-HasServices max incident c =
        let (chained, listed) = first-HasServices c incident in
        (
          rescored-IsChain nu _ _ chained,
          listed ∙ ap (λ t. c.group.group_service ∷ t) (take_of_nil (pos_part max - 1)),
        )

    pub build_chain_for_candidate_lem :
        (incident : IncidentContext nu.scores) (c : CandidateCause nu) (max : ℤ)
        → HasServices (build_chain_for_candidate nu w error_rate sg incident c max) (
            c.group.group_service
            ∷ take (pos_part max - 1) (names_after c.group.group_service incident.impact_service))
    unfolding build_chain_for_candidate
    build_chain_for_candidate_lem incident c max =
        elim (Bool-cases (c.group.group_service == incident.impact_service)) [
          | inl e ↦ rw e (alone-HasServices max incident c)
          | inr e ↦ rw e (along-HasServices max incident _ c)
        ]

    last-Walk : {to a : String} {path : List String} → Walk sg to a path → last_name path ≡ some to
    last-Walk stop = refl
    last-Walk (go link stop) = refl
    last-Walk (go link (go next rest)) = last-Walk (go next rest)

    head-Walk :
        {a to : String} {path : List String}
        → Walk sg to a path
        → path ≡ a ∷ tail path × (length path ≡ suc (length (tail path)))
    head-Walk stop = (refl, refl)
    head-Walk (go link rest) = (refl, refl)

    of_answer :
        (a b : String) (path : List String) (answer : Option (List String))
        → some answer ≡ some (some path)
        → IsShortest sg a b answer
        → Walk sg b a path
    of_answer a b path none e short = cc
    of_answer a b path (some other) e short = subst (λ t. Walk sg b a t) (cc) short.0

    walk_of :
        (a b : String) (path : List String)
        → IsConsistent sg
        → shortest_path sg a b ≡ some (some path)
        → Walk sg b a path
    walk_of a b path consistent found =
        let (answer, e, short) = shortest_path_lem sg a b consistent in
        of_answer a b path answer (sym e ∙ found) short

    names_found :
        (a b : String) (path : List String)
        → a ≢ b
        → shortest_path sg a b ≡ some (some path)
        → names_after a b ≡ tail path
    names_found a b path differ found = elim (Bool-cases (a == b)) [
      | inl e ↦ absurd (differ (eq_of_same a b e))
      | inr e ↦ rw (e, found) refl
    ]

    -- If the graph finds a path from the service of a candidate to the impact, and the limit on steps
    -- allows its length, the last step of the candidate's chain, which becomes the root cause if the
    -- chain is the best, is a step of the service that is impacted.
    pub build_chain_root :
        (incident : IncidentContext nu.scores) (c : CandidateCause nu) (max : ℤ)
        {path : List String}
        → IsConsistent sg
        → c.group.group_service ≢ incident.impact_service
        → shortest_path sg c.group.group_service incident.impact_service ≡ some (some path)
        → length path ≤ pos_part max
        → Option.map
            (λ (s : RcaStep nu.scores). s.service)
            (last_step nu.scores
              (build_chain_for_candidate nu w error_rate sg incident c max).steps)
          ≡ some incident.impact_service
    build_chain_root incident c max {path} consistent differ found short =
        let walk = walk_of _ _ path consistent found in
        let (start, long) = head-Walk walk in
        let chain = build_chain_for_candidate nu w error_rate sg incident c max in
        last_step-services chain.steps
        ∙ ap last_name (
            (build_chain_for_candidate_lem incident c max).1
            ∙ ap (λ t. c.group.group_service ∷ take (pos_part max - 1) t)
                (names_found _ _ path differ found)
            ∙ ap (λ t. c.group.group_service ∷ t)
                (take_all (pos_part max - 1) (tail path) (omega (arith, long, short)))
            ∙ sym start)
        ∙ last-Walk walk
