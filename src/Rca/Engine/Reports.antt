-- ===== src/Rca/Engine/Reports.antt =====
-- What the report of an analysis has: its chains ranked, and the root cause taken from the best.
use mathlib.Core.List.{Perm, map-append}
use mathlib.Core.List.Perm
use mathlib.Core.Path.{subst}
use mirador_core.Prelude.{
  ℕ, suc, false, ◌≡◌, refl, sym, ap, ◌∙◌, Option, none, some, List, [], ◌∷◌, ◌++◌, map, All,
}
use mirador_core.Prelude.Sorting.{
  sort_by, IsSorted, IsSortedFrom, sort_by-IsSorted, sort_by-perm, All-sort_by,
}
use mirador_core.Rca.Events.{Numbers}
use mirador_core.Rca.Chain.{
  RcaStep, RcaChain, RcaIncident, add_chain, last_step, with_root_cause, rooted,
  set_root_cause_from_best_chain,
}
use mirador_core.Rca.Scoring.{InOrder, IsSorted-InOrder}
use mirador_core.Rca.Engine.ChainLaws.{IsChain}
use mirador_core.Rca.Engine.Compute.{better_chain, number_chains, conclude}

module _ (nu : Numbers) where
  abbrev pub NumberedChains : ℕ → List (RcaChain nu.scores) → Type 0
  NumberedChains k [] = Unit
  NumberedChains k (c ∷ cs) = (c.rank ≡ k) × NumberedChains (suc k) cs

  -- The last step of the first chain.
  abbrev pub root_of : List (RcaChain nu.scores) → Option (RcaStep nu.scores)
  root_of [] = none
  root_of (best ∷ others) = last_step nu.scores best.steps

  -- The score of the first is not lower than that of the second.
  abbrev pub NoLower : RcaChain nu.scores → RcaChain nu.scores → Type 0
  NoLower a b = nu.scores.lt a.score b.score ≡ false

  -- A chain but for its rank.
  abbrev pub unranked_chain : RcaChain nu.scores → RcaChain nu.scores
  unranked_chain c = record c { rank = 0 }

  -- The chains are ranked 1, 2, and so on, none has a higher score than the one before it, each is
  -- well-formed, and the root cause is the last step of the first.
  pub record IsReport (r : RcaIncident nu.scores) : Type 0 where
    pub numbered : NumberedChains 1 r.chains
    pub falling : InOrder NoLower r.chains
    pub chained : All (IsChain nu) r.chains
    pub root : r.root_cause ≡ root_of r.chains

  number_chains-numbered :
      (k : ℕ) (cs : List (RcaChain nu.scores)) → NumberedChains k (number_chains nu k cs)
  unfolding number_chains
  number_chains-numbered k [] = tt
  number_chains-numbered k (c ∷ cs) = (refl, number_chains-numbered (suc k) cs)

  number_chains-from :
      (j k : ℕ) (c : RcaChain nu.scores) (cs : List (RcaChain nu.scores))
      → IsSortedFrom (better_chain nu) c cs
      → IsSortedFrom (better_chain nu) (record c { rank = j }) (number_chains nu k cs)
  unfolding number_chains
  number_chains-from j k c [] s = tt
  number_chains-from j k c (d ∷ ds) s = (s.0, number_chains-from k (suc k) d ds s.1)

  number_chains-IsSorted :
      (k : ℕ) (cs : List (RcaChain nu.scores))
      → IsSorted (better_chain nu) cs
      → IsSorted (better_chain nu) (number_chains nu k cs)
  unfolding number_chains
  number_chains-IsSorted k [] s = tt
  number_chains-IsSorted k (c ∷ cs) s = number_chains-from k (suc k) c cs s

  ranked-IsChain :
      (c : RcaChain nu.scores) (k : ℕ) → IsChain nu c → IsChain nu (record c { rank = k })
  ranked-IsChain c k h = record { counted = h.counted; hops = h.hops; path = h.path }

  number_chains-IsChain :
      (k : ℕ) (cs : List (RcaChain nu.scores))
      → All (IsChain nu) cs
      → All (IsChain nu) (number_chains nu k cs)
  unfolding number_chains
  number_chains-IsChain k [] all = tt
  number_chains-IsChain k (c ∷ cs) all =
      (ranked-IsChain c k all.0, number_chains-IsChain (suc k) cs all.1)

  unranked-number_chains :
      (k : ℕ) (cs : List (RcaChain nu.scores))
      → map unranked_chain (number_chains nu k cs) ≡ map unranked_chain cs
  unfolding number_chains
  unranked-number_chains k [] = refl
  unranked-number_chains k (c ∷ cs) =
      ap (λ l. unranked_chain c ∷ l) (unranked-number_chains (suc k) cs)

  rooted_cases :
      (r : RcaIncident nu.scores) (best : RcaChain nu.scores) (o : Option (RcaStep nu.scores))
      → r.root_cause ≡ none
      → ((rooted nu.scores r best o).chains ≡ r.chains)
        × ((rooted nu.scores r best o).root_cause ≡ o)
  rooted_cases r best none fresh = (refl, fresh)
  rooted_cases r best (some s) fresh = (refl, refl)

  root_cases :
      (r : RcaIncident nu.scores) (cs : List (RcaChain nu.scores))
      → r.root_cause ≡ none
      → ((with_root_cause nu.scores r cs).chains ≡ r.chains)
        × ((with_root_cause nu.scores r cs).root_cause ≡ root_of cs)
  root_cases r [] fresh = (refl, fresh)
  root_cases r (best ∷ others) fresh = rooted_cases r best (last_step nu.scores best.steps) fresh

  set_root_lem :
      (r : RcaIncident nu.scores)
      → r.root_cause ≡ none
      → let s = set_root_cause_from_best_chain nu.scores r in
        (s.chains ≡ r.chains) × (s.root_cause ≡ root_of r.chains)
  unfolding set_root_cause_from_best_chain
  set_root_lem r fresh = root_cases r r.chains fresh

  built-IsReport :
      (r : RcaIncident nu.scores) (cs : List (RcaChain nu.scores))
      → r.chains ≡ cs
      → r.root_cause ≡ root_of cs
      → NumberedChains 1 cs
      → IsSorted (better_chain nu) cs
      → All (IsChain nu) cs
      → IsReport r
  built-IsReport r cs e root numbered sorted chained = record {
    numbered = subst (NumberedChains 1) (sym e) numbered;
    falling =
        subst (InOrder NoLower) (sym e)
          (IsSorted-InOrder (better_chain nu) NoLower (λ a b h. h) cs sorted);
    chained = subst (All (IsChain nu)) (sym e) chained;
    root = root ∙ ap root_of (sym e);
  }

  -- What the end of both analyses makes of well-formed chains.
  pub conclude_lem :
      (r : RcaIncident nu.scores)
      → r.root_cause ≡ none
      → All (IsChain nu) r.chains
      → IsReport (conclude nu r)
        × Perm (map unranked_chain (conclude nu r).chains) (map unranked_chain r.chains)
  unfolding conclude
  conclude_lem r fresh all =
      let sorted = sort_by (better_chain nu) r.chains in
      let ranked = number_chains nu 1 sorted in
      let (kept, root) = set_root_lem (record r { chains = ranked }) fresh in
      (
        built-IsReport _ ranked kept root (number_chains-numbered 1 sorted)
            (number_chains-IsSorted 1 sorted
              (sort_by-IsSorted (better_chain nu) (λ a b. nu.lt_asymm b.score a.score) r.chains))
            (number_chains-IsChain 1 sorted
              (All-sort_by (IsChain nu) (better_chain nu) r.chains all)),
        subst (λ l. Perm l (map unranked_chain r.chains))
            (sym (ap (map unranked_chain) kept ∙ unranked-number_chains 1 sorted))
            (Perm.map unranked_chain (sort_by-perm (better_chain nu) r.chains)),
      )

  All-last :
      (P : RcaChain nu.scores → Type 0) (cs : List (RcaChain nu.scores)) (c : RcaChain nu.scores)
      → All P cs
      → P c
      → All P (cs ++ (c ∷ []))
  All-last P [] c all p = (p, tt)
  All-last P (x ∷ cs) c all p = (all.0, All-last P cs c all.1 p)

  pub add_chain_lem :
      (r : RcaIncident nu.scores) (c : RcaChain nu.scores)
      → r.root_cause ≡ none
      → All (IsChain nu) r.chains
      → IsChain nu c
      → ((add_chain nu.scores r c).root_cause ≡ none)
        × All (IsChain nu) (add_chain nu.scores r c).chains
        × (map unranked_chain (add_chain nu.scores r c).chains
            ≡ map unranked_chain r.chains ++ (unranked_chain c ∷ []))
  unfolding add_chain
  add_chain_lem r c fresh all h = (
    fresh,
    All-last (IsChain nu) r.chains _ all (ranked-IsChain c _ h),
    map-append unranked_chain r.chains _,
  )
