-- ===== src/Rca/ServiceGraph/ShortestPath/Trace.antt =====
-- The walk back along the parents.
use mathlib.Core.List.{reverse, reverse-append}
use mirador_core.Prelude.{
  ℕ, zero, suc, ◌+◌, ◌<◌, ◌≡◌, ap, inl, inr, true, some, List, [], ◌∷◌, ◌++◌, String, arith, length,
  ◌==◌, contains, string_keys, GoMap, eq_of_same, ne_of_not_same, Bool-cases,
}
use mirador_core.Rca.ServiceGraph.Defs.{ServiceGraph}
use mirador_core.Rca.ServiceGraph.Search.{HasEdge}
use mirador_core.Rca.ServiceGraph.ShortestPath.Defs.{walk_back}
use mirador_core.Rca.ServiceGraph.ShortestPath.Depths.{Traced}

module _ {S : Type 0} (sg : ServiceGraph S) where
  -- The names along a directed path that ends at `to`, both ends included.
  pub data Walk (to : String) : String → List String → Type 0 where
    stop : Walk to to (to ∷ [])
    go :
        {a b : String} {path : List String} → HasEdge sg a b → Walk to b path → Walk to a (a ∷ path)

  module _ (source target : String) (depth : String → ℕ) (v : List String)
      (parent : GoMap String String) (root : depth source ≡ 0)
      (traced : (n : String) → contains n v ≡ true → Traced sg source depth v parent n) where
    pub walk_back-Walk :
        (fuel : ℕ) (node : String) (path : List String)
        → contains node v ≡ true
        → depth node < fuel
        → Walk target node (reverse path)
        → (found : List String) × (walk_back fuel parent source node path ≡ some found)
          × Walk target source found
          × (length found ≡ length (reverse path) + depth node)
    unfolding walk_back
    walk_back-Walk zero node path h m w = elim m [ ]
    walk_back-Walk (suc fuel) node path h m w = elim (Bool-cases (node == source)) [
      | inl e ↦
          let p = eq_of_same node source e in
          (reverse path, rw e, (rw p at w), rw p (rw root (omega arith)))
      | inr e ↦ elim (traced node h) [
        | inl p ↦ absurd (ne_of_not_same node source e p)
        | inr (p, found, visited, link, level) ↦
            let back : reverse (path ++ p ∷ []) ≡ p ∷ reverse path = reverse-append path (p ∷ []) in
            let (result, done, walk, long) =
              walk_back-Walk fuel p (path ++ p ∷ []) visited (omega arith) (rw back (go link w)) in
            (result, rw (e, found) done, walk, omega (arith, ap length back))
      ]
    ]
