-- ===== src/Rca/ServiceGraph/ShortestPath/Defs.antt =====
-- The loops of `ShortestPath`.
use mathlib.Core.List.{reverse}
use mathlib.Core.Option
use mirador_core.Prelude.{
  ℕ, zero, suc, ◌+◌, Bool, true, false, Option, none, some, List, [], ◌∷◌, ◌++◌, String,
  if◌then◌else◌, length, ◌==◌, contains, string_keys, GoMap, fetch, store,
}
use mirador_core.Rca.ServiceGraph.Defs.{ServiceEdge, ServiceGraph}

pub record Frontier : Type 0 where
  pub queue : List String
  pub visited : List String
  pub parent : GoMap String String

-- `parent[node]`, the empty string on a missing key.
abbrev pub parent_of : GoMap String String → String → String
parent_of parent node = Option.get_or (fetch parent node) ""

-- The loop that walks from the target back to the source, and the reversal of its list.
unfoldable pub walk_back :
    ℕ → GoMap String String → String → String → List String → Option (List String)
walk_back zero parent source node path = none
walk_back (suc fuel) parent source node path =
    let further =
      walk_back fuel parent source (parent_of parent node) (path ++ parent_of parent node ∷ []) in
    if node == source then some (reverse path) else further

-- A walk visits a node once, so the number of entries bounds its length.
abbrev pub reconstruct : GoMap String String → String → String → Option (List String)
reconstruct parent source target = walk_back (length parent + 1) parent source target (target ∷ [])

-- What follows the loop over the neighbours: the path if the target was met, or the next round.
abbrev pub finish_or :
    String
    → String
    → (Frontier → Option (Option (List String)))
    → Bool × Frontier
    → Option (Option (List String))
finish_or source target next (true, s) = Option.map some (reconstruct s.parent source target)
finish_or source target next (false, s) = next s

module _ {S : Type 0} where
  -- The loop over the neighbours of `current`; true if it meets the target.
  unfoldable pub scan_neighbors :
      String → String → List (ServiceEdge S) → Frontier → Bool × Frontier
  scan_neighbors current target [] s = (false, s)
  scan_neighbors current target (neighbor ∷ others) s = elim (contains neighbor.target s.visited) [
    | true ↦ scan_neighbors current target others s
    | false ↦
        let s' = record s {
          visited = neighbor.target ∷ s.visited;
          parent = store s.parent neighbor.target current;
        } in
        elim (neighbor.target == target) [
          | true ↦ (true, s')
          | false ↦
              scan_neighbors current target others
                (record s' { queue = s.queue ++ neighbor.target ∷ [] })
        ]
  ]

  -- The outer loop, a round for each name taken from the queue. The outer option is lack of fuel,
  -- the inner one is `found`.
  unfoldable pub bfs_loop :
      ℕ
      → ServiceGraph S
      → String
      → String
      → List String
      → List String
      → GoMap String String
      → Option (Option (List String))
  bfs_loop zero sg source target queue visited parent = none
  bfs_loop (suc fuel) sg source target [] visited parent = some none
  bfs_loop (suc fuel) sg source target (current ∷ queue) visited parent =
      finish_or source target (λ s. bfs_loop fuel sg source target s.queue s.visited s.parent)
        (scan_neighbors current target (sg.outgoing current)
          (record { queue = queue; visited = visited; parent = parent }))

  -- A name enters the queue once.
  unfoldable pub shortest_path : ServiceGraph S → String → String → Option (Option (List String))
  shortest_path sg source target =
      if source == target
      then some (some (source ∷ []))
      else bfs_loop (length sg.nodes + 2) sg source target (source ∷ []) (source ∷ []) []
