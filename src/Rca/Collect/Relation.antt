-- ===== src/Rca/Collect/Relation.antt =====
-- How a service stands to the impact in the graph.
use mirador_core.Prelude.{◌≡◌, ◌≢◌, some, List, String, length, string_keys}
use mirador_core.Prelude.Int.{ℤ, pos, negsuc, ◌-ℤ◌}
use mirador_core.Rca.Events.{
  direction_upstream, direction_downstream, direction_same, direction_unknown,
}
use mirador_core.Rca.ServiceGraph.{ServiceGraph, Reaches}
use mirador_core.Rca.ServiceGraph.ShortestPath.{IsShortest}

module _ {S : Type 0} where
  -- The direction of a service and its distance to the impact: the same service at distance 0; a
  -- service with a path to the impact, at the length of a shortest one; a service with a path only
  -- from the impact, likewise; or one with no path either way, at distance -1.
  pub data Stands (sg : ServiceGraph S) (service impact : String) (at : String × ℤ) : Type 0 where
    same_service : service ≡ impact → at ≡ (direction_same, pos 0) → Stands sg service impact at
    above :
        (path : List String)
        → service ≢ impact
        → IsShortest sg service impact (some path)
        → at ≡ (direction_upstream, pos (length path) -ℤ pos 1)
        → Stands sg service impact at
    below :
        (path : List String)
        → service ≢ impact
        → (Reaches sg impact service → ⊥)
        → IsShortest sg impact service (some path)
        → at ≡ (direction_downstream, pos (length path) -ℤ pos 1)
        → Stands sg service impact at
    apart :
        service ≢ impact
        → (Reaches sg impact service → ⊥)
        → (Reaches sg service impact → ⊥)
        → at ≡ (direction_unknown, negsuc 0)
        → Stands sg service impact at
