-- ===== src/Rca/Tests.antt =====
-- Runs of the analysis engine on small inputs, and the theorems at those inputs.
use mirador_core.Prelude.{
  ◌≡◌, refl, ◌≢◌, ◌↔◌, Bool, true, some, List, [], ◌∷◌, String, string_keys, store, fetch,
}
use mirador_core.Prelude.Int.{pos, time_sub, ◌-ℤ◌}
use mirador_core.Prelude.Sorting.{sort_by, insert_by}
use mirador_core.Rca.TimeRing.{
  TimeRing, ring_immediate, ring_short, ring_long, default_time_ring_config, assign_time_ring,
  ring_of_distance,
}
use mirador_core.Rca.ServiceGraph
use mirador_core.Rca.ServiceGraph.ShortestPath
use mirador_core.Rca.ServiceGraph.ShortestPath.{
  shortest_path, bfs_loop, scan_neighbors, walk_back, Answers,
}
use mirador_core.Rca.ServiceGraph.{
  ServiceEdge, ServiceGraph, new_service_graph, add_edge, get_edge, is_upstream, has_path,
  any_neighbor, rebuild_indexes, index_edges, downstream, upstream, neighbors, is_some,
  IsConsistent, Adds, DependsOn,
}

assign_short :
    assign_time_ring (pos 60_000_000_000) (pos 50_000_000_000) default_time_ring_config ≡ ring_short
unfolding assign_time_ring ring_of_distance time_sub ◌-ℤ◌
assign_short = refl

abbrev rings : List TimeRing
rings = ring_long ∷ ring_immediate ∷ ring_short ∷ []

abbrev call : String → String → ServiceEdge (Unit {0})
call a b = record { source = a; target = b; stats = tt }

-- gateway → api → db, and a call back from api to gateway.
abbrev shop : ServiceGraph (Unit {0})
shop =
    add_edge (add_edge (add_edge new_service_graph (call "gateway" "api")) (call "api" "gateway"))
      (call "api" "db")

shop-IsConsistent : IsConsistent shop
shop-IsConsistent = ServiceGraph.add_edge-IsConsistent _ _ (
    ServiceGraph.add_edge-IsConsistent _ _
      (ServiceGraph.add_edge-IsConsistent _ _ ServiceGraph.new_service_graph-IsConsistent))

shop_runs :
    (is_upstream shop "gateway" "db" ≡ some true) × (downstream shop "api" ≡ "db" ∷ "gateway" ∷ [])
unfolding is_upstream has_path any_neighbor add_edge new_service_graph rebuild_indexes index_edges
    sort_by insert_by downstream store
shop_runs = (refl, refl)

add_edge_lem_example :
    Adds new_service_graph
      (call "gateway" "api")
      (add_edge new_service_graph (call "gateway" "api"))
add_edge_lem_example =
    ServiceGraph.add_edge_lem new_service_graph (call "gateway" "api")
      ServiceGraph.new_service_graph-IsConsistent

is_upstream_example :
    (answer : Bool) × (is_upstream shop "gateway" "db" ≡ some answer)
    × ((answer ≡ true) ↔ ((◌≢◌ {A = String} "gateway" "db") × DependsOn shop "db" "gateway"))
is_upstream_example = ServiceGraph.is_upstream_lem shop "gateway" "db" shop-IsConsistent

shortest_path_example : Answers shop "gateway" "db" (shortest_path shop "gateway" "db")
shortest_path_example = ShortestPath.shortest_path_lem shop "gateway" "db" shop-IsConsistent

shortest_runs : shortest_path shop "gateway" "db" ≡ some (some ("gateway" ∷ "api" ∷ "db" ∷ []))
unfolding shortest_path bfs_loop scan_neighbors walk_back add_edge new_service_graph rebuild_indexes
    index_edges sort_by insert_by store fetch
shortest_runs = refl
