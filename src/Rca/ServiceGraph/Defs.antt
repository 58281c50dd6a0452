-- ===== src/Rca/ServiceGraph/Defs.antt =====
-- State and methods of `ServiceGraph`.
use mirador_core.Prelude.{
  ℕ, zero, suc, ◌+◌, Bool, true, false, Option, none, some, List, [], ◌∷◌, ◌++◌, map, String,
  if◌then◌else◌, length, ◌==◌, contains, fetch, store, not, string_keys, pair_keys,
}
use mirador_core.Prelude.Strings.{str_ltb}
use mirador_core.Prelude.Sorting.{sort_by}

pub record ServiceEdge (S : Type 0) : Type 0 where
  pub source : String
  pub target : String
  pub stats : S

pub record ServiceGraph (S : Type 0) : Type 0 where
  pub edges : List ((String × String) × ServiceEdge S)
  pub outgoing : String → List (ServiceEdge S)
  pub incoming : String → List (ServiceEdge S)
  pub nodes : List String

-- `m[k] = true` on a set.
abbrev pub mark : String → List String → List String
mark k s = if contains k s then s else s ++ k ∷ []

-- What the loop of `hasPath` does with the result for one neighbour: stop, or go on with the
-- names visited. `none` is lack of fuel.
abbrev pub or_else :
    (List String → Option (Bool × List String))
    → Option (Bool × List String)
    → Option (Bool × List String)
or_else rest none = none
or_else rest (some (true, visited)) = some (true, visited)
or_else rest (some (false, visited)) = rest visited

module _ {S : Type 0} where
  unfoldable pub new_service_graph : ServiceGraph S
  new_service_graph = record { edges = []; outgoing = λ n. []; incoming = λ n. []; nodes = [] }

  -- `m[k] = append(m[k], edge)`.
  abbrev pub append_at :
      (String → List (ServiceEdge S)) → String → ServiceEdge S → String → List (ServiceEdge S)
  append_at m k edge n = if k == n then m n ++ edge ∷ [] else m n

  -- The loop over `sg.edges` that fills one of the adjacency maps.
  unfoldable pub index_edges :
      (ServiceEdge S → String)
      → List (ServiceEdge S)
      → (String → List (ServiceEdge S))
      → String
      → List (ServiceEdge S)
  index_edges key [] m = m
  index_edges key (edge ∷ edges) m = index_edges key edges (append_at m (key edge) edge)

  abbrev pub by_target : ServiceEdge S → ServiceEdge S → Bool
  by_target a b = str_ltb a.target b.target

  abbrev pub by_source : ServiceEdge S → ServiceEdge S → Bool
  by_source a b = str_ltb a.source b.source

  abbrev pub values : List ((String × String) × ServiceEdge S) → List (ServiceEdge S)
  values = map (λ entry. entry.1)

  unfoldable pub rebuild_indexes : ServiceGraph S → ServiceGraph S
  rebuild_indexes sg =
      let all = values sg.edges in
      record sg {
        outgoing = λ n. sort_by by_target (index_edges (λ e. e.source) all (λ _. []) n);
        incoming = λ n. sort_by by_source (index_edges (λ e. e.target) all (λ _. []) n);
      }

  unfoldable pub add_edge : ServiceGraph S → ServiceEdge S → ServiceGraph S
  add_edge sg edge = rebuild_indexes (record sg {
    edges = store sg.edges (edge.source, edge.target) edge;
    nodes = mark edge.target (mark edge.source sg.nodes);
  })

  unfoldable pub get_edge : ServiceGraph S → String → String → Option (ServiceEdge S)
  get_edge sg source target = fetch sg.edges (source, target)

  -- One of the two loops of `Neighbors`; the names appended so far are those seen.
  unfoldable pub collect_new :
      (ServiceEdge S → String) → List (ServiceEdge S) → List String → List String
  collect_new end [] neighbors = neighbors
  collect_new end (edge ∷ edges) neighbors =
      collect_new end edges
        (if contains (end edge) neighbors then neighbors else neighbors ++ end edge ∷ [])

  unfoldable pub neighbors : ServiceGraph S → String → List String
  neighbors sg service = sort_by str_ltb (
      collect_new (λ e. e.source) (sg.incoming service)
        (collect_new (λ e. e.target) (sg.outgoing service) []))

  unfoldable pub downstream : ServiceGraph S → String → List String
  downstream sg service = sort_by str_ltb (map (λ e. e.target) (sg.outgoing service))

  unfoldable pub upstream : ServiceGraph S → String → List String
  upstream sg service = sort_by str_ltb (map (λ e. e.source) (sg.incoming service))

  unfoldable pub all_nodes : ServiceGraph S → List String
  all_nodes sg = sort_by str_ltb sg.nodes

  abbrev pub by_ends : ServiceEdge S → ServiceEdge S → Bool
  by_ends a b = if not (a.source == b.source) then by_source a b else by_target a b

  unfoldable pub all_edges : ServiceGraph S → List (ServiceEdge S)
  all_edges sg = sort_by by_ends (values sg.edges)

  unfoldable pub size : ServiceGraph S → ℕ
  size sg = length sg.nodes

  unfoldable pub edge_count : ServiceGraph S → ℕ
  edge_count sg = length sg.edges

  unfoldable pub clear : ServiceGraph S → ServiceGraph S
  clear sg = record { edges = []; outgoing = λ n. []; incoming = λ n. []; nodes = [] }

  unfoldable pub any_neighbor :
      (String → List String → Option (Bool × List String))
      → List (ServiceEdge S)
      → List String
      → Option (Bool × List String)
  any_neighbor visit [] visited = some (false, visited)
  any_neighbor visit (edge ∷ edges) visited =
      or_else (any_neighbor visit edges) (visit edge.target visited)

  -- `hasPath`, with the set `visited` passed on and fuel for the depth of the recursion.
  unfoldable pub has_path :
      ℕ → ServiceGraph S → String → String → List String → Option (Bool × List String)
  has_path zero sg target current visited = none
  has_path (suc fuel) sg target current visited =
      let deeper =
        any_neighbor (has_path fuel sg target) (sg.outgoing current) (current ∷ visited) in
      if current == target
      then some (true, visited)
      else if contains current visited
      then some (false, visited)
      else deeper

  -- A call marks a node that was not marked, so the recursion is no deeper than the nodes are many.
  unfoldable pub is_upstream : ServiceGraph S → String → String → Option Bool
  is_upstream sg from to =
      if from == to then some false else elim (has_path (length sg.nodes + 2) sg to from []) [
        | none ↦ none
        | some (found, _) ↦ some found
      ]
