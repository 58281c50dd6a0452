-- ===== src/Rca/ServiceGraph/Added.antt =====
-- What `AddEdge` does to the map of edges and to the adjacency lists.
use mathlib.Core.List.{Perm, append_assoc, append-nil}
use mathlib.Core.Path.{subst}
use mirador_core.Prelude.{
  ◌≡◌, refl, sym, ◌∙◌, Bool, true, false, ◌&&◌, ◌||◌, some, List, [], ◌∷◌, ◌++◌, String, arith,
  if◌then◌else◌, ◌==◌, keep, store, fetch-store, contains, string_keys, pair_keys,
}
use mirador_core.Prelude.Strings.{str_ltb, str_ltb_asymm}
use mirador_core.Prelude.Sorting.{IsSorted, sort_by-IsSorted, sort_by-perm}
use mirador_core.Rca.ServiceGraph.Defs.{
  ServiceGraph, ServiceEdge, append_at, index_edges, by_target, by_source, values, rebuild_indexes,
  add_edge, get_edge, mark,
}
use mirador_core.Rca.ServiceGraph.Index.{contains-mark, IsConsistent, add_edge-IsConsistent}

module _ {S : Type 0} where
  kept :
      (b : Bool) (xs : List (ServiceEdge S)) (e : ServiceEdge S) (ys : List (ServiceEdge S))
      → (if b then xs ++ (e ∷ []) else xs) ++ ys ≡ xs ++ (if b then e ∷ ys else ys)
  kept true xs e ys = append_assoc xs (e ∷ []) ys
  kept false xs e ys = refl

  index_edges-keep :
      (key : ServiceEdge S → String) (n : String) (es : List (ServiceEdge S))
      (m : String → List (ServiceEdge S))
      → index_edges key es m n ≡ m n ++ keep (λ e. key e == n) es
  unfolding index_edges
  index_edges-keep key n [] m = sym (append-nil (m n))
  index_edges-keep key n (e ∷ es) m =
      index_edges-keep key n es (append_at m (key e) e)
      ∙ kept (key e == n) (m n) e (keep (λ e'. key e' == n) es)

  -- The lists of a service are the edges of the map that leave it, sorted by their targets, and those
  -- that enter it, sorted by their sources.
  pub record IsIndexed (sg : ServiceGraph S) : Type 0 where
    pub leaving : (n : String) → Perm (sg.outgoing n) (keep (λ e. e.source == n) (values sg.edges))
    pub entering : (n : String) → Perm (sg.incoming n) (keep (λ e. e.target == n) (values sg.edges))
    pub by_targets : (n : String) → IsSorted (λ a b. str_ltb a.target b.target) (sg.outgoing n)
    pub by_sources : (n : String) → IsSorted (λ a b. str_ltb a.source b.source) (sg.incoming n)

  rebuild_indexes-IsIndexed : (sg : ServiceGraph S) → IsIndexed (rebuild_indexes sg)
  unfolding rebuild_indexes
  rebuild_indexes-IsIndexed sg = record {
    leaving = λ n.
        subst (Perm _) (index_edges-keep (λ e. e.source) n (values sg.edges) (λ _. []))
          (sort_by-perm by_target (index_edges (λ e. e.source) (values sg.edges) (λ _. []) n));
    entering = λ n.
        subst (Perm _) (index_edges-keep (λ e. e.target) n (values sg.edges) (λ _. []))
          (sort_by-perm by_source (index_edges (λ e. e.target) (values sg.edges) (λ _. []) n));
    by_targets = λ n. sort_by-IsSorted by_target (λ a b. str_ltb_asymm a.target b.target) _;
    by_sources = λ n. sort_by-IsSorted by_source (λ a b. str_ltb_asymm a.source b.source) _;
  }

  -- The edge is found between its ends, in place of one that was there, and every other pair of
  -- services has the edge that it had; both ends are nodes, and so is what was one.
  pub record Adds (sg : ServiceGraph S) (edge : ServiceEdge S) (after : ServiceGraph S)
      : Type 0 where
    pub consistent : IsConsistent after
    pub indexed : IsIndexed after
    pub found :
        (a b : String)
        → get_edge after a b
          ≡ (if edge.source == a && edge.target == b then some edge else get_edge sg a b)
    pub noted :
        (a : String)
        → contains a after.nodes ≡ (edge.source == a || edge.target == a || contains a sg.nodes)

  -- `AddEdge` keeps a consistent graph consistent: the edge is found between its ends, in place of one
  -- that was there, and every other pair of services has the edge that it had. Both ends are nodes, and
  -- so is what was one. The lists of each service are exactly the edges of the map that leave it, and
  -- those that enter it, sorted by the names at their other ends.
  pub add_edge_lem :
      (sg : ServiceGraph S) (edge : ServiceEdge S)
      → IsConsistent sg
      → Adds sg edge (add_edge sg edge)
  unfolding add_edge get_edge rebuild_indexes
  add_edge_lem sg edge c = record {
    consistent = add_edge-IsConsistent sg edge c;
    indexed = rebuild_indexes-IsIndexed (record sg {
      edges = store sg.edges (edge.source, edge.target) edge;
      nodes = mark edge.target (mark edge.source sg.nodes);
    });
    found = λ a b. fetch-store sg.edges (edge.source, edge.target) edge (a, b);
    noted = λ a. ground (
      arith,
      contains-mark edge.target a (mark edge.source sg.nodes),
      contains-mark edge.source a sg.nodes,
    );
  }
