-- ===== src/Rca/ServiceGraph/Index.antt =====
-- The adjacency lists agree with the map of edges, after every method.
use mathlib.Core.List.{map-append}
use mirador_core.Prelude.{
  ◌≡◌, refl, ◌∙◌, Bool, true, false, ◌||◌, Option, none, some, List, [], ◌∷◌, ◌++◌, map, String,
  arith, ◌==◌, contains, keep, All, fetch, store, string_keys, pair_keys, same_refl, Bool-cases,
  inl, inr, contains-append,
}
use mirador_core.Prelude.Sorting.{sort_by, contains-sort_by}
use mirador_core.Rca.ServiceGraph.Defs.{
  ServiceGraph, ServiceEdge, new_service_graph, append_at, index_edges, by_target, by_source,
  values, rebuild_indexes, add_edge, get_edge, clear, mark,
}
use mirador_core.Rca.ServiceGraph.Search.{targets}

abbrev pub is_some {ℓ} : {A : Type ℓ} → Option A → Bool
is_some none = false
is_some (some _) = true

pub contains-mark :
    (k a : String) (s : List String) → contains a (mark k s) ≡ (k == a || contains a s)
contains-mark k a s = ground (arith, contains-append a s (k ∷ []), string_keys.same_iff k a)

module _ {S : Type 0} where
  abbrev pub sources : List (ServiceEdge S) → List String
  sources = map (λ e. e.source)

  -- An entry stands under the ends of its edge, and both are nodes.
  abbrev pub IsEntry : List String → (String × String) × ServiceEdge S → Type 0
  IsEntry nodes entry =
      (entry.0.0 ≡ entry.1.source)
      × (entry.0.1 ≡ entry.1.target)
      × (contains entry.0.0 nodes ≡ true)
      × (contains entry.0.1 nodes ≡ true)

  pub record IsConsistent (sg : ServiceGraph S) : Type 0 where
    pub entries : All (IsEntry sg.nodes) sg.edges
    pub outgoing_built : (n : String) → sg.outgoing n ≡ (rebuild_indexes sg).outgoing n
    pub incoming_built : (n : String) → sg.incoming n ≡ (rebuild_indexes sg).incoming n

  contains-map-append :
      (end : ServiceEdge S → String) (b : String) (xs ys : List (ServiceEdge S))
      → contains b (map end (xs ++ ys)) ≡ (contains b (map end xs) || contains b (map end ys))
  contains-map-append end b xs ys =
      rw (map-append end xs ys) (contains-append b (map end xs) (map end ys))

  contains-index_edges :
      (key end : ServiceEdge S → String) (n b : String) (es : List (ServiceEdge S))
      (m : String → List (ServiceEdge S))
      → contains b (map end (index_edges key es m n))
        ≡ (contains b (map end (m n)) || contains b (map end (keep (λ e. key e == n) es)))
  unfolding index_edges
  contains-index_edges key end n b [] m = ground arith
  contains-index_edges key end n b (e ∷ es) m =
      contains-index_edges key end n b es (append_at m (key e) e)
      ∙ ground (arith, contains-map-append end b (m n) (e ∷ []))

  -- The edges that leave `a` and those that enter `b`, read off the map.
  contains-leaving :
      (nodes : List String) (a b : String) (m : List ((String × String) × ServiceEdge S))
      → All (IsEntry nodes) m
      → contains b (targets (keep (λ e. e.source == a) (values m))) ≡ is_some (fetch m (a, b))
  unfolding fetch
  contains-leaving nodes a b [] h = refl
  contains-leaving nodes a b (((s, t), e) ∷ m) h = ground (arith, contains-leaving nodes a b m h.1)

  contains-entering :
      (nodes : List String) (a b : String) (m : List ((String × String) × ServiceEdge S))
      → All (IsEntry nodes) m
      → contains a (sources (keep (λ e. e.target == b) (values m))) ≡ is_some (fetch m (a, b))
  unfolding fetch
  contains-entering nodes a b [] h = refl
  contains-entering nodes a b (((s, t), e) ∷ m) h =
      ground (arith, contains-entering nodes a b m h.1)

  -- The adjacency list of outgoing edges names a service exactly when the map has the edge.
  pub outgoing-get_edge :
      (sg : ServiceGraph S) (a b : String)
      → IsConsistent sg
      → contains b (targets (sg.outgoing a)) ≡ is_some (get_edge sg a b)
  unfolding rebuild_indexes get_edge
  outgoing-get_edge sg a b c = rw (c.outgoing_built a) (
      contains-sort_by (λ e. e.target) b by_target
        (index_edges (λ e. e.source) (values sg.edges) (λ _. []) a)
      ∙ contains-index_edges (λ e. e.source) (λ e. e.target) a b (values sg.edges) (λ _. [])
      ∙ contains-leaving sg.nodes a b sg.edges c.entries)

  pub incoming-get_edge :
      (sg : ServiceGraph S) (a b : String)
      → IsConsistent sg
      → contains a (sources (sg.incoming b)) ≡ is_some (get_edge sg a b)
  unfolding rebuild_indexes get_edge
  incoming-get_edge sg a b c = rw (c.incoming_built b) (
      contains-sort_by (λ e. e.source) a by_source
        (index_edges (λ e. e.target) (values sg.edges) (λ _. []) b)
      ∙ contains-index_edges (λ e. e.target) (λ e. e.source) b a (values sg.edges) (λ _. [])
      ∙ contains-entering sg.nodes a b sg.edges c.entries)

  entries-mark :
      (k : String) (nodes : List String) (m : List ((String × String) × ServiceEdge S))
      → All (IsEntry nodes) m
      → All (IsEntry (mark k nodes)) m
  entries-mark k nodes [] h = tt
  entries-mark k nodes ((ends, e) ∷ m) h = (
    (
      h.0.0,
      h.0.1,
      ground (arith, contains-mark k ends.0 nodes),
      ground (arith, contains-mark k ends.1 nodes),
    ),
    entries-mark k nodes m h.1,
  )

  entries-store :
      (nodes : List String) (e : ServiceEdge S) (m : List ((String × String) × ServiceEdge S))
      → contains e.source nodes ≡ true
      → contains e.target nodes ≡ true
      → All (IsEntry nodes) m
      → All (IsEntry nodes) (store m (e.source, e.target) e)
  unfolding store
  entries-store nodes e [] hs ht h = ((refl, refl, hs, ht), tt)
  entries-store nodes e ((ends, f) ∷ m) hs ht h = elim (Bool-cases (ends == (e.source, e.target))) [
    | inl q ↦ rw q ((refl, refl, hs, ht), h.1)
    | inr q ↦ rw q (h.0, entries-store nodes e m hs ht h.1)
  ]

  -- An empty graph is consistent, and `AddEdge` and `Clear` keep the graph consistent.
  pub new_service_graph-IsConsistent : IsConsistent (new_service_graph {S = S})
  unfolding new_service_graph rebuild_indexes index_edges sort_by
  new_service_graph-IsConsistent = record {
    entries = tt;
    outgoing_built = λ n. refl;
    incoming_built = λ n. refl;
  }

  pub clear-IsConsistent : (sg : ServiceGraph S) → IsConsistent (clear sg)
  unfolding clear rebuild_indexes index_edges sort_by
  clear-IsConsistent sg = record {
    entries = tt;
    outgoing_built = λ n. refl;
    incoming_built = λ n. refl;
  }

  pub add_edge-IsConsistent :
      (sg : ServiceGraph S) (e : ServiceEdge S) → IsConsistent sg → IsConsistent (add_edge sg e)
  unfolding add_edge rebuild_indexes
  add_edge-IsConsistent sg e c = record {
    entries =
        entries-store nodes e sg.edges
          (rw (contains-mark e.target e.source (mark e.source sg.nodes))
            (rw (contains-mark e.source e.source sg.nodes, same_refl e.source) (ground arith)))
          (rw (contains-mark e.target e.target (mark e.source sg.nodes))
            (rw (same_refl e.target) refl))
          (entries-mark e.target (mark e.source sg.nodes) sg.edges
            (entries-mark e.source sg.nodes sg.edges c.entries));
    outgoing_built = λ n. refl;
    incoming_built = λ n. refl;
  }
    where
      nodes : List String
      nodes = mark e.target (mark e.source sg.nodes)
