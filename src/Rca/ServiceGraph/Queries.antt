-- ===== src/Rca/ServiceGraph/Queries.antt =====
-- What the queries of a consistent graph answer, in terms of its edges.
use mirador_core.Prelude.{
  ◌≡◌, refl, ◌∙◌, ap, sym, ◌≢◌, ◌↔◌, Bool, true, ◌||◌, some, List, [], ◌∷◌, ◌++◌, map, String,
  arith, if◌then◌else◌, ◌==◌, contains, All, fetch, fetch-store, string_keys, pair_keys,
  contains-append,
}
use mirador_core.Prelude.Strings.{str_ltb, str_ltb_asymm}
use mirador_core.Prelude.Sorting.{sort_by, IsSorted, sort_by-IsSorted, contains-sort_by}
use mirador_core.Rca.ServiceGraph.Defs.{
  ServiceGraph, ServiceEdge, rebuild_indexes, add_edge, get_edge, downstream, upstream, neighbors,
  collect_new, is_upstream,
}
use mirador_core.Rca.ServiceGraph.Search.{
  targets, IsClosed, Reaches, arrived, along, is_upstream_iff,
}
use mirador_core.Rca.ServiceGraph.Index.{
  is_some, sources, IsConsistent, IsEntry, outgoing-get_edge, incoming-get_edge,
}

map_same : (xs : List String) → map (λ x. x) xs ≡ xs
map_same [] = refl
map_same (x ∷ xs) = ap (◌∷◌ x) (map_same xs)

contains-sorted : (a : String) (xs : List String) → contains a (sort_by str_ltb xs) ≡ contains a xs
contains-sorted a xs =
    let p = contains-sort_by (λ x. x) a str_ltb xs in
    rw (map_same (sort_by str_ltb xs), map_same xs) at p

module _ {S : Type 0} where
  -- After `AddEdge` the pair of its ends reads as the new edge, and every other pair as before.
  pub get_edge-add_edge :
      (sg : ServiceGraph S) (e : ServiceEdge S) (a b : String)
      → get_edge (add_edge sg e) a b ≡ (
          if ◌==◌ {K = String × String} (e.source, e.target) (a, b)
          then some e
          else get_edge sg a b)
  unfolding get_edge add_edge rebuild_indexes
  get_edge-add_edge sg e a b = fetch-store sg.edges (e.source, e.target) e (a, b)

  -- There is a directed path of edges of the map from the second service to the first.
  pub data DependsOn (sg : ServiceGraph S) (to : String) : String → Type 0 where
    itself : DependsOn sg to to
    calls :
        {a b : String} → is_some (get_edge sg a b) ≡ true → DependsOn sg to b → DependsOn sg to a

  DependsOn-Reaches :
      {sg : ServiceGraph S} {to a : String} → IsConsistent sg → DependsOn sg to a → Reaches sg to a
  DependsOn-Reaches c itself = arrived
  DependsOn-Reaches {sg} c (calls {a = a} {b = b} h p) =
      along (outgoing-get_edge sg a b c ∙ h) (DependsOn-Reaches c p)

  Reaches-DependsOn :
      {sg : ServiceGraph S} {to a : String} → IsConsistent sg → Reaches sg to a → DependsOn sg to a
  Reaches-DependsOn c arrived = itself
  Reaches-DependsOn {sg} c (along {a = a} {b = b} h p) =
      calls (sym (outgoing-get_edge sg a b c) ∙ h) (Reaches-DependsOn c p)

  fetch-is_node :
      (nodes : List String) (a b : String) (m : List ((String × String) × ServiceEdge S))
      → All (IsEntry nodes) m
      → is_some (fetch m (a, b)) ≡ true
      → contains b nodes ≡ true
  unfolding fetch
  fetch-is_node nodes a b [] h k = cc
  fetch-is_node nodes a b (((s, t), e) ∷ m) h k =
      ground
        (arith, string_keys.same_iff t b, string_keys.same_iff s a, fetch-is_node nodes a b m h.1)

  pub IsConsistent-IsClosed : (sg : ServiceGraph S) → IsConsistent sg → IsClosed sg
  unfolding get_edge
  IsConsistent-IsClosed sg c a b h =
      fetch-is_node sg.nodes a b sg.edges c.entries (sym (outgoing-get_edge sg a b c) ∙ h)

  -- On a consistent graph `IsUpstream` never runs out of nodes to mark: it answers, and the answer
  -- is true exactly when the services differ and a path of edges leads from the first to the second.
  pub is_upstream_lem :
      (sg : ServiceGraph S) (from to : String)
      → IsConsistent sg
      → (answer : Bool) × (is_upstream sg from to ≡ some answer)
        × ((answer ≡ true) ↔ ((from ≢ to) × DependsOn sg to from))
  is_upstream_lem sg from to c =
      let (answer, done, iff) = is_upstream_iff sg from to (IsConsistent-IsClosed sg c) in
      (
        answer,
        done,
        (
          (λ x. ((iff.0 x).0, Reaches-DependsOn c (iff.0 x).1)),
          (λ x. iff.1 (x.0, DependsOn-Reaches c x.1)),
        ),
      )

  -- On a consistent graph `Downstream` lists, in order, exactly the services that an edge of the map
  -- leads to.
  pub downstream_lem :
      (sg : ServiceGraph S) (a : String)
      → IsConsistent sg
      → IsSorted str_ltb (downstream sg a)
        × ((b : String) → contains b (downstream sg a) ≡ is_some (get_edge sg a b))
  unfolding downstream
  downstream_lem sg a c = (
    sort_by-IsSorted str_ltb str_ltb_asymm (targets (sg.outgoing a)),
    λ b. contains-sorted b (targets (sg.outgoing a)) ∙ outgoing-get_edge sg a b c,
  )

  -- On a consistent graph `Upstream` lists, in order, exactly the services that an edge of the map
  -- comes from.
  pub upstream_lem :
      (sg : ServiceGraph S) (b : String)
      → IsConsistent sg
      → IsSorted str_ltb (upstream sg b)
        × ((a : String) → contains a (upstream sg b) ≡ is_some (get_edge sg a b))
  unfolding upstream
  upstream_lem sg b c = (
    sort_by-IsSorted str_ltb str_ltb_asymm (sources (sg.incoming b)),
    λ a. contains-sorted a (sources (sg.incoming b)) ∙ incoming-get_edge sg a b c,
  )

  contains-collect_new :
      (end : ServiceEdge S → String) (b : String) (es : List (ServiceEdge S)) (acc : List String)
      → contains b (collect_new end es acc) ≡ (contains b acc || contains b (map end es))
  unfolding collect_new
  contains-collect_new end b [] acc = ground arith
  contains-collect_new end b (e ∷ es) acc = ground (
    arith,
    string_keys.same_iff (end e) b,
    contains-append b acc (end e ∷ []),
    contains-collect_new end b es acc,
    contains-collect_new end b es (acc ++ end e ∷ []),
  )

  -- On a consistent graph `Neighbors` lists, in order, exactly the services with an edge of the map
  -- to or from the given one.
  pub neighbors_lem :
      (sg : ServiceGraph S) (a : String)
      → IsConsistent sg
      → IsSorted str_ltb (neighbors sg a)
        × ((b : String)
            → contains b (neighbors sg a)
              ≡ (is_some (get_edge sg a b) || is_some (get_edge sg b a)))
  unfolding neighbors
  neighbors_lem sg a c = (
    sort_by-IsSorted str_ltb str_ltb_asymm _,
    λ b.
        contains-sorted b _
        ∙ contains-collect_new (λ e. e.source) b (sg.incoming a) _
        ∙ ground (
          arith,
          contains-collect_new (λ e. e.target) b (sg.outgoing a) [],
          outgoing-get_edge sg a b c,
          incoming-get_edge sg b a c,
        ),
  )
