-- ===== src/Rca/ServiceGraph/ShortestPath/Scan.antt =====
-- One round of the search keeps the invariant of the depths, or meets the target.
use mirador_core.Prelude.{
  ℕ, suc, ◌+◌, ◌≤◌, ◌≡◌, ◌≢◌, inl, inr, Bool, true, false, List, [], ◌∷◌, ◌++◌, String, arith,
  if◌then◌else◌, length, length-append, ◌==◌, contains, contains-append, Subset, string_keys, GoMap,
  store, fetch-store, length-store_new, eq_of_same, ne_of_not_same, same_refl, Bool-cases,
}
use mirador_core.Prelude.Remaining.{remaining, remaining_cons, subset_cons}
use mirador_core.Rca.ServiceGraph.Defs.{ServiceGraph, ServiceEdge}
use mirador_core.Rca.ServiceGraph.Search.{HasEdge, targets}
use mirador_core.Rca.ServiceGraph.ShortestPath.Defs.{Frontier, scan_neighbors}
use mirador_core.Rca.ServiceGraph.ShortestPath.Depths.{Layered-snoc, Layered-agree, Traced, Inv}

abbrev pub raise : (String → ℕ) → String → ℕ → String → ℕ
raise depth x k n = if x == n then k else depth n

pub raise_old :
    (depth : String → ℕ) (x : String) (k : ℕ) (v : List String)
    → contains x v ≡ false
    → (n : String) → contains n v ≡ true
    → raise depth x k n ≡ depth n
raise_old depth x k v h n c = ground (arith, string_keys.same_iff x n)

module _ {S : Type 0} (sg : ServiceGraph S) (source target : String) where
  module _ (depth : String → ℕ) (k : ℕ) (cur : String) (q v : List String)
      (parent : GoMap String String) (inv : Inv sg source target depth k (cur ∷ q) v parent)
      (at : depth cur ≡ k) (x : String) (new : contains x v ≡ false) (edge : HasEdge sg cur x) where
    cur_visited : contains cur v ≡ true
    cur_visited = inv.queued cur (rw (same_refl cur))

    pub mark-Traced :
        (n : String)
        → contains n (x ∷ v) ≡ true
        → Traced sg source (raise depth x (suc k)) (x ∷ v) (store parent x cur) n
    mark-Traced n h = elim (Bool-cases (x == n)) [
      | inl e ↦ inr (
        cur,
        rw (fetch-store parent x cur n, e),
        ground (arith, cur_visited),
        rw (← (eq_of_same x n e)) edge,
        rw e (rw (raise_old depth x (suc k) v new cur cur_visited, at)),
      )
      | inr e ↦ elim (inv.traced n (ground arith)) [
        | inl s ↦ inl s
        | inr (p, found, visited, link, level) ↦ inr (
          p,
          rw (fetch-store parent x cur n, e) found,
          ground arith,
          link,
          rw e (rw (raise_old depth x (suc k) v new p visited) level),
        )
      ]
    ]

    pub mark-Inv :
        x ≢ target
        → Inv sg source target
            (raise depth x (suc k))
            k
            (cur ∷ (q ++ x ∷ []))
            (x ∷ v)
            (store parent x cur)
    mark-Inv ne = record {
      source_depth =
          rw (raise_old depth x (suc k) v new source inv.source_visited) inv.source_depth;
      source_visited = ground (arith, inv.source_visited);
      traced = mark-Traced;
      fresh = λ n h. ground (arith, fetch-store parent x cur n, inv.fresh n);
      missed = ground (arith, inv.missed, string_keys.same_iff x target);
      queued = λ n h. ground (arith, contains-append n q (x ∷ []), inv.queued n);
      layered =
          Layered-snoc (raise depth x (suc k)) k (cur ∷ q) x
            (Layered-agree depth (raise depth x (suc k)) v (raise_old depth x (suc k) v new) k
              (cur ∷ q) inv.queued inv.layered)
            (rw (same_refl x));
      bounded = λ n h. ground (arith, inv.bounded n);
      shallow = λ n h. ground (
        arith,
        length-store_new parent x cur (inv.fresh x new),
        inv.shallow n,
        inv.shallow cur cur_visited,
      );
      closed = λ n h o b e.
          let nv : contains n v ≡ true = ground (arith, contains-append n q (x ∷ [])) in
          let (bv, le) = inv.closed n nv (ground (arith, contains-append n q (x ∷ []))) b e in
          (
            ground arith,
            rw (raise_old depth x (suc k) v new b bv, raise_old depth x (suc k) v new n nv) le,
          );
    }

  -- What the loop over the neighbours leaves: the target just marked, one level below the name in
  -- hand, while every shorter walk would have met it before; or the invariant, with all the neighbours
  -- visited, and the measure of the outer loop no larger.
  pub data Scanned (k : ℕ) (cur : String) (us : List String) (es : List (ServiceEdge S))
      (q v : List String) : Bool × Frontier → Type 0 where
    hit :
        (depth : String → ℕ) (s : Frontier) (x : String)
        → Inv sg source target depth k (cur ∷ s.queue) s.visited s.parent
        → depth cur ≡ k
        → HasEdge sg cur x
        → x ≡ target
        → Scanned k cur us es q v
            (true, record s { visited = x ∷ s.visited; parent = store s.parent x cur })
    pass :
        (depth : String → ℕ) (s : Frontier)
        → Inv sg source target depth k (cur ∷ s.queue) s.visited s.parent
        → depth cur ≡ k
        → Subset v s.visited
        → Subset (targets es) s.visited
        → length s.queue + remaining us s.visited ≤ length q + remaining us v
        → Scanned k cur us es q v (false, s)

  Scanned-weaken :
      (k : ℕ) (cur : String) (us : List String) (e : ServiceEdge S) (es : List (ServiceEdge S))
      (q v q' v' : List String) {r : Bool × Frontier}
      → Subset v v'
      → contains e.target v' ≡ true
      → length q' + remaining us v' ≤ length q + remaining us v
      → Scanned k cur us es q' v' r
      → Scanned k cur us (e ∷ es) q v r
  Scanned-weaken k cur us e es q v q' v' sub here m (hit depth s x inv at link t) =
      hit depth s x inv at link t
  Scanned-weaken k cur us e es q v q' v' sub here m (pass depth s inv at grow all le) =
      pass depth s inv at (λ n h. grow n (sub n h))
        (λ n h. ground (arith, string_keys.same_iff e.target n, grow e.target here, all n))
        (omega arith)

  pub scan_neighbors-Scanned :
      (depth : String → ℕ) (k : ℕ) (cur : String) (us : List String)
      → ((b : String) → HasEdge sg cur b → contains b us ≡ true)
      → (es : List (ServiceEdge S)) (q v : List String) (parent : GoMap String String)
      → Subset (targets es) (targets (sg.outgoing cur))
      → Inv sg source target depth k (cur ∷ q) v parent
      → depth cur ≡ k
      → Scanned k cur us es q v
          (scan_neighbors cur target es (record { queue = q; visited = v; parent = parent }))
  unfolding scan_neighbors
  scan_neighbors-Scanned depth k cur us inside [] q v parent sub inv at =
      pass depth _ inv at (λ n h. h) (λ n h. cc) (omega arith)
  scan_neighbors-Scanned depth k cur us inside (e ∷ es) q v parent sub inv at =
      elim (Bool-cases (contains e.target v)) [
        | inl old ↦
            rw (old, scan_neighbors)
              (Scanned-weaken k cur us e es q v q v (λ n h. h) old (omega arith)
                (scan_neighbors-Scanned depth k cur us inside es q v parent
                  (λ n h. sub n (ground arith)) inv at))
        | inr new ↦ elim (Bool-cases (e.target == target)) [
          | inl t ↦
              rw (new, t, scan_neighbors)
                (hit depth (record { queue = q; visited = v; parent = parent }) e.target inv at link
                  (eq_of_same e.target target t))
          | inr t ↦
              rw (new, t, scan_neighbors)
                (Scanned-weaken k cur us e es q v (q ++ e.target ∷ []) (e.target ∷ v)
                  (subset_cons e.target v) (rw (same_refl e.target))
                  (omega (
                    arith,
                    length-append q (e.target ∷ []),
                    remaining_cons e.target us v (inside e.target link) new,
                  ))
                  (scan_neighbors-Scanned (raise depth e.target (suc k)) k cur us inside es
                    (q ++ e.target ∷ []) (e.target ∷ v) (store parent e.target cur)
                    (λ n h. sub n (ground arith))
                    (mark-Inv depth k cur q v parent inv at e.target new link
                      (ne_of_not_same e.target target t))
                    (rw
                      (raise_old depth e.target (suc k) v new cur
                        (inv.queued cur (rw (same_refl cur))))
                      at)))
        ]
      ]
    where
      link : HasEdge sg cur e.target
      link = sub e.target (rw (same_refl e.target))
