-- ===== src/Rca/ServiceGraph/ShortestPath/Search.antt =====
-- The breadth-first search ends, and finds a shortest path if there is one.
use mirador_core.Prelude.{
  ℕ, zero, suc, ◌+◌, ◌≤◌, ◌<◌, ◌≡◌, refl, inl, inr, Bool, true, Option, none, some, List, [], ◌∷◌,
  String, arith, length, ◌==◌, contains, string_keys, GoMap, fetch, store, eq_of_same,
  ne_of_not_same, same_refl, Bool-cases, length-store_new, leb, ◌≢◌,
}
use mirador_core.Prelude.Remaining.{remaining, remaining-le-length}
use mirador_core.Rca.ServiceGraph.Defs.{ServiceGraph}
use mirador_core.Rca.ServiceGraph.Search.{HasEdge, IsClosed}
use mirador_core.Rca.ServiceGraph.Index.{IsConsistent}
use mirador_core.Rca.ServiceGraph.Queries.{IsConsistent-IsClosed}
use mirador_core.Rca.ServiceGraph.ShortestPath.Defs.{
  Frontier, bfs_loop, shortest_path, finish_or, reconstruct,
}
use mirador_core.Rca.ServiceGraph.ShortestPath.Depths.{
  Layered-tail, Layered-depth, Inv, Steps, start, more,
}
use mirador_core.Rca.ServiceGraph.ShortestPath.Scan.{
  Scanned, hit, pass, scan_neighbors-Scanned, mark-Traced, raise, raise_old,
}
use mirador_core.Rca.ServiceGraph.ShortestPath.Trace.{Walk, stop, walk_back-Walk}

module _ {S : Type 0} where
  -- No answer: no walk leads to the target. A path: it leads from the source to the target, and no
  -- walk has fewer edges (a path of n edges lists n + 1 names).
  abbrev pub IsShortest : ServiceGraph S → String → String → Option (List String) → Type 0
  IsShortest sg source target none = (n : ℕ) → Steps sg source target n → ⊥
  IsShortest sg source target (some path) =
      Walk sg target source path × ((n : ℕ) → Steps sg source target n → length path ≤ suc n)

  module _ (sg : ServiceGraph S) (source target : String) where
    abbrev pub Answers : Option (Option (List String)) → Type 0
    Answers r =
        (answer : Option (List String)) × (r ≡ some answer) × IsShortest sg source target answer

    -- The level of the queue is the depth of its head.
    Inv-level :
        (depth : String → ℕ) (k : ℕ) (cur : String) (q v : List String)
        (parent : GoMap String String)
        → Inv sg source target depth k (cur ∷ q) v parent
        → Inv sg source target depth (depth cur) (cur ∷ q) v parent
    Inv-level depth k cur q v parent inv = record {
      source_depth = inv.source_depth;
      source_visited = inv.source_visited;
      traced = inv.traced;
      fresh = inv.fresh;
      missed = inv.missed;
      queued = inv.queued;
      shallow = inv.shallow;
      closed = inv.closed;
      layered = inl (refl, Layered-tail depth k cur q inv.layered);
      bounded = λ n h. omega (
        arith,
        inv.bounded n h,
        Layered-depth depth k (cur ∷ q) cur inv.layered (rw (same_refl cur)),
      );
    }

    -- A walk no longer than the depth of the head has been followed.
    followed :
        (depth : String → ℕ) (cur : String) (q v : List String) (parent : GoMap String String)
        → Inv sg source target depth (depth cur) (cur ∷ q) v parent
        → {y : String} {n : ℕ} → Steps sg source y n
        → n ≤ depth cur
        → (contains y v ≡ true) × (depth y ≤ n)
    followed depth cur q v parent inv start le =
        (inv.source_visited, omega (arith, inv.source_depth))
    followed depth cur q v parent inv (more {a = a} {b = b} {n = n} st link) le =
        let (av, small) = followed depth cur q v parent inv st (omega arith) in
        elim (Bool-cases (contains a (cur ∷ q))) [
          | inl c ↦
              absurd (omega (arith, Layered-depth depth (depth cur) (cur ∷ q) a inv.layered c))
          | inr c ↦ let (bv, deep) = inv.closed a av c b link in (bv, omega arith)
        ]

    late :
        (depth : String → ℕ) (k : ℕ) (cur : String) (q v : List String)
        (parent : GoMap String String)
        → Inv sg source target depth k (cur ∷ q) v parent
        → depth cur ≡ k
        → {n : ℕ} → Steps sg source target n
        → suc k ≤ n
    late depth k cur q v parent inv at {n} st = elim (Bool-cases (leb n (depth cur))) [
      | inl e ↦ cc (
        (followed depth cur q v parent (Inv-level depth k cur q v parent inv) st (ground arith)).0,
        inv.missed,
      )
      | inr e ↦ ground arith
    ]

    -- With an empty queue, whatever a walk reaches has been visited.
    exhausted :
        (depth : String → ℕ) (k : ℕ) (v : List String) (parent : GoMap String String)
        → Inv sg source target depth k [] v parent
        → {y : String} {n : ℕ} → Steps sg source y n
        → contains y v ≡ true
    exhausted depth k v parent inv start = inv.source_visited
    exhausted depth k v parent inv (more {a = a} {b = b} st link) =
        (inv.closed a (exhausted depth k v parent inv st) refl b link).0

    -- The neighbours of the name in hand are visited, so it needs no more attention.
    Inv-dequeue :
        (depth : String → ℕ) (k : ℕ) (cur : String) (s : Frontier)
        → Inv sg source target depth k (cur ∷ s.queue) s.visited s.parent
        → depth cur ≡ k
        → ((b : String) → HasEdge sg cur b → contains b s.visited ≡ true)
        → Inv sg source target depth k s.queue s.visited s.parent
    Inv-dequeue depth k cur s inv at all = record {
      source_depth = inv.source_depth;
      source_visited = inv.source_visited;
      traced = inv.traced;
      fresh = inv.fresh;
      missed = inv.missed;
      bounded = inv.bounded;
      shallow = inv.shallow;
      queued = λ n h. inv.queued n (ground arith);
      layered = (rw at at (Layered-tail depth k cur s.queue inv.layered));
      closed = λ n h o b link. elim (Bool-cases (cur == n)) [
        | inl e ↦
            let p = eq_of_same cur n e in
            let bv : contains b s.visited ≡ true = all b (rw p link) in
            (bv, rw (← p) (omega (arith, inv.bounded b bv)))
        | inr e ↦ inv.closed n h (ground arith) b link
      ];
    }

    -- The path handed out when the target is met.
    finish-Answers :
        (depth : String → ℕ) (k : ℕ) (cur : String) (s : Frontier)
        → Inv sg source target depth k (cur ∷ s.queue) s.visited s.parent
        → depth cur ≡ k
        → HasEdge sg cur target
        → (path : List String) × (reconstruct (store s.parent target cur) source target ≡ some path)
          × IsShortest sg source target (some path)
    finish-Answers depth k cur s inv at link =
        let traced =
          mark-Traced sg source target depth k cur s.queue s.visited s.parent inv at target
            inv.missed link in
        let root : raise depth target (suc k) source ≡ 0 =
          rw (raise_old depth target (suc k) s.visited inv.missed source inv.source_visited)
            inv.source_depth in
        let (path, done, walk, long) =
          walk_back-Walk sg source target (raise depth target (suc k)) (target ∷ s.visited)
            (store s.parent target cur) root traced (length (store s.parent target cur) + 1) target
            (target ∷ []) (rw (same_refl target))
            (rw (same_refl target) (
              omega (
                arith,
                length-store_new s.parent target cur (inv.fresh target inv.missed),
                inv.shallow cur (inv.queued cur (rw (same_refl cur))),
              )))
            stop in
        let top : raise depth target (suc k) target ≡ suc k = rw (same_refl target) refl in
        (
          path,
          done,
          (walk, λ n st. omega (arith, late depth k cur s.queue s.visited s.parent inv at st)),
        )

    finish_or-Answers :
        (k : ℕ) (cur : String) (q v : List String) {r : Bool × Frontier}
        (loop : Frontier → Option (Option (List String)))
        → ((depth : String → ℕ) (s : Frontier)
            → Inv sg source target depth k s.queue s.visited s.parent
            → length s.queue + remaining sg.nodes s.visited ≤ length q + remaining sg.nodes v
            → Answers (loop s))
        → Scanned sg source target k cur sg.nodes (sg.outgoing cur) q v r
        → Answers (finish_or source target loop r)
    finish_or-Answers k cur q v loop ok (hit depth s x inv at link t) =
        let (path, done, short) = finish-Answers depth k cur s inv at (rw (← t) link) in
        (some path, rw (t, done), short)
    finish_or-Answers k cur q v loop ok (pass depth s inv at grow all le) =
        ok depth s (Inv-dequeue depth k cur s inv at all) le

    bfs_loop-Answers :
        IsClosed sg
        → (fuel : ℕ) (depth : String → ℕ) (k : ℕ) (q v : List String) (parent : GoMap String String)
        → Inv sg source target depth k q v parent
        → length q + remaining sg.nodes v < fuel
        → Answers (bfs_loop fuel sg source target q v parent)
    unfolding bfs_loop
    bfs_loop-Answers inside zero depth k q v parent inv m = elim m [ ]
    bfs_loop-Answers inside (suc fuel) depth k [] v parent inv m =
        (none, refl, λ n st. cc (exhausted depth k v parent inv st, inv.missed))
    bfs_loop-Answers inside (suc fuel) depth k (cur ∷ q) v parent inv m =
        finish_or-Answers (depth cur) cur q v
          (λ s. bfs_loop fuel sg source target s.queue s.visited s.parent)
          (λ depth' s inv' le.
            bfs_loop-Answers inside fuel depth' (depth cur) s.queue s.visited s.parent inv'
              (omega arith))
          (scan_neighbors-Scanned sg source target depth (depth cur) cur sg.nodes (inside cur)
            (sg.outgoing cur) q v parent (λ n h. h) (Inv-level depth k cur q v parent inv) refl)

    Inv-start : source ≢ target → Inv sg source target (λ n. 0) 0 (source ∷ []) (source ∷ []) []
    unfolding fetch
    Inv-start ne = record {
      source_depth = refl;
      source_visited = rw (same_refl source);
      traced = λ n h. inl (ground (arith, string_keys.same_iff source n));
      fresh = λ n h. refl;
      missed = ground (arith, string_keys.same_iff source target);
      queued = λ n h. h;
      layered = inl (refl, tt);
      bounded = λ n h. omega arith;
      shallow = λ n h. omega arith;
      closed = λ n h o b link. cc;
    }

    -- On a consistent graph `ShortestPath` ends. It reports no path only if no walk leads from the
    -- source to the target; else it returns a walk from the source to the target, and no walk
    -- between them has fewer edges.
    pub shortest_path_lem : IsConsistent sg → Answers (shortest_path sg source target)
    unfolding shortest_path
    shortest_path_lem c = elim (Bool-cases (source == target)) [
      | inl e ↦
          let p = eq_of_same source target e in
          (some (source ∷ []), rw e, ((rw p stop), λ n st. omega arith))
      | inr e ↦ rw e (
          bfs_loop-Answers (IsConsistent-IsClosed sg c) (length sg.nodes + 2) (λ n. 0) 0
            (source ∷ []) (source ∷ []) [] (Inv-start (ne_of_not_same source target e))
            (omega (arith, remaining-le-length sg.nodes (source ∷ []))))
    ]
