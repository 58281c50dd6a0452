-- ===== src/Rca/ServiceGraph/Search.antt =====
-- The depth-first search of `hasPath` decides reachability.
use mirador_core.Prelude.{
  ℕ, zero, suc, ◌+◌, ◌<◌, ◌≡◌, refl, ◌∙◌, ◌≢◌, ◌↔◌, inl, inr, Bool, true, false, Option, some, List,
  [], ◌∷◌, String, arith, length, ◌==◌, contains, Subset, Bool-cases, string_keys, map, same_refl,
  eq_of_same, ne_of_not_same,
}
use mirador_core.Prelude.Remaining.{
  remaining, remaining-le, remaining-le-length, remaining_cons, subset_cons,
}
use mirador_core.Rca.ServiceGraph.Defs.{
  ServiceGraph, ServiceEdge, or_else, any_neighbor, has_path, is_upstream,
}

module _ {S : Type 0} where
  -- The names at the ends of the edges of a list.
  abbrev pub targets : List (ServiceEdge S) → List String
  targets = map (λ e. e.target)

  -- There is an edge from the first service to the second.
  abbrev pub HasEdge : ServiceGraph S → String → String → Type 0
  HasEdge sg a b = contains b (targets (sg.outgoing a)) ≡ true

  -- The services from which there is a directed path to `to`, the path with no edge included.
  pub data Reaches (sg : ServiceGraph S) (to : String) : String → Type 0 where
    arrived : Reaches sg to to
    along : {a b : String} → HasEdge sg a b → Reaches sg to b → Reaches sg to a

  -- Every edge ends at a node of the graph.
  abbrev pub IsClosed : ServiceGraph S → Type 0
  IsClosed sg = (a b : String) → HasEdge sg a b → contains b sg.nodes ≡ true

  module _ (sg : ServiceGraph S) (to : String) where
    -- Whatever was marked since `before` is not the target, and its neighbours are marked.
    abbrev Explored : List String → List String → Type 0
    Explored before after =
        (a : String)
        → contains a after ≡ true
        → contains a before ≡ false
        → (a ≢ to) × Subset (targets (sg.outgoing a)) after

    -- What a search from the services of `starts` returns.
    data Outcome (starts : List String) (before : List String)
        : Option (Bool × List String) → Type 0 where
      found :
          (after : List String) (a : String)
          → contains a starts ≡ true
          → Reaches sg to a
          → Outcome starts before (some (true, after))
      missed :
          (after : List String)
          → Subset before after
          → Subset starts after
          → Explored before after
          → Outcome starts before (some (false, after))

    Explored-trans : (u v w : List String) → Subset v w → Explored u v → Explored v w → Explored u w
    Explored-trans u v w vw uv h a aw au = elim (Bool-cases (contains a v)) [
      | inl av ↦ ((uv a av au).0, λ b hb. vw b ((uv a av au).1 b hb))
      | inr av ↦ h a aw av
    ]

    -- A search that goes on after one that missed.
    Outcome-extend :
        (e : ServiceEdge S) (es : List (ServiceEdge S)) (v w : List String)
        {r : Option (Bool × List String)}
        → Subset v w
        → contains e.target w ≡ true
        → Explored v w
        → Outcome (targets es) w r
        → Outcome (targets (e ∷ es)) v r
    Outcome-extend e es v w vw ew ex (found after a h p) = found after a (ground arith) p
    Outcome-extend e es v w vw ew ex (missed after sub all ex') =
        missed after (λ a h. sub a (vw a h))
          (λ a h. ground (arith, string_keys.same_iff e.target a, sub a, sub e.target ew, all a))
          (Explored-trans v w after sub ex ex')

    or_else-Outcome :
        (e : ServiceEdge S) (es : List (ServiceEdge S)) (v : List String)
        {r : Option (Bool × List String)} (rest : List String → Option (Bool × List String))
        → Outcome (e.target ∷ []) v r
        → ((w : List String) → Subset v w → Outcome (targets es) w (rest w))
        → Outcome (targets (e ∷ es)) v (or_else rest r)
    or_else-Outcome e es v rest (found after a h p) k = found after a (ground arith) p
    or_else-Outcome e es v rest (missed after sub all ex) k =
        Outcome-extend e es v after sub (all e.target (rw (same_refl e.target))) ex (k after sub)

    module _ (us : List String)
        (closed : (a b : String) → HasEdge sg a b → contains b us ≡ true) where
      any_neighbor-Outcome :
          (f : ℕ) (visit : String → List String → Option (Bool × List String))
          → ((a : String) (w : List String)
              → contains a us ≡ true
              → remaining us w < f
              → Outcome (a ∷ []) w (visit a w))
          → (es : List (ServiceEdge S)) (v : List String) → Subset (targets es) us
          → remaining us v < f
          → Outcome (targets es) v (any_neighbor visit es v)
      unfolding any_neighbor
      any_neighbor-Outcome f visit ok [] v h m = missed v (λ a x. x) (λ a x. cc) (λ a x y. cc)
      any_neighbor-Outcome f visit ok (e ∷ es) v h m =
          or_else-Outcome e es v (any_neighbor visit es)
            (ok e.target v (h e.target (rw (same_refl e.target))) m)
            (λ w sub.
              any_neighbor-Outcome f visit ok es w (λ a x. h a (ground arith))
                (omega (arith, remaining-le us v w sub)))

      -- After the neighbours of a service that was just marked.
      mark-Outcome :
          (cur : String) (v : List String) {r : Option (Bool × List String)}
          → cur ≢ to
          → Outcome (targets (sg.outgoing cur)) (cur ∷ v) r
          → Outcome (cur ∷ []) v r
      mark-Outcome cur v ne (found after a h p) = found after cur (rw (same_refl cur)) (along h p)
      mark-Outcome cur v ne (missed after sub all ex) =
          missed after (λ a h. sub a (subset_cons cur v a h)) (λ a h. sub a (ground arith))
            (λ a h n. elim (Bool-cases (cur == a)) [
              | inl q ↦ let p = eq_of_same cur a q in (λ z. ne (p ∙ z), λ b hb. all b (rw p hb))
              | inr q ↦ ex a h (ground arith)
            ])

      has_path-Outcome :
          (fuel : ℕ) (cur : String) (v : List String)
          → contains cur us ≡ true
          → remaining us v < fuel
          → Outcome (cur ∷ []) v (has_path fuel sg to cur v)
      unfolding has_path
      has_path-Outcome zero cur v h m = elim m [ ]
      has_path-Outcome (suc fuel) cur v h m = elim (Bool-cases (cur == to)) [
        | inl e ↦ rw e (found v cur (rw (same_refl cur)) (rw (eq_of_same cur to e) arrived))
        | inr e ↦ elim (Bool-cases (contains cur v)) [
          | inl c ↦
              rw (e, c)
                (missed v (λ a x. x) (λ a x. ground (arith, string_keys.same_iff cur a))
                  (λ a x y. cc))
          | inr c ↦
              rw (e, c)
                (mark-Outcome cur v (ne_of_not_same cur to e) (
                  any_neighbor-Outcome fuel (has_path fuel sg to) (has_path-Outcome fuel)
                    (sg.outgoing cur) (cur ∷ v) (closed cur)
                    (omega (arith, remaining_cons cur us v h c))))
        ]
      ]

    -- What is marked after a failed search from `cur` is closed under edges and misses the target.
    Explored-not-Reaches :
        (after : List String)
        → Explored [] after
        → {a : String} → Reaches sg to a
        → contains a after ≡ true
        → ⊥
    Explored-not-Reaches after ex arrived h = (ex to h refl).0 refl
    Explored-not-Reaches after ex (along {a = a} {b = b} st p) h =
        Explored-not-Reaches after ex p ((ex a h refl).1 b st)

    -- The answer of a search with nothing marked is the answer to the question.
    Decides : String → Option (Bool × List String) → Type 0
    Decides cur r =
        (found : Bool) × (after : List String) × (r ≡ some (found, after))
        × ((found ≡ true) ↔ Reaches sg to cur)

    Outcome-Decides :
        (cur : String) {r : Option (Bool × List String)} → Outcome (cur ∷ []) [] r → Decides cur r
    unfolding Decides
    Outcome-Decides cur (found after a h p) =
        (true, after, refl, ((λ x. rw (eq_of_same cur a (ground arith)) p), (λ x. refl)))
    Outcome-Decides cur (missed after sub all ex) = (
      false,
      after,
      refl,
      ((λ x. cc), (λ p. absurd (Explored-not-Reaches after ex p (all cur (rw (same_refl cur)))))),
    )

  -- `IsUpstream` returns, on a graph whose edges end at its nodes, and returns true exactly when the
  -- two services differ and there is a directed path from the first to the second.
  pub is_upstream_iff :
      (sg : ServiceGraph S) (from to : String)
      → IsClosed sg
      → (answer : Bool) × (is_upstream sg from to ≡ some answer)
        × ((answer ≡ true) ↔ ((from ≢ to) × Reaches sg to from))
  unfolding is_upstream Decides
  is_upstream_iff sg from to closed = elim (Bool-cases (from == to)) [
    | inl e ↦ (false, rw e, ((λ x. cc), (λ x. absurd (x.0 (eq_of_same from to e)))))
    | inr e ↦
        let us = from ∷ sg.nodes in
        let (answer, after, done, iff) = Outcome-Decides sg to from (
          has_path-Outcome sg to us (λ a b st. ground (arith, closed a b st)) (length sg.nodes + 2)
            from [] (rw (same_refl from)) (omega (arith, remaining-le-length us []))) in
        (answer, rw (e, done), ((λ x. (ne_of_not_same from to e, iff.0 x)), (λ x. iff.1 x.1)))
  ]
