-- ===== src/Rca/ServiceGraph/ShortestPath/Depths.antt =====
-- The depths of the names that a breadth-first search has visited: the invariant of the search.
use mirador_core.Prelude.{
  ℕ, suc, ◌≤◌, ◌≡◌, ◌⊎◌, inl, inr, true, false, none, some, List, [], ◌∷◌, ◌++◌, String, arith, All,
  contains, length, Subset, string_keys, GoMap, fetch, same_refl,
}
use mirador_core.Rca.ServiceGraph.Defs.{ServiceGraph}
use mirador_core.Rca.ServiceGraph.Search.{HasEdge}

-- The names at depth `k` come first, then those at depth `k + 1`.
abbrev pub Layered : (String → ℕ) → ℕ → List String → Type 0
Layered depth k [] = Unit
Layered depth k (n ∷ ns) =
    ((depth n ≡ k) × Layered depth k ns) ⊎ All (λ m. depth m ≡ suc k) (n ∷ ns)

pub All-Layered :
    (depth : String → ℕ) (k : ℕ) (ns : List String) → All (λ m. depth m ≡ k) ns → Layered depth k ns
All-Layered depth k [] h = tt
All-Layered depth k (n ∷ ns) h = inl (h.0, All-Layered depth k ns h.1)

pub Layered-tail :
    (depth : String → ℕ) (k : ℕ) (n : String) (ns : List String)
    → Layered depth k (n ∷ ns)
    → Layered depth (depth n) ns
Layered-tail depth k n ns (inl h) = rw h.0 h.1
Layered-tail depth k n ns (inr h) = rw h.0 (All-Layered depth (suc k) ns h.1)

All-snoc :
    (depth : String → ℕ) (k : ℕ) (ns : List String) (x : String)
    → All (λ m. depth m ≡ k) ns
    → depth x ≡ k
    → All (λ m. depth m ≡ k) (ns ++ x ∷ [])
All-snoc depth k [] x h e = (e, tt)
All-snoc depth k (n ∷ ns) x h e = (h.0, All-snoc depth k ns x h.1 e)

pub Layered-snoc :
    (depth : String → ℕ) (k : ℕ) (ns : List String) (x : String)
    → Layered depth k ns
    → depth x ≡ suc k
    → Layered depth k (ns ++ x ∷ [])
Layered-snoc depth k [] x h e = inr (e, tt)
Layered-snoc depth k (n ∷ ns) x (inl h) e = inl (h.0, Layered-snoc depth k ns x h.1 e)
Layered-snoc depth k (n ∷ ns) x (inr h) e = inr (All-snoc depth (suc k) (n ∷ ns) x h e)

All-depth :
    (depth : String → ℕ) (k : ℕ) (ns : List String) (x : String)
    → All (λ m. depth m ≡ k) ns
    → contains x ns ≡ true
    → depth x ≡ k
All-depth depth k [] x h c = cc
All-depth depth k (n ∷ ns) x h c =
    ground (arith, string_keys.same_iff n x, All-depth depth k ns x h.1)

pub Layered-depth :
    (depth : String → ℕ) (k : ℕ) (ns : List String) (x : String)
    → Layered depth k ns
    → contains x ns ≡ true
    → k ≤ depth x
Layered-depth depth k [] x h c = cc
Layered-depth depth k (n ∷ ns) x (inl h) c =
    ground (arith, string_keys.same_iff n x, Layered-depth depth k ns x h.1)
Layered-depth depth k (n ∷ ns) x (inr h) c = omega (arith, All-depth depth (suc k) (n ∷ ns) x h c)

-- Depths that agree where the first list says.
pub All-agree :
    (d d' : String → ℕ) (v : List String)
    → ((n : String) → contains n v ≡ true → d' n ≡ d n)
    → (k : ℕ) (ns : List String) → Subset ns v
    → All (λ m. d m ≡ k) ns
    → All (λ m. d' m ≡ k) ns
All-agree d d' v same k [] sub h = tt
All-agree d d' v same k (n ∷ ns) sub h = (
  omega (arith, same n (sub n (rw (same_refl n)))),
  All-agree d d' v same k ns (λ x c. sub x (ground arith)) h.1,
)

pub Layered-agree :
    (d d' : String → ℕ) (v : List String)
    → ((n : String) → contains n v ≡ true → d' n ≡ d n)
    → (k : ℕ) (ns : List String) → Subset ns v
    → Layered d k ns
    → Layered d' k ns
Layered-agree d d' v same k [] sub h = tt
Layered-agree d d' v same k (n ∷ ns) sub (inl h) = inl (
  omega (arith, same n (sub n (rw (same_refl n)))),
  Layered-agree d d' v same k ns (λ x c. sub x (ground arith)) h.1,
)
Layered-agree d d' v same k (n ∷ ns) sub (inr h) =
    inr (All-agree d d' v same (suc k) (n ∷ ns) sub h)

module _ {S : Type 0} (sg : ServiceGraph S) (source : String) where
  -- A walk of so many edges from the source.
  pub data Steps : String → ℕ → Type 0 where
    start : Steps source 0
    more : {a b : String} {n : ℕ} → Steps a n → HasEdge sg a b → Steps b (suc n)

  -- The source, or a name whose parent is visited, one edge away and one level above.
  abbrev pub Traced : (String → ℕ) → List String → GoMap String String → String → Type 0
  Traced depth v parent n =
      (n ≡ source)
      ⊎ ((p : String) × (fetch parent n ≡ some p)
          × (contains p v ≡ true)
          × HasEdge sg p n
          × (depth n ≡ suc (depth p)))

  pub record Inv (target : String) (depth : String → ℕ) (k : ℕ) (q v : List String)
      (parent : GoMap String String) : Type 0 where
    pub source_depth : depth source ≡ 0
    pub source_visited : contains source v ≡ true
    pub traced : (n : String) → contains n v ≡ true → Traced depth v parent n
    pub fresh : (n : String) → contains n v ≡ false → fetch parent n ≡ none
    pub missed : contains target v ≡ false
    pub queued : Subset q v
    pub layered : Layered depth k q
    pub bounded : (n : String) → contains n v ≡ true → depth n ≤ suc k
    pub shallow : (n : String) → contains n v ≡ true → depth n ≤ length parent
    pub closed :
        (n : String)
        → contains n v ≡ true
        → contains n q ≡ false
        → (b : String) → HasEdge sg n b
        → (contains b v ≡ true) × (depth b ≤ suc (depth n))
