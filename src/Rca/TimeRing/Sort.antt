-- ===== src/Rca/TimeRing/Sort.antt =====
-- The exchange sort of `SortByProximity`.
use mathlib.Core.List.{Perm}
use mathlib.Core.List.Perm
use mirador_core.Prelude.{
  ℕ, zero, suc, ◌≤◌, ◌≡◌, refl, List, [], ◌∷◌, All, arith, length, ltb, if◌then◌else◌, inl, inr,
  Bool-cases,
}
use mirador_core.Rca.TimeRing.Defs.{
  TimeRing, priority, exchange_pass, exchange_sort, sort_by_proximity,
}

-- No element has a priority below that of an element before it.
abbrev pub IsByProximity : List TimeRing → Type 0
IsByProximity [] = Unit
IsByProximity (x ∷ xs) = All (λ y. priority x ≤ priority y) xs × IsByProximity xs

pass-le : (x : TimeRing) (ys : List TimeRing) → priority (exchange_pass x ys).0 ≤ priority x
unfolding exchange_pass
pass-le x [] = omega arith
pass-le x (y ∷ ys) = ground (arith, pass-le x ys, pass-le y ys)

All-le :
    (m n : ℕ) (ys : List TimeRing)
    → m ≤ n
    → All (λ y. n ≤ priority y) ys
    → All (λ y. m ≤ priority y) ys
All-le m n [] h a = tt
All-le m n (y ∷ ys) h a = (omega arith, All-le m n ys h a.1)

pass-least :
    (x : TimeRing) (ys : List TimeRing)
    → All (λ y. priority (exchange_pass x ys).0 ≤ priority y) (exchange_pass x ys).1
unfolding exchange_pass
pass-least x [] = tt
pass-least x (y ∷ ys) = (
  ground (arith, pass-le x ys, pass-le y ys),
  pass-least (if ltb (priority y) (priority x) then y else x) ys,
)

pass-perm :
    (x : TimeRing) (ys : List TimeRing)
    → Perm ((exchange_pass x ys).0 ∷ (exchange_pass x ys).1) (x ∷ ys)
unfolding exchange_pass
pass-perm x [] = Perm.refl (x ∷ [])
pass-perm x (y ∷ ys) = elim (Bool-cases (ltb (priority y) (priority x))) [
  | inl h ↦ rw h (Perm.trans (Perm.swap _ _ _) (Perm.cons x (pass-perm y ys)))
  | inr h ↦
      rw h
        (Perm.trans (Perm.swap _ _ _) (Perm.trans (Perm.cons y (pass-perm x ys)) (Perm.swap _ _ _)))
]

length-pass : (x : TimeRing) (ys : List TimeRing) → length (exchange_pass x ys).1 ≡ length ys
unfolding exchange_pass
length-pass x [] = refl
length-pass x (y ∷ ys) = ground (arith, length-pass x ys, length-pass y ys)

sort-perm : (n : ℕ) (xs : List TimeRing) → Perm (exchange_sort n xs) xs
unfolding exchange_sort
sort-perm zero xs = Perm.refl xs
sort-perm (suc n) [] = Perm.refl []
sort-perm (suc n) (x ∷ xs) =
    Perm.trans (Perm.cons _ (sort-perm n (exchange_pass x xs).1)) (pass-perm x xs)

-- A bound below every element of a list is below every element of a rearrangement of it. The
-- bound is carried through the pass and the sort by the same two lemmas.
pass-bound :
    (m : ℕ) (x : TimeRing) (ys : List TimeRing)
    → m ≤ priority x
    → All (λ y. m ≤ priority y) ys
    → (m ≤ priority (exchange_pass x ys).0) × All (λ y. m ≤ priority y) (exchange_pass x ys).1
unfolding exchange_pass
pass-bound m x [] h a = (h, tt)
pass-bound m x (y ∷ ys) h a = elim (Bool-cases (ltb (priority y) (priority x))) [
  | inl e ↦ rw e (let (low, rest) = pass-bound m y ys a.0 a.1 in (low, (h, rest)))
  | inr e ↦ rw e (let (low, rest) = pass-bound m x ys h a.1 in (low, (a.0, rest)))
]

sort-bound :
    (m n : ℕ) (xs : List TimeRing)
    → All (λ y. m ≤ priority y) xs
    → All (λ y. m ≤ priority y) (exchange_sort n xs)
unfolding exchange_sort
sort-bound m zero xs a = a
sort-bound m (suc n) [] a = tt
sort-bound m (suc n) (x ∷ xs) a =
    let (low, rest) = pass-bound m x xs a.0 a.1 in (low, sort-bound m n (exchange_pass x xs).1 rest)

sort-ordered : (n : ℕ) (xs : List TimeRing) → length xs ≤ n → IsByProximity (exchange_sort n xs)
unfolding exchange_sort
sort-ordered zero [] h = tt
sort-ordered zero (x ∷ xs) h = absurd (omega arith)
sort-ordered (suc n) [] h = tt
sort-ordered (suc n) (x ∷ xs) h = (
  sort-bound _ n (exchange_pass x xs).1 (pass-least x xs),
  sort-ordered n (exchange_pass x xs).1 (omega (arith, length-pass x xs)),
)

-- `SortByProximity` returns the same rings, each as often, and none of them comes before a ring
-- that is closer to the peak.
pub sort_by_proximity_lem :
    (rings : List TimeRing)
    → Perm (sort_by_proximity rings) rings × IsByProximity (sort_by_proximity rings)
unfolding sort_by_proximity
sort_by_proximity_lem rings =
    (sort-perm (length rings) rings, sort-ordered (length rings) rings (omega arith))
