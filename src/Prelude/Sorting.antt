-- ===== src/Prelude/Sorting.antt =====
-- `sort.Slice` of the package sort, by a `less` function: the list that it leaves is sorted and has
-- the same elements. Insertion sort stands for the library's algorithm.
use Prim.Native.Nat.{suc}
use mathlib.Core.Path.{◌≡◌, refl, ap, ◌∙◌}
use mathlib.Core.Logic.{inl, inr}
use mathlib.Core.Bool.{Bool, true, false, ◌||◌}
use mathlib.Core.List.{List, [], ◌∷◌, map, Perm}
use mathlib.Core.List.Perm
use native.Mathlib.Omega.{arith}
use mirador_core.Prelude.Tests.{if◌then◌else◌, Bool-cases}
use mirador_core.Prelude.Lists.{All, length}
use mirador_core.Prelude.Keys.{Comparable, ◌==◌, contains}

module _ {ℓ} {A : Type ℓ} where
  unfoldable pub insert_by : (A → A → Bool) → A → List A → List A
  insert_by less x [] = x ∷ []
  insert_by less x (y ∷ ys) = if less y x then y ∷ insert_by less x ys else x ∷ y ∷ ys

  unfoldable pub sort_by : (A → A → Bool) → List A → List A
  sort_by less [] = []
  sort_by less (x ∷ xs) = insert_by less x (sort_by less xs)

  -- No element is less than the one before it.
  abbrev pub IsSortedFrom : (A → A → Bool) → A → List A → Type 0
  IsSortedFrom less x [] = Unit
  IsSortedFrom less x (y ∷ ys) = (less y x ≡ false) × IsSortedFrom less y ys

  abbrev pub IsSorted : (A → A → Bool) → List A → Type 0
  IsSorted less [] = Unit
  IsSorted less (x ∷ xs) = IsSortedFrom less x xs

  module _ (less : A → A → Bool) (asymm : (a b : A) → less a b ≡ true → less b a ≡ false) where
    insert_by-from :
        (z x : A) (ys : List A)
        → less x z ≡ false
        → IsSortedFrom less z ys
        → IsSortedFrom less z (insert_by less x ys)
    unfolding insert_by
    insert_by-from z x [] h s = (h, tt)
    insert_by-from z x (y ∷ ys) h s = ground (arith, asymm y x, insert_by-from y x ys)

    pub insert_by-IsSorted :
        (x : A) (ys : List A) → IsSorted less ys → IsSorted less (insert_by less x ys)
    unfolding insert_by
    insert_by-IsSorted x [] s = tt
    insert_by-IsSorted x (y ∷ ys) s = ground (arith, asymm y x, insert_by-from y x ys)

    pub sort_by-IsSorted : (xs : List A) → IsSorted less (sort_by less xs)
    unfolding sort_by
    sort_by-IsSorted [] = tt
    sort_by-IsSorted (x ∷ xs) = insert_by-IsSorted x (sort_by less xs) (sort_by-IsSorted xs)

  insert_by-perm : (less : A → A → Bool) (x : A) (ys : List A) → Perm (insert_by less x ys) (x ∷ ys)
  unfolding insert_by
  insert_by-perm less x [] = Perm.refl (x ∷ [])
  insert_by-perm less x (y ∷ ys) = elim (Bool-cases (less y x)) [
    | inl h ↦ rw h (Perm.trans (Perm.cons y (insert_by-perm less x ys)) (Perm.swap x y ys))
    | inr h ↦ rw h (Perm.refl _)
  ]

  pub sort_by-perm : (less : A → A → Bool) (xs : List A) → Perm (sort_by less xs) xs
  unfolding sort_by
  sort_by-perm less [] = Perm.refl []
  sort_by-perm less (x ∷ xs) =
      Perm.trans (insert_by-perm less x (sort_by less xs)) (Perm.cons x (sort_by-perm less xs))

  module _ {κ} {B : Type κ} ⦃c : Comparable B⦄ (f : A → B) (b : B) where
    contains-insert_by :
        (less : A → A → Bool) (x : A) (ys : List A)
        → contains b (map f (insert_by less x ys)) ≡ contains b (map f (x ∷ ys))
    unfolding insert_by
    contains-insert_by less x [] = refl
    contains-insert_by less x (y ∷ ys) = ground (arith, contains-insert_by less x ys)

    pub contains-sort_by :
        (less : A → A → Bool) (xs : List A)
        → contains b (map f (sort_by less xs)) ≡ contains b (map f xs)
    unfolding sort_by
    contains-sort_by less [] = refl
    contains-sort_by less (x ∷ xs) =
        contains-insert_by less x (sort_by less xs)
        ∙ ap (λ t. f x == b || t) (contains-sort_by less xs)

  length-insert_by :
      (less : A → A → Bool) (x : A) (ys : List A) → length (insert_by less x ys) ≡ suc (length ys)
  unfolding insert_by
  length-insert_by less x [] = refl
  length-insert_by less x (y ∷ ys) = ground (arith, length-insert_by less x ys)

  pub length-sort_by : (less : A → A → Bool) (xs : List A) → length (sort_by less xs) ≡ length xs
  unfolding sort_by
  length-sort_by less [] = refl
  length-sort_by less (x ∷ xs) =
      length-insert_by less x (sort_by less xs) ∙ ap suc (length-sort_by less xs)

  module _ {κ} (P : A → Type κ) (less : A → A → Bool) where
    All-insert_by : (x : A) (ys : List A) → P x → All P ys → All P (insert_by less x ys)
    unfolding insert_by
    All-insert_by x [] px all = (px, tt)
    All-insert_by x (y ∷ ys) px all = elim (Bool-cases (less y x)) [
      | inl h ↦ rw h (all.0, All-insert_by x ys px all.1)
      | inr h ↦ rw h (px, all)
    ]

    pub All-sort_by : (xs : List A) → All P xs → All P (sort_by less xs)
    unfolding sort_by
    All-sort_by [] all = tt
    All-sort_by (x ∷ xs) all = All-insert_by x (sort_by less xs) all.0 (All-sort_by xs all.1)
