-- ===== src/Prelude/Remaining.antt =====
-- The measure of a search that marks what it has visited: the elements of a list that are not marked.
use Prim.Native.Nat.{ℕ, suc, ◌≤◌, ◌<◌}
use mathlib.Core.Path.{◌≡◌}
use mathlib.Core.Bool.{true, false}
use mathlib.Core.List.{List, [], ◌∷◌}
use native.Mathlib.Omega.{arith}
use mirador_core.Prelude.Tests.{if◌then◌else◌}
use mirador_core.Prelude.Lists.{length}
use mirador_core.Prelude.Keys.{Comparable, contains, Subset}

module _ {ℓ} {A : Type ℓ} ⦃c : Comparable A⦄ where
  pub remaining : List A → List A → ℕ
  remaining [] v = 0
  remaining (x ∷ xs) v = if contains x v then remaining xs v else suc (remaining xs v)

  pub remaining-le : (xs v w : List A) → Subset v w → remaining xs w ≤ remaining xs v
  unfolding remaining
  remaining-le [] v w h = omega arith
  remaining-le (x ∷ xs) v w h = ground (arith, h x, remaining-le xs v w h)

  pub remaining-le-length : (xs v : List A) → remaining xs v ≤ length xs
  unfolding remaining
  remaining-le-length [] v = omega arith
  remaining-le-length (x ∷ xs) v = ground (arith, remaining-le-length xs v)

  pub subset_cons : (a : A) (v : List A) → Subset v (a ∷ v)
  subset_cons a v x h = ground arith

  pub remaining_cons :
      (a : A) (xs v : List A)
      → contains a xs ≡ true
      → contains a v ≡ false
      → remaining xs (a ∷ v) < remaining xs v
  unfolding remaining
  remaining_cons a [] v h k = ground arith
  remaining_cons a (x ∷ xs) v h k = ground (
    arith,
    c.same_iff x a,
    c.same_iff a x,
    remaining_cons a xs v,
    remaining-le xs v (a ∷ v) (subset_cons a v),
  )
