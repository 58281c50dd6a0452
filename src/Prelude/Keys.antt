-- ===== src/Prelude/Keys.antt =====
-- Go's comparable types as an interface, membership in a list, and Go's maps as association lists.
use Prim.Native.Nat.{suc}
use Prim.Native.String.{String}
use mathlib.Core.Path.{◌≡◌, refl}
use mathlib.Core.Logic.{◌↔◌, ◌≢◌}
use mathlib.Core.Bool.{Bool, true, false, ◌&&◌, ◌||◌}
use mathlib.Core.Option.{Option, none, some}
use mathlib.Core.List.{List, [], ◌∷◌, ◌++◌}
use native.Mathlib.Omega.{arith}
use text.Mathlib.Text.{◌==◌ as text_same}
use text.Mathlib.TextEquality.{eq_iff}
use mirador_core.Prelude.Tests.{if◌then◌else◌}
use mirador_core.Prelude.Lists.{length}
use mirador_core.Prelude.Int.{ℤ, leb_ℤ}

-- A type whose values `==` tells apart: what may be the key of a map.
pub record Comparable {ℓ} (K : Type ℓ) : Type ℓ where
  pub same : K → K → Bool
  pub same_iff : (j k : K) → (same j k ≡ true) ↔ (j ≡ k)

infix 50 ◌==◌
abbrev pub ◌==◌ {ℓ} : {K : Type ℓ} ⦃c : Comparable K⦄ → K → K → Bool
◌==◌ ⦃c⦄ j k = c.same j k

instance abbrev pub string_keys : Comparable String
string_keys = record { same = text_same; same_iff = eq_iff }

abbrev pub same_ℤ : ℤ → ℤ → Bool
same_ℤ a b = leb_ℤ a b && leb_ℤ b a

pub same_ℤ_iff : (a b : ℤ) → (same_ℤ a b ≡ true) ↔ (a ≡ b)
same_ℤ_iff a b = ground arith

instance abbrev pub int_keys : Comparable ℤ
int_keys = record { same = same_ℤ; same_iff = same_ℤ_iff }

pub same_pair_iff {ℓ κ} :
    {J : Type ℓ} {K : Type κ} (c : Comparable J) (d : Comparable K) (p q : J × K)
    → ((c.same p.0 q.0 && d.same p.1 q.1) ≡ true) ↔ (p ≡ q)
same_pair_iff c d (i, k) (j, l) = ground (arith, c.same_iff i j, d.same_iff k l)

instance abbrev pub pair_keys {ℓ κ} :
    {J : Type ℓ} {K : Type κ} ⦃c : Comparable J⦄ ⦃d : Comparable K⦄ → Comparable (J × K)
pair_keys ⦃c⦄ ⦃d⦄ = record {
  same = λ p q. c.same p.0 q.0 && d.same p.1 q.1;
  same_iff = same_pair_iff c d;
}

module _ {ℓ} {K : Type ℓ} ⦃c : Comparable K⦄ where
  pub same_refl : (k : K) → (k == k) ≡ true
  same_refl k = (c.same_iff k k).1 refl

  pub eq_of_same : (j k : K) → (j == k) ≡ true → j ≡ k
  eq_of_same j k h = (c.same_iff j k).0 h

  pub ne_of_not_same : (j k : K) → (j == k) ≡ false → j ≢ k
  ne_of_not_same j k h p = cc ((c.same_iff j k).1 p)

  abbrev pub contains : K → List K → Bool
  contains k [] = false
  contains k (j ∷ js) = j == k || contains k js

  -- Every element of the first list is in the second.
  abbrev pub Subset : List K → List K → Type ℓ
  Subset js ks = (k : K) → contains k js ≡ true → contains k ks ≡ true

  -- No element occurs twice.
  abbrev pub Distinct : List K → Type 0
  Distinct [] = Unit
  Distinct (k ∷ ks) = (contains k ks ≡ false) × Distinct ks

  pub contains-append :
      (k : K) (js ks : List K) → contains k (js ++ ks) ≡ (contains k js || contains k ks)
  contains-append k [] ks = refl
  contains-append k (j ∷ js) ks = ground (arith, contains-append k js ks)

-- A map of Go: `m[k]` with its second result, `m[k] = v` and `delete(m, k)`.
abbrev pub GoMap {ℓ κ} : Type ℓ → Type κ → Type (ℓ ⊔ κ)
GoMap K V = List (K × V)

module _ {ℓ κ} {K : Type ℓ} {V : Type κ} ⦃c : Comparable K⦄ where
  unfoldable pub fetch : GoMap K V → K → Option V
  fetch [] key = none
  fetch (entry ∷ others) key = if entry.0 == key then some entry.1 else fetch others key

  unfoldable pub store : GoMap K V → K → V → GoMap K V
  store [] key value = (key, value) ∷ []
  store (entry ∷ others) key value =
      if entry.0 == key then (key, value) ∷ others else entry ∷ store others key value

  unfoldable pub delete : GoMap K V → K → GoMap K V
  delete [] key = []
  delete (entry ∷ others) key =
      if entry.0 == key then delete others key else entry ∷ delete others key

  pub fetch-store :
      (m : GoMap K V) (key : K) (value : V) (other : K)
      → fetch (store m key value) other ≡ (if key == other then some value else fetch m other)
  unfolding fetch store
  fetch-store [] key value other = refl
  fetch-store ((first, _) ∷ m) key value other = ground (
    arith,
    c.same_iff first key,
    c.same_iff first other,
    c.same_iff key other,
    fetch-store m key value other,
  )

  pub length-store_new :
      (m : GoMap K V) (key : K) (value : V)
      → fetch m key ≡ none
      → length (store m key value) ≡ suc (length m)
  unfolding fetch store
  length-store_new [] key value h = refl
  length-store_new (entry ∷ m) key value h = ground (arith, length-store_new m key value)

  pub fetch-delete :
      (m : GoMap K V) (key other : K)
      → fetch (delete m key) other ≡ (if key == other then none else fetch m other)
  unfolding fetch delete
  fetch-delete [] key other = ground arith
  fetch-delete ((first, _) ∷ m) key other = ground (
    arith,
    c.same_iff first key,
    c.same_iff first other,
    c.same_iff key other,
    fetch-delete m key other,
  )
