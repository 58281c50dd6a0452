-- ===== src/Prelude/Strings.antt =====
-- The order of texts, as Go's `<` on strings.
use Prim.Native.Nat.{ℕ, compare as compare_ℕ, Ordering}
use Prim.Native.Char.{code}
use Prim.Native.String.{String, compare, then as lexicographic}
use Prim.Native.String.compare
use mathlib.Core.Path.{◌≡◌, refl, ap}
use mathlib.Core.Bool.{Bool, true, false}
use native.Mathlib.Omega.{arith}

abbrev pub is_lt : Ordering → Bool
is_lt Ordering.lt = true
is_lt _ = false

abbrev pub str_ltb : String → String → Bool
str_ltb s t = is_lt (compare s t)

then_asymm :
    (m n : ℕ) (o p : Ordering)
    → (is_lt o ≡ true → is_lt p ≡ false)
    → is_lt (lexicographic (compare_ℕ m n) o) ≡ true
    → is_lt (lexicographic (compare_ℕ n m) p) ≡ false
then_asymm m n o p ih h = ground arith

pub str_ltb_asymm : (s t : String) → str_ltb s t ≡ true → str_ltb t s ≡ false
str_ltb_asymm String.[] String.[] h = refl
str_ltb_asymm String.[] (String.◌∷◌ d t) h = rw (compare.cons-nil d t)
str_ltb_asymm (String.◌∷◌ c s) String.[] h = cc (ap is_lt (compare.cons-nil c s))
str_ltb_asymm (String.◌∷◌ c s) (String.◌∷◌ d t) h = rw (compare.cons-cons d c t s) (
    then_asymm (code c) (code d) (compare s t) (compare t s) (str_ltb_asymm s t)
      (rw (compare.cons-cons c d s t) at h))
