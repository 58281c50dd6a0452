-- ===== src/Rca/Dimensions/Floats.antt =====
-- The `float64` of a configuration: what the code compares and stores, with its constants. What holds
-- of the numbers 0 and 1 is assumed, and nothing of NaN.
use mirador_core.Prelude.{ℕ, ◌≡◌, refl, Bool, false, ltb}

pub record Floats : Type 1 where
  pub F : Type 0
  pub zero : F
  pub one : F
  pub tenth : F
  pub fifth : F
  pub lt : F → F → Bool
  pub zero-zero : lt zero zero ≡ false
  pub one-zero : lt one zero ≡ false
  pub one-one : lt one one ≡ false

-- An instance: numbers of tenths.
abbrev pub tenths : Floats
tenths = record {
  F = ℕ;
  zero = 0;
  one = 10;
  tenth = 1;
  fifth = 2;
  lt = ltb;
  zero-zero = refl;
  one-zero = refl;
  one-one = refl;
}
