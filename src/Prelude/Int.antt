-- ===== src/Prelude/Int.antt =====
-- Signed integers over the native numbers, and Go's 64-bit durations.
use Prim.Native.Nat.{ℕ, suc, ◌+◌, ◌-◌, ◌≤◌}
use mathlib.Core.Path.{◌≡◌}
use mathlib.Core.Logic.{◌↔◌}
use mathlib.Core.Bool.{Bool, true}
use native.Mathlib.Omega.{arith}
use mirador_core.Prelude.Tests.{ltb, leb, if◌then◌else◌}

-- `negsuc n` is -(n + 1).
pub data ℤ : Type 0 where
  pos : ℕ → ℤ
  negsuc : ℕ → ℤ

abbrev pub pos_part : ℤ → ℕ
pos_part (pos n) = n
pos_part (negsuc n) = 0

abbrev pub neg_part : ℤ → ℕ
neg_part (pos n) = 0
neg_part (negsuc n) = suc n

abbrev pub sub_ℕ : ℕ → ℕ → ℤ
sub_ℕ a b = if leb b a then pos (a - b) else negsuc (b - a - 1)

infixl 65 ◌-ℤ◌
infix 50 ◌≤ℤ◌ ◌<ℤ◌
unfoldable pub ◌-ℤ◌ : ℤ → ℤ → ℤ
a -ℤ b = sub_ℕ (pos_part a + neg_part b) (neg_part a + pos_part b)

abbrev pub ◌≤ℤ◌ : ℤ → ℤ → Type 0
a ≤ℤ b = pos_part a + neg_part b ≤ pos_part b + neg_part a

abbrev pub ◌<ℤ◌ : ℤ → ℤ → Type 0
a <ℤ b = suc (pos_part a + neg_part b) ≤ pos_part b + neg_part a

abbrev pub ltb_ℤ : ℤ → ℤ → Bool
ltb_ℤ a b = ltb (pos_part a + neg_part b) (pos_part b + neg_part a)

abbrev pub leb_ℤ : ℤ → ℤ → Bool
leb_ℤ a b = leb (pos_part a + neg_part b) (pos_part b + neg_part a)

pub -ℤ_parts :
    (a b : ℤ)
    → pos_part (a -ℤ b) + neg_part a + pos_part b ≡ neg_part (a -ℤ b) + pos_part a + neg_part b
unfolding ◌-ℤ◌
-ℤ_parts a b = ground arith

pub eq_of_parts : (a b : ℤ) → pos_part a + neg_part b ≡ pos_part b + neg_part a → a ≡ b
eq_of_parts a b h = ground arith

pub ltb_ℤ_iff : (a b : ℤ) → (ltb_ℤ a b ≡ true) ↔ (a <ℤ b)
ltb_ℤ_iff a b = ground arith

pub leb_ℤ_iff : (a b : ℤ) → (leb_ℤ a b ≡ true) ↔ (a ≤ℤ b)
leb_ℤ_iff a b = ground arith

pub ruleset int_laws = (arith, -ℤ_parts)

-- The bounds of `time.Duration`, an int64 count of nanoseconds.
abbrev pub max_duration : ℤ
max_duration = pos 9223372036854775807

abbrev pub min_duration : ℤ
min_duration = negsuc 9223372036854775807

-- `t.Sub(u)` of the package time: the difference, held within the bounds of a duration.
unfoldable pub time_sub : ℤ → ℤ → ℤ
time_sub t u =
    let d = t -ℤ u in
    if ltb_ℤ max_duration d then max_duration else if ltb_ℤ d min_duration then min_duration else d

module _ (t u : ℤ) where
  pub time_sub_nonneg : u ≤ℤ t → pos 0 ≤ℤ time_sub t u
  unfolding time_sub
  time_sub_nonneg h = ground (arith, -ℤ_parts t u)

  pub time_sub_neg : t <ℤ u → time_sub t u <ℤ pos 0
  unfolding time_sub
  time_sub_neg h = ground (arith, -ℤ_parts t u)

  -- A difference within the bounds is exact.
  pub time_sub_exact : (t -ℤ u) ≤ℤ max_duration → min_duration ≤ℤ (t -ℤ u) → time_sub t u ≡ t -ℤ u
  unfolding time_sub
  time_sub_exact h k = ground arith

pub time_sub_mono : (t u v : ℤ) → v ≤ℤ u → time_sub t u ≤ℤ time_sub t v
unfolding time_sub
time_sub_mono t u v h = ground (arith, -ℤ_parts t u, -ℤ_parts t v)

pub time_sub_mono_left : (t u v : ℤ) → t ≤ℤ u → time_sub t v ≤ℤ time_sub u v
unfolding time_sub
time_sub_mono_left t u v h = ground (arith, -ℤ_parts t v, -ℤ_parts u v)

pub time_sub_self : (t : ℤ) → time_sub t t ≡ pos 0
unfolding time_sub ◌-ℤ◌
time_sub_self t = ground arith
