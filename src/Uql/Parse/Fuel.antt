-- ===== src/Uql/Parse/Fuel.antt =====
-- The recursion of `parseCondition` ends: each text that it is called on is shorter than the one before.
use Prim.Native.Char.{Char, len_utf8}
use Prim.Native.String.{len, slice}
use Prim.Native.String.len
use Prim.Native.String.slice
use text.Mathlib.TextPositions.{len_utf8-pos, slice_all}
use mathlib.Core.Path.{subst}
use mirador_core.Prelude.{
  ℕ, zero, suc, ◌+◌, ◌-◌, ◌≤◌, ◌<◌, ◌≡◌, refl, sym, ap, ◌∙◌, Option, none, some, String, arith,
}
use mirador_core.Uql.Parse.Texts.{TextLibrary, last_index, from}
use mirador_core.Uql.Parse.Conditions.{
  parse_condition, whole_condition, joined_condition, parse_simple_condition, bare, condition_step,
  UqlValue,
}
use mirador_core.Uql.Outcome.{Outcome}
use mirador_core.Uql.Syntax.{UqlCondition, no_condition}

-- One character of the front is cut off, and perhaps more.
slice_rest :
    (c : Char) (s : String) (i : ℕ)
    → slice (String.◌∷◌ c s) (suc i) (len (String.◌∷◌ c s)) ≡ slice s (suc i - len_utf8 c) (len s)
slice_rest c s i =
    slice.cons-suc c s i (len (String.◌∷◌ c s))
    ∙ ap (λ n. slice s (suc i - len_utf8 c) n)
        (ap (λ n. n - len_utf8 c) (len.cons c s) ∙ omega arith)

len-slice : (s : String) (i : ℕ) → len (slice s i (len s)) ≤ len s
len-slice String.[] i = omega (arith, ap len (slice.nil i 0))
len-slice (String.◌∷◌ c s) zero = omega (arith, ap len (slice_all (String.◌∷◌ c s)))
len-slice (String.◌∷◌ c s) (suc i) =
    omega (arith, ap len (slice_rest c s i), len-slice s (suc i - len_utf8 c), len.cons c s)

-- Where there is a text and its front is cut off, what is left is shorter.
len-from : (s : String) (i : ℕ) → 0 < len s → len (from s (suc i)) < len s
len-from String.[] i h = omega (arith, h)
len-from (String.◌∷◌ c s) i h = omega (
  arith,
  ap len (slice_rest c s i),
  len-slice s (suc i - len_utf8 c),
  len.cons c s,
  (len_utf8-pos c).1,
)

found_in_text : (s t : String) (i : ℕ) → last_index s t ≡ some i → 0 < len s
unfolding last_index
found_in_text String.[] t i h = cc h
found_in_text (String.◌∷◌ c s) t i h = omega (arith, len.cons c s, (len_utf8-pos c).1)

module _ {F : Type 0} (lib : TextLibrary F) (trim_shrinks : (s : String) → len (lib.trim s) ≤ len s)
    (upper_keeps : (s : String) → len (lib.to_upper s) ≡ len s) where
  -- What is parsed next is shorter than the text that was given.
  next_shorter :
      (s t : String) (i w : ℕ)
      → last_index (lib.to_upper (lib.trim s)) t ≡ some i
      → 0 < w
      → len (lib.trim (from (lib.trim s) (i + w))) < len s
  next_shorter s t i w h positive =
      let text = lib.trim s in
      let shorter =
        len-from text (i + (w - 1))
          (omega (arith, found_in_text (lib.to_upper text) t i h, upper_keeps text)) in
      let whole : suc (i + (w - 1)) ≡ i + w = omega (arith, positive) in
      omega (
        arith,
        trim_shrinks s,
        trim_shrinks (from text (i + w)),
        subst (λ n. len (from text n) < len text) whole shorter,
      )

  -- The body looks at shorter texts only.
  step_shorter :
      (again again' : String → Outcome (UqlCondition (UqlValue F))) (s : String)
      → ((t : String) → len t < len s → again t ≡ again' t)
      → condition_step lib again s ≡ condition_step lib again' s
  unfolding condition_step
  step_shorter again again' s same =
      go (last_index (lib.to_upper (lib.trim s)) " AND ")
        (last_index (lib.to_upper (lib.trim s)) " OR ") refl refl
    where
      text : String
      text = lib.trim s

      step :
          (String → Outcome (UqlCondition (UqlValue F)))
          → Option ℕ
          → Option ℕ
          → Outcome (UqlCondition (UqlValue F))
      step more a o = elim a [
        | some i ↦
            joined_condition lib (λ c. bare lib c no_condition)
              (parse_simple_condition lib (lib.trim (slice (lib.trim s) 0 i)))
              (more (lib.trim (from (lib.trim s) (i + 5))))
        | none ↦ elim o [
          | some i ↦
              joined_condition lib (λ c. bare lib no_condition c)
                (parse_simple_condition lib (lib.trim (slice (lib.trim s) 0 i)))
                (more (lib.trim (from (lib.trim s) (i + 4))))
          | none ↦ parse_simple_condition lib (lib.trim s)
        ]
      ]

      go :
          (a o : Option ℕ)
          → last_index (lib.to_upper (lib.trim s)) " AND " ≡ a
          → last_index (lib.to_upper (lib.trim s)) " OR " ≡ o
          → step again a o ≡ step again' a o
      go (some i) o ha ho =
          ap (joined_condition lib _ _) (same _ (next_shorter s " AND " i 5 ha (omega arith)))
      go none (some i) ha ho =
          ap (joined_condition lib _ _) (same _ (next_shorter s " OR " i 4 ho (omega arith)))
      go none none ha ho = refl

  one_more :
      (n : ℕ) (s : String) → len s < n → parse_condition lib n s ≡ parse_condition lib (suc n) s
  unfolding parse_condition
  one_more zero s h = elim (none_less h) [ ]
    where
      none_less : len s < 0 → ⊥
      none_less k = omega (arith, k)
  one_more (suc n) s h =
      step_shorter (λ t. parse_condition lib n t) (λ t. parse_condition lib (suc n) t) s
        (λ t shorter. one_more n t (omega (arith, shorter, h)))

  -- Provided that trimming never makes a text longer and upper case keeps its length, the fuel with which
  -- conditions are parsed is enough: any more of it gives the same outcome.
  pub parse_condition_enough :
      (more : ℕ) (s : String) → parse_condition lib (more + suc (len s)) s ≡ whole_condition lib s
  parse_condition_enough zero s = ap (λ n. parse_condition lib n s) (omega arith)
  parse_condition_enough (suc more) s =
      ap (λ n. parse_condition lib n s) (omega arith)
      ∙ sym (one_more (more + suc (len s)) s (omega arith))
      ∙ parse_condition_enough more s
