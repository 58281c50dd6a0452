-- ===== src/Uql/Parse/Conditions.antt =====
-- The parsers of the conditions of a query and of their values.
use Prim.Native.String.{◌++◌ as ◌+++◌, len, slice}
use mirador_core.Prelude.{
  ℕ, zero, suc, ◌+◌, ◌-◌, Bool, true, false, ◌&&◌, none, some, List, [], ◌∷◌, String, if◌then◌else◌,
  string_keys, ◌=ℕ◌,
}
use mirador_core.Prelude.Int.{ℤ}
use mirador_core.Uql.Outcome.{Outcome, done, failed, panicked, ◌>>=◌}
use mirador_core.Uql.Syntax.{
  UqlCondition, no_condition, condition, UqlOperator, op_eq, op_neq, op_lt, op_le, op_gt, op_ge,
  op_like, op_match, op_other,
}
use mirador_core.Uql.Parse.Texts.{TextLibrary, index, has_prefix, has_suffix, last_index, from}

-- The values that a condition compares with.
pub data UqlValue (F : Type 0) : Type 0 where
  -- nil.
  no_value : UqlValue F
  text_value : String → UqlValue F
  int_value : ℤ → UqlValue F
  float_value : F → UqlValue F
  bool_value : Bool → UqlValue F

module _ {F : Type 0} (lib : TextLibrary F) where
  -- The text between two quotes, `s[1 : len(s)-1]`, which panics where the two are one character.
  abbrev pub unquoted : String → Outcome (UqlValue F)
  unquoted s = if len s =ℕ 1 then panicked else done (text_value (slice s 1 (len s - 1)))

  abbrev pub is_quoted_by : String → String → Bool
  is_quoted_by quote s = has_prefix s quote && has_suffix s quote

  abbrev pub plain_value : String → UqlValue F
  plain_value s = elim (lib.atoi s) [
    | some n ↦ int_value n
    | none ↦ elim (lib.parse_float s) [
      | some x ↦ float_value x
      | none ↦
          if lib.equal_fold s "true"
          then bool_value true
          else if lib.equal_fold s "false"
          then bool_value false
          else text_value s
    ]
  ]

  unfoldable pub parse_value : String → Outcome (UqlValue F)
  unfolding has_prefix has_suffix
  parse_value s =
      let text = lib.trim s in
      if is_quoted_by "'" text
      then unquoted text
      else if is_quoted_by "\"" text
      then unquoted text
      else done (plain_value text)

  -- A condition whose operator stands at `i` and takes `width` bytes.
  abbrev pub condition_at : String → UqlOperator → ℕ → ℕ → Outcome (UqlCondition (UqlValue F))
  condition_at s op i width = do
    value ← parse_value (lib.trim (from s (i + width)))
    done (condition (lib.trim (slice s 0 i)) op value no_condition no_condition)

  abbrev pub word_conditions : String → Outcome (UqlCondition (UqlValue F))
  word_conditions s = elim (index (lib.to_upper s) " LIKE ") [
    | some i ↦ condition_at s op_like i 6
    | none ↦ elim (index (lib.to_upper s) " MATCH ") [
      | some i ↦ condition_at s op_match i 7
      | none ↦ failed ("no valid operator found in condition: " +++ s)
    ]
  ]

  -- The loop over the operators, in the order in which they are tried.
  unfoldable pub symbol_conditions :
      List (String × UqlOperator) → String → Outcome (UqlCondition (UqlValue F))
  unfolding index parse_value
  symbol_conditions [] s = word_conditions s
  symbol_conditions (op ∷ ops) s =
      let rest = symbol_conditions ops s in
      elim (index s op.0) [ some i ↦ condition_at s op.1 i (len op.0) | none ↦ rest ]

  abbrev pub symbols : List (String × UqlOperator)
  symbols =
      (">=", op_ge)
      ∷ ("<=", op_le)
      ∷ ("!=", op_neq)
      ∷ ("=", op_eq)
      ∷ (">", op_gt)
      ∷ ("<", op_lt)
      ∷ []

  unfoldable pub parse_simple_condition : String → Outcome (UqlCondition (UqlValue F))
  unfolding symbol_conditions
  parse_simple_condition s = symbol_conditions symbols s

  -- The condition that AND or OR makes. That on its left is parsed, and only its error is kept.
  abbrev pub joined_condition :
      (UqlCondition (UqlValue F) → UqlCondition (UqlValue F))
      → Outcome (UqlCondition (UqlValue F))
      → Outcome (UqlCondition (UqlValue F))
      → Outcome (UqlCondition (UqlValue F))
  joined_condition make left right = do _ ← left; c ← right; done (make c)

  -- A condition without a field, over the conditions that it joins.
  abbrev pub bare :
      UqlCondition (UqlValue F) → UqlCondition (UqlValue F) → UqlCondition (UqlValue F)
  bare and or = condition "" (op_other "") no_value and or

  -- The body of `parseCondition`, over its calls of itself.
  unfoldable pub condition_step :
      (String → Outcome (UqlCondition (UqlValue F))) → String → Outcome (UqlCondition (UqlValue F))
  unfolding parse_simple_condition last_index
  condition_step again s =
      let text = lib.trim s in
      elim (last_index (lib.to_upper text) " AND ") [
        | some i ↦
            joined_condition (λ c. bare c no_condition)
              (parse_simple_condition (lib.trim (slice text 0 i)))
              (again (lib.trim (from text (i + 5))))
        | none ↦ elim (last_index (lib.to_upper text) " OR ") [
          | some i ↦
              joined_condition (λ c. bare no_condition c)
                (parse_simple_condition (lib.trim (slice text 0 i)))
                (again (lib.trim (from text (i + 4))))
          | none ↦ parse_simple_condition text
        ]
      ]

  -- `n` bounds the depth of the calls; each is on a shorter text than the one before.
  unfoldable pub parse_condition : ℕ → String → Outcome (UqlCondition (UqlValue F))
  unfolding condition_step
  parse_condition zero s = failed "out of fuel"
  parse_condition (suc n) s = condition_step (λ t. parse_condition n t) s

  -- `parseCondition`, with more fuel than the text has bytes.
  abbrev pub whole_condition : String → Outcome (UqlCondition (UqlValue F))
  whole_condition s = parse_condition (suc (len s)) s
