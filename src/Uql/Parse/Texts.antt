-- ===== src/Uql/Parse/Texts.antt =====
-- What the parser takes of the packages strings, strconv and regexp. Positions count bytes, as in Go. The
-- parser takes positions in a text from its upper case: that is the same text to it only where the
-- upper case keeps the lengths, as for ASCII.
use Prim.Native.Char.{code, len_utf8}
use Prim.Native.String.{◌++◌ as ◌+++◌, find, len, slice}
use mirador_core.Prelude.{
  ℕ, ◌+◌, ◌-◌, Bool, true, false, ◌&&◌, ◌||◌, Option, none, some, List, [], ◌∷◌, String,
  if◌then◌else◌, ◌==◌, string_keys, leb, ◌=ℕ◌,
}
use mirador_core.Prelude.Int.{ℤ}

-- The functions that change or read a text as a whole. `F` is float64.
pub record TextLibrary (F : Type 0) : Type 0 where
  pub trim : String → String
  pub to_upper : String → String
  pub to_lower : String → String
  pub atoi : String → Option ℤ
  pub atoi_error : String → String
  pub parse_float : String → Option F
  pub equal_fold : String → String → Bool

-- `strings.Index`, none in place of -1.
unfoldable pub index : String → String → Option ℕ
index s t = if leb (find s t) (len s) then some (find s t) else none

unfoldable pub has_prefix : String → String → Bool
has_prefix s t = slice s 0 (len t) == t

unfoldable pub has_suffix : String → String → Bool
has_suffix s t = leb (len t) (len s) && slice s (len s - len t) (len s) == t

-- `strings.LastIndex` of a text that is not empty.
unfoldable pub last_index : String → String → Option ℕ
unfolding has_prefix
last_index String.[] t = none
last_index (String.◌∷◌ c s) t = elim (last_index s t) [
  | some i ↦ some (len_utf8 c + i)
  | none ↦ if has_prefix (String.◌∷◌ c s) t then some 0 else none
]

abbrev pub from : String → ℕ → String
from s i = slice s i (len s)

-- `strings.Split(s, ",")`; `part` is what was read of the current part.
unfoldable pub split_from : String → String → List String
split_from part String.[] = part ∷ []
split_from part (String.◌∷◌ c s) =
    if code c =ℕ b',' then part ∷ split_from "" s else split_from (part +++ String.◌∷◌ c "") s

unfoldable pub split_commas : String → List String
unfolding split_from
split_commas s = split_from "" s

-- `strings.Cut(s, ":")`, and `strings.SplitN(s, ":", 2)` where it gives two parts.
unfoldable pub cut_colon : String → Option (String × String)
cut_colon String.[] = none
cut_colon (String.◌∷◌ c s) =
    let rest = cut_colon s in
    if code c =ℕ b':'
    then some ("", s)
    else elim rest [ none ↦ none | some parts ↦ some (String.◌∷◌ c parts.0, parts.1) ]

abbrev pub is_digit : ℕ → Bool
is_digit c = leb b'0' c && leb c b'9'

-- `\w`, and `\s` of regexp.
abbrev pub is_word : ℕ → Bool
is_word c = is_digit c || (leb b'a' c && leb c b'z') || (leb b'A' c && leb c b'Z') || c =ℕ b'_'

abbrev pub is_blank : ℕ → Bool
is_blank c = c =ℕ 32 || c =ℕ 9 || c =ℕ 10 || c =ℕ 12 || c =ℕ 13

-- The longest prefix of characters that pass a test, and the rest.
unfoldable pub span : (ℕ → Bool) → String → String × String
span test String.[] = ("", "")
span test (String.◌∷◌ c s) =
    let (taken, rest) = span test s in
    if test (code c) then (String.◌∷◌ c taken, rest) else ("", String.◌∷◌ c s)

-- The text after its first character, if that is the given one.
abbrev pub after_char : ℕ → String → Option String
after_char b String.[] = none
after_char b (String.◌∷◌ c s) = if code c =ℕ b then some s else none

-- `^(\w+)\(([^)]*)\)`: the name, the arguments and the rest of the text.
pub record Call : Type 0 where
  pub name : String
  pub arguments : String
  pub rest : String

abbrev pub closed_call : String → String × String → Option Call
closed_call name (arguments, rest) = elim (after_char b')' rest) [
  | none ↦ none
  | some rest' ↦ some (record { name = name; arguments = arguments; rest = rest' })
]

abbrev pub opened_call : String × String → Option Call
opened_call (name, rest) = if name == "" then none else elim (after_char b'(' rest) [
  | none ↦ none
  | some inside ↦ closed_call name (span (λ c. if c =ℕ b')' then false else true) inside)
]

unfoldable pub match_call : String → Option Call
unfolding span
match_call s = opened_call (span is_word s)

-- `\s+FROM\s+`: the rest of the text.
abbrev pub skip_blanks : String → Option String
skip_blanks s = let (blanks, rest) = span is_blank s in if blanks == "" then none else some rest

unfoldable pub match_from : String → Option String
unfolding span has_prefix
match_from s = elim (skip_blanks s) [
  | none ↦ none
  | some t ↦ if has_prefix t "FROM" then skip_blanks (from t 4) else none
]
