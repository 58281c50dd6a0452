-- ===== src/Kpi/Uuid.antt =====
-- The tests for UUIDs of internal/services/kpi_validation.go. A text is the list of its code points;
-- Go measures and indexes it by the bytes of its UTF-8 form, and `byte(c)` keeps a code point's
-- lowest byte.
use Prim.Native.Char.{code}
use mirador_core.Prelude.{
  ℕ, ◌+◌, ◌-◌, ◌%◌, ◌<◌, ◌≡◌, refl, ap, ◌↔◌, Bool, true, false, ◌&&◌, ◌||◌, List, [], ◌∷◌, String,
  arith, All, length, ltb, leb, ◌=ℕ◌, if◌then◌else◌,
}

abbrev pub runes : String → List ℕ
runes String.[] = []
runes (String.◌∷◌ c s) = code c ∷ runes s

-- The number of bytes of a code point.
abbrev pub width : ℕ → ℕ
width c = if ltb c 128 then 1 else if ltb c 2048 then 2 else if ltb c 65536 then 3 else 4

abbrev pub byte_len : List ℕ → ℕ
byte_len [] = 0
byte_len (c ∷ cs) = width c + byte_len cs

-- `s[at] == b` for an ASCII byte `b` and a text with more than `at` bytes: the byte of a longer code
-- point is never ASCII.
unfoldable pub byte_is : List ℕ → ℕ → ℕ → Bool
byte_is [] at b = false
byte_is (c ∷ cs) at b =
    if at =ℕ 0 then c =ℕ b else (leb (width c) at && byte_is cs (at - width c) b)

abbrev pub is_hex_digit : ℕ → Bool
is_hex_digit c =
    (leb b'0' c && leb c b'9') || (leb b'a' c && leb c b'f') || (leb b'A' c && leb c b'F')

abbrev pub is_hyphen_position : ℕ → Bool
is_hyphen_position i = i =ℕ 8 || i =ℕ 13 || i =ℕ 18 || i =ℕ 23

-- The loop over the code points; `i` is the offset of the code point in bytes.
unfoldable pub digits_from : ℕ → List ℕ → Bool
digits_from i [] = true
digits_from i (c ∷ cs) =
    (is_hyphen_position i || is_hex_digit (c % 256)) && digits_from (i + width c) cs

unfoldable pub is_valid_uuid : List ℕ → Bool
is_valid_uuid s =
    byte_len s =ℕ 36
    && (byte_is s 8 b'-' && byte_is s 13 b'-' && byte_is s 18 b'-' && byte_is s 23 b'-')
    && digits_from 0 s

unfoldable pub is_valid_uuid_v5 : List ℕ → Bool
is_valid_uuid_v5 s = is_valid_uuid s && byte_is s 14 b'5'

-- The shape 8-4-4-4-12, read from position `i`: hyphens at the four positions, hexadecimal digits
-- elsewhere, 36 characters in all.
abbrev pub HasUuidShape : ℕ → List ℕ → Type 0
HasUuidShape i [] = i ≡ 36
HasUuidShape i (c ∷ cs) =
    ((if is_hyphen_position i then c =ℕ b'-' else is_hex_digit c) ≡ true) × HasUuidShape (i + 1) cs

byte_len_ascii : (s : List ℕ) → All (λ c. c < 128) s → byte_len s ≡ length s
byte_len_ascii [] h = refl
byte_len_ascii (c ∷ cs) h = ground (arith, byte_len_ascii cs h.1)

-- The test for a hyphen at position `p`, in the text that is left from position `i`.
hyphen_at : ℕ → ℕ → List ℕ → Bool
hyphen_at p i s = leb (p + 1) i || byte_is s (p - i) b'-'

hyphen_at_step :
    (p i c : ℕ) (cs : List ℕ)
    → c < 128
    → hyphen_at p i (c ∷ cs) ≡ ((if i =ℕ p then c =ℕ b'-' else true) && hyphen_at p (i + 1) cs)
unfolding hyphen_at byte_is
hyphen_at_step p i c cs h = ground (arith, ap (λ (n : ℕ). byte_is cs n b'-') (minus p i))
  where
    minus : (p i : ℕ) → p - i - 1 ≡ p - (i + 1)
    minus p i = omega arith

hyphen_at_end : (p i : ℕ) → hyphen_at p i [] ≡ leb (p + 1) i
unfolding hyphen_at byte_is
hyphen_at_end p i = ground arith

hyphens_from : ℕ → List ℕ → Bool
hyphens_from i s = hyphen_at 8 i s && hyphen_at 13 i s && hyphen_at 18 i s && hyphen_at 23 i s

hyphens_from_step :
    (i c : ℕ) (cs : List ℕ)
    → c < 128
    → hyphens_from i (c ∷ cs)
      ≡ ((if is_hyphen_position i then c =ℕ b'-' else true) && hyphens_from (i + 1) cs)
unfolding hyphens_from
hyphens_from_step i c cs h = ground (
  arith,
  hyphen_at_step 8 i c cs h,
  hyphen_at_step 13 i c cs h,
  hyphen_at_step 18 i c cs h,
  hyphen_at_step 23 i c cs h,
)

digits_from_step :
    (i c : ℕ) (cs : List ℕ)
    → c < 128
    → digits_from i (c ∷ cs) ≡ ((is_hyphen_position i || is_hex_digit c) && digits_from (i + 1) cs)
unfolding digits_from
digits_from_step i c cs h = rw (small, one) refl
  where
    small : c % 256 ≡ c
    small = omega arith

    one : width c ≡ 1
    one = ground arith

join :
    (hyphen digit dash rest_h rest_d : Bool)
    → (((if hyphen then dash else true) && rest_h) && ((hyphen || digit) && rest_d))
      ≡ ((if hyphen then dash else digit) && (rest_h && rest_d))
join hyphen digit dash rest_h rest_d = ground arith

tests_end : (i : ℕ) → i ≡ 36 → (hyphens_from i [] && digits_from i []) ≡ true
unfolding hyphens_from digits_from
tests_end i h =
    ground (arith, hyphen_at_end 8 i, hyphen_at_end 13 i, hyphen_at_end 18 i, hyphen_at_end 23 i)

shape_iff :
    (i : ℕ) (s : List ℕ)
    → All (λ c. c < 128) s
    → (((length s + i =ℕ 36) && (hyphens_from i s && digits_from i s)) ≡ true) ↔ HasUuidShape i s
shape_iff i [] h = ground (arith, tests_end i)
shape_iff i (c ∷ cs) h =
    rw
      (
        hyphens_from_step i c cs h.0,
        digits_from_step i c cs h.0,
        join (is_hyphen_position i) (is_hex_digit c) (c =ℕ b'-') (hyphens_from (i + 1) cs)
            (digits_from (i + 1) cs),
      )
      (ground (arith, shape_iff (i + 1) cs h.1))

-- Of a text in ASCII, `isValidUUID` accepts exactly the shape 8-4-4-4-12 of hexadecimal digits.
pub is_valid_uuid_iff :
    (s : List ℕ) → All (λ c. c < 128) s → (is_valid_uuid s ≡ true) ↔ HasUuidShape 0 s
unfolding is_valid_uuid hyphens_from hyphen_at
is_valid_uuid_iff s h = ground (arith, byte_len_ascii s h, shape_iff 0 s h)
