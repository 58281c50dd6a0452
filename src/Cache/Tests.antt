-- ===== src/Cache/Tests.antt =====
-- The cache in memory as the cache of the flags, and the theorems at small caches.
use Prim.Native.Char.{Char, code}
use mirador_core.Prelude.{
  ◌≡◌, refl, ap, Bool, true, false, Option, none, some, List, [], ◌∷◌, String, arith, ◌=ℕ◌,
  if◌then◌else◌, ◌==◌, fetch, fetch-store, string_keys, same_refl,
}
use mirador_core.Cache.Noop.{Json, NoopCache, get, set_bytes}
use mirador_core.Cache.Flags.{
  RuntimeFeatureFlags, FlagsJson, FlagCache, cache_key, get_feature_flags, set_feature_flags,
  update_feature_flag, with_flag, IsChanged, update_feature_flag_lem, get_default_feature_flags,
}

abbrev warm : NoopCache
warm = record { m = ("a", "1") ∷ ("b", "2") ∷ ("c", "3") ∷ [] }

-- An encoding of lists of texts: "x" before each character of a text, "e" after the text, "." at the
-- end.
abbrev enc_text : String → String → String
enc_text String.[] rest = String.◌∷◌ "e" rest
enc_text (String.◌∷◌ c s) rest = String.◌∷◌ "x" (String.◌∷◌ c (enc_text s rest))

abbrev enc : List String → String
enc [] = "."
enc (s ∷ l) = enc_text s (enc l)

abbrev begin_text : Option (List String) → Option (List String)
begin_text none = none
begin_text (some l) = some ("" ∷ l)

abbrev cons_head : Char → Option (List String) → Option (List String)
cons_head c none = none
cons_head c (some []) = none
cons_head c (some (s ∷ l)) = some (String.◌∷◌ c s ∷ l)

abbrev dec : String → Option (List String)
dec String.[] = none
dec (String.◌∷◌ tag String.[]) = if code tag =ℕ b'.' then some [] else none
dec (String.◌∷◌ tag (String.◌∷◌ c rest)) =
    if code tag =ℕ b'e' then begin_text (dec (String.◌∷◌ c rest)) else cons_head c (dec rest)

dec-end_text :
    (r : String) (l : List String) → dec r ≡ some l → dec (String.◌∷◌ "e" r) ≡ some ("" ∷ l)
dec-end_text String.[] l h = cc
dec-end_text (String.◌∷◌ c r) l h = ap begin_text h

dec-enc_text : (s r : String) (l : List String) → dec r ≡ some l → dec (enc_text s r) ≡ some (s ∷ l)
dec-enc_text String.[] r l h = dec-end_text r l h
dec-enc_text (String.◌∷◌ c s) r l h = ap (cons_head c) (dec-enc_text s r l h)

dec-enc : (l : List String) → dec (enc l) ≡ some l
dec-enc [] = refl
dec-enc (s ∷ l) = dec-enc_text s (enc l) l (dec-enc l)

abbrev letters : Json (Unit {0})
letters = record {
  marshal = λ _. some "{}";
  marshal_texts = enc;
  unmarshal_texts = dec;
  reads_back = dec-enc;
  no_text = refl;
}

noop_read-write :
    (c c' : NoopCache) (k v : String)
    → ◌≡◌ {A = Option NoopCache} (some (set_bytes c k v)) (some c')
    → get c' k ≡ some v
unfolding get
noop_read-write c c' k v h = ground (arith, fetch-store c.m k v k, same_refl k)

abbrev noop_flags : FlagCache NoopCache
noop_flags = record {
  read = get;
  write = λ c k v. some (set_bytes c k v);
  read-write = noop_read-write;
}

abbrev enc_bits : Bool → Bool → String
enc_bits true true = "11"
enc_bits true false = "10"
enc_bits false true = "01"
enc_bits false false = "00"

abbrev dec_bits : String → Option RuntimeFeatureFlags
dec_bits s =
    if s == "11"
    then some (record { rca_enabled = true; user_settings_enabled = true })
    else if s == "10"
    then some (record { rca_enabled = true; user_settings_enabled = false })
    else if s == "01"
    then some (record { rca_enabled = false; user_settings_enabled = true })
    else if s == "00"
    then some (record { rca_enabled = false; user_settings_enabled = false })
    else none

dec_bits-enc_bits :
    (a b : Bool)
    → dec_bits (enc_bits a b) ≡ some (record { rca_enabled = a; user_settings_enabled = b })
dec_bits-enc_bits true true = refl
dec_bits-enc_bits true false = refl
dec_bits-enc_bits false true = refl
dec_bits-enc_bits false false = refl

enc_bits_full : (a b : Bool) → (enc_bits a b == "") ≡ false
enc_bits_full true true = refl
enc_bits_full true false = refl
enc_bits_full false true = refl
enc_bits_full false false = refl

abbrev bits : FlagsJson
bits = record {
  encode = λ f. enc_bits f.rca_enabled f.user_settings_enabled;
  decode = dec_bits;
  reads_back = λ f. dec_bits-enc_bits f.rca_enabled f.user_settings_enabled;
  not_empty = λ f. enc_bits_full f.rca_enabled f.user_settings_enabled;
}

update_feature_flag_lem_example :
    IsChanged bits noop_flags "rca_enabled" false
      (get_feature_flags bits noop_flags warm)
      (get_feature_flags bits noop_flags (set_bytes warm cache_key "01"))
unfolding update_feature_flag with_flag get_feature_flags set_feature_flags get fetch
    get_default_feature_flags
update_feature_flag_lem_example =
    update_feature_flag_lem bits noop_flags warm (set_bytes warm cache_key "01") "rca_enabled" false
      refl
