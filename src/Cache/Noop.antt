-- ===== src/Cache/Noop.antt =====
-- `noopValkeyCache`. Bytes are a text, and `none` is an error. JSON is a parameter: the encoding of a
-- value, which may fail, and of a list of texts, which reads back.
use Prim.Native.String.{◌++◌ as ◌+++◌}
use mirador_core.Prelude.{
  ℕ, ◌≡◌, Option, none, some, List, [], ◌∷◌, ◌++◌, String, if◌then◌else◌, ◌==◌, GoMap, fetch, store,
  delete, contains, length, string_keys,
}

pub record Json (V : Type 0) : Type 0 where
  pub marshal : V → Option String
  pub marshal_texts : List String → String
  pub unmarshal_texts : String → Option (List String)
  pub reads_back : (l : List String) → unmarshal_texts (marshal_texts l) ≡ some l
  -- No bytes are no JSON.
  pub no_text : unmarshal_texts "" ≡ none

-- The cases of the type switch in `Set`.
pub data Value (V : Type 0) : Type 0 where
  bytes : String → Value V
  text : String → Value V
  other : V → Value V

pub record NoopCache : Type 0 where
  pub m : GoMap String String

unfoldable pub new_noop_cache : NoopCache
new_noop_cache = record { m = [] }

unfoldable pub get : NoopCache → String → Option String
get n key = fetch n.m key

abbrev pub set_bytes : NoopCache → String → String → NoopCache
set_bytes n key b = record { m = store n.m key b }

unfoldable pub delete_key : NoopCache → String → NoopCache
delete_key n key = record { m = delete n.m key }

unfoldable pub total_keys : NoopCache → ℕ
total_keys n = length n.m

unfoldable pub delete_multiple : NoopCache → List String → NoopCache
unfolding delete_key
delete_multiple n [] = n
delete_multiple n (key ∷ keys) = delete_multiple (delete_key n key) keys

abbrev pub set_key : String → String
set_key pattern_key = "set:" +++ pattern_key

unfoldable pub delete_pattern_index : NoopCache → String → NoopCache
unfolding delete_key
delete_pattern_index n pattern_key = delete_key n (set_key pattern_key)

module _ {V : Type 0} (json : Json V) where
  abbrev pub encoded : Value V → Option String
  encoded (bytes v) = some v
  encoded (text v) = some v
  encoded (other v) = json.marshal v

  unfoldable pub set : NoopCache → String → Value V → Option NoopCache
  set n key value = elim (encoded value) [ none ↦ none | some b ↦ some (set_bytes n key b) ]

  unfoldable pub cache_query_result : NoopCache → String → Value V → Option NoopCache
  unfolding set
  cache_query_result n query_hash result = set n ("query_cache:" +++ query_hash) result

  unfoldable pub get_cached_query_result : NoopCache → String → Option String
  unfolding get
  get_cached_query_result n query_hash = get n ("query_cache:" +++ query_hash)

  abbrev pub decoded : Option (List String) → List String
  decoded none = []
  decoded (some members) = members

  -- The members that `AddToPatternIndex` starts from; no data and bad data give none.
  abbrev pub members_of : Option String → List String
  members_of none = []
  members_of (some data_) = if data_ == "" then [] else decoded (json.unmarshal_texts data_)

  unfoldable pub add_to_pattern_index : NoopCache → String → String → NoopCache
  unfolding get
  add_to_pattern_index n pattern_key cache_key =
      let members = members_of (get n (set_key pattern_key)) in
      if contains cache_key members
      then n
      else set_bytes n (set_key pattern_key) (json.marshal_texts (members ++ (cache_key ∷ [])))

  unfoldable pub get_pattern_index_keys : NoopCache → String → List String
  unfolding get
  get_pattern_index_keys n pattern_key = elim (get n (set_key pattern_key)) [
    | none ↦ []
    | some data_ ↦ decoded (json.unmarshal_texts data_)
  ]
