-- ===== src/Cache/NoopLaws.antt =====
-- What the cache in memory returns after a change.
use Prim.Native.String.{◌++◌ as ◌+++◌}
use mirador_core.Prelude.{
  ◌≡◌, refl, ◌∙◌, true, false, ◌||◌, Option, none, some, List, [], ◌∷◌, ◌++◌, String, arith,
  if◌then◌else◌, ◌==◌, fetch, fetch-store, fetch-delete, contains, contains-append, string_keys,
  same_refl, Bool-cases, Option-cases, inl, inr,
}
use mirador_core.Cache.Noop.{
  Json, Value, set, NoopCache, get, delete_key, delete_multiple, set_key, encoded,
  cache_query_result, get_cached_query_result, decoded, members_of, add_to_pattern_index,
  get_pattern_index_keys,
}

-- After `DeleteMultiple` the listed keys are gone and every other one reads as before.
pub get-delete_multiple :
    (n : NoopCache) (keys : List String) (key : String)
    → get (delete_multiple n keys) key ≡ (if contains key keys then none else get n key)
unfolding get delete_multiple delete_key
get-delete_multiple n [] key = refl
get-delete_multiple n (k ∷ keys) key =
    get-delete_multiple (delete_key n k) keys key ∙ ground (arith, fetch-delete n.m k key)

module _ {V : Type 0} (json : Json V) where
  decoded_members :
      (o : Option String)
      → (elim o [ none ↦ [] | some d ↦ decoded json (json.unmarshal_texts d) ]) ≡ members_of json o
  decoded_members none = refl
  decoded_members (some d) = ground (arith, string_keys.same_iff d "", json.no_text)

  -- The members that the index of a pattern starts from are those that it lists.
  members-keys :
      (n : NoopCache) (pattern_key : String)
      → get_pattern_index_keys json n pattern_key ≡ members_of json (get n (set_key pattern_key))
  unfolding get_pattern_index_keys get
  members-keys n pattern_key = decoded_members (fetch n.m (set_key pattern_key))

  keys-add_new :
      (n : NoopCache) (pattern_key cache_key : String)
      → contains cache_key (members_of json (get n (set_key pattern_key))) ≡ false
      → get_pattern_index_keys json (add_to_pattern_index json n pattern_key cache_key) pattern_key
        ≡ members_of json (get n (set_key pattern_key)) ++ (cache_key ∷ [])
  unfolding get_pattern_index_keys add_to_pattern_index get
  keys-add_new n pattern_key cache_key fresh =
      let members = members_of json (fetch n.m (set_key pattern_key)) in
      ground (
        arith,
        fetch-store n.m (set_key pattern_key) (json.marshal_texts (members ++ (cache_key ∷ [])))
            (set_key pattern_key),
        same_refl (set_key pattern_key),
        json.reads_back (members ++ (cache_key ∷ [])),
      )

  keys-add_old :
      (n : NoopCache) (pattern_key cache_key : String)
      → contains cache_key (members_of json (get n (set_key pattern_key))) ≡ true
      → add_to_pattern_index json n pattern_key cache_key ≡ n
  unfolding add_to_pattern_index
  keys-add_old n pattern_key cache_key old = ground arith

  -- A key that is added to the index of a pattern is listed there, and the others stay.
  pub add_to_pattern_index_lem :
      (n : NoopCache) (pattern_key cache_key other_key : String)
      → contains other_key (
          get_pattern_index_keys json
            (add_to_pattern_index json n pattern_key cache_key)
            pattern_key)
        ≡ (cache_key == other_key || contains other_key (get_pattern_index_keys json n pattern_key))
  add_to_pattern_index_lem n pattern_key cache_key other_key =
      elim (Bool-cases (contains cache_key (members_of json (get n (set_key pattern_key))))) [
        | inl old ↦ ground (
          arith,
          keys-add_old n pattern_key cache_key old,
          members-keys n pattern_key,
          string_keys.same_iff cache_key other_key,
        )
        | inr fresh ↦ ground (
          arith,
          keys-add_new n pattern_key cache_key fresh,
          members-keys n pattern_key,
          contains-append other_key (members_of json (get n (set_key pattern_key)))
              (cache_key ∷ []),
        )
      ]

  -- A query result that the cache takes is read back under its hash as it was encoded.
  pub get_cached-cache_query_result :
      (n : NoopCache) (query_hash : String) (result : Value V) {n' : NoopCache}
      → cache_query_result json n query_hash result ≡ some n'
      → get_cached_query_result json n' query_hash ≡ encoded json result
  unfolding cache_query_result get_cached_query_result get set
  get_cached-cache_query_result n query_hash result {n'} taken =
      elim (Option-cases (encoded json result)) [
        | inl failed ↦ ground arith
        | inr (b, ok) ↦ ground (
          arith,
          fetch-store n.m ("query_cache:" +++ query_hash) b ("query_cache:" +++ query_hash),
          same_refl ("query_cache:" +++ query_hash),
        )
      ]
