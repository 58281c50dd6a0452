-- ===== src/Cache/Flags.antt =====
-- `RuntimeFeatureFlagService`, over any cache that returns what was stored. The encoding of the flags
-- is a parameter that reads back.
use mirador_core.Prelude.{
  ◌≡◌, Bool, true, false, Option, none, some, String, arith, if◌then◌else◌, ◌==◌, string_keys,
  Option-cases, ◌⊎◌, inl, inr,
}

pub record RuntimeFeatureFlags : Type 0 where
  pub rca_enabled : Bool
  pub user_settings_enabled : Bool

pub record FlagsJson : Type 0 where
  pub encode : RuntimeFeatureFlags → String
  pub decode : String → Option RuntimeFeatureFlags
  pub reads_back : (f : RuntimeFeatureFlags) → decode (encode f) ≡ some f
  pub not_empty : (f : RuntimeFeatureFlags) → (encode f == "") ≡ false

-- What the service uses of a cache: `none` is an error.
pub record FlagCache (C : Type 0) : Type 0 where
  pub read : C → String → Option String
  pub write : C → String → String → Option C
  pub read-write : (c c' : C) (k v : String) → write c k v ≡ some c' → read c' k ≡ some v

abbrev pub cache_key : String
cache_key = "runtime_features:system"

unfoldable pub get_default_feature_flags : RuntimeFeatureFlags
get_default_feature_flags = record { rca_enabled = true; user_settings_enabled = true }

-- Why an update fails: the name is unknown, or the cache refused.
pub data UpdateError : Type 0 where
  unknown_flag : String → UpdateError
  not_stored : UpdateError

module _ {C : Type 0} (json : FlagsJson) (cache : FlagCache C) where
  abbrev pub or_default : Option RuntimeFeatureFlags → RuntimeFeatureFlags
  unfolding get_default_feature_flags
  or_default none = get_default_feature_flags
  or_default (some flags) = flags

  unfoldable pub get_feature_flags : C → RuntimeFeatureFlags
  unfolding get_default_feature_flags
  get_feature_flags c = elim (cache.read c cache_key) [
    | none ↦ get_default_feature_flags
    | some cached ↦
        if cached == ""
        then get_default_feature_flags
        else elim (json.decode cached) [ none ↦ get_default_feature_flags | some flags ↦ flags ]
  ]

  unfoldable pub set_feature_flags : C → RuntimeFeatureFlags → Option C
  set_feature_flags c flags = cache.write c cache_key (json.encode flags)

  unfoldable pub with_flag : RuntimeFeatureFlags → String → Bool → Option RuntimeFeatureFlags
  with_flag flags flag_name enabled =
      if flag_name == "rca_enabled"
      then some (record flags { rca_enabled = enabled })
      else if flag_name == "user_settings_enabled"
      then some (record flags { user_settings_enabled = enabled })
      else none

  abbrev pub stored : Option C → C ⊎ UpdateError
  stored none = inr not_stored
  stored (some c) = inl c

  unfoldable pub update_feature_flag : C → String → Bool → C ⊎ UpdateError
  unfolding with_flag get_feature_flags set_feature_flags
  update_feature_flag c flag_name enabled =
      elim (with_flag (get_feature_flags c) flag_name enabled) [
        | none ↦ inr (unknown_flag flag_name)
        | some flags ↦ stored (set_feature_flags c flags)
      ]

  unfoldable pub reset_feature_flags : C → Option C
  unfolding set_feature_flags get_default_feature_flags
  reset_feature_flags c = set_feature_flags c get_default_feature_flags

  get-set_feature_flags :
      (c c' : C) (flags : RuntimeFeatureFlags)
      → set_feature_flags c flags ≡ some c'
      → get_feature_flags c' ≡ flags
  unfolding set_feature_flags get_feature_flags
  get-set_feature_flags c c' flags h = ground (
    arith,
    cache.read-write c c' cache_key (json.encode flags) h,
    json.reads_back flags,
    json.not_empty flags,
  )

  updated :
      (c c' : C) (flag_name : String) (enabled : Bool)
      → update_feature_flag c flag_name enabled ≡ inl c'
      → with_flag (get_feature_flags c) flag_name enabled ≡ some (get_feature_flags c')
  unfolding update_feature_flag
  updated c c' flag_name enabled h =
      elim (Option-cases (with_flag (get_feature_flags c) flag_name enabled)) [
        | inl unknown ↦ ground arith
        | inr (flags, known) ↦ ground (arith, get-set_feature_flags c c' flags)
      ]

  -- The named flag is as given, and the other is as before.
  abbrev pub IsChanged : String → Bool → RuntimeFeatureFlags → RuntimeFeatureFlags → Type 0
  IsChanged flag_name enabled old new =
      ((flag_name ≡ "rca_enabled")
        × (new.rca_enabled ≡ enabled)
        × (new.user_settings_enabled ≡ old.user_settings_enabled))
      ⊎ ((flag_name ≡ "user_settings_enabled")
          × (new.rca_enabled ≡ old.rca_enabled)
          × (new.user_settings_enabled ≡ enabled))

  with_flag-IsChanged :
      (old new : RuntimeFeatureFlags) (flag_name : String) (enabled : Bool)
      → with_flag old flag_name enabled ≡ some new
      → IsChanged flag_name enabled old new
  unfolding with_flag
  with_flag-IsChanged old new flag_name enabled h = ground (
    arith,
    string_keys.same_iff flag_name "rca_enabled",
    string_keys.same_iff flag_name "user_settings_enabled",
  )

  -- An update succeeds only for one of the two names; the flags that are read afterwards have the
  -- flag of that name as given, and the other as it was read before.
  pub update_feature_flag_lem :
      (c c' : C) (flag_name : String) (enabled : Bool)
      → update_feature_flag c flag_name enabled ≡ inl c'
      → IsChanged flag_name enabled (get_feature_flags c) (get_feature_flags c')
  update_feature_flag_lem c c' flag_name enabled h =
      with_flag-IsChanged _ _ flag_name enabled (updated c c' flag_name enabled h)
