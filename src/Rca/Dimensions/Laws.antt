-- ===== src/Rca/Dimensions/Laws.antt =====
-- What a merged configuration answers, and what validation makes of a configuration.
use mirador_core.Prelude.{
  ◌≡◌, refl, Bool, false, ◌||◌, not, Option, none, some, List, [], ◌∷◌, map, String, arith,
  if◌then◌else◌, GoMap, fetch, store, fetch-store, contains, Distinct, string_keys, ◌⊎◌, inl, inr,
  All, ap, ◌∙◌,
}
use mirador_core.Kpi.Definition.{KpiDefinition}
use mirador_core.Rca.Dimensions.Floats.{Floats}
use mirador_core.Rca.Dimensions.Diagnostics.{RcaDiagnostics, add_once, contains-add_once}
use mirador_core.Rca.Dimensions.Defs.{
  RcaDimensionConfig, RcaConfig, default_dimension_config, get_dimension_weight, is_out_of_range,
  validate_and_normalize, add_labels, merge_labels, merge_weights, apply_layer, apply_option,
  layer_of, merge_global_rca_config, ConfigError, Warning, bad_penalty, bad_bonus,
}

module _ (fl : Floats) where
  abbrev pub keys : GoMap String fl.F → List String
  keys m = map (λ e. e.0) m

  -- The first of two weights that is there.
  abbrev pub first_of : Option fl.F → Option fl.F → Option fl.F
  first_of (some w) other = some w
  first_of none other = other

  abbrev pub weight_or_default : Option fl.F → fl.F
  weight_or_default none = fl.tenth
  weight_or_default (some w) = w

  fetch-absent :
      (m : GoMap String fl.F) (k : String) → contains k (keys m) ≡ false → fetch m k ≡ none
  unfolding fetch
  fetch-absent [] k h = refl
  fetch-absent (e ∷ m) k h = ground (arith, fetch-absent m k)

  fetch-merge_weights :
      (old new : GoMap String fl.F) (k : String)
      → Distinct (keys new)
      → fetch (merge_weights fl old new) k ≡ first_of (fetch new k) (fetch old k)
  unfolding fetch merge_weights
  fetch-merge_weights old [] k d = refl
  fetch-merge_weights old (e ∷ new) k d =
      fetch-merge_weights (store old e.0 e.1) new k d.1
      ∙ ground
          (arith, fetch-store old e.0 e.1 k, fetch-absent new e.0 d.0, string_keys.same_iff e.0 k)

  contains-add_labels :
      (new old : List String) (k : String)
      → contains k (add_labels fl new old) ≡ (contains k new || contains k old)
  unfolding add_labels
  contains-add_labels [] old k = refl
  contains-add_labels (label ∷ new) old k =
      contains-add_labels new (add_once label old) k ∙ ground (arith, contains-add_once label old k)

  module _ (order : List String → List String) where
    -- The order of a loop over a set keeps the set.
    abbrev pub KeepsLabels : Type 0
    KeepsLabels =
        (labels : List String) (k : String) → contains k (order labels) ≡ contains k labels

    contains-merge_labels :
        (old new : List String) (k : String)
        → KeepsLabels
        → contains k (merge_labels fl order old new) ≡ (contains k old || contains k new)
    unfolding merge_labels
    contains-merge_labels old [] k keeps = ground arith
    contains-merge_labels old (label ∷ new) k keeps =
        keeps (add_labels fl (label ∷ new) (add_labels fl old [])) k
        ∙ ground (
          arith,
          contains-add_labels (label ∷ new) (add_labels fl old []) k,
          contains-add_labels old [] k,
        )

    abbrev pub weights_of : Option (RcaDimensionConfig fl) → GoMap String fl.F
    weights_of none = []
    weights_of (some c) = c.dimension_weights

    abbrev pub labels_of : Option (RcaDimensionConfig fl) → List String
    labels_of none = []
    labels_of (some c) = c.extra_dimensions

    apply_option-weights :
        (c : RcaDimensionConfig fl) (layer : Option (RcaDimensionConfig fl)) (k : String)
        → Distinct (keys (weights_of layer))
        → fetch (apply_option fl order c layer).dimension_weights k
          ≡ first_of (fetch (weights_of layer) k) (fetch c.dimension_weights k)
    unfolding apply_option apply_layer fetch
    apply_option-weights c none k d = refl
    apply_option-weights c (some layer) k d =
        fetch-merge_weights c.dimension_weights layer.dimension_weights k d

    apply_option-labels :
        (c : RcaDimensionConfig fl) (layer : Option (RcaDimensionConfig fl)) (k : String)
        → KeepsLabels
        → contains k (apply_option fl order c layer).extra_dimensions
          ≡ (contains k c.extra_dimensions || contains k (labels_of layer))
    unfolding apply_option apply_layer
    apply_option-labels c none k keeps = ground arith
    apply_option-labels c (some layer) k keeps =
        contains-merge_labels c.extra_dimensions layer.extra_dimensions k keeps

    module _ (global : Option (RcaConfig fl)) (request : Option (RcaDimensionConfig fl))
        (kpis : List (Option KpiDefinition)) (diagnostics : Option RcaDiagnostics) where
      abbrev pub merged : RcaDimensionConfig fl
      merged = (merge_global_rca_config fl order global request kpis diagnostics).0

      -- The weight of a dimension in the merged configuration is the request's, or else the server's,
      -- or else 0.1, where the keys of each map are distinct.
      pub merged_weight :
          (k : String)
          → Distinct (keys (weights_of (layer_of fl global)))
          → Distinct (keys (weights_of request))
          → get_dimension_weight fl merged k
            ≡ weight_or_default (
                first_of (fetch (weights_of request) k) (fetch (weights_of (layer_of fl global)) k))
      unfolding merge_global_rca_config get_dimension_weight default_dimension_config fetch
      merged_weight k d e =
          ap weight_or_default
            {y = first_of (fetch (weights_of request) k)
              (fetch (weights_of (layer_of fl global)) k)}
            (apply_option-weights
                (apply_option fl order (default_dimension_config fl) (layer_of fl global)) request k
                e
              ∙ ground (
                arith,
                apply_option-weights (default_dimension_config fl) (layer_of fl global) k d,
              ))

      -- The merged configuration has exactly the extra dimensions of the server and of the request,
      -- in whatever order the loops over the sets give them.
      pub merged_labels :
          (k : String)
          → KeepsLabels
          → contains k merged.extra_dimensions
            ≡ (contains k (labels_of (layer_of fl global)) || contains k (labels_of request))
      unfolding merge_global_rca_config default_dimension_config
      merged_labels k keeps =
          apply_option-labels
            (apply_option fl order (default_dimension_config fl) (layer_of fl global)) request k
            keeps
          ∙ ground (
            arith,
            apply_option-labels (default_dimension_config fl) (layer_of fl global) k keeps,
          )

  abbrev pub IsInRange : fl.F → Type 0
  IsInRange x = is_out_of_range fl x ≡ false

  -- Neither alignment is out of range.
  abbrev pub is_aligned : RcaDimensionConfig fl → Bool
  is_aligned dc =
      not (is_out_of_range fl dc.alignment_penalty || is_out_of_range fl dc.alignment_bonus)

  -- What the validation leaves of a configuration whose alignments are in range.
  abbrev pub IsNormalized :
      RcaDimensionConfig fl → RcaDimensionConfig fl × (ConfigError fl ⊎ List (Warning fl)) → Type 0
  IsNormalized dc (after, result) =
      All (λ e. IsInRange e.1) after.dimension_weights
      × ((k : String) (w : fl.F)
          → fetch dc.dimension_weights k ≡ some w
          → IsInRange w
          → fetch after.dimension_weights k ≡ some w)
      × ((warnings : List (Warning fl)) × (result ≡ inr warnings))

  -- With an alignment out of range the validation gives an error and changes nothing.
  pub validate_and_normalize_fails :
      (dc : RcaDimensionConfig fl)
      → is_aligned dc ≡ false
      → (err : ConfigError fl) × (validate_and_normalize fl dc ≡ (dc, inl err))
  unfolding validate_and_normalize
  validate_and_normalize_fails dc h = (
    if is_out_of_range fl dc.alignment_penalty
        then bad_penalty dc.alignment_penalty
        else bad_bonus dc.alignment_bonus,
    ground arith,
  )
