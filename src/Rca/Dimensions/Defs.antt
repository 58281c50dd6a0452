-- ===== src/Rca/Dimensions/Defs.antt =====
-- `RCADimensionConfig`, its validation and the merge of the server's and the request's configuration.
-- A nil map is an empty one. A loop over a map takes the entries in the order of their list; where the
-- order decides the order of a result, `order` stands for the one that the run takes.
use mirador_core.Prelude.{
  Bool, ◌||◌, Option, none, some, List, [], ◌∷◌, ◌++◌, map, String, if◌then◌else◌, ◌==◌, GoMap,
  fetch, store, string_keys, ◌⊎◌, inl, inr,
}
use Prim.Native.String.{◌++◌ as ◌+++◌}
use mirador_core.Kpi.Definition.{KpiDefinition}
use mirador_core.Rca.Dimensions.Floats.{Floats}
use mirador_core.Rca.Dimensions.Diagnostics.{
  RcaDiagnostics, new_rca_diagnostics, add_reduced_accuracy_reason, add_once,
}

module _ (fl : Floats) where
  pub record RcaDimensionConfig : Type 0 where
    pub extra_dimensions : List String
    pub dimension_weights : GoMap String fl.F
    pub alignment_penalty : fl.F
    pub alignment_bonus : fl.F

  -- The fields of `config.RCAConfig` that the merge reads.
  pub record RcaConfig : Type 0 where
    pub extra_labels : List String
    pub extra_label_weights : GoMap String fl.F
    pub global_penalty : fl.F
    pub global_bonus : fl.F

  unfoldable pub default_dimension_config : RcaDimensionConfig
  default_dimension_config = record {
    extra_dimensions = [];
    dimension_weights = [];
    alignment_penalty = fl.fifth;
    alignment_bonus = fl.tenth;
  }

  unfoldable pub get_dimension_weight : RcaDimensionConfig → String → fl.F
  get_dimension_weight dc dimension = elim (fetch dc.dimension_weights dimension) [
    | some w ↦ w
    | none ↦ fl.tenth
  ]

  abbrev pub is_out_of_range : fl.F → Bool
  is_out_of_range x = fl.lt x fl.zero || fl.lt fl.one x

  abbrev pub clamp : fl.F → fl.F
  clamp x = if is_out_of_range x then (if fl.lt x fl.zero then fl.zero else fl.one) else x

  -- The loop over the weights: the map that it leaves, and the dimensions that it warns of.
  unfoldable pub clamp_weights : GoMap String fl.F → GoMap String fl.F
  clamp_weights [] = []
  clamp_weights (entry ∷ entries) = (entry.0, clamp entry.1) ∷ clamp_weights entries

  unfoldable pub clamped_dimensions : GoMap String fl.F → List String
  clamped_dimensions [] = []
  clamped_dimensions (entry ∷ entries) =
      if is_out_of_range entry.1
      then entry.0 ∷ clamped_dimensions entries
      else clamped_dimensions entries

  -- Which of the two alignments is invalid.
  pub data ConfigError : Type 0 where
    bad_penalty : fl.F → ConfigError
    bad_bonus : fl.F → ConfigError

  pub data Warning : Type 0 where
    weight_clamped : String → Warning
    no_extra_dimensions : Warning

  abbrev pub lack_of_dimensions : List String → List Warning
  lack_of_dimensions [] = no_extra_dimensions ∷ []
  lack_of_dimensions (_ ∷ _) = []

  unfoldable pub validate_and_normalize :
      RcaDimensionConfig → RcaDimensionConfig × (ConfigError ⊎ List Warning)
  unfolding clamp_weights clamped_dimensions
  validate_and_normalize dc =
      if is_out_of_range dc.alignment_penalty
      then (dc, inl (bad_penalty dc.alignment_penalty))
      else if is_out_of_range dc.alignment_bonus
      then (dc, inl (bad_bonus dc.alignment_bonus))
      else (
        record dc { dimension_weights = clamp_weights dc.dimension_weights },
        inr (
            map weight_clamped (clamped_dimensions dc.dimension_weights)
            ++ lack_of_dimensions dc.extra_dimensions),
      )

  -- The keys of the set `labelSet`.
  unfoldable pub add_labels : List String → List String → List String
  unfolding add_once
  add_labels [] labels = labels
  add_labels (label ∷ rest) labels = add_labels rest (add_once label labels)

  unfoldable pub merge_labels :
      (List String → List String) → List String → List String → List String
  unfolding add_labels
  merge_labels order old [] = old
  merge_labels order old (label ∷ labels) = order (add_labels (label ∷ labels) (add_labels old []))

  unfoldable pub merge_weights : GoMap String fl.F → GoMap String fl.F → GoMap String fl.F
  merge_weights old [] = old
  merge_weights old (entry ∷ entries) = merge_weights (store old entry.0 entry.1) entries

  abbrev pub override : fl.F → fl.F → fl.F
  override old new = if fl.lt fl.zero new then new else old

  -- One layer over another; both halves of the merge do this.
  unfoldable pub apply_layer :
      (List String → List String) → RcaDimensionConfig → RcaDimensionConfig → RcaDimensionConfig
  unfolding merge_labels merge_weights
  apply_layer order merged layer = record {
    extra_dimensions = merge_labels order merged.extra_dimensions layer.extra_dimensions;
    dimension_weights = merge_weights merged.dimension_weights layer.dimension_weights;
    alignment_penalty = override merged.alignment_penalty layer.alignment_penalty;
    alignment_bonus = override merged.alignment_bonus layer.alignment_bonus;
  }

  abbrev pub as_layer : RcaConfig → RcaDimensionConfig
  as_layer g = record {
    extra_dimensions = g.extra_labels;
    dimension_weights = g.extra_label_weights;
    alignment_penalty = g.global_penalty;
    alignment_bonus = g.global_bonus;
  }

  abbrev pub layer_of : Option RcaConfig → Option RcaDimensionConfig
  layer_of none = none
  layer_of (some g) = some (as_layer g)

  unfoldable pub apply_option :
      (List String → List String)
      → RcaDimensionConfig
      → Option RcaDimensionConfig
      → RcaDimensionConfig
  unfolding apply_layer
  apply_option order merged none = merged
  apply_option order merged (some layer) = apply_layer order merged layer

  abbrev pub kpi_note : String → String
  kpi_note name = "KPI '" +++ (name +++ "' (impact-layer) included in correlation context")

  -- The loop over the KPI definitions; `none` is a nil one.
  unfoldable pub note_kpis : RcaDiagnostics → List (Option KpiDefinition) → RcaDiagnostics
  unfolding add_reduced_accuracy_reason
  note_kpis rd [] = rd
  note_kpis rd (none ∷ kpis) = note_kpis rd kpis
  note_kpis rd (some k ∷ kpis) =
      note_kpis
        (if k.kind == "impact" then add_reduced_accuracy_reason rd (kpi_note k.name) else rd) kpis

  unfoldable pub given_or_new : Option RcaDiagnostics → RcaDiagnostics
  unfolding new_rca_diagnostics
  given_or_new none = new_rca_diagnostics
  given_or_new (some rd) = rd

  -- The merged configuration, and the diagnostics afterwards.
  unfoldable pub merge_global_rca_config :
      (List String → List String)
      → Option RcaConfig
      → Option RcaDimensionConfig
      → List (Option KpiDefinition)
      → Option RcaDiagnostics
      → RcaDimensionConfig × RcaDiagnostics
  unfolding default_dimension_config apply_option note_kpis given_or_new
  merge_global_rca_config order global request kpis diagnostics = (
    apply_option order (apply_option order default_dimension_config (layer_of global)) request,
    note_kpis (given_or_new diagnostics) kpis,
  )
