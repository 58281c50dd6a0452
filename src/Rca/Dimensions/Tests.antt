-- ===== src/Rca/Dimensions/Tests.antt =====
-- The theorems at a configuration whose numbers are tenths.
use mirador_core.Prelude.{◌≡◌, refl, none, some, List, [], ◌∷◌, String, contains, string_keys}
use mirador_core.Kpi.Text.{plain}
use mirador_core.Kpi.Sample
use mirador_core.Kpi.Sample.{latency, accepted}
use mirador_core.Kpi.Validation
use mirador_core.Rca.Dimensions.{
  RcaDiagnostics, RcaDimensionConfig, RcaConfig, merge_global_rca_config, given_or_new,
}
use mirador_core.Rca.Dimensions.Floats.{tenths}
use mirador_core.Rca.Dimensions.Laws
use mirador_core.Rca.Dimensions.Laws.{keys, weights_of, labels_of, first_of, weight_or_default}
use mirador_core.Rca.Dimensions.Kpis.{merge_notes_no_valid_kpi}

abbrev wanted : RcaDimensionConfig tenths
wanted = record {
  extra_dimensions = "zone" ∷ "env" ∷ [];
  dimension_weights = ("env", 14) ∷ ("zone", 3) ∷ [];
  alignment_penalty = 4;
  alignment_bonus = 0;
}

abbrev server : RcaConfig tenths
server = record {
  extra_labels = "env" ∷ "region" ∷ [];
  extra_label_weights = ("env", 2) ∷ ("region", 5) ∷ [];
  global_penalty = 3;
  global_bonus = 2;
}

abbrev broken : RcaDimensionConfig tenths
broken = record wanted { alignment_penalty = 11 }

same_order : List String → List String
same_order labels = labels

same_order-keeps :
    (labels : List String) (k : String) → contains k (same_order labels) ≡ contains k labels
unfolding same_order
same_order-keeps labels k = refl

abbrev noted : RcaDiagnostics
noted = record {
  missing_labels = "service" ∷ [];
  dimension_detection_status = [];
  isolation_forest_issues = [];
  reduced_accuracy_reasons = [];
  metrics_query_errors = [];
}

merge_notes_no_valid_kpi_example :
    (merge_global_rca_config tenths same_order
      (some server)
      (some wanted)
      (none ∷ some latency ∷ [])
      (some noted)).1
    ≡ given_or_new tenths (some noted)
merge_notes_no_valid_kpi_example =
    merge_notes_no_valid_kpi plain (some Sample.server) tenths same_order (some server)
      (some wanted) (none ∷ some latency ∷ []) (some noted) refl
      (
        tt,
        (
          (Validation.validate_kpi_definition_lem plain (some Sample.server) latency).0 accepted,
          tt,
        ),
      )
