-- ===== src/Rca/Labels/Tests.antt =====
-- The detection of labels on the labels of one metric.
use mirador_core.Prelude.{◌≡◌, refl, none, [], ◌∷◌, String, GoMap, fetch, string_keys}
use mirador_core.Rca.Labels.{LabelWording, get_service_identifier, fallback_service}
use mirador_core.Rca.Labels.Laws
use mirador_core.Rca.Labels.Laws.{label_for}

abbrev wording : LabelWording
wording = record {
  missing_standard = λ name alternatives. name;
  missing_dimension = λ d. d;
  fallback_used = λ label. label;
}

abbrev undetected : GoMap String String
undetected = []

abbrev labels : GoMap String String
labels = ("app", "") ∷ ("svc", "cart") ∷ []

second_label : (get_service_identifier wording ("app" ∷ "svc" ∷ []) labels [] none).0 ≡ "cart"
unfolding get_service_identifier fallback_service fetch
second_label = refl
