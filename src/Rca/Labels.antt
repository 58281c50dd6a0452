-- ===== src/Rca/Labels.antt =====
-- The labels that the metrics carry (internal/rca/label_detector.go). The logger is left out. A loop
-- over the mappings takes them in the order of their list; no result depends on it but the order of
-- the diagnostics. What the package fmt prints is a parameter.
mod Laws
mod Tests
use mirador_core.Prelude.{
  Bool, true, false, ◌&&◌, not, Option, none, some, List, [], ◌∷◌, ◌++◌, String, if◌then◌else◌,
  ◌==◌, ◌=ℕ◌, GoMap, fetch, store, length, string_keys,
}
use mirador_core.Rca.Dimensions.{RcaDiagnostics, add_missing_label, add_reduced_accuracy_reason}

pub record LabelMapping : Type 0 where
  pub standard_name : String
  pub alternatives : List String

pub record LabelWording : Type 0 where
  pub missing_standard : String → List String → String
  pub missing_dimension : String → String
  pub fallback_used : String → String

abbrev pub mapping : String → List String → LabelMapping
mapping name alternatives = record { standard_name = name; alternatives = alternatives }

-- `StandardLabelMappings`, with the configured alternatives for the service, of which there may be
-- none.
unfoldable pub label_mappings : List String → List LabelMapping
label_mappings service =
    mapping "service_name" service
    ∷ mapping "span_name" ("span.name" ∷ "operation_name" ∷ "operation" ∷ [])
    ∷ mapping "span_kind" ("span.kind" ∷ "kind" ∷ [])
    ∷ mapping "status_code" ("status.code" ∷ "http_status" ∷ "status" ∷ [])
    ∷ []

-- `m[k]` of a map to truth values.
abbrev pub is_set : GoMap String Bool → String → Bool
is_set m k = elim (fetch m k) [ none ↦ false | some b ↦ b ]

-- The first of the labels that is there.
abbrev pub first_set : GoMap String Bool → List String → Option String
first_set provided [] = none
first_set provided (label ∷ labels) =
    if is_set provided label then some label else first_set provided labels

module _ (w : LabelWording) where
  abbrev pub told_missing : LabelMapping → Option RcaDiagnostics → Option RcaDiagnostics
  told_missing m none = none
  told_missing m (some rd) = some (
      add_reduced_accuracy_reason (add_missing_label rd m.standard_name)
        (w.missing_standard m.standard_name m.alternatives))

  -- What the loop's body does with the label that it found.
  abbrev pub note_label :
      LabelMapping
      → Option String
      → GoMap String String × Option RcaDiagnostics
      → GoMap String String × Option RcaDiagnostics
  note_label m none (available, rd) = (available, told_missing m rd)
  note_label m (some label) (available, rd) = (store available m.standard_name label, rd)

  abbrev pub found_label : GoMap String Bool → LabelMapping → Option String
  found_label provided m =
      if is_set provided m.standard_name
      then some m.standard_name
      else first_set provided m.alternatives

  unfoldable pub detect_labels :
      GoMap String Bool
      → List LabelMapping
      → GoMap String String × Option RcaDiagnostics
      → GoMap String String × Option RcaDiagnostics
  unfolding add_missing_label add_reduced_accuracy_reason
  detect_labels provided [] result = result
  detect_labels provided (m ∷ mappings) result =
      detect_labels provided mappings (note_label m (found_label provided m) result)

  unfoldable pub detect_available_labels :
      List String
      → GoMap String Bool
      → Option RcaDiagnostics
      → GoMap String String × Option RcaDiagnostics
  unfolding detect_labels label_mappings
  detect_available_labels service provided rd =
      detect_labels provided (label_mappings service) ([], rd)

  abbrev pub told_dimension : String → Bool → Option RcaDiagnostics → Option RcaDiagnostics
  told_dimension dim found none = none
  told_dimension dim found (some rd) =
      let status : RcaDiagnostics = record rd {
        dimension_detection_status = store rd.dimension_detection_status dim found;
      } in
      some (if found then status else add_reduced_accuracy_reason status (w.missing_dimension dim))

  unfoldable pub detect_extra_dimension_labels :
      List String
      → GoMap String Bool
      → GoMap String String × Option RcaDiagnostics
      → GoMap String String × Option RcaDiagnostics
  unfolding add_reduced_accuracy_reason
  detect_extra_dimension_labels [] provided result = result
  detect_extra_dimension_labels (dim ∷ dims) provided (available, rd) =
      detect_extra_dimension_labels dims provided (
        (if is_set provided dim then store available dim dim else available),
        told_dimension dim (is_set provided dim) rd,
      )

  -- A value that counts: it is there and not empty.
  abbrev pub nonempty : Option String → Option String
  nonempty none = none
  nonempty (some v) = if not (v == "") then some v else none

  abbrev pub detected_value : GoMap String String → Option String → Option String
  detected_value labels none = none
  detected_value labels (some label) = nonempty (fetch labels label)

  abbrev pub told : Option RcaDiagnostics → String → Option RcaDiagnostics
  told none reason = none
  told (some rd) reason = some (add_reduced_accuracy_reason rd reason)

  abbrev pub told_unknown : Option RcaDiagnostics → Option RcaDiagnostics
  told_unknown none = none
  told_unknown (some rd) = some (
      add_reduced_accuracy_reason (add_missing_label rd "service_name")
        "Could not determine service identifier from available labels")

  -- The value under `service`, or the answer for none.
  abbrev pub last_resort : Option String → Option RcaDiagnostics → String × Option RcaDiagnostics
  last_resort none rd = ("unknown", told_unknown rd)
  last_resort (some v) rd =
      (v, told rd "Using canonical 'service' label as last-resort service identifier")

  abbrev pub value_or :
      Option String
      → (String → String × Option RcaDiagnostics)
      → String × Option RcaDiagnostics
      → String × Option RcaDiagnostics
  value_or none use_it rest = rest
  value_or (some v) use_it rest = use_it v

  -- The loop over the configured labels.
  unfoldable pub fallback_service :
      GoMap String String → List String → Option RcaDiagnostics → String × Option RcaDiagnostics
  unfolding add_missing_label add_reduced_accuracy_reason
  fallback_service labels [] rd = last_resort (nonempty (fetch labels "service")) rd
  fallback_service labels (label ∷ candidates) rd =
      value_or (nonempty (fetch labels label)) (λ v. (v, told rd (w.fallback_used label)))
        (fallback_service labels candidates rd)

  unfoldable pub get_service_identifier :
      List String
      → GoMap String String
      → GoMap String String
      → Option RcaDiagnostics
      → String × Option RcaDiagnostics
  unfolding fallback_service
  get_service_identifier service labels available rd =
      value_or (detected_value labels (fetch available "service_name")) (λ v. (v, rd))
        (fallback_service labels service rd)
