-- ===== src/Rca/Labels/Laws.antt =====
-- Which label is detected, and which service is identified.
use mathlib.Core.Path.{subst}
use mirador_core.Prelude.{
  ◌≡◌, refl, ap, ◌∙◌, Bool, false, Option, none, some, List, [], ◌∷◌, map, String, arith,
  if◌then◌else◌, ◌==◌, GoMap, fetch, fetch-store, contains, Distinct, string_keys, eq_of_same,
  Bool-cases, inl, inr,
}
use mirador_core.Rca.Dimensions.{RcaDiagnostics}
use mirador_core.Rca.Labels.{
  LabelMapping, LabelWording, label_mappings, first_set, note_label, found_label, detect_labels,
  detect_available_labels, nonempty,
}

module _ (w : LabelWording) where
  -- The label of a standard name: itself, or the first alternative that the data carry.
  abbrev pub label_for : GoMap String Bool → List LabelMapping → String → Option String
  label_for provided [] name = none
  label_for provided (m ∷ mappings) name =
      if m.standard_name == name
      then first_set provided (m.standard_name ∷ m.alternatives)
      else label_for provided mappings name

  abbrev pub names : List LabelMapping → List String
  names = map (λ m. m.standard_name)

  -- The first value, or else the second.
  abbrev pub either : Option String → Option String → Option String
  either none second = second
  either (some v) second = some v

  either-none : (o : Option String) → either o none ≡ o
  either-none none = refl
  either-none (some v) = refl

  label_for_absent :
      (provided : GoMap String Bool) (mappings : List LabelMapping) (name : String)
      → contains name (names mappings) ≡ false
      → label_for provided mappings name ≡ none
  label_for_absent provided [] name h = refl
  label_for_absent provided (m ∷ mappings) name h =
      ground (arith, label_for_absent provided mappings name)

  fetch-note_label :
      (m : LabelMapping) (label : Option String) (available : GoMap String String)
      (rd : Option RcaDiagnostics) (name : String)
      → fetch (note_label w m label (available, rd)).0 name ≡ (
          if m.standard_name == name
          then either label (fetch available name)
          else fetch available name)
  fetch-note_label m none available rd name = ground arith
  fetch-note_label m (some label) available rd name =
      fetch-store available m.standard_name label name ∙ ground arith

  fetch-detect_labels :
      (provided : GoMap String Bool) (mappings : List LabelMapping)
      (result : GoMap String String × Option RcaDiagnostics) (name : String)
      → Distinct (names mappings)
      → fetch (detect_labels w provided mappings result).0 name
        ≡ either (label_for provided mappings name) (fetch result.0 name)
  unfolding detect_labels
  fetch-detect_labels provided [] result name d = refl
  fetch-detect_labels provided (m ∷ mappings) (available, rd) name d =
      let found = found_label w provided m in
      fetch-detect_labels provided mappings (note_label w m found (available, rd)) name d.1
      ∙ ap (either (label_for provided mappings name)) (fetch-note_label m found available rd name)
      ∙ elim (Bool-cases (m.standard_name == name)) [
        | inl e ↦
            let p = eq_of_same m.standard_name name e in
            rw
              (
                e,
                label_for_absent provided mappings name
                    (subst (λ n. contains n (names mappings) ≡ false) p d.0),
              )
              refl
        | inr e ↦ rw e refl
      ]

  -- A standard name is mapped to itself if the data carry it, else to
  -- the first of its alternatives that they carry; a name without either is not mapped.
  pub detect_available_labels_lem :
      (service : List String) (provided : GoMap String Bool) (rd : Option RcaDiagnostics)
      (name : String)
      → fetch (detect_available_labels w service provided rd).0 name
        ≡ label_for provided (label_mappings service) name
  unfolding detect_available_labels label_mappings fetch
  detect_available_labels_lem service provided rd name =
      fetch-detect_labels provided (label_mappings service) ([], rd) name
        (refl, (refl, (refl, (refl, tt))))
      ∙ either-none (label_for provided (label_mappings service) name)

  -- The first of the labels that has a value.
  abbrev pub first_value : GoMap String String → List String → Option String
  first_value labels [] = none
  first_value labels (label ∷ candidates) =
      either (nonempty w (fetch labels label)) (first_value labels candidates)

  abbrev pub or_unknown : Option String → String
  or_unknown none = "unknown"
  or_unknown (some v) = v
