-- ===== src/Rca/Dimensions/Diagnostics.antt =====
-- `RCADiagnostics`.
use mirador_core.Prelude.{
  Bool, true, false, ◌≡◌, refl, ◌||◌, List, [], ◌∷◌, ◌++◌, String, arith, if◌then◌else◌, ◌==◌,
  GoMap, contains, contains-append, Distinct, string_keys, Bool-cases, inl, inr,
}

pub record RcaDiagnostics : Type 0 where
  pub missing_labels : List String
  pub dimension_detection_status : GoMap String Bool
  pub isolation_forest_issues : List String
  pub reduced_accuracy_reasons : List String
  pub metrics_query_errors : List String

unfoldable pub new_rca_diagnostics : RcaDiagnostics
new_rca_diagnostics = record {
  missing_labels = [];
  dimension_detection_status = [];
  isolation_forest_issues = [];
  reduced_accuracy_reasons = [];
  metrics_query_errors = [];
}

-- The loop that both methods share: a text that is recorded is not recorded again.
unfoldable pub add_once : String → List String → List String
add_once label existing = if contains label existing then existing else existing ++ (label ∷ [])

unfoldable pub add_missing_label : RcaDiagnostics → String → RcaDiagnostics
unfolding add_once
add_missing_label rd label = record rd { missing_labels = add_once label rd.missing_labels }

unfoldable pub add_reduced_accuracy_reason : RcaDiagnostics → String → RcaDiagnostics
unfolding add_once
add_reduced_accuracy_reason rd reason = record rd {
  reduced_accuracy_reasons = add_once reason rd.reduced_accuracy_reasons;
}

abbrev is_some_text : List String → Bool
is_some_text [] = false
is_some_text (_ ∷ _) = true

unfoldable pub has_significant_issues : RcaDiagnostics → Bool
has_significant_issues rd =
    is_some_text rd.missing_labels
    || is_some_text rd.isolation_forest_issues
    || is_some_text rd.reduced_accuracy_reasons

pub contains-add_once :
    (label : String) (existing : List String) (other : String)
    → contains other (add_once label existing) ≡ (label == other || contains other existing)
unfolding add_once
contains-add_once label existing other =
    ground (arith, string_keys.same_iff label other, contains-append other existing (label ∷ []))

append-Distinct :
    (label : String) (existing : List String)
    → Distinct existing
    → contains label existing ≡ false
    → Distinct (existing ++ (label ∷ []))
append-Distinct label [] d h = (refl, tt)
append-Distinct label (x ∷ xs) d h = (
  ground (
    arith,
    contains-append x xs (label ∷ []),
    string_keys.same_iff x label,
    string_keys.same_iff label x,
  ),
  append-Distinct label xs d.1 (ground arith),
)

add_once-Distinct :
    (label : String) (existing : List String)
    → Distinct existing
    → Distinct (add_once label existing)
unfolding add_once
add_once-Distinct label existing d = elim (Bool-cases (contains label existing)) [
  | inl h ↦ rw h d
  | inr h ↦ rw h (append-Distinct label existing d h)
]

is_some_text-add_once :
    (label : String) (existing : List String) → is_some_text (add_once label existing) ≡ true
unfolding add_once
is_some_text-add_once label [] = refl
is_some_text-add_once label (x ∷ xs) = ground arith

-- A missing label that is added is recorded and the others stay, no label is recorded twice, and the
-- diagnostics then count as significant.
pub add_missing_label_lem :
    (rd : RcaDiagnostics) (label : String)
    → Distinct rd.missing_labels
    → Distinct (add_missing_label rd label).missing_labels
      × ((other : String)
          → contains other (add_missing_label rd label).missing_labels
            ≡ (label == other || contains other rd.missing_labels))
      × (has_significant_issues (add_missing_label rd label) ≡ true)
unfolding add_missing_label has_significant_issues
add_missing_label_lem rd label distinct = (
  add_once-Distinct label rd.missing_labels distinct,
  contains-add_once label rd.missing_labels,
  ground (arith, is_some_text-add_once label rd.missing_labels),
)
