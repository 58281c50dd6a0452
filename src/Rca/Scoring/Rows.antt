-- ===== src/Rca/Scoring/Rows.antt =====
-- What the alignment of a candidate lists.
use mathlib.Core.List.{append_assoc, append-nil}
use mirador_core.Prelude.{
  ℕ, suc, ◌=ℕ◌, length, ◌≡◌, refl, ap, ◌∙◌, sym, Bool, false, ◌&&◌, not, Option, none, some, List,
  [], ◌∷◌, ◌++◌, map, String, arith, if◌then◌else◌, ◌==◌, GoMap, fetch, keep, string_keys,
  Bool-cases, inl, inr,
}
use mirador_core.Rca.Events.{Numbers}
use mirador_core.Rca.Grouping.{AnomalyGroup}
use mirador_core.Rca.Dimensions.{RcaDiagnostics, RcaDimensionConfig, get_dimension_weight}
use mirador_core.Rca.Scoring.Defs.{DimensionAlignment}
use mirador_core.Rca.Scoring.Alignment.{
  DimensionWording, is_there, floats, aligned_row, score_dimensions, score_dimension,
  compute_dimension_alignment_score, Tally, no_tally,
}

nonzero : (n : ℕ) → (suc n =ℕ 0) ≡ false
nonzero n = ground arith

module _ (nu : Numbers) (w : DimensionWording) (cfg : RcaDimensionConfig (floats nu))
    (impact candidate : GoMap String String) where
  -- Both have the dimension, with one value.
  abbrev pub agree : Option String → Option String → Bool
  agree (some a) (some b) = a == b
  agree _ _ = false

  -- The row that a dimension should have.
  abbrev pub row : String → DimensionAlignment nu
  row dim =
      aligned_row nu w dim (fetch impact dim) (fetch candidate dim)
        (get_dimension_weight (floats nu) cfg dim) (agree (fetch impact dim) (fetch candidate dim))

  abbrev pub is_missing : String → Bool
  is_missing dim = not (is_there (fetch impact dim) && is_there (fetch candidate dim))

  abbrev pub note : String → String
  note dim = w.missing_note dim (is_there (fetch impact dim)) (is_there (fetch candidate dim))

  row-score_dimension :
      (dim : String) (a b : Option String) (weight : nu.scores.F) (t : Tally nu)
      → (score_dimension nu w cfg dim a b weight t).alignments
        ≡ t.alignments ++ (aligned_row nu w dim a b weight (agree a b) ∷ [])
  row-score_dimension dim (some a) (some b) weight t = elim (Bool-cases (a == b)) [
    | inl h ↦ rw h refl
    | inr h ↦ rw h refl
  ]
  row-score_dimension dim (some a) none weight t = refl
  row-score_dimension dim none (some b) weight t = refl
  row-score_dimension dim none none weight t = refl

  note-score_dimension :
      (dim : String) (a b : Option String) (weight : nu.scores.F) (t : Tally nu)
      → (score_dimension nu w cfg dim a b weight t).alignment_notes
        ≡ t.alignment_notes
          ++ (if not (is_there a && is_there b)
              then w.missing_note dim (is_there a) (is_there b) ∷ []
              else [])
  note-score_dimension dim (some a) (some b) weight t = elim (Bool-cases (a == b)) [
    | inl h ↦ rw h (sym (append-nil t.alignment_notes))
    | inr h ↦ rw h (sym (append-nil t.alignment_notes))
  ]
  note-score_dimension dim (some a) none weight t = refl
  note-score_dimension dim none (some b) weight t = refl
  note-score_dimension dim none none weight t = refl

  rows-score_dimensions :
      (dims : List String) (t : Tally nu)
      → (score_dimensions nu w cfg dims impact candidate t).alignments
        ≡ t.alignments ++ map row dims
  unfolding score_dimensions
  rows-score_dimensions [] t = sym (append-nil t.alignments)
  rows-score_dimensions (dim ∷ dims) t =
      rows-score_dimensions dims _
      ∙ ap (λ l. l ++ map row dims)
          (row-score_dimension dim (fetch impact dim) (fetch candidate dim)
            (get_dimension_weight (floats nu) cfg dim) t)
      ∙ append_assoc t.alignments (row dim ∷ []) (map row dims)

  notes-score_dimensions :
      (dims : List String) (t : Tally nu)
      → (score_dimensions nu w cfg dims impact candidate t).alignment_notes
        ≡ t.alignment_notes ++ map note (keep is_missing dims)
  unfolding score_dimensions
  notes-score_dimensions [] t = sym (append-nil t.alignment_notes)
  notes-score_dimensions (dim ∷ dims) t =
      notes-score_dimensions dims _
      ∙ ap (λ l. l ++ map note (keep is_missing dims))
          (note-score_dimension dim (fetch impact dim) (fetch candidate dim)
            (get_dimension_weight (floats nu) cfg dim) t)
      ∙ elim (Bool-cases (is_missing dim)) [
        | inl h ↦
            rw h (append_assoc t.alignment_notes (note dim ∷ []) (map note (keep is_missing dims)))
        | inr h ↦
            rw h (ap (λ l. l ++ map note (keep is_missing dims)) (append-nil t.alignment_notes))
      ]

  -- The result, with the test for no dimension at all.
  rows-notes :
      (dims : List String) (early late : nu.scores.F) (rd : Option RcaDiagnostics)
      → let r : nu.scores.F × Tally nu =
          (if length dims =ℕ 0
            then (early, no_tally nu w rd)
            else (late, score_dimensions nu w cfg dims impact candidate (no_tally nu w rd))) in
        (r.1.alignments ≡ map row dims) × (r.1.alignment_notes ≡ map note (keep is_missing dims))
  rows-notes [] early late rd = (refl, refl)
  rows-notes (dim ∷ dims) early late rd =
      rw (nonzero (length dims))
        (rows-score_dimensions (dim ∷ dims) _, notes-score_dimensions (dim ∷ dims) _)

-- A candidate is aligned with the impact service on the configured dimensions, in their order: a row
-- for each with the values of both, its weight, and whether both have the dimension with one value;
-- and a note for each dimension that one of them lacks.
pub compute_dimension_alignment_score_lem :
    (nu : Numbers) (w : DimensionWording) (g : AnomalyGroup nu.scores)
    (impact : GoMap String String) (cfg : RcaDimensionConfig (floats nu))
    (rd : Option RcaDiagnostics)
    → ((compute_dimension_alignment_score nu w g impact cfg rd).1.alignments
        ≡ map (row nu w cfg impact g.extra_dimension_values) cfg.extra_dimensions)
      × ((compute_dimension_alignment_score nu w g impact cfg rd).1.alignment_notes
          ≡ map
              (note nu w cfg impact g.extra_dimension_values)
              (keep (is_missing nu w cfg impact g.extra_dimension_values) cfg.extra_dimensions))
unfolding compute_dimension_alignment_score
compute_dimension_alignment_score_lem nu w g impact cfg rd =
    rows-notes nu w cfg impact g.extra_dimension_values cfg.extra_dimensions _ _ rd
