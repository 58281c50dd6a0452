-- ===== src/Rca/Scoring/Alignment.antt =====
-- `DimensionAlignmentScorer`. What the package fmt prints of a missing dimension is a parameter. The
-- logger is left out.
use mirador_core.Prelude.{
  Bool, true, false, ◌||◌, not, Option, none, some, List, [], ◌∷◌, ◌++◌, String, if◌then◌else◌,
  ◌==◌, ◌=ℕ◌, GoMap, fetch, store, length, string_keys,
}
use mirador_core.Rca.Events.{Numbers, EnrichedAnomalyEvent}
use mirador_core.Rca.Grouping.{AnomalyGroup}
use mirador_core.Rca.Dimensions.Floats.{Floats}
use mirador_core.Rca.Dimensions.{
  RcaDiagnostics, RcaDimensionConfig, get_dimension_weight, add_reduced_accuracy_reason,
}
use mirador_core.Rca.Scoring.Defs.{DimensionAlignment}

pub record DimensionWording : Type 0 where
  pub missing_note : String → Bool → Bool → String
  pub missing_reason : String → String

abbrev pub is_there : Option String → Bool
is_there none = false
is_there (some v) = true

abbrev pub or_empty : Option String → String
or_empty none = ""
or_empty (some v) = v

-- A value that counts: it is there and not empty.
abbrev pub usable : Option String → Option String
usable none = none
usable (some v) = if not (v == "") then some v else none

-- `result[dim] = val`, where there is a value.
abbrev pub store_some : GoMap String String → String → Option String → GoMap String String
store_some result dim none = result
store_some result dim (some v) = store result dim v

-- The inner loop of `ExtractImpactServiceDimensions`.
unfoldable pub take_values :
    List String → GoMap String String → GoMap String String → GoMap String String
take_values [] values result = result
take_values (dim ∷ dims) values result = take_values dims values (
    if not (is_there (fetch result dim))
    then store_some result dim (usable (fetch values dim))
    else result)

module _ (nu : Numbers) where
  -- The numbers as the configuration of dimensions takes them.
  abbrev pub floats : Floats
  floats = record {
    F = nu.scores.F;
    zero = nu.scores.zero_score;
    one = nu.one;
    tenth = nu.hundredths 10;
    fifth = nu.hundredths 20;
    lt = nu.scores.lt;
    zero-zero = nu.zero-zero;
    one-zero = nu.one-zero;
    one-one = nu.one-one;
  }

  -- The variables of the loop.
  pub record Tally : Type 0 where
    pub total_alignment_score : nu.scores.F
    pub sum_of_weights : nu.scores.F
    pub alignments : List (DimensionAlignment nu)
    pub alignment_notes : List String
    pub told : Option RcaDiagnostics

  module _ (w : DimensionWording) where
    abbrev pub report : String → Option RcaDiagnostics → Option RcaDiagnostics
    report dim none = none
    report dim (some rd) = some (add_reduced_accuracy_reason rd (w.missing_reason dim))

    abbrev pub aligned_row :
        String → Option String → Option String → nu.scores.F → Bool → DimensionAlignment nu
    aligned_row dim impact candidate weight aligned = record {
      dimension_key = dim;
      impact_service_value = or_empty impact;
      candidate_value = or_empty candidate;
      is_aligned = aligned;
      weight = weight;
    }

    -- The three branches of the loop's body.
    abbrev pub score_dimension :
        RcaDimensionConfig floats
        → String
        → Option String
        → Option String
        → nu.scores.F
        → Tally
        → Tally
    score_dimension cfg dim (some impact) (some candidate) weight t =
        if impact == candidate
        then record {
          total_alignment_score =
              nu.scores.add t.total_alignment_score (nu.mul weight cfg.alignment_bonus);
          sum_of_weights = nu.scores.add t.sum_of_weights weight;
          alignments =
              t.alignments ++ (aligned_row dim (some impact) (some candidate) weight true ∷ []);
          alignment_notes = t.alignment_notes;
          told = t.told;
        }
        else record {
          total_alignment_score =
              nu.sub t.total_alignment_score (nu.mul weight cfg.alignment_penalty);
          sum_of_weights = nu.scores.add t.sum_of_weights weight;
          alignments =
              t.alignments ++ (aligned_row dim (some impact) (some candidate) weight false ∷ []);
          alignment_notes = t.alignment_notes;
          told = t.told;
        }
    score_dimension cfg dim impact candidate weight t = record t {
      sum_of_weights = nu.scores.add t.sum_of_weights weight;
      alignments = t.alignments ++ (aligned_row dim impact candidate weight false ∷ []);
      alignment_notes =
          t.alignment_notes ++ (w.missing_note dim (is_there impact) (is_there candidate) ∷ []);
      told = report dim t.told;
    }

    unfoldable pub score_dimensions :
        RcaDimensionConfig floats
        → List String
        → GoMap String String
        → GoMap String String
        → Tally
        → Tally
    unfolding get_dimension_weight add_reduced_accuracy_reason
    score_dimensions cfg [] impact candidate t = t
    score_dimensions cfg (dim ∷ dims) impact candidate t =
        score_dimensions cfg dims impact candidate (
          score_dimension cfg dim (fetch impact dim) (fetch candidate dim)
            (get_dimension_weight floats cfg dim) t)

    abbrev pub normalized : Tally → nu.scores.F
    normalized t =
        if nu.scores.lt nu.scores.zero_score t.sum_of_weights
        then nu.div t.total_alignment_score t.sum_of_weights
        else nu.scores.zero_score

    abbrev pub no_tally : Option RcaDiagnostics → Tally
    no_tally rd = record {
      total_alignment_score = nu.scores.zero_score;
      sum_of_weights = nu.scores.zero_score;
      alignments = [];
      alignment_notes = [];
      told = rd;
    }

    -- The score, and the tally with the alignments, the notes and the diagnostics. Without dimensions
    -- the loop does nothing, which is the early return.
    unfoldable pub compute_dimension_alignment_score :
        AnomalyGroup nu.scores
        → GoMap String String
        → RcaDimensionConfig floats
        → Option RcaDiagnostics
        → nu.scores.F × Tally
    unfolding score_dimensions
    compute_dimension_alignment_score g impact cfg rd =
        if length cfg.extra_dimensions =ℕ 0 then (nu.scores.zero_score, no_tally rd) else (
          normalized (
              score_dimensions cfg cfg.extra_dimensions impact g.extra_dimension_values
                (no_tally rd)),
          score_dimensions cfg cfg.extra_dimensions impact g.extra_dimension_values (no_tally rd),
        )

  -- The first value of a dimension in a group is kept.
  unfoldable pub record_dimension_values_from_event :
      AnomalyGroup nu.scores → EnrichedAnomalyEvent nu.scores → List String → AnomalyGroup nu.scores
  unfolding take_values
  record_dimension_values_from_event g e dims = record g {
    extra_dimension_values = take_values dims e.anomaly_event.tags g.extra_dimension_values;
  }

  unfoldable pub extract_loop :
      List (AnomalyGroup nu.scores) → List String → GoMap String String → GoMap String String
  unfolding take_values
  extract_loop [] dims result = result
  extract_loop (g ∷ groups) dims result =
      if length result =ℕ length dims
      then result
      else extract_loop groups dims (take_values dims g.extra_dimension_values result)

  unfoldable pub extract_impact_service_dimensions :
      List (AnomalyGroup nu.scores) → List String → GoMap String String
  unfolding extract_loop
  extract_impact_service_dimensions groups dims =
      if length groups =ℕ 0 || length dims =ℕ 0 then [] else extract_loop groups dims []
