-- ===== src/Rca/Dimensions/Kpis.antt =====
-- The KPIs that the merge notes, against those that the validation of KPIs accepts.
use mirador_core.Prelude.{
  ◌≡◌, refl, Bool, true, false, Option, none, some, List, [], ◌∷◌, String, if◌then◌else◌, ◌==◌, All,
  ◌⊎◌, inl, inr, string_keys, Bool-cases, eq_of_same, ap, ◌∙◌, sym,
}
use mirador_core.Kpi.Text.{TextFunctions, norm}
use mirador_core.Kpi.Definition.{KpiDefinition}
use mirador_core.Kpi.Validation.{Datastores, IsValidKpi}
use mirador_core.Rca.Dimensions.Floats.{Floats}
use mirador_core.Rca.Dimensions.Diagnostics.{RcaDiagnostics, add_reduced_accuracy_reason}
use mirador_core.Rca.Dimensions.Defs.{
  RcaDimensionConfig, RcaConfig, note_kpis, given_or_new, merge_global_rca_config, kpi_note,
}

module _ (t : TextFunctions) (cfg : Option Datastores) where
  -- A definition that is given passes the validation.
  abbrev pub IsNilOrValid : Option KpiDefinition → Type 0
  IsNilOrValid none = Unit
  IsNilOrValid (some k) = IsValidKpi t cfg k

  valid_kind :
      (k : KpiDefinition)
      → norm t "impact" ≡ "impact"
      → IsValidKpi t cfg k
      → (k.kind == "impact") ≡ false
  valid_kind k h v = elim (Bool-cases (k.kind == "impact")) [
    | inr other ↦ other
    | inl is ↦ cc (excluded (eq_of_same k.kind "impact" is) v.1.1.0)
  ]
    where
      excluded :
          k.kind ≡ "impact"
          → ((k.kind ≡ "") ⊎ (norm t k.kind ≡ "business") ⊎ (norm t k.kind ≡ "tech"))
          → false ≡ true
      excluded e (inl p) = ap (λ s. s == "impact") (sym p ∙ e)
      excluded e (inr (inl p)) = ap (λ s. s == "impact") (sym p ∙ (ap (norm t) e ∙ h))
      excluded e (inr (inr p)) = ap (λ s. s == "impact") (sym p ∙ (ap (norm t) e ∙ h))

  note_kpis_valid :
      (fl : Floats) (rd : RcaDiagnostics) (kpis : List (Option KpiDefinition))
      → norm t "impact" ≡ "impact"
      → All IsNilOrValid kpis
      → note_kpis fl rd kpis ≡ rd
  unfolding note_kpis
  note_kpis_valid fl rd [] h v = refl
  note_kpis_valid fl rd (none ∷ kpis) h v = note_kpis_valid fl rd kpis h v.1
  note_kpis_valid fl rd (some k ∷ kpis) h v =
      ap
        (λ (b : Bool).
          note_kpis fl (if b then add_reduced_accuracy_reason rd (kpi_note fl k.name) else rd) kpis)
        (valid_kind k h v.0)
      ∙ note_kpis_valid fl rd kpis h v.1

  -- Where trimming and lower case leave the word "impact" as it is, the merge notes no KPI that passes
  -- the validation: it looks for a kind "impact", and the validation allows that word as a layer only.
  pub merge_notes_no_valid_kpi :
      (fl : Floats) (order : List String → List String) (global : Option (RcaConfig fl))
      (request : Option (RcaDimensionConfig fl)) (kpis : List (Option KpiDefinition))
      (diagnostics : Option RcaDiagnostics)
      → norm t "impact" ≡ "impact"
      → All IsNilOrValid kpis
      → (merge_global_rca_config fl order global request kpis diagnostics).1
        ≡ given_or_new fl diagnostics
  unfolding merge_global_rca_config
  merge_notes_no_valid_kpi fl order global request kpis diagnostics h v =
      note_kpis_valid fl (given_or_new fl diagnostics) kpis h v
