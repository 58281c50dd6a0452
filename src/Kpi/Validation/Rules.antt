-- ===== src/Kpi/Validation/Rules.antt =====
-- What the checks accept, rule by rule.
use text.Mathlib.TextEquality.{eq_iff}
use mirador_core.Prelude.{
  ◌≡◌, refl, ◌≢◌, ◌↔◌, ◌⊎◌, inl, inr, Bool, true, false, not, List, [], ◌∷◌, ◌++◌, String, arith,
  if◌then◌else◌, ◌==◌, contains, string_keys, Bool-cases, eq_of_same,
}
use mirador_core.Prelude.Int.{ℤ, pos, ◌≤ℤ◌}
use mirador_core.Kpi.Text.{TextFunctions, norm}
use mirador_core.Kpi.Definition.{KpiDefinition}
use mirador_core.Kpi.Uuid.{runes, is_valid_uuid, is_valid_uuid_v5}
use mirador_core.Kpi.Validation.Defs.{
  FieldError, allowed_signal, check_layer, check_signal_type, check_kind, check_sentiment,
  check_datastore, check_impact, check_cause, check_name, check_formula, check_data_type,
  check_refresh_interval, check_uuid, check_dashboard,
}

-- A list of problems is empty exactly when the rule holds.
abbrev pub Checks : List FieldError → Type 0 → Type 0
Checks found Rule = (found ≡ []) ↔ Rule

pub join :
    {P Q : Type 0} (xs ys : List FieldError) → Checks xs P → Checks ys Q → Checks (xs ++ ys) (P × Q)
join [] ys p q = ((λ h. (p.0 refl, q.0 h)), (λ r. q.1 r.1))
join (x ∷ xs) ys p q = ((λ h. cc), (λ r. cc (p.1 r.0)))

pub layer_checks : (s : String) → Checks (check_layer s) ((s ≡ "impact") ⊎ (s ≡ "cause"))
unfolding check_layer
layer_checks s = (
  (λ h. ground (arith, eq_iff s "impact", eq_iff s "cause")),
  λ r. elim r [ inl e ↦ rw e refl | inr e ↦ rw e refl ],
)

-- A required field: it is there, and it is acceptable.
required :
    (absent good : Bool) (x y : FieldError)
    → Checks
        (if absent then x ∷ [] else if not good then y ∷ [] else [])
        ((absent ≡ false) × (good ≡ true))
required true good x y = ground arith
required false true x y = ground arith
required false false x y = ground arith

pub signal_type_checks :
    (s : String) → Checks (check_signal_type s) (contains s allowed_signal ≡ true)
unfolding check_signal_type
signal_type_checks s = (
  (λ h. ((required (s == "") (contains s allowed_signal) _ _).0 h).1),
  λ r. (required (s == "") (contains s allowed_signal) _ _).1 (present (Bool-cases (s == "")) r, r),
)
  where
    absent : s ≡ "" → contains s allowed_signal ≡ false
    absent e = rw e refl

    present :
        ((s == "") ≡ true) ⊎ ((s == "") ≡ false)
        → contains s allowed_signal ≡ true
        → (s == "") ≡ false
    present (inl e) r = cc (absent (eq_of_same s "" e))
    present (inr e) r = e

pub kind_checks :
    (t : TextFunctions) (s : String)
    → Checks (check_kind t s) ((s ≡ "") ⊎ (norm t s ≡ "business") ⊎ (norm t s ≡ "tech"))
unfolding check_kind
kind_checks t s = (
  (λ h. ground (arith, eq_iff s "", eq_iff (norm t s) "business", eq_iff (norm t s) "tech")),
  λ r. ground (arith, eq_iff s "", eq_iff (norm t s) "business", eq_iff (norm t s) "tech"),
)

pub sentiment_checks :
    (s : String)
    → Checks (check_sentiment s) ((s ≡ "positive") ⊎ (s ≡ "negative") ⊎ (s ≡ "neutral"))
unfolding check_sentiment
sentiment_checks s = (
  (λ h. ground (arith, eq_iff s "positive", eq_iff s "negative", eq_iff s "neutral")),
  λ r. elim r [ inl e ↦ rw e refl | inr (inl e) ↦ rw e refl | inr (inr e) ↦ rw e refl ],
)

-- No data store and no query type; or a data store that is configured, with a query type for
-- VictoriaMetrics.
abbrev pub DatastoreRule : TextFunctions → List String → String → String → Type 0
DatastoreRule t allowed ds qt =
    ((ds ≡ "") × (qt ≡ ""))
    ⊎ ((ds ≢ "")
        × (contains ds allowed ≡ true)
        × ((ds ≢ "victoriametrics")
            ⊎ ((qt ≢ "") × ((t.to_lower qt ≡ "metricsql") ⊎ (t.to_lower qt ≡ "promql")))))

pub datastore_checks :
    (t : TextFunctions) (allowed : List String) (ds qt : String)
    → Checks (check_datastore t allowed ds qt) (DatastoreRule t allowed ds qt)
unfolding check_datastore
datastore_checks t allowed ds qt = (
  (λ h. ground (
    arith,
    eq_iff ds "",
    eq_iff qt "",
    eq_iff ds "victoriametrics",
    eq_iff (t.to_lower qt) "metricsql",
    eq_iff (t.to_lower qt) "promql",
  )),
  λ r. ground (
    arith,
    eq_iff ds "",
    eq_iff qt "",
    eq_iff ds "victoriametrics",
    eq_iff (t.to_lower qt) "metricsql",
    eq_iff (t.to_lower qt) "promql",
  ),
)

abbrev pub ImpactRule : TextFunctions → String → KpiDefinition → Type 0
ImpactRule t layer k =
    layer ≡ "impact" → (t.trim_space k.business_impact ≢ "") ⊎ (t.trim_space k.definition ≢ "")

pub impact_checks :
    (t : TextFunctions) (layer : String) (k : KpiDefinition)
    → Checks (check_impact t layer k) (ImpactRule t layer k)
unfolding check_impact
impact_checks t layer k = (
  (λ h. ground (
    arith,
    eq_iff layer "impact",
    eq_iff (t.trim_space k.business_impact) "",
    eq_iff (t.trim_space k.definition) "",
  )),
  λ r. ground (
    arith,
    r,
    eq_iff layer "impact",
    eq_iff (t.trim_space k.business_impact) "",
    eq_iff (t.trim_space k.definition) "",
  ),
)

abbrev pub CauseRule : TextFunctions → String → KpiDefinition → Type 0
CauseRule t layer k = layer ≡ "cause" → t.trim_space k.classifier ≢ ""

pub cause_checks :
    (t : TextFunctions) (layer : String) (k : KpiDefinition)
    → Checks (check_cause t layer k) (CauseRule t layer k)
unfolding check_cause
cause_checks t layer k = (
  (λ h. ground (arith, eq_iff layer "cause", eq_iff (t.trim_space k.classifier) "")),
  λ r. ground (arith, r, eq_iff layer "cause", eq_iff (t.trim_space k.classifier) ""),
)

pub name_checks : (t : TextFunctions) (s : String) → Checks (check_name t s) (t.trim_space s ≢ "")
unfolding check_name
name_checks t s = (
  (λ h. ground (arith, eq_iff (t.trim_space s) "")),
  λ r. ground (arith, r, eq_iff (t.trim_space s) ""),
)

pub formula_checks :
    (layer qt : String) (f q : Bool)
    → Checks (check_formula layer qt f q) ((layer ≡ "impact") ⊎ (f ≡ true) ⊎ (q ≡ true))
unfolding check_formula
formula_checks layer qt true q = ((λ h. inr (inl refl)), λ r. ground (arith, eq_iff layer "impact"))
formula_checks layer qt false true =
    ((λ h. inr (inr refl)), λ r. ground (arith, eq_iff layer "impact"))
formula_checks layer qt false false =
    ((λ h. ground (arith, eq_iff layer "impact")), λ r. ground (arith, eq_iff layer "impact"))

pub data_type_checks :
    (t : TextFunctions) (s : String)
    → Checks
        (check_data_type t s)
        ((s ≡ "") ⊎ (norm t s ≡ "timeseries") ⊎ (norm t s ≡ "value") ⊎ (norm t s ≡ "categorical"))
unfolding check_data_type
data_type_checks t s = (
  (λ h. ground (
    arith,
    eq_iff s "",
    eq_iff (norm t s) "timeseries",
    eq_iff (norm t s) "value",
    eq_iff (norm t s) "categorical",
  )),
  λ r. ground (
    arith,
    eq_iff s "",
    eq_iff (norm t s) "timeseries",
    eq_iff (norm t s) "value",
    eq_iff (norm t s) "categorical",
  ),
)

pub refresh_interval_checks : (n : ℤ) → Checks (check_refresh_interval n) (pos 0 ≤ℤ n)
unfolding check_refresh_interval
refresh_interval_checks n = ((λ h. ground arith), λ r. ground arith)

pub uuid_checks :
    (field message id : String)
    → Checks (check_uuid field message id) ((id ≡ "") ⊎ (is_valid_uuid (runes id) ≡ true))
unfolding check_uuid
uuid_checks field message id =
    ((λ h. ground (arith, eq_iff id "")), λ r. ground (arith, eq_iff id ""))

pub dashboard_checks :
    (t : TextFunctions) (s : String)
    → Checks (check_dashboard t s) ((t.trim_space s ≢ "") × (is_valid_uuid_v5 (runes s) ≡ true))
unfolding check_dashboard
dashboard_checks t s = (
  (λ h. ground (arith, eq_iff (t.trim_space s) "")),
  λ r. ground (arith, eq_iff (t.trim_space s) ""),
)
