-- ===== src/Kpi/Validation/Defs.antt =====
-- The checks of `ValidateKPIDefinition`, in its order; each returns the problems that it adds.
use Prim.Native.String.{◌++◌ as ◌+++◌}
use mirador_core.Prelude.{
  Bool, true, false, ◌&&◌, ◌||◌, not, Option, none, some, List, [], ◌∷◌, ◌++◌, String,
  if◌then◌else◌, ◌==◌, contains, string_keys,
}
use mirador_core.Prelude.Int.{ℤ, pos, leb_ℤ}
use mirador_core.Kpi.Text.{TextFunctions, norm}
use mirador_core.Kpi.Definition.{KpiDefinition}
use mirador_core.Kpi.Uuid.{runes, is_valid_uuid, is_valid_uuid_v5}

pub record FieldError : Type 0 where
  pub field : String
  pub message : String

-- The parts of the server's configuration that the validation reads: the default block of
-- VictoriaMetrics by its name and the endpoints, and the names of further metrics sources.
pub record Datastores : Type 0 where
  pub name : String
  pub endpoints : List String
  pub sources : List String

abbrev pub one : String → String → List FieldError
one field message = record { field = field; message = message } ∷ []

-- `Error`: the problems with their fields, separated by semicolons.
abbrev told : FieldError → String
told p = p.field +++ (": " +++ p.message)

unfoldable pub error_text : List FieldError → String
error_text [] = ""
error_text (p ∷ []) = told p
error_text (p ∷ q ∷ ps) = told p +++ ("; " +++ error_text (q ∷ ps))

abbrev pub is_empty {ℓ} : {A : Type ℓ} → List A → Bool
is_empty [] = true
is_empty (_ ∷ _) = false

unfoldable pub check_layer : String → List FieldError
check_layer layer =
    if layer == ""
    then one "layer" "layer is required and must be 'impact' or 'cause'"
    else if not (layer == "impact") && not (layer == "cause")
    then one "layer" "invalid layer value; allowed: impact, cause"
    else []

abbrev pub allowed_signal : List String
allowed_signal =
    "metrics" ∷ "traces" ∷ "logs" ∷ "business" ∷ "synthetic" ∷ "metricdef" ∷ "metriclabeldef"
    ∷ "metricformula" ∷ "logaggrformula" ∷ "logfielddef" ∷ "tracesservicedef" ∷ "tracesoperationdef"
    ∷ []

unfoldable pub check_signal_type : String → List FieldError
check_signal_type sig =
    if sig == ""
    then one "signalType" "signalType is required"
    else if not (contains sig allowed_signal)
    then one "signalType"
        "invalid signalType; allowed: metrics, traces, logs, business, synthetic (legacy variants accepted)"
    else []

unfoldable pub check_kind : TextFunctions → String → List FieldError
check_kind t kind =
    if not (kind == "")
    then (if not (norm t kind == "business") && not (norm t kind == "tech")
        then one "kind" "if present, kind must be 'business' or 'tech'"
        else [])
    else []

unfoldable pub check_sentiment : String → List FieldError
check_sentiment sentiment =
    if sentiment == ""
    then one "sentiment" "sentiment is required and must be one of: positive, negative, neutral"
    else if not (sentiment == "positive")
        && not (sentiment == "negative")
        && not (sentiment == "neutral")
    then one "sentiment" "invalid sentiment; allowed: positive, negative, neutral"
    else []

-- The keys of the map `allowedDatastores`.
unfoldable pub source_names : TextFunctions → List String → List String
source_names t [] = []
source_names t (name ∷ names) =
    if not (name == "") then t.to_lower name ∷ source_names t names else source_names t names

unfoldable pub allowed_datastores : TextFunctions → Option Datastores → List String
allowed_datastores t none = []
allowed_datastores t (some cfg) =
    (if not (cfg.name == "") || not (is_empty cfg.endpoints)
      then "victoriametrics" ∷ (if not (cfg.name == "") then t.to_lower cfg.name ∷ [] else [])
      else [])
    ++ source_names t cfg.sources

-- The problems with the data store and the query type.
unfoldable pub check_datastore : TextFunctions → List String → String → String → List FieldError
check_datastore t allowed ds qt =
    if not (ds == "")
    then (if not (contains ds allowed)
        then one "datastore" "datastore is not configured in server config"
        else if ds == "victoriametrics"
        then (if qt == ""
            then one "queryType"
                "queryType is required for datastore 'victoriametrics' and must be 'MetricsQL' or 'PromQL'"
            else if t.to_lower qt == "metricsql" || t.to_lower qt == "promql"
            then []
            else one "queryType"
                "for datastore 'victoriametrics' queryType must be 'MetricsQL' or 'PromQL'")
        else [])
    else if not (qt == "")
    then one "datastore" "datastore must be set when queryType is provided"
    else []

-- The query type that the same branch leaves in the definition.
unfoldable pub canonical_query_type :
    TextFunctions → List String → String → String → String → String
canonical_query_type t allowed ds qt query_type =
    if not (ds == "")
      && contains ds allowed
      && ds == "victoriametrics"
      && not (qt == "")
      && (t.to_lower qt == "metricsql" || t.to_lower qt == "promql")
    then "MetricsQL"
    else query_type

unfoldable pub check_impact : TextFunctions → String → KpiDefinition → List FieldError
check_impact t layer k =
    if layer == "impact"
      && (t.trim_space k.business_impact == "" && t.trim_space k.definition == "")
    then one "businessImpact/definition" "impact KPIs must include businessImpact or definition"
    else []

unfoldable pub check_cause : TextFunctions → String → KpiDefinition → List FieldError
check_cause t layer k =
    if layer == "cause" && t.trim_space k.classifier == ""
    then one "classifier" "cause KPIs must include a classifier"
    else []

unfoldable pub check_name : TextFunctions → String → List FieldError
check_name t name = if t.trim_space name == "" then one "name" "name is required" else []

unfoldable pub check_formula : String → String → Bool → Bool → List FieldError
check_formula layer qt has_formula has_query =
    if not (layer == "impact")
    then (if not has_formula && not has_query
        then one "formula/query"
            "either 'formula' (string) or 'query' (object) must be provided for data-backed KPIs (e.g. cause/metrics/traces/logs)"
        else [])
      ++ (if not (qt == "") && not has_formula && not has_query
          then one "queryType"
              "queryType is set but no 'formula' or 'query' provided; provide a query object or a formula string"
          else [])
    else []

unfoldable pub check_data_type : TextFunctions → String → List FieldError
check_data_type t data_type =
    if not (data_type == "")
    then (if not (norm t data_type == "timeseries")
          && not (norm t data_type == "value")
          && not (norm t data_type == "categorical")
        then one "dataType" "if present, dataType must be one of: timeseries, value, categorical"
        else [])
    else []

abbrev pub is_zero_int : ℤ → Bool
is_zero_int n = leb_ℤ n (pos 0) && leb_ℤ (pos 0) n

unfoldable pub check_refresh_interval : ℤ → List FieldError
check_refresh_interval n =
    if not (is_zero_int n)
    then (if leb_ℤ n (pos 0)
        then one "refreshInterval" "if present, refreshInterval must be greater than 0 (seconds)"
        else [])
    else []

-- The check of an optional field that holds a UUID.
unfoldable pub check_uuid : String → String → String → List FieldError
check_uuid field message id =
    if not (id == "")
    then (if not (is_valid_uuid (runes id)) then one field message else [])
    else []

unfoldable pub check_dashboard : TextFunctions → String → List FieldError
check_dashboard t dashboard =
    if t.trim_space dashboard == ""
    then one "dashboard" "dashboard is required and must be a UUIDv5"
    else if not (is_valid_uuid_v5 (runes dashboard))
    then one "dashboard" "dashboard must be a valid UUIDv5"
    else []

unfoldable pub problems : TextFunctions → Option Datastores → KpiDefinition → List FieldError
problems t cfg k =
    let layer = norm t k.layer in
    let ds = norm t k.datastore in
    let qt = norm t k.query_type in
    check_layer layer
    ++ (check_signal_type (norm t k.signal_type)
        ++ (check_kind t k.kind
            ++ (check_sentiment (norm t k.sentiment)
                ++ (check_datastore t (allowed_datastores t cfg) ds qt
                    ++ (check_impact t layer k
                        ++ (check_cause t layer k
                            ++ (check_name t k.name
                                ++ (check_formula layer qt (not (t.trim_space k.formula == ""))
                                      (not (is_empty k.query))
                                    ++ (check_data_type t k.data_type
                                        ++ (check_refresh_interval k.refresh_interval
                                            ++ (check_uuid "userId"
                                                  "if present, userId must be a valid UUID format"
                                                  k.user_id
                                                ++ (check_uuid "dataSourceId"
                                                      "if present, dataSourceId must be a valid UUID format"
                                                      k.data_source_id
                                                    ++ (check_uuid "kpiDatastoreId"
                                                          "if present, kpiDatastoreId must be a valid UUID format"
                                                          k.kpi_datastore_id
                                                        ++ check_dashboard t
                                                            k.dashboard)))))))))))))

-- The definition afterwards, and the error: the empty list is nil. A nil definition is `none`.
unfoldable pub validate_kpi_definition :
    TextFunctions
    → Option Datastores
    → Option KpiDefinition
    → Option KpiDefinition × List FieldError
validate_kpi_definition t cfg none = (none, one "kpiDefinition" "kpi definition is nil")
validate_kpi_definition t cfg (some k) = (
  some (record k {
    query_type =
        canonical_query_type t (allowed_datastores t cfg) (norm t k.datastore) (norm t k.query_type)
          k.query_type;
  }),
  problems t cfg k,
)
