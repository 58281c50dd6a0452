-- ===== src/Kpi/Tests.antt =====
-- The theorems at a definition that the validation accepts.
use mirador_core.Prelude.{◌++◌, String, refl, true, some, [], ◌≡◌, ◌↔◌, arith, string_keys}
use mirador_core.Kpi.Text.{plain}
use mirador_core.Kpi.Uuid.{runes, is_valid_uuid, HasUuidShape, is_valid_uuid_iff}
use mirador_core.Kpi.Validation
use mirador_core.Kpi.Validation.{
  Datastores, IsValidKpi, validate_kpi_definition, problems, check_layer, check_signal_type,
  check_kind, check_sentiment, check_datastore, check_impact, check_cause, check_name,
  check_formula, check_data_type, check_refresh_interval, check_uuid, check_dashboard,
  allowed_datastores, source_names, error_text,
}
use mirador_core.Kpi.Identity.{generate_deterministic_kpi_id}
use mirador_core.Kpi.Sample.{board, latency, server}

validate_kpi_definition_lem_example :
    ((validate_kpi_definition plain (some server) (some latency)).1 ≡ [])
    ↔ IsValidKpi plain (some server) latency
validate_kpi_definition_lem_example =
    Validation.validate_kpi_definition_lem plain (some server) latency

is_valid_uuid_iff_example : (is_valid_uuid (runes board) ≡ true) ↔ HasUuidShape 0 (runes board)
is_valid_uuid_iff_example = is_valid_uuid_iff (runes board) (ground arith)

-- Two definitions with different namespaces and names that get the same identifier, whatever the UUIDs are.
same_identifier :
    (uuid_v5 : String → String)
    → generate_deterministic_kpi_id plain uuid_v5
        (some (record latency { namespace = "a|name=b"; name = "c" }))
      ≡ generate_deterministic_kpi_id plain uuid_v5
          (some (record latency { namespace = "a"; name = "b|name=c" }))
unfolding generate_deterministic_kpi_id
same_identifier uuid_v5 = refl

two_problems :
    error_text (check_layer "" ++ check_signal_type "")
    ≡ "layer: layer is required and must be 'impact' or 'cause'; signalType: signalType is required"
unfolding error_text check_layer check_signal_type
two_problems = refl
