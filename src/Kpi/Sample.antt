-- ===== src/Kpi/Sample.antt =====
-- A definition that the validation accepts, with a configuration.
use mirador_core.Prelude.{none, some, [], ◌∷◌, String, ◌≡◌, refl, string_keys}
use mirador_core.Prelude.Int.{pos}
use mirador_core.Kpi.Text.{plain}
use mirador_core.Kpi.Definition.{KpiDefinition}
use mirador_core.Kpi.Uuid.{is_valid_uuid, is_valid_uuid_v5, byte_is, digits_from}
use mirador_core.Kpi.Validation.{
  Datastores, validate_kpi_definition, problems, check_layer, check_signal_type, check_kind,
  check_sentiment, check_datastore, check_impact, check_cause, check_name, check_formula,
  check_data_type, check_refresh_interval, check_uuid, check_dashboard, allowed_datastores,
  source_names,
}

abbrev pub board : String
board = "7d44a8ce-5b1a-5c67-9d3e-0123456789ab"

abbrev pub latency : KpiDefinition
latency = record {
  id = "";
  kind = "tech";
  name = "latency";
  namespace = "";
  source = "";
  source_id = "";
  query = "expr" ∷ [];
  query_service = none;
  layer = "cause";
  signal_type = "metrics";
  classifier = "saturation";
  datastore = "victoriametrics";
  query_type = "promql";
  formula = "";
  definition = "";
  sentiment = "negative";
  business_impact = "";
  data_type = "value";
  data_source_id = "";
  kpi_datastore_id = "";
  refresh_interval = pos 30;
  user_id = "";
  dashboard = board;
}

abbrev pub server : Datastores
server = record { name = ""; endpoints = "vm:8481" ∷ []; sources = "Archive" ∷ [] }

pub accepted : (validate_kpi_definition plain (some server) (some latency)).1 ≡ []
unfolding validate_kpi_definition problems check_layer check_signal_type check_kind check_sentiment
    check_datastore check_impact check_cause check_name check_formula check_data_type
    check_refresh_interval check_uuid check_dashboard allowed_datastores source_names
    is_valid_uuid_v5 is_valid_uuid byte_is digits_from
accepted = refl
