-- ===== src/Kpi/Definition.antt =====
-- `KPIDefinition` of internal/models/kpi.go, in the fields that the modelled code reads or writes. The
-- query is the list of its keys with the service it names, if any; a query that is nil has no keys.
use mirador_core.Prelude.{Option, List, String}
use mirador_core.Prelude.Int.{ℤ}

pub record KpiDefinition : Type 0 where
  pub id : String
  pub kind : String
  pub name : String
  pub namespace : String
  pub source : String
  pub source_id : String
  pub query : List String
  pub query_service : Option String
  pub layer : String
  pub signal_type : String
  pub classifier : String
  pub datastore : String
  pub query_type : String
  pub formula : String
  pub definition : String
  pub sentiment : String
  pub business_impact : String
  pub data_type : String
  pub data_source_id : String
  pub kpi_datastore_id : String
  pub refresh_interval : ℤ
  pub user_id : String
  pub dashboard : String
