-- ===== src/Kpi/Identity.antt =====
-- `GenerateDeterministicKPIID` (internal/services/kpi_id.go). The UUID of version 5 of a key in the
-- namespace of the server is a parameter, the library's.
use Prim.Native.String.{◌++◌ as ◌+++◌}
use mirador_core.Prelude.{
  Bool, not, ◌&&◌, Option, none, some, String, if◌then◌else◌, ◌==◌, string_keys,
}
use mirador_core.Kpi.Text.{TextFunctions, norm}
use mirador_core.Kpi.Definition.{KpiDefinition}

-- A field that names something once it is normalized.
abbrev pub is_set : TextFunctions → String → Bool
is_set t s = not (norm t s == "")

unfoldable pub canonical_key : TextFunctions → KpiDefinition → String
canonical_key t k =
    if is_set t k.source && is_set t k.source_id
    then "KPIDefinition|source=" +++ (norm t k.source +++ ("|sourceId=" +++ norm t k.source_id))
    else if is_set t k.namespace
    then "KPIDefinition|namespace=" +++ (norm t k.namespace +++ ("|name=" +++ norm t k.name))
    else if is_set t k.data_source_id
    then "KPIDefinition|datasource=" +++ (norm t k.data_source_id +++ ("|name=" +++ norm t k.name))
    else "KPIDefinition|name=" +++ norm t k.name

-- None for the error on a nil pointer.
unfoldable pub generate_deterministic_kpi_id :
    TextFunctions → (String → String) → Option KpiDefinition → Option String
unfolding canonical_key
generate_deterministic_kpi_id t uuid_v5 none = none
generate_deterministic_kpi_id t uuid_v5 (some k) = some (uuid_v5 (canonical_key t k))
