-- ===== src/Errors/Build.antt =====
-- The constructors of errors.
use mirador_core.Prelude.{Option, none, some, String}
use Prim.Native.String.{◌++◌}
use mirador_core.Errors.Defs.{
  AppError, GoError, category_validation, category_not_found, category_conflict,
  category_unauthorized, category_forbidden, category_internal, category_timeout,
  category_unavailable,
}

-- A composite literal of `AppError`; a field that it leaves out is empty.
abbrev pub make : String → String → String → String → Option GoError → AppError
make category code message details cause = record {
  fields = record { category = category; code = code; message = message; details = details };
  cause = cause;
}

unfoldable pub new : String → String → String → AppError
new category code message = make category code message "" none

unfoldable pub wrap : GoError → String → String → AppError
wrap cause code message = make category_internal code message "" (some cause)

unfoldable pub validation : String → String → AppError
unfolding new
validation code message = new category_validation code message

unfoldable pub invalid_field : String → String → AppError
invalid_field field reason =
    make category_validation "INVALID_FIELD" ("invalid field '" ++ (field ++ ("': " ++ reason)))
      field none

unfoldable pub missing_field : String → AppError
missing_field field =
    make category_validation "MISSING_FIELD" ("missing required field: " ++ field) field none

unfoldable pub invalid_request : String → AppError
invalid_request message = make category_validation "INVALID_REQUEST" message "" none

unfoldable pub not_found : String → String → AppError
not_found resource identifier =
    make category_not_found (resource ++ "_NOT_FOUND") (resource ++ (" not found: " ++ identifier))
      identifier none

unfoldable pub kpi_not_found : String → AppError
unfolding not_found
kpi_not_found id = not_found "KPI" id

unfoldable pub data_source_not_found : String → AppError
unfolding not_found
data_source_not_found id = not_found "DATA_SOURCE" id

unfoldable pub conflict : String → String → AppError
conflict resource message = make category_conflict (resource ++ "_CONFLICT") message "" none

unfoldable pub already_exists : String → String → AppError
already_exists resource identifier =
    make category_conflict (resource ++ "_EXISTS") (resource ++ (" already exists: " ++ identifier))
      identifier none

unfoldable pub unauthorized : String → AppError
unauthorized message = make category_unauthorized "UNAUTHORIZED" message "" none

unfoldable pub forbidden : String → AppError
forbidden message = make category_forbidden "FORBIDDEN" message "" none

unfoldable pub internal : String → AppError
internal message = make category_internal "INTERNAL_ERROR" message "" none

unfoldable pub internal_with_cause : String → GoError → AppError
internal_with_cause message cause = make category_internal "INTERNAL_ERROR" message "" (some cause)

unfoldable pub timeout : String → AppError
timeout operation =
    make category_timeout "TIMEOUT" ("operation timed out: " ++ operation) operation none

unfoldable pub unavailable : String → AppError
unavailable service =
    make category_unavailable "SERVICE_UNAVAILABLE" ("service unavailable: " ++ service) service
      none

unfoldable pub database_unavailable : String → AppError
database_unavailable db_type =
    make category_unavailable "DATABASE_UNAVAILABLE" ("database unavailable: " ++ db_type) db_type
      none
