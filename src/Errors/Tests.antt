-- ===== src/Errors/Tests.antt =====
-- The theorems at concrete errors.
use mirador_core.Prelude.{◌≡◌, refl, List, [], ◌∷◌, String}
use mirador_core.Errors.Defs.{
  GoError, wrapping, as_error, get_http_status, http_status_of, find_app,
}
use mirador_core.Errors.Build.{kpi_not_found, not_found}

abbrev missing : GoError
missing = wrapping "load: KPI_NOT_FOUND" (as_error (kpi_not_found "42"))

found_below : get_http_status missing ≡ 404
unfolding get_http_status http_status_of find_app kpi_not_found not_found
found_below = refl

abbrev layers : List String
layers = "handler: load" ∷ "load" ∷ []
