-- ===== src/Errors/Defs.antt =====
-- `AppError` with its methods, and the helpers that look for one in a chain of wrapped errors.
use mirador_core.Prelude.{
  ℕ, Bool, false, Option, none, some, String, if◌then◌else◌, ◌==◌, string_keys,
}
use Prim.Native.String.{◌++◌}

-- The fields of `AppError` beside the cause. A category is a text, as in the source.
pub record AppFields : Type 0 where
  pub category : String
  pub code : String
  pub message : String
  pub details : String

-- An error: an `AppError` without or with a cause, an error that wraps another, as `fmt.Errorf` makes
-- it with `%w`, or any other, which is its text.
pub data GoError : Type 0 where
  opaque : String → GoError
  wrapping : String → GoError → GoError
  app : AppFields → GoError
  app_caused : AppFields → GoError → GoError

pub record AppError : Type 0 where
  pub fields : AppFields
  pub cause : Option GoError

abbrev pub as_error : AppError → GoError
as_error e = elim e.cause [ none ↦ app e.fields | some inner ↦ app_caused e.fields inner ]

abbrev pub category_validation : String
category_validation = "VALIDATION"

abbrev pub category_not_found : String
category_not_found = "NOT_FOUND"

abbrev pub category_conflict : String
category_conflict = "CONFLICT"

abbrev pub category_unauthorized : String
category_unauthorized = "UNAUTHORIZED"

abbrev pub category_forbidden : String
category_forbidden = "FORBIDDEN"

abbrev pub category_internal : String
category_internal = "INTERNAL"

abbrev pub category_timeout : String
category_timeout = "TIMEOUT"

abbrev pub category_unavailable : String
category_unavailable = "UNAVAILABLE"

abbrev pub category_bad_gateway : String
category_bad_gateway = "BAD_GATEWAY"

unfoldable pub error_text : GoError → String
error_text (opaque text) = text
error_text (wrapping text inner) = text
error_text (app e) = e.code ++ (": " ++ e.message)
error_text (app_caused e inner) =
    e.code ++ (": " ++ (e.message ++ (" (" ++ (error_text inner ++ ")"))))

unfoldable pub unwrap : AppError → Option GoError
unwrap e = e.cause

-- `errors.As` for a target of type `*AppError`: the first one in the chain.
unfoldable pub find_app : GoError → Option AppError
find_app (opaque text) = none
find_app (wrapping text inner) = find_app inner
find_app (app e) = some (record { fields = e; cause = none })
find_app (app_caused e inner) = some (record { fields = e; cause = some inner })

unfoldable pub is : AppError → GoError → Bool
is e target = elim (find_app target) [
  | none ↦ false
  | some found ↦ e.fields.code == found.fields.code
]

unfoldable pub http_status_of : String → ℕ
http_status_of category =
    if category == category_validation
    then 400
    else if category == category_not_found
    then 404
    else if category == category_conflict
    then 409
    else if category == category_unauthorized
    then 401
    else if category == category_forbidden
    then 403
    else if category == category_timeout
    then 504
    else if category == category_unavailable
    then 503
    else if category == category_bad_gateway
    then 502
    else 500

abbrev pub http_status : AppError → ℕ
http_status e = http_status_of e.fields.category

unfoldable pub with_details : AppError → String → AppError
with_details e details = record e { fields = record e.fields { details = details } }

unfoldable pub with_cause : AppError → Option GoError → AppError
with_cause e cause = record e { cause = cause }

pub record ErrorResponse : Type 0 where
  pub error : String
  pub code : String
  pub details : String

unfoldable pub to_response : AppError → ErrorResponse
to_response e = record {
  error = e.fields.message;
  code = e.fields.code;
  details = e.fields.details;
}

unfoldable pub is_not_found : GoError → Bool
is_not_found err = elim (find_app err) [
  | none ↦ false
  | some e ↦ e.fields.category == category_not_found
]

unfoldable pub is_validation : GoError → Bool
is_validation err = elim (find_app err) [
  | none ↦ false
  | some e ↦ e.fields.category == category_validation
]

unfoldable pub is_unavailable : GoError → Bool
is_unavailable err = elim (find_app err) [
  | none ↦ false
  | some e ↦ e.fields.category == category_unavailable
]

unfoldable pub get_http_status : GoError → ℕ
get_http_status err = elim (find_app err) [ none ↦ 500 | some e ↦ http_status e ]

unfoldable pub to_error_response : GoError → ErrorResponse
to_error_response err = elim (find_app err) [
  | none ↦ record { error = error_text err; code = "INTERNAL_ERROR"; details = "" }
  | some e ↦ to_response e
]
