-- ===== src/Errors/Laws.antt =====
-- The helpers agree with the status of HTTP, however deep an error is wrapped.
use mirador_core.Prelude.{
  ◌≡◌, refl, ◌↔◌, true, false, none, some, String, List, [], ◌∷◌, arith, ◌==◌, string_keys,
  eq_of_same,
}
use mirador_core.Errors.Defs.{
  category_not_found, category_validation, category_unavailable, GoError, AppError, wrapping,
  opaque, app, app_caused, as_error, find_app, http_status, http_status_of, is_not_found,
  is_validation, is_unavailable, get_http_status, to_error_response, to_response,
}
use mirador_core.Errors.Build.{wrap}

-- An error wrapped any number of times, the texts outermost first.
abbrev pub wrap_all : List String → GoError → GoError
wrap_all [] err = err
wrap_all (text ∷ texts) err = wrapping text (wrap_all texts err)

find_app-wrap_all :
    (texts : List String) (err : GoError) → find_app (wrap_all texts err) ≡ find_app err
unfolding find_app
find_app-wrap_all [] err = refl
find_app-wrap_all (text ∷ texts) err = find_app-wrap_all texts err

find_app-as_error : (e : AppError) → find_app (as_error e) ≡ some e
unfolding find_app
find_app-as_error e = ground arith

find_app_opaque : (text : String) → find_app (opaque text) ≡ none
unfolding find_app
find_app_opaque text = refl

-- An `AppError` under any number of wrappers keeps its status and its response; an error without one
-- has the status 500 and the code "INTERNAL_ERROR".
pub wrapped_lem :
    (texts : List String) (e : AppError) (text : String)
    → (get_http_status (wrap_all texts (as_error e)) ≡ http_status e)
      × (to_error_response (wrap_all texts (as_error e)) ≡ to_response e)
      × (get_http_status (wrap_all texts (opaque text)) ≡ 500)
      × ((to_error_response (wrap_all texts (opaque text))).code ≡ "INTERNAL_ERROR")
unfolding get_http_status to_error_response
wrapped_lem texts e text = ground (
  arith,
  find_app-wrap_all texts (as_error e),
  find_app-as_error e,
  find_app-wrap_all texts (opaque text),
  find_app_opaque text,
)

-- The statuses of three categories belong to no other category.
status_not_found : (c : String) → ((c == category_not_found) ≡ true) ↔ (http_status_of c ≡ 404)
unfolding http_status_of
status_not_found c = ((λ h. rw (eq_of_same c category_not_found h) refl), λ h. ground arith)

status_validation : (c : String) → ((c == category_validation) ≡ true) ↔ (http_status_of c ≡ 400)
unfolding http_status_of
status_validation c = ((λ h. rw (eq_of_same c category_validation h) refl), λ h. ground arith)

status_unavailable : (c : String) → ((c == category_unavailable) ≡ true) ↔ (http_status_of c ≡ 503)
unfolding http_status_of
status_unavailable c = ((λ h. rw (eq_of_same c category_unavailable h) refl), λ h. ground arith)

-- Each of the three helpers answers true exactly for the errors whose status of HTTP is the one of
-- its category: 404 for missing, 400 for invalid and 503 for unavailable.
pub helpers-get_http_status :
    (err : GoError)
    → ((is_not_found err ≡ true) ↔ (get_http_status err ≡ 404))
      × ((is_validation err ≡ true) ↔ (get_http_status err ≡ 400))
      × ((is_unavailable err ≡ true) ↔ (get_http_status err ≡ 503))
unfolding is_not_found is_validation is_unavailable get_http_status find_app
helpers-get_http_status (opaque text) = ground arith
helpers-get_http_status (wrapping text inner) = helpers-get_http_status inner
helpers-get_http_status (app e) =
    (status_not_found e.category, status_validation e.category, status_unavailable e.category)
helpers-get_http_status (app_caused e inner) =
    (status_not_found e.category, status_validation e.category, status_unavailable e.category)

-- `Wrap` makes an internal error of any error: what it wraps no longer counts as missing, invalid or
-- unavailable, and the status is 500.
pub wrap_lem :
    (err : GoError) (code message : String)
    → let wrapped = as_error (wrap err code message) in
      (get_http_status wrapped ≡ 500)
      × (is_not_found wrapped ≡ false)
      × (is_validation wrapped ≡ false)
      × (is_unavailable wrapped ≡ false)
unfolding wrap is_not_found is_validation is_unavailable get_http_status http_status_of find_app
wrap_lem err code message = (refl, refl, refl, refl)
