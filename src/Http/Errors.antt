-- ===== src/Http/Errors.antt =====
-- The exception handlers (http/handlers/exceptions): `register_exceptions` registers a handler for
-- some classes, and the one that answers is that of the nearest class in the exception's bases.
-- The text of a built-in exception is a parameter.
use mco_louna_task.Values.{Text, cat, str}
use mco_louna_task.Base.{Option, String, none, some, ℕ}
use mco_louna_task.Errors.{
  DomainClass, DomainError, Error, Result, Scope, attribute_error, business_rule, domain_error, err,
  index_error, key_error, ok, repositories_exhausted, repositories_unavailable, runtime_error,
  timeout_error, type_error, value_error, ◌>>=◌, base, invariant, validation, wrong_type, not_found,
  exists,
}

pub record ErrorResponse : Type 0 where
  pub status_code : ℕ
  pub message : Text
  pub details : Text
  pub error_code : Option String

-- The classes that have a handler.
pub data Handler : Type 0 where
  on_not_found on_business_rule on_invariant on_exists : Handler
  on_unavailable on_exhausted : Handler
  on_type on_value on_key on_attribute on_index on_runtime on_timeout on_exception : Handler

-- The domain classes: `DomainBusinessRuleError` is a `DomainInvariantError`, and what has no
-- handler of its own is an `Exception`.
unfoldable pub domain_handler : DomainClass → Handler
domain_handler not_found = on_not_found
domain_handler business_rule = on_business_rule
domain_handler invariant = on_invariant
domain_handler exists = on_exists
domain_handler validation = on_exception
domain_handler wrong_type = on_exception
domain_handler base = on_exception

unfoldable pub handler_of : Error → Handler
unfolding domain_handler
handler_of (domain_error d) = domain_handler d.cls
handler_of repositories_unavailable = on_unavailable
handler_of repositories_exhausted = on_exhausted
handler_of type_error = on_type
handler_of value_error = on_value
handler_of key_error = on_key
handler_of attribute_error = on_attribute
handler_of index_error = on_index
handler_of runtime_error = on_runtime
handler_of timeout_error = on_timeout
handler_of _ = on_exception

abbrev pub coded : ℕ → String → Text → String → ErrorResponse
coded code message details error_code = record {
  status_code = code;
  message = str message;
  details = details;
  error_code = some error_code;
}

-- `exc.context["details"] if exc.scope == Scope.public else ""`: a missing key raises inside the
-- handler
abbrev pub details_of : Scope → Option Text → Result Text
details_of Scope.private details = ok (str "")
details_of Scope.public none = err key_error
details_of Scope.public (some t) = ok t

-- The four handlers of domain errors have one body.
unfoldable pub domain_response : DomainError → Result ErrorResponse
domain_response d = do
  details ← details_of d.scope d.details
  ok (record { status_code = d.status; message = d.message; details = details; error_code = none })

abbrev pub generic_response : ErrorResponse
generic_response =
    coded 500 "Internal server error" (str "An unexpected error occurred. Please contact support.")
      "INTERNAL_ERROR"

-- What `respond` needs of an exception that is no domain error: its text.
abbrev pub of_domain : Error → Result ErrorResponse
of_domain (domain_error d) = domain_response d
of_domain _ = ok generic_response

-- The response to an exception, or the exception that the handler raises itself.
unfoldable pub respond : (Error → Text) → Handler → Error → Result ErrorResponse
respond text_of on_not_found e = of_domain e
respond text_of on_business_rule e = of_domain e
respond text_of on_invariant e = of_domain e
respond text_of on_exists e = of_domain e
respond text_of on_unavailable e = ok (
    coded 503 "Database service temporarily unavailable"
      (str "The payment service cannot reach the database. Please retry in a few moments.")
      "REPOSITORY_UNAVAILABLE")
respond text_of on_exhausted e = ok (
    coded 503 "Service overloaded, too many concurrent requests"
      (str "The payment service is processing too many requests. Please retry in a few moments.")
      "REPOSITORY_EXHAUSTED")
respond text_of on_type e = ok (coded 400 "Invalid argument type" (text_of e) "TYPE_ERROR")
respond text_of on_value e = ok (coded 400 "Invalid argument value" (text_of e) "VALUE_ERROR")
respond text_of on_key e =
    ok (coded 400 "Required field missing" (cat (str "Missing key: ") (text_of e)) "MISSING_FIELD")
respond text_of on_attribute e = ok (
    coded 500 "Internal attribute error" (str "Service misconfiguration detected.")
      "INTERNAL_ERROR")
respond text_of on_index e = ok (coded 400 "Index out of range" (text_of e) "INDEX_ERROR")
respond text_of on_runtime e = ok (coded 500 "Runtime error" (text_of e) "RUNTIME_ERROR")
respond text_of on_timeout e =
    ok (coded 408 "Operation timed out" (str "Request took too long. Please retry.") "TIMEOUT")
respond text_of on_exception e = ok generic_response

-- An exception of a route, and one that its handler raises, which the generic handler answers.
unfoldable pub handle_exception : (Error → Text) → Error → ErrorResponse
unfolding respond domain_response handler_of
handle_exception text_of e = elim (respond text_of (handler_of e) e) [
  | ok r ↦ r
  | err _ ↦ generic_response
]
