-- ===== src/Exceptions.antt =====
-- app/core/exceptions.py: the text and the HTTP status that each exception carries, and the
-- handlers that turn an exception into a response.
use ultimate_assistant_ai_ga.Base.{ℕ, String, Option, none, some, [], ◌∷◌}
use ultimate_assistant_ai_ga.Base.Text.{concat}
use ultimate_assistant_ai_ga.Base.Action.{
  Exc, app_exception, provider_error, provider_key_missing, provider_unavailable,
  capability_not_supported, http_exception, http_status_error, value_error, type_error,
  attribute_error, index_error, key_error, multiple_results, other_error,
}

pub record Response : Type 0 where
  pub status_code : ℕ
  pub error : String
  pub detail : Option String

-- `str(e)`. The texts of the frameworks' own exceptions are what the exception carries.
unfoldable pub str_exc : Exc → String
str_exc (app_exception message status) = message
str_exc (provider_error provider message status) = concat ("[" ∷ provider ∷ "] " ∷ message ∷ [])
str_exc (provider_key_missing provider) =
    concat ("No API key configured for provider: " ∷ provider ∷ [])
str_exc (provider_unavailable provider) =
    concat ("[" ∷ provider ∷ "] " ∷ "Provider is currently unavailable" ∷ [])
str_exc (capability_not_supported input_mod output_mod) =
    concat ("No provider supports conversion: " ∷ input_mod ∷ " → " ∷ output_mod ∷ [])
str_exc (http_exception status detail) = detail
str_exc (http_status_error status body text) = text
str_exc (value_error text) = text
str_exc (type_error text) = text
str_exc (attribute_error text) = text
str_exc (index_error text) = text
str_exc (key_error text) = text
str_exc multiple_results = "Multiple rows were found when one or none was required"
str_exc (other_error text) = text

-- The status of the response that the client sees: `app_exception_handler` for an AppException
-- and its subclasses, the framework's for an HTTPException, `unhandled_exception_handler` for
-- the rest.
unfoldable pub status_of : Exc → ℕ
status_of (app_exception message status) = status
status_of (provider_error provider message status) = status
status_of (provider_key_missing provider) = 400
status_of (provider_unavailable provider) = 503
status_of (capability_not_supported input_mod output_mod) = 400
status_of (http_exception status detail) = status
status_of _ = 500

unfoldable pub app_exception_handler : Exc → Response
unfolding str_exc status_of
app_exception_handler e = record {
  status_code = status_of e;
  error = str_exc e;
  detail = some (str_exc e);
}

unfoldable pub unhandled_exception_handler : Exc → Response
unhandled_exception_handler e = record {
  status_code = 500;
  error = "Internal server error";
  detail = none;
}
