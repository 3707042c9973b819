-- ===== src/Profeex/Failures.antt =====
-- What ProfeeX's refusals come to: the codes of app/resource_providers/profeex.py, and the functions
-- that find one in an answer.
use tron_shkeeper.Base.{
  ℕ, String, Bool, true, false, Option, none, some, List, [], ◌∷◌, ◌&&◌, ◌||◌, not, ◌=s◌, ◌==◌, leb,
  contains, or_else, if◌then◌else◌,
}

abbrev pub fallback_eligible_profeex_codes : List String
fallback_eligible_profeex_codes =
    "NETWORK_ERROR" ∷ "REQUEST_TIMEOUT" ∷ "DNS_ERROR" ∷ "CONNECT_ERROR" ∷ "READ_ERROR"
    ∷ "SERVICE_UNAVAILABLE" ∷ "HTTP_408" ∷ "HTTP_429" ∷ "HTTP_500" ∷ "HTTP_502" ∷ "HTTP_503"
    ∷ "HTTP_504" ∷ "RATE_LIMIT_EXCEEDED" ∷ "INSUFFICIENT_BALANCE" ∷ "MALFORMED_PRE_ACCEPT_RESPONSE"
    ∷ "ORDER_TIMEOUT" ∷ "ORDER_FAILED" ∷ "ORDER_CANCELLED" ∷ "PROCESSING_FAILED"
    ∷ "RESOURCE_RECHECK_FAILED" ∷ "FIXED_BANDWIDTH_BELOW_REQUIRED" ∷ []

abbrev pub non_fallback_profeex_codes : List String
non_fallback_profeex_codes =
    "INVALID_ADDRESS" ∷ "INVALID_PARAMETERS" ∷ "AUTHORIZATION_ERROR" ∷ "IP_NOT_WHITELISTED"
    ∷ "CONFIGURATION_ERROR" ∷ "ACCEPTED_ORDER_WITHOUT_TASK_ID" ∷ []

abbrev pub accepted_order_terminal_error_codes : List String
accepted_order_terminal_error_codes =
    "INVALID_ADDRESS" ∷ "INVALID_PARAMETERS" ∷ "AUTHORIZATION_ERROR" ∷ "IP_NOT_WHITELISTED"
    ∷ "CONFIGURATION_ERROR" ∷ []

-- `TEMPORARY_ERROR_CODES`
abbrev pub temporary_error_codes : List String
temporary_error_codes =
    "DUPLICATE_REQUEST" ∷ "RATE_LIMIT_EXCEEDED" ∷ "SERVICE_UNAVAILABLE" ∷ "REQUEST_TIMEOUT" ∷ []

-- `ACTIVATION_TERMINAL_ERROR_CODES`
abbrev pub activation_terminal_error_codes : List String
activation_terminal_error_codes =
    "INVALID_ADDRESS" ∷ "INVALID_PARAMETERS" ∷ "CONFIGURATION_ERROR" ∷ "INSUFFICIENT_BALANCE"
    ∷ "UNKNOWN_ERROR" ∷ []

pub record ProviderFailure : Type 0 where
  pub code : String
  pub temporary : Bool
  pub fallback_eligible : Bool
  pub order_accepted : Bool
  pub task_id : Option String

abbrev failure_of : String → Option String → Bool → Bool → ProviderFailure
failure_of code task_id temporary fallback_eligible = record {
  code = code;
  temporary = temporary;
  fallback_eligible = fallback_eligible;
  order_accepted = false;
  task_id = task_id;
}

-- `classify_profeex_failure`
unfoldable pub classify_profeex_failure : String → Option String → Bool → ProviderFailure
classify_profeex_failure code task_id order_accepted =
    if order_accepted
    then record {
      code = code;
      temporary = not (contains code accepted_order_terminal_error_codes);
      fallback_eligible = false;
      order_accepted = true;
      task_id = task_id;
    }
    else if contains code fallback_eligible_profeex_codes
    then failure_of code task_id true true
    else if code =s "RESOURCE_READ_FAILED"
    then failure_of code task_id true false
    else if contains code non_fallback_profeex_codes
    then failure_of code task_id false false
    else failure_of code task_id true true

-- An entry of a JSON object, where texts are asked for; `other` is a number, a truth value or null, and
-- `nested` an array or an object.
pub data Entry : Type 0 where
  missing other nested : Entry
  text : String → Entry

-- The entries that are read of a JSON object; `detail_error_code` is in the object "detail".
pub record Body : Type 0 where
  pub task_id : Entry
  pub status : Entry
  pub error_code : Entry
  pub detail_error_code : Entry

-- A response; its body is `none` where it is no JSON object.
pub record Response : Type 0 where
  pub status_code : ℕ
  pub body : Option Body

-- The classes of `requests.RequestException` that are told apart.
pub data RequestError : Type 0 where
  read_timeout connect_timeout timeout connection_error other_error : RequestError

pub data Reply : Type 0 where
  response : Response → Reply
  failed : RequestError → Reply

-- `_request_exception_code`
unfoldable pub request_exception_code : RequestError → String
request_exception_code read_timeout = "READ_ERROR"
request_exception_code connect_timeout = "CONNECT_ERROR"
request_exception_code timeout = "REQUEST_TIMEOUT"
request_exception_code connection_error = "CONNECT_ERROR"
request_exception_code other_error = "NETWORK_ERROR"

-- `_error_code_from_payload`
unfoldable pub error_code_from_payload : Option Body → Option String
error_code_from_payload none = none
error_code_from_payload (some body) = elim (body.error_code) [
  | text code ↦ some code
  | _ ↦ elim (body.detail_error_code) [ text code ↦ some code | _ ↦ none ]
]

-- `_status_failure_code`
unfoldable pub status_failure_code : ℕ → String
status_failure_code status_code =
    if status_code == 408
    then "HTTP_408"
    else if status_code == 429
    then "HTTP_429"
    else if status_code == 401
    then "AUTHORIZATION_ERROR"
    else if status_code == 403
    then "IP_NOT_WHITELISTED"
    else if status_code == 400 || status_code == 422
    then "INVALID_PARAMETERS"
    else if status_code == 500
    then "HTTP_500"
    else if status_code == 502
    then "HTTP_502"
    else if status_code == 503
    then "HTTP_503"
    else if status_code == 504
    then "HTTP_504"
    else if leb 500 status_code && leb status_code 599
    then "SERVICE_UNAVAILABLE"
    else "UNKNOWN_ERROR"

-- `_response_failure_code`; an empty code counts as missing.
unfoldable pub response_failure_code : Response → String
unfolding error_code_from_payload status_failure_code
response_failure_code r =
    or_else (error_code_from_payload r.body) (status_failure_code r.status_code)

-- `_terminal_status_error_code`
unfoldable pub terminal_status_error_code : Entry → String
terminal_status_error_code (text status) =
    if status =s "CANCELLED"
    then "ORDER_CANCELLED"
    else if status =s "FAILED"
    then "ORDER_FAILED"
    else "UNKNOWN_ERROR"
terminal_status_error_code _ = "UNKNOWN_ERROR"

-- `_activation_error_is_temporary`
unfoldable pub activation_error_is_temporary : ℕ → String → Bool
activation_error_is_temporary status_code error_code =
    if contains error_code temporary_error_codes
    then true
    else if contains error_code activation_terminal_error_codes
    then false
    else if status_code == 408 || status_code == 429
    then true
    else leb 500 status_code && leb status_code 599

-- `_activation_public_error_code`
unfoldable pub activation_public_error_code : ℕ → Option Body → String → String
unfolding error_code_from_payload
activation_public_error_code status_code body provider_code = elim (error_code_from_payload body) [
  | some code ↦ provider_code
  | none ↦ if status_code == 500 then "UNKNOWN_ERROR" else provider_code
]
