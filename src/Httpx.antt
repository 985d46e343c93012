-- ===== src/Httpx.antt =====
-- internal/httpx: the envelope of an error, the decoding of a request's body, and the identifier of
-- a request. How JSON is read and written is not modelled: a body is what `encoding/json` makes of
-- it, and an answer is the value that is encoded.
pub mod Recorder
use golden_path_control_plan.Prelude.{
  ℕ, ◌+◌, String, Bool, true, false, ◌||◌, Option, str_eq, if◌then◌else◌,
}
use golden_path_control_plan.Fallible.{Fallible, done, failed}
use golden_path_control_plan.Effects.{Env, World}

pub record ErrorBody : Type 0 where
  pub code : String
  pub message : String
  pub request_id : String
  pub remediation : String
  -- the entry `cause` of the details, which have no other
  pub cause : Option String

pub data Body (A : Type 0) : Type 0 where
  error_envelope : ErrorBody → Body A
  payload : A → Body A

-- What WriteJSON sends
pub record Response (A : Type 0) : Type 0 where
  pub status : ℕ
  pub body : Body A

-- A request's body: what `Decode` makes of the first document, and whether a second `Decode` meets
-- the end.
pub record Document (A : Type 0) : Type 0 where
  pub first : Fallible A
  pub at_end : Bool

module _ {A : Type 0} where
  abbrev checked_end : Bool → Fallible A → Fallible A
  checked_end at_end (failed e) = failed e
  checked_end true (done a) = done a
  checked_end false (done a) = failed "request body must contain a single JSON document"

  unfoldable pub decode_json : Document A → Fallible A
  decode_json d = checked_end d.at_end d.first

  unfoldable pub write_json : ℕ → A → Response A
  write_json status a = record { status = status; body = payload a }

unfoldable pub default_remediation : String → String
default_remediation code =
    if str_eq code "invalid_json"
    then "Send exactly one JSON document that matches the endpoint schema and retry."
    else if str_eq code "invalid_service_id"
        || str_eq code "invalid_candidate_id"
        || str_eq code "invalid_resource_id"
    then "Provide a valid UUID for the requested resource and retry."
    else if str_eq code "invalid_limit"
    then "Provide an integer limit value and retry."
    else if str_eq code "missing_bearer_token"
    then "Set an Authorization header with a Bearer token and retry."
    else if str_eq code "unauthorized"
    then "Request a valid token with the expected issuer, audience, expiry, and role claims, then retry."
    else if str_eq code "forbidden"
    then "Use a principal with the required role for this endpoint and retry."
    else if str_eq code "validation_failed"
    then "Correct the request payload so it satisfies the API validation rules, then retry."
    else if str_eq code "not_found"
    then "Verify the resource identifier exists in the current environment and retry."
    else if str_eq code "state_conflict" || str_eq code "conflict"
    then "Refresh the resource state, resolve the conflict, and retry with a new request if needed."
    else if str_eq code "database_unavailable"
    then "Restore database connectivity and retry once the runtime is healthy."
    else "Retry after correcting the request or investigating the attached error details."

-- RespondError, through RespondErrorWithRemediation
unfoldable pub respond_error :
    {A : Type 0} → String → ℕ → String → String → Option String → Response A
unfolding default_remediation
respond_error request_id status code message cause = record {
  status = status;
  body = error_envelope (record {
    code = code;
    message = message;
    request_id = request_id;
    remediation = default_remediation code;
    cause = cause;
  });
}

-- The identifier that the client sent, or a fresh one
unfoldable pub ensure_request_id : Env → String → World → String × World
ensure_request_id env value w =
    let id = env.uuid_text (env.uuid w.draws) in
    if str_eq value "" then (id, record w { draws = w.draws + 1 }) else (value, w)

-- A response, with its header `X-Request-Id`
pub record Reply (A : Type 0) : Type 0 where
  pub header_id : String
  pub response : Response A

-- RequestIDMiddleware
unfoldable pub identified :
    {A : Type 0} → Env → String → (String → World → Response A × World) → World → Reply A × World
unfolding ensure_request_id
identified env sent_id next w =
    let (id, w1) = ensure_request_id env sent_id w in
    let (response, w2) = next id w1 in (record { header_id = id; response = response }, w2)
