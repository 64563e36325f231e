-- ===== src/Common/Errors.antt =====
-- src/common/errors/error-code.ts and api-exception.ts
use nestjs_enterprise_starte.Prelude.{ℕ, String, Option, none, some, List, nat_eq, if◌then◌else◌}
use nestjs_enterprise_starte.Prelude.Int.{ℤ}

-- `ErrorCode`
pub data ErrorCode : Type 0 where
  validation_failed bad_request unauthorized forbidden not_found conflict rate_limited : ErrorCode
  usage_limit_exceeded service_unavailable internal_error : ErrorCode
  email_not_verified two_factor_required account_locked : ErrorCode
  entitlement_denied subscription_inactive insufficient_credits : ErrorCode
  idempotency_key_required idempotency_key_reuse : ErrorCode

-- `STATUS_TO_CODE` and `errorCodeForStatus`
unfoldable pub error_code_for_status : ℕ → ErrorCode
error_code_for_status status =
    if nat_eq status 400
    then ErrorCode.bad_request
    else if nat_eq status 401
    then ErrorCode.unauthorized
    else if nat_eq status 402
    then ErrorCode.insufficient_credits
    else if nat_eq status 403
    then ErrorCode.forbidden
    else if nat_eq status 404
    then ErrorCode.not_found
    else if nat_eq status 409
    then ErrorCode.conflict
    else if nat_eq status 429
    then ErrorCode.rate_limited
    else if nat_eq status 503
    then ErrorCode.service_unavailable
    else ErrorCode.internal_error

-- a value in the `details` object or in the headers of an exception
pub data Detail : Type 0 where
  num : ℤ → Detail
  text : String → Detail
  undefined : Detail

-- `ApiException`
pub record ApiException : Type 0 where
  pub status : ℕ
  pub code : ErrorCode
  pub message : String
  pub details : List (String × Detail)
  pub headers : List (String × Detail)

-- What a method can throw: an `ApiException`, or any other error (a plain `Error`, a fault of a
-- library or of a service).
pub data Thrown : Type 0 where
  api : ApiException → Thrown
  other : String → Thrown

-- the code that a client sees, if the handler stated one
abbrev pub code_of : Thrown → Option ErrorCode
code_of (api e) = some e.code
code_of (other _) = none

-- `new ApiException(status, code, message, details)`
abbrev pub api_error : ℕ → ErrorCode → String → List (String × Detail) → Thrown
api_error status code message details = api (record {
  status = status;
  code = code;
  message = message;
  details = details;
  headers = List.[];
})
