-- ===== src/ErrorFilter.antt =====
-- src/common/filters/all-exceptions.filter.ts, with src/common/http/health-routes.ts and
-- mcp-routes.ts: what a client is told of an exception. Logging and the time stamp are left out; the
-- part of a path before its query and the join of texts are parameters.
pub mod Hidden
mod Tests
use nestjs_enterprise_starte.Prelude.{
  false, string_key, true, ◌||◌, or_else, leb, Bool, none, ◌===◌, not, List, some, if◌then◌else◌,
  Option, String, ℕ, [], refl,
}
use nestjs_enterprise_starte.Common.Errors.{ApiException, ErrorCode, Detail, error_code_for_status}
use Prim.Native.String.{◌++◌ as ◌⊕◌}
use text.Mathlib.Text.{starts_with}

-- `getResponse()` of an `HttpException`: a text, the payload of an `ApiException`, or an object with a
-- message of some type
pub data Payload : Type 0 where
  plain : String → Payload
  with_message : String → Payload
  with_messages : List String → Payload
  stated : (code : ErrorCode) (message : String) (details : List (String × Detail)) → Payload
  opaque : Payload

-- what may be thrown, as far as the filter tells it apart
pub data Exception : Type 0 where
  declared : ApiException → Exception
  http : (status : ℕ) (payload : Payload) (message : String) → Exception
  prisma : (code message : String) → Exception
  better_auth : (status : ℕ) (message : Option String) → Exception
  unknown : (text : String) → Exception

-- `ResolvedError`
pub record ResolvedError : Type 0 where
  pub status : ℕ
  pub code : ErrorCode
  pub message : String
  pub details : List (String × Detail)

-- what is read of a request
pub record Request : Type 0 where
  pub original_url : Option String
  pub url : Option String
  pub route_path : Option String
  pub principal : Option String
  pub ip : Option String
  pub request_id : Option String

-- `LimitExceededPayload`
pub record LimitExceeded : Type 0 where
  pub code : ErrorCode
  pub subject : String
  pub route : String

-- the body: the raw payload, or the envelope with the request's id
pub data Body : Type 0 where
  raw : Payload → String → Body
  envelope :
      (code : ErrorCode) (message : String) (details : List (String × Detail))
      (request_id : Option String)
      → Body

-- the response, and the event that is emitted
pub record Reaction : Type 0 where
  pub status : ℕ
  pub headers : List (String × Detail)
  pub body : Body
  pub event : Option LimitExceeded

-- the answer that says nothing
abbrev pub unexpected : ResolvedError
unexpected = record {
  status = 500;
  code = ErrorCode.internal_error;
  message = "An unexpected error occurred.";
  details = [];
}

-- `resolvePrismaError`
pub resolve_prisma_error : String → ResolvedError
resolve_prisma_error code =
    if code === "P2002"
    then record {
      status = 409;
      code = ErrorCode.conflict;
      message = "A record with these values already exists.";
      details = [];
    }
    else if code === "P2025"
    then record {
      status = 404;
      code = ErrorCode.not_found;
      message = "The requested record was not found.";
      details = [];
    }
    else unexpected

-- `resolveBetterAuthError`
pub resolve_better_auth_error : ℕ → Option String → ResolvedError
unfolding error_code_for_status
resolve_better_auth_error status message = if leb 500 status then unexpected else record {
  status = status;
  code = error_code_for_status status;
  message = or_else message "The request could not be completed.";
  details = [];
}

-- `requestPath`
abbrev pub request_path : Request → Option String
request_path req = elim req.original_url [ some url ↦ some url | none ↦ req.url ]

module _ (before_query : String → String) (join : List String → String) where
  -- `isHealthPath`
  pub is_health_path : Option String → Bool
  is_health_path url =
      let path = before_query (or_else url "") in
      path === "/health/live" || path === "/health/ready"

  -- `isMcpPath`, at the default path
  pub is_mcp_path : Option String → Bool
  is_mcp_path url =
      let path = before_query (or_else url "") in path === "/mcp" || starts_with path "/mcp/"

  -- `messageFromHttpException`
  pub message_from_http_exception : Payload → String → String
  message_from_http_exception (plain text) message = text
  message_from_http_exception (with_message text) message = text
  message_from_http_exception (with_messages texts) message = join texts
  message_from_http_exception (stated code text details) message = text
  message_from_http_exception opaque message = message

  -- `resolve`
  pub resolve : Exception → ResolvedError
  unfolding message_from_http_exception resolve_prisma_error resolve_better_auth_error
  resolve (declared e) = record {
    status = e.status;
    code = e.code;
    message = e.message;
    details = e.details;
  }
  resolve (http status payload message) = record {
    status = status;
    code = error_code_for_status status;
    message = message_from_http_exception payload message;
    details = [];
  }
  resolve (prisma code message) = resolve_prisma_error code
  resolve (better_auth status message) = resolve_better_auth_error status message
  resolve (unknown text) = unexpected

  -- whether a code is one of a limit
  abbrev pub is_limit : ErrorCode → Bool
  is_limit ErrorCode.rate_limited = true
  is_limit ErrorCode.usage_limit_exceeded = true
  is_limit _ = false

  -- `observeLimitExceeded`
  pub observe_limit_exceeded : ResolvedError → Request → Option LimitExceeded
  observe_limit_exceeded resolved req =
      if not (is_limit resolved.code)
      then none
      else some (record {
        code = resolved.code;
        subject = or_else req.principal ("ip:" ⊕ or_else req.ip "unknown");
        route = or_else req.route_path (or_else (request_path req) "unknown");
      })

  -- the headers that an `ApiException` asks for
  abbrev pub headers_of : Exception → List (String × Detail)
  headers_of (declared e) = e.headers
  headers_of _ = []

  -- `catch` past the carve-out
  pub envelope_for : Exception → Request → Reaction
  unfolding resolve observe_limit_exceeded
  envelope_for e req =
      let resolved = resolve e in
      record {
        status = resolved.status;
        headers = headers_of e;
        body = envelope resolved.code resolved.message resolved.details req.request_id;
        event = observe_limit_exceeded resolved req;
      }

  -- whether the path is one of health or of the MCP transport
  abbrev pub is_carved_out : Request → Bool
  is_carved_out req = is_health_path (request_path req) || is_mcp_path (request_path req)

  -- a response that is not put into the envelope
  abbrev raw_reaction : ℕ → Payload → String → Reaction
  raw_reaction status payload message = record {
    status = status;
    headers = [];
    body = raw payload message;
    event = none;
  }

  -- `catch`; an `ApiException` is an `HttpException` too
  pub catch : Exception → Request → Reaction
  unfolding envelope_for
  catch (declared e) req =
      if is_carved_out req
      then raw_reaction e.status (stated e.code e.message e.details) e.message
      else envelope_for (declared e) req
  catch (http status payload message) req =
      if is_carved_out req
      then raw_reaction status payload message
      else envelope_for (http status payload message) req
  catch e req = envelope_for e req
