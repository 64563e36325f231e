-- ===== src/Idempotency.antt =====
-- src/common/idempotency/idempotency.interceptor.ts. The handler is an action on the rest of the
-- world; the hash, the length of a text and the test for blank texts are parameters.
pub mod Rows
pub mod Retry
pub mod Race
mod Tests
use nestjs_enterprise_starte.Common.Errors.{Detail, other, ErrorCode, api_error, Thrown}
use nestjs_enterprise_starte.Common.Json.{Json}
use nestjs_enterprise_starte.Common.Table.{Table}
use nestjs_enterprise_starte.Common.Exec.{lift, ok, pure, err, Exec, Result, ◌>>=◌, ◌>>◌}
use nestjs_enterprise_starte.Prelude.Decimal.{decimal}
use Prim.Native.String.{◌++◌ as ◌⊕◌}
use nestjs_enterprise_starte.Prelude.{
  ltb, ◌∷◌, [], string_key, ◌*◌, ◌===◌, ◌+◌, some, not, true, if◌then◌else◌, false, or_else, Bool,
  none, Option, String, ℕ, pair_key,
}

-- `idempotencyConfig`
pub record Config : Type 0 where
  pub ttl_seconds : ℕ
  pub key_max_length : ℕ

-- `IdempotencyRecordStatus`
pub data RecordStatus : Type 0 where
  processing completed : RecordStatus

-- a row of `idempotency_records`, under its principal and key
pub record IdempotencyRecord : Type 0 where
  pub method : String
  pub path : String
  pub request_hash : String
  pub status : RecordStatus
  pub status_code : Option ℕ
  pub response_body : Option Json
  pub expires_at : ℕ

-- What the interceptor reads of a request: the first value of the header, the id of the principal,
-- the method, `originalUrl ?? url` and the body; and the status code that the route declares.
pub record Request : Type 0 where
  pub key_header : Option String
  pub principal : Option String
  pub method : String
  pub path : String
  pub body : Json
  pub declared_status : Option ℕ

-- Which commands of a call the database rejects, and with what: the insert, for another reason than
-- the unique key, the update and the delete.
pub record Faults : Type 0 where
  pub create : Option String
  pub update : Option String
  pub delete : Bool

-- a call whose commands are all accepted
abbrev pub no_faults : Faults
no_faults = record { create = none; update = none; delete = false }

abbrev pub Records : Type 1
Records = Table (String × String) IdempotencyRecord pair_key

-- `defaultStatusForMethod`
pub default_status : String → ℕ
default_status method = if method === "POST" then 201 else 200

-- `resolveStatusCode`
pub resolve_status : Request → ℕ
unfolding default_status
resolve_status req = or_else req.declared_status (default_status req.method)

abbrev in_progress : String → Thrown
in_progress key =
    api_error 409 ErrorCode.conflict
      "A request with this Idempotency-Key is already being processed."
      (("key", Detail.text key) ∷ [])

abbrev reused : String → Thrown
reused key =
    api_error 409 ErrorCode.idempotency_key_reuse
      "Idempotency-Key was reused with a different request." (("key", Detail.text key) ∷ [])

abbrev is_completed : RecordStatus → Bool
is_completed completed = true
is_completed processing = false

-- `replay`; a completed row has a body
pub replay : IdempotencyRecord → String → String → Result Json
replay existing hash key =
    if not (existing.request_hash === hash)
    then err (reused key)
    else if not (is_completed existing.status)
    then err (in_progress key)
    else ok (or_else existing.response_body Json.null)

-- the row with the response
abbrev pub completed_row : ℕ → Json → IdempotencyRecord → IdempotencyRecord
completed_row code result row = record row {
  status = completed;
  status_code = some code;
  response_body = some result;
}

-- `principalIdOf`
pub principal_of : Request → Result String
principal_of req = elim req.principal [
  | none ↦ err (api_error 401 ErrorCode.unauthorized "Authentication required." [])
  | some id ↦ ok id
]

module _ (T : Records) (World : Type 0) (config : Config) (is_blank : String → Bool)
    (text_length : String → ℕ) (hash : String → String → Json → String) where
  pub record State : Type 0 where
    pub records : T.State
    pub world : World

  -- `extractKey`
  pub extract_key : Request → Result String
  extract_key req = elim req.key_header [
    | none ↦ err (
        api_error 400 ErrorCode.idempotency_key_required
          "This route requires an \"idempotency-key\" header." [])
    | some key ↦
        if is_blank key
        then err (
            api_error 400 ErrorCode.idempotency_key_required
              "This route requires an \"idempotency-key\" header." [])
        else if ltb config.key_max_length (text_length key)
        then err (
            api_error 400 ErrorCode.bad_request
              ("Idempotency-Key must not exceed " ⊕ decimal config.key_max_length ⊕ " characters.")
              [])
        else ok key
  ]

  -- `hashRequest`
  abbrev pub hash_request : Request → String
  hash_request req = hash req.method req.path req.body

  -- the row of `beginProcessing`
  abbrev pub started : ℕ → Request → IdempotencyRecord
  started now req = record {
    method = req.method;
    path = req.path;
    request_hash = hash_request req;
    status = processing;
    status_code = none;
    response_body = none;
    expires_at = now + config.ttl_seconds * 1000;
  }

  -- `beginProcessing`
  pub begin_processing : Option String → ℕ → String → String → Request → Exec T.State (Unit {0})
  begin_processing fault now principal key req t = elim fault [
    | some message ↦ (err (other message), t)
    | none ↦ elim (T.lookup (principal, key) t) [
      | some taken ↦ (err (in_progress key), t)
      | none ↦ (ok tt, T.put (principal, key) (started now req) t)
    ]
  ]

  -- the update after the handler, which fails if the row is gone
  pub complete : Option String → String → String → ℕ → Json → Exec T.State (Unit {0})
  complete fault principal key code result t = elim fault [
    | some message ↦ (err (other message), t)
    | none ↦ elim (T.lookup (principal, key) t) [
      | none ↦ (err (other "P2025"), t)
      | some row ↦ (ok tt, T.put (principal, key) (completed_row code result row) t)
    ]
  ]

  -- the delete of the handler of errors, whose own failure is dropped
  pub forget : Bool → String → String → T.State → T.State
  forget fails principal key t = if fails then t else T.remove (principal, key) t

  abbrev on_records : {A : Type 0} → Exec T.State A → Exec State A
  on_records m s = let (r, t) = m s.records in (r, record s { records = t })

  abbrev on_world : {A : Type 0} → Exec World A → Exec State A
  on_world m s = let (r, w) = m s.world in (r, record s { world = w })

  -- `catch (error)`: the row is dropped and the error thrown again
  abbrev pub forgetting : Bool → String → String → Result Json × State → Result Json × State
  forgetting fails principal key (ok r, s) = (ok r, s)
  forgetting fails principal key (err e, s) =
      (err e, record s { records = forget fails principal key s.records })

  -- the `try` block: the handler and the update
  pub run_handler : Faults → String → String → Request → Exec World Json → Exec State Json
  unfolding complete
  run_handler faults principal key req handler = do
    result ← on_world handler
    on_records (complete faults.update principal key (resolve_status req) result)
    pure result

  -- `handle` with a key and a principal
  pub handle_keyed : Faults → ℕ → String → String → Request → Exec World Json → Exec State Json
  unfolding begin_processing run_handler forget
  handle_keyed faults now principal key req handler s = elim (T.lookup (principal, key) s.records) [
    | some existing ↦ (replay existing (hash_request req) key, s)
    | none ↦
        (do
          on_records (begin_processing faults.create now principal key req)
          (λ u.
              forgetting faults.delete principal key
                (run_handler faults principal key req handler u)))
          s
  ]

  -- `handle`
  pub handle : Faults → ℕ → Request → Exec World Json → Exec State Json
  unfolding handle_keyed
  handle faults now req handler = do
    key ← lift (extract_key req)
    principal ← lift (principal_of req)
    handle_keyed faults now principal key req handler
