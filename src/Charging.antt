-- ===== src/Charging.antt =====
-- Charging a request: src/modules/credits/credits.guard.ts debits the wallet before the handler, and
-- credits-refund.interceptor.ts gives the credits back if the handler fails, at once or through
-- the queue (src/modules/queues/credit-compensation-queue.service.ts and
-- credit-compensation.processor.ts). The id of a request comes from
-- src/common/middleware/request-context.middleware.ts.
pub mod Compensation
pub mod Guarded
pub mod Unqueued
pub mod Repeated
mod Tests
use nestjs_enterprise_starte.Prelude.Int.{pos}
use nestjs_enterprise_starte.Common.Json.{Json}
use nestjs_enterprise_starte.Common.Json.{number, end, boolean, set_field, object, integer, Json}
use nestjs_enterprise_starte.Common.Errors.{text, ErrorCode, api_error, other}
use nestjs_enterprise_starte.Organizations.Subject.{BillingSubject}
use nestjs_enterprise_starte.Prelude.{
  or_else, ◌||◌, [], ◌+◌, not, some, ◌∷◌, if◌then◌else◌, none, String, List, Option, Bool, ℕ,
}
use Prim.Native.String.{◌++◌ as ◌⊕◌}
use nestjs_enterprise_starte.Common.Exec.{
  over, Reply, lift, pure, ok, err, Exec, Result, ◌>>=◌, ◌>>◌,
}
use nestjs_enterprise_starte.Credits.{
  State, Config, spend, refund, Input, MutationResult, Wallets, Ledger,
}

-- `CreditFeature`
pub data CreditFeature : Type 0 where
  demo_paid : CreditFeature

-- the key of a feature in `CREDIT_COSTS`
abbrev pub feature_name : CreditFeature → String
feature_name demo_paid = "demo.paid"

-- `creditCost`
abbrev pub credit_cost : CreditFeature → ℕ
credit_cost demo_paid = 1

-- `CreditsSpendMarker`
pub record Marker : Type 0 where
  pub subject : BillingSubject
  pub feature : CreditFeature
  pub amount : ℕ
  pub spend_key : String
  pub refund_key : String

-- `CreditCompensationJobPayload`
pub record Job : Type 0 where
  pub subject : BillingSubject
  pub amount : ℕ
  pub idempotency_key : String
  pub feature : String
  pub reason : String

-- what the guard and the interceptor read of a route
pub record Route : Type 0 where
  pub is_http : Bool
  pub is_public : Bool
  pub feature : Option CreditFeature

-- `resolveRequestId`, with `isAcceptableRequestId` and a new id
pub resolve_request_id : (String → Bool) → String → Option String → String
resolve_request_id acceptable fresh none = fresh
resolve_request_id acceptable fresh (some candidate) =
    if acceptable candidate then candidate else fresh

-- the id of a request, from the id that it has already or from its header
pub request_id_of : (String → Bool) → String → Option String → Option String → String
unfolding resolve_request_id
request_id_of acceptable fresh none header = resolve_request_id acceptable fresh header
request_id_of acceptable fresh (some existing) header =
    if acceptable existing then existing else resolve_request_id acceptable fresh header

-- the marker of the guard
pub marker_for : BillingSubject → CreditFeature → String → Marker
marker_for subject feature request_id = record {
  subject = subject;
  feature = feature;
  amount = credit_cost feature;
  spend_key = "spend:" ⊕ request_id ⊕ ":" ⊕ feature_name feature;
  refund_key = "refund:" ⊕ request_id ⊕ ":" ⊕ feature_name feature;
}

-- the argument of a mutation for a subject
abbrev pub input_for : BillingSubject → ℕ → String → String → Option Json → Input
input_for subject amount key feature metadata = record {
  subject = some subject;
  user_id = none;
  amount = integer (pos amount);
  idempotency_key = key;
  feature = some feature;
  metadata = metadata;
}

abbrev pub spend_input : Marker → Input
spend_input m = input_for m.subject m.amount m.spend_key (feature_name m.feature) none

-- the metadata of a refund at once, with the message of the error
abbrev refund_metadata : Marker → String → Json
refund_metadata m message = object (
    set_field "reason" (Json.text "handler_failure_compensation") (
      set_field "spendIdempotencyKey" (Json.text m.spend_key)
        (set_field "error" (Json.text message) end)))

abbrev pub refund_input : Marker → String → Input
refund_input m message =
    input_for m.subject m.amount m.refund_key (feature_name m.feature)
      (some (refund_metadata m message))

-- the payload of `queueCompensation`
abbrev pub job_for : Marker → Job
job_for m = record {
  subject = m.subject;
  amount = m.amount;
  idempotency_key = m.refund_key;
  feature = feature_name m.feature;
  reason = "handler_failure_compensation_retry";
}

-- the `jobId` of `enqueueRefund`
pub job_id : Job → String
job_id job = "credit-refund:" ⊕ job.idempotency_key

-- `queue.add` of BullMQ: the jobs with a new one under a custom id, or none if the call throws
abbrev pub Adder : Type 0
Adder = String → Job → List Job → Option (List Job)

-- `enqueueRefund`
pub enqueue_refund : Adder → Job → List Job → Option (List Job)
unfolding job_id
enqueue_refund add job = add (job_id job) job

-- the argument of the processor, with the number of the attempt
abbrev pub job_input : ℕ → Job → Input
job_input attempt job = input_for job.subject job.amount job.idempotency_key job.feature (
    some (
      object (
        set_field "reason" (Json.text job.reason) (
          set_field "viaQueue" boolean
            (set_field "attempt" (Json.number (integer (pos attempt))) end)))))

module _ (W : Wallets) (L : Ledger) (config : Config) where
  -- `principalOf`
  abbrev principal_of : Option String → Result String
  principal_of none = err (api_error 401 ErrorCode.unauthorized "Authentication required." [])
  principal_of (some id) = ok id

  -- `canActivate` of the guard; the marker is what it leaves on the request
  pub charge :
      Route
      → Option String
      → (String → Result BillingSubject)
      → Option String
      → Exec (State W L) (Option Marker)
  charge route principal billing request_id =
      if not route.is_http || route.is_public then pure none else elim route.feature [
        | none ↦ pure none
        | some feature ↦ do
          id ← lift (principal_of principal)
          subject ← lift (billing id)
          let marker = marker_for subject feature (or_else request_id "unknown")
          spend W L config (spend_input marker)
          pure (some marker)
      ]

  -- a refund over a connection that may fail
  pub refund_over : Reply → Input → Exec (State W L) MutationResult
  refund_over reply input = over reply (refund W L config input)

  -- the ledger, and the jobs in the queue
  pub record Shared : Type 0 where
    pub credits : State W L
    pub jobs : List Job

  -- `queueCompensation`; a service that is missing and a call that throws are logged
  pub queue_compensation : Option Adder → Marker → Shared → Shared
  unfolding enqueue_refund
  queue_compensation none m s = s
  queue_compensation (some add) m s = elim (enqueue_refund add (job_for m) s.jobs) [
    | none ↦ s
    | some jobs ↦ record s { jobs = jobs }
  ]

  -- `refundIfNeeded`
  pub refund_if_needed : Reply → Option Adder → Option Marker → String → Shared → Shared
  unfolding queue_compensation
  refund_if_needed reply queue none message s = s
  refund_if_needed reply queue (some m) message s =
      let (r, credits) = refund_over reply (refund_input m message) s.credits in
      elim r [
        | ok _ ↦ record s { credits = credits }
        | err _ ↦ queue_compensation queue m (record s { credits = credits })
      ]

  -- `process` of a job, and its further attempts until one ends well or none is left
  pub process : ℕ → List Reply → Job → State W L → State W L
  unfolding refund_over
  process attempt [] job s = s
  process attempt (reply ∷ replies) job s =
      let (r, s') = refund_over reply (job_input attempt job) s in
      let rest = process (attempt + 1) replies job s' in elim r [ ok _ ↦ s' | err _ ↦ rest ]
