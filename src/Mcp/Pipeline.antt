-- ===== src/Mcp/Pipeline.antt =====
-- src/modules/mcp/agent-pipeline.service.ts, with mcp-invocation-log.service.ts, and the results of
-- mcp-server.factory.ts. A tool's handler acts on a state of its own.
pub mod Stages
pub mod Reported
pub mod Admitted
pub mod Costs
pub mod Sibling
mod Tests
use nestjs_enterprise_starte.Common.Counters.{Counters}
use nestjs_enterprise_starte.Common.Timed.{Timed}
use nestjs_enterprise_starte.Prelude.{
  false, is_some, true, ◌&&◌, string_key, ◌===◌, not, any, or_else, none, some, ◌∷◌, Option, Bool,
  String, List, ℕ, if◌then◌else◌, [], refl,
}
use nestjs_enterprise_starte.Prelude.Int.{pos}
use nestjs_enterprise_starte.Common.Json.{integer}
use nestjs_enterprise_starte.Common.Exec.{
  ok, pure, err, throw_if, lift, modify, over, Reply, Exec, Result, ◌>>=◌, ◌>>◌,
}
use nestjs_enterprise_starte.Common.Errors.{other, api, api_error, ErrorCode, Thrown}
use nestjs_enterprise_starte.Plans.{
  Period, Catalogue, Subscription, EffectivePlan, has_entitlement, meets_minimum_plan, resolve,
}
use nestjs_enterprise_starte.Charging.{CreditFeature, feature_name, credit_cost}
use nestjs_enterprise_starte.Credits.{spend, refund, Input, MutationResult, Wallets, Ledger}
use nestjs_enterprise_starte.Credits
use nestjs_enterprise_starte.Usage
use nestjs_enterprise_starte.Usage.{UsageSubject, Turn, PlanReads}
use nestjs_enterprise_starte.Mcp.Throttle.{Denial, Ceilings, Outage, consume}
use Prim.Native.String.{◌++◌ as ◌⊕◌}

-- the `AgentPrincipal`, as far as the pipeline reads it
pub record Principal : Type 0 where
  pub user_id : String
  pub api_key_id : String
  pub permissions : List String

-- `McpToolDefinition`, less its handler and its texts
pub record Tool : Type 0 where
  pub name : String
  pub permissions : List String
  pub entitlements : List String
  pub minimum_plan : Option String
  pub usage_feature : Option String
  pub credit_feature : Option CreditFeature

-- `McpInvocationOutcome`
pub data Outcome : Type 0 where
  success denied error : Outcome

-- `RecordMcpInvocationParams`
pub record Invocation : Type 0 where
  pub user_id : String
  pub api_key_id : String
  pub tool_name : String
  pub outcome : Outcome
  pub error_code : Option ErrorCode
  pub request_id : Option String

-- the plans that a call reads; the subscriptions of the user are missing if the read fails
pub record Reads : Type 0 where
  pub catalogue : Catalogue
  pub now : ℕ
  pub subscriptions : Option (List Subscription)

-- what the connections of a call do
pub record Weather : Type 0 where
  pub burst : Outage
  pub minute : Outage
  pub spending : Reply
  pub refunding : Reply
  pub log_written : Bool

abbrev forbidden : Thrown
forbidden = api_error 403 ErrorCode.forbidden "You do not have access to this resource." []

abbrev plan_denied : Thrown
plan_denied =
    api_error 403 ErrorCode.entitlement_denied "Your plan does not include this capability." []

-- `assertPermissions`
pub assert_permissions : List String → List String → Result (Unit {0})
assert_permissions granted required =
    if any (λ p. not (any (λ q. q === p) granted)) required then err forbidden else ok tt

-- the loop of `assertPlan`
pub assert_entitlements : EffectivePlan → List String → Result (Unit {0})
assert_entitlements plan [] = ok tt
assert_entitlements plan (key ∷ keys) =
    if not (has_entitlement plan key) then err plan_denied else assert_entitlements plan keys

abbrev is_nil : List String → Bool
is_nil [] = true
is_nil (x ∷ xs) = false

-- `assertPlan`, with the test that calls it
pub assert_plan : Reads → Tool → Result (Unit {0})
unfolding assert_entitlements
assert_plan reads tool =
    if is_nil tool.entitlements && not (is_some tool.minimum_plan)
    then ok tt
    else elim reads.subscriptions [
      | none ↦ err (other "database")
      | some rows ↦
          let plan = resolve reads.catalogue rows reads.now in
          elim tool.minimum_plan [
            | none ↦ assert_entitlements plan tool.entitlements
            | some slug ↦
                if not (meets_minimum_plan reads.catalogue plan slug)
                then err plan_denied
                else assert_entitlements plan tool.entitlements
          ]
    ]

-- what the throttle stage throws
pub throttled : Option Denial → Result (Unit {0})
throttled none = ok tt
throttled (some Denial.store_unavailable) = err (
    api_error 503 ErrorCode.service_unavailable
      "MCP rate limiting is temporarily unavailable. Try again shortly." [])
throttled (some Denial.rate_limited) =
    err (api_error 429 ErrorCode.rate_limited "Too many MCP requests. Try again later." [])

-- `spendKey`
pub spend_key : Option String → Tool → CreditFeature → String
spend_key request_id tool feature =
    "mcp:spend:" ⊕ or_else request_id "noreq" ⊕ ":" ⊕ tool.name ⊕ ":" ⊕ feature_name feature

abbrev pub input_for : Principal → CreditFeature → String → Input
input_for principal feature key = record {
  subject = none;
  user_id = some principal.user_id;
  amount = integer (pos (credit_cost feature));
  idempotency_key = key;
  feature = some (feature_name feature);
  metadata = none;
}

-- the outcome of an error
pub outcome_of_code : ErrorCode → Outcome
outcome_of_code ErrorCode.forbidden = Outcome.denied
outcome_of_code ErrorCode.unauthorized = Outcome.denied
outcome_of_code ErrorCode.entitlement_denied = Outcome.denied
outcome_of_code ErrorCode.rate_limited = Outcome.denied
outcome_of_code ErrorCode.usage_limit_exceeded = Outcome.denied
outcome_of_code ErrorCode.insufficient_credits = Outcome.denied
outcome_of_code _ = Outcome.error

-- `code` of the `catch`
pub code_or_internal : Thrown → ErrorCode
code_or_internal (api e) = e.code
code_or_internal (other _) = ErrorCode.internal_error

pub outcome_of_error : Thrown → Outcome
unfolding outcome_of_code
outcome_of_error (api e) = outcome_of_code e.code
outcome_of_error (other _) = Outcome.error

-- The services: the counters of the throttle and of the usage limits, the wallets and the ledger,
-- with their configurations, and the tool with its handler.
module _ (T : Timed) (ceilings : Ceilings) (C : Counters) (limits : Usage.Config)
    (plans : Option PlanReads) (stamp : Period → ℕ → String) (W : Wallets) (L : Ledger)
    (config : Credits.Config) {World A : Type 0} (tool : Tool) (handler : Exec World A) where
  pub record Store : Type 0 where
    pub throttle : T.State
    pub usage : Usage.State C limits plans stamp
    pub credits : Credits.State W L
    pub world : World
    pub log : List Invocation
    pub metrics : List (String × Outcome)

  -- a run's own data: who calls, under which request, with which readings and connections
  pub record Run : Type 0 where
    pub principal : Principal
    pub request_id : Option String
    pub reads : Reads
    pub now : ℕ
    pub turns : List Turn
    pub weather : Weather

  -- `finish`, with `record` of the invocation log, which swallows its errors
  pub finish : Run → Outcome → Option ErrorCode → Store → Store
  finish r outcome code s =
      let row : Invocation = record {
        user_id = r.principal.user_id;
        api_key_id = r.principal.api_key_id;
        tool_name = tool.name;
        outcome = outcome;
        error_code = code;
        request_id = r.request_id;
      } in
      record s {
        metrics = (tool.name, outcome) ∷ s.metrics;
        log = if r.weather.log_written then row ∷ s.log else s.log;
      }

  -- the throttle stage
  pub throttle_stage : Run → Exec Store (Unit {0})
  throttle_stage r s =
      let (denial, counters) =
        consume T r.weather.burst r.weather.minute ceilings r.now r.principal.user_id s.throttle in
      (throttled denial, record s { throttle = counters })

  -- the usage stage
  pub usage_stage : Run → Exec Store (Unit {0})
  usage_stage r s = elim tool.usage_feature [
    | none ↦ (ok tt, s)
    | some feature ↦
        let subject : UsageSubject = record { actor = r.principal.user_id; billing = none } in
        let (a, usage) = Usage.consume C limits plans stamp subject feature r.turns s.usage in
        (a, record s { usage = usage })
  ]

  -- the credit stage
  pub credit_stage : Run → Exec Store (Unit {0})
  unfolding spend_key
  credit_stage r s = elim tool.credit_feature [
    | none ↦ (ok tt, s)
    | some feature ↦
        let input = input_for r.principal feature (spend_key r.request_id tool feature) in
        let (a, credits) = over r.weather.spending (spend W L config input) s.credits in
        (elim a [ ok _ ↦ ok tt | err e ↦ err e ], record s { credits = credits })
  ]

  -- what is given back when the handler fails; an error of the refund is only logged
  pub give_back : Run → Store → Store
  unfolding spend_key
  give_back r s = elim tool.credit_feature [
    | none ↦ s
    | some feature ↦
        let input =
          input_for r.principal feature ("mcp:refund:" ⊕ spend_key r.request_id tool feature) in
        record s { credits = (over r.weather.refunding (refund W L config input) s.credits).1 }
  ]

  -- the handler, with the `try` around it
  pub handle : Run → Exec Store A
  handle r s =
      let (a, world) = handler s.world in
      let s' : Store = record s { world = world } in
      elim a [
        | ok value ↦ (ok value, finish r Outcome.success none s')
        | err e ↦ (err e, give_back r s')
      ]

  -- the stages before the handler
  pub stages : Run → Exec Store (Unit {0})
  stages r = do
    lift (assert_permissions r.principal.permissions tool.permissions)
    lift (assert_plan r.reads tool)
    throttle_stage r
    usage_stage r
    credit_stage r

  -- the outer `catch`
  pub reported : Run → Result A × Store → Result A × Store
  reported r (ok a, s) = (ok a, s)
  reported r (err e, s) = (err e, finish r (outcome_of_error e) (some (code_or_internal e)) s)

  -- `run`
  pub run : Run → Exec Store A
  unfolding stages handle reported
  run r s = reported r ((stages r >> handle r) s)
