-- ===== src/Admin.antt =====
-- Changes of a user's credits by an administrator, and their audit trail:
-- src/modules/admin/admin-billing.controller.ts and audit-log.service.ts.
pub mod Settled
pub mod Audited
pub mod Unaudited
mod Tests
use nestjs_enterprise_starte.Prelude.{
  string_key, true, ◌===◌, ◌∷◌, any, List, ℕ, if◌then◌else◌, [], Option, not, some, String, none,
  Bool, refl,
}
use nestjs_enterprise_starte.Prelude.Int.{int_eq, ℤ, pos}
use nestjs_enterprise_starte.Common.Json.{Json, Number, integer, fraction, object, set_field, end}
use nestjs_enterprise_starte.Common.Exec.{
  Exec, Result, Reply, over, ok, err, throw_if, or_throw, ◌>>=◌, ◌>>◌,
}
use nestjs_enterprise_starte.Common.Errors.{ErrorCode, api_error}
use nestjs_enterprise_starte.Credits
use nestjs_enterprise_starte.Credits.{Input, MutationResult, LedgerType, Wallets, Ledger}
use nestjs_enterprise_starte.Plans.{EffectivePlan, SubscriptionStatus, BillingInterval, Ceilings}
use Prim.Native.String.{◌++◌ as ◌⊕◌}

-- `CreditGrantDto` and `CreditAdjustDto`, where `amount` is the `delta`
pub record Change : Type 0 where
  pub amount : Number
  pub idempotency_key : String
  pub reason : String

-- `WriteAuditParams`
pub record AuditRow : Type 0 where
  pub actor_user_id : String
  pub action : String
  pub target_type : Option String
  pub target_id : Option String
  pub summary : String
  pub metadata : Option Json
  pub request_id : Option String

-- what the two handlers answer
pub record Receipt : Type 0 where
  pub user_id : String
  pub balance : ℤ
  pub replayed : Bool
  pub type : LedgerType
  pub amount : ℤ
  pub balance_after : ℤ

-- the subscription that `subscription` shows
pub record ShownSubscription : Type 0 where
  pub id : String
  pub status : SubscriptionStatus
  pub interval : BillingInterval
  pub current_period_end : Option ℕ

-- the answer of `subscription`
pub record PlanView : Type 0 where
  pub user_id : String
  pub slug : String
  pub name : String
  pub rank : ℕ
  pub from_subscription : Bool
  pub subscription : Option ShownSubscription
  pub entitlements : List (String × Bool)
  pub limits : List (String × Ceilings)

-- who asks, of whom and with what
pub record Request : Type 0 where
  pub actor : String
  pub user_id : String
  pub change : Change
  pub request_id : Option String

-- what the connections of a request do: that of the ledger, and that of the audit log
pub record Weather : Type 0 where
  pub ledger : Reply
  pub audit_written : Bool

-- the argument of the credit service
pub credit_input : Request → Input
credit_input r = record {
  subject = none;
  user_id = some r.user_id;
  amount = r.change.amount;
  idempotency_key = r.change.idempotency_key;
  feature = none;
  metadata = some (
      object (
        set_field "actorUserId" (Json.text r.actor)
          (set_field "reason" (Json.text r.change.reason) end)));
}

-- the rows of the two handlers; `show` is the text of a number in a template
pub grant_row : (Number → String) → Request → MutationResult → AuditRow
grant_row show r m = record {
  actor_user_id = r.actor;
  action = "credits.grant";
  target_type = some "user";
  target_id = some r.user_id;
  summary = "Granted " ⊕ show r.change.amount ⊕ " credits: " ⊕ r.change.reason;
  metadata = some (
      object (
        set_field "amount" (Json.number r.change.amount) (
          set_field "idempotencyKey" (Json.text r.change.idempotency_key)
            (set_field "balanceAfter" (Json.number (integer m.balance)) end))));
  request_id = r.request_id;
}

pub adjust_row : (Number → String) → Request → MutationResult → AuditRow
adjust_row show r m = record {
  actor_user_id = r.actor;
  action = "credits.adjust";
  target_type = some "user";
  target_id = some r.user_id;
  summary = "Adjusted credits by " ⊕ show r.change.amount ⊕ ": " ⊕ r.change.reason;
  metadata = some (
      object (
        set_field "delta" (Json.number r.change.amount) (
          set_field "idempotencyKey" (Json.text r.change.idempotency_key)
            (set_field "balanceAfter" (Json.number (integer m.balance)) end))));
  request_id = r.request_id;
}

-- the answer to a mutation
pub receipt_for : String → MutationResult → Receipt
receipt_for user_id m = record {
  user_id = user_id;
  balance = m.balance;
  replayed = m.replayed;
  type = m.entry.type;
  amount = m.entry.amount;
  balance_after = m.entry.balance_after;
}

-- `!Number.isInteger(delta) || delta === 0`
abbrev pub no_movement : Number → Bool
no_movement (integer n) = int_eq n (pos 0)
no_movement fraction = true

-- the answer of `subscription` about a plan
pub plan_view : String → EffectivePlan → PlanView
plan_view user_id plan = record {
  user_id = user_id;
  slug = plan.slug;
  name = plan.name;
  rank = plan.rank;
  from_subscription = plan.from_subscription;
  subscription = elim plan.subscription_id [
    | none ↦ none
    | some id ↦ elim plan.status [
      | none ↦ none
      | some status ↦ elim plan.interval [
        | none ↦ none
        | some interval ↦
            if id === ""
            then none
            else some (record {
              id = id;
              status = status;
              interval = interval;
              current_period_end = plan.current_period_end;
            })
      ]
    ]
  ];
  entitlements = plan.entitlements;
  limits = plan.usage_limits;
}

module _ (W : Wallets) (L : Ledger) (config : Credits.Config) (show : Number → String) where
  -- the users, the ledger and the audit log, the latest row first
  pub record Store : Type 0 where
    pub users : List String
    pub credits : Credits.State W L
    pub audit : List AuditRow

  -- `requireUser`
  pub require_user : String → Exec Store (Unit {0})
  require_user user_id s =
      throw_if (not (any (λ u. u === user_id) s.users))
        (api_error 404 ErrorCode.not_found "User not found." []) s

  -- `writeSafe`, which swallows the errors of `write`
  pub write_safe : Bool → AuditRow → Store → Store
  write_safe written row s = if written then record s { audit = row ∷ s.audit } else s

  -- the call of the ledger, with the row of one that is no replay
  pub settle :
      Weather
      → String
      → (MutationResult → AuditRow)
      → Exec (Credits.State W L) MutationResult
      → Exec Store Receipt
  unfolding write_safe
  settle w user_id row_for call s =
      let (a, credits) = over w.ledger call s.credits in
      let s' : Store = record s { credits = credits } in
      elim a [
        | err e ↦ (err e, s')
        | ok m ↦ (
          ok (receipt_for user_id m),
          if m.replayed then s' else write_safe w.audit_written (row_for m) s',
        )
      ]

  -- `grant`
  pub grant : Weather → Request → Exec Store Receipt
  unfolding settle
  grant w r = do
    require_user r.user_id
    settle w r.user_id (grant_row show r) (Credits.grant W L config (credit_input r))

  -- `adjust`
  pub adjust : Weather → Request → Exec Store Receipt
  unfolding settle
  adjust w r = do
    require_user r.user_id
    throw_if (no_movement r.change.amount)
        (api_error 400 ErrorCode.bad_request "delta must be a non-zero integer." [])
    settle w r.user_id (adjust_row show r) (Credits.adjust W L config (credit_input r))
