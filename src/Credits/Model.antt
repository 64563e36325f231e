-- ===== src/Credits/Model.antt =====
-- The data of src/modules/credits/credit.service.ts: ledger entries, mutations, and the state.
use nestjs_enterprise_starte.Prelude.{String, Bool, Option, List}
use nestjs_enterprise_starte.Prelude.Int.{ℤ}
use nestjs_enterprise_starte.Prelude.{string_key}
use nestjs_enterprise_starte.Common.Json.{Json, Number}
use nestjs_enterprise_starte.Common.Table.{Table}
use nestjs_enterprise_starte.Organizations.Subject.{BillingSubject, subject_key}

-- `CreditLedgerType`
pub data LedgerType : Type 0 where
  grant spend refund adjust : LedgerType

-- A row of `credit_ledger_entries`, less the id and the time, which the database gives it. The
-- key is unique.
pub record Entry : Type 0 where
  pub user_id : Option String
  pub organization_id : Option String
  pub type : LedgerType
  pub amount : ℤ
  pub balance_after : ℤ
  pub feature : Option String
  pub idempotency_key : String
  pub metadata : Option Json

-- `CreditMutationResult`
pub record MutationResult : Type 0 where
  pub entry : Entry
  pub balance : ℤ
  pub replayed : Bool

-- The argument of `grant`, `spend` and `refund` (`SubjectInput` with an amount), and of `adjust`,
-- where `amount` is the `delta`.
pub record Input : Type 0 where
  pub subject : Option BillingSubject
  pub user_id : Option String
  pub amount : Number
  pub idempotency_key : String
  pub feature : Option String
  pub metadata : Option Json

-- the argument of `apply`
pub record Params : Type 0 where
  pub subject : BillingSubject
  pub type : LedgerType
  pub amount : ℤ
  pub delta : ℤ
  pub idempotency_key : String
  pub feature : Option String
  pub metadata : Option Json
  pub fail_if_insufficient : Bool

-- `CreditsLowBalancePayload`
pub record LowBalance : Type 0 where
  pub subject : BillingSubject
  pub user_id : Option String
  pub balance : ℤ
  pub threshold : ℤ

-- `credits.lowBalanceThreshold`, and whether a metrics service is injected
pub record Config : Type 0 where
  pub low_balance_threshold : Option ℤ
  pub has_metrics : Bool

-- a call of one of the four mutations
pub record Mutation : Type 0 where
  pub type : LedgerType
  pub input : Input

-- The wallets by their owner (`userId` and `organizationId` are unique, and a wallet has exactly
-- one of them), and the ledger entries by their key.
abbrev pub Wallets : Type 1
Wallets = Table BillingSubject ℤ subject_key

abbrev pub Ledger : Type 1
Ledger = Table String Entry string_key

pub record Db (W : Wallets) (L : Ledger) : Type 0 where
  pub wallets : W.State
  pub ledger : L.State

-- The database, the events emitted so far and the mutations counted so far, newest first.
pub record State (W : Wallets) (L : Ledger) : Type 0 where
  pub db : Db W L
  pub emitted : List LowBalance
  pub recorded : List LedgerType
