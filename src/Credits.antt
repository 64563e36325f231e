-- ===== src/Credits.antt =====
-- src/modules/credits/credit.service.ts, method by method. A Prisma call is a read or a write of
-- an abstract table; `$transaction` undoes the writes of a body that throws, and the row lock makes
-- bodies on one wallet run one after the other. Its data are in `Model`, the proofs in the other
-- children.
mod Model
pub mod Effect
pub mod Trace
pub mod Replay
pub mod Balance
pub mod Once
pub mod Recorded
pub mod Signals
pub mod Race
pub mod Fresh
mod Tests
pub use Model.{
  LedgerType, Entry, MutationResult, Input, Params, LowBalance, Config, Mutation, Wallets, Ledger,
  Db, State,
}
use nestjs_enterprise_starte.Prelude.{
  String, Bool, true, false, not, ◌&&◌, ◌||◌, Option, none, some, List, [], ◌∷◌, ◌===◌, string_key,
  is_some, if◌then◌else◌,
}
use nestjs_enterprise_starte.Prelude.Int.{ℤ, pos, ◌+ℤ◌, neg, abs, ltb_ℤ, leb_ℤ, int_eq}
use nestjs_enterprise_starte.Common.Errors.{ErrorCode, Detail, Thrown, other, api_error}
use nestjs_enterprise_starte.Common.Exec.{
  Result, ok, err, Exec, pure, throw, gets, lift, or_throw, rolled_back, modify, throw_if, ◌>>=◌,
  ◌>>◌,
}
use nestjs_enterprise_starte.Common.Json.{
  Json, Number, Fields, get_field, set_field, object, number, integer, fraction, end,
}
use nestjs_enterprise_starte.Organizations.Subject.{BillingSubject, user, organization}

-- `ADJUST_DELTA_KEY`
abbrev adjust_delta_key : String
adjust_delta_key = "adjustDelta"

abbrev same_type : LedgerType → LedgerType → Bool
same_type LedgerType.grant LedgerType.grant = true
same_type LedgerType.spend LedgerType.spend = true
same_type LedgerType.refund LedgerType.refund = true
same_type LedgerType.adjust LedgerType.adjust = true
same_type _ _ = false

abbrev pub same_text? : Option String → Option String → Bool
same_text? none none = true
same_text? (some a) (some b) = a === b
same_text? _ _ = false

-- `ownerData`: the owner columns of a row
abbrev pub owner_user : BillingSubject → Option String
owner_user (user id) = some id
owner_user (organization _) = none

abbrev pub owner_organization : BillingSubject → Option String
owner_organization (user _) = none
owner_organization (organization id) = some id

-- `ownerMismatch` of `assertReplayMatches`
abbrev pub owner_mismatch : BillingSubject → Entry → Bool
owner_mismatch (organization id) existing = not (same_text? existing.organization_id (some id))
owner_mismatch (user id) existing = not (same_text? existing.user_id (some id))

abbrev pub object_fields : Option Json → Fields
object_fields (some (object fields)) = fields
object_fields _ = end

-- `metadataWithDelta`
unfoldable pub metadata_with_delta : LedgerType → ℤ → Option Json → Option Json
metadata_with_delta LedgerType.adjust delta metadata =
    some (object (set_field adjust_delta_key (number (integer delta)) (object_fields metadata)))
metadata_with_delta _ delta metadata = metadata

abbrev number_value : Option Json → Option Number
number_value (some (number n)) = some n
number_value _ = none

-- `storedDelta`
unfoldable pub stored_delta : Entry → Option Number
stored_delta entry = number_value (get_field adjust_delta_key (object_fields entry.metadata))

-- `recordedDelta !== undefined && recordedDelta !== delta`
abbrev differs : Option Number → ℤ → Bool
differs none delta = false
differs (some (integer n)) delta = not (int_eq n delta)
differs (some fraction) delta = true

-- `directionMismatch`
unfoldable pub direction_mismatch : Entry → Params → Bool
unfolding stored_delta
direction_mismatch existing p =
    differs (if same_type p.type LedgerType.adjust then stored_delta existing else none) p.delta

-- `params.feature !== undefined && existing.feature !== params.feature`
abbrev feature_mismatch : Entry → Params → Bool
feature_mismatch existing p = is_some p.feature && not (same_text? existing.feature p.feature)

-- the test of `assertReplayMatches`
unfoldable pub replay_mismatch : Entry → Params → Bool
unfolding direction_mismatch
replay_mismatch existing p =
    owner_mismatch p.subject existing
    || direction_mismatch existing p
    || not (same_type existing.type p.type)
    || not (int_eq existing.amount p.amount)
    || feature_mismatch existing p

abbrev pub reuse_conflict : Entry → Thrown
reuse_conflict existing =
    api_error 409 ErrorCode.conflict
      "Idempotency key was reused with a conflicting credit mutation."
      (("idempotencyKey", Detail.text existing.idempotency_key) ∷ [])

abbrev feature_detail : Option String → Detail
feature_detail none = Detail.undefined
feature_detail (some f) = Detail.text f

abbrev pub insufficient : Params → ℤ → Thrown
insufficient p balance = api_error 402 ErrorCode.insufficient_credits "Insufficient credits." (
    ("required", Detail.num p.amount)
    ∷ ("balance", Detail.num balance)
    ∷ ("feature", feature_detail p.feature)
    ∷ [])

-- the entry that `apply` creates
abbrev pub entry_for : Params → ℤ → Entry
entry_for p balance = record {
  user_id = owner_user p.subject;
  organization_id = owner_organization p.subject;
  type = p.type;
  amount = p.amount;
  balance_after = balance;
  feature = p.feature;
  idempotency_key = p.idempotency_key;
  metadata = metadata_with_delta p.type p.delta p.metadata;
}

-- `assertPositiveAmount`
unfoldable pub positive_amount : Number → Result ℤ
positive_amount (integer n) =
    if leb_ℤ n (pos 0)
    then err (api_error 400 ErrorCode.bad_request "Credit amount must be a positive integer." [])
    else ok n
positive_amount fraction =
    err (api_error 400 ErrorCode.bad_request "Credit amount must be a positive integer." [])

-- the check of `adjust`
pub nonzero_delta : Number → Result ℤ
nonzero_delta (integer n) =
    if int_eq n (pos 0)
    then err (api_error 400 ErrorCode.bad_request "Adjust delta must be a non-zero integer." [])
    else ok n
nonzero_delta fraction =
    err (api_error 400 ErrorCode.bad_request "Adjust delta must be a non-zero integer." [])

-- a text that is present and not empty, as a JavaScript test takes it
abbrev truthy : Option String → Option String
truthy none = none
truthy (some s) = if s === "" then none else some s

-- `resolveSubject`
unfoldable pub resolve_subject : Input → Result BillingSubject
resolve_subject input = elim input.subject [
  | some s ↦ ok s
  | none ↦ elim (truthy input.user_id) [
    | some id ↦ ok (user id)
    | none ↦ err (
        api_error 400 ErrorCode.bad_request
          "A billing subject (userId or organizationId) is required." [])
  ]
]

-- the argument that each mutation passes to `apply`
abbrev pub params_for : LedgerType → Input → BillingSubject → ℤ → Params
params_for LedgerType.grant input subject n = record {
  subject = subject;
  type = LedgerType.grant;
  amount = n;
  delta = n;
  idempotency_key = input.idempotency_key;
  feature = none;
  metadata = input.metadata;
  fail_if_insufficient = false;
}
params_for LedgerType.spend input subject n = record {
  subject = subject;
  type = LedgerType.spend;
  amount = n;
  delta = neg n;
  idempotency_key = input.idempotency_key;
  feature = input.feature;
  metadata = input.metadata;
  fail_if_insufficient = true;
}
params_for LedgerType.refund input subject n = record {
  subject = subject;
  type = LedgerType.refund;
  amount = n;
  delta = n;
  idempotency_key = input.idempotency_key;
  feature = input.feature;
  metadata = input.metadata;
  fail_if_insufficient = false;
}
params_for LedgerType.adjust input subject n = record {
  subject = subject;
  type = LedgerType.adjust;
  amount = pos (abs n);
  delta = n;
  idempotency_key = input.idempotency_key;
  feature = none;
  metadata = input.metadata;
  fail_if_insufficient = ltb_ℤ n (pos 0);
}

module _ (W : Wallets) (L : Ledger) where
  -- `getBalance`
  unfoldable pub get_balance : BillingSubject → Db W L → ℤ
  get_balance subject db = elim (W.lookup subject db.wallets) [ some b ↦ b | none ↦ pos 0 ]

  -- `ensureWallet`: an upsert that updates nothing
  unfoldable pub ensure_wallet : BillingSubject → Db W L → Db W L
  ensure_wallet subject db = elim (W.lookup subject db.wallets) [
    | some _ ↦ db
    | none ↦ record db { wallets = W.put subject (pos 0) db.wallets }
  ]

  -- `creditLedgerEntry.create`; the column `idempotencyKey` is unique
  unfoldable pub create_entry : Entry → Exec (Db W L) (Unit {0})
  create_entry entry db = elim (L.lookup entry.idempotency_key db.ledger) [
    | some _ ↦ (err (other "P2002: idempotencyKey"), db)
    | none ↦ (ok tt, record db { ledger = L.put entry.idempotency_key entry db.ledger })
  ]

  -- The transaction of `apply` from `ensureWallet` on, which runs under the lock of the wallet.
  unfoldable pub apply_locked : Params → Exec (Db W L) MutationResult
  unfolding ensure_wallet create_entry
  apply_locked p = do
    modify (ensure_wallet p.subject)
    found ← gets (λ (db : Db W L). W.lookup p.subject db.wallets)
    balance ← or_throw found (other "P2025: no wallet")
    let next = balance +ℤ p.delta
    throw_if (p.fail_if_insufficient && ltb_ℤ next (pos 0)) (insufficient p balance)
    modify (λ db. record db { wallets = W.put p.subject next db.wallets })
    create_entry (entry_for p next)
    pure (record { entry = entry_for p next; balance = next; replayed = false })

  -- `assertReplayMatches`, and the result of a replay
  unfoldable pub replay : Entry → Params → Exec (Db W L) MutationResult
  unfolding replay_mismatch
  replay existing p =
      if replay_mismatch existing p
      then throw (reuse_conflict existing)
      else pure (record { entry = existing; balance = existing.balance_after; replayed = true })

  -- the whole transaction of `apply`
  unfoldable pub transaction_body : Params → Exec (Db W L) MutationResult
  unfolding apply_locked replay
  transaction_body p db = elim (L.lookup p.idempotency_key db.ledger) [
    | some existing ↦ replay existing p db
    | none ↦ apply_locked p db
  ]

  -- `prisma.$transaction(body)`: the database rolls back what a body that throws has written. A
  -- connection that fails, before or after the commit, is `over` of Common/Exec around a call.
  unfoldable pub in_transaction : {A : Type 0} → Exec (Db W L) A → Exec (State W L) A
  in_transaction body s = let (r, db) = rolled_back s.db (body s.db) in (r, record s { db = db })

module _ (W : Wallets) (L : Ledger) (config : Config) where
  -- `shouldEmitLowBalance`
  unfoldable pub low_threshold : ℤ → Option ℤ
  low_threshold balance = elim config.low_balance_threshold [
    | none ↦ none
    | some threshold ↦ if leb_ℤ balance threshold then some threshold else none
  ]

  -- `this.metrics?.recordCreditMutation(params.type)`
  unfoldable pub record_mutation : Params → MutationResult → State W L → State W L
  record_mutation p result s =
      if not result.replayed && config.has_metrics
      then record s { recorded = p.type ∷ s.recorded }
      else s

  -- `emitLowBalance`, under the test of `apply`
  unfoldable pub signal_low_balance : Params → MutationResult → State W L → State W L
  unfolding low_threshold
  signal_low_balance p result s =
      if not result.replayed && ltb_ℤ p.delta (pos 0)
      then elim (low_threshold result.balance) [
        | none ↦ s
        | some threshold ↦ record s {
          emitted =
              record {
                subject = p.subject;
                user_id = owner_user p.subject;
                balance = result.balance;
                threshold = threshold;
              }
              ∷ s.emitted;
        }
      ]
      else s

  -- `apply`
  unfoldable pub apply : Params → Exec (State W L) MutationResult
  unfolding in_transaction transaction_body record_mutation signal_low_balance
  apply p = do
    result ← in_transaction W L (transaction_body W L p)
    modify (record_mutation p result)
    modify (signal_low_balance p result)
    pure result

  -- the guard on the amount, then the subject, then `apply`
  abbrev pub guarded : LedgerType → (Number → Result ℤ) → Input → Exec (State W L) MutationResult
  guarded type guard input = do
    n ← lift (guard input.amount)
    subject ← lift (resolve_subject input)
    apply (params_for type input subject n)

  -- `grant`
  unfoldable pub grant : Input → Exec (State W L) MutationResult
  grant = guarded LedgerType.grant positive_amount

  -- `spend`
  unfoldable pub spend : Input → Exec (State W L) MutationResult
  spend = guarded LedgerType.spend positive_amount

  -- `refund`
  unfoldable pub refund : Input → Exec (State W L) MutationResult
  refund = guarded LedgerType.refund positive_amount

  -- `adjust`
  pub adjust : Input → Exec (State W L) MutationResult
  adjust = guarded LedgerType.adjust nonzero_delta

  -- a call of one of the four methods
  pub perform : Mutation → Exec (State W L) MutationResult
  unfolding grant spend refund adjust
  perform m = elim m.type [
    | LedgerType.grant ↦ grant m.input
    | LedgerType.spend ↦ spend m.input
    | LedgerType.refund ↦ refund m.input
    | LedgerType.adjust ↦ adjust m.input
  ]
