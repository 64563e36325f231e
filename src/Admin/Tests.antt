-- ===== src/Admin/Tests.antt =====
-- A grant of five credits.
use nestjs_enterprise_starte.Prelude.{
  ◌≡◌, some, arith, string_key, false, [], String, ◌∷◌, true, none, refl,
}
use nestjs_enterprise_starte.Prelude.Int.{abs, pos, ℤ, ◌+ℤ◌}
use nestjs_enterprise_starte.Common.Json.{Number, integer}
use nestjs_enterprise_starte.Common.Exec.{Reply}
use nestjs_enterprise_starte.Common.Table.{search_rows, rows_table}
use nestjs_enterprise_starte.Organizations.Subject.{BillingSubject, subject_key}
use nestjs_enterprise_starte.Credits
use nestjs_enterprise_starte.Credits.{
  metadata_with_delta, Entry, Wallets, Ledger, get_balance, apply, ensure_wallet, apply_locked,
  create_entry, low_threshold, resolve_subject, positive_amount, in_transaction, transaction_body,
  replay, record_mutation, signal_low_balance, replay_mismatch, MutationResult,
}
use nestjs_enterprise_starte.Admin.{
  LedgerType, credit_input, Result, Request, Weather, Store, grant, adjust,
}
use nestjs_enterprise_starte.Admin.Audited.{changes-IsAudited, IsAudited, granted_row, adjusted_row}
use nestjs_enterprise_starte.Admin.Unaudited.{lost_grant_is_never_audited, retried}

abbrev wallet_rows : Wallets
wallet_rows = rows_table BillingSubject ℤ subject_key

abbrev ledger_rows : Ledger
ledger_rows = rows_table String Entry string_key

abbrev config : Credits.Config
config = record { low_balance_threshold = none; has_metrics = false }

abbrev some_text : Number → String
some_text _ = "5"

abbrev St : Type 0
St = Store wallet_rows ledger_rows config some_text

abbrev before : St
before = record {
  users = "ann" ∷ [];
  credits = record { db = record { wallets = []; ledger = [] }; emitted = []; recorded = [] };
  audit = [];
}

abbrev request : Request
request = record {
  actor = "root";
  user_id = "ann";
  change = record { amount = integer (pos 5); idempotency_key = "g1"; reason = "sorry" };
  request_id = none;
}

abbrev weather : Reply → Weather
weather reply = record { ledger = reply; audit_written = true }

abbrev granted : Result MutationResult × Credits.State wallet_rows ledger_rows
granted = Credits.grant wallet_rows ledger_rows config (credit_input request) before.credits

changes-IsAudited_example :
    let w = weather Reply.heard in
    IsAudited wallet_rows ledger_rows config some_text request LedgerType.grant
      (λ n. n)
      (granted_row wallet_rows ledger_rows config some_text request)
      (grant wallet_rows ledger_rows config some_text w request before).0
      before
      (grant wallet_rows ledger_rows config some_text w request before).1
    × IsAudited wallet_rows ledger_rows config some_text request LedgerType.adjust
        (λ n. pos (abs n))
        (adjusted_row wallet_rows ledger_rows config some_text request)
        (adjust wallet_rows ledger_rows config some_text w request before).0
        before
        (adjust wallet_rows ledger_rows config some_text w request before).1
changes-IsAudited_example =
    changes-IsAudited wallet_rows ledger_rows config some_text (weather Reply.heard) request before
      (λ e. ground arith) refl

abbrev made : MutationResult
made = record {
  entry = record {
    user_id = some "ann";
    organization_id = none;
    type = LedgerType.grant;
    amount = pos 5;
    balance_after = pos 5;
    feature = none;
    idempotency_key = "g1";
    metadata = (credit_input request).metadata;
  };
  balance = pos 5;
  replayed = false;
}

lost_grant_is_never_audited_example :
    let t =
      retried wallet_rows ledger_rows config some_text request
        (weather Reply.heard ∷ [])
        (grant wallet_rows ledger_rows config some_text
          (weather Reply.lost_after)
          request
          before).1 in
    (ledger_rows.lookup "g1" before.credits.db.ledger ≡ none)
    × (ledger_rows.lookup "g1" t.credits.db.ledger ≡ some made.entry)
    × (t.audit ≡ [])
unfolding Credits.grant apply get_balance resolve_subject positive_amount in_transaction
    transaction_body replay ensure_wallet apply_locked create_entry low_threshold record_mutation
    signal_low_balance ◌+ℤ◌ search_rows replay_mismatch credit_input metadata_with_delta
lost_grant_is_never_audited_example =
    lost_grant_is_never_audited wallet_rows ledger_rows config some_text request
      (weather Reply.lost_after) (weather Reply.heard ∷ []) before made refl refl refl refl
