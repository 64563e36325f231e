-- ===== src/Charging/Tests.antt =====
-- A paid request of a user with ten credits.
use nestjs_enterprise_starte.Charging.Repeated.{same_id_is_charged_once}
use nestjs_enterprise_starte.Charging.Unqueued.{failed_request_cost, RefusesColons}
use nestjs_enterprise_starte.Common.Exec.{ok, Result}
use nestjs_enterprise_starte.Organizations.Subject.{subject_key, BillingSubject}
use text.Mathlib.TextLemmas.{length-append}
use Prim.Native.String.{count, ◌++◌ as ◌⊕◌}
use nestjs_enterprise_starte.Charging.{
  Adder, refund_if_needed, resolve_request_id, request_id_of, marker_for, CreditFeature, Reply,
  Route, charge, Marker,
}
use nestjs_enterprise_starte.Credits.{
  Entry, State, Config, spend, apply, replay, get_balance, resolve_subject, positive_amount,
  in_transaction, transaction_body, record_mutation, signal_low_balance, replay_mismatch, Wallets,
  Ledger, ensure_wallet, apply_locked, create_entry, low_threshold,
}
use nestjs_enterprise_starte.Credits.Trace.{run}
use nestjs_enterprise_starte.Common.Table.{search_rows, rows_table}
use nestjs_enterprise_starte.Prelude.Int.{◌+ℤ◌, pos, ℤ}
use nestjs_enterprise_starte.Prelude.{
  ap, if◌then◌else◌, ◌===◌, Bool-cases, inl, inr, arith, [], true, false, Option, some, Bool, none,
  ◌≡◌, ◌∷◌, String, string_key, refl,
}

abbrev wallet_rows : Wallets
wallet_rows = rows_table BillingSubject ℤ subject_key

abbrev ledger_rows : Ledger
ledger_rows = rows_table String Entry string_key

abbrev config : Config
config = record { low_balance_threshold = none; has_metrics = false }

abbrev ann : BillingSubject
ann = BillingSubject.user "ann"

abbrev before : State wallet_rows ledger_rows
before = record {
  db = record { wallets = (ann, pos 10) ∷ []; ledger = [] };
  emitted = [];
  recorded = [];
}

abbrev paid_route : Route
paid_route = record { is_http = true; is_public = false; feature = some CreditFeature.demo_paid }

abbrev own_wallet : String → Result BillingSubject
own_wallet id = ok (BillingSubject.user id)

opened : Unit {0}
unfolding charge marker_for spend apply get_balance resolve_subject positive_amount in_transaction
    transaction_body replay ensure_wallet apply_locked create_entry low_threshold record_mutation
    signal_low_balance ◌+ℤ◌ search_rows replay_mismatch request_id_of resolve_request_id
opened = tt

abbrev charged : Result (Option Marker) × State wallet_rows ledger_rows
charged =
    charge wallet_rows ledger_rows config paid_route (some "ann") own_wallet (some "r1") before

abbrev marker : Marker
marker = record {
  subject = ann;
  feature = CreditFeature.demo_paid;
  amount = 1;
  spend_key = "spend:r1:demo.paid";
  refund_key = "refund:r1:demo.paid";
}

nine_left : get_balance wallet_rows ledger_rows ann charged.1.db ≡ pos 9
unfolding opened
nine_left = refl

-- a queue that takes no custom id
abbrev own_ids : Adder
own_ids id job jobs = if id === "" then some (job ∷ jobs) else none

own_ids-RefusesColons : RefusesColons own_ids
own_ids-RefusesColons a b job jobs = elim (Bool-cases ((a ⊕ (":" ⊕ b)) === "")) [
  | inr some_id ↦ ground arith
  | inl no_id ↦ absurd (
      omega (
        arith,
        ap count ((string_key.same_iff (a ⊕ (":" ⊕ b)) "").0 no_id),
        length-append a (":" ⊕ b),
        length-append ":" b,
      ))
]

failed_request_cost_example :
    let t =
      refund_if_needed wallet_rows ledger_rows config Reply.lost_before
        (some own_ids)
        (some marker)
        "boom"
        (record { credits = charged.1; jobs = [] }) in
    (t.jobs ≡ []) × (get_balance wallet_rows ledger_rows ann t.credits.db ≡ pos 9)
unfolding opened
failed_request_cost_example =
    failed_request_cost wallet_rows ledger_rows config paid_route (some "ann") own_wallet
      (some "r1") before marker charged.1 Reply.lost_before own_ids [] "boom" own_ids-RefusesColons
      refl refl refl ann

abbrev any_id : String → Bool
any_id _ = true

same_id_is_charged_once_example :
    charge wallet_rows ledger_rows config paid_route
      (some "ann")
      own_wallet
      (some (request_id_of any_id "x2" none (some "r1")))
      charged.1
    ≡ (ok (some marker), charged.1)
unfolding opened run
same_id_is_charged_once_example =
    same_id_is_charged_once wallet_rows ledger_rows config any_id "x1" "x2" "r1" paid_route
      (some "ann") own_wallet before marker charged.1 [] refl refl
