-- ===== src/Mcp/Pipeline/Tests.antt =====
-- A tool that costs a credit, and a user with ten credits.
use nestjs_enterprise_starte.Common.Object.{set_key, get_key}
use nestjs_enterprise_starte.Common.Timed.{live}
use nestjs_enterprise_starte.Prelude.{
  ◌+◌, true, nat_eq, string_key, if◌then◌else◌, some, false, [], ℕ, ◌∷◌, ◌≡◌, none, String, refl,
}
use nestjs_enterprise_starte.Prelude.Int.{◌+ℤ◌, pos, ℤ}
use nestjs_enterprise_starte.Common.Exec.{ok, err, Exec, Result, Reply}
use nestjs_enterprise_starte.Common.Errors.{other}
use nestjs_enterprise_starte.Common.Timed
use nestjs_enterprise_starte.Common.Counters
use nestjs_enterprise_starte.Common.Table.{search_rows, rows_table}
use nestjs_enterprise_starte.Organizations.Subject.{BillingSubject, subject_key}
use nestjs_enterprise_starte.Credits
use nestjs_enterprise_starte.Credits.{
  Entry, Wallets, Ledger, get_balance, apply, ensure_wallet, apply_locked, create_entry,
  low_threshold, spend, refund, resolve_subject, positive_amount, in_transaction, transaction_body,
  replay, record_mutation, signal_low_balance, replay_mismatch,
}
use nestjs_enterprise_starte.Plans.{Period}
use nestjs_enterprise_starte.Usage
use nestjs_enterprise_starte.Charging.{CreditFeature}
use nestjs_enterprise_starte.Mcp.Throttle.{Ceilings, hit, consume, burst_key, minute_key, no_outage}
use nestjs_enterprise_starte.Mcp.Stuck.{answers, counting_on, never_expires}
use nestjs_enterprise_starte.Mcp.Pipeline.{
  throttled, assert_entitlements, assert_plan, assert_permissions, credit_stage, usage_stage,
  throttle_stage, give_back, finish, handle, reported, Tool, Run, Store, run, stages, spend_key,
}
use nestjs_enterprise_starte.Mcp.Pipeline.Reported.{call_is_reported, expected_outcome, row_for}
use nestjs_enterprise_starte.Mcp.Pipeline.Costs.{failed_call_costs_nothing}
use nestjs_enterprise_starte.Mcp.Pipeline.Sibling.{failed_sibling_refunds_success}

abbrev wallet_rows : Wallets
wallet_rows = rows_table BillingSubject ℤ subject_key

abbrev ledger_rows : Ledger
ledger_rows = rows_table String Entry string_key

abbrev config : Credits.Config
config = record { low_balance_threshold = none; has_metrics = false }

abbrev ceilings : Ceilings
ceilings = record {
  burst = record { window_seconds = 10; max = 2 };
  minute = record { window_seconds = 60; max = 30 };
}

abbrev limits : Usage.Config
limits = record { default_limits = record { daily = 2; weekly = 5 }; features = [] }

abbrev date_text : Period → ℕ → String
date_text _ _ = "2026-01-01"

abbrev ping : Tool
ping = record {
  name = "demo.paid_ping";
  permissions = "mcp:tools:invoke" ∷ [];
  entitlements = [];
  minimum_plan = none;
  usage_feature = none;
  credit_feature = some CreditFeature.demo_paid;
}

-- a handler that works when nothing was done before, and fails after that
abbrev once : Exec ℕ ℕ
once n = (if nat_eq n 0 then ok 7 else err (other "boom"), n + 1)

abbrev St : Type 0
St =
    Store Timed.memory ceilings Counters.memory limits none date_text wallet_rows ledger_rows config
      ping once

abbrev R : Type 0
R =
    Run Timed.memory ceilings Counters.memory limits none date_text wallet_rows ledger_rows config
      ping once

abbrev store_at : ℕ → St
store_at n = record {
  throttle = [];
  usage = record { counters = (9, []); memo = []; applied = [] };
  credits = record {
    db = record { wallets = (BillingSubject.user "ann", pos 10) ∷ []; ledger = [] };
    emitted = [];
    recorded = [];
  };
  world = n;
  log = [];
  metrics = [];
}

abbrev call : R
call = record {
  principal = record { user_id = "ann"; api_key_id = "k1"; permissions = "mcp:tools:invoke" ∷ [] };
  request_id = some "r1";
  reads = record { catalogue = record { by_id = []; by_slug = [] }; now = 0; subscriptions = none };
  now = 0;
  turns = [];
  weather = record {
    burst = no_outage;
    minute = no_outage;
    spending = Reply.heard;
    refunding = Reply.heard;
    log_written = true;
  };
}

abbrev ran : St → Result ℕ × St
ran =
    run Timed.memory ceilings Counters.memory limits none date_text wallet_rows ledger_rows config
      ping once call

never_expires_example :
    let (a, s') =
      hit Timed.memory (record { incr = false; expire = true }) 5 "k" ceilings.burst [] in
    (a ≡ err (other "redis"))
    × (answers Timed.memory "k" ceilings.burst (6 ∷ 100000 ∷ 900000 ∷ []) s'
        ≡ counting_on Timed.memory "k" ceilings.burst 1 (6 ∷ 100000 ∷ 900000 ∷ []))
unfolding hit get_key
never_expires_example =
    never_expires Timed.memory "k" ceilings.burst 5 (6 ∷ 100000 ∷ 900000 ∷ []) [] refl

call_is_reported_example :
    let (a, t) = ran (store_at 0) in
    (t.metrics ≡ ("demo.paid_ping", expected_outcome a) ∷ [])
    × (t.log
        ≡ row_for Timed.memory ceilings Counters.memory limits none date_text wallet_rows
            ledger_rows config ping once call a
          ∷ [])
call_is_reported_example =
    call_is_reported Timed.memory ceilings Counters.memory limits none date_text wallet_rows
      ledger_rows config ping once call (store_at 0)

opened : Unit {0}
unfolding run stages reported handle finish give_back throttle_stage usage_stage credit_stage
    assert_permissions assert_plan assert_entitlements throttled consume hit burst_key minute_key
    live get_key set_key spend_key spend refund apply get_balance resolve_subject positive_amount
    in_transaction transaction_body replay ensure_wallet apply_locked create_entry low_threshold
    record_mutation signal_low_balance ◌+ℤ◌ search_rows replay_mismatch
opened = tt

failed_call_costs_nothing_example :
    get_balance wallet_rows ledger_rows (BillingSubject.user "ann") (ran (store_at 1)).1.credits.db
    ≡ pos 10
unfolding opened
failed_call_costs_nothing_example =
    failed_call_costs_nothing Timed.memory ceilings Counters.memory limits none date_text
      wallet_rows ledger_rows config ping once call (store_at 1) CreditFeature.demo_paid
      (other "boom") refl refl refl refl refl refl refl (BillingSubject.user "ann")

failed_sibling_refunds_success_example :
    get_balance wallet_rows ledger_rows
      (BillingSubject.user "ann")
      (ran (ran (store_at 0)).1).1.credits.db
    ≡ pos 10
unfolding opened
failed_sibling_refunds_success_example =
    failed_sibling_refunds_success Timed.memory ceilings Counters.memory limits none date_text
      wallet_rows ledger_rows config ping once call call (store_at 0) (ran (store_at 0)).1
      CreditFeature.demo_paid 7 (other "boom") refl refl refl refl refl refl refl refl refl refl
      refl (BillingSubject.user "ann")
