-- ===== src/Credits/Tests.antt =====
-- The credit service on concrete calls.
use nestjs_enterprise_starte.Common.Exec.{error_code}
use nestjs_enterprise_starte.Credits.Race.{
  System, begin, finish, Reach, here, next, IsSound, Reach-IsSound, commit,
}
use nestjs_enterprise_starte.Credits.Balance.{
  moved, balance-run, IsSolvent, run-IsSolvent, spend_exact,
}
use nestjs_enterprise_starte.Credits.Replay.{perform_retry, same_key_same_mutation}
use nestjs_enterprise_starte.Prelude.Int.{◌≤ℤ◌, +ℤ-zero, negsuc, ◌+ℤ◌}
use nestjs_enterprise_starte.Common.Json.{get_field, set_field}
use nestjs_enterprise_starte.Credits.Trace.{fresh_entries, IsCall, run}
use nestjs_enterprise_starte.Organizations.Subject.{subject_key}
use nestjs_enterprise_starte.Credits.{
  ErrorCode, ltb_ℤ, params_for, entry_for, Params, ok, MutationResult, spend, user, replay_mismatch,
  set_field, get_field, ◌+ℤ◌, metadata_with_delta, stored_delta, signal_low_balance,
  record_mutation, transaction_body, in_transaction, nonzero_delta, positive_amount, integer,
  resolve_subject, get_balance, pos, Input, apply, BillingSubject, Entry, LedgerType, perform, ℤ,
  Mutation, State, Wallets, Ledger, Config,
}
use nestjs_enterprise_starte.Credits.Trace.{run}
use nestjs_enterprise_starte.Prelude.{
  false, ◌++◌, if◌then◌else◌, sym, arith, ◌≡◌, true, none, string_key, some, [], ◌∷◌, List, String,
  refl,
}
use nestjs_enterprise_starte.Common.Table.{drop_rows, search_rows, rows_table}

abbrev wallet_rows : Wallets
wallet_rows = rows_table BillingSubject ℤ subject_key

abbrev ledger_rows : Ledger
ledger_rows = rows_table String Entry string_key

abbrev config : Config
config = record { low_balance_threshold = some (pos 5); has_metrics = true }

abbrev start : State wallet_rows ledger_rows
start = record { db = record { wallets = []; ledger = [] }; emitted = []; recorded = [] }

abbrev input_of : String → ℤ → String → Input
input_of id n key = record {
  subject = none;
  user_id = some id;
  amount = integer n;
  idempotency_key = key;
  feature = none;
  metadata = none;
}

abbrev grant_ten : Mutation
grant_ten = record { type = LedgerType.grant; input = input_of "ann" (pos 10) "k1" }

abbrev spend_seven : Mutation
spend_seven = record { type = LedgerType.spend; input = input_of "ann" (pos 7) "k2" }

abbrev debit_four : Mutation
debit_four = record { type = LedgerType.adjust; input = input_of "ann" (negsuc 3) "k3" }

abbrev calls : List Mutation
calls = grant_ten ∷ spend_seven ∷ spend_seven ∷ debit_four ∷ []

abbrev after_grant : State wallet_rows ledger_rows
after_grant = (run wallet_rows ledger_rows config (grant_ten ∷ []) start).1

-- what the calls below compute through
opened : Unit {0}
unfolding run perform apply get_balance resolve_subject positive_amount nonzero_delta in_transaction
    transaction_body record_mutation signal_low_balance stored_delta metadata_with_delta ◌+ℤ◌
    search_rows drop_rows get_field set_field replay_mismatch
opened = tt

-- Ten credits, less seven once: the second spend is a replay, and the debit is not covered.
calls_leave_three :
    get_balance wallet_rows ledger_rows
      (user "ann")
      (run wallet_rows ledger_rows config calls start).1.db
    ≡ pos 3
unfolding opened
calls_leave_three = refl

balance-run_example :
    get_balance wallet_rows ledger_rows
      (user "ann")
      (run wallet_rows ledger_rows config calls start).1.db
    ≡ get_balance wallet_rows ledger_rows (user "ann") start.db
      +ℤ moved (user "ann") (run wallet_rows ledger_rows config calls start).0
balance-run_example = balance-run wallet_rows ledger_rows config calls start (user "ann")

start-IsSolvent : IsSolvent wallet_rows ledger_rows config start
unfolding opened
start-IsSolvent u = omega arith

run-IsSolvent_example :
    pos 0
    ≤ℤ get_balance wallet_rows ledger_rows
        (user "ann")
        (run wallet_rows ledger_rows config calls start).1.db
run-IsSolvent_example =
    run-IsSolvent wallet_rows ledger_rows config calls start start-IsSolvent (user "ann")

abbrev granted : MutationResult
granted = record {
  entry = entry_for (params_for LedgerType.grant grant_ten.input (user "ann") (pos 10)) (pos 10);
  balance = pos 10;
  replayed = false;
}

grant_ten_succeeds : (perform wallet_rows ledger_rows config grant_ten start).0 ≡ ok granted
unfolding opened
grant_ten_succeeds = refl

perform_retry_example :
    let s =
      (run wallet_rows ledger_rows config
        (spend_seven ∷ [])
        (perform wallet_rows ledger_rows config grant_ten start).1).1 in
    perform wallet_rows ledger_rows config grant_ten s
    ≡ (ok (record granted { replayed = true }), s)
perform_retry_example =
    perform_retry wallet_rows ledger_rows config grant_ten start {r = granted} grant_ten_succeeds
      (spend_seven ∷ [])

abbrev grant_params : Params
grant_params = params_for LedgerType.grant grant_ten.input (user "ann") (pos 10)

grant_params-IsCall : IsCall grant_params
grant_params-IsCall = record { signed = refl; guards = refl }

same_key_same_mutation_example :
    (true ≡ true)
    × ((grant_params.subject ≡ grant_params.subject)
        × (grant_params.type ≡ grant_params.type)
        × (grant_params.delta ≡ grant_params.delta))
unfolding opened
same_key_same_mutation_example =
    same_key_same_mutation wallet_rows ledger_rows config grant_params grant_params start
      {r = granted} {r' = record granted { replayed = true }} grant_params-IsCall
      grant_params-IsCall refl refl refl (spend_seven ∷ []) refl

spend_exact_example :
    let b = get_balance wallet_rows ledger_rows (user "ann") after_grant.db in
    let (r, s') = spend wallet_rows ledger_rows config spend_seven.input after_grant in
    if ltb_ℤ b (pos 7)
    then (error_code r ≡ some ErrorCode.insufficient_credits)
      × (get_balance wallet_rows ledger_rows (user "ann") s'.db ≡ b)
    else (error_code r ≡ none)
      × (get_balance wallet_rows ledger_rows (user "ann") s'.db ≡ b +ℤ negsuc 6)
unfolding opened
spend_exact_example =
    spend_exact wallet_rows ledger_rows config spend_seven.input after_grant 6 (user "ann") refl
      refl refl

abbrev spend_params : Params
spend_params = params_for LedgerType.spend spend_seven.input (user "ann") (pos 7)

abbrev quiet : System wallet_rows ledger_rows
quiet = record { db = start.db; waiting = []; created = [] }

abbrev one_waits : System wallet_rows ledger_rows
one_waits = record quiet { waiting = grant_params ∷ [] }

abbrev one_done : System wallet_rows ledger_rows
one_done = record {
  db = (commit wallet_rows ledger_rows grant_params start.db).1;
  waiting = [];
  created = fresh_entries (commit wallet_rows ledger_rows grant_params start.db).0 ++ [];
}

quiet-IsSound : IsSound wallet_rows ledger_rows start.db quiet
quiet-IsSound = record { calls = tt; accounted = λ u. sym (+ℤ-zero _); solvent = start-IsSolvent }

reached : Reach wallet_rows ledger_rows quiet one_done
unfolding opened
reached =
    next (next here (begin grant_params quiet grant_params-IsCall refl))
      (finish grant_params [] [] one_waits refl)

Reach-IsSound_example : IsSound wallet_rows ledger_rows start.db one_done
Reach-IsSound_example =
    Reach-IsSound wallet_rows ledger_rows start.db {y = quiet} {z = one_done} quiet-IsSound reached
