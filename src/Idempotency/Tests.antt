-- ===== src/Idempotency/Tests.antt =====
-- A handler that counts its runs.
use nestjs_enterprise_starte.Common.Errors.{other}
use nestjs_enterprise_starte.Common.Exec.{ok, err}
use nestjs_enterprise_starte.Common.Table.{search_rows, drop_rows, rows_table}
use nestjs_enterprise_starte.Idempotency.Retry.{
  serve_all, update_failure_runs_again, handle_retry, Call, serve,
}
use nestjs_enterprise_starte.Idempotency.Race.{
  finish, start, one_handler, here, next, Reach, occurrences,
}
use nestjs_enterprise_starte.Idempotency.{
  resolve_status, replay, forget, complete, begin_processing, run_handler, handle_keyed,
  principal_of, completed_row, Json, no_faults, extract_key, started, Records, Exec,
  IdempotencyRecord, Faults, handle, Config, Request, State,
}
use nestjs_enterprise_starte.Prelude.Decimal.{decimal}
use nestjs_enterprise_starte.Prelude.{
  ◌≤◌, ◌∷◌, ◌+◌, false, Bool, [], ◌≡◌, none, some, String, ℕ, pair_key, refl,
}

abbrev table : Records
table = rows_table (String × String) IdempotencyRecord pair_key

abbrev limits : Config
limits = record { ttl_seconds = 60; key_max_length = 9 }

abbrev never : String → Bool
never _ = false

abbrev two : String → ℕ
two _ = 2

abbrev path_only : String → String → Json → String
path_only method path body = path

abbrev order : Request
order = record {
  key_header = some "k1";
  principal = some "ann";
  method = "POST";
  path = "/orders";
  body = Json.null;
  declared_status = none;
}

abbrev counting : Exec ℕ Json
counting n = (ok Json.boolean, n + 1)

abbrev failing : Exec ℕ Json
failing n = (err (other "boom"), n + 1)

abbrev start_state : State table ℕ limits never two path_only
start_state = record { records = []; world = 0 }

abbrev sent : Faults → Exec ℕ Json → Call table ℕ limits never two path_only
sent f handler = record { faults = f; now = 5; request = order; handler = handler }

abbrev lost : Faults
lost = record { create = none; update = some "P1001"; delete = false }

decimal_runs : decimal 2047 ≡ "2047"
unfolding decimal
decimal_runs = refl

opened : Unit {0}
unfolding handle extract_key principal_of handle_keyed run_handler begin_processing complete forget
    replay resolve_status serve_all
opened = tt

-- The row of the request at 5 expires at 60_005.
handle_retry_example :
    let s' = (serve table ℕ limits never two path_only (sent no_faults counting) start_state).1 in
    handle table ℕ limits never two path_only no_faults 100_000 order failing s'
    ≡ (ok Json.boolean, s')
unfolding opened search_rows drop_rows
handle_retry_example =
    handle_retry table ℕ limits never two path_only (sent no_faults counting) start_state
      Json.boolean refl [] no_faults 100_000 failing

update_failure_runs_again_example :
    ((serve table ℕ limits never two path_only (sent lost counting) start_state).0
      ≡ err (other "P1001"))
    × ((serve table ℕ limits never two path_only
          (sent no_faults counting)
          (serve table ℕ limits never two path_only (sent lost counting) start_state).1).1.world
        ≡ 2)
unfolding opened search_rows drop_rows
update_failure_runs_again_example =
    update_failure_runs_again table ℕ limits never two path_only (sent lost counting) start_state
      "k1" "ann" "P1001" Json.boolean 1 refl refl refl refl refl

abbrev owned : String × String
owned = ("ann", "k1")

abbrev row : IdempotencyRecord
row = started table ℕ limits never two path_only 5 order

finished_once :
    Reach table ℕ limits never two path_only
      (record { records = []; running = []; finished = [] })
      (record {
        records = (owned, completed_row 201 Json.boolean row) ∷ (owned, row) ∷ [];
        running = [];
        finished = owned ∷ [];
      })
unfolding opened search_rows drop_rows
finished_once =
    next
      (next here
        (start (record { records = []; running = []; finished = [] }) 5 "ann" "k1" order _ refl))
      (finish (record { records = (owned, row) ∷ []; running = owned ∷ []; finished = [] }) "ann"
        "k1" 201 Json.boolean _ [] [] refl refl)

one_handler_example : occurrences owned [] + occurrences owned (owned ∷ []) ≤ 1
one_handler_example = one_handler table ℕ limits never two path_only [] owned finished_once
