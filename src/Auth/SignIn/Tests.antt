-- ===== src/Auth/SignIn/Tests.antt =====
-- Attempts on an account that one failure locks.
use nestjs_enterprise_starte.Prelude.{arith, ◌≡◌, ◌∷◌, some, true, String, ℕ, [], refl}
use nestjs_enterprise_starte.Common.Expiring.{Expiring, memory, live_value}
use nestjs_enterprise_starte.Auth.Lockout.{Config, Clock, Stored, record_failure, delay_for, decode}
use nestjs_enterprise_starte.Auth.SignIn.{Attempt, attempts, identifier_of, no_faults}
use nestjs_enterprise_starte.Auth.SignIn.Locked.{locked_account_is_closed, refused}

abbrev config : Config
config = record {
  threshold = 1;
  base_delay_seconds = 30;
  max_delay_seconds = 900;
  window_seconds = 3600;
}

abbrev plain : String → String
plain text = text

abbrev redis : Expiring Stored
redis = memory Stored

abbrev at_time : ℕ → Clock
at_time t = record { read = t; stamp = t; write = t; decide = t }

abbrev try_at : ℕ → ℕ → Attempt
try_at t answer = record {
  request = record { path = "/sign-in/email"; email = some "ann" };
  now = t;
  clock = at_time t;
  answer = answer;
  faults = no_faults;
}

locked_account_is_closed_example :
    let s' = (record_failure redis config plain (at_time 1000) "ann" []).1 in
    attempts redis config plain true (try_at 2000 401 ∷ try_at 30000 200 ∷ []) s'
    ≡ (refused (try_at 2000 401 ∷ try_at 30000 200 ∷ []), s')
unfolding decode delay_for live_value identifier_of
locked_account_is_closed_example =
    locked_account_is_closed redis config plain true (at_time 1000) "ann" []
      (try_at 2000 401 ∷ try_at 30000 200 ∷ []) (omega arith) (omega arith)
      ((refl, refl, omega arith, omega arith), ((refl, refl, omega arith, omega arith), tt))
