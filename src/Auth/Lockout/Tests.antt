-- ===== src/Auth/Lockout/Tests.antt =====
-- The lockout on a run of failures; the hash is taken to be the text itself.
use nestjs_enterprise_starte.Auth.Lockout.Wait.{retry_after_honest}
use nestjs_enterprise_starte.Common.Expiring.{without_key, live_value, memory, Expiring}
use nestjs_enterprise_starte.Auth.Lockout.{Config}
use nestjs_enterprise_starte.Auth.Lockout.{
  delay_after, failed_record, decide_at, decode, clear, Stored, record_failure, Clock, delay_for,
  check,
}
use nestjs_enterprise_starte.Auth.Lockout.Count.{fail_all}
use nestjs_enterprise_starte.Prelude.{
  ltb, string_key, ◌*◌, true, ◌+◌, ◌∷◌, [], List, String, refl, arith, ℕ, ◌≡◌,
}

abbrev config : Config
config = record {
  threshold = 3;
  base_delay_seconds = 30;
  max_delay_seconds = 900;
  window_seconds = 3600;
}

abbrev redis : Expiring Stored
redis = memory Stored

abbrev plain : String → String
plain s = s

abbrev at_time : ℕ → Clock
at_time t = record { read = t; stamp = t + 1; write = t + 2; decide = t + 3 }

abbrev failures : List Clock
failures = at_time 1000 ∷ at_time 2000 ∷ at_time 3000 ∷ []

opened : Unit {0}
unfolding fail_all record_failure check clear decode decide_at failed_record delay_after delay_for
    live_value without_key
opened = tt

-- The third failure locks the account for thirty seconds.
third_locks :
    check redis config plain 3500 3500 "ann" (fail_all redis config plain "ann" failures [])
    ≡ record { locked = true; retry_after_seconds = 30 }
unfolding opened
third_locks = refl

retry_after_honest_example :
    let (decision, s') = record_failure redis config plain (at_time 3000) "ann" [] in
    (check redis config plain (3003 + 7 * 1000) (3003 + 7 * 1000) "ann" s').locked
    ≡ ltb 7 decision.retry_after_seconds
retry_after_honest_example =
    retry_after_honest redis config plain (at_time 3000) "ann" [] 7 (omega arith)

abbrev two_failures : List (String × ℕ × Stored)
two_failures = fail_all redis config plain "ann" (at_time 1000 ∷ at_time 2000 ∷ []) []
