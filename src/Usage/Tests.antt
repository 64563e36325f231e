-- ===== src/Usage/Tests.antt =====
-- A member and an organization, with ceilings from the configuration and from a plan.
use nestjs_enterprise_starte.Usage.Consume.{consume_all_or_nothing}
use nestjs_enterprise_starte.Usage.Tightest.{Memo}
use nestjs_enterprise_starte.Usage.Window.{ttl_covers_window, window_index, window_end}
use nestjs_enterprise_starte.Usage.Undo.{keys_of, times_in, is_ok, Reliable, number}
use nestjs_enterprise_starte.Usage.{
  ceiling, is_usage_feature, memo_key, organization, user, pre_check, seconds_until_period_end,
  increment_turns, ErrorCode, check, State, Turn, PlanReads, consume, Config, UsageSubject,
}
use nestjs_enterprise_starte.Common.Exec.{Result, error_code}
use nestjs_enterprise_starte.Plans.{BillingInterval, SubscriptionStatus, matrix_of, PlanRow, Period}
use nestjs_enterprise_starte.Common.Object.{set_key, get_key}
use nestjs_enterprise_starte.Common.Counters.{memory}
use nestjs_enterprise_starte.Prelude.{
  none, ◌<◌, ◌*◌, if◌then◌else◌, ◌∷◌, ◌+◌, ◌≤◌, arith, ◌≡◌, [], some, List, String, ℕ, refl,
}

abbrev limits : Config
limits = record { default_limits = record { daily = 2; weekly = 5 }; features = [] }

abbrev both : UsageSubject
both = record { actor = "ann"; billing = some "acme" }

abbrev date_text : Period → ℕ → String
date_text _ _ = "2026-01-01"

abbrev pro : PlanRow
pro = record {
  id = "p2";
  slug = "pro";
  name = "Pro";
  rank = 20;
  entitlements = [];
  usage_limits = ("demo", record { daily = 1; weekly = 9 }) ∷ [];
}

-- the organization is on Pro, the member on no plan
abbrev reads : PlanReads
reads = record {
  catalogue = record { by_id = ("p2", matrix_of pro) ∷ []; by_slug = [] };
  now = 0;
  subscriptions = λ owner. elim owner [
    | user id ↦ some []
    | organization id ↦ some (
        record {
          id = "s";
          plan_id = "p2";
          status = SubscriptionStatus.active;
          interval = BillingInterval.yearly;
          current_period_end = none;
        }
        ∷ [])
  ];
}

abbrev today : List Turn
today = record { period = Period.day; check_keys = 0; check_retry = 0; ttl = 0; keys = 0 } ∷ []

abbrev ann_key : String
ann_key = "usage:day:2026-01-01:demo:u:ann"

abbrev acme_key : String
acme_key = "usage:day:2026-01-01:demo:o:acme"

-- counters that accept a number of commands
abbrev fresh : ℕ → State memory limits (some reads) date_text
fresh budget = record { counters = (budget, []); memo = []; applied = [] }

opened : Unit {0}
unfolding consume check increment_turns pre_check is_usage_feature ceiling memo_key
    seconds_until_period_end
opened = tt

abbrev metered : ℕ → Result (Unit {0}) × State memory limits (some reads) date_text
metered budget = consume memory limits (some reads) date_text both "demo" today (fresh budget)

abbrev unplanned : ℕ → List (String × ℕ) → Result (Unit {0}) × State memory limits none date_text
unplanned budget rows =
    consume memory limits none date_text both "demo" today
      (record { counters = (budget, rows); memo = []; applied = [] })

-- Redis fails at the increment of the second counter, and the first one is put back.
fault_undone :
    (error_code (unplanned 2 []).0 ≡ some ErrorCode.service_unavailable)
    × (number memory ann_key (unplanned 2 []).1.counters ≡ 0)
unfolding opened get_key set_key
fault_undone = (refl, refl)

-- A counter at its ceiling refuses the call.
refused_at_ceiling :
    error_code (unplanned 9 ((acme_key, 2) ∷ [])).0 ≡ some ErrorCode.usage_limit_exceeded
unfolding opened get_key set_key
refused_at_ceiling = refl

decr_accepted : Reliable memory
decr_accepted k (budget, rows) = refl

consume_all_or_nothing_example :
    number memory acme_key (metered 9).1.counters
    ≡ number memory acme_key (fresh 9).counters
      + (if is_ok (metered 9).0
          then times_in acme_key (keys_of memory limits (some reads) date_text both "demo" today)
          else 0)
consume_all_or_nothing_example =
    consume_all_or_nothing memory limits (some reads) date_text both "demo" today (fresh 9) acme_key
      decr_accepted

nothing-Memo : Memo memory limits reads date_text []
unfolding get_key
nothing-Memo owner plan h = absurd (ground arith)

ttl_covers_window_example :
    (window_end Period.week (window_index Period.week 86400001)
      ≤ 86400001 + seconds_until_period_end Period.week 86400001 * 1000)
    × (86400001 + seconds_until_period_end Period.week 86400001 * 1000
        < window_end Period.week (window_index Period.week 86400001) + 1000)
ttl_covers_window_example = ttl_covers_window Period.week 86400001
