-- ===== src/Throttling/Tests.antt =====
-- The limits of a sign-in route and of an ordinary one, and requests that reach them.
use nestjs_enterprise_starte.Common.Timed.{live, memory}
use nestjs_enterprise_starte.Throttling.Counted.{Call, admitted}
use nestjs_enterprise_starte.Common.Object.{get_key, set_key}
use nestjs_enterprise_starte.Prelude.{false, true, ◌≡◌, ◌∷◌, [], ℕ, String, List, refl}
use nestjs_enterprise_starte.Throttling.Policy.{strict, standard}
use nestjs_enterprise_starte.Throttling.{
  generate_key, block_key, hits_key, increment, Settings, Policy, settings_for, Config,
}

abbrev limits : Config
limits = record {
  burst = record { window_seconds = 10; max = 20 };
  minute = record { window_seconds = 60; max = 3 };
  strict_burst = record { window_seconds = 10; max = 5 };
  strict_minute = record { window_seconds = 60; max = 1 };
}

abbrev minute_rule : Policy → Settings
minute_rule p =
    settings_for limits p
      (record { name = "minute"; limit = 3; ttl = 60000; block_duration = 60000 })

abbrev visit : Policy → String → ℕ → Call
visit p who when = record { policy = p; tracker = who; now = when }

abbrev visits : List Call
visits =
    visit strict "ip:1" 0
    ∷ visit standard "ip:1" 5
    ∷ visit strict "ip:1" 9
    ∷ visit strict "ip:2" 10
    ∷ visit strict "ip:1" 20
    ∷ []

visits-answers :
    admitted memory "minute" minute_rule visits [] ≡ true ∷ true ∷ false ∷ true ∷ false ∷ []
unfolding admitted increment live hits_key block_key generate_key settings_for get_key set_key
visits-answers = refl
