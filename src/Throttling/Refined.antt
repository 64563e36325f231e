-- ===== src/Throttling/Refined.antt =====
-- The storage refines a plain count of the earlier requests of a caller under a policy.
use nestjs_enterprise_starte.Throttling.Counted.{occurrences, Call}
use nestjs_enterprise_starte.Common.Timed.{Timed}
use nestjs_enterprise_starte.Throttling.{generate_key, Settings, Policy}
use nestjs_enterprise_starte.Prelude.{◌+◌, ◌≤◌, ◌<◌, List, ℕ, String}
use nestjs_enterprise_starte.Throttling.Windows.{IsCounted}

-- a request before `until` whose window and block both reach that time
abbrev pub IsWithin : (Policy → Settings) → ℕ → Call → Type 0
IsWithin rule until c =
    (c.now < until)
    × (until ≤ c.now + (rule c.policy).ttl)
    × (until ≤ c.now + (rule c.policy).block_duration)

module _ (T : Timed) (name : String) (rule : Policy → Settings) (until : ℕ) where
  -- every caller has made the requests that were counted
  AllCounted : List String → T.State → Type 0
  AllCounted earlier s =
      (p : Policy) (t : String)
      → IsCounted T name until (generate_key p t) (rule p).limit
          (occurrences (generate_key p t) earlier) s
