-- ===== src/Usage/Refusal.antt =====
-- A metered call goes through only below every ceiling.
use nestjs_enterprise_starte.Usage.Tightest.{Within}
use nestjs_enterprise_starte.Usage.{
  scopes_for, Turn, UsageSubject, Period, PlanReads, Counters, State, Config,
}
use nestjs_enterprise_starte.Prelude.{All, some, String, ℕ}

module _ (C : Counters) (config : Config) (reads : PlanReads) (stamp : Period → ℕ → String) where
  -- Every counter of the turns, under the keys of their checks, is below its ceiling.
  abbrev pub Below : UsageSubject → String → C.State → Turn → Type 0
  Below subject feature c turn =
      All (Within C config reads stamp feature turn.period 1 c)
        (scopes_for C config (some reads) stamp subject feature turn.period turn.check_keys)
