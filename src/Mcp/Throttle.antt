-- ===== src/Mcp/Throttle.antt =====
-- src/modules/mcp/mcp-throttle.service.ts, on the ceilings of src/config/mcp.config.ts. The commands
-- of one call run in the same millisecond.
use nestjs_enterprise_starte.Common.Timed.{Timed}
use nestjs_enterprise_starte.Prelude.{
  none, leb, not, ◌*◌, some, nat_eq, Option, if◌then◌else◌, ℕ, Bool, String, false,
}
use nestjs_enterprise_starte.Common.Exec.{ok, err, Exec}
use nestjs_enterprise_starte.Common.Errors.{other}
use nestjs_enterprise_starte.Throttling.{Ceiling}
use Prim.Native.String.{◌++◌ as ◌⊕◌}

-- `McpThrottleDenial`
pub data Denial : Type 0 where
  rate_limited store_unavailable : Denial

-- `mcp.throttle`
pub record Ceilings : Type 0 where
  pub burst : Ceiling
  pub minute : Ceiling

-- which commands of a counter are rejected
pub record Outage : Type 0 where
  pub incr : Bool
  pub expire : Bool

abbrev pub no_outage : Outage
no_outage = record { incr = false; expire = false }

-- the keys of `consume`
unfoldable pub burst_key : String → String
burst_key user = "mcp:throttle:burst:u:" ⊕ user

unfoldable pub minute_key : String → String
minute_key user = "mcp:throttle:minute:u:" ⊕ user

module _ (T : Timed) where
  -- `hit`
  unfoldable pub hit : Outage → ℕ → String → Ceiling → Exec T.State Bool
  hit outage now key ceiling s =
      if outage.incr
      then (err (other "redis"), s)
      else let (count, s') = T.incr now key s in
        if nat_eq count 1
        then if outage.expire
          then (err (other "redis"), s')
          else (ok (leb count ceiling.max), T.pexpire now key (ceiling.window_seconds * 1000) s')
        else (ok (leb count ceiling.max), s')

  -- `consume`
  unfoldable pub consume :
      Outage → Outage → Ceilings → ℕ → String → T.State → Option Denial × T.State
  unfolding hit burst_key minute_key
  consume burst_outage minute_outage ceilings now user s =
      let (burst, s₁) = hit burst_outage now (burst_key user) ceilings.burst s in
      let (minute, s₂) = hit minute_outage now (minute_key user) ceilings.minute s₁ in
      elim burst [
        | err _ ↦ (some Denial.store_unavailable, s₁)
        | ok burst_ok ↦ if not burst_ok then (some Denial.rate_limited, s₁) else elim minute [
          | err _ ↦ (some Denial.store_unavailable, s₂)
          | ok minute_ok ↦ if minute_ok then (none, s₂) else (some Denial.rate_limited, s₂)
        ]
      ]
