-- ===== src/Auth/Lockout.antt =====
-- src/modules/auth/account-lockout.service.ts. Times are in milliseconds, and each reading of the
-- clock is an argument. A command that Redis rejects ends `check` and `recordFailure` with that
-- error, before anything is written; such runs are left out here.
pub mod Delay
pub mod Wait
pub mod Count
mod Tests
use Prim.Native.String.{◌++◌ as ◌⊕◌}
use nestjs_enterprise_starte.Prelude.{
  ℕ, ◌+◌, ◌-◌, ◌*◌, ◌/◌, ◌^◌, min, max, String, Bool, true, false, Option, none, some, ltb, leb,
  nat_eq, ◌++◌, if◌then◌else◌,
}
use nestjs_enterprise_starte.Common.Expiring.{Expiring}

-- `config.lockout`
pub record Config : Type 0 where
  pub threshold : ℕ
  pub base_delay_seconds : ℕ
  pub max_delay_seconds : ℕ
  pub window_seconds : ℕ

-- `LockoutDecision`
pub record Decision : Type 0 where
  pub locked : Bool
  pub retry_after_seconds : ℕ

-- `LockoutRecord`
pub record LockoutRecord : Type 0 where
  pub failures : ℕ
  pub locked_until : ℕ

-- What Redis may hold under a key: a text that `JSON.parse` refuses, a value that has no fields
-- (the old bare counter), or an object, whose two fields may be numbers, or absent or of another
-- type. The numbers are those that the service writes.
pub data Stored : Type 0 where
  unparseable : Stored
  scalar : Stored
  fields : Option ℕ → Option ℕ → Stored

-- `EMPTY_RECORD`
abbrev pub empty_record : LockoutRecord
empty_record = record { failures = 0; locked_until = 0 }

-- the readings of the clock in `recordFailure`: by Redis at the read, when the lock is stamped, by
-- Redis at the write, and when the decision is made
pub record Clock : Type 0 where
  pub read : ℕ
  pub stamp : ℕ
  pub write : ℕ
  pub decide : ℕ

-- the body of `read` after the command
unfoldable pub decode : Option Stored → LockoutRecord
decode none = empty_record
decode (some unparseable) = empty_record
decode (some scalar) = empty_record
decode (some (fields none until)) = empty_record
decode (some (fields (some n) none)) = record { failures = n; locked_until = 0 }
decode (some (fields (some n) (some until))) = record { failures = n; locked_until = until }

-- `JSON.stringify(record)`
abbrev pub encode : LockoutRecord → Stored
encode r = fields (some r.failures) (some r.locked_until)

-- `decide`, at a time
pub decide_at : ℕ → LockoutRecord → Decision
decide_at now r =
    if leb r.locked_until now
    then record { locked = false; retry_after_seconds = 0 }
    else record { locked = true; retry_after_seconds = (r.locked_until - now + 999) / 1000 }

module _ (config : Config) where
  -- `delayFor`, from the threshold on
  unfoldable pub delay_for : ℕ → ℕ
  delay_for failures =
      min (config.base_delay_seconds * 2 ^ (failures - config.threshold)) config.max_delay_seconds

  -- `failures < threshold ? 0 : this.delayFor(failures)`
  pub delay_after : ℕ → ℕ
  unfolding delay_for
  delay_after failures = if ltb failures config.threshold then 0 else delay_for failures

  -- the record that `recordFailure` writes
  pub failed_record : ℕ → LockoutRecord → LockoutRecord
  unfolding delay_after
  failed_record stamp current =
      let failures = current.failures + 1 in
      let delay = delay_after failures in
      record {
        failures = failures;
        locked_until = if nat_eq delay 0 then 0 else stamp + delay * 1000;
      }

-- `digest` is the hash of the lower-cased, trimmed identifier.
module _ (R : Expiring Stored) (config : Config) (digest : String → String) where
  -- `key`
  abbrev pub key : String → String
  key identifier = "auth:lockout:" ⊕ digest identifier

  -- `read`
  abbrev pub read_record : ℕ → String → R.State → LockoutRecord
  read_record now identifier s = decode (R.get now (key identifier) s)

  -- `check`; the first time is that of the read
  pub check : ℕ → ℕ → String → R.State → Decision
  check read now identifier s = decide_at now (read_record read identifier s)

  -- `recordFailure`
  pub record_failure : Clock → String → R.State → Decision × R.State
  record_failure clock identifier s =
      let current = read_record clock.read identifier s in
      let r = failed_record config clock.stamp current in
      let ttl = max config.window_seconds (delay_after config (current.failures + 1)) in
      (decide_at clock.decide r, R.set_ex clock.write (key identifier) (encode r) ttl s)

  -- `clear`; a command that fails is logged and forgotten
  pub clear : Bool → String → R.State → R.State
  clear redis_fails identifier s = if redis_fails then s else R.del (key identifier) s
