-- ===== src/Auth/Lockout/Wait.antt =====
-- The wait that a lockout decision announces is the wait that is enforced.
use nestjs_enterprise_starte.Auth.Lockout.{
  encode, key, empty_record, failed_record, delay_for, delay_after, check, read_record, decode,
  Clock, record_failure, Config, Stored, LockoutRecord, decide_at,
}
use nestjs_enterprise_starte.Common.Expiring.{Expiring}
use nestjs_enterprise_starte.Prelude.{
  ===_refl, ◌∙◌, false, max, if◌then◌else◌, ◌≤◌, ltb, String, ◌*◌, ◌+◌, ℕ, ◌≡◌, arith,
}

max-le : (a b : ℕ) → b ≤ max a b
max-le a b = omega arith

pub decide_at-locked :
    (now k : ℕ) (r : LockoutRecord)
    → (decide_at (now + k * 1000) r).locked ≡ ltb k (decide_at now r).retry_after_seconds
unfolding decide_at
decide_at-locked now k r = ground arith

module _ (R : Expiring Stored) (config : Config) (digest : String → String) where
  -- the lock never outlasts the record
  until-le :
      (stamp write : ℕ) (current : LockoutRecord)
      → stamp ≤ write
      → (failed_record config stamp current).locked_until
        ≤ write + max config.window_seconds (delay_after config (current.failures + 1)) * 1000
  unfolding failed_record
  until-le stamp write current order =
      ground (arith, max-le config.window_seconds (delay_after config (current.failures + 1)))

  -- after a failure, the record is read back as it was written until its lock has ended
  pub read_after_failure :
      (clock : Clock) (t : ℕ) (id : String) (s : R.State)
      → let n = (read_record R config digest clock.read id s).failures + 1 in
        read_record R config digest t id (record_failure R config digest clock id s).1 ≡ (
          if ltb t (clock.write + max config.window_seconds (delay_after config n) * 1000)
          then failed_record config clock.stamp (read_record R config digest clock.read id s)
          else empty_record)
  unfolding record_failure decode
  read_after_failure clock t id s =
      let current = read_record R config digest clock.read id s in
      rw
        (
          R.get-set_ex clock.write t
              (max config.window_seconds (delay_after config (current.failures + 1)))
              (key R config digest id) (key R config digest id)
              (encode (failed_record config clock.stamp current)) s,
          ===_refl (key R config digest id),
        )
        (ground arith)

  -- until the record expires and after, a check sees the lock that was stamped
  check_sees_lock :
      (clock : Clock) (t : ℕ) (id : String) (s : R.State)
      → clock.stamp ≤ clock.write
      → (check R config digest t t id (record_failure R config digest clock id s).1).locked
        ≡ (decide_at t
            (failed_record config clock.stamp (read_record R config digest clock.read id s))).locked
  unfolding check decide_at
  check_sees_lock clock t id s order = ground (
    arith,
    read_after_failure clock t id s,
    until-le clock.stamp clock.write (read_record R config digest clock.read id s) order,
  )

  -- The decision that a failure returns is honest: at every whole second from then on, a check
  -- finds the account locked exactly if fewer seconds have passed than were announced.
  pub retry_after_honest :
      (clock : Clock) (id : String) (s : R.State) (k : ℕ)
      → clock.stamp ≤ clock.write
      → let (decision, s') = record_failure R config digest clock id s in
        let t = clock.decide + k * 1000 in
        (check R config digest t t id s').locked ≡ ltb k decision.retry_after_seconds
  unfolding record_failure
  retry_after_honest clock id s k order =
      check_sees_lock clock (clock.decide + k * 1000) id s order
      ∙ decide_at-locked clock.decide k
          (failed_record config clock.stamp (read_record R config digest clock.read id s))

  lock_of_record :
      (stamp t : ℕ) (current : LockoutRecord)
      → stamp ≤ t
      → (decide_at t (failed_record config stamp current)).locked ≡ (
          if ltb (current.failures + 1) config.threshold
          then false
          else ltb t (stamp + delay_for config (current.failures + 1) * 1000))
  unfolding decide_at failed_record delay_after
  lock_of_record stamp t current later = ground arith

  -- A failure that reaches the threshold locks the account exactly up to the end of its delay,
  -- as every check from the failure on sees it; a failure below the threshold locks nothing.
  pub locked_exactly :
      (clock : Clock) (id : String) (s : R.State) (t : ℕ)
      → clock.stamp ≤ clock.write
      → clock.stamp ≤ t
      → let n = (read_record R config digest clock.read id s).failures + 1 in
        (check R config digest t t id (record_failure R config digest clock id s).1).locked ≡ (
          if ltb n config.threshold then false else ltb t (clock.stamp + delay_for config n * 1000))
  locked_exactly clock id s t order later =
      check_sees_lock clock t id s order
      ∙ lock_of_record clock.stamp t (read_record R config digest clock.read id s) later
