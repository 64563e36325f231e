-- ===== src/Auth/Lockout/Count.antt =====
-- Failures are counted per account, as long as they come within the window of one another.
use nestjs_enterprise_starte.Auth.Lockout.Wait.{read_after_failure}
use nestjs_enterprise_starte.Auth.Lockout.{
  empty_record, encode, decode, delay_after, read_record, decide_at, check, Clock, key, clear,
  record_failure, failed_record, Config, Stored,
}
use nestjs_enterprise_starte.Common.Expiring.{Expiring}
use text.Mathlib.TextLemmas.{append_cancel_left}
use nestjs_enterprise_starte.Prelude.{
  [], string_key, inl, ===_refl, inr, ◌*◌, length, Bool-cases, false, ◌+◌, ◌===◌, ◌<◌, ◌∷◌, ◌≢◌,
  List, String, max, ◌≤◌, ℕ, ◌≡◌, arith,
}

le-max : (a b : ℕ) → a ≤ max a b
le-max a b = omega arith

module _ (R : Expiring Stored) (config : Config) (digest : String → String) where
  -- failures one after the other
  unfoldable pub fail_all : String → List Clock → R.State → R.State
  fail_all id [] s = s
  fail_all id (c ∷ cs) s = fail_all id cs (record_failure R config digest c id s).1

  -- when the next of the failures reads, or the time of the last look
  abbrev pub next_read : List Clock → ℕ → ℕ
  next_read [] t = t
  next_read (c ∷ cs) t = c.read

  -- each failure, and the last look, comes within the window of the failure before
  abbrev pub Spaced : List Clock → ℕ → Type 0
  Spaced [] t = Unit
  Spaced (c ∷ cs) t = (next_read cs t < c.write + config.window_seconds * 1000) × Spaced cs t

  count_step :
      (c : Clock) (t : ℕ) (id : String) (s : R.State)
      → t < c.write + config.window_seconds * 1000
      → (read_record R config digest t id (record_failure R config digest c id s).1).failures
        ≡ (read_record R config digest c.read id s).failures + 1
  unfolding failed_record
  count_step c t id s soon = ground (
    arith,
    read_after_failure R config digest c t id s,
    le-max config.window_seconds
        (delay_after config ((read_record R config digest c.read id s).failures + 1)),
  )

  -- Failures that each come within the window of the one before are all counted.
  pub failures-fail_all :
      (id : String) (cs : List Clock) (t : ℕ) (s : R.State)
      → Spaced cs t
      → (read_record R config digest t id (fail_all id cs s)).failures
        ≡ (read_record R config digest (next_read cs t) id s).failures + length cs
  unfolding fail_all
  failures-fail_all id [] t s h = omega arith
  failures-fail_all id (c ∷ cs) t s h = omega (
    arith,
    failures-fail_all id cs t (record_failure R config digest c id s).1 h.1,
    count_step c (next_read cs t) id s h.0,
  )

  keys_apart :
      (a b : String)
      → digest a ≢ digest b
      → (key R config digest a === key R config digest b) ≡ false
  keys_apart a b apart = elim (Bool-cases (key R config digest a === key R config digest b)) [
    | inr differ ↦ differ
    | inl same ↦ absurd (
        apart (
          append_cancel_left "auth:lockout:" (digest a) (digest b)
            ((string_key.same_iff _ _).0 same)))
  ]

  -- A failure for one account changes nothing for another one, if the hash tells them apart.
  pub record_failure_elsewhere :
      (clock : Clock) (a b : String) (s : R.State) (t u : ℕ)
      → digest a ≢ digest b
      → check R config digest t u b (record_failure R config digest clock a s).1
        ≡ check R config digest t u b s
  unfolding record_failure check
  record_failure_elsewhere clock a b s t u apart = rw (
    R.get-set_ex clock.write t
        (max config.window_seconds
          (delay_after config ((read_record R config digest clock.read a s).failures + 1)))
        (key R config digest a) (key R config digest b)
        (encode (failed_record config clock.stamp (read_record R config digest clock.read a s))) s,
    keys_apart a b apart,
  )

  -- A successful sign-in unlocks the account and forgets its failures, whenever it is looked at.
  pub clear_unlocks :
      (id : String) (s : R.State) (t u : ℕ)
      → (check R config digest t u id (clear R config digest false id s)
          ≡ record { locked = false; retry_after_seconds = 0 })
        × (read_record R config digest t id (clear R config digest false id s) ≡ empty_record)
  unfolding clear check decide_at decode
  clear_unlocks id s t u = ground (
    arith,
    R.get-del t (key R config digest id) (key R config digest id) s,
    ===_refl (key R config digest id),
  )
