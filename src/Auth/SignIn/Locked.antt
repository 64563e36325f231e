-- ===== src/Auth/SignIn/Locked.antt =====
-- Attempts on an account that is locked.
use nestjs_enterprise_starte.Prelude.{
  [], arith, ◌*◌, All, false, true, ◌∷◌, ◌+◌, some, ◌<◌, ℕ, ◌≡◌, ◌≤◌, Bool, List, String, refl,
}
use nestjs_enterprise_starte.Common.Expiring.{Expiring}
use nestjs_enterprise_starte.Auth.Lockout.{
  Config, Clock, Stored, check, record_failure, read_record, delay_for,
}
use nestjs_enterprise_starte.Auth.Lockout.Wait.{locked_exactly}
use nestjs_enterprise_starte.Auth.SignIn.{
  Attempt, identifier_of, before_hook, after_hook, attempt, attempts, status_of,
}

-- the answer to a request that was refused by the lock
abbrev pub refused : List Attempt → List (Bool × ℕ)
refused [] = []
refused (a ∷ rest) = (false, 429) ∷ refused rest

module _ (R : Expiring Stored) (config : Config) (digest : String → String)
    (after_refusal : Bool) where
  -- an attempt on an account at a time of a span
  abbrev pub IsWithin : String → ℕ → ℕ → Attempt → Type 0
  IsWithin id from until a =
      (identifier_of a.request ≡ some id)
      × (a.faults.check ≡ false)
      × (from ≤ a.now)
      × (a.now < until)

  attempt-locked :
      (a : Attempt) (id : String) (s : R.State)
      → identifier_of a.request ≡ some id
      → a.faults.check ≡ false
      → (check R config digest a.now a.now id s).locked ≡ true
      → attempt R config digest after_refusal a s ≡ ((false, 429), s)
  unfolding attempt before_hook after_hook status_of
  attempt-locked a id s known up closed = ground arith

  attempts-locked :
      (rest : List Attempt) (id : String) (from until : ℕ) (s : R.State)
      → ((t : ℕ) → from ≤ t → t < until → (check R config digest t t id s).locked ≡ true)
      → All (IsWithin id from until) rest
      → attempts R config digest after_refusal rest s ≡ (refused rest, s)
  unfolding attempts
  attempts-locked [] id from until s closed within = refl
  attempts-locked (a ∷ rest) id from until s closed ((known, up, late, early), within) =
      let first = attempt-locked a id s known up (closed a.now late early) in
      let more = attempts-locked rest id from until s closed within in ground arith

  -- Once a failure that reaches the threshold has been recorded, every attempt on the account until
  -- the end of its delay is answered with 429 without a check of the credentials, right ones or not,
  -- and leaves the records as they are, so that nobody can lengthen the lock: for any number of
  -- attempts at a sign-in path while Redis can be read, whether or not the library runs the second
  -- hook after a refusal. The clocks of the recorded failure do not run backwards.
  pub locked_account_is_closed :
      (clock : Clock) (id : String) (s : R.State) (rest : List Attempt)
      → clock.stamp ≤ clock.write
      → let n = (read_record R config digest clock.read id s).failures + 1 in
        let s' = (record_failure R config digest clock id s).1 in
        config.threshold ≤ n
        → All (IsWithin id clock.stamp (clock.stamp + delay_for config n * 1000)) rest
        → attempts R config digest after_refusal rest s' ≡ (refused rest, s')
  locked_account_is_closed clock id s rest order reached within =
      let n = (read_record R config digest clock.read id s).failures + 1 in
      let until = clock.stamp + delay_for config n * 1000 in
      let s' = (record_failure R config digest clock id s).1 in
      attempts-locked rest id clock.stamp until s'
        (λ t late early. ground (arith, locked_exactly R config digest clock id s t order late))
        within
