-- ===== src/Auth/SignIn.antt =====
-- The hooks around a sign-in: `hooks` of src/modules/auth/auth.factory.ts, over the account lockout.
-- The library that runs them, and its check of the credentials, are parameters.
pub mod Locked
mod Tests
use nestjs_enterprise_starte.Prelude.{
  string_key, ◌===◌, leb, any, not, nat_eq, [], if◌then◌else◌, true, some, Option, ◌∷◌, none,
  String, List, false, ℕ, Bool, refl,
}
use nestjs_enterprise_starte.Common.Expiring.{Expiring}
use nestjs_enterprise_starte.Auth.Lockout.{Config, Clock, Stored, check, record_failure, clear}

-- what the hooks read of a request; an address that is no text is missing
pub record Request : Type 0 where
  pub path : String
  pub email : Option String

-- which commands of the lockout are rejected
pub record Faults : Type 0 where
  pub check : Bool
  pub record_failure : Bool
  pub clear : Bool

abbrev pub no_faults : Faults
no_faults = record { check = false; record_failure = false; clear = false }

-- what the hook before the check throws
pub data Refusal : Type 0 where
  unavailable : Refusal
  locked : ℕ → Refusal

-- the status of the error
pub status_of : Refusal → ℕ
status_of unavailable = 503
status_of (locked _) = 429

-- an attempt, with its times: at the check of the lock, and when the outcome is recorded; `answer` is
-- the status that the check of the credentials would come to
pub record Attempt : Type 0 where
  pub request : Request
  pub now : ℕ
  pub clock : Clock
  pub answer : ℕ
  pub faults : Faults

-- `SIGN_IN_PATHS`
abbrev pub sign_in_paths : List String
sign_in_paths = "/sign-in/email" ∷ []

-- the identifier that both hooks go by
unfoldable pub identifier_of : Request → Option String
identifier_of r =
    if not (any (λ p. p === r.path) sign_in_paths)
    then none
    else elim r.email [ none ↦ none | some email ↦ if email === "" then none else some email ]

module _ (R : Expiring Stored) (config : Config) (digest : String → String) where
  -- the hook before the check of the credentials
  pub before_hook : Bool → ℕ → Request → R.State → Option Refusal
  unfolding identifier_of
  before_hook fails now r s = elim (identifier_of r) [
    | none ↦ none
    | some id ↦
        if fails
        then some unavailable
        else let decision = check R config digest now now id s in
          if decision.locked then some (locked decision.retry_after_seconds) else none
  ]

  -- the hook after it; a command that fails changes nothing
  pub after_hook : Faults → Clock → ℕ → Request → R.State → R.State
  unfolding identifier_of
  after_hook faults clock status r s = elim (identifier_of r) [
    | none ↦ s
    | some id ↦
        if nat_eq status 429
        then s
        else if leb 400 status
        then (if faults.record_failure then s else (record_failure R config digest clock id s).1)
        else clear R config digest faults.clear id s
  ]

  -- An attempt: whether the credentials were checked, the status before the second hook, and the records
  -- afterwards. `after_refusal` is whether the library runs the second hook after a refusal of the
  -- first.
  pub attempt : Bool → Attempt → R.State → (Bool × ℕ) × R.State
  unfolding before_hook after_hook status_of
  attempt after_refusal a s = elim (before_hook a.faults.check a.now a.request s) [
    | none ↦ ((true, a.answer), after_hook a.faults a.clock a.answer a.request s)
    | some refusal ↦ (
      (false, status_of refusal),
      if after_refusal then after_hook a.faults a.clock (status_of refusal) a.request s else s,
    )
  ]

  -- attempts one after the other
  unfoldable pub attempts : Bool → List Attempt → R.State → List (Bool × ℕ) × R.State
  attempts after_refusal [] s = ([], s)
  attempts after_refusal (a ∷ rest) s =
      let (answer, s') = attempt after_refusal a s in
      let (answers, t) = attempts after_refusal rest s' in (answer ∷ answers, t)
