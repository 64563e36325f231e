-- ===== src/Common/Exec.antt =====
-- Methods that change a state and may throw. What was written before a throw stays written, so the
-- state comes back beside the error too.
use nestjs_enterprise_starte.Prelude.{
  ◌≡◌, refl, ◌⊎◌, inl, inr, Bool, Option, true, false, none, some, if◌then◌else◌,
}
use nestjs_enterprise_starte.Common.Errors.{other, code_of, ErrorCode, Thrown}

pub data Result {ℓ} (A : Type ℓ) : Type ℓ where
  ok : A → Result A
  err : Thrown → Result A

abbrev pub Exec {ℓ} : Type ℓ → Type ℓ → Type ℓ
Exec S A = S → Result A × S

module _ {ℓ} {S A : Type ℓ} where
  abbrev pub pure : A → Exec S A
  pure a s = (ok a, s)

  abbrev pub throw : Thrown → Exec S A
  throw e s = (err e, s)

  abbrev pub gets : (S → A) → Exec S A
  gets f s = (ok (f s), s)

  abbrev pub lift : Result A → Exec S A
  lift r s = (r, s)

  abbrev pub or_throw : Option A → Thrown → Exec S A
  or_throw none e = throw e
  or_throw (some a) _ = pure a

  -- A body that throws leaves the state as it was before the body.
  abbrev pub rolled_back : S → Result A × S → Result A × S
  rolled_back before (ok a, s) = (ok a, s)
  rolled_back before (err e, _) = (err e, before)

abbrev pub modify : {S : Type 0} → (S → S) → Exec S (Unit {0})
modify f s = (ok tt, f s)

abbrev pub throw_if : {S : Type 0} → Bool → Thrown → Exec S (Unit {0})
throw_if b e s = (if b then err e else ok tt, s)

infixl 5 ◌>>=◌ ◌>>◌
abbrev pub ◌>>=◌ {ℓ} : {S A B : Type ℓ} → Exec S A → (A → Exec S B) → Exec S B
◌>>=◌ m f s = let (r, s') = m s in elim r [ ok a ↦ f a s' | err e ↦ (err e, s') ]

abbrev pub ◌>>◌ {ℓ} : {S A B : Type ℓ} → Exec S A → Exec S B → Exec S B
m >> k = m >>= λ _. k

pub Result-cases {ℓ} :
    {A : Type ℓ} (r : Result A) → ((e : Thrown) × (r ≡ err e)) ⊎ ((a : A) × (r ≡ ok a))
Result-cases (err e) = inl (e, refl)
Result-cases (ok a) = inr (a, refl)

-- the code of the exception that a call threw, if it threw one that states a code
abbrev pub error_code {ℓ} : {A : Type ℓ} → Result A → Option ErrorCode
error_code (ok _) = none
error_code (err e) = code_of e

-- How a call over a connection ends: its outcome is heard, or the connection fails before or after
-- what it does was committed.
pub data Reply : Type 0 where
  heard lost_before lost_after : Reply

abbrev pub over {ℓ} : {S A : Type ℓ} → Reply → Exec S A → Exec S A
over heard m s = m s
over lost_before m s = (err (other "connection lost"), s)
over lost_after m s = (err (other "connection lost"), (m s).1)

abbrev pub is_heard : Reply → Bool
is_heard heard = true
is_heard _ = false
