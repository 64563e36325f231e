-- ===== src/Prelude/Lists.antt =====
-- Lists measured by native numbers, predicates over lists, and searches by a Boolean test.
use mathlib.Core.Path.{◌≡◌, subst}
use mathlib.Core.Logic.{◌⊎◌, inl, inr}
use native.Mathlib.Omega.{arith}
use Prim.Native.Nat.{ℕ, suc}
use mathlib.Core.Bool.{Bool, true, false, ◌||◌}
use mathlib.Core.List.{List, [], ◌∷◌}
use mathlib.Core.Option.{Option, none, some}
use nestjs_enterprise_starte.Prelude.Tests.{if◌then◌else◌, Bool-cases}

module _ {ℓ} {A : Type ℓ} where
  abbrev pub length : List A → ℕ
  length [] = 0
  length (x ∷ xs) = suc (length xs)

  -- `xs.find(p)` of JavaScript: the first element that passes
  abbrev pub is_empty : List A → Bool
  is_empty [] = true
  is_empty (x ∷ xs) = false

  abbrev pub find : (A → Bool) → List A → Option A
  find p [] = none
  find p (x ∷ xs) = if p x then some x else find p xs

  abbrev pub filter : (A → Bool) → List A → List A
  filter p [] = []
  filter p (x ∷ xs) = let rest = filter p xs in if p x then x ∷ rest else rest

  abbrev pub any : (A → Bool) → List A → Bool
  any p [] = false
  any p (x ∷ xs) = p x || any p xs

  abbrev pub All {κ} : (A → Type κ) → List A → Type κ
  All P [] = Unit
  All P (x ∷ xs) = P x × All P xs

  abbrev pub Any : (A → Type 0) → List A → Type 0
  Any P [] = ⊥
  Any P (x ∷ xs) = P x ⊎ Any P xs

  pub find-true : (p : A → Bool) (xs : List A) (x : A) → find p xs ≡ some x → p x ≡ true
  find-true p [] x h = absurd (ground arith)
  find-true p (y ∷ xs) x h = elim (Bool-cases (p y)) [
    | inl passes ↦ ground arith
    | inr fails ↦ find-true p xs x (ground arith)
  ]

  pub find-Any :
      (P : A → Type 0) (p : A → Bool) (xs : List A) (x : A) → find p xs ≡ some x → P x → Any P xs
  find-Any P p [] x h holds = absurd (ground arith)
  find-Any P p (y ∷ xs) x h holds = elim (Bool-cases (p y)) [
    | inl passes ↦ inl (subst P (ground arith) holds)
    | inr fails ↦ inr (find-Any P p xs x (ground arith) holds)
  ]
