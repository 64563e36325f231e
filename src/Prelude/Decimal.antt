-- ===== src/Prelude/Decimal.antt =====
-- A number in a template text.
use Prim.Native.Nat.{ℕ, zero, suc, ◌/◌, ◌%◌}
use Prim.Native.String.{String, ◌++◌}
use mathlib.Core.List.{List, [], ◌∷◌}
use nestjs_enterprise_starte.Prelude.Tests.{ltb, if◌then◌else◌}

at : ℕ → List String → String
at n [] = ""
at zero (x ∷ xs) = x
at (suc n) (x ∷ xs) = at n xs

digit : ℕ → String
unfolding at
digit n = at n ("0" ∷ "1" ∷ "2" ∷ "3" ∷ "4" ∷ "5" ∷ "6" ∷ "7" ∷ "8" ∷ "9" ∷ [])

-- the digits of a number; each division makes it smaller, so fuel above the number is enough
digits : ℕ → ℕ → String
unfolding digit
digits zero n = ""
digits (suc fuel) n =
    let rest = digits fuel (n / 10) in (if ltb n 10 then "" else rest) ++ digit (n % 10)

unfoldable pub decimal : ℕ → String
unfolding digits
decimal n = digits (suc n) n
