-- ===== src/Prelude/Keys.antt =====
-- Types whose values are compared by `===`: the keys of tables, maps and sets.
use Prim.Native.String.{String}
use mathlib.Core.Path.{◌≡◌, refl}
use mathlib.Core.Logic.{◌↔◌}
use mathlib.Core.Bool.{Bool, true, ◌&&◌}
use native.Mathlib.Omega.{arith}
use text.Mathlib.Text.{◌==◌ as str_eq}
use text.Mathlib.TextEquality.{eq_iff}

pub record Key {ℓ} (K : Type ℓ) : Type ℓ where
  pub same : K → K → Bool
  pub same_iff : (j k : K) → (same j k ≡ true) ↔ (j ≡ k)

infix 50 ◌===◌
abbrev pub ◌===◌ {ℓ} : {K : Type ℓ} ⦃e : Key K⦄ → K → K → Bool
◌===◌ ⦃e⦄ = e.same

instance abbrev pub string_key : Key String
string_key = record { same = str_eq; same_iff = eq_iff }

abbrev pub same_pair : String × String → String × String → Bool
same_pair (a, b) (c, d) = a === c && b === d

pub same_pair_iff : (j k : String × String) → (same_pair j k ≡ true) ↔ (j ≡ k)
same_pair_iff (a, b) (c, d) = ground (arith, string_key.same_iff a c, string_key.same_iff b d)

instance abbrev pub pair_key : Key (String × String)
pair_key = record { same = same_pair; same_iff = same_pair_iff }

pub ===_refl {ℓ} : {K : Type ℓ} ⦃e : Key K⦄ (k : K) → (k === k) ≡ true
===_refl ⦃e⦄ k = (e.same_iff k k).1 refl
