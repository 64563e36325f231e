-- ===== src/Common/Expiring.antt =====
-- What the application relies on of Redis keys with a time to live, at a time in milliseconds:
-- a value set with `EX` is read back until its seconds have passed, and no other key changes.
use nestjs_enterprise_starte.Prelude.{
  ℕ, ◌+◌, ◌*◌, ◌≡◌, refl, String, Option, none, some, List, [], ◌∷◌, arith, ltb, ◌===◌, string_key,
  if◌then◌else◌,
}

pub record Expiring (V : Type 0) : Type 1 where
  pub State : Type 0
  pub get : ℕ → String → State → Option V
  pub set_ex : ℕ → String → V → ℕ → State → State
  pub del : String → State → State
  pub get-set_ex :
      (now later ttl : ℕ) (k j : String) (v : V) (s : State)
      → get later j (set_ex now k v ttl s) ≡ (
          if k === j
          then (if ltb later (now + ttl * 1000) then some v else none)
          else get later j s)
  pub get-del :
      (now : ℕ) (k j : String) (s : State)
      → get now j (del k s) ≡ (if k === j then none else get now j s)

-- a key space as a list of keys with the moment at which they expire
module _ {V : Type 0} where
  unfoldable pub live_value : ℕ → String → List (String × ℕ × V) → Option V
  live_value now k [] = none
  live_value now k ((j, until, v) ∷ rows) =
      if j === k then (if ltb now until then some v else none) else live_value now k rows

  unfoldable pub without_key : String → List (String × ℕ × V) → List (String × ℕ × V)
  without_key k [] = []
  without_key k ((j, until, v) ∷ rows) =
      let rest = without_key k rows in if j === k then rest else (j, until, v) ∷ rest

  pub live_value-cons :
      (now later ttl : ℕ) (k j : String) (v : V) (rows : List (String × ℕ × V))
      → live_value later j ((k, now + ttl * 1000, v) ∷ rows) ≡ (
          if k === j
          then (if ltb later (now + ttl * 1000) then some v else none)
          else live_value later j rows)
  unfolding live_value
  live_value-cons now later ttl k j v rows = refl

  pub live_value-without_key :
      (now : ℕ) (k j : String) (rows : List (String × ℕ × V))
      → live_value now j (without_key k rows) ≡ (if k === j then none else live_value now j rows)
  unfolding live_value without_key
  live_value-without_key now k j [] = ground arith
  live_value-without_key now k j ((i, until, v) ∷ rows) = ground (
    arith,
    string_key.same_iff i k,
    string_key.same_iff i j,
    string_key.same_iff k j,
    live_value-without_key now k j rows,
  )

abbrev pub memory : (V : Type 0) → Expiring V
memory V = record {
  State = List (String × ℕ × V);
  get = live_value;
  set_ex = λ now k v ttl rows. (k, now + ttl * 1000, v) ∷ rows;
  del = without_key;
  get-set_ex = live_value-cons;
  get-del = live_value-without_key;
}
