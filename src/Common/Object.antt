-- ===== src/Common/Object.antt =====
-- JavaScript objects and maps with text keys: a later assignment to a key replaces the value.
use nestjs_enterprise_starte.Prelude.{
  ◌≡◌, arith, String, Option, none, some, List, [], ◌∷◌, ◌===◌, string_key, if◌then◌else◌,
}

module _ {ℓ} {V : Type ℓ} where
  -- `object[key]`, `map.get(key)`
  unfoldable pub get_key : String → List (String × V) → Option V
  get_key k [] = none
  get_key k ((j, v) ∷ fields) = if k === j then some v else get_key k fields

  -- `object[key] = value`, `map.set(key, value)`
  unfoldable pub set_key : String → V → List (String × V) → List (String × V)
  set_key k v [] = (k, v) ∷ []
  set_key k v ((j, w) ∷ fields) =
      let rest = set_key k v fields in if k === j then (j, v) ∷ fields else (j, w) ∷ rest

  pub get_key-set_key :
      (k j : String) (v : V) (fields : List (String × V))
      → get_key j (set_key k v fields) ≡ (if k === j then some v else get_key j fields)
  unfolding get_key set_key
  get_key-set_key k j v [] = ground (arith, string_key.same_iff k j, string_key.same_iff j k)
  get_key-set_key k j v ((i, w) ∷ fields) = ground (
    arith,
    string_key.same_iff k j,
    string_key.same_iff k i,
    string_key.same_iff j k,
    string_key.same_iff j i,
    get_key-set_key k j v fields,
  )
