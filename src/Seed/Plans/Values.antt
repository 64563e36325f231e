-- ===== src/Seed/Plans/Values.antt =====
-- The values of a plan that a seed upserts.
use nestjs_enterprise_starte.Prelude.{
  ◌≡◌, ◌∙◌, ◌===◌, arith, All, is_some, Option-cases, inl, inr, String, true, false, none, some,
  List, [], ◌∷◌, refl, string_key, pair_key,
}
use nestjs_enterprise_starte.Common.Object.{get_key}
use nestjs_enterprise_starte.Common.Table.{Table}
use nestjs_enterprise_starte.Seed.Plans.{first_missing, upsert_values}

-- a definition has a value for each key
abbrev pub HasAll : {V : Type 0} → List String → List (String × V) → Type 0
HasAll keys fields = All (λ key. is_some (get_key key fields) ≡ true) keys

pub first_missing-none :
    {V : Type 0} (keys : List String) (fields : List (String × V))
    → HasAll keys fields
    → first_missing keys fields ≡ none
unfolding first_missing
first_missing-none [] fields h = refl
first_missing-none (key ∷ keys) fields (present, h) =
    ground (arith, first_missing-none keys fields h)

module _ {V : Type 0} (T : Table (String × String) V pair_key) where
  -- the values of a plan for the keys
  abbrev pub HasValues : T.State → String → List String → List (String × V) → Type 0
  HasValues t id keys fields = All (λ key. T.lookup (id, key) t ≡ get_key key fields) keys

  upsert_values_elsewhere :
      (id other key : String) (keys : List String) (fields : List (String × V)) (t : T.State)
      → (id === other) ≡ false
      → T.lookup (other, key) (upsert_values T id keys fields t) ≡ T.lookup (other, key) t
  unfolding upsert_values
  upsert_values_elsewhere id other key [] fields t h = refl
  upsert_values_elsewhere id other key (k ∷ keys) fields t h =
      elim (Option-cases (get_key k fields)) [
        | inl missing ↦ ground (arith, upsert_values_elsewhere id other key keys fields t h)
        | inr (v, found) ↦
            let t' = T.put (id, k) v t in
            ground (
              arith,
              upsert_values_elsewhere id other key keys fields t' h,
              T.lookup-put (id, k) (other, key) v t,
              pair_key.same_iff (id, k) (other, key),
              string_key.same_iff id other,
            )
      ]

  upsert_values_keeps :
      (id key : String) (keys : List String) (fields : List (String × V)) (t : T.State)
      → T.lookup (id, key) t ≡ get_key key fields
      → T.lookup (id, key) (upsert_values T id keys fields t) ≡ get_key key fields
  unfolding upsert_values
  upsert_values_keeps id key [] fields t h = h
  upsert_values_keeps id key (k ∷ keys) fields t h = elim (Option-cases (get_key k fields)) [
    | inl missing ↦ ground (arith, upsert_values_keeps id key keys fields t h)
    | inr (v, found) ↦
        let t' = T.put (id, k) v t in
        let put : T.lookup (id, key) t' ≡ get_key key fields =
          ground (arith, T.lookup-put (id, k) (id, key) v t, pair_key.same_iff (id, k) (id, key)) in
        ground (arith, upsert_values_keeps id key keys fields t' put)
  ]

  pub upsert_values_sets :
      (id : String) (keys : List String) (fields : List (String × V)) (t : T.State)
      → HasAll keys fields
      → HasValues (upsert_values T id keys fields t) id keys fields
  unfolding upsert_values
  upsert_values_sets id [] fields t h = tt
  upsert_values_sets id (k ∷ keys) fields t (present, h) =
      let t' : T.State = elim (get_key k fields) [ none ↦ t | some v ↦ T.put (id, k) v t ] in
      let put : T.lookup (id, k) t' ≡ get_key k fields = elim (Option-cases (get_key k fields)) [
        | inl missing ↦ absurd (ground arith)
        | inr (v, found) ↦
            ground (arith, T.lookup-put (id, k) (id, k) v t, pair_key.same_iff (id, k) (id, k))
      ] in
      (upsert_values_keeps id k keys fields t' put, upsert_values_sets id keys fields t' h)

  pub upsert_values-HasValues :
      (id other : String) (keys own_keys : List String) (fields own : List (String × V))
      (t : T.State)
      → (id === other) ≡ false
      → HasValues t other own_keys own
      → HasValues (upsert_values T id keys fields t) other own_keys own
  upsert_values-HasValues id other keys [] fields own t apart h = tt
  upsert_values-HasValues id other keys (k ∷ own_keys) fields own t apart (first, h) = (
    upsert_values_elsewhere id other k keys fields t apart ∙ first,
    upsert_values-HasValues id other keys own_keys fields own t apart h,
  )
