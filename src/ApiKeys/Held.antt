-- ===== src/ApiKeys/Held.antt =====
-- What each change of the keys does to the row of one key.
use mathlib.Core.Path.{subst, subst⁻¹}
use nestjs_enterprise_starte.ApiKeys.{
  new_row, ApiKey, by_id, by_prefix, update_row, create, revoke, generate_secret, prefix_of,
}
use nestjs_enterprise_starte.Prelude.{
  find-true, true, Option-cases, none, not, ap, inr, arith, inl, string_key, ◌||◌, if◌then◌else◌,
  false, is_some, find, [], some, ◌≡◌, ◌∷◌, ◌&&◌, Bool-cases, ◌===◌, ℕ, List, String, Bool, refl,
}

find_update :
    (q : ApiKey → Bool) (id : String) (f : ApiKey → ApiKey) (rows : List ApiKey) (k : ApiKey)
    → ((r : ApiKey) → q (f r) ≡ q r)
    → find q rows ≡ some k
    → find q (update_row id f rows) ≡ some (if k.id === id then f k else k)
find_update q id f [] k same h = absurd (ground arith)
find_update q id f (r ∷ rows) k same h = elim (Bool-cases (q r)) [
  | inl passes ↦
      let first : r ≡ k = ground arith in
      subst (λ a. find q (update_row id f (r ∷ rows)) ≡ some (if a.id === id then f a else a)) first
        (ground (arith, same r))
  | inr fails ↦ ground (arith, same r, find_update q id f rows k same (ground arith))
]

by_id-cons :
    (r k : ApiKey) (rows : List ApiKey) (id : String)
    → by_id id rows ≡ some k
    → is_some (by_id r.id rows) ≡ false
    → by_id id (r ∷ rows) ≡ some k
unfolding by_id
by_id-cons r k rows id h free = elim (Bool-cases (r.id === id)) [
  | inl same ↦
      let taken : by_id r.id rows ≡ by_id id rows =
        ap (λ j. by_id j rows) ((string_key.same_iff r.id id).0 same) in
      absurd (ground arith)
  | inr apart ↦ ground arith
]

by_prefix-cons :
    (r k : ApiKey) (rows : List ApiKey) (prefix : String)
    → by_prefix prefix rows ≡ some k
    → is_some (by_prefix r.prefix rows) ≡ false
    → by_prefix prefix (r ∷ rows) ≡ some k
unfolding by_prefix
by_prefix-cons r k rows prefix h free = elim (Bool-cases (r.prefix === prefix)) [
  | inl same ↦
      let taken : by_prefix r.prefix rows ≡ by_prefix prefix rows =
        ap (λ j. by_prefix j rows) ((string_key.same_iff r.prefix prefix).0 same) in
      absurd (ground arith)
  | inr apart ↦ ground arith
]

pub or_false : (b : Bool) → (b || false) ≡ b
or_false b = ground arith

module _ (hash : String → String) (trim : String → String) where
  -- the row of the key, found by its id and by its prefix, and whether it is revoked
  abbrev pub Holds : ApiKey → Bool → List ApiKey → Type 0
  Holds made revoked rows =
      (k : ApiKey) × (by_id made.id rows ≡ some k)
      × (by_prefix made.prefix rows ≡ some k)
      × (k.id ≡ made.id)
      × (k.user_id ≡ made.user_id)
      × (k.secret_hash ≡ made.secret_hash)
      × (is_some k.revoked_at ≡ revoked)

  -- an update that keeps what identifies a row
  pub Holds-update :
      (made : ApiKey) (revoked after : Bool) (id : String) (f : ApiKey → ApiKey)
      (rows : List ApiKey)
      → ((r : ApiKey)
          → ((f r).id ≡ r.id)
            × ((f r).prefix ≡ r.prefix)
            × ((f r).user_id ≡ r.user_id)
            × ((f r).secret_hash ≡ r.secret_hash))
      → ((r : ApiKey)
          → is_some r.revoked_at ≡ revoked
          → is_some (if made.id === id then f r else r).revoked_at ≡ after)
      → Holds made revoked rows
      → Holds made after (update_row id f rows)
  unfolding by_id by_prefix
  Holds-update made revoked after id f rows keeps becomes
        (k, at_id, at_prefix, same, owner, hashed, state) =
      (
        (if made.id === id then f k else k),
        ground (
          arith,
          same,
          find_update (λ r. r.id === made.id) id f rows k (λ r. ground (arith, keeps r)) at_id,
        ),
        ground (
          arith,
          same,
          find_update (λ r. r.prefix === made.prefix) id f rows k (λ r. ground (arith, keeps r))
              at_prefix,
        ),
        ground (arith, keeps k),
        ground (arith, keeps k),
        ground (arith, keeps k),
        becomes k state,
      )

  abbrev pub marked : ℕ → ApiKey → ApiKey
  marked now r = record r { revoked_at = some now }

  revoke-none :
      (rows : List ApiKey) (user id : String) (now : ℕ)
      → by_id id rows ≡ none
      → (revoke hash trim user id now rows).1 ≡ rows
  unfolding revoke
  revoke-none rows user id now h = ground arith

  revoke-some :
      (rows : List ApiKey) (user id : String) (now : ℕ) (row : ApiKey)
      → by_id id rows ≡ some row
      → (revoke hash trim user id now rows).1 ≡ (
          if row.user_id === user && not (is_some row.revoked_at)
          then update_row row.id (marked now) rows
          else rows)
  unfolding revoke
  revoke-some rows user id now row h = ground arith

  -- a revocation of another key
  Holds-revoke_other :
      (made : ApiKey) (revoked : Bool) (rows : List ApiKey) (user id : String) (now : ℕ)
      → (id === made.id) ≡ false
      → Holds made revoked rows
      → Holds made revoked (revoke hash trim user id now rows).1
  unfolding by_id
  Holds-revoke_other made revoked rows user id now apart h = elim (Option-cases (by_id id rows)) [
    | inl missing ↦ rw (revoke-none rows user id now missing) h
    | inr (row, found) ↦
        let its : (row.id === id) ≡ true = find-true (λ r. r.id === id) rows row found in
        rw (revoke-some rows user id now row found)
          (elim (Bool-cases (row.user_id === user && not (is_some row.revoked_at))) [
            | inr stays ↦ rw stays h
            | inl goes ↦ rw goes (
                Holds-update made revoked revoked row.id (marked now) rows
                  (λ r. (refl, refl, refl, refl))
                  (λ r state. ground (
                    arith,
                    string_key.same_iff row.id id,
                    string_key.same_iff made.id row.id,
                    string_key.same_iff id made.id,
                  ))
                  h)
          ])
  ]

  -- a revocation of the key, by its owner or somebody else
  Holds-revoke_same :
      (made : ApiKey) (revoked : Bool) (rows : List ApiKey) (user : String) (now : ℕ)
      → Holds made revoked rows
      → Holds made (revoked || user === made.user_id) (revoke hash trim user made.id now rows).1
  Holds-revoke_same made revoked rows user now (k, at_id, at_prefix, same, owner, hashed, state) =
      let h : Holds made revoked rows = (k, at_id, at_prefix, same, owner, hashed, state) in
      rw (revoke-some rows user made.id now k at_id)
        (elim (Bool-cases (k.user_id === user && not (is_some k.revoked_at))) [
          | inr stays ↦
              let unchanged : (revoked || user === made.user_id) ≡ revoked = ground (
                arith,
                string_key.same_iff k.user_id user,
                string_key.same_iff user made.user_id,
              ) in
              rw stays (rw unchanged h)
          | inl goes ↦
              let now_revoked : (revoked || user === made.user_id) ≡ true = ground (
                arith,
                string_key.same_iff k.user_id user,
                string_key.same_iff user made.user_id,
              ) in
              rw goes (
                rw now_revoked (
                  Holds-update made revoked true k.id (marked now) rows
                    (λ r. (refl, refl, refl, refl))
                    (λ r kept. ground (arith, string_key.same_iff made.id k.id)) h))
        ])

  pub Holds-revoke :
      (made : ApiKey) (revoked : Bool) (rows : List ApiKey) (user id : String) (now : ℕ)
      → Holds made revoked rows
      → Holds made
          (revoked || (id === made.id && user === made.user_id))
          (revoke hash trim user id now rows).1
  Holds-revoke made revoked rows user id now h = elim (Bool-cases (id === made.id)) [
    | inr apart ↦
        rw apart (rw (or_false revoked) (Holds-revoke_other made revoked rows user id now apart h))
    | inl same ↦ rw same (
        subst⁻¹
          (λ j. Holds made (revoked || user === made.user_id) (revoke hash trim user j now rows).1)
          ((string_key.same_iff id made.id).0 same)
          (Holds-revoke_same made revoked rows user now h))
  ]

  pub Holds-create :
      (made : ApiKey) (revoked : Bool) (rows : List ApiKey) (user name id random : String) (now : ℕ)
      → Holds made revoked rows
      → Holds made revoked (create hash trim user name id random now rows).1
  unfolding create
  Holds-create made revoked rows user name id random now
        (k, at_id, at_prefix, same, owner, hashed, state) =
      let secret = generate_secret random in
      elim (Bool-cases (is_some (by_id id rows) || is_some (by_prefix (prefix_of secret) rows))) [
        | inl taken ↦ rw taken (k, at_id, at_prefix, same, owner, hashed, state)
        | inr free ↦ rw free (
          k,
          by_id-cons (new_row hash trim user name id random now) k rows made.id at_id
              (ground arith),
          by_prefix-cons (new_row hash trim user name id random now) k rows made.prefix at_prefix
              (ground arith),
          same,
          owner,
          hashed,
          state,
        )
      ]
