-- ===== src/ApiKeys/Lifetime.antt =====
-- A key from its creation on, whatever happens to keys meanwhile.
use nestjs_enterprise_starte.ApiKeys.{
  new_row, ApiKey, CreatedApiKey, User, principal_for, by_id, by_prefix, create, revoke, stamp_used,
  verify_secret, authenticate_bearer, extract_bearer, has_form, generate_secret,
}
use nestjs_enterprise_starte.Authorization.{EffectiveAccess}
use nestjs_enterprise_starte.Common.Exec.{ok}
use nestjs_enterprise_starte.Prelude.{
  true, Option, none, any, arith, string_key, ◌||◌, if◌then◌else◌, false, [], some, ◌≡◌, ◌∷◌, ◌&&◌,
  ◌===◌, ℕ, List, String, Bool, refl,
}
use nestjs_enterprise_starte.ApiKeys.Held.{
  Holds, Holds-update, Holds-create, Holds-revoke, or_false,
}

-- what may happen to the keys
pub data Action : Type 0 where
  create_key : (user name id random : String) (now : ℕ) → Action
  revoke_key : (user id : String) (now : ℕ) → Action
  use_key : (id : String) (now : ℕ) → Action

-- the owner revokes the key
abbrev pub is_revoke : String → String → Action → Bool
is_revoke user id (revoke_key u i now) = i === id && u === user
is_revoke user id _ = false

module _ (hash : String → String) (trim : String → String) where
  pub perform : Action → List ApiKey → List ApiKey
  perform (create_key user name id random now) rows =
      (create hash trim user name id random now rows).1
  perform (revoke_key user id now) rows = (revoke hash trim user id now rows).1
  perform (use_key id now) rows = stamp_used hash trim id now rows

  unfoldable pub run : List Action → List ApiKey → List ApiKey
  unfolding perform
  run [] rows = rows
  run (a ∷ actions) rows = run actions (perform a rows)

  Holds-perform :
      (made : ApiKey) (revoked : Bool) (a : Action) (rows : List ApiKey)
      → Holds hash trim made revoked rows
      → Holds hash trim made (revoked || is_revoke made.user_id made.id a) (perform a rows)
  unfolding perform
  Holds-perform made revoked (create_key user name id random now) rows h =
      rw (or_false revoked) (Holds-create hash trim made revoked rows user name id random now h)
  Holds-perform made revoked (use_key id now) rows h = rw (or_false revoked) (
      Holds-update hash trim made revoked revoked id (λ r. record r { last_used_at = some now })
        rows (λ r. (refl, refl, refl, refl)) (λ r state. ground arith) h)
  Holds-perform made revoked (revoke_key user id now) rows h =
      Holds-revoke hash trim made revoked rows user id now h

  Holds-run :
      (made : ApiKey) (revoked : Bool) (actions : List Action) (rows : List ApiKey)
      → Holds hash trim made revoked rows
      → Holds hash trim made
          (revoked || any (is_revoke made.user_id made.id) actions)
          (run actions rows)
  unfolding run
  Holds-run made revoked [] rows h = rw (or_false revoked) h
  Holds-run made revoked (a ∷ actions) rows h =
      let joined : (revoked
            || (is_revoke made.user_id made.id a || any (is_revoke made.user_id made.id) actions))
          ≡ ((revoked || is_revoke made.user_id made.id a)
              || any (is_revoke made.user_id made.id) actions) =
        ground arith in
      rw joined (
        Holds-run made (revoked || is_revoke made.user_id made.id a) actions (perform a rows)
          (Holds-perform made revoked a rows h))

  -- what a new key is
  create-Holds :
      (user name id random : String) (now : ℕ) (rows : List ApiKey) (c : CreatedApiKey)
      → (create hash trim user name id random now rows).0 ≡ ok c
      → (c.secret ≡ generate_secret random)
        × Holds hash trim
            (new_row hash trim user name id random now)
            false
            (create hash trim user name id random now rows).1
  unfolding create by_id by_prefix
  create-Holds user name id random now rows c h =
      let row = new_row hash trim user name id random now in
      (
        ground arith,
        (
          row,
          ground (arith, string_key.same_iff id id),
          ground (arith, string_key.same_iff row.prefix row.prefix),
          refl,
          refl,
          refl,
          refl,
        ),
      )

  -- A key that was created authenticates its user, from then on and whatever happens to keys
  -- meanwhile, until the user revokes it, and never again afterwards: if the secret has the form that
  -- is asked for, the header carries it, and the user has a verified account.
  pub key_lifetime :
      (find_user : String → Option User) (resolve : String → EffectiveAccess)
      (user name id random : String) (now : ℕ) (rows : List ApiKey) (c : CreatedApiKey)
      (actions : List Action) (account : User) (authorization : Option String)
      → (create hash trim user name id random now rows).0 ≡ ok c
      → has_form c.secret ≡ true
      → extract_bearer hash trim authorization ≡ some c.secret
      → find_user user ≡ some account
      → account.email_verified ≡ true
      → authenticate_bearer hash trim find_user resolve authorization
          (run actions (create hash trim user name id random now rows).1)
        ≡ (if any (is_revoke user id) actions
            then none
            else some (record {
              user = principal_for account;
              api_key_id = id;
              access = resolve account.id;
            }))
  unfolding authenticate_bearer verify_secret
  key_lifetime find_user resolve user name id random now rows c actions account authorization made
        form carried known verified =
      let (secret, new) = create-Holds user name id random now rows c made in
      let (k, at_id, at_prefix, same, owner, hashed, state) =
        Holds-run (new_row hash trim user name id random now) false actions
          (create hash trim user name id random now rows).1 new in
      ground (arith, string_key.same_iff (hash c.secret) k.secret_hash)
