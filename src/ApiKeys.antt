-- ===== src/ApiKeys.antt =====
-- src/modules/api-keys/api-key.service.ts. The random part of a secret, the hash, the trim of texts,
-- the users and their permissions are parameters. Lengths of texts count bytes, and a secret
-- or a header has one byte per character.
pub mod Held
pub mod Lifetime
mod Tests
use nestjs_enterprise_starte.Prelude.{
  false, ◌∷◌, string_key, or_else, ltb, ◌||◌, is_some, ◌===◌, not, if◌then◌else◌, find, map, ◌&&◌,
  some, [], none, Bool, List, Option, String, ℕ, refl,
}
use nestjs_enterprise_starte.Authorization.{EffectiveAccess}
use nestjs_enterprise_starte.Common.Errors.{Thrown, other, ErrorCode, api_error}
use nestjs_enterprise_starte.Common.Exec.{Exec, ok, err}
use Prim.Native.String.{◌++◌ as ◌⊕◌, len, slice}
use text.Mathlib.Text.{starts_with}

-- a row of `api_keys`
pub record ApiKey : Type 0 where
  pub id : String
  pub user_id : String
  pub name : String
  pub prefix : String
  pub secret_hash : String
  pub created_at : ℕ
  pub last_used_at : Option ℕ
  pub revoked_at : Option ℕ

-- `ApiKeyView`
pub record ApiKeyView : Type 0 where
  pub id : String
  pub name : String
  pub prefix : String
  pub created_at : ℕ
  pub last_used_at : Option ℕ
  pub revoked_at : Option ℕ

-- `CreatedApiKey`
pub record CreatedApiKey : Type 0 where
  pub id : String
  pub name : String
  pub prefix : String
  pub secret : String
  pub created_at : ℕ

-- `AuthenticatedPrincipal`, and the row of a user that it is read from
pub record Principal : Type 0 where
  pub id : String
  pub email : String
  pub name : String
  pub email_verified : Bool
  pub two_factor_enabled : Bool

pub record User : Type 0 where
  pub id : String
  pub email : String
  pub name : String
  pub email_verified : Bool
  pub two_factor_enabled : Option Bool

-- `AgentPrincipal`
pub record AgentPrincipal : Type 0 where
  pub user : Principal
  pub api_key_id : String
  pub access : EffectiveAccess

-- the principal of a user's row
abbrev pub principal_for : User → Principal
principal_for user = record {
  id = user.id;
  email = user.email;
  name = user.name;
  email_verified = user.email_verified;
  two_factor_enabled = or_else user.two_factor_enabled false;
}

-- `toView`
abbrev pub to_view : ApiKey → ApiKeyView
to_view row = record {
  id = row.id;
  name = row.name;
  prefix = row.prefix;
  created_at = row.created_at;
  last_used_at = row.last_used_at;
  revoked_at = row.revoked_at;
}

-- `API_KEY_PREFIX_LENGTH`
abbrev prefix_length : ℕ
prefix_length = 12

-- `secret.slice(0, API_KEY_PREFIX_LENGTH)`
pub prefix_of : String → String
prefix_of secret = slice secret 0 prefix_length

-- `generateSecret`, from the random bytes as a text
abbrev pub generate_secret : String → String
generate_secret random = "nes_" ⊕ random

-- the form of a secret that `verifySecret` asks for
pub has_form : String → Bool
has_form secret = starts_with secret "nes_" && not (ltb (len secret) prefix_length)

-- the key of an id, which is the primary key
pub by_id : String → List ApiKey → Option ApiKey
by_id id rows = find (λ row. row.id === id) rows

-- the key of a prefix, which is unique
pub by_prefix : String → List ApiKey → Option ApiKey
by_prefix prefix rows = find (λ row. row.prefix === prefix) rows

-- an update of the row of an id
abbrev pub update_row : String → (ApiKey → ApiKey) → List ApiKey → List ApiKey
update_row id f rows = map (λ row. if row.id === id then f row else row) rows

module _ (hash : String → String) (trim : String → String) where
  -- the row that `create` inserts
  abbrev pub new_row : String → String → String → String → ℕ → ApiKey
  new_row user_id name id random now = record {
    id = id;
    user_id = user_id;
    name = trim name;
    prefix = prefix_of (generate_secret random);
    secret_hash = hash (generate_secret random);
    created_at = now;
    last_used_at = none;
    revoked_at = none;
  }

  -- `create`, with a new id; the insert fails if the id or the prefix is taken
  pub create : String → String → String → String → ℕ → Exec (List ApiKey) CreatedApiKey
  create user_id name id random now rows =
      let row = new_row user_id name id random now in
      if is_some (by_id id rows) || is_some (by_prefix row.prefix rows)
      then (err (other "P2002"), rows)
      else (
        ok (record {
          id = id;
          name = row.name;
          prefix = row.prefix;
          secret = generate_secret random;
          created_at = now;
        }),
        row ∷ rows,
      )

  -- `revoke`
  pub revoke : String → String → ℕ → Exec (List ApiKey) ApiKeyView
  revoke user_id key_id now rows =
      let missing : Thrown = api_error 404 ErrorCode.not_found "API key not found." [] in
      elim (by_id key_id rows) [
        | none ↦ (err missing, rows)
        | some row ↦
            if not (row.user_id === user_id)
            then (err missing, rows)
            else if is_some row.revoked_at
            then (ok (to_view row), rows)
            else (
              ok (to_view (record row { revoked_at = some now })),
              update_row row.id (λ r. record r { revoked_at = some now }) rows,
            )
      ]

  -- the update of `lastUsedAt` that `verifySecret` does not wait for
  abbrev pub stamp_used : String → ℕ → List ApiKey → List ApiKey
  stamp_used key_id now rows = update_row key_id (λ r. record r { last_used_at = some now }) rows

  -- `verifySecret`, with the table of users and the resolver of permissions
  pub verify_secret :
      (String → Option User)
      → (String → EffectiveAccess)
      → String
      → List ApiKey
      → Option AgentPrincipal
  verify_secret find_user resolve secret rows =
      if not (has_form secret) then none else elim (by_prefix (prefix_of secret) rows) [
        | none ↦ none
        | some row ↦
            if is_some row.revoked_at
            then none
            else if not (hash secret === row.secret_hash)
            then none
            else elim (find_user row.user_id) [
              | none ↦ none
              | some user ↦
                  if not user.email_verified
                  then none
                  else some (record {
                    user = principal_for user;
                    api_key_id = row.id;
                    access = resolve user.id;
                  })
            ]
      ]

  -- `extractBearer`
  pub extract_bearer : Option String → Option String
  extract_bearer none = none
  extract_bearer (some authorization) =
      let token = trim (slice authorization 7 (len authorization)) in
      if not (starts_with authorization "Bearer ") || token === "" then none else some token

  -- `authenticateBearer`
  pub authenticate_bearer :
      (String → Option User)
      → (String → EffectiveAccess)
      → Option String
      → List ApiKey
      → Option AgentPrincipal
  unfolding extract_bearer
  authenticate_bearer find_user resolve authorization rows = elim (extract_bearer authorization) [
    | none ↦ none
    | some secret ↦ verify_secret find_user resolve secret rows
  ]
