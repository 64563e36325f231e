-- ===== src/Authorization.antt =====
-- src/modules/authorization: permission-resolver.service.ts, permission-cache-version.ts and
-- permissions.guard.ts. Redis holds the version marker and the cached permissions, PostgreSQL the
-- roles. Every command of Redis may be rejected, and a cached entry may be gone at any time.
pub mod Granted
pub mod Steps
pub mod Coherence
pub mod Current
pub mod Stale
mod Tests
use nestjs_enterprise_starte.Prelude.{
  filter, is_empty, arith, nat_eq, ◌+◌, ◌↔◌, string_key, ◌&&◌, find, true, or_else, ◌||◌, ◌∷◌, ◌++◌,
  none, ◌===◌, not, ◌≡◌, any, some, map, String, [], Option, Bool, List, if◌then◌else◌, ℕ, Key,
  refl,
}
use nestjs_enterprise_starte.Common.Table.{Table}
use nestjs_enterprise_starte.Common.Errors.{Thrown, other, ErrorCode, api_error}
use nestjs_enterprise_starte.Common.Exec.{
  lift, ok, pure, err, throw_if, modify, gets, Exec, Result, ◌>>=◌, ◌>>◌,
}

-- `EffectiveAccess`
pub record EffectiveAccess : Type 0 where
  pub roles : List String
  pub permissions : List String

-- a row of `roles`, with the keys of the permissions that are mapped to it
pub record Role : Type 0 where
  pub id : String
  pub name : String
  pub permissions : List String

-- `user_roles`, as pairs of a user and a role, and `roles`
pub record Db : Type 0 where
  pub user_roles : List (String × String)
  pub roles : List Role

-- `includes`
abbrev pub includes : String → List String → Bool
includes a xs = any (λ x. x === a) xs

-- `set.add`, of a set that keeps the order of its values
abbrev pub add : String → List String → List String
add a set = if includes a set then set else set ++ (a ∷ [])

-- the loop over the mappings of a role
pub add_mapped : List String → List String → List String
add_mapped [] set = set
add_mapped (a ∷ mapped) set = add_mapped mapped (add a set)

-- the loop over the assignments
pub add_roles : List Role → List String → List String
unfolding add_mapped
add_roles [] set = set
add_roles (r ∷ roles) set = add_roles roles (add_mapped r.permissions set)

-- the roles of the assignments of a user
pub roles_of : Db → List (String × String) → String → List Role
roles_of db [] user = []
roles_of db ((u, id) ∷ rows) user =
    let rest = roles_of db rows user in
    if u === user
    then elim (find (λ r. r.id === id) db.roles) [ none ↦ rest | some r ↦ r ∷ rest ]
    else rest

-- `readDatabase`
pub read_database : Db → String → EffectiveAccess
unfolding roles_of add_roles
read_database db user =
    let roles = roles_of db db.user_roles user in
    record { roles = map (λ r. r.name) roles; permissions = add_roles roles [] }

abbrev pub same_entry : String × ℕ → String × ℕ → Bool
same_entry (a, m) (b, n) = a === b && nat_eq m n

pub same_entry_iff : (j k : String × ℕ) → (same_entry j k ≡ true) ↔ (j ≡ k)
same_entry_iff (a, m) (b, n) = ground (arith, string_key.same_iff a b)

-- `cacheKey`, which tells a user and a version from any other
instance abbrev pub entry_key : Key (String × ℕ)
entry_key = record { same = same_entry; same_iff = same_entry_iff }

abbrev pub Cache : Type 1
Cache = Table (String × ℕ) EffectiveAccess entry_key

-- Which commands of Redis are rejected: the seed of the marker, its read, and the read and the write
-- of the entry.
pub record Faults : Type 0 where
  pub seed : Bool
  pub version : Bool
  pub read : Bool
  pub write : Bool

-- what the guard reads of a route and its annotations
pub record Route : Type 0 where
  pub is_http : Bool
  pub is_public : Bool
  pub required_permissions : List String
  pub accepted_roles : List String

abbrev rejected : Thrown
rejected = other "redis"

abbrev forbidden : Thrown
forbidden = api_error 403 ErrorCode.forbidden "You do not have access to this resource." []

-- the two tests of `canActivate`
pub decide : Route → EffectiveAccess → Result (Unit {0})
decide route access =
    if is_empty (filter (λ p. not (includes p access.permissions)) route.required_permissions)
    then if not (is_empty route.accepted_roles)
        && not (any (λ r. includes r access.roles) route.accepted_roles)
      then err forbidden
      else ok tt
    else err forbidden

module _ (T : Cache) where
  pub record State : Type 0 where
    pub db : Db
    pub version : Option ℕ
    pub cache : T.State

  -- `ensureVersionKey`: SET NX with the clock
  abbrev pub ensure_version_key : Bool → ℕ → Exec State (Unit {0})
  ensure_version_key fails now =
      throw_if fails rejected >> modify (λ s. record s { version = some (or_else s.version now) })

  -- `readPermissionVersion`
  abbrev pub read_permission_version : Faults → ℕ → Exec State (Option ℕ)
  read_permission_version faults now = do
    ensure_version_key faults.seed now
    throw_if faults.version rejected
    gets (λ s. s.version)

  -- `currentVersion`
  pub current_version : Faults → ℕ → State → Option ℕ × State
  current_version faults now s =
      let (r, s') = read_permission_version faults now s in (elim r [ ok v ↦ v | err e ↦ none ], s')

  -- `readCache`
  abbrev pub read_cache : Bool → String → ℕ → State → Option EffectiveAccess
  read_cache fails user version s = if fails then none else T.lookup (user, version) s.cache

  -- `writeCache`
  abbrev pub write_cache : Bool → String → ℕ → EffectiveAccess → State → State
  write_cache fails user version access s =
      if fails then s else record s { cache = T.put (user, version) access s.cache }

  -- `resolve`
  pub resolve : Faults → ℕ → String → State → EffectiveAccess × State
  unfolding current_version read_database
  resolve faults now user s =
      let (version, s') = current_version faults now s in
      let access = read_database s'.db user in
      elim version [
        | none ↦ (access, s')
        | some v ↦ elim (read_cache faults.read user v s') [
          | some cached ↦ (cached, s')
          | none ↦ (access, write_cache faults.write user v access s')
        ]
      ]

  -- `invalidate`, with `advancePermissionVersion`; a failure is logged and dropped
  pub invalidate : Bool → Bool → ℕ → State → State
  invalidate seed_fails incr_fails now s =
      ((do
        ensure_version_key seed_fails now
        throw_if incr_fails rejected
        modify (λ t. record t { version = some (or_else t.version 0 + 1) }))
        s).1

  -- `principalOf`
  abbrev principal_of : Option String → Result String
  principal_of none = err (api_error 401 ErrorCode.unauthorized "Authentication required." [])
  principal_of (some id) = ok id

  -- `accessFor`, with the access that the request carries already
  abbrev access_for : Option EffectiveAccess → Faults → ℕ → String → Exec State EffectiveAccess
  access_for (some access) faults now user s = (ok access, s)
  access_for none faults now user s =
      let (access, s') = resolve faults now user s in (ok access, s')

  -- `canActivate`
  pub can_activate :
      Route → Option String → Option EffectiveAccess → Faults → ℕ → Exec State (Unit {0})
  unfolding decide resolve
  can_activate route principal carried faults now =
      if not route.is_http || route.is_public
      then pure tt
      else if is_empty route.required_permissions && is_empty route.accepted_roles
      then pure tt
      else do
        user ← lift (principal_of principal)
        access ← access_for carried faults now user
        lift (decide route access)
