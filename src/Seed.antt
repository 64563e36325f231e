-- ===== src/Seed.antt =====
-- The seed of roles and permissions: `seedAccessControl` of prisma/seed.ts, on the declarations of
-- src/modules/authorization/permissions.ts; Plans is the seed of plans, Whole calls both.
pub mod Plans
pub mod Settled
pub mod Baseline
pub mod Again
pub mod Through
pub mod Whole
mod Tests
use nestjs_enterprise_starte.Prelude.{
  [], some, none, ◌∷◌, Option, List, String, refl, string_key, pair_key,
}
use nestjs_enterprise_starte.Common.Table.{Table}
use nestjs_enterprise_starte.Common.Exec.{Exec, Result, ok, err}
use nestjs_enterprise_starte.Common.Errors.{other}

-- a row of `permissions` or of `roles`, whose key is unique
pub record Row : Type 0 where
  pub id : String
  pub description : String

-- the row that an upsert leaves; `new_id` is the id of a new one
pub upserted : (String → String) → String → String → Option Row → Row
upserted new_id key description none = record { id = new_id key; description = description }
upserted new_id key description (some row) = record row { description = description }

-- `describe` and `describe_role` are the descriptions of the declarations, `permissions_of` the
-- permissions of a baseline role.
module _ (P R : Table String Row string_key) (G : Table (String × String) (Unit {0}) pair_key)
    (new_id describe describe_role : String → String) (permissions_of : String → List String) where
  -- the three tables; a grant is keyed by the ids of the role and the permission
  pub record Access : Type 0 where
    pub permissions : P.State
    pub roles : R.State
    pub grants : G.State

  -- the upsert of a permission
  pub upsert_permission : String → P.State → P.State
  unfolding upserted
  upsert_permission key t = P.put key (upserted new_id key (describe key) (P.lookup key t)) t

  -- the upsert of a role, with its row
  pub upsert_role : String → R.State → Row × R.State
  unfolding upserted
  upsert_role name t =
      let row = upserted new_id name (describe_role name) (R.lookup name t) in
      (row, R.put name row t)

  -- the first loop
  pub seed_permissions : List String → P.State → P.State
  unfolding upsert_permission
  seed_permissions [] t = t
  seed_permissions (key ∷ keys) t = seed_permissions keys (upsert_permission key t)

  -- the upsert of a grant, which leaves one that exists
  pub upsert_grant : String × String → G.State → G.State
  upsert_grant grant t = elim (G.lookup grant t) [ none ↦ G.put grant tt t | some _ ↦ t ]

  -- the loop over the permissions of a role
  pub seed_grants : String → List String → Exec Access (Unit {0})
  unfolding upsert_grant
  seed_grants role_id [] s = (ok tt, s)
  seed_grants role_id (key ∷ keys) s =
      let rest = λ (id : String).
        seed_grants role_id keys (record s { grants = upsert_grant (role_id, id) s.grants }) in
      elim (P.lookup key s.permissions) [
        | none ↦ (err (other "No Permission found"), s)
        | some permission ↦ rest permission.id
      ]

  -- the loop over the roles
  pub seed_roles : List String → Exec Access (Unit {0})
  unfolding upsert_role seed_grants
  seed_roles [] s = (ok tt, s)
  seed_roles (name ∷ names) s =
      let (row, roles) = upsert_role name s.roles in
      let (a, t) = seed_grants row.id (permissions_of name) (record s { roles = roles }) in
      let rest = seed_roles names t in elim a [ ok _ ↦ rest | err e ↦ (err e, t) ]

  -- `seedAccessControl`
  pub seed_access : List String → List String → Exec Access (Unit {0})
  unfolding seed_permissions seed_roles
  seed_access keys names s =
      seed_roles names (record s { permissions = seed_permissions keys s.permissions })
