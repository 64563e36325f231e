-- ===== src/Organizations/Members.antt =====
-- src/modules/organizations/organizations.service.ts. The two tables are searched in full; the
-- ids and times that the database gives to new rows are arguments, and so is the table of users, of
-- which the service asks only whether it has an id.
pub mod Owners
pub mod Access
mod Tests
use nestjs_enterprise_starte.Prelude.{
  is_some, ℕ, String, Bool, true, false, ◌&&◌, ◌||◌, not, Option, none, some, List, [], ◌∷◌, ◌===◌,
  string_key, find, leb, if◌then◌else◌, map, filter, or_else,
}
use nestjs_enterprise_starte.Common.Errors.{ErrorCode, Detail, Thrown, api_error}
use nestjs_enterprise_starte.Common.Exec.{
  ok, Exec, pure, throw, gets, or_throw, modify, throw_if, ◌>>=◌, ◌>>◌,
}
use nestjs_enterprise_starte.Common.Rows.{Rows, count_rows}

-- `OrganizationMemberRole`
pub data Role : Type 0 where
  owner admin member : Role

-- `OrganizationBillingMode`
pub data BillingMode : Type 0 where
  user_mode organization_mode : BillingMode

-- a row of `organizations`
pub record Organization : Type 0 where
  pub id : String
  pub name : String
  pub slug : String
  pub billing_mode : BillingMode

-- a row of `organization_members`
pub record Member : Type 0 where
  pub organization_id : String
  pub user_id : String
  pub role : Role
  pub created_at : ℕ

-- `MemberView`
pub record MemberView : Type 0 where
  pub user_id : String
  pub role : Role
  pub created_at : ℕ

abbrev pub is_owner : Role → Bool
is_owner Role.owner = true
is_owner _ = false

-- `MANAGER_ROLES.includes(role)`
abbrev pub is_manager : Role → Bool
is_manager Role.owner = true
is_manager Role.admin = true
is_manager Role.member = false

-- `organizationId_userId`
abbrev pub has_key : String → String → Member → Bool
has_key org user m = m.organization_id === org && m.user_id === user

-- the filter of the owner count
abbrev pub owns : String → Member → Bool
owns org m = m.organization_id === org && is_owner m.role

abbrev pub view_of : Member → MemberView
view_of m = record { user_id = m.user_id; role = m.role; created_at = m.created_at }

abbrev forbidden : String → Thrown
forbidden message = api_error 403 ErrorCode.forbidden message []

-- the row that `create` inserts; `billingMode` has the default `user`
abbrev pub new_organization : String → String → String → Organization
new_organization id name slug = record {
  id = id;
  name = name;
  slug = slug;
  billing_mode = BillingMode.user_mode;
}

module _ (O : Rows Organization) (M : Rows Member) (user_exists : String → Bool) where
  pub record State : Type 0 where
    pub organizations : O.State
    pub members : M.State

  -- `getMembership`
  unfoldable pub get_membership : String → String → State → Option Role
  get_membership org user s = elim (find (has_key org user) (M.rows s.members)) [
    | none ↦ none
    | some m ↦ some m.role
  ]

  -- `requireMembership`
  pub require_membership : String → String → Exec State Role
  unfolding get_membership
  require_membership org user = do
    role ← gets (get_membership org user)
    or_throw role (forbidden "You are not a member of this organization.")

  -- `requireManager`
  pub require_manager : String → String → Exec State Role
  unfolding require_membership
  require_manager org user = do
    role ← require_membership org user
    throw_if (not (is_manager role)) (forbidden "Only an owner or admin can manage members.")
    pure role

  -- `create`; a transaction whose two inserts do not fail
  pub create : String → ℕ → String → String → String → Exec State Organization
  create new_id now creator name slug = do
    taken ← gets (λ s. find (λ (o : Organization). o.slug === slug) (O.rows s.organizations))
    throw_if (is_some taken) (
        api_error 409 ErrorCode.conflict "An organization with this slug already exists."
          (("slug", Detail.text slug) ∷ []))
    let row = new_organization new_id name slug
    modify (λ s. record s { organizations = O.insert row s.organizations })
    modify (λ s. record s {
      members =
          M.insert
            (record {
              organization_id = new_id;
              user_id = creator;
              role = Role.owner;
              created_at = now;
            })
            s.members;
    })
    pure row

  -- `listMembers`, less the order by time
  pub list_members : String → String → Exec State (List MemberView)
  unfolding require_membership
  list_members actor org = do
    require_membership org actor
    gets (λ s. map view_of (filter (λ (m : Member). m.organization_id === org) (M.rows s.members)))

  -- the upsert of `addMember`
  pub upsert_member : ℕ → String → String → Role → Exec State MemberView
  upsert_member now org user role s = elim (find (has_key org user) (M.rows s.members)) [
    | some m ↦ (
      ok (view_of (record m { role = role })),
      record s {
        members = M.update (has_key org user) (λ (m : Member). record m { role = role }) s.members;
      },
    )
    | none ↦
        let m : Member = record {
          organization_id = org;
          user_id = user;
          role = role;
          created_at = now;
        } in
        (ok (view_of m), record s { members = M.insert m s.members })
  ]

  -- `addMember`
  pub add_member : ℕ → String → String → String → Option Role → Exec State MemberView
  unfolding require_manager upsert_member
  add_member now actor org user role? = do
    actor_role ← require_manager org actor
    let role = or_else role? Role.member
    throw_if (is_owner role && not (is_owner actor_role))
        (forbidden "Only an owner can grant the owner role.")
    throw_if (not (user_exists user))
        (api_error 404 ErrorCode.not_found "User not found." (("userId", Detail.text user) ∷ []))
    upsert_member now org user role

  -- `removeMember`
  pub remove_member : String → String → String → Exec State (Unit {0})
  unfolding require_manager get_membership
  remove_member actor org target = do
    actor_role ← require_manager org actor
    found ← gets (get_membership org target)
    role ← or_throw found (api_error 404 ErrorCode.not_found "Membership not found." [])
    throw_if (is_owner role && not (is_owner actor_role))
        (forbidden "Only an owner can remove an owner.")
    owners ← gets (λ s. count_rows (owns org) (M.rows s.members))
    throw_if (is_owner role && leb owners 1)
        (api_error 409 ErrorCode.conflict "An organization must keep at least one owner." [])
    modify (λ s. record s { members = M.delete (has_key org target) s.members })
