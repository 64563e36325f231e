-- ===== src/Organizations/Members/Access.antt =====
-- Who may change the members of an organization, and what a refused change leaves.
use nestjs_enterprise_starte.Common.Exec.{err}
use nestjs_enterprise_starte.Organizations.Members.{
  has_key, is_owner, is_manager, get_membership, Role, ok, Thrown, remove_member, add_member, State,
  Member, Organization,
}
use nestjs_enterprise_starte.Common.Rows.{delete_rows, Rows}
use nestjs_enterprise_starte.Prelude.{
  refl, [], ◌∷◌, find, List, inr, inl, Option-cases, none, true, some, Option, Bool, String, ℕ, ◌≡◌,
  arith,
}

find-delete : (p : Member → Bool) (rows : List Member) → find p (delete_rows p rows) ≡ none
find-delete p [] = refl
find-delete p (m ∷ rows) = ground (arith, find-delete p rows)

module _ (O : Rows Organization) (M : Rows Member) (user_exists : String → Bool) where
  -- A member is removed only by an owner or admin of the organization, and an owner only by an
  -- owner; the member is gone from the organization afterwards.
  pub remove_member_access :
      (actor org target : String) (s : State O M user_exists)
      → (remove_member O M user_exists actor org target s).0 ≡ ok tt
      → (a : Role) × (t : Role) × (get_membership O M user_exists org actor s ≡ some a)
        × (get_membership O M user_exists org target s ≡ some t)
        × (is_manager a ≡ true)
        × ((is_owner t ≡ true) → (is_owner a ≡ true))
        × (get_membership O M user_exists org target
              (remove_member O M user_exists actor org target s).1
            ≡ none)
  unfolding remove_member get_membership
  remove_member_access actor org target s h =
      elim (Option-cases (get_membership O M user_exists org actor s)) [
        | inl stranger ↦ absurd (ground arith)
        | inr (a, ha) ↦ elim (Option-cases (get_membership O M user_exists org target s)) [
          | inl missing ↦ absurd (ground arith)
          | inr (t, ht) ↦ (
            a,
            t,
            ha,
            ht,
            ground arith,
            ground arith,
            ground (
              arith,
              M.rows-delete (has_key org target) s.members,
              find-delete (has_key org target) (M.rows s.members),
            ),
          )
        ]
      ]

  -- A call that throws leaves both tables as they were.
  pub remove_member_failure :
      (actor org target : String) (s : State O M user_exists) {e : Thrown}
      → (remove_member O M user_exists actor org target s).0 ≡ err e
      → (remove_member O M user_exists actor org target s).1 ≡ s
  unfolding remove_member
  remove_member_failure actor org target s {e} h = ground arith

  pub add_member_failure :
      (now : ℕ) (actor org user : String) (role : Option Role) (s : State O M user_exists)
      {e : Thrown}
      → (add_member O M user_exists now actor org user role s).0 ≡ err e
      → (add_member O M user_exists now actor org user role s).1 ≡ s
  unfolding add_member
  add_member_failure now actor org user role s {e} h = ground arith
