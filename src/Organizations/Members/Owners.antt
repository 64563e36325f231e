-- ===== src/Organizations/Members/Owners.antt =====
-- How many owners an organization has.
use mathlib.Core.Path.{subst}
use mathlib.Core.Bool.{false≢true}
use nestjs_enterprise_starte.Common.Exec.{error_code}
use nestjs_enterprise_starte.Common.Rows.{Rows, delete_rows, update_rows}
use nestjs_enterprise_starte.Organizations.Members.{
  get_membership, add_member, remove_member, State, Organization, Role, is_owner, owns, has_key,
  count_rows, Member,
}
use nestjs_enterprise_starte.Prelude.{
  ◌∙◌, sym, inr, inl, ◌===◌, Bool-cases, true, ◌≤◌, string_key, refl, ◌+◌, none, if◌then◌else◌,
  Bool, some, find, String, Option, ℕ, ◌≡◌, arith, List, [], ◌∷◌,
}

-- `@@unique([organizationId, userId])` of prisma/schema.prisma
abbrev pub UniqueKeys : List Member → Type 0
UniqueKeys [] = Unit
UniqueKeys (m ∷ rows) = (find (has_key m.organization_id m.user_id) rows ≡ none) × UniqueKeys rows

delete-absent :
    (p : Member → Bool) (rows : List Member) → find p rows ≡ none → delete_rows p rows ≡ rows
delete-absent p [] h = refl
delete-absent p (m ∷ rows) h = ground (arith, delete-absent p rows)

update-absent :
    (p : Member → Bool) (f : Member → Member) (rows : List Member)
    → find p rows ≡ none
    → update_rows p f rows ≡ rows
update-absent p f [] h = refl
update-absent p f (m ∷ rows) h = ground (arith, update-absent p f rows)

-- one for a row of an owner
abbrev owner_weight : Option Member → ℕ
owner_weight none = 0
owner_weight (some m) = if is_owner m.role then 1 else 0

count-delete :
    (o t : String) (rows : List Member)
    → UniqueKeys rows
    → count_rows (owns o) (delete_rows (has_key o t) rows) + owner_weight (find (has_key o t) rows)
      ≡ count_rows (owns o) rows
count-delete o t [] h = refl
count-delete o t (m ∷ rows) h = ground (
  arith,
  string_key.same_iff m.organization_id o,
  string_key.same_iff m.user_id t,
  count-delete o t rows h.1,
  delete-absent (has_key o t) rows,
)

-- A deletion under another organization removes no owner of this one.
count-delete_other :
    (o p t : String) (rows : List Member)
    → (p ≡ o → ⊥)
    → count_rows (owns o) (delete_rows (has_key p t) rows) ≡ count_rows (owns o) rows
count-delete_other o p t [] h = refl
count-delete_other o p t (m ∷ rows) h = ground (
  arith,
  string_key.same_iff m.organization_id o,
  string_key.same_iff m.organization_id p,
  count-delete_other o p t rows h,
)

-- Making the owner with a given key a plain member takes one owner away.
count-demote :
    (o t : String) (rows : List Member)
    → UniqueKeys rows
    → count_rows
          (owns o)
          (update_rows (has_key o t) (λ (m : Member). record m { role = Role.member }) rows)
        + owner_weight (find (has_key o t) rows)
      ≡ count_rows (owns o) rows
count-demote o t [] h = refl
count-demote o t (m ∷ rows) h = ground (
  arith,
  string_key.same_iff m.organization_id o,
  string_key.same_iff m.user_id t,
  count-demote o t rows h.1,
  update-absent (has_key o t) (λ (x : Member). record x { role = Role.member }) rows,
)

module _ (O : Rows Organization) (M : Rows Member) (user_exists : String → Bool) where
  -- the number of owners of an organization
  abbrev pub owner_count : String → State O M user_exists → ℕ
  owner_count o s = count_rows (owns o) (M.rows s.members)

  keeps_own :
      (actor org target : String) (s : State O M user_exists)
      → UniqueKeys (M.rows s.members)
      → 1 ≤ owner_count org s
      → 1 ≤ owner_count org (remove_member O M user_exists actor org target s).1
  unfolding remove_member get_membership
  keeps_own actor org target s unique has = ground (
    arith,
    M.rows-delete (has_key org target) s.members,
    count-delete org target (M.rows s.members) unique,
  )

  -- Removing a member, refused or not, leaves every organization that has an owner with one, as
  -- long as a user has at most one membership in an organization.
  pub remove_member_keeps_owner :
      (actor org target o : String) (s : State O M user_exists)
      → UniqueKeys (M.rows s.members)
      → 1 ≤ owner_count o s
      → 1 ≤ owner_count o (remove_member O M user_exists actor org target s).1
  unfolding remove_member
  remove_member_keeps_owner actor org target o s unique has = elim (Bool-cases (org === o)) [
    | inl same ↦
        subst
          (λ k.
            1 ≤ owner_count k s
            → 1 ≤ owner_count k (remove_member O M user_exists actor org target s).1)
          ((string_key.same_iff org o).0 same) (keeps_own actor org target s unique) has
    | inr differ ↦ ground (
      arith,
      M.rows-delete (has_key org target) s.members,
      count-delete_other o org target (M.rows s.members)
          (λ e. false≢true (sym differ ∙ (string_key.same_iff org o).1 e)),
    )
  ]

  -- `addMember` has no such guard: an admin of an organization may name one of its owners, with no
  -- role or the role of a member, and the owner is then a plain member, so that an organization
  -- with one owner is left with none.
  pub add_member_demotes_owner :
      (now : ℕ) (actor org target : String) (s : State O M user_exists)
      → UniqueKeys (M.rows s.members)
      → get_membership O M user_exists org actor s ≡ some Role.admin
      → get_membership O M user_exists org target s ≡ some Role.owner
      → user_exists target ≡ true
      → (error_code (add_member O M user_exists now actor org target none s).0 ≡ none)
        × (owner_count org (add_member O M user_exists now actor org target none s).1 + 1
            ≡ owner_count org s)
  unfolding add_member get_membership
  add_member_demotes_owner now actor org target s unique ha ht known = ground (
    arith,
    M.rows-update (has_key org target) (λ (m : Member). record m { role = Role.member }) s.members,
    count-demote org target (M.rows s.members) unique,
  )
