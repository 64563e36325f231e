-- ===== src/Organizations/Members/Tests.antt =====
-- An organization with one owner and one admin.
use nestjs_enterprise_starte.Organizations.Members.Access.{remove_member_access}
use nestjs_enterprise_starte.Common.Rows.{list_rows, Rows}
use nestjs_enterprise_starte.Common.Exec.{error_code}
use nestjs_enterprise_starte.Organizations.Members.{
  create, is_owner, require_manager, is_manager, ErrorCode, Member, add_member, Organization,
  get_membership, Role, State, remove_member,
}
use nestjs_enterprise_starte.Organizations.Members.Owners.{
  add_member_demotes_owner, remove_member_keeps_owner, owner_count, UniqueKeys,
}
use nestjs_enterprise_starte.Prelude.{
  ◌+◌, true, none, some, Bool, String, ◌≤◌, refl, arith, ◌≡◌, [], ◌∷◌,
}

abbrev organization_rows : Rows Organization
organization_rows = list_rows Organization

abbrev member_rows : Rows Member
member_rows = list_rows Member

abbrev everybody : String → Bool
everybody _ = true

abbrev row : String → Role → Member
row user role = record { organization_id = "acme"; user_id = user; role = role; created_at = 0 }

abbrev acme : State organization_rows member_rows everybody
acme = record { organizations = []; members = row "ann" Role.owner ∷ row "bob" Role.admin ∷ [] }

opened : Unit {0}
unfolding remove_member add_member get_membership require_manager create
opened = tt

acme-UniqueKeys : UniqueKeys acme.members
acme-UniqueKeys = (refl, (refl, tt))

-- The only owner cannot leave, an admin can be removed.
only_owner_stays :
    error_code (remove_member organization_rows member_rows everybody "ann" "acme" "ann" acme).0
    ≡ some ErrorCode.conflict
unfolding opened
only_owner_stays = refl

remove_member_keeps_owner_example :
    1
    ≤ owner_count organization_rows member_rows everybody "acme"
        (remove_member organization_rows member_rows everybody "ann" "acme" "bob" acme).1
remove_member_keeps_owner_example =
    remove_member_keeps_owner organization_rows member_rows everybody "ann" "acme" "bob" "acme" acme
      acme-UniqueKeys (omega arith)

add_member_demotes_owner_example :
    (error_code
        (add_member organization_rows member_rows everybody 9 "bob" "acme" "ann" none acme).0
      ≡ none)
    × (owner_count organization_rows member_rows everybody "acme"
            (add_member organization_rows member_rows everybody 9 "bob" "acme" "ann" none acme).1
          + 1
        ≡ owner_count organization_rows member_rows everybody "acme" acme)
unfolding opened
add_member_demotes_owner_example =
    add_member_demotes_owner organization_rows member_rows everybody 9 "bob" "acme" "ann" acme
      acme-UniqueKeys refl refl refl

remove_member_access_example :
    (a : Role) × (t : Role) × (get_membership organization_rows member_rows everybody "acme" "ann"
        acme
      ≡ some a)
    × (get_membership organization_rows member_rows everybody "acme" "bob" acme ≡ some t)
    × (is_manager a ≡ true)
    × ((is_owner t ≡ true) → (is_owner a ≡ true))
    × (get_membership organization_rows member_rows everybody "acme" "bob"
          (remove_member organization_rows member_rows everybody "ann" "acme" "bob" acme).1
        ≡ none)
unfolding opened
remove_member_access_example =
    remove_member_access organization_rows member_rows everybody "ann" "acme" "bob" acme refl
