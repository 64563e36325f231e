-- ===== src/Organizations/Billing/Tests.antt =====
-- A member of an organization that bills itself.
use nestjs_enterprise_starte.Common.Exec.{ok}
use nestjs_enterprise_starte.Common.Rows.{list_rows, Rows}
use nestjs_enterprise_starte.Organizations.Billing.{
  billed_organization, BillingSubject, Organization, Member, billing_subject, bound_organization,
}
use nestjs_enterprise_starte.FeatureFlags.{org_billing, Override, flag_value, is_enabled}
use nestjs_enterprise_starte.Organizations.Members.{BillingMode, Role, State, get_membership}
use nestjs_enterprise_starte.Prelude.{
  string_key, true, ◌===◌, find, some, [], false, ◌≡◌, ◌∷◌, Option, Bool, none, String, refl,
}

abbrev organization_rows : Rows Organization
organization_rows = list_rows Organization

abbrev member_rows : Rows Member
member_rows = list_rows Member

abbrev flag_rows : Rows Override
flag_rows = list_rows Override

abbrev nobody : String → Bool
nobody _ = false

abbrev no_default : String → Option Bool
no_default _ = none

abbrev acme : State organization_rows member_rows nobody
acme = record {
  organizations =
      record {
        id = "acme";
        name = "Acme";
        slug = "acme";
        billing_mode = BillingMode.organization_mode;
      }
      ∷ [];
  members =
      record { organization_id = "acme"; user_id = "ann"; role = Role.member; created_at = 0 } ∷ [];
}

opened : Unit {0}
unfolding bound_organization billing_subject get_membership is_enabled flag_value
opened = tt

-- Without the header the user pays.
user_pays :
    billing_subject organization_rows member_rows nobody flag_rows no_default "ann" none none acme
      []
    ≡ ok (BillingSubject.user "ann")
unfolding opened
user_pays = refl

billed_organization_example :
    (role : Role) × (row : Organization) × (get_membership organization_rows member_rows nobody
        "acme" "ann" acme
      ≡ some role)
    × (find (λ (o : Organization). o.id === "acme") acme.organizations ≡ some row)
    × (row.billing_mode ≡ BillingMode.organization_mode)
    × ((is_enabled flag_rows no_default org_billing
          (record { user_id = some "ann"; organization_id = some "acme" })
          []).0
        ≡ ok true)
unfolding opened
billed_organization_example =
    billed_organization organization_rows member_rows nobody flag_rows no_default true false
      (some "acme") (some "acme") "ann" "acme" acme [] refl refl
