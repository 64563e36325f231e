-- ===== src/FeatureFlags/Tests.antt =====
-- Billing of organizations, switched on for a user and off for an organization.
use nestjs_enterprise_starte.Common.Exec.{ok}
use nestjs_enterprise_starte.FeatureFlags.Scopes.{flag_value-clear_override, user_scope, OneScope}
use nestjs_enterprise_starte.Common.Rows.{list_rows, Rows}
use nestjs_enterprise_starte.FeatureFlags.{
  set_override, Override, org_billing, clear_override, FlagContext, is_enabled,
}
use nestjs_enterprise_starte.Prelude.{
  [], false, ◌∷◌, none, inl, Bool, inr, ◌≡◌, true, Option, some, List, String, All, refl,
}

abbrev table : Rows Override
table = list_rows Override

abbrev env_on : String → Option Bool
env_on _ = some true

abbrev switches : List Override
switches =
    record {
      id = "1";
      flag_key = org_billing;
      enabled = true;
      user_id = some "ann";
      organization_id = none;
    }
    ∷ record {
      id = "2";
      flag_key = org_billing;
      enabled = false;
      user_id = none;
      organization_id = some "acme";
    }
    ∷ []

abbrev in_acme : FlagContext
in_acme = record { user_id = some "ann"; organization_id = some "acme" }

opened : Unit {0}
unfolding clear_override set_override is_enabled
opened = tt

-- The row of the user comes first.
user_first : (is_enabled table env_on org_billing in_acme switches).0 ≡ ok true
unfolding opened
user_first = refl

each-OneScope : All OneScope switches
each-OneScope = (inr refl, (inl refl, tt))

flag_value-clear_override_example :
    (is_enabled table env_on org_billing in_acme
      (clear_override table env_on org_billing (user_scope "ann") switches).1).0
    ≡ (is_enabled table env_on org_billing
        (record { user_id = none; organization_id = some "acme" })
        switches).0
unfolding opened
flag_value-clear_override_example =
    flag_value-clear_override table env_on org_billing "ann" (some "acme") switches each-OneScope
      refl
