-- ===== src/Plans/Tests.antt =====
-- A catalogue with Lite and Pro, and a subscription that ends.
use nestjs_enterprise_starte.Plans.Guard.{Route, can_activate, check_plan, admitted_only_if_granted}
use nestjs_enterprise_starte.Common.Object.{get_key, set_key}
use nestjs_enterprise_starte.Plans.Entitled.{LiteGrant, PaidGrant}
use nestjs_enterprise_starte.Plans.{
  is_entitled, lite_fallback, BillingInterval, meets_minimum_plan, SubscriptionStatus, Period,
  PlanRow, load_all, reload_matrices, Subscription, resolve, has_entitlement, usage_ceiling,
}
use nestjs_enterprise_starte.Prelude.{
  inl, false, some, true, ◌∷◌, ◌≡◌, [], ◌⊎◌, Any, List, String, refl,
}

abbrev advanced : String
advanced = "feature.advanced"

abbrev plan_rows : List PlanRow
plan_rows =
    record {
      id = "p1";
      slug = "lite";
      name = "Lite";
      rank = 10;
      entitlements = [];
      usage_limits = [];
    }
    ∷ record {
      id = "p2";
      slug = "pro";
      name = "Pro";
      rank = 20;
      entitlements = (advanced, true) ∷ [];
      usage_limits = ("demo", record { daily = 5; weekly = 9 }) ∷ [];
    }
    ∷ []

abbrev leaving : List Subscription
leaving =
    record {
      id = "s1";
      plan_id = "p2";
      status = SubscriptionStatus.canceled;
      interval = BillingInterval.monthly;
      current_period_end = some 1000;
    }
    ∷ []

opened : Unit {0}
unfolding resolve load_all has_entitlement usage_ceiling meets_minimum_plan get_key set_key
    is_entitled lite_fallback reload_matrices can_activate check_plan
opened = tt

-- Pro until the period ends, then Lite.
paid_until_end :
    (has_entitlement (resolve (reload_matrices plan_rows) leaving 999) advanced ≡ true)
    × (has_entitlement (resolve (reload_matrices plan_rows) leaving 1000) advanced ≡ false)
unfolding opened
paid_until_end = (refl, refl)

pro_ceiling :
    usage_ceiling (resolve (reload_matrices plan_rows) leaving 5) "demo" Period.week ≡ some 9
unfolding opened
pro_ceiling = refl

abbrev priority_route : Route
priority_route = record {
  is_http = true;
  is_public = false;
  required_entitlements = advanced ∷ [];
  required_plan = some "pro";
}

abbrev subscriptions : String → List Subscription
subscriptions _ = leaving

admitted_only_if_granted_example :
    Any (PaidGrant plan_rows 999 advanced) leaving ⊎ Any (LiteGrant advanced) plan_rows
unfolding opened
admitted_only_if_granted_example =
    admitted_only_if_granted plan_rows subscriptions 999 priority_route "ann" advanced refl refl
      refl (inl refl)
