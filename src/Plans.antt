-- ===== src/Plans.antt =====
-- src/modules/plans/plan-resolution.service.ts and entitlements.ts. The rows of the tables are
-- arguments; times are in milliseconds.
pub mod Entitled
pub mod Guard
pub mod Matrix
mod Tests
use nestjs_enterprise_starte.Prelude.{
  ℕ, String, Bool, true, false, Option, none, some, List, [], ◌∷◌, map, find, ltb, leb, is_some,
  if◌then◌else◌,
}
use nestjs_enterprise_starte.Common.Object.{get_key, set_key}
use nestjs_enterprise_starte.Organizations.Subject.{BillingSubject}

-- `SubscriptionStatus`
pub data SubscriptionStatus : Type 0 where
  active past_due canceled : SubscriptionStatus

-- `BillingInterval`
pub data BillingInterval : Type 0 where
  monthly yearly : BillingInterval

-- `ENTITLEMENT_LIST`
abbrev pub entitlement_list : List String
entitlement_list = "feature.advanced" ∷ "feature.priority_support" ∷ []

-- `PLAN_SLUGS.LITE`
abbrev pub lite_slug : String
lite_slug = "lite"

-- `PlanUsageCeilings`
pub record Ceilings : Type 0 where
  pub daily : ℕ
  pub weekly : ℕ

-- a row of `plans` with its entitlements and usage limits
pub record PlanRow : Type 0 where
  pub id : String
  pub slug : String
  pub name : String
  pub rank : ℕ
  pub entitlements : List (String × Bool)
  pub usage_limits : List (String × Ceilings)

-- a row of `subscriptions`
pub record Subscription : Type 0 where
  pub id : String
  pub plan_id : String
  pub status : SubscriptionStatus
  pub interval : BillingInterval
  pub current_period_end : Option ℕ

-- `CachedPlanMatrix`
pub record PlanMatrix : Type 0 where
  pub id : String
  pub slug : String
  pub name : String
  pub rank : ℕ
  pub entitlements : List (String × Bool)
  pub usage_limits : List (String × Ceilings)

-- `EffectivePlan`
pub record EffectivePlan : Type 0 where
  pub plan_id : String
  pub slug : String
  pub name : String
  pub rank : ℕ
  pub from_subscription : Bool
  pub subscription_id : Option String
  pub status : Option SubscriptionStatus
  pub interval : Option BillingInterval
  pub current_period_end : Option ℕ
  pub entitlements : List (String × Bool)
  pub usage_limits : List (String × Ceilings)

-- `matricesById` and `matricesBySlug`
pub record Catalogue : Type 0 where
  pub by_id : List (String × PlanMatrix)
  pub by_slug : List (String × PlanMatrix)

-- `for (const row of rows) object[row.key] = row.value`
abbrev pub assign_all {ℓ} : {V : Type ℓ} → List (String × V) → List (String × V) → List (String × V)
assign_all [] fields = fields
assign_all ((k, v) ∷ rows) fields = assign_all rows (set_key k v fields)

-- every declared entitlement, off
abbrev pub all_off : List String → List (String × Bool)
all_off [] = []
all_off (k ∷ keys) = (k, false) ∷ all_off keys

-- the matrix that `reloadMatrices` caches for a plan
abbrev pub matrix_of : PlanRow → PlanMatrix
matrix_of plan = record {
  id = plan.id;
  slug = plan.slug;
  name = plan.name;
  rank = plan.rank;
  entitlements = assign_all plan.entitlements (all_off entitlement_list);
  usage_limits = assign_all plan.usage_limits [];
}

-- the loop of `reloadMatrices`
pub load_all : List PlanRow → Catalogue → Catalogue
load_all [] c = c
load_all (plan ∷ plans) c = load_all plans (record {
  by_id = set_key plan.id (matrix_of plan) c.by_id;
  by_slug = set_key plan.slug (matrix_of plan) c.by_slug;
})

-- `reloadMatrices`
pub reload_matrices : List PlanRow → Catalogue
unfolding load_all
reload_matrices plans = load_all plans (record { by_id = []; by_slug = [] })

-- `isEntitled`
unfoldable pub is_entitled : SubscriptionStatus → Option ℕ → ℕ → Bool
is_entitled SubscriptionStatus.active period_end now = true
is_entitled SubscriptionStatus.past_due period_end now = true
is_entitled SubscriptionStatus.canceled none now = false
is_entitled SubscriptionStatus.canceled (some period_end) now = ltb now period_end

-- `toEffective`
abbrev pub to_effective : PlanMatrix → Option Subscription → EffectivePlan
to_effective matrix none = record {
  plan_id = matrix.id;
  slug = matrix.slug;
  name = matrix.name;
  rank = matrix.rank;
  from_subscription = false;
  subscription_id = none;
  status = none;
  interval = none;
  current_period_end = none;
  entitlements = matrix.entitlements;
  usage_limits = matrix.usage_limits;
}
to_effective matrix (some s) = record {
  plan_id = matrix.id;
  slug = matrix.slug;
  name = matrix.name;
  rank = matrix.rank;
  from_subscription = true;
  subscription_id = some s.id;
  status = some s.status;
  interval = some s.interval;
  current_period_end = s.current_period_end;
  entitlements = matrix.entitlements;
  usage_limits = matrix.usage_limits;
}

-- the plan of `liteFallback` where the catalogue has no Lite
abbrev pub empty_lite : EffectivePlan
empty_lite = record {
  plan_id = "";
  slug = lite_slug;
  name = "Lite";
  rank = 10;
  from_subscription = false;
  subscription_id = none;
  status = none;
  interval = none;
  current_period_end = none;
  entitlements = all_off entitlement_list;
  usage_limits = [];
}

-- `liteFallback`
pub lite_fallback : Catalogue → EffectivePlan
lite_fallback c = elim (get_key lite_slug c.by_slug) [
  | none ↦ empty_lite
  | some lite ↦ to_effective lite none
]

-- `resolve`, on the subscriptions of the subject, the latest change first
unfoldable pub resolve : Catalogue → List Subscription → ℕ → EffectivePlan
unfolding is_entitled lite_fallback
resolve c subscriptions now =
    elim (find (λ (s : Subscription). is_entitled s.status s.current_period_end now)
      subscriptions) [
        | none ↦ lite_fallback c
        | some s ↦ elim (get_key s.plan_id c.by_id) [
          | none ↦ lite_fallback c
          | some matrix ↦ to_effective matrix (some s)
        ]
      ]

-- `hasEntitlement`
pub has_entitlement : EffectivePlan → String → Bool
has_entitlement plan key = elim (get_key key plan.entitlements) [ none ↦ false | some b ↦ b ]

-- `meetsMinimumPlan`
pub meets_minimum_plan : Catalogue → EffectivePlan → String → Bool
meets_minimum_plan c plan slug = elim (get_key slug c.by_slug) [
  | none ↦ false
  | some minimum ↦ leb minimum.rank plan.rank
]

-- `'day' | 'week'`
pub data Period : Type 0 where
  day week : Period

abbrev pub of_period : Period → Ceilings → ℕ
of_period Period.day c = c.daily
of_period Period.week c = c.weekly

-- `usageCeiling`, for a declared feature
unfoldable pub usage_ceiling : EffectivePlan → String → Period → Option ℕ
usage_ceiling plan feature period = elim (get_key feature plan.usage_limits) [
  | none ↦ none
  | some row ↦ some (of_period period row)
]
