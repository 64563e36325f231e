-- ===== src/Seed/Plans.antt =====
-- The seed of the plans: `seedPlans` of prisma/seed.ts, on the packaging that
-- src/modules/plans/plan-seeds.ts declares.
pub mod Values
pub mod Upserted
pub mod Seeded
mod Tests
use nestjs_enterprise_starte.Prelude.{
  ℕ, String, Bool, true, false, Option, none, some, List, [], ◌∷◌, refl, string_key, pair_key,
}
use nestjs_enterprise_starte.Common.Object.{get_key}
use nestjs_enterprise_starte.Common.Table.{Table}
use nestjs_enterprise_starte.Common.Exec.{Exec, Result, ok, err}
use nestjs_enterprise_starte.Common.Errors.{other}
use nestjs_enterprise_starte.Plans.{Ceilings, entitlement_list, lite_slug}
use nestjs_enterprise_starte.Usage.{usage_feature_list}
use Prim.Native.String.{◌++◌ as ◌⊕◌}

-- `PlanSeedDefinition`
pub record PlanSeed : Type 0 where
  pub slug : String
  pub name : String
  pub description : String
  pub rank : ℕ
  pub is_active : Bool
  pub entitlements : List (String × Bool)
  pub usage_limits : List (String × Ceilings)

-- `PLAN_SEEDS`
abbrev pub plan_seeds : List PlanSeed
plan_seeds =
    record {
      slug = lite_slug;
      name = "Lite";
      description = "Default starter tier for new accounts";
      rank = 10;
      is_active = true;
      entitlements = ("feature.advanced", false) ∷ ("feature.priority_support", false) ∷ [];
      usage_limits = ("demo", record { daily = 100; weekly = 500 }) ∷ [];
    }
    ∷ record {
      slug = "pro";
      name = "Pro";
      description = "Paid tier with advanced features and higher ceilings";
      rank = 20;
      is_active = true;
      entitlements = ("feature.advanced", true) ∷ ("feature.priority_support", false) ∷ [];
      usage_limits = ("demo", record { daily = 1_000; weekly = 5_000 }) ∷ [];
    }
    ∷ record {
      slug = "enterprise";
      name = "Enterprise";
      description = "Optional highest tier; forks may deactivate to hide it";
      rank = 30;
      is_active = true;
      entitlements = ("feature.advanced", true) ∷ ("feature.priority_support", true) ∷ [];
      usage_limits = ("demo", record { daily = 100_000; weekly = 500_000 }) ∷ [];
    }
    ∷ []

-- the columns of a row of `plans` that a seed writes, and its id
pub record StoredPlan : Type 0 where
  pub id : String
  pub name : String
  pub description : Option String
  pub rank : ℕ
  pub is_active : Bool

-- the loops that look for a key that a definition leaves out
pub first_missing : {V : Type 0} → List String → List (String × V) → Option String
first_missing [] fields = none
first_missing (key ∷ keys) fields =
    let rest = first_missing keys fields in
    elim (get_key key fields) [ none ↦ some key | some _ ↦ rest ]

-- the checks of a definition
pub check_seed : PlanSeed → Result (Unit {0})
unfolding first_missing
check_seed d = elim (first_missing entitlement_list d.entitlements) [
  | some key ↦ err (other ("Plan seed \"" ⊕ d.slug ⊕ "\" is missing entitlement \"" ⊕ key ⊕ "\"."))
  | none ↦ elim (first_missing usage_feature_list d.usage_limits) [
    | some feature ↦
        err
          (other ("Plan seed \"" ⊕ d.slug ⊕ "\" is missing usage limits for \"" ⊕ feature ⊕ "\"."))
    | none ↦ ok tt
  ]
]

-- the row that the upsert of a plan leaves; `new_id` is the id of a new one
pub upserted_plan : (String → String) → PlanSeed → Option StoredPlan → StoredPlan
upserted_plan new_id d none = record {
  id = new_id d.slug;
  name = d.name;
  description = some d.description;
  rank = d.rank;
  is_active = d.is_active;
}
upserted_plan new_id d (some row) = record row {
  name = d.name;
  description = some d.description;
  rank = d.rank;
  is_active = d.is_active;
}

-- the loops that upsert the values of a plan, each under the id of the plan and its key; the
-- checks of the definition leave no key without a value
module _ {V : Type 0} (T : Table (String × String) V pair_key) where
  pub upsert_values : String → List String → List (String × V) → T.State → T.State
  upsert_values id [] fields t = t
  upsert_values id (key ∷ keys) fields t =
      upsert_values id keys fields
        (elim (get_key key fields) [ none ↦ t | some value ↦ T.put (id, key) value t ])

module _ (N : Table String StoredPlan string_key) (E : Table (String × String) Bool pair_key)
    (L : Table (String × String) Ceilings pair_key) (new_id : String → String) where
  -- the three tables; entitlements and limits are keyed by the id of the plan and their name
  pub record Packaging : Type 0 where
    pub plans : N.State
    pub entitlements : E.State
    pub limits : L.State

  -- the upserts of one plan
  pub upsert_plan : PlanSeed → Packaging → Packaging
  unfolding upserted_plan upsert_values
  upsert_plan d s =
      let row = upserted_plan new_id d (N.lookup d.slug s.plans) in
      record {
        plans = N.put d.slug row s.plans;
        entitlements = upsert_values E row.id entitlement_list d.entitlements s.entitlements;
        limits = upsert_values L row.id usage_feature_list d.usage_limits s.limits;
      }

  -- `seedPlans`
  pub seed_plans : List PlanSeed → Exec Packaging (Unit {0})
  unfolding check_seed upsert_plan
  seed_plans [] s = (ok tt, s)
  seed_plans (d ∷ ds) s =
      let rest = seed_plans ds (upsert_plan d s) in
      elim (check_seed d) [ ok _ ↦ rest | err e ↦ (err e, s) ]
