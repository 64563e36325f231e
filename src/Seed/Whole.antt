-- ===== src/Seed/Whole.antt =====
-- The whole seed: `seed` and `invalidatePermissionCache` of prisma/seed.ts.
mod Tests
use mathlib.Core.Path.{subst⁻¹}
use nestjs_enterprise_starte.Authorization.Stale.{invalidate-version}
use nestjs_enterprise_starte.Prelude.{
  ◌≡◌, ◌===◌, ◌+◌, ◌&&◌, arith, All, ℕ, String, Bool, true, false, not, Option, none, some, or_else,
  List, refl, if◌then◌else◌, string_key, pair_key, Option-cases, Bool-cases, inl, inr,
}
use nestjs_enterprise_starte.Common.Table.{Table}
use nestjs_enterprise_starte.Common.Exec.{Exec, Result, ok, err}
use nestjs_enterprise_starte.Authorization
use nestjs_enterprise_starte.Authorization.{Cache, invalidate}
use nestjs_enterprise_starte.Plans.{Ceilings}
use nestjs_enterprise_starte.Seed.{Row, Access, seed_access}
use nestjs_enterprise_starte.Seed.Settled.{IsDeclared, IsBaseline}
use nestjs_enterprise_starte.Seed.Through.{AllKnown, seed_access_twice}
use nestjs_enterprise_starte.Seed.Plans.{PlanSeed, StoredPlan, Packaging, seed_plans}
use nestjs_enterprise_starte.Seed.Plans.Upserted.{IsComplete, HasOwnSlugs, HasOwnIds, IsSeeded}
use nestjs_enterprise_starte.Seed.Plans.Seeded.{seed_plans_packages}

-- `SEED_VERSION`
abbrev pub seed_version : String
seed_version = "3"

-- the environment of a seed: `REDIS_URL`, whether the connection is made, and which of the two
-- commands of `advancePermissionVersion` are rejected
pub record Surroundings : Type 0 where
  pub redis_url : Option String
  pub connects : Bool
  pub set_fails : Bool
  pub incr_fails : Bool

-- `invalidatePermissionCache`; what Redis throws is logged and dropped
pub invalidate_permission_cache :
    (T : Cache) → Surroundings → ℕ → Authorization.State T → Authorization.State T
invalidate_permission_cache T around now s =
    if or_else around.redis_url "" === ""
    then s
    else if around.connects
    then invalidate T around.set_fails around.incr_fails now s
    else s

-- every command is accepted
abbrev pub is_reached : Surroundings → Bool
is_reached around =
    not (or_else around.redis_url "" === "")
    && around.connects
    && not around.set_fails
    && not around.incr_fails

module _ (P R : Table String Row string_key) (G : Table (String × String) (Unit {0}) pair_key)
    (new_id describe describe_role : String → String) (permissions_of : String → List String)
    (N : Table String StoredPlan string_key) (E : Table (String × String) Bool pair_key)
    (L : Table (String × String) Ceilings pair_key) (new_plan_id : String → String)
    (S : Table String String string_key) (T : Cache) where
  -- `app_settings`, the tables of the two seeds, and what the running instances read
  pub record Site : Type 0 where
    pub settings : S.State
    pub access : Access P R G new_id describe describe_role permissions_of
    pub packaging : Packaging N E L new_plan_id
    pub running : Authorization.State T

  -- `seed`
  pub seed_database :
      Surroundings → ℕ → List String → List String → List PlanSeed → Exec Site (Unit {0})
  unfolding invalidate_permission_cache
  seed_database around now keys names ds s =
      let (a, access) =
        seed_access P R G new_id describe describe_role permissions_of keys names s.access in
      let s' : Site = record s {
        settings = S.put "seed_version" seed_version s.settings;
        access = access;
      } in
      let (b, packaging) = seed_plans N E L new_plan_id ds s'.packaging in
      let s'' : Site = record s' { packaging = packaging } in
      elim a [
        | err e ↦ (err e, s')
        | ok _ ↦ elim b [
          | err e ↦ (err e, s'')
          | ok _ ↦
              (ok tt, record s'' { running = invalidate_permission_cache T around now s''.running })
        ]
      ]

  -- what a seed leaves: how it ended, and its site
  abbrev pub IsProvisioned :
      Surroundings
      → ℕ
      → List String
      → List String
      → List PlanSeed
      → Site
      → Result (Unit {0}) × Site
      → Type 0
  IsProvisioned around now keys names ds s (a, t) =
      (a ≡ ok tt)
      × (S.lookup "seed_version" t.settings ≡ some seed_version)
      × All (IsDeclared P R G new_id describe describe_role permissions_of t.access.permissions)
          keys
      × All (IsBaseline P R G new_id describe describe_role permissions_of t.access) names
      × All (IsSeeded N E L new_plan_id t.packaging) ds
      × (or_else t.running.version now
          ≡ or_else s.running.version now + (if is_reached around then 1 else 0))

  invalidated :
      (around : Surroundings) (now : ℕ) (s : Authorization.State T)
      → or_else (invalidate_permission_cache T around now s).version now
        ≡ or_else s.version now + (if is_reached around then 1 else 0)
  unfolding invalidate_permission_cache
  invalidated around now s =
      ground (arith, invalidate-version T around.set_fails around.incr_fails now s)

  -- If every permission of a baseline role is declared, every definition of a plan has a value for
  -- each declared entitlement and feature, no two of them share a slug, and no two slugs have or get
  -- the same id of a plan, the whole seed goes through, whatever Redis does, and leaves the version of
  -- the seed, every declared permission with its description, every baseline role with its
  -- description and all of its permissions, and every plan with the declared columns, entitlements
  -- and limits; and the marker of the cached permissions, as an instance reads it, is one higher if
  -- the URL of Redis is set and no command is rejected, and the same otherwise.
  pub seed_provisions :
      (around : Surroundings) (now : ℕ) (keys names : List String) (ds : List PlanSeed) (s : Site)
      → AllKnown permissions_of keys names
      → All IsComplete ds
      → HasOwnSlugs ds
      → HasOwnIds N E L new_plan_id s.packaging.plans
      → IsProvisioned around now keys names ds s (seed_database around now keys names ds s)
  unfolding seed_database
  seed_provisions around now keys names ds s known complete slugs own =
      let (went, again, declared, baseline, same) =
        seed_access_twice P R G new_id describe describe_role permissions_of keys names s.access
          known in
      let (packed, seeded, ids) =
        seed_plans_packages N E L new_plan_id ds s.packaging complete slugs own in
      let site : Site = record {
        settings = S.put "seed_version" seed_version s.settings;
        access =
            (seed_access P R G new_id describe describe_role permissions_of keys names s.access).1;
        packaging = (seed_plans N E L new_plan_id ds s.packaging).1;
        running = invalidate_permission_cache T around now s.running;
      } in
      let step : seed_database around now keys names ds s ≡ (ok tt, site) =
        ground (arith, went, packed) in
      subst⁻¹ (IsProvisioned around now keys names ds s) step (
        refl,
        ground (arith, S.lookup-put "seed_version" "seed_version" seed_version s.settings),
        declared,
        baseline,
        seeded,
        invalidated around now s.running,
      )
