-- ===== src/Seed/Whole/Tests.antt =====
-- The declared packaging and one role, seeded into an empty database with Redis at hand.
use nestjs_enterprise_starte.Prelude.{
  ◌≡◌, ◌∙◌, sym, [], ◌∷◌, some, false, true, ℕ, List, String, Bool, refl, string_key, pair_key,
}
use nestjs_enterprise_starte.Common.Object.{get_key}
use nestjs_enterprise_starte.Common.Table.{Table, rows_table, search_rows}
use nestjs_enterprise_starte.Authorization.{Cache, EffectiveAccess, entry_key}
use nestjs_enterprise_starte.Plans.{Ceilings}
use nestjs_enterprise_starte.Seed.{Row}
use nestjs_enterprise_starte.Seed.Plans.{StoredPlan, plan_seeds}
use nestjs_enterprise_starte.Seed.Plans.Upserted.{id_of}
use nestjs_enterprise_starte.Seed.Whole.{
  Surroundings, Site, IsProvisioned, seed_database, seed_provisions,
}

abbrev described_rows : Table String Row string_key
described_rows = rows_table String Row string_key

abbrev grant_rows : Table (String × String) (Unit {0}) pair_key
grant_rows = rows_table (String × String) (Unit {0}) pair_key

abbrev plan_rows : Table String StoredPlan string_key
plan_rows = rows_table String StoredPlan string_key

abbrev switch_rows : Table (String × String) Bool pair_key
switch_rows = rows_table (String × String) Bool pair_key

abbrev ceiling_rows : Table (String × String) Ceilings pair_key
ceiling_rows = rows_table (String × String) Ceilings pair_key

abbrev setting_rows : Table String String string_key
setting_rows = rows_table String String string_key

abbrev cache_rows : Cache
cache_rows = rows_table (String × ℕ) EffectiveAccess entry_key

abbrev same_text : String → String
same_text text = text

abbrev both_permissions : String → List String
both_permissions name = "account:read" ∷ "user:read" ∷ []

abbrev before :
    Site described_rows described_rows grant_rows same_text same_text same_text both_permissions
      plan_rows switch_rows ceiling_rows same_text setting_rows cache_rows
before = record {
  settings = [];
  access = record { permissions = []; roles = []; grants = [] };
  packaging = record { plans = []; entitlements = []; limits = [] };
  running = record { db = record { user_roles = []; roles = [] }; version = some 41; cache = [] };
}

abbrev reached : Surroundings
reached = record {
  redis_url = some "redis://localhost";
  connects = true;
  set_fails = false;
  incr_fails = false;
}

no_plans : (slug : String) → id_of plan_rows switch_rows ceiling_rows same_text slug [] ≡ slug
unfolding id_of search_rows
no_plans slug = refl

seed_provisions_example :
    IsProvisioned described_rows described_rows grant_rows same_text same_text same_text
      both_permissions plan_rows switch_rows ceiling_rows same_text setting_rows cache_rows reached
      100
      ("account:read" ∷ "user:read" ∷ [])
      ("admin" ∷ [])
      plan_seeds
      before
      (seed_database described_rows described_rows grant_rows same_text same_text same_text
        both_permissions plan_rows switch_rows ceiling_rows same_text setting_rows cache_rows
        reached 100
        ("account:read" ∷ "user:read" ∷ [])
        ("admin" ∷ [])
        plan_seeds
        before)
unfolding get_key
seed_provisions_example =
    seed_provisions described_rows described_rows grant_rows same_text same_text same_text
      both_permissions plan_rows switch_rows ceiling_rows same_text setting_rows cache_rows reached
      100 ("account:read" ∷ "user:read" ∷ []) ("admin" ∷ []) plan_seeds before
      ((refl, (refl, tt)), tt)
      (
        ((refl, (refl, tt)), (refl, tt)),
        (((refl, (refl, tt)), (refl, tt)), (((refl, (refl, tt)), (refl, tt)), tt)),
      )
      ((refl, (refl, tt)), ((refl, tt), (tt, tt)))
      (λ j k same. sym (no_plans j) ∙ same ∙ no_plans k)
