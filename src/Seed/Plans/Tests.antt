-- ===== src/Seed/Plans/Tests.antt =====
-- The declared packaging, seeded where an operator has renamed the plan Pro.
use nestjs_enterprise_starte.Prelude.{
  false, ◌≡◌, ◌∙◌, sym, arith, All, ◌===◌, Bool-cases, inl, inr, [], ◌∷◌, some, none, true, String,
  Bool, refl, string_key, pair_key,
}
use nestjs_enterprise_starte.Common.Table.{Table, rows_table, search_rows}
use nestjs_enterprise_starte.Common.Exec.{ok}
use nestjs_enterprise_starte.Common.Object.{get_key}
use nestjs_enterprise_starte.Plans.{Ceilings}
use nestjs_enterprise_starte.Seed.Plans.{get_key, StoredPlan, Packaging, plan_seeds, seed_plans}
use nestjs_enterprise_starte.Seed.Plans.Upserted.{id_of, IsSeeded}
use nestjs_enterprise_starte.Seed.Plans.Seeded.{seed_plans_packages}

abbrev plan_rows : Table String StoredPlan string_key
plan_rows = rows_table String StoredPlan string_key

abbrev switch_rows : Table (String × String) Bool pair_key
switch_rows = rows_table (String × String) Bool pair_key

abbrev ceiling_rows : Table (String × String) Ceilings pair_key
ceiling_rows = rows_table (String × String) Ceilings pair_key

abbrev slug_as_id : String → String
slug_as_id slug = slug

abbrev before : Packaging plan_rows switch_rows ceiling_rows slug_as_id
before = record {
  plans =
      ("pro", record { id = "pro"; name = "Gold"; description = none; rank = 7; is_active = true })
      ∷ [];
  entitlements = (("pro", "feature.advanced"), true) ∷ [];
  limits = [];
}

id_of_before :
    (slug : String) → id_of plan_rows switch_rows ceiling_rows slug_as_id slug before.plans ≡ slug
unfolding id_of search_rows
id_of_before slug = elim (Bool-cases ("pro" === slug)) [
  | inl same ↦ ground (arith, string_key.same_iff "pro" slug)
  | inr apart ↦ ground arith
]

seed_plans_packages_example :
    let (a, t) = seed_plans plan_rows switch_rows ceiling_rows slug_as_id plan_seeds before in
    (a ≡ ok tt)
    × All (IsSeeded plan_rows switch_rows ceiling_rows slug_as_id t) plan_seeds
    × ((slug : String)
        → id_of plan_rows switch_rows ceiling_rows slug_as_id slug t.plans
          ≡ id_of plan_rows switch_rows ceiling_rows slug_as_id slug before.plans)
unfolding get_key
seed_plans_packages_example =
    seed_plans_packages plan_rows switch_rows ceiling_rows slug_as_id plan_seeds before
      (
        ((refl, (refl, tt)), (refl, tt)),
        (((refl, (refl, tt)), (refl, tt)), (((refl, (refl, tt)), (refl, tt)), tt)),
      )
      ((refl, (refl, tt)), ((refl, tt), (tt, tt)))
      (λ j k same. sym (id_of_before j) ∙ same ∙ id_of_before k)

-- the plan keeps its id, and Lite stays without the advanced feature
seeded_rows :
    let t = (seed_plans plan_rows switch_rows ceiling_rows slug_as_id plan_seeds before).1 in
    (plan_rows.lookup "pro" t.plans
      ≡ some (record {
        id = "pro";
        name = "Pro";
        description = some "Paid tier with advanced features and higher ceilings";
        rank = 20;
        is_active = true;
      }))
    × (switch_rows.lookup ("lite", "feature.advanced") t.entitlements ≡ some false)
unfolding seed_plans search_rows get_key
seeded_rows = (refl, refl)
