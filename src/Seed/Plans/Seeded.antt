-- ===== src/Seed/Plans/Seeded.antt =====
-- What a seed of plans establishes.
use mathlib.Core.Path.{subst⁻¹}
use nestjs_enterprise_starte.Prelude.{
  ◌≡◌, ◌===◌, arith, All, inl, inr, String, Bool, false, List, [], ◌∷◌, refl, string_key, pair_key,
}
use nestjs_enterprise_starte.Common.Table.{Table}
use nestjs_enterprise_starte.Common.Exec.{ok, err, Result-cases}
use nestjs_enterprise_starte.Common.Errors.{Thrown}
use nestjs_enterprise_starte.Plans.{Ceilings}
use nestjs_enterprise_starte.Seed.Plans.Upserted.{
  IsComplete, IsAbsent, HasOwnSlugs, check_seed-ok, id_of, HasOwnIds, IsSeeded, upsert_plan-id_of,
  upsert_plan-IsSeeded, upsert_plan_elsewhere, upsert_plan-HasOwnIds,
}
use nestjs_enterprise_starte.Seed.Plans.{
  PlanSeed, StoredPlan, Packaging, check_seed, upsert_plan, seed_plans,
}

module _ (N : Table String StoredPlan string_key) (E : Table (String × String) Bool pair_key)
    (L : Table (String × String) Ceilings pair_key) (new_id : String → String) where
  abbrev State : Type 0
  State = Packaging N E L new_id

  seed_plans_passed :
      (d : PlanSeed) (ds : List PlanSeed) (s : State) {u : Unit {0}}
      → check_seed d ≡ ok u
      → seed_plans N E L new_id (d ∷ ds) s
        ≡ seed_plans N E L new_id ds (upsert_plan N E L new_id d s)
  unfolding seed_plans
  seed_plans_passed d ds s passed = ground arith

  seed_plans_refused :
      (d : PlanSeed) (ds : List PlanSeed) (s : State) {e : Thrown}
      → check_seed d ≡ err e
      → seed_plans N E L new_id (d ∷ ds) s ≡ (err e, s)
  unfolding seed_plans
  seed_plans_refused d ds s refused = ground arith

  seed_plans-id_of :
      (ds : List PlanSeed) (s : State) (slug : String)
      → id_of N E L new_id slug (seed_plans N E L new_id ds s).1.plans
        ≡ id_of N E L new_id slug s.plans
  unfolding seed_plans
  seed_plans-id_of [] s slug = refl
  seed_plans-id_of (d ∷ ds) s slug = elim (Result-cases (check_seed d)) [
    | inl (e, refused) ↦ ground arith
    | inr (u, passed) ↦ ground (
      arith,
      upsert_plan-id_of N E L new_id d s slug,
      seed_plans-id_of ds (upsert_plan N E L new_id d s) slug,
    )
  ]

  seed_plans_elsewhere :
      (ds : List PlanSeed) (other : PlanSeed) (s : State)
      → HasOwnIds N E L new_id s.plans
      → IsAbsent other.slug ds
      → IsSeeded N E L new_id s other
      → IsSeeded N E L new_id (seed_plans N E L new_id ds s).1 other
  unfolding seed_plans
  seed_plans_elsewhere [] other s own absent h = h
  seed_plans_elsewhere (d ∷ ds) other s own (first, absent) h = elim (Result-cases (check_seed d)) [
    | inl (e, refused) ↦
        subst⁻¹ (λ x. IsSeeded N E L new_id x.1 other) (seed_plans_refused d ds s refused) h
    | inr (u, passed) ↦
        let s' = upsert_plan N E L new_id d s in
        let apart : (d.slug === other.slug) ≡ false =
          ground
            (arith, string_key.same_iff d.slug other.slug, string_key.same_iff other.slug d.slug) in
        let kept =
          seed_plans_elsewhere ds other s' (upsert_plan-HasOwnIds N E L new_id d s own) absent
            (upsert_plan_elsewhere N E L new_id d other s own apart h) in
        subst⁻¹ (λ x. IsSeeded N E L new_id x.1 other) (seed_plans_passed d ds s passed) kept
  ]

  seed_plans-IsSeeded :
      (ds : List PlanSeed) (s : State)
      → All IsComplete ds
      → HasOwnSlugs ds
      → HasOwnIds N E L new_id s.plans
      → let (a, t) = seed_plans N E L new_id ds s in (a ≡ ok tt) × All (IsSeeded N E L new_id t) ds
  unfolding seed_plans
  seed_plans-IsSeeded [] s complete slugs own = (refl, tt)
  seed_plans-IsSeeded (d ∷ ds) s (first, complete) (absent, slugs) own =
      let s' = upsert_plan N E L new_id d s in
      let own' = upsert_plan-HasOwnIds N E L new_id d s own in
      let (went, all) = seed_plans-IsSeeded ds s' complete slugs own' in
      let made =
        seed_plans_elsewhere ds d s' own' absent (upsert_plan-IsSeeded N E L new_id d s first) in
      subst⁻¹ (λ x. (x.0 ≡ ok tt) × All (IsSeeded N E L new_id x.1) (d ∷ ds))
        (seed_plans_passed d ds s (check_seed-ok d first)) (went, (made, all))

  -- If every definition has a value for each declared entitlement and feature, no two share a slug,
  -- and no two plans have or get the same id, a seed of plans goes through, and leaves every
  -- definition with its plan, whose columns, entitlements and limits are the declared ones, and
  -- every plan with the id that it had.
  pub seed_plans_packages :
      (ds : List PlanSeed) (s : State)
      → All IsComplete ds
      → HasOwnSlugs ds
      → HasOwnIds N E L new_id s.plans
      → let (a, t) = seed_plans N E L new_id ds s in
        (a ≡ ok tt)
        × All (IsSeeded N E L new_id t) ds
        × ((slug : String) → id_of N E L new_id slug t.plans ≡ id_of N E L new_id slug s.plans)
  seed_plans_packages ds s complete slugs own =
      let (went, all) = seed_plans-IsSeeded ds s complete slugs own in
      (went, all, seed_plans-id_of ds s)
