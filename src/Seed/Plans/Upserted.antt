-- ===== src/Seed/Plans/Upserted.antt =====
-- What the upsert of one plan establishes and keeps.
use mathlib.Core.Path.{subst, subst⁻¹}
use nestjs_enterprise_starte.Prelude.{
  ◌≡◌, ◌∙◌, sym, ◌===◌, ===_refl, arith, All, Bool-cases, Option-cases, inl, inr, String, Bool,
  false, Option, none, some, List, [], ◌∷◌, string_key, pair_key,
}
use nestjs_enterprise_starte.Common.Table.{Table}
use nestjs_enterprise_starte.Common.Exec.{ok}
use nestjs_enterprise_starte.Plans.{Ceilings, entitlement_list}
use nestjs_enterprise_starte.Usage.{usage_feature_list}
use nestjs_enterprise_starte.Seed.Plans.Values.{
  HasAll, first_missing-none, HasValues, upsert_values_sets, upsert_values-HasValues,
}
use nestjs_enterprise_starte.Seed.Plans.{
  PlanSeed, StoredPlan, Packaging, check_seed, upserted_plan, upsert_values, upsert_plan,
}

-- a definition covers the declared entitlements and features
abbrev pub IsComplete : PlanSeed → Type 0
IsComplete d = HasAll entitlement_list d.entitlements × HasAll usage_feature_list d.usage_limits

-- none of the definitions has the slug
abbrev pub IsAbsent : String → List PlanSeed → Type 0
IsAbsent slug ds = All (λ d. (slug === d.slug) ≡ false) ds

-- no two definitions share a slug
abbrev pub HasOwnSlugs : List PlanSeed → Type 0
HasOwnSlugs [] = Unit
HasOwnSlugs (d ∷ ds) = IsAbsent d.slug ds × HasOwnSlugs ds

pub check_seed-ok : (d : PlanSeed) → IsComplete d → check_seed d ≡ ok tt
unfolding check_seed
check_seed-ok d (entitled, limited) = ground (
  arith,
  first_missing-none entitlement_list d.entitlements entitled,
  first_missing-none usage_feature_list d.usage_limits limited,
)

module _ (N : Table String StoredPlan string_key) (E : Table (String × String) Bool pair_key)
    (L : Table (String × String) Ceilings pair_key) (new_id : String → String) where
  abbrev State : Type 0
  State = Packaging N E L new_id

  -- the id that the plan of a slug has, or gets from a seed
  unfoldable pub id_of : String → N.State → String
  id_of slug t = elim (N.lookup slug t) [ some row ↦ row.id | none ↦ new_id slug ]

  -- the ids of plans are a primary key
  abbrev pub HasOwnIds : N.State → Type 0
  HasOwnIds t = (j k : String) → id_of j t ≡ id_of k t → j ≡ k

  -- the plan of a definition, with its columns, its entitlements and its limits
  abbrev pub IsSeeded : State → PlanSeed → Type 0
  IsSeeded s d =
      let id = id_of d.slug s.plans in
      (N.lookup d.slug s.plans
        ≡ some (record {
          id = id;
          name = d.name;
          description = some d.description;
          rank = d.rank;
          is_active = d.is_active;
        }))
      × HasValues E s.entitlements id entitlement_list d.entitlements
      × HasValues L s.limits id usage_feature_list d.usage_limits

  pub upsert_plan-id_of :
      (d : PlanSeed) (s : State) (slug : String)
      → id_of slug (upsert_plan N E L new_id d s).plans ≡ id_of slug s.plans
  unfolding id_of upsert_plan upserted_plan
  upsert_plan-id_of d s slug = elim (Bool-cases (d.slug === slug)) [
    | inr apart ↦
        ground (
          arith,
          N.lookup-put d.slug slug (upserted_plan new_id d (N.lookup d.slug s.plans)) s.plans,
        )
    | inl same ↦
        let e : d.slug ≡ slug = (string_key.same_iff d.slug slug).0 same in
        elim (Option-cases (N.lookup d.slug s.plans)) [
          | inl fresh ↦ ground (
            arith,
            e,
            N.lookup-put d.slug slug (upserted_plan new_id d (N.lookup d.slug s.plans)) s.plans,
          )
          | inr (row, found) ↦ ground (
            arith,
            e,
            N.lookup-put d.slug slug (upserted_plan new_id d (N.lookup d.slug s.plans)) s.plans,
          )
        ]
  ]

  upserted_plan-id :
      (d : PlanSeed) (t : N.State)
      → (upserted_plan new_id d (N.lookup d.slug t)).id ≡ id_of d.slug t
  unfolding id_of upserted_plan
  upserted_plan-id d t = elim (Option-cases (N.lookup d.slug t)) [
    | inl fresh ↦ ground arith
    | inr (row, found) ↦ ground arith
  ]

  upserted_plan-columns :
      (d : PlanSeed) (found : Option StoredPlan) {id : String}
      → (upserted_plan new_id d found).id ≡ id
      → upserted_plan new_id d found ≡ record {
        id = id;
        name = d.name;
        description = some d.description;
        rank = d.rank;
        is_active = d.is_active;
      }
  unfolding upserted_plan
  upserted_plan-columns d none same = ground arith
  upserted_plan-columns d (some row) same = ground arith

  pub upsert_plan-IsSeeded :
      (d : PlanSeed) (s : State) → IsComplete d → IsSeeded (upsert_plan N E L new_id d s) d
  unfolding upsert_plan
  upsert_plan-IsSeeded d s (entitled, limited) =
      let row = upserted_plan new_id d (N.lookup d.slug s.plans) in
      let same : row.id ≡ id_of d.slug (N.put d.slug row s.plans) =
        upserted_plan-id d s.plans ∙ sym (upsert_plan-id_of d s d.slug) in
      (
        ground (
          arith,
          N.lookup-put d.slug d.slug row s.plans,
          ===_refl d.slug,
          upserted_plan-columns d (N.lookup d.slug s.plans) same,
        ),
        subst
            (λ id.
              HasValues E (upsert_values E row.id entitlement_list d.entitlements s.entitlements) id
                entitlement_list d.entitlements)
            same
            (upsert_values_sets E row.id entitlement_list d.entitlements s.entitlements entitled),
        subst
            (λ id.
              HasValues L (upsert_values L row.id usage_feature_list d.usage_limits s.limits) id
                usage_feature_list d.usage_limits)
            same (upsert_values_sets L row.id usage_feature_list d.usage_limits s.limits limited),
      )

  pub upsert_plan_elsewhere :
      (d other : PlanSeed) (s : State)
      → HasOwnIds s.plans
      → (d.slug === other.slug) ≡ false
      → IsSeeded s other
      → IsSeeded (upsert_plan N E L new_id d s) other
  unfolding upsert_plan
  upsert_plan_elsewhere d other s own apart (row, entitled, limited) =
      let mine = upserted_plan new_id d (N.lookup d.slug s.plans) in
      let same = upsert_plan-id_of d s other.slug in
      let distinct : (mine.id === id_of other.slug s.plans) ≡ false =
        elim (Bool-cases (mine.id === id_of other.slug s.plans)) [
          | inr far ↦ far
          | inl near ↦ absurd (
              ground (
                arith,
                own d.slug other.slug (
                    sym (upserted_plan-id d s.plans)
                    ∙ (string_key.same_iff mine.id (id_of other.slug s.plans)).0 near),
                ===_refl other.slug,
              ))
        ] in
      (
        ground (arith, N.lookup-put d.slug other.slug mine s.plans, same),
        subst⁻¹
            (λ id.
              HasValues E (upsert_values E mine.id entitlement_list d.entitlements s.entitlements)
                id entitlement_list other.entitlements)
            same
            (upsert_values-HasValues E mine.id (id_of other.slug s.plans) entitlement_list
              entitlement_list d.entitlements other.entitlements s.entitlements distinct entitled),
        subst⁻¹
            (λ id.
              HasValues L (upsert_values L mine.id usage_feature_list d.usage_limits s.limits) id
                usage_feature_list other.usage_limits)
            same
            (upsert_values-HasValues L mine.id (id_of other.slug s.plans) usage_feature_list
              usage_feature_list d.usage_limits other.usage_limits s.limits distinct limited),
      )

  pub upsert_plan-HasOwnIds :
      (d : PlanSeed) (s : State)
      → HasOwnIds s.plans
      → HasOwnIds (upsert_plan N E L new_id d s).plans
  upsert_plan-HasOwnIds d s own j k same =
      own j k (sym (upsert_plan-id_of d s j) ∙ same ∙ upsert_plan-id_of d s k)
