-- ===== src/Plans/Entitled.antt =====
-- Which plan a subject gets, and what it grants.
use nestjs_enterprise_starte.Plans.Matrix.{by_slug-Any, by_id-Any, flag_off, flag_matrix, grants}
use nestjs_enterprise_starte.Plans.{
  to_effective, entitlement_list, empty_lite, matrix_of, get_key, lite_slug, reload_matrices,
  PlanMatrix, PlanRow, Subscription, EffectivePlan, SubscriptionStatus, Catalogue, is_entitled,
  lite_fallback, resolve, has_entitlement,
}
use nestjs_enterprise_starte.Prelude.{
  ap, find-true, [], find-Any, ◌∙◌, inr, Bool-cases, inl, sym, ◌⊎◌, ◌∷◌, some, Option-cases, arith,
  Any, none, find, true, false, or_else, ◌≡◌, Option, ◌≤◌, any, String, List, ℕ, Bool, refl,
}

-- whether a subscription is in force
abbrev pub in_force : ℕ → Subscription → Bool
in_force now s = is_entitled s.status s.current_period_end now

-- a subscription in force whose plan has a row that grants the entitlement
abbrev pub PaidGrant : List PlanRow → ℕ → String → Subscription → Type 0
PaidGrant plans now key s =
    (in_force now s ≡ true) × Any (λ p. (p.id ≡ s.plan_id) × (grants key p ≡ true)) plans

-- a Lite plan that grants the entitlement
abbrev pub LiteGrant : String → PlanRow → Type 0
LiteGrant key p = (p.slug ≡ lite_slug) × (grants key p ≡ true)

granted_by :
    (key : String) (p : PlanRow) (m : PlanMatrix)
    → or_else (get_key key m.entitlements) false ≡ true
    → matrix_of p ≡ m
    → grants key p ≡ true
granted_by key p m h e =
    sym (flag_matrix key p) ∙ ap (λ x. or_else (get_key key x.entitlements) false) e ∙ h

has_entitlement-or_else :
    (plan : EffectivePlan) (key : String)
    → has_entitlement plan key ≡ or_else (get_key key plan.entitlements) false
unfolding has_entitlement
has_entitlement-or_else plan key = ground arith

lite_grants :
    (plans : List PlanRow) (key : String)
    → has_entitlement (lite_fallback (reload_matrices plans)) key ≡ true
    → Any (LiteGrant key) plans
unfolding lite_fallback
lite_grants plans key h = elim (Option-cases (get_key lite_slug (reload_matrices plans).by_slug)) [
  | inl missing ↦
      absurd (ground (arith, has_entitlement-or_else empty_lite key, flag_off key entitlement_list))
  | inr (m, found) ↦
      by_slug-Any (LiteGrant key) lite_slug m plans
        (λ p same e. (
          same,
          granted_by key p m (ground (arith, has_entitlement-or_else (to_effective m none) key)) e,
        ))
        found
]

-- An entitlement is granted only if a subscription that is in force is to a plan with this id whose
-- rows enable it, or if the rows of a Lite plan enable it, whatever the tables hold.
pub granted_only_if_enabled :
    (plans : List PlanRow) (subscriptions : List Subscription) (now : ℕ) (key : String)
    → has_entitlement (resolve (reload_matrices plans) subscriptions now) key ≡ true
    → Any (PaidGrant plans now key) subscriptions ⊎ Any (LiteGrant key) plans
unfolding resolve
granted_only_if_enabled plans subscriptions now key h =
    elim (Option-cases (find (in_force now) subscriptions)) [
      | inl nothing ↦ inr (lite_grants plans key (ground arith))
      | inr (s, found) ↦ elim (Option-cases (get_key s.plan_id (reload_matrices plans).by_id)) [
        | inl unknown ↦ inr (lite_grants plans key (ground arith))
        | inr (m, loaded) ↦ inl (
            find-Any (PaidGrant plans now key) (in_force now) subscriptions s found (
              find-true (in_force now) subscriptions s found,
              by_id-Any _ s.plan_id m plans
                  (λ p same e. (
                    same,
                    granted_by key p m
                        (ground (arith, has_entitlement-or_else (to_effective m (some s)) key)) e,
                  ))
                  loaded,
            ))
      ]
    ]

lapse :
    (status : SubscriptionStatus) (period_end : Option ℕ) (now later : ℕ)
    → now ≤ later
    → is_entitled status period_end now ≡ false
    → is_entitled status period_end later ≡ false
unfolding is_entitled
lapse SubscriptionStatus.active period_end now later le h = absurd (ground arith)
lapse SubscriptionStatus.past_due period_end now later le h = absurd (ground arith)
lapse SubscriptionStatus.canceled none now later le h = refl
lapse SubscriptionStatus.canceled (some t) now later le h = ground arith

none_later :
    (subscriptions : List Subscription) (now later : ℕ)
    → now ≤ later
    → find (in_force now) subscriptions ≡ none
    → find (in_force later) subscriptions ≡ none
none_later [] now later le h = refl
none_later (s ∷ rest) now later le h = elim (Bool-cases (in_force now s)) [
  | inl passes ↦ absurd (ground arith)
  | inr fails ↦
      ground (arith, none_later rest now later le, lapse s.status s.current_period_end now later le)
]

find-any : {A : Type 0} (p : A → Bool) (xs : List A) → any p xs ≡ false → find p xs ≡ none
find-any p [] h = refl
find-any p (x ∷ xs) h = elim (Bool-cases (p x)) [
  | inl passes ↦ absurd (ground arith)
  | inr fails ↦ ground (arith, find-any p xs)
]

-- A subject without a subscription in force has the plan of the fallback from then on, as long as
-- its subscriptions stay as they are.
pub lapsed_for_good :
    (c : Catalogue) (subscriptions : List Subscription) (now later : ℕ)
    → now ≤ later
    → any (in_force now) subscriptions ≡ false
    → resolve c subscriptions later ≡ lite_fallback c
unfolding resolve
lapsed_for_good c subscriptions now later le h =
    ground (arith, none_later subscriptions now later le (find-any (in_force now) subscriptions h))
