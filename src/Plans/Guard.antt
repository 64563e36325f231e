-- ===== src/Plans/Guard.antt =====
-- src/modules/plans/entitlements.guard.ts: what a route asks of the plan of its caller.
use mathlib.Core.Path.{subst}
use nestjs_enterprise_starte.Plans.{
  EffectivePlan, Catalogue, PlanRow, Subscription, has_entitlement, meets_minimum_plan, resolve,
  reload_matrices,
}
use nestjs_enterprise_starte.Plans.Entitled.{PaidGrant, LiteGrant, granted_only_if_enabled}
use nestjs_enterprise_starte.Common.Errors.{Thrown, ErrorCode, api_error}
use nestjs_enterprise_starte.Common.Exec.{Result, ok, err}
use nestjs_enterprise_starte.Prelude.{
  inr, inl, arith, is_some, ◌⊎◌, ◌∷◌, true, none, ◌&&◌, false, ◌||◌, ◌≡◌, filter, some, not, ℕ,
  is_empty, Any, List, Option, [], Bool, if◌then◌else◌, String, refl,
}

-- what the guard reads of a route and its annotations
pub record Route : Type 0 where
  pub is_http : Bool
  pub is_public : Bool
  pub required_entitlements : List String
  pub required_plan : Option String

-- `deny`
abbrev denied : Thrown
denied = api_error 403 ErrorCode.entitlement_denied "Your plan does not include this feature." []

-- `principalOf`
abbrev principal_of : Option String → Result String
principal_of none = err (api_error 401 ErrorCode.unauthorized "Authentication required." [])
principal_of (some id) = ok id

-- `planFor`, with the plan that the request carries already
abbrev plan_for : Option EffectivePlan → (String → EffectivePlan) → String → EffectivePlan
plan_for (some plan) plan_of user = plan
plan_for none plan_of user = plan_of user

-- the two tests of `canActivate`
unfoldable pub check_plan : Catalogue → Route → EffectivePlan → Result (Unit {0})
check_plan catalogue route plan =
    if not (is_empty (filter (λ key. not (has_entitlement plan key)) route.required_entitlements))
    then err denied
    else elim route.required_plan [
      | none ↦ ok tt
      | some slug ↦ if meets_minimum_plan catalogue plan slug then ok tt else err denied
    ]

-- `canActivate`, with the resolver of plans
unfoldable pub can_activate :
    Catalogue
    → (String → EffectivePlan)
    → Route
    → Option String
    → Option EffectivePlan
    → Result (Unit {0})
unfolding check_plan
can_activate catalogue plan_of route principal carried =
    if not route.is_http || route.is_public
    then ok tt
    else if is_empty route.required_entitlements && not (is_some route.required_plan)
    then ok tt
    else elim (principal_of principal) [
      | err e ↦ err e
      | ok user ↦ check_plan catalogue route (plan_for carried plan_of user)
    ]

-- a key of a list whose keys all pass
required_is_held :
    (held : String → Bool) (keys : List String) (key : String)
    → is_empty (filter (λ k. not (held k)) keys) ≡ true
    → Any (λ k. k ≡ key) keys
    → held key ≡ true
required_is_held held [] key h member = elim member [ ]
required_is_held held (k ∷ keys) key h (inl same) = subst (λ j. held j ≡ true) same (ground arith)
required_is_held held (k ∷ keys) key h (inr later) =
    required_is_held held keys key (ground arith) later

required_is_nonempty :
    (keys : List String) (key : String) → Any (λ k. k ≡ key) keys → is_empty keys ≡ false
required_is_nonempty [] key member = elim member [ ]
required_is_nonempty (k ∷ keys) key member = refl

-- The guard of an HTTP route that is not public lets a user, whose request carries no plan yet,
-- through only if every entitlement that the route requires is enabled by the rows of a plan with the
-- id of a subscription of the user that is in force, or by the rows of a Lite plan, whatever the
-- tables hold.
pub admitted_only_if_granted :
    (plans : List PlanRow) (subscriptions : String → List Subscription) (now : ℕ) (route : Route)
    (user key : String)
    → route.is_http ≡ true
    → route.is_public ≡ false
    → can_activate
        (reload_matrices plans)
        (λ u. resolve (reload_matrices plans) (subscriptions u) now)
        route
        (some user)
        none
      ≡ ok tt
    → Any (λ k. k ≡ key) route.required_entitlements
    → Any (PaidGrant plans now key) (subscriptions user) ⊎ Any (LiteGrant key) plans
unfolding can_activate check_plan
admitted_only_if_granted plans subscriptions now route user key http private admitted member =
    let plan = resolve (reload_matrices plans) (subscriptions user) now in
    let required : is_empty route.required_entitlements ≡ false =
      required_is_nonempty route.required_entitlements key member in
    let complete : is_empty (filter (λ k. not (has_entitlement plan k)) route.required_entitlements)
        ≡ true =
      ground arith in
    granted_only_if_enabled plans (subscriptions user) now key
      (required_is_held (has_entitlement plan) route.required_entitlements key complete member)
