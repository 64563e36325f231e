-- ===== src/Organizations/Billing.antt =====
-- src/modules/organizations/organization-context.guard.ts and billing-subject.resolver.ts: the
-- organization that a request is bound to, and whom it is billed to.
mod Tests
use mathlib.Core.Path.{subst}
use nestjs_enterprise_starte.FeatureFlags.{FlagContext}
use nestjs_enterprise_starte.Organizations.Subject.{user, organization, BillingSubject}
use nestjs_enterprise_starte.Common.Exec.{Result-cases, err, ok, Result}
use nestjs_enterprise_starte.FeatureFlags.{org_billing, is_enabled, truthy, Override}
use nestjs_enterprise_starte.Common.Errors.{Detail, ErrorCode, api_error, Thrown}
use nestjs_enterprise_starte.Common.Rows.{Rows}
use nestjs_enterprise_starte.Organizations.Members.{
  get_membership, Role, Member, Organization, BillingMode, State,
}
use nestjs_enterprise_starte.Prelude.{
  Bool-cases, ◌⊎◌, inr, inl, Option-cases, arith, string_key, ◌===◌, find, ◌||◌, none, not,
  if◌then◌else◌, ◌≡◌, some, ◌∷◌, Option, [], true, false, Bool, String, refl,
}

abbrev not_member : String → Thrown
not_member org =
    api_error 403 ErrorCode.forbidden "You are not a member of this organization."
      (("organizationId", Detail.text org) ∷ [])

abbrev unauthenticated : Thrown
unauthenticated = api_error 401 ErrorCode.unauthorized "Authentication required." []

-- `billingMode === 'organization'`
abbrev pub bills_itself : BillingMode → Bool
bills_itself BillingMode.user_mode = false
bills_itself BillingMode.organization_mode = true

mode_cases : (m : BillingMode) → (bills_itself m ≡ false) ⊎ (m ≡ BillingMode.organization_mode)
mode_cases BillingMode.user_mode = inl refl
mode_cases BillingMode.organization_mode = inr refl

module _ (O : Rows Organization) (M : Rows Member) (user_exists : String → Bool) (F : Rows Override)
    (env_default : String → Option Bool) where
  -- `canActivate` of the guard on the first value of the header and the id of the principal. It
  -- returns the organization that the request is bound to, if it is.
  pub bound_organization :
      Bool → Bool → Option String → Option String → State O M user_exists → Result (Option String)
  bound_organization is_http is_public header principal s =
      if not is_http || is_public then ok none else elim (truthy header) [
        | none ↦ ok none
        | some org ↦ elim principal [
          | none ↦ err unauthenticated
          | some user_id ↦ elim (get_membership O M user_exists org user_id s) [
            | none ↦ err (not_member org)
            | some role ↦ ok (some org)
          ]
        ]
      ]

  -- `resolve` of the resolver
  pub billing_subject :
      String
      → Option String
      → Option String
      → State O M user_exists
      → F.State
      → Result BillingSubject
  billing_subject user_id override bound s flags =
      elim (truthy (elim override [ none ↦ bound | some org ↦ some org ])) [
        | none ↦ ok (user user_id)
        | some org ↦ elim (find (λ (o : Organization). o.id === org) (O.rows s.organizations)) [
          | none ↦ ok (user user_id)
          | some row ↦
              if not (bills_itself row.billing_mode)
              then ok (user user_id)
              else elim (is_enabled F env_default org_billing
                  (record { user_id = some user_id; organization_id = some org }) flags).0 [
                    | err e ↦ err e
                    | ok enabled ↦ if enabled then ok (organization org) else ok (user user_id)
                  ]
        ]
      ]

  bound_member :
      (is_http is_public : Bool) (header : Option String) (user_id org : String)
      (s : State O M user_exists)
      → bound_organization is_http is_public header (some user_id) s ≡ ok (some org)
      → (role : Role) × (get_membership O M user_exists org user_id s ≡ some role)
  unfolding bound_organization
  bound_member is_http is_public header user_id org s h = elim (Option-cases (truthy header)) [
    | inl missing ↦ absurd (ground arith)
    | inr (named, given) ↦ elim (Option-cases (get_membership O M user_exists named user_id s)) [
      | inl stranger ↦ absurd (ground arith)
      | inr (role, joined) ↦ (role, ground arith)
    ]
  ]

  truthy_lem : (o : Option String) (a : String) → truthy o ≡ some a → o ≡ some a
  truthy_lem none a h = absurd (ground arith)
  truthy_lem (some b) a h = ground arith

  switches_on :
      (user_id named org : String) (row : Organization) (s : State O M user_exists)
      (flags : F.State)
      → truthy (some named) ≡ some named
      → find (λ (o : Organization). o.id === named) (O.rows s.organizations) ≡ some row
      → billing_subject user_id none (some named) s flags ≡ ok (organization org)
      → (named ≡ org)
        × (row.billing_mode ≡ BillingMode.organization_mode)
        × ((is_enabled F env_default org_billing
              (record { user_id = some user_id; organization_id = some named })
              flags).0
            ≡ ok true)
  unfolding billing_subject
  switches_on user_id named org row s flags given found b =
      let context : FlagContext = record { user_id = some user_id; organization_id = some named } in
      elim (mode_cases row.billing_mode) [
        | inl alone ↦ absurd (ground arith)
        | inr mode ↦ elim (Result-cases (is_enabled F env_default org_billing context flags).0) [
          | inl (e, failed) ↦ absurd (ground arith)
          | inr (enabled, told) ↦ elim (Bool-cases enabled) [
            | inr off ↦ absurd (ground arith)
            | inl on ↦ (ground arith, mode, ground arith)
          ]
        ]
      ]

  -- A request on which the guard passes and that the resolver bills to an organization comes from a
  -- member of it, the organization bills itself, and the flag is on for the member there.
  pub billed_organization :
      (is_http is_public : Bool) (header bound : Option String) (user_id org : String)
      (s : State O M user_exists) (flags : F.State)
      → bound_organization is_http is_public header (some user_id) s ≡ ok bound
      → billing_subject user_id none bound s flags ≡ ok (organization org)
      → (role : Role) × (row : Organization) × (get_membership O M user_exists org user_id s
          ≡ some role)
        × (find (λ (o : Organization). o.id === org) (O.rows s.organizations) ≡ some row)
        × (row.billing_mode ≡ BillingMode.organization_mode)
        × ((is_enabled F env_default org_billing
              (record { user_id = some user_id; organization_id = some org })
              flags).0
            ≡ ok true)
  unfolding bound_organization billing_subject
  billed_organization is_http is_public header bound user_id org s flags h b =
      elim (Option-cases bound) [
        | inl unbound ↦ absurd (ground arith)
        | inr (named, is_bound) ↦ elim (Option-cases (truthy (some named))) [
          | inl empty ↦ absurd (ground arith)
          | inr (same, given) ↦
              elim (Option-cases
                (find (λ (o : Organization). o.id === named) (O.rows s.organizations))) [
                  | inl unknown ↦ absurd (ground arith)
                  | inr (row, found) ↦
                      let switches =
                        switches_on user_id named org row s flags (ground arith) found
                          (ground arith) in
                      let member =
                        bound_member is_http is_public header user_id named s (ground arith) in
                      subst
                        (λ x.
                          (role : Role) × (row : Organization) × (get_membership O M user_exists x
                              user_id s
                            ≡ some role)
                          × (find (λ (o : Organization). o.id === x) (O.rows s.organizations)
                              ≡ some row)
                          × (row.billing_mode ≡ BillingMode.organization_mode)
                          × ((is_enabled F env_default org_billing
                                (record { user_id = some user_id; organization_id = some x })
                                flags).0
                              ≡ ok true))
                        switches.0 (member.0, row, member.1, found, switches.1, switches.2)
                ]
        ]
      ]
