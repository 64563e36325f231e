-- ===== src/Mcp/Pipeline/Admitted.antt =====
-- What has passed when a handler runs.
use nestjs_enterprise_starte.Prelude.Int.{negsuc, ◌+ℤ◌}
use nestjs_enterprise_starte.Organizations.Subject.{BillingSubject, user, subject_key}
use nestjs_enterprise_starte.Prelude.{
  false, if◌then◌else◌, ℕ, Option, string_key, true, some, ◌===◌, ◌⊎◌, any, All, none, [], String,
  ◌≡◌, List,
}
use nestjs_enterprise_starte.Common.Exec.{ok}
use nestjs_enterprise_starte.Plans.{resolve, has_entitlement, meets_minimum_plan, Subscription}
use nestjs_enterprise_starte.Mcp.Pipeline.{Counters, Timed, Reads, Tool}
use nestjs_enterprise_starte.Credits
use nestjs_enterprise_starte.Usage
use nestjs_enterprise_starte.Common.Exec.{Exec}
use nestjs_enterprise_starte.Credits.{get_balance, Wallets, Ledger, MutationResult}
use nestjs_enterprise_starte.Plans.{Period}
use nestjs_enterprise_starte.Usage.{PlanReads, UsageSubject}
use nestjs_enterprise_starte.Charging.{CreditFeature}
use nestjs_enterprise_starte.Mcp.Throttle.{Ceilings, consume}
use nestjs_enterprise_starte.Mcp.Pipeline.{spend_key, Run, Store, stages}

-- what the two assertions ask
abbrev pub IsGranted : List String → List String → Type 0
IsGranted granted required = All (λ p. any (λ q. q === p) granted ≡ true) required

abbrev pub IsPlanned : Reads → Tool → Type 0
IsPlanned reads tool =
    ((tool.entitlements ≡ []) × (tool.minimum_plan ≡ none))
    ⊎ ((rows : List Subscription) × (reads.subscriptions ≡ some rows)
        × All (λ k. has_entitlement (resolve reads.catalogue rows reads.now) k ≡ true)
            tool.entitlements
        × ((slug : String)
            → tool.minimum_plan ≡ some slug
            → meets_minimum_plan reads.catalogue (resolve reads.catalogue rows reads.now) slug
              ≡ true))

module _ (W : Wallets) (L : Ledger) (config : Credits.Config) where
  -- Either the one credit of a priced tool has been taken from the user, and from nobody else, under a
  -- key that had no entry, or an earlier call has taken it under the same key, and nothing changes.
  abbrev pub IsSpent :
      String → String → MutationResult → Credits.State W L → Credits.State W L → Type 0
  IsSpent user_id key m s t =
      ((m.replayed ≡ true) × (t ≡ s))
      ⊎ ((m.replayed ≡ false)
          × (L.lookup key s.db.ledger ≡ none)
          × ((u : BillingSubject)
              → get_balance W L u t.db ≡ (
                  if user user_id === u
                  then get_balance W L (user user_id) s.db +ℤ negsuc 0
                  else get_balance W L u s.db)))

module _ (T : Timed) (ceilings : Ceilings) (C : Counters) (limits : Usage.Config)
    (plans : Option PlanReads) (stamp : Period → ℕ → String) (W : Wallets) (L : Ledger)
    (config : Credits.Config) {World A : Type 0} (tool : Tool) (handler : Exec World A) where
  -- Every stage of a run has let it pass.
  pub record IsAdmitted (r : Run T ceilings C limits plans stamp W L config tool handler)
      (s : Store T ceilings C limits plans stamp W L config tool handler) : Type 0 where
    pub granted : IsGranted r.principal.permissions tool.permissions
    pub planned : IsPlanned r.reads tool
    pub calm :
        (consume T r.weather.burst r.weather.minute ceilings r.now r.principal.user_id s.throttle).0
        ≡ none
    pub metered :
        (feature : String)
        → tool.usage_feature ≡ some feature
        → (Usage.consume C limits plans stamp
            (record { actor = r.principal.user_id; billing = none })
            feature
            r.turns
            s.usage).0
          ≡ ok tt
    pub paid :
        (feature : CreditFeature)
        → tool.credit_feature ≡ some feature
        → (m : MutationResult) × IsSpent W L config r.principal.user_id
            (spend_key r.request_id tool feature)
            m
            s.credits
            (stages T ceilings C limits plans stamp W L config tool handler r s).1.credits
