-- ===== src/Mcp/Pipeline/Stages.antt =====
-- What the stages before the handler leave alone.
use nestjs_enterprise_starte.Credits.{Ledger, Wallets}
use nestjs_enterprise_starte.Prelude.{
  ◌∙◌, some, List, inr, arith, inl, ◌≡◌, Option-cases, String, ℕ, Option, refl,
}
use nestjs_enterprise_starte.Common.Exec.{ok, Reply, over, lift, ◌>>◌, Exec, Result, Result-cases}
use nestjs_enterprise_starte.Credits
use nestjs_enterprise_starte.Usage
use nestjs_enterprise_starte.Usage.{PlanReads}
use nestjs_enterprise_starte.Mcp.Throttle.{Ceilings}
use nestjs_enterprise_starte.Charging.{CreditFeature}
use nestjs_enterprise_starte.Credits.{spend, MutationResult}
use nestjs_enterprise_starte.Mcp.Pipeline.{
  spend_key, input_for, assert_permissions, assert_plan, Period, Counters, Timed, Tool, Run, Store,
  Outcome, Invocation, throttle_stage, usage_stage, credit_stage, stages,
}

-- what a sequence of calls keeps
sequence_kept :
    {S A B K : Type 0} (f : S → K) (m : Exec S A) (n : Exec S B)
    → ((s : S) → f (m s).1 ≡ f s)
    → ((s : S) → f (n s).1 ≡ f s)
    → (s : S) → f ((m >> n) s).1 ≡ f s
sequence_kept f m n h k s = elim (Result-cases (m s).0) [
  | inl (e, failed) ↦ ground (arith, h s)
  | inr (a, went) ↦ ground (arith, h s, k (m s).1)
]

-- a sequence that ends well
sequence_went :
    {S A B : Type 0} (m : Exec S A) (n : Exec S B) (s : S) {b : B}
    → ((m >> n) s).0 ≡ ok b
    → ((a : A) × ((m s).0 ≡ ok a)) × ((m >> n) s ≡ n (m s).1) × ((n (m s).1).0 ≡ ok b)
sequence_went m n s h = elim (Result-cases (m s).0) [
  | inl (e, failed) ↦ absurd (ground arith)
  | inr (a, went) ↦ ((a, went), ground arith, ground arith)
]

-- a call that is heard of
pub over_went :
    {S A : Type 0} (reply : Reply) (m : Exec S A) (s : S) {a : A}
    → (over reply m s).0 ≡ ok a
    → ((m s).0 ≡ ok a) × ((over reply m s).1 ≡ (m s).1)
over_went Reply.heard m s h = (h, refl)
over_went Reply.lost_before m s h = absurd (ground arith)
over_went Reply.lost_after m s h = absurd (ground arith)

module _ (T : Timed) (ceilings : Ceilings) (C : Counters) (limits : Usage.Config)
    (plans : Option PlanReads) (stamp : Period → ℕ → String) (W : Wallets) (L : Ledger)
    (config : Credits.Config) {World A : Type 0} (tool : Tool) (handler : Exec World A) where
  abbrev St : Type 0
  St = Store T ceilings C limits plans stamp W L config tool handler

  abbrev R : Type 0
  R = Run T ceilings C limits plans stamp W L config tool handler

  abbrev pub staged : R → St → Result (Unit {0}) × St
  staged = stages T ceilings C limits plans stamp W L config tool handler

  -- the five stages
  abbrev pub granting : R → Exec St (Unit {0})
  granting r = lift (assert_permissions r.principal.permissions tool.permissions)

  abbrev pub planning : R → Exec St (Unit {0})
  planning r = lift (assert_plan r.reads tool)

  abbrev pub throttling : R → Exec St (Unit {0})
  throttling = throttle_stage T ceilings C limits plans stamp W L config tool handler

  abbrev pub metering : R → Exec St (Unit {0})
  metering = usage_stage T ceilings C limits plans stamp W L config tool handler

  abbrev pub paying : R → Exec St (Unit {0})
  paying = credit_stage T ceilings C limits plans stamp W L config tool handler

  -- the trail, and what the handler acts on
  abbrev pub trail : St → List Invocation × List (String × Outcome) × World
  trail s = (s.log, s.metrics, s.world)

  usage_kept : (r : R) (s : St) → trail (metering r s).1 ≡ trail s
  unfolding usage_stage
  usage_kept r s = elim (Option-cases tool.usage_feature) [
    | inl free ↦ ground arith
    | inr (feature, metered) ↦ ground arith
  ]

  credit_kept : (r : R) (s : St) → trail (paying r s).1 ≡ trail s
  unfolding credit_stage
  credit_kept r s = elim (Option-cases tool.credit_feature) [
    | inl free ↦ ground arith
    | inr (feature, priced) ↦ ground arith
  ]

  pub stages_kept : (r : R) (s : St) → trail (staged r s).1 ≡ trail s
  unfolding stages throttle_stage
  stages_kept r =
      sequence_kept trail (granting r) (planning r >> (throttling r >> (metering r >> paying r)))
        (λ s. refl)
        (sequence_kept trail (planning r) (throttling r >> (metering r >> paying r)) (λ s. refl)
          (sequence_kept trail (throttling r) (metering r >> paying r) (λ s. refl)
            (sequence_kept trail (metering r) (paying r) (usage_kept r) (credit_kept r))))

  -- the stages of a run that passed them
  pub stages_went :
      (r : R) (s : St) {u : Unit {0}}
      → (staged r s).0 ≡ ok u
      → (assert_permissions r.principal.permissions tool.permissions ≡ ok tt)
        × (assert_plan r.reads tool ≡ ok tt)
        × ((throttling r s).0 ≡ ok tt)
        × ((metering r (throttling r s).1).0 ≡ ok tt)
        × (staged r s ≡ paying r (metering r (throttling r s).1).1)
  unfolding stages
  stages_went r s {u} h =
      let spending = metering r >> paying r in
      let (granted, skip, h₁) =
        sequence_went (granting r) (planning r >> (throttling r >> spending)) s {b = u} h in
      let (planned, skip₁, h₂) =
        sequence_went (planning r) (throttling r >> spending) s {b = u} h₁ in
      let (calm, skip₂, h₃) = sequence_went (throttling r) spending s {b = u} h₂ in
      let (metered, skip₃, paid) =
        sequence_went (metering r) (paying r) (throttling r s).1 {b = u} h₃ in
      (granted.1, planned.1, calm.1, metered.1, skip ∙ skip₁ ∙ skip₂ ∙ skip₃)

  pub metering-credits : (r : R) (s : St) → (metering r s).1.credits ≡ s.credits
  unfolding usage_stage
  metering-credits r s = elim (Option-cases tool.usage_feature) [
    | inl free ↦ ground arith
    | inr (feature, metered) ↦ ground arith
  ]

  pub paying-spends :
      (r : R) (s : St) (feature : CreditFeature) {u : Unit {0}}
      → tool.credit_feature ≡ some feature
      → (paying r s).0 ≡ ok u
      → (m : MutationResult) × (spend W L config
            (input_for r.principal feature (spend_key r.request_id tool feature))
            s.credits
          ≡ (ok m, (paying r s).1.credits))
  unfolding credit_stage spend_key
  paying-spends r s feature {u} priced h =
      let call =
        spend W L config (input_for r.principal feature (spend_key r.request_id tool feature)) in
      elim (Result-cases (over r.weather.spending call s.credits).0) [
        | inl (e, failed) ↦ absurd (ground arith)
        | inr (m, went) ↦
            let (done, same) = over_went r.weather.spending call s.credits {a = m} went in
            (m, ground arith)
      ]
