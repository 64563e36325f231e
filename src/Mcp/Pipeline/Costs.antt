-- ===== src/Mcp/Pipeline/Costs.antt =====
-- What calls of a priced tool cost in the end.
use nestjs_enterprise_starte.Prelude.{
  [], true, some, ℕ, ===_refl, if◌then◌else◌, ◌∙◌, inl, sym, inr, string_key, ap, Bool-cases, arith,
  or_else, none, false, ◌===◌, String, ◌≡◌, Option, refl,
}
use nestjs_enterprise_starte.Prelude.Int.{pos, negsuc, ◌+ℤ◌, int_laws, ℤ}
use nestjs_enterprise_starte.Common.Exec.{ok}
use nestjs_enterprise_starte.Organizations.Subject.{subject_key, user, BillingSubject}
use nestjs_enterprise_starte.Credits.{
  spend, refund, apply, LedgerType, params_for, Input, resolve_subject, get_balance, State, Wallets,
  Ledger, MutationResult,
}
use nestjs_enterprise_starte.Credits.Balance.{spend-eq-apply}
use nestjs_enterprise_starte.Credits.Trace
use nestjs_enterprise_starte.Credits.Once.{
  spend_retry, spend_retry, applied_first, refund-eq-apply, credit_first,
}
use nestjs_enterprise_starte.Credits
use nestjs_enterprise_starte.Usage
use nestjs_enterprise_starte.Common.Exec.{err, Exec, Reply}
use nestjs_enterprise_starte.Common.Errors.{Thrown}
use nestjs_enterprise_starte.Plans.{Period}
use nestjs_enterprise_starte.Usage.{PlanReads}
use nestjs_enterprise_starte.Mcp.Throttle.{Ceilings}
use nestjs_enterprise_starte.Mcp.Pipeline.{
  Counters, Timed, Run, Store, throttle_stage, give_back, finish, stages, handle, reported, run,
}
use nestjs_enterprise_starte.Mcp.Pipeline.Stages.{
  stages_went, metering-credits, paying-spends, stages_kept, throttling, metering,
}
use nestjs_enterprise_starte.Charging.{CreditFeature, feature_name}
use nestjs_enterprise_starte.Throttling.Keys.{starts_apart}
use nestjs_enterprise_starte.Mcp.Pipeline.{Principal, spend_key, input_for, Tool}
use text.Mathlib.TextLemmas.{append_assoc, append_cancel_left}
use Prim.Native.String.{◌++◌ as ◌⊕◌}

abbrev pub refund_key : String → String
refund_key key = "mcp:refund:" ⊕ key

pub keys_differ :
    (request_id : Option String) (tool : Tool) (feature : CreditFeature)
    → (spend_key request_id tool feature === refund_key (spend_key request_id tool feature)) ≡ false
unfolding spend_key
keys_differ request_id tool feature =
    let rest = or_else request_id "noreq" ⊕ ":" ⊕ tool.name ⊕ ":" ⊕ feature_name feature in
    elim (Bool-cases (("mcp:spend:" ⊕ rest) === ("mcp:refund:" ⊕ ("mcp:spend:" ⊕ rest)))) [
      | inr apart ↦ apart
      | inl met ↦ absurd (
          starts_apart "s" "r" "pend:" "efund:" rest ("mcp:spend:" ⊕ rest) (omega arith) (
            append_cancel_left "mcp:" ("spend:" ⊕ rest) ("refund:" ⊕ ("mcp:spend:" ⊕ rest)) (
              sym (append_assoc "mcp:" "spend:" rest)
              ∙ ((string_key.same_iff ("mcp:spend:" ⊕ rest)
                    ("mcp:refund:" ⊕ ("mcp:spend:" ⊕ rest))).0
                  met)
              ∙ append_assoc "mcp:" "refund:" ("mcp:spend:" ⊕ rest))))
    ]

spent_and_back : (b : ℤ) → b +ℤ negsuc 0 +ℤ pos 1 ≡ b
spent_and_back b = omega int_laws

pub user_known :
    (p : Principal) (feature : CreditFeature) (key : String)
    → (p.user_id === "") ≡ false
    → resolve_subject (input_for p feature key) ≡ ok (user p.user_id)
unfolding resolve_subject
user_known p feature key named = ground arith

module _ (W : Wallets) (L : Ledger) (config : Credits.Config) where
  -- a spend that is sent again
  pub spend_again :
      (input : Input) (s : State W L) {m : MutationResult}
      → (spend W L config input s).0 ≡ ok m
      → spend W L config input (spend W L config input s).1
        ≡ (ok (record m { replayed = true }), (spend W L config input s).1)
  unfolding Trace.run
  spend_again input s {m} h = spend_retry W L config input s {r = m} h []

  pub refunded-spend :
      (p : Principal) (feature : CreditFeature) (key back : String) (s : State W L)
      {m : MutationResult}
      → (p.user_id === "") ≡ false
      → (key === back) ≡ false
      → L.lookup key s.db.ledger ≡ none
      → L.lookup back s.db.ledger ≡ none
      → (spend W L config (input_for p feature key) s).0 ≡ ok m
      → (u : BillingSubject)
      → get_balance W L u
          (refund W L config
            (input_for p feature back)
            (spend W L config (input_for p feature key) s).1).1.db
        ≡ get_balance W L u s.db
  refunded-spend p CreditFeature.demo_paid key back s {m} named apart fresh_key fresh_back went u =
      let input = input_for p CreditFeature.demo_paid key in
      let again = input_for p CreditFeature.demo_paid back in
      let c = (spend W L config input s).1 in
      let q = params_for LedgerType.spend input (user p.user_id) (pos 1) in
      let same =
        spend-eq-apply W L config input s 0 (user p.user_id) refl
          (user_known p CreditFeature.demo_paid key named) in
      let (moved, others) =
        applied_first W L config q s {r = m} fresh_key (ap (λ x. x.0) (sym same) ∙ went) in
      let after : (apply W L config q s).1 ≡ c = ap (λ x. x.1) (sym same) in
      let unused : L.lookup back c.db.ledger ≡ none =
        ap (λ (x : State W L). L.lookup back x.db.ledger) (sym after)
        ∙ others back apart
        ∙ fresh_back in
      let r = params_for LedgerType.refund again (user p.user_id) (pos 1) in
      let given =
        refund-eq-apply W L config again c 0 (user p.user_id) refl
          (user_known p CreditFeature.demo_paid back named) in
      let (a, b, d, paid) = credit_first W L config r none c refl unused in
      let spent : (v : BillingSubject)
          → get_balance W L v c.db ≡ (
              if user p.user_id === v
              then get_balance W L (user p.user_id) s.db +ℤ negsuc 0
              else get_balance W L v s.db) =
        λ v. ap (λ (x : State W L). get_balance W L v x.db) (sym after) ∙ moved v in
      rw given (
        paid u ∙ elim (Bool-cases (user p.user_id === u)) [
          | inr differ ↦ ground (arith, spent u)
          | inl equal ↦
              let less : get_balance W L (user p.user_id) c.db
                  ≡ get_balance W L (user p.user_id) s.db +ℤ negsuc 0 =
                ground (arith, spent (user p.user_id), ===_refl (user p.user_id)) in
              rw equal (
                rw less (
                  spent_and_back _
                  ∙ ap (λ v. get_balance W L v s.db)
                      ((subject_key.same_iff (user p.user_id) u).0 equal)))
        ])

module _ (T : Timed) (ceilings : Ceilings) (C : Counters) (limits : Usage.Config)
    (plans : Option PlanReads) (stamp : Period → ℕ → String) (W : Wallets) (L : Ledger)
    (config : Credits.Config) {World A : Type 0} (tool : Tool) (handler : Exec World A) where
  -- the credits after the stages, if the run passed them
  pub stages-spends :
      (r : Run T ceilings C limits plans stamp W L config tool handler)
      (s : Store T ceilings C limits plans stamp W L config tool handler) (feature : CreditFeature)
      {u : Unit {0}}
      → tool.credit_feature ≡ some feature
      → (stages T ceilings C limits plans stamp W L config tool handler r s).0 ≡ ok u
      → (m : MutationResult) × (spend W L config
            (input_for r.principal feature (spend_key r.request_id tool feature))
            s.credits
          ≡ (ok m, (stages T ceilings C limits plans stamp W L config tool handler r s).1.credits))
  unfolding throttle_stage
  stages-spends r s feature {u} priced h =
      let (granted, planned, calm, metered, rest) =
        stages_went T ceilings C limits plans stamp W L config tool handler r s {u = u} h in
      let s₁ = (throttling T ceilings C limits plans stamp W L config tool handler r s).1 in
      let s₂ = (metering T ceilings C limits plans stamp W L config tool handler r s₁).1 in
      let (m, spent) =
        paying-spends T ceilings C limits plans stamp W L config tool handler r s₂ feature {u = u}
          priced (ap (λ x. x.0) (sym rest) ∙ h) in
      let call =
        spend W L config (input_for r.principal feature (spend_key r.request_id tool feature)) in
      (
        m,
        ap call
              (sym (metering-credits T ceilings C limits plans stamp W L config tool handler r s₁))
            ∙ spent
            ∙ ap (λ x. (ok m, x.1.credits)) (sym rest),
      )

  -- the credits after a run that failed in its handler
  pub failed-gives_back :
      (r : Run T ceilings C limits plans stamp W L config tool handler)
      (s : Store T ceilings C limits plans stamp W L config tool handler) (feature : CreditFeature)
      {u : Unit {0}} {e : Thrown}
      → tool.credit_feature ≡ some feature
      → (stages T ceilings C limits plans stamp W L config tool handler r s).0 ≡ ok u
      → (handler s.world).0 ≡ err e
      → r.weather.refunding ≡ Reply.heard
      → (run T ceilings C limits plans stamp W L config tool handler r s).1.credits
        ≡ (refund W L config
            (input_for r.principal feature (refund_key (spend_key r.request_id tool feature)))
            (stages T ceilings C limits plans stamp W L config tool handler r s).1.credits).1
  unfolding run reported handle finish give_back spend_key
  failed-gives_back r s feature priced passed failed heard =
      let t = (stages T ceilings C limits plans stamp W L config tool handler r s).1 in
      let same_world : t.world ≡ s.world =
        ap (λ x. x.2) (stages_kept T ceilings C limits plans stamp W L config tool handler r s) in
      ground arith

  -- A call of a priced tool that passes every stage under a spend key and a refund key that are both
  -- unused, and whose handler fails, costs nobody anything, if its user has an id and the refund is
  -- heard.
  pub failed_call_costs_nothing :
      (r : Run T ceilings C limits plans stamp W L config tool handler)
      (s : Store T ceilings C limits plans stamp W L config tool handler) (feature : CreditFeature)
      (e : Thrown)
      → tool.credit_feature ≡ some feature
      → (r.principal.user_id === "") ≡ false
      → (stages T ceilings C limits plans stamp W L config tool handler r s).0 ≡ ok tt
      → (handler s.world).0 ≡ err e
      → r.weather.refunding ≡ Reply.heard
      → L.lookup (spend_key r.request_id tool feature) s.credits.db.ledger ≡ none
      → L.lookup (refund_key (spend_key r.request_id tool feature)) s.credits.db.ledger ≡ none
      → (u : BillingSubject)
      → get_balance W L u
          (run T ceilings C limits plans stamp W L config tool handler r s).1.credits.db
        ≡ get_balance W L u s.credits.db
  failed_call_costs_nothing r s feature e priced named passed failed heard new_spend new_refund u =
      let key = spend_key r.request_id tool feature in
      let (m, spent) = stages-spends r s feature {u = tt} priced passed in
      rw (failed-gives_back r s feature {u = tt} {e = e} priced passed failed heard) (
        ap
          (λ c.
            get_balance W L u
              (refund W L config (input_for r.principal feature (refund_key key)) c).1.db)
          (sym (ap (λ x. x.1) spent))
        ∙ refunded-spend W L config r.principal feature key (refund_key key) s.credits {m = m} named
            (keys_differ r.request_id tool feature) new_spend new_refund (ap (λ x. x.0) spent) u)
