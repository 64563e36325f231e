-- ===== src/Mcp/Pipeline/Sibling.antt =====
-- Two calls of a priced tool under one request id.
use nestjs_enterprise_starte.Prelude.{
  true, some, ℕ, ◌∙◌, inl, sym, inr, string_key, ap, arith, none, false, ◌===◌, String, ◌≡◌, Option,
}
use nestjs_enterprise_starte.Common.Exec.{Result-cases, ok}
use nestjs_enterprise_starte.Organizations.Subject.{subject_key, BillingSubject}
use nestjs_enterprise_starte.Credits.{
  spend, refund, apply, LedgerType, params_for, Input, resolve_subject, get_balance, State, Wallets,
  Ledger, MutationResult,
}
use nestjs_enterprise_starte.Credits
use nestjs_enterprise_starte.Usage
use nestjs_enterprise_starte.Common.Exec.{err, Exec, Reply}
use nestjs_enterprise_starte.Common.Errors.{Thrown}
use nestjs_enterprise_starte.Plans.{Period}
use nestjs_enterprise_starte.Usage.{PlanReads}
use nestjs_enterprise_starte.Mcp.Throttle.{Ceilings}
use nestjs_enterprise_starte.Mcp.Pipeline.{
  Counters, Timed, Run, Store, finish, stages, handle, reported, run,
}
use nestjs_enterprise_starte.Charging.{CreditFeature}
use nestjs_enterprise_starte.Mcp.Pipeline.{spend_key, input_for, Tool}
use nestjs_enterprise_starte.Mcp.Pipeline.Costs.{
  keys_differ, refund_key, refunded-spend, spend_again, stages-spends, failed-gives_back,
}

module _ (T : Timed) (ceilings : Ceilings) (C : Counters) (limits : Usage.Config)
    (plans : Option PlanReads) (stamp : Period → ℕ → String) (W : Wallets) (L : Ledger)
    (config : Credits.Config) {World A : Type 0} (tool : Tool) (handler : Exec World A) where
  -- the credits after a run that ended well
  went-spends :
      (r : Run T ceilings C limits plans stamp W L config tool handler)
      (s : Store T ceilings C limits plans stamp W L config tool handler) {a : A}
      → (run T ceilings C limits plans stamp W L config tool handler r s).0 ≡ ok a
      → ((stages T ceilings C limits plans stamp W L config tool handler r s).0 ≡ ok tt)
        × ((run T ceilings C limits plans stamp W L config tool handler r s).1.credits
            ≡ (stages T ceilings C limits plans stamp W L config tool handler r s).1.credits)
  unfolding run reported handle finish
  went-spends r s {a} h =
      elim (Result-cases (stages T ceilings C limits plans stamp W L config tool handler r s).0) [
        | inl (e, refused) ↦ absurd (ground arith)
        | inr (u, passed) ↦
            elim (Result-cases
              (handler
                (stages T ceilings C limits plans stamp W L config tool handler r s).1.world).0) [
                  | inl (e, failed) ↦ absurd (ground arith)
                  | inr (b, went) ↦ (passed, ground arith)
                ]
      ]

  -- Two calls of a priced tool by the same user under one request id share a spend key and a refund
  -- key. If the first call succeeds under unused keys, and the second, which starts from the credits
  -- the first left, passes every stage and fails in its handler, then the refund of the second
  -- undoes the charge of the first: in the end every balance is as before both calls, if the user
  -- has an id and the refund is heard.
  pub failed_sibling_refunds_success :
      (r r' : Run T ceilings C limits plans stamp W L config tool handler)
      (s s' : Store T ceilings C limits plans stamp W L config tool handler)
      (feature : CreditFeature) (a : A) (e : Thrown)
      → tool.credit_feature ≡ some feature
      → (r.principal.user_id === "") ≡ false
      → L.lookup (spend_key r.request_id tool feature) s.credits.db.ledger ≡ none
      → L.lookup (refund_key (spend_key r.request_id tool feature)) s.credits.db.ledger ≡ none
      → (run T ceilings C limits plans stamp W L config tool handler r s).0 ≡ ok a
      → r'.principal ≡ r.principal
      → r'.request_id ≡ r.request_id
      → s'.credits ≡ (run T ceilings C limits plans stamp W L config tool handler r s).1.credits
      → (stages T ceilings C limits plans stamp W L config tool handler r' s').0 ≡ ok tt
      → (handler s'.world).0 ≡ err e
      → r'.weather.refunding ≡ Reply.heard
      → (u : BillingSubject)
      → get_balance W L u
          (run T ceilings C limits plans stamp W L config tool handler r' s').1.credits.db
        ≡ get_balance W L u s.credits.db
  failed_sibling_refunds_success r r' s s' feature a e priced named new_spend new_refund went
        same_principal same_request follows passed failed heard u =
      let key = spend_key r.request_id tool feature in
      let input = input_for r.principal feature key in
      let (first_passed, left) = went-spends r s {a = a} went in
      let (m, spent) =
        stages-spends T ceilings C limits plans stamp W L config tool handler r s feature {u = tt}
          priced first_passed in
      let (m', spent') =
        stages-spends T ceilings C limits plans stamp W L config tool handler r' s' feature {u = tt}
          priced passed in
      let start : s'.credits ≡ (spend W L config input s.credits).1 =
        follows ∙ left ∙ ap (λ x. x.1) (sym spent) in
      let again : spend W L config input (spend W L config input s.credits).1
          ≡ (ok (record m { replayed = true }), (spend W L config input s.credits).1) =
        spend_again W L config input s.credits {m = m} (ap (λ x. x.0) spent) in
      let kept : (stages T ceilings C limits plans stamp W L config tool handler r' s').1.credits
          ≡ (spend W L config input s.credits).1 =
        sym (ap (λ x. x.1) spent')
        ∙ ap
            (λ p.
              (spend W L config (input_for p feature (spend_key r'.request_id tool feature))
                s'.credits).1)
            same_principal
        ∙ ap
            (λ q.
              (spend W L config (input_for r.principal feature (spend_key q tool feature))
                s'.credits).1)
            same_request
        ∙ ap (λ c. (spend W L config input c).1) start
        ∙ ap (λ x. x.1) again in
      rw
        (failed-gives_back T ceilings C limits plans stamp W L config tool handler r' s' feature
          {u = tt} {e = e} priced passed failed heard)
        (ap
            (λ p.
              get_balance W L u
                (refund W L config
                  (input_for p feature (refund_key (spend_key r'.request_id tool feature)))
                  (stages T ceilings C limits plans stamp W L config tool handler r'
                    s').1.credits).1.db)
            same_principal
          ∙ ap
              (λ q.
                get_balance W L u
                  (refund W L config
                    (input_for r.principal feature (refund_key (spend_key q tool feature)))
                    (stages T ceilings C limits plans stamp W L config tool handler r'
                      s').1.credits).1.db)
              same_request
          ∙ ap
              (λ c.
                get_balance W L u
                  (refund W L config (input_for r.principal feature (refund_key key)) c).1.db)
              kept
          ∙ refunded-spend W L config r.principal feature key (refund_key key) s.credits {m = m}
              named (keys_differ r.request_id tool feature) new_spend new_refund
              (ap (λ x. x.0) spent) u)
