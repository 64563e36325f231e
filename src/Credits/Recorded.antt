-- ===== src/Credits/Recorded.antt =====
-- The entry of a grant or an adjustment that goes through.
use nestjs_enterprise_starte.Prelude.{
  ◌≡◌, ◌∙◌, ap, arith, ◌⊎◌, inl, inr, none, some, true, false, string_key,
}
use mathlib.Core.Path.{subst}
use nestjs_enterprise_starte.Prelude.Int.{ℤ, ◌+ℤ◌}
use nestjs_enterprise_starte.Common.Json.{Number, integer, fraction}
use nestjs_enterprise_starte.Common.Exec.{Result, ok, Result-cases}
use nestjs_enterprise_starte.Organizations.Subject.{BillingSubject}
use nestjs_enterprise_starte.Credits.{
  Input, Params, MutationResult, LedgerType, Wallets, Ledger, State, Config, get_balance, entry_for,
  params_for, positive_amount, nonzero_delta, resolve_subject, apply, guarded, grant, adjust,
}
use nestjs_enterprise_starte.Credits.Effect.{outcome}
use nestjs_enterprise_starte.Credits.Replay.{apply-outcome}
use nestjs_enterprise_starte.Credits.Once.{apply-Done}

positive_amount-integer : (a : Number) {n : ℤ} → positive_amount a ≡ ok n → a ≡ integer n
unfolding positive_amount
positive_amount-integer (integer n) h = ground arith
positive_amount-integer fraction h = absurd (ground arith)

nonzero_delta-integer : (a : Number) {n : ℤ} → nonzero_delta a ≡ ok n → a ≡ integer n
unfolding nonzero_delta
nonzero_delta-integer (integer n) h = ground arith
nonzero_delta-integer fraction h = absurd (ground arith)

module _ (W : Wallets) (L : Ledger) (config : Config) where
  -- a replay, or a new entry of the parameters under a key that had none
  abbrev pub Recorded : Params → MutationResult → State W L → State W L → Type 0
  Recorded p r s t =
      ((r.replayed ≡ true) × (t ≡ s))
      ⊎ ((r.replayed ≡ false)
          × (L.lookup p.idempotency_key s.db.ledger ≡ none)
          × (L.lookup p.idempotency_key t.db.ledger ≡ some r.entry)
          × (r.entry ≡ entry_for p r.balance))

  apply-Recorded :
      (p : Params) (s : State W L) {r : MutationResult}
      → (apply W L config p s).0 ≡ ok r
      → Recorded p r s (apply W L config p s).1
  unfolding outcome
  apply-Recorded p s {r} h = elim (apply-Done W L config p s {r = r} h) [
    | inl same ↦ inl same
    | inr (new, fresh, moved) ↦
        let (a, d) = apply-outcome W L config p s in
        let put =
          L.lookup-put p.idempotency_key p.idempotency_key
            (entry_for p (get_balance W L p.subject s.db +ℤ p.delta)) s.db.ledger in
        let found = string_key.same_iff p.idempotency_key p.idempotency_key in
        inr (new, fresh, ground arith, ground arith)
  ]

  -- a call that passes its checks is `apply` on its amount and subject
  guarded-Recorded :
      (type : LedgerType) (guard : Number → Result ℤ) (input : Input) (s : State W L)
      {r : MutationResult}
      → (guarded W L config type guard input s).0 ≡ ok r
      → (n : ℤ) × (subject : BillingSubject) × (guard input.amount ≡ ok n)
        × (resolve_subject input ≡ ok subject)
        × Recorded (params_for type input subject n) r s (guarded W L config type guard input s).1
  guarded-Recorded type guard input s {r} h = elim (Result-cases (guard input.amount)) [
    | inl (e, refused) ↦ absurd (ground arith)
    | inr (n, checked) ↦ elim (Result-cases (resolve_subject input)) [
      | inl (e, nobody) ↦ absurd (ground arith)
      | inr (subject, known) ↦
          let same : apply W L config (params_for type input subject n) s
              ≡ guarded W L config type guard input s =
            ground arith in
          (
            n,
            subject,
            checked,
            known,
            subst (λ x. Recorded (params_for type input subject n) r s x.1) same
                (apply-Recorded (params_for type input subject n) s {r = r}
                  (ap (λ x. x.0) same ∙ h)),
          )
    ]
  ]

  pub grant-Recorded :
      (input : Input) (s : State W L) {r : MutationResult}
      → (grant W L config input s).0 ≡ ok r
      → (n : ℤ) × (subject : BillingSubject) × (input.amount ≡ integer n)
        × (resolve_subject input ≡ ok subject)
        × Recorded (params_for LedgerType.grant input subject n) r s (grant W L config input s).1
  unfolding grant
  grant-Recorded input s {r} h =
      let (n, subject, checked, known, recorded) =
        guarded-Recorded LedgerType.grant positive_amount input s {r = r} h in
      (n, subject, positive_amount-integer input.amount checked, known, recorded)

  pub adjust-Recorded :
      (input : Input) (s : State W L) {r : MutationResult}
      → (adjust W L config input s).0 ≡ ok r
      → (n : ℤ) × (subject : BillingSubject) × (input.amount ≡ integer n)
        × (resolve_subject input ≡ ok subject)
        × Recorded (params_for LedgerType.adjust input subject n) r s (adjust W L config input s).1
  unfolding adjust
  adjust-Recorded input s {r} h =
      let (n, subject, checked, known, recorded) =
        guarded-Recorded LedgerType.adjust nonzero_delta input s {r = r} h in
      (n, subject, nonzero_delta-integer input.amount checked, known, recorded)
