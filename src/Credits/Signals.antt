-- ===== src/Credits/Signals.antt =====
-- The low-balance event and the metric of `CreditService.apply`.
use nestjs_enterprise_starte.Prelude.{true, refl}
use nestjs_enterprise_starte.Credits.Replay.{apply-outcome}
use nestjs_enterprise_starte.Credits.Trace.{fresh_entries}
use nestjs_enterprise_starte.Credits.Effect.{
  is_short, get_balance-settled, transaction-eq-outcome, outcome,
}
use nestjs_enterprise_starte.Prelude.Int.{◌+ℤ◌, +ℤ_parts, ℤ}
use nestjs_enterprise_starte.Organizations.Subject.{subject_key, BillingSubject}
use nestjs_enterprise_starte.Credits.{
  entry_for, err, ok, pos, MutationResult, Result, owner_user, leb_ℤ, ltb_ℤ, Entry, get_balance,
  State, Params, low_threshold, signal_low_balance, record_mutation, LowBalance, in_transaction,
  apply, Ledger, Wallets, Config,
}
use nestjs_enterprise_starte.Prelude.{
  Bool-cases, ap, false, ◌∷◌, ◌&&◌, if◌then◌else◌, ===_refl, inl, inr, Option-cases, some, ◌++◌,
  map, [], none, List, ◌≡◌, arith,
}

-- the events of one mutation, from the balances of the wallet before and after it
abbrev pub warnings : Config → BillingSubject → ℤ → ℤ → List LowBalance
warnings config subject before after = elim config.low_balance_threshold [
  | none ↦ []
  | some threshold ↦
      if ltb_ℤ after before && leb_ℤ after threshold
      then record {
        subject = subject;
        user_id = owner_user subject;
        balance = after;
        threshold = threshold;
      }
        ∷ []
      else []
]

ltb-+ℤ : (a b : ℤ) → ltb_ℤ (a +ℤ b) a ≡ ltb_ℤ b (pos 0)
ltb-+ℤ a b = ground (arith, +ℤ_parts a b)

module _ (W : Wallets) (L : Ledger) (config : Config) where
  signal_fresh :
      (p : Params) (r : MutationResult) (s : State W L) (before : ℤ)
      → r.replayed ≡ false
      → r.balance ≡ before +ℤ p.delta
      → (signal_low_balance W L config p r s).emitted
        ≡ warnings config p.subject before r.balance ++ s.emitted
  unfolding signal_low_balance low_threshold
  signal_fresh p r s before fresh e =
      ground (arith, fresh, ap (λ b. ltb_ℤ b before) e, ltb-+ℤ before p.delta)

  abbrev emitted_after : Params → State W L → Result MutationResult → List LowBalance
  emitted_after p s (ok r) = (signal_low_balance W L config p r s).emitted
  emitted_after p s (err _) = s.emitted

  emitted-eq-after :
      (p : Params) (s : State W L)
      → (apply W L config p s).1.emitted ≡ emitted_after p s (outcome W L p s.db).0
  unfolding apply in_transaction record_mutation signal_low_balance
  emitted-eq-after p s = ground (arith, transaction-eq-outcome W L p s.db)

  warnings_same : (u : BillingSubject) (b : ℤ) → warnings config u b b ≡ []
  warnings_same u b = ground arith

  replay_silent :
      (p : Params) (r : MutationResult) (s : State W L)
      → r.replayed ≡ true
      → (signal_low_balance W L config p r s).emitted ≡ s.emitted
  unfolding signal_low_balance
  replay_silent p r s replayed = ground arith

  abbrev applied : Params → State W L → MutationResult
  applied p s = record {
    entry = entry_for p (get_balance W L p.subject s.db +ℤ p.delta);
    balance = get_balance W L p.subject s.db +ℤ p.delta;
    replayed = false;
  }

  outcome_warns :
      (p : Params) (s : State W L)
      → emitted_after p s (outcome W L p s.db).0
        ≡ warnings config p.subject
            (get_balance W L p.subject s.db)
            (get_balance W L p.subject (outcome W L p s.db).1)
          ++ s.emitted
  unfolding outcome
  outcome_warns p s = elim (Option-cases (L.lookup p.idempotency_key s.db.ledger)) [
    | inr (e, found) ↦ ground (
      arith,
      warnings_same p.subject (get_balance W L p.subject s.db),
      replay_silent p (record { entry = e; balance = e.balance_after; replayed = true }) s refl,
    )
    | inl fresh ↦ elim (Bool-cases (is_short W L p s.db)) [
      | inl short ↦ ground (arith, warnings_same p.subject (get_balance W L p.subject s.db))
      | inr covered ↦
          rw (fresh, outcome)
            (rw (covered, get_balance-settled W L p s.db p.subject, ===_refl p.subject)
              (signal_fresh p (applied p s) s (get_balance W L p.subject s.db) refl refl))
    ]
  ]

  -- A low-balance event is emitted exactly when the call took credits from the wallet and left a
  -- balance at or below the configured threshold; it carries that balance. Calls that fail or are
  -- replayed, and calls that add credits, emit nothing.
  pub emitted-apply :
      (p : Params) (s : State W L)
      → (apply W L config p s).1.emitted
        ≡ warnings config p.subject
            (get_balance W L p.subject s.db)
            (get_balance W L p.subject (apply W L config p s).1.db)
          ++ s.emitted
  emitted-apply p s =
      rw (emitted-eq-after p s, (apply-outcome W L config p s).1) (outcome_warns p s)

  -- The metric counts the mutations that created an entry, by type, if there is a metrics service.
  pub recorded-apply :
      (p : Params) (s : State W L)
      → (apply W L config p s).1.recorded
        ≡ map
            (λ (e : Entry). e.type)
            (if config.has_metrics then fresh_entries (apply W L config p s).0 else [])
          ++ s.recorded
  unfolding apply in_transaction outcome record_mutation signal_low_balance
  recorded-apply p s = ground (arith, transaction-eq-outcome W L p s.db)
