-- ===== src/Credits/Effect.antt =====
-- What one transaction of `CreditService.apply` does to the wallets and the ledger.
use nestjs_enterprise_starte.Prelude.{
  ◌≡◌, Bool, true, false, ◌&&◌, none, some, arith, ◌===◌, if◌then◌else◌, Option-cases, Bool-cases,
  inl, inr,
}
use nestjs_enterprise_starte.Prelude.Int.{ℤ, pos, ◌+ℤ◌, ltb_ℤ}
use nestjs_enterprise_starte.Common.Exec.{Result, ok, err, rolled_back}
use nestjs_enterprise_starte.Organizations.Subject.{BillingSubject, subject_key}
use nestjs_enterprise_starte.Credits.{
  Thrown, other, Entry, Params, MutationResult, Wallets, Ledger, Db, get_balance, ensure_wallet,
  apply_locked, insufficient, entry_for, replay_mismatch, reuse_conflict, replay, transaction_body,
}

module _ (W : Wallets) (L : Ledger) (p : Params) (db : Db W L) where
  abbrev next : ℤ
  next = get_balance W L p.subject db +ℤ p.delta

  -- the database after a mutation that was applied
  abbrev pub settled : Db W L
  settled = record {
    wallets = W.put p.subject next (ensure_wallet W L p.subject db).wallets;
    ledger = L.put p.idempotency_key (entry_for p next) db.ledger;
  }

  -- A mutation under a fresh key that is covered is applied.
  pub apply_locked_settles :
      L.lookup p.idempotency_key db.ledger ≡ none
      → (p.fail_if_insufficient && ltb_ℤ next (pos 0)) ≡ false
      → apply_locked W L p db
        ≡ (ok (record { entry = entry_for p next; balance = next; replayed = false }), settled)
  unfolding apply_locked get_balance
  apply_locked_settles fresh covered = ground (
    arith,
    W.lookup-put p.subject p.subject (pos 0) db.wallets,
    subject_key.same_iff p.subject p.subject,
  )

  -- A debit that the wallet does not cover is refused.
  pub apply_locked_refuses :
      (p.fail_if_insufficient && ltb_ℤ next (pos 0)) ≡ true
      → (apply_locked W L p db).0 ≡ err (insufficient p (get_balance W L p.subject db))
  unfolding apply_locked get_balance
  apply_locked_refuses short = ground (
    arith,
    W.lookup-put p.subject p.subject (pos 0) db.wallets,
    subject_key.same_iff p.subject p.subject,
  )

  hits_index :
      {e : Entry}
      → (p.fail_if_insufficient && ltb_ℤ next (pos 0)) ≡ false
      → L.lookup p.idempotency_key db.ledger ≡ some e
      → (apply_locked W L p db).0 ≡ err (other "P2002: idempotencyKey")
  unfolding apply_locked get_balance
  hits_index {e} covered taken = ground (
    arith,
    W.lookup-put p.subject p.subject (pos 0) db.wallets,
    subject_key.same_iff p.subject p.subject,
  )

  -- A key that another transaction has used meanwhile breaks the unique index.
  pub apply_locked_collides :
      {e : Entry}
      → L.lookup p.idempotency_key db.ledger ≡ some e
      → (x : Thrown) × ((apply_locked W L p db).0 ≡ err x)
  apply_locked_collides {e} taken =
      elim (Bool-cases (p.fail_if_insufficient && ltb_ℤ next (pos 0))) [
        | inl short ↦ (insufficient p (get_balance W L p.subject db), apply_locked_refuses short)
        | inr covered ↦ (other "P2002: idempotencyKey", hits_index covered taken)
      ]

module _ (W : Wallets) (L : Ledger) where
  -- A debit that would leave less than nothing.
  abbrev pub is_short : Params → Db W L → Bool
  is_short p db = p.fail_if_insufficient && ltb_ℤ (get_balance W L p.subject db +ℤ p.delta) (pos 0)

  -- What a transaction comes to: the stored entry is replayed or its reuse refused, and under a
  -- fresh key the wallet moves by the delta unless it falls short.
  unfoldable pub outcome : Params → Db W L → Result MutationResult × Db W L
  outcome p db = elim (L.lookup p.idempotency_key db.ledger) [
    | some e ↦
        if replay_mismatch e p
        then (err (reuse_conflict e), db)
        else (ok (record { entry = e; balance = e.balance_after; replayed = true }), db)
    | none ↦
        if is_short p db
        then (err (insufficient p (get_balance W L p.subject db)), db)
        else let balance = get_balance W L p.subject db +ℤ p.delta in
          (
            ok (record { entry = entry_for p balance; balance = balance; replayed = false }),
            settled W L p db,
          )
  ]

  pub transaction-eq-outcome :
      (p : Params) (db : Db W L) → rolled_back db (transaction_body W L p db) ≡ outcome p db
  unfolding transaction_body replay outcome
  transaction-eq-outcome p db = elim (Option-cases (L.lookup p.idempotency_key db.ledger)) [
    | inr (e, found) ↦ ground arith
    | inl fresh ↦ elim (Bool-cases (is_short p db)) [
      | inl short ↦ ground (arith, apply_locked_refuses W L p db short)
      | inr covered ↦ ground (arith, apply_locked_settles W L p db fresh covered)
    ]
  ]

  -- The applied mutation moves the balance of its subject by the delta, and no other balance.
  pub get_balance-settled :
      (p : Params) (db : Db W L) (u : BillingSubject)
      → get_balance W L u (settled W L p db) ≡ (
          if p.subject === u then get_balance W L p.subject db +ℤ p.delta else get_balance W L u db)
  unfolding get_balance ensure_wallet
  get_balance-settled p db u = ground (
    arith,
    W.lookup-put p.subject u (get_balance W L p.subject db +ℤ p.delta)
        (ensure_wallet W L p.subject db).wallets,
    W.lookup-put p.subject u (pos 0) db.wallets,
    subject_key.same_iff p.subject u,
  )
