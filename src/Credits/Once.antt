-- ===== src/Credits/Once.antt =====
-- A credit that is sent several times under one key is applied once.
use nestjs_enterprise_starte.Common.Errors.{other}
use nestjs_enterprise_starte.Credits.Trace.{run}
use nestjs_enterprise_starte.Credits.Balance.{positive_amount-suc}
use nestjs_enterprise_starte.Organizations.Subject.{subject_key}
use nestjs_enterprise_starte.Prelude.Int.{◌+ℤ◌}
use nestjs_enterprise_starte.Credits.Replay.{
  accepted_reuse, perform_retry, apply_records, apply-outcome, apply_replays,
}
use nestjs_enterprise_starte.Common.Exec.{
  err, is_heard, over, Reply, Exec, heard, lost_before, lost_after, ok,
}
use nestjs_enterprise_starte.Credits.Effect.{get_balance-settled, outcome}
use nestjs_enterprise_starte.Credits.{
  Thrown, Mutation, spend, adjust, perform, positive_amount, params_for, guarded, pos, integer,
  Input, resolve_subject, grant, refund, LedgerType, entry_for, get_balance, BillingSubject, apply,
  MutationResult, Json, Params, Entry, Ledger, direction_mismatch, replay_mismatch, Wallets, State,
  Config,
}
use nestjs_enterprise_starte.Prelude.{
  Option-cases, inr, inl, ◌⊎◌, List, ap, suc, ℕ, String, sym, arith, ◌===◌, if◌then◌else◌, ◌∙◌,
  true, none, false, some, ◌≡◌, Option, string_key, refl,
}

-- whether a mutation agrees with the entry under its key does not depend on its metadata
replay_mismatch-metadata :
    (e : Entry) (p : Params) (m : Option Json)
    → replay_mismatch e (record p { metadata = m }) ≡ replay_mismatch e p
unfolding replay_mismatch direction_mismatch
replay_mismatch-metadata e p m = refl

module _ (W : Wallets) (L : Ledger) (config : Config) where
  -- The mutation has been applied: its entry is in the ledger.
  abbrev pub IsApplied : Params → State W L → Type 0
  IsApplied p s =
      (e : Entry) × (L.lookup p.idempotency_key s.db.ledger ≡ some e)
      × (replay_mismatch e p ≡ false)

  -- An applied mutation changes nothing when it is sent again, with other metadata or not.
  pub apply_again :
      (p : Params) (m : Option Json) (s : State W L)
      → IsApplied p s
      → (r : MutationResult) × (apply W L config (record p { metadata = m }) s ≡ (ok r, s))
  apply_again p m s (e, found, agrees) = (
    record { entry = e; balance = e.balance_after; replayed = true },
    apply_replays W L config (record p { metadata = m }) s {e = e} found
        (replay_mismatch-metadata e p m ∙ agrees),
  )

  -- A credit under a fresh key goes through, adds its amount to its subject's wallet and is applied.
  pub credit_first :
      (p : Params) (m : Option Json) (s : State W L)
      → p.fail_if_insufficient ≡ false
      → L.lookup p.idempotency_key s.db.ledger ≡ none
      → (r : MutationResult) × ((apply W L config (record p { metadata = m }) s).0 ≡ ok r)
        × IsApplied p (apply W L config (record p { metadata = m }) s).1
        × ((u : BillingSubject)
            → get_balance W L u (apply W L config (record p { metadata = m }) s).1.db ≡ (
                if p.subject === u
                then get_balance W L p.subject s.db +ℤ p.delta
                else get_balance W L u s.db))
  unfolding outcome
  credit_first p m s free fresh =
      let q : Params = record p { metadata = m } in
      let (a, d) = apply-outcome W L config q s in
      let r : MutationResult = record {
        entry = entry_for q (get_balance W L p.subject s.db +ℤ p.delta);
        balance = get_balance W L p.subject s.db +ℤ p.delta;
        replayed = false;
      } in
      let went : (apply W L config q s).0 ≡ ok r = ground (arith, a) in
      let (found, agrees, balance) = apply_records W L config q s {r = r} went in
      (
        r,
        went,
        (r.entry, found, sym (replay_mismatch-metadata r.entry p m) ∙ agrees),
        λ u. ground (arith, d, get_balance-settled W L q s.db u),
      )

  -- the credit has been applied since, and no wallet but the subject's has changed
  abbrev pub Paid : Params → State W L → State W L → Type 0
  Paid p before s =
      IsApplied p s
      × ((u : BillingSubject)
          → get_balance W L u s.db ≡ (
              if p.subject === u
              then get_balance W L p.subject before.db +ℤ p.delta
              else get_balance W L u before.db))

  -- one attempt of a credit over a connection that may fail
  module _ (p : Params) (m : Option Json) (call : Exec (State W L) MutationResult)
      (is_apply : (s : State W L) → call s ≡ apply W L config (record p { metadata = m }) s) where
    pub over_again : (reply : Reply) (s : State W L) → IsApplied p s → (over reply call s).1 ≡ s
    over_again heard s h = ground (arith, is_apply s, apply_again p m s h)
    over_again lost_before s h = refl
    over_again lost_after s h = ground (arith, is_apply s, apply_again p m s h)

    -- Under a fresh key it does nothing, without being heard, or the whole credit.
    pub over_first :
        (reply : Reply) (s : State W L)
        → p.fail_if_insufficient ≡ false
        → L.lookup p.idempotency_key s.db.ledger ≡ none
        → let (r, s') = over reply call s in
          ((is_heard reply ≡ false) × (s' ≡ s) × ((e : Thrown) × (r ≡ err e)))
          ⊎ (Paid p s s' × ((is_heard reply ≡ true) → (a : MutationResult) × (r ≡ ok a)))
    over_first lost_before s free fresh = inl (refl, refl, (other "connection lost", refl))
    over_first heard s free fresh =
        let (r, went, applied, moved) = credit_first p m s free fresh in
        rw (is_apply s) (inr ((applied, moved), λ h. (r, went)))
    over_first lost_after s free fresh =
        let (r, went, applied, moved) = credit_first p m s free fresh in
        rw (is_apply s) (inr ((applied, moved), λ h. absurd (ground arith)))

  -- A mutation under a fresh key that goes through moves the wallet of its subject by its delta, and
  -- touches no other wallet and no other key.
  pub applied_first :
      (p : Params) (s : State W L) {r : MutationResult}
      → L.lookup p.idempotency_key s.db.ledger ≡ none
      → (apply W L config p s).0 ≡ ok r
      → ((u : BillingSubject)
          → get_balance W L u (apply W L config p s).1.db ≡ (
              if p.subject === u
              then get_balance W L p.subject s.db +ℤ p.delta
              else get_balance W L u s.db))
        × ((k : String)
            → (p.idempotency_key === k) ≡ false
            → L.lookup k (apply W L config p s).1.db.ledger ≡ L.lookup k s.db.ledger)
  unfolding outcome
  applied_first p s {r} fresh h =
      let (a, d) = apply-outcome W L config p s in
      (
        λ u. ground (arith, a, d, get_balance-settled W L p s.db u),
        λ k apart. ground (
          arith,
          a,
          d,
          L.lookup-put p.idempotency_key k (entry_for p (get_balance W L p.subject s.db +ℤ p.delta))
              s.db.ledger,
        ),
      )

  -- What a call that went through has done: nothing, as a replay, or, under a key that had none, the
  -- movement of the wallet of its subject by its delta.
  abbrev pub Done : Params → MutationResult → State W L → State W L → Type 0
  Done p r s t =
      ((r.replayed ≡ true) × (t ≡ s))
      ⊎ ((r.replayed ≡ false)
          × (L.lookup p.idempotency_key s.db.ledger ≡ none)
          × ((u : BillingSubject)
              → get_balance W L u t.db ≡ (
                  if p.subject === u
                  then get_balance W L p.subject s.db +ℤ p.delta
                  else get_balance W L u s.db)))

  pub apply-Done :
      (p : Params) (s : State W L) {r : MutationResult}
      → (apply W L config p s).0 ≡ ok r
      → Done p r s (apply W L config p s).1
  unfolding outcome
  apply-Done p s {r} h = elim (Option-cases (L.lookup p.idempotency_key s.db.ledger)) [
    | inr (e, found) ↦
        let (replayed, agrees) = accepted_reuse W L config p s {r = r} {e = e} found h in
        inl (replayed, ap (λ x. x.1) (apply_replays W L config p s {e = e} found agrees))
    | inl fresh ↦
        let (a, d) = apply-outcome W L config p s in
        inr (ground (arith, a), fresh, (applied_first p s {r = r} fresh h).0)
  ]

  -- A call with a positive amount and a known subject is `apply`.
  guarded-eq-apply :
      (type : LedgerType) (input : Input) (s : State W L) (n : ℕ) (subject : BillingSubject)
      → input.amount ≡ integer (pos (suc n))
      → resolve_subject input ≡ ok subject
      → guarded W L config type positive_amount input s
        ≡ apply W L config (params_for type input subject (pos (suc n))) s
  guarded-eq-apply type input s n subject amount known =
      let checked : positive_amount input.amount ≡ ok (pos (suc n)) =
        ap positive_amount amount ∙ positive_amount-suc n in
      rw checked (rw known)

  pub refund-eq-apply :
      (input : Input) (s : State W L) (n : ℕ) (subject : BillingSubject)
      → input.amount ≡ integer (pos (suc n))
      → resolve_subject input ≡ ok subject
      → refund W L config input s
        ≡ apply W L config (params_for LedgerType.refund input subject (pos (suc n))) s
  unfolding refund
  refund-eq-apply = guarded-eq-apply LedgerType.refund

  pub grant-eq-apply :
      (input : Input) (s : State W L) (n : ℕ) (subject : BillingSubject)
      → input.amount ≡ integer (pos (suc n))
      → resolve_subject input ≡ ok subject
      → grant W L config input s
        ≡ apply W L config (params_for LedgerType.grant input subject (pos (suc n))) s
  unfolding grant
  grant-eq-apply = guarded-eq-apply LedgerType.grant

  pub perform-grant :
      (input : Input) (s : State W L)
      → perform W L config (record { type = LedgerType.grant; input = input }) s
        ≡ grant W L config input s
  unfolding perform
  perform-grant input s = refl

  pub perform-adjust :
      (input : Input) (s : State W L)
      → perform W L config (record { type = LedgerType.adjust; input = input }) s
        ≡ adjust W L config input s
  unfolding perform
  perform-adjust input s = refl

  -- A spend that went through is replayed after any other calls, and changes nothing.
  pub spend_retry :
      (input : Input) (s : State W L) {r : MutationResult}
      → (spend W L config input s).0 ≡ ok r
      → (ms : List Mutation)
      → let s' = (run W L config ms (spend W L config input s).1).1 in
        spend W L config input s' ≡ (ok (record r { replayed = true }), s')
  unfolding perform
  spend_retry input s {r} h ms =
      perform_retry W L config (record { type = LedgerType.spend; input = input }) s {r = r} h ms

-- an input that names its subject
pub resolve_subject-some :
    (input : Input) (subject : BillingSubject)
    → input.subject ≡ some subject
    → resolve_subject input ≡ ok subject
unfolding resolve_subject
resolve_subject-some input subject h = ground arith
