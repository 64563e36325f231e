-- ===== src/Credits/Balance.antt =====
-- Balances: every credit that a wallet gains or loses is in the ledger, and no wallet is overdrawn.
use nestjs_enterprise_starte.Common.Exec.{error_code}
use nestjs_enterprise_starte.Prelude.{
  refl, ===_refl, some, true, none, suc, ℕ, ◌≡◌, List, [], ◌∷◌, ◌++◌, arith, ◌===◌, if◌then◌else◌,
  inl, inr, Option-cases, Bool-cases, ap, string_key, ◌∙◌, sym,
}
use nestjs_enterprise_starte.Prelude.Int.{
  +ℤ_parts, negsuc, ℤ, pos, ◌+ℤ◌, ◌≤ℤ◌, int_laws, +ℤ-zero, +ℤ_assoc,
}
use nestjs_enterprise_starte.Organizations.Subject.{BillingSubject, subject_key}
use nestjs_enterprise_starte.Credits.{
  LedgerType, params_for, ErrorCode, apply, ltb_ℤ, ok, resolve_subject, integer, Input,
  positive_amount, spend, Params, Wallets, Ledger, Db, State, Config, Mutation, Entry, get_balance,
  owner_mismatch, entry_for, perform,
}
use nestjs_enterprise_starte.Credits.Effect.{outcome, get_balance-settled, is_short, settled}
use nestjs_enterprise_starte.Credits.Replay.{apply-outcome}
use nestjs_enterprise_starte.Credits.Trace.{
  IsCall, movement, movement-entry_for, owner_mismatch-entry_for, fresh_entries, perform-cases, run,
}

-- the sum of the movements of the entries that a subject owns
abbrev pub moved : BillingSubject → List Entry → ℤ
moved u [] = pos 0
moved u (e ∷ es) = (if owner_mismatch u e then pos 0 else movement e) +ℤ moved u es

pub moved-append :
    (u : BillingSubject) (xs ys : List Entry) → moved u (xs ++ ys) ≡ moved u xs +ℤ moved u ys
moved-append u [] ys = omega int_laws
moved-append u (x ∷ xs) ys = rw (moved-append u xs ys) (sym (+ℤ_assoc _ _ _))

pub positive_amount-suc : (n : ℕ) → positive_amount (integer (pos (suc n))) ≡ ok (pos (suc n))
unfolding positive_amount
positive_amount-suc n = ground arith

covers-neg : (b : ℤ) (n : ℕ) → ltb_ℤ b (pos (suc n)) ≡ ltb_ℤ (b +ℤ negsuc n) (pos 0)
covers-neg b n = ground (arith, +ℤ_parts b (negsuc n))

module _ (W : Wallets) (L : Ledger) where
  settled_moves :
      (p : Params) (db : Db W L) (u : BillingSubject)
      → IsCall p
      → get_balance W L u (settled W L p db)
        ≡ get_balance W L u db
          +ℤ moved u (entry_for p (get_balance W L p.subject db +ℤ p.delta) ∷ [])
  settled_moves p db u c =
      rw
        (
          get_balance-settled W L p db u,
          owner_mismatch-entry_for u p (get_balance W L p.subject db +ℤ p.delta),
          movement-entry_for p (get_balance W L p.subject db +ℤ p.delta) c,
          +ℤ-zero,
        )
        (elim (Bool-cases (p.subject === u)) [
          | inl same ↦ rw same (
              ap (λ x. get_balance W L x db +ℤ p.delta) ((subject_key.same_iff p.subject u).0 same))
          | inr differ ↦ rw differ (sym (+ℤ-zero (get_balance W L u db)))
        ])

  pub outcome_moves :
      (p : Params) (db : Db W L) (u : BillingSubject)
      → IsCall p
      → get_balance W L u (outcome W L p db).1
        ≡ get_balance W L u db +ℤ moved u (fresh_entries (outcome W L p db).0)
  unfolding outcome
  outcome_moves p db u c = elim (Option-cases (L.lookup p.idempotency_key db.ledger)) [
    | inr (e, found) ↦ ground (arith, +ℤ-zero (get_balance W L u db))
    | inl fresh ↦ elim (Bool-cases (is_short W L p db)) [
      | inl short ↦ ground (arith, +ℤ-zero (get_balance W L u db))
      | inr covered ↦ rw (fresh, outcome) (rw covered (settled_moves p db u c))
    ]
  ]

  pub outcome_nonneg :
      (p : Params) (db : Db W L) (u : BillingSubject)
      → IsCall p
      → pos 0 ≤ℤ get_balance W L u db
      → pos 0 ≤ℤ get_balance W L p.subject db
      → pos 0 ≤ℤ get_balance W L u (outcome W L p db).1
  unfolding outcome
  outcome_nonneg p db u c hu hp = grind (int_laws, get_balance-settled W L p db u, c.guards)

module _ (W : Wallets) (L : Ledger) (config : Config) where
  perform_moves :
      (m : Mutation) (s : State W L) (u : BillingSubject)
      → get_balance W L u (perform W L config m s).1.db
        ≡ get_balance W L u s.db +ℤ moved u (fresh_entries (perform W L config m s).0)
  perform_moves m s u = elim (perform-cases W L config m) [
    | inl (e, early) ↦ rw early (sym (+ℤ-zero _))
    | inr (p, c, call) ↦
        let (r, d) = apply-outcome W L config p s in rw (call, d, r) (outcome_moves W L p s.db u c)
  ]

  -- Whatever the calls, the balance of every wallet at the end is the balance at the start plus the
  -- movements of the ledger entries that the calls created for its owner.
  pub balance-run :
      (ms : List Mutation) (s : State W L) (u : BillingSubject)
      → get_balance W L u (run W L config ms s).1.db
        ≡ get_balance W L u s.db +ℤ moved u (run W L config ms s).0
  unfolding run
  balance-run [] s u = sym (+ℤ-zero _)
  balance-run (m ∷ ms) s u =
      let (r, s') = perform W L config m s in
      balance-run ms s' u
      ∙ rw
          (perform_moves m s u, +ℤ_assoc, moved-append u (fresh_entries r) (run W L config ms s').0)

  -- no wallet is overdrawn
  abbrev pub IsSolvent : State W L → Type 0
  IsSolvent s = (u : BillingSubject) → pos 0 ≤ℤ get_balance W L u s.db

  perform-IsSolvent :
      (m : Mutation) (s : State W L) → IsSolvent s → IsSolvent (perform W L config m s).1
  perform-IsSolvent m s h u = elim (perform-cases W L config m) [
    | inl (e, early) ↦ rw early (h u)
    | inr (p, c, call) ↦
        rw (call, (apply-outcome W L config p s).1)
          (outcome_nonneg W L p s.db u c (h u) (h p.subject))
  ]

  -- If no wallet is overdrawn, then none is after any calls.
  pub run-IsSolvent :
      (ms : List Mutation) (s : State W L) → IsSolvent s → IsSolvent (run W L config ms s).1
  unfolding run
  run-IsSolvent [] s h = h
  run-IsSolvent (m ∷ ms) s h = run-IsSolvent ms (perform W L config m s).1 (perform-IsSolvent m s h)

  -- a debit under an unused key, before the input is looked at
  debit_exact :
      (p : Params) (s : State W L)
      → p.fail_if_insufficient ≡ true
      → L.lookup p.idempotency_key s.db.ledger ≡ none
      → let b = get_balance W L p.subject s.db in
        let (r, s') = apply W L config p s in
        if ltb_ℤ (b +ℤ p.delta) (pos 0)
        then (error_code r ≡ some ErrorCode.insufficient_credits)
          × (get_balance W L p.subject s'.db ≡ b)
        else (error_code r ≡ none) × (get_balance W L p.subject s'.db ≡ b +ℤ p.delta)
  unfolding outcome
  debit_exact p s guarded fresh =
      let (a, d) = apply-outcome W L config p s in
      rw (a, d) (grind (arith, get_balance-settled W L p s.db p.subject, ===_refl p.subject))

  pub spend-eq-apply :
      (input : Input) (s : State W L) (n : ℕ) (subject : BillingSubject)
      → input.amount ≡ integer (pos (suc n))
      → resolve_subject input ≡ ok subject
      → spend W L config input s
        ≡ apply W L config (params_for LedgerType.spend input subject (pos (suc n))) s
  unfolding spend
  spend-eq-apply input s n subject amount known =
      let checked : positive_amount input.amount ≡ ok (pos (suc n)) =
        ap positive_amount amount ∙ positive_amount-suc n in
      rw checked (rw known)

  -- A spend under an unused key, of a positive amount by a known subject, takes exactly the amount
  -- from the wallet if the wallet covers it, and is refused with INSUFFICIENT_CREDITS otherwise.
  pub spend_exact :
      (input : Input) (s : State W L) (n : ℕ) (subject : BillingSubject)
      → input.amount ≡ integer (pos (suc n))
      → resolve_subject input ≡ ok subject
      → L.lookup input.idempotency_key s.db.ledger ≡ none
      → let b = get_balance W L subject s.db in
        let (r, s') = spend W L config input s in
        if ltb_ℤ b (pos (suc n))
        then (error_code r ≡ some ErrorCode.insufficient_credits)
          × (get_balance W L subject s'.db ≡ b)
        else (error_code r ≡ none) × (get_balance W L subject s'.db ≡ b +ℤ negsuc n)
  spend_exact input s n subject amount known fresh =
      rw
        (spend-eq-apply input s n subject amount known, covers-neg (get_balance W L subject s.db) n)
        (debit_exact (params_for LedgerType.spend input subject (pos (suc n))) s refl fresh)
