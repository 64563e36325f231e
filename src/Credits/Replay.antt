-- ===== src/Credits/Replay.antt =====
-- Idempotency keys of credit mutations: what a retry, a reuse and a failure do.
use mathlib.Core.Path.{subst⁻¹}
use nestjs_enterprise_starte.Prelude.{
  [], ap, inr, inl, ◌∷◌, List, String, ◌≡◌, refl, true, false, Option, none, some, arith,
  string_key, ===_refl, ◌↔◌,
}
use nestjs_enterprise_starte.Prelude.Int.{ℤ, ◌+ℤ◌, int_eq_iff}
use nestjs_enterprise_starte.Common.Errors.{Thrown}
use nestjs_enterprise_starte.Common.Exec.{ok, err}
use nestjs_enterprise_starte.Organizations.Subject.{subject_key}
use nestjs_enterprise_starte.Credits.{
  perform, Mutation, Params, MutationResult, Wallets, Ledger, State, Config, LedgerType, Entry,
  get_balance, entry_for, replay_mismatch, same_text?, same_type, apply, in_transaction,
  record_mutation, signal_low_balance,
}
use nestjs_enterprise_starte.Credits.Effect.{outcome, transaction-eq-outcome}
use nestjs_enterprise_starte.Credits.Trace.{
  perform-cases, run, IsCall, owner_mismatch-entry_for, stored_delta-entry_for,
}

module _ (W : Wallets) (L : Ledger) (config : Config) (p : Params) (s : State W L) where
  -- the result of `apply` and the database after it are those of the transaction
  pub apply-outcome :
      ((apply W L config p s).0 ≡ (outcome W L p s.db).0)
      × ((apply W L config p s).1.db ≡ (outcome W L p s.db).1)
  unfolding apply in_transaction record_mutation signal_low_balance
  apply-outcome = ground (arith, transaction-eq-outcome W L p s.db)

  -- A mutation that throws leaves the database, the events and the metrics as they were.
  pub apply_failure_changes_nothing :
      {e : Thrown} → (apply W L config p s).0 ≡ err e → (apply W L config p s).1 ≡ s
  unfolding apply in_transaction outcome
  apply_failure_changes_nothing {e} h = ground (arith, transaction-eq-outcome W L p s.db)

same_text?_refl : (o : Option String) → same_text? o o ≡ true
same_text?_refl none = refl
same_text?_refl (some a) = ===_refl a

same_type_iff : (a b : LedgerType) → (same_type a b ≡ true) ↔ (a ≡ b)
same_type_iff a b = ground arith

-- Replaying what was just asked for is no conflict.
replay_mismatch-entry_for : (p : Params) (b : ℤ) → replay_mismatch (entry_for p b) p ≡ false
unfolding replay_mismatch
replay_mismatch-entry_for p b = ground (
  arith,
  owner_mismatch-entry_for p.subject p b,
  ===_refl p.subject,
  stored_delta-entry_for p b,
  int_eq_iff p.delta p.delta,
  int_eq_iff p.amount p.amount,
  same_text?_refl p.feature,
  same_type_iff p.type p.type,
  same_type_iff p.type LedgerType.adjust,
)

-- What may reuse the key of an entry of this service is the same mutation again.
same_mutation :
    (p q : Params) (b : ℤ)
    → IsCall p
    → IsCall q
    → replay_mismatch (entry_for q b) p ≡ false
    → (p.subject ≡ q.subject) × (p.type ≡ q.type) × (p.delta ≡ q.delta)
unfolding replay_mismatch
same_mutation p q b cp cq h = ground (
  arith,
  cp.signed,
  cq.signed,
  owner_mismatch-entry_for p.subject q b,
  subject_key.same_iff q.subject p.subject,
  stored_delta-entry_for q b,
  int_eq_iff q.delta p.delta,
  int_eq_iff q.amount p.amount,
  same_type_iff q.type p.type,
  same_type_iff p.type LedgerType.adjust,
)

module _ (W : Wallets) (L : Ledger) (config : Config) where
  pub apply_records :
      (p : Params) (s : State W L) {r : MutationResult}
      → (apply W L config p s).0 ≡ ok r
      → (L.lookup p.idempotency_key (apply W L config p s).1.db.ledger ≡ some r.entry)
        × (replay_mismatch r.entry p ≡ false)
        × (r.balance ≡ r.entry.balance_after)
  unfolding outcome
  apply_records p s {r} h =
      let (a, d) = apply-outcome W L config p s in
      ground (
        arith,
        replay_mismatch-entry_for p (get_balance W L p.subject s.db +ℤ p.delta),
        L.lookup-put p.idempotency_key p.idempotency_key
            (entry_for p (get_balance W L p.subject s.db +ℤ p.delta)) s.db.ledger,
        string_key.same_iff p.idempotency_key p.idempotency_key,
      )

  pub apply_replays :
      (p : Params) (s : State W L) {e : Entry}
      → L.lookup p.idempotency_key s.db.ledger ≡ some e
      → replay_mismatch e p ≡ false
      → apply W L config p s
        ≡ (ok (record { entry = e; balance = e.balance_after; replayed = true }), s)
  unfolding apply in_transaction outcome record_mutation signal_low_balance
  apply_replays p s {e} found agrees = ground (arith, transaction-eq-outcome W L p s.db)

  pub apply_keeps_entries :
      (p : Params) (s : State W L) (k : String) {e : Entry}
      → L.lookup k s.db.ledger ≡ some e
      → L.lookup k (apply W L config p s).1.db.ledger ≡ some e
  unfolding outcome
  apply_keeps_entries p s k {e} found =
      let (a, d) = apply-outcome W L config p s in
      ground (
        arith,
        d,
        L.lookup-put p.idempotency_key k (entry_for p (get_balance W L p.subject s.db +ℤ p.delta))
            s.db.ledger,
        string_key.same_iff p.idempotency_key k,
      )

  pub perform_keeps_entries :
      (m : Mutation) (s : State W L) (k : String) {e : Entry}
      → L.lookup k s.db.ledger ≡ some e
      → L.lookup k (perform W L config m s).1.db.ledger ≡ some e
  perform_keeps_entries m s k found = elim (perform-cases W L config m) [
    | inl (x, early) ↦ rw early found
    | inr (p, c, call) ↦ rw call (apply_keeps_entries p s k found)
  ]

  run_keeps_entries :
      (ms : List Mutation) (s : State W L) (k : String) {e : Entry}
      → L.lookup k s.db.ledger ≡ some e
      → L.lookup k (run W L config ms s).1.db.ledger ≡ some e
  unfolding run
  run_keeps_entries [] s k found = found
  run_keeps_entries (m ∷ ms) s k found =
      run_keeps_entries ms (perform W L config m s).1 k (perform_keeps_entries m s k found)

  -- A mutation that throws leaves the wallets, the ledger, the events and the metrics as they were.
  pub perform_failure_changes_nothing :
      (m : Mutation) (s : State W L) {e : Thrown}
      → (perform W L config m s).0 ≡ err e
      → (perform W L config m s).1 ≡ s
  perform_failure_changes_nothing m s {e} h = elim (perform-cases W L config m) [
    | inl (x, early) ↦ rw early
    | inr (p, c, call) ↦
        rw call (apply_failure_changes_nothing W L config p s {e = e} (rw call at h))
  ]

  apply_retry :
      (p : Params) (s : State W L) {r : MutationResult}
      → (apply W L config p s).0 ≡ ok r
      → (ms : List Mutation)
      → let s' = (run W L config ms (apply W L config p s).1).1 in
        apply W L config p s' ≡ (ok (record r { replayed = true }), s')
  apply_retry p s {r} h ms =
      let (found, agrees, balance) = apply_records p s {r = r} h in
      let s' = (run W L config ms (apply W L config p s).1).1 in
      rw (
        apply_replays p s' (run_keeps_entries ms (apply W L config p s).1 p.idempotency_key found)
            agrees,
        balance,
      )

  -- A mutation that succeeded may be sent again, after any other calls: it returns the entry and
  -- the balance of the first time, marked as replayed, and changes nothing.
  pub perform_retry :
      (m : Mutation) (s : State W L) {r : MutationResult}
      → (perform W L config m s).0 ≡ ok r
      → (ms : List Mutation)
      → let s' = (run W L config ms (perform W L config m s).1).1 in
        perform W L config m s' ≡ (ok (record r { replayed = true }), s')
  perform_retry m s {r} h ms = elim (perform-cases W L config m) [
    | inl (x, early) ↦ cc (ap (λ f. (f s).0) early)
    | inr (p, c, call) ↦
        subst⁻¹
          (λ f.
            let s' = (run W L config ms (f s).1).1 in
            f s' ≡ (ok (record r { replayed = true }), s'))
          call (apply_retry p s (rw call at h) ms)
  ]

  fresh_entry :
      (q : Params) (s : State W L) {r : MutationResult}
      → L.lookup q.idempotency_key s.db.ledger ≡ none
      → (apply W L config q s).0 ≡ ok r
      → r.entry ≡ entry_for q (get_balance W L q.subject s.db +ℤ q.delta)
  unfolding outcome
  fresh_entry q s {r} fresh h = let (a, d) = apply-outcome W L config q s in ground (arith, a)

  pub accepted_reuse :
      (p : Params) (s : State W L) {r : MutationResult} {e : Entry}
      → L.lookup p.idempotency_key s.db.ledger ≡ some e
      → (apply W L config p s).0 ≡ ok r
      → (r.replayed ≡ true) × (replay_mismatch e p ≡ false)
  unfolding outcome
  accepted_reuse p s {r} {e} found h =
      let (a, d) = apply-outcome W L config p s in ground (arith, a)

  -- Two mutations under one key that both go through, with any calls between them, are the same
  -- mutation, if the key was unused before the first one: same subject, same type and same signed
  -- delta, and the second one is a replay.
  pub same_key_same_mutation :
      (p q : Params) (s : State W L) {r r' : MutationResult}
      → IsCall p
      → IsCall q
      → p.idempotency_key ≡ q.idempotency_key
      → L.lookup q.idempotency_key s.db.ledger ≡ none
      → (apply W L config q s).0 ≡ ok r
      → (ms : List Mutation)
      → (apply W L config p (run W L config ms (apply W L config q s).1).1).0 ≡ ok r'
      → (r'.replayed ≡ true) × ((p.subject ≡ q.subject) × (p.type ≡ q.type) × (p.delta ≡ q.delta))
  same_key_same_mutation p q s {r} {r'} cp cq same fresh h ms h' =
      let (found, _, _) = apply_records q s {r = r} h in
      let kept : L.lookup p.idempotency_key (run W L config ms (apply W L config q s).1).1.db.ledger
          ≡ some r.entry =
        rw same (run_keeps_entries ms (apply W L config q s).1 q.idempotency_key found) in
      let (again, agrees) =
        accepted_reuse p (run W L config ms (apply W L config q s).1).1 {r = r'} kept h' in
      (
        again,
        same_mutation p q (get_balance W L q.subject s.db +ℤ q.delta) cp cq
            (rw (fresh_entry q s {r = r} fresh h) at agrees),
      )
