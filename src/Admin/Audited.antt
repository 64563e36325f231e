-- ===== src/Admin/Audited.antt =====
-- The audit trail follows the ledger.
use nestjs_enterprise_starte.Prelude.{
  false, ap, ◌∙◌, string_key, sym, ◌===◌, any, Bool-cases, arith, ◌∷◌, inr, some, inl, none, ◌⊎◌,
  true, ◌≡◌, String, refl,
}
use mathlib.Core.Path.{subst⁻¹}
use nestjs_enterprise_starte.Common.Json.{Json, Number, integer, object, set_field, end}
use Prim.Native.String.{◌++◌ as ◌⊕◌}
use nestjs_enterprise_starte.Prelude.Int.{ℤ, pos, abs}
use nestjs_enterprise_starte.Admin.Settled.{settle-cases}
use nestjs_enterprise_starte.Credits.Recorded.{grant-Recorded, adjust-Recorded}
use nestjs_enterprise_starte.Common.Exec.{Result, Reply, ok}
use nestjs_enterprise_starte.Credits
use nestjs_enterprise_starte.Organizations.Subject.{BillingSubject}
use nestjs_enterprise_starte.Credits.{
  owner_user, resolve_subject, entry_for, Params, params_for, Entry, MutationResult, Mutation,
  LedgerType, Wallets, Ledger, perform,
}
use nestjs_enterprise_starte.Credits.Once.{perform-grant, perform-adjust}
use nestjs_enterprise_starte.Admin.{
  AuditRow, Request, Receipt, Weather, Store, credit_input, grant_row, adjust_row, receipt_for,
  no_movement, require_user, settle, grant, adjust,
}

module _ (W : Wallets) (L : Ledger) (config : Credits.Config) (show : Number → String) where
  abbrev St : Type 0
  St = Store W L config show

  -- the row of a change: who changed what of whom, with the balance after it
  abbrev pub told : Request → String → String → String → ℤ → ℤ → AuditRow
  told r action summary field n balance = record {
    actor_user_id = r.actor;
    action = action;
    target_type = some "user";
    target_id = some r.user_id;
    summary = summary;
    metadata = some (
        object (
          set_field field (Json.number (integer n)) (
            set_field "idempotencyKey" (Json.text r.change.idempotency_key)
              (set_field "balanceAfter" (Json.number (integer balance)) end))));
    request_id = r.request_id;
  }

  -- Either nothing changed in the ledger and in the log; or the key of the request had no entry and
  -- has one now, of the user, the type and the amount of the request, its receipt is answered, and
  -- its row, with the balance that the entry holds, is on top of the log.
  abbrev pub IsAudited :
      Request → LedgerType → (ℤ → ℤ) → (ℤ → ℤ → AuditRow) → Result Receipt → St → St → Type 0
  IsAudited r type size row a s t =
      ((t.audit ≡ s.audit) × (t.credits ≡ s.credits))
      ⊎ ((e : Entry) × (n : ℤ) × (r.change.amount ≡ integer n)
          × (L.lookup r.change.idempotency_key s.credits.db.ledger ≡ none)
          × (L.lookup r.change.idempotency_key t.credits.db.ledger ≡ some e)
          × ((e.user_id ≡ some r.user_id) × (e.type ≡ type) × (e.amount ≡ size n))
          × (a
              ≡ ok (record {
                user_id = r.user_id;
                balance = e.balance_after;
                replayed = false;
                type = type;
                amount = size n;
                balance_after = e.balance_after;
              }))
          × (t.audit ≡ row n e.balance_after ∷ s.audit))

  abbrev pub granted_row : Request → ℤ → ℤ → AuditRow
  granted_row r n =
      told r "credits.grant" ("Granted " ⊕ show (integer n) ⊕ " credits: " ⊕ r.change.reason)
        "amount" n

  abbrev pub adjusted_row : Request → ℤ → ℤ → AuditRow
  adjusted_row r n =
      told r "credits.adjust" ("Adjusted credits by " ⊕ show (integer n) ⊕ ": " ⊕ r.change.reason)
        "delta" n

  subject_known :
      (r : Request) {subject : BillingSubject}
      → resolve_subject (credit_input r) ≡ ok subject
      → owner_user subject ≡ some r.user_id
  unfolding resolve_subject credit_input
  subject_known r h = ground arith

  receipt_told :
      (r : Request) (m : MutationResult) (p : Params)
      → m.replayed ≡ false
      → m.entry ≡ entry_for p m.balance
      → receipt_for r.user_id m ≡ record {
        user_id = r.user_id;
        balance = m.balance;
        replayed = false;
        type = p.type;
        amount = p.amount;
        balance_after = m.balance;
      }
  unfolding receipt_for
  receipt_told r m p new entry = ground arith

  grant_row-told :
      (r : Request) (m : MutationResult) {n : ℤ}
      → r.change.amount ≡ integer n
      → grant_row show r m ≡ granted_row r n m.balance
  unfolding grant_row
  grant_row-told r m amount = rw amount

  adjust_row-told :
      (r : Request) (m : MutationResult) {n : ℤ}
      → r.change.amount ≡ integer n
      → adjust_row show r m ≡ adjusted_row r n m.balance
  unfolding adjust_row
  adjust_row-told r m amount = rw amount

  grant-IsAudited :
      (w : Weather) (r : Request) (s : St)
      → ((w.ledger ≡ Reply.lost_after) → ⊥)
      → w.audit_written ≡ true
      → let call = Credits.grant W L config (credit_input r) in
        let (a, t) = settle W L config show w r.user_id (grant_row show r) call s in
        IsAudited r LedgerType.grant (λ n. n) (granted_row r) a s t
  unfolding grant_row receipt_for credit_input
  grant-IsAudited w r s certain written =
      let input = credit_input r in
      let call = Credits.grant W L config input in
      elim (settle-cases W L config show w r.user_id (grant_row show r) call
        (record { type = LedgerType.grant; input = input }) s
        (sym (perform-grant W L config input s.credits)) certain written) [
          | inl same ↦ inl same
          | inr (m, went, new, answered, credits, audited) ↦
              let (n, subject, amount, known, recorded) =
                grant-Recorded W L config input s.credits {r = m} went in
              elim recorded [
                | inl (again, same) ↦ absurd (ground arith)
                | inr (new', fresh, found, entry) ↦ inr (
                  entry_for (params_for LedgerType.grant input subject n) m.balance,
                  n,
                  amount,
                  fresh,
                  ap (λ (x : Credits.State W L). L.lookup r.change.idempotency_key x.db.ledger)
                        credits
                      ∙ found
                      ∙ ap some entry,
                  (subject_known r known, refl, refl),
                  answered
                      ∙ ap ok (
                          receipt_told r m (params_for LedgerType.grant input subject n) new entry),
                  audited ∙ ap (λ row. row ∷ s.audit) (grant_row-told r m amount),
                )
              ]
        ]

  adjust-IsAudited :
      (w : Weather) (r : Request) (s : St)
      → ((w.ledger ≡ Reply.lost_after) → ⊥)
      → w.audit_written ≡ true
      → let call = Credits.adjust W L config (credit_input r) in
        let (a, t) = settle W L config show w r.user_id (adjust_row show r) call s in
        IsAudited r LedgerType.adjust (λ n. pos (abs n)) (adjusted_row r) a s t
  unfolding adjust_row receipt_for credit_input
  adjust-IsAudited w r s certain written =
      let input = credit_input r in
      let call = Credits.adjust W L config input in
      elim (settle-cases W L config show w r.user_id (adjust_row show r) call
        (record { type = LedgerType.adjust; input = input }) s
        (sym (perform-adjust W L config input s.credits)) certain written) [
          | inl same ↦ inl same
          | inr (m, went, new, answered, credits, audited) ↦
              let (n, subject, amount, known, recorded) =
                adjust-Recorded W L config input s.credits {r = m} went in
              elim recorded [
                | inl (again, same) ↦ absurd (ground arith)
                | inr (new', fresh, found, entry) ↦ inr (
                  entry_for (params_for LedgerType.adjust input subject n) m.balance,
                  n,
                  amount,
                  fresh,
                  ap (λ (x : Credits.State W L). L.lookup r.change.idempotency_key x.db.ledger)
                        credits
                      ∙ found
                      ∙ ap some entry,
                  (subject_known r known, refl, refl),
                  answered
                      ∙ ap ok (
                          receipt_told r m (params_for LedgerType.adjust input subject n) new
                            entry),
                  audited ∙ ap (λ row. row ∷ s.audit) (adjust_row-told r m amount),
                )
              ]
        ]

  -- A grant or an adjustment by an administrator leaves the ledger and the audit log as they were; or
  -- the idempotency key of the request had no entry and has one now, of the user, with the type and
  -- the amount of the request, the answer is its receipt, and on top of the log is its row: the
  -- administrator, the user, the action with its summary, the amount, the key, the balance after the
  -- entry and the id of the request. A replay is not audited again. The call of the ledger is not lost
  -- after it was committed, and the row can be written.
  pub changes-IsAudited :
      (w : Weather) (r : Request) (s : St)
      → ((w.ledger ≡ Reply.lost_after) → ⊥)
      → w.audit_written ≡ true
      → IsAudited r LedgerType.grant
          (λ n. n)
          (granted_row r)
          (grant W L config show w r s).0
          s
          (grant W L config show w r s).1
        × IsAudited r LedgerType.adjust
            (λ n. pos (abs n))
            (adjusted_row r)
            (adjust W L config show w r s).0
            s
            (adjust W L config show w r s).1
  unfolding grant adjust require_user
  changes-IsAudited w r s certain written = (
    elim (Bool-cases (any (λ u. u === r.user_id) s.users)) [
      | inr unknown ↦ inl (ground arith, ground arith)
      | inl known ↦
          let call = Credits.grant W L config (credit_input r) in
          let same : grant W L config show w r s
              ≡ settle W L config show w r.user_id (grant_row show r) call s =
            ground arith in
          subst⁻¹ (λ x. IsAudited r LedgerType.grant (λ n. n) (granted_row r) x.0 s x.1) same
            (grant-IsAudited w r s certain written)
    ],
    elim (Bool-cases (any (λ u. u === r.user_id) s.users)) [
      | inr unknown ↦ inl (ground arith, ground arith)
      | inl known ↦ elim (Bool-cases (no_movement r.change.amount)) [
        | inl still ↦ inl (ground arith, ground arith)
        | inr moves ↦
            let call = Credits.adjust W L config (credit_input r) in
            let same : adjust W L config show w r s
                ≡ settle W L config show w r.user_id (adjust_row show r) call s =
              ground arith in
            subst⁻¹
              (λ x. IsAudited r LedgerType.adjust (λ n. pos (abs n)) (adjusted_row r) x.0 s x.1)
              same (adjust-IsAudited w r s certain written)
      ]
    ],
  )
