-- ===== src/Admin/Settled.antt =====
-- What becomes of a call of the ledger, and of its audit row.
use nestjs_enterprise_starte.Prelude.{
  false, string_key, Bool-cases, arith, ◌∷◌, inr, inl, ◌⊎◌, true, ◌≡◌, String, refl,
}
use nestjs_enterprise_starte.Common.Json.{Number}
use nestjs_enterprise_starte.Common.Exec.{Exec, Reply, ok, Result-cases}
use nestjs_enterprise_starte.Credits
use nestjs_enterprise_starte.Credits.{
  owner_user, resolve_subject, entry_for, Params, params_for, Entry, MutationResult, Mutation,
  LedgerType, Wallets, Ledger, perform,
}
use nestjs_enterprise_starte.Credits.Fresh.{perform-Effect}
use nestjs_enterprise_starte.Credits.Replay.{perform_failure_changes_nothing}
use nestjs_enterprise_starte.Admin.{AuditRow, Weather, Store, receipt_for, write_safe, settle}

pub Reply-cases : (r : Reply) → (r ≡ Reply.heard) ⊎ (r ≡ Reply.lost_before) ⊎ (r ≡ Reply.lost_after)
Reply-cases Reply.heard = inl refl
Reply-cases Reply.lost_before = inr (inl refl)
Reply-cases Reply.lost_after = inr (inr refl)

module _ (W : Wallets) (L : Ledger) (config : Credits.Config) (show : Number → String) where
  abbrev St : Type 0
  St = Store W L config show

  -- What `settle` makes of a call of the ledger: nothing, or the row of a call that is no replay.
  pub settle-cases :
      (w : Weather) (user_id : String) (row_for : MutationResult → AuditRow)
      (call : Exec (Credits.State W L) MutationResult) (m : Mutation) (s : St)
      → call s.credits ≡ perform W L config m s.credits
      → ((w.ledger ≡ Reply.lost_after) → ⊥)
      → w.audit_written ≡ true
      → let (a, t) = settle W L config show w user_id row_for call s in
        ((t.audit ≡ s.audit) × (t.credits ≡ s.credits))
        ⊎ ((r : MutationResult) × ((call s.credits).0 ≡ ok r)
            × (r.replayed ≡ false)
            × (a ≡ ok (receipt_for user_id r))
            × (t.credits ≡ (call s.credits).1)
            × (t.audit ≡ row_for r ∷ s.audit))
  unfolding settle write_safe
  settle-cases w user_id row_for call m s is certain written = elim (Reply-cases w.ledger) [
    | inr (inr lost) ↦ absurd (certain lost)
    | inr (inl lost) ↦ inl (ground arith, ground arith)
    | inl heard ↦ elim (Result-cases (perform W L config m s.credits).0) [
      | inl (e, failed) ↦
          let same = perform_failure_changes_nothing W L config m s.credits {e = e} failed in
          inl (ground arith, ground arith)
      | inr (r, went) ↦ elim (Bool-cases r.replayed) [
        | inr new ↦ inr (r, ground arith, new, ground arith, ground arith, ground arith)
        | inl replayed ↦ elim (perform-Effect W L config m s.credits {r = r} went) [
          | inl (again, same) ↦ inl (ground arith, ground arith)
          | inr (new, fresh, found, balance) ↦ absurd (ground arith)
        ]
      ]
    ]
  ]
