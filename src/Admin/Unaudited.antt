-- ===== src/Admin/Unaudited.antt =====
-- A grant that is committed without being heard of.
use nestjs_enterprise_starte.Prelude.{
  string_key, some, inr, sym, ◌∙◌, none, arith, false, [], ap, inl, true, ◌∷◌, ◌===◌, any, List,
  ◌≡◌, String, refl,
}
use nestjs_enterprise_starte.Common.Json.{Number}
use nestjs_enterprise_starte.Common.Exec.{Reply, ok}
use nestjs_enterprise_starte.Credits
use nestjs_enterprise_starte.Credits.Trace
use nestjs_enterprise_starte.Credits.{MutationResult, LedgerType, Wallets, Ledger, perform}
use nestjs_enterprise_starte.Credits.Replay.{perform_retry}
use nestjs_enterprise_starte.Credits.Fresh.{perform-Effect}
use nestjs_enterprise_starte.Credits.Once.{perform-grant}
use nestjs_enterprise_starte.Admin.{
  Request, Weather, Store, credit_input, require_user, settle, grant,
}
use nestjs_enterprise_starte.Admin.Settled.{Reply-cases}

module _ (W : Wallets) (L : Ledger) (config : Credits.Config) (show : Number → String)
    (r : Request) where
  abbrev St : Type 0
  St = Store W L config show

  -- the request sent again and again
  unfoldable pub retried : List Weather → St → St
  retried [] s = s
  retried (w ∷ ws) s = retried ws (grant W L config show w r s).1

  granted_again :
      (c : Credits.State W L) {m : MutationResult}
      → (Credits.grant W L config (credit_input r) c).0 ≡ ok m
      → let d = (Credits.grant W L config (credit_input r) c).1 in
        Credits.grant W L config (credit_input r) d ≡ (ok (record m { replayed = true }), d)
  unfolding Trace.run
  granted_again c {m} h =
      let input = credit_input r in
      let mutation : Credits.Mutation = record { type = LedgerType.grant; input = input } in
      let here = perform-grant W L config input c in
      let again = perform_retry W L config mutation c {r = m} (ap (λ x. x.0) here ∙ h) [] in
      let d = (Credits.grant W L config input c).1 in
      let there = perform-grant W L config input d in
      sym there
      ∙ ap (λ x. perform W L config mutation x.1) (sym here)
      ∙ again
      ∙ ap (λ x. (ok (record m { replayed = true }), x.1)) here

  replay_unaudited :
      (w : Weather) (s : St) (m : MutationResult)
      → any (λ u. u === r.user_id) s.users ≡ true
      → Credits.grant W L config (credit_input r) s.credits
        ≡ (ok (record m { replayed = true }), s.credits)
      → (grant W L config show w r s).1 ≡ s
  unfolding grant settle require_user
  replay_unaudited w s m known same = elim (Reply-cases w.ledger) [
    | inl heard ↦ ground arith
    | inr (inl lost) ↦ ground arith
    | inr (inr lost) ↦ ground arith
  ]

  replays_unaudited :
      (ws : List Weather) (s : St) (m : MutationResult)
      → any (λ u. u === r.user_id) s.users ≡ true
      → Credits.grant W L config (credit_input r) s.credits
        ≡ (ok (record m { replayed = true }), s.credits)
      → retried ws s ≡ s
  unfolding retried
  replays_unaudited [] s m known same = refl
  replays_unaudited (w ∷ ws) s m known same =
      ap (retried ws) (replay_unaudited w s m known same) ∙ replays_unaudited ws s m known same

  -- If a grant for a known user that is no replay is committed and its outcome is lost, and the
  -- request is sent again any number of times, over any connections, then its entry is in the ledger,
  -- under a key that had none, and the audit log is as it was before: the replays add no row, so
  -- the change is never audited.
  pub lost_grant_is_never_audited :
      (first : Weather) (retries : List Weather) (s : St) (m : MutationResult)
      → first.ledger ≡ Reply.lost_after
      → any (λ u. u === r.user_id) s.users ≡ true
      → (Credits.grant W L config (credit_input r) s.credits).0 ≡ ok m
      → m.replayed ≡ false
      → let t = retried retries (grant W L config show first r s).1 in
        (L.lookup m.entry.idempotency_key s.credits.db.ledger ≡ none)
        × (L.lookup m.entry.idempotency_key t.credits.db.ledger ≡ some m.entry)
        × (t.audit ≡ s.audit)
  unfolding grant settle require_user
  lost_grant_is_never_audited first retries s m lost known went new =
      let call = Credits.grant W L config (credit_input r) in
      let mutation : Credits.Mutation = record {
        type = LedgerType.grant;
        input = credit_input r;
      } in
      let here = perform-grant W L config (credit_input r) s.credits in
      let start : (grant W L config show first r s).1 ≡ record s { credits = (call s.credits).1 } =
        ground arith in
      let u : St = record s { credits = (call s.credits).1 } in
      let done : retried retries (grant W L config show first r s).1 ≡ u =
        ap (retried retries) start
        ∙ replays_unaudited retries u m known (granted_again s.credits {m = m} went) in
      rw done
        (elim (perform-Effect W L config mutation s.credits {r = m} (ap (λ x. x.0) here ∙ went)) [
          | inl (replayed, same) ↦ absurd (ground arith)
          | inr (is_new, fresh, found, balance) ↦ (
            fresh,
            ap (λ x. L.lookup m.entry.idempotency_key x.1.db.ledger) (sym here) ∙ found,
            refl,
          )
        ])
