-- ===== src/Credits/Fresh.antt =====
-- What a call that succeeds leaves behind: nothing new if it was a replay, a new entry if not.
use nestjs_enterprise_starte.Prelude.Int.{◌+ℤ◌}
use nestjs_enterprise_starte.Prelude.{
  string_key, some, none, arith, false, Bool-cases, ◌⊎◌, ap, inr, inl, Option-cases, true, ◌≡◌,
}
use mathlib.Core.Path.{subst⁻¹}
use nestjs_enterprise_starte.Common.Exec.{ok}
use nestjs_enterprise_starte.Credits.{
  Mutation, Params, MutationResult, Wallets, Ledger, State, Config, apply, perform, entry_for,
  replay_mismatch, get_balance,
}
use nestjs_enterprise_starte.Credits.Effect.{outcome}
use nestjs_enterprise_starte.Credits.Replay.{apply-outcome, apply_replays}
use nestjs_enterprise_starte.Credits.Trace.{perform-cases}

module _ (W : Wallets) (L : Ledger) (config : Config) where
  -- a replay, or a new entry under a key that had none
  abbrev pub Effect : MutationResult → State W L → State W L → Type 0
  Effect r s t =
      ((r.replayed ≡ true) × (t ≡ s))
      ⊎ ((r.replayed ≡ false)
          × (L.lookup r.entry.idempotency_key s.db.ledger ≡ none)
          × (L.lookup r.entry.idempotency_key t.db.ledger ≡ some r.entry)
          × (r.balance ≡ r.entry.balance_after))

  apply-Effect :
      (p : Params) (s : State W L) {r : MutationResult}
      → (apply W L config p s).0 ≡ ok r
      → Effect r s (apply W L config p s).1
  unfolding outcome
  apply-Effect p s {r} h =
      let (a, d) = apply-outcome W L config p s in
      elim (Option-cases (L.lookup p.idempotency_key s.db.ledger)) [
        | inr (e, found) ↦ elim (Bool-cases (replay_mismatch e p)) [
          | inl clash ↦ absurd (ground arith)
          | inr agrees ↦
              let same = apply_replays W L config p s {e = e} found agrees in
              inl (ground arith, ground arith)
        ]
        | inl fresh ↦
            let put =
              L.lookup-put p.idempotency_key p.idempotency_key
                (entry_for p (get_balance W L p.subject s.db +ℤ p.delta)) s.db.ledger in
            let same = string_key.same_iff p.idempotency_key p.idempotency_key in
            inr (ground arith, ground arith, ground arith, ground arith)
      ]

  pub perform-Effect :
      (m : Mutation) (s : State W L) {r : MutationResult}
      → (perform W L config m s).0 ≡ ok r
      → Effect r s (perform W L config m s).1
  perform-Effect m s {r} h = elim (perform-cases W L config m) [
    | inl (x, early) ↦ cc (ap (λ f. (f s).0) early)
    | inr (p, c, call) ↦
        subst⁻¹ (λ f. Effect r s (f s).1) call (apply-Effect p s {r = r} (rw call at h))
  ]
