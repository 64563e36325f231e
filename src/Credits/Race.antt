-- ===== src/Credits/Race.antt =====
-- Concurrent calls of `CreditService.apply`. The lookup of the idempotency key runs before the row
-- lock is taken, so other transactions may commit between it and the rest.
use mathlib.Core.Path.{subst}
use nestjs_enterprise_starte.Prelude.{
  All, ◌≡◌, arith, List, [], ◌∷◌, ◌++◌, some, none, Bool-cases, inl, inr, Option-cases, sym,
}
use nestjs_enterprise_starte.Prelude.Int.{+ℤ_swap, pos, ◌+ℤ◌, ◌≤ℤ◌, +ℤ-zero}
use nestjs_enterprise_starte.Common.Exec.{Result, err, rolled_back}
use nestjs_enterprise_starte.Common.Errors.{Thrown}
use nestjs_enterprise_starte.Organizations.Subject.{BillingSubject}
use nestjs_enterprise_starte.Credits.{
  Wallets, Ledger, Params, Db, MutationResult, Entry, apply_locked, get_balance,
}
use nestjs_enterprise_starte.Credits.Effect.{
  outcome, is_short, apply_locked_refuses, apply_locked_settles, apply_locked_collides,
}
use nestjs_enterprise_starte.Credits.Trace.{IsCall, fresh_entries}
use nestjs_enterprise_starte.Credits.Balance.{moved, moved-append, outcome_moves, outcome_nonneg}

rolled_back_err :
    {S A : Type 0} (before : S) (r : Result A × S) {x : Thrown}
    → r.0 ≡ err x
    → rolled_back before r ≡ (err x, before)
rolled_back_err before r e = ground arith

module _ (W : Wallets) (L : Ledger) where
  -- the part of a transaction that runs under the lock, with its commit or rollback
  abbrev pub commit : Params → Db W L → Result MutationResult × Db W L
  commit p db = rolled_back db (apply_locked W L p db)

  -- If no entry with the key was committed meanwhile, the transaction ends as if it had run alone
  -- at its commit; if one was, it fails and changes nothing.
  pub commit_alone :
      (p : Params) (db : Db W L)
      → L.lookup p.idempotency_key db.ledger ≡ none
      → commit p db ≡ outcome W L p db
  unfolding outcome
  commit_alone p db fresh = elim (Bool-cases (is_short W L p db)) [
    | inl short ↦ ground (arith, apply_locked_refuses W L p db short)
    | inr covered ↦ ground (arith, apply_locked_settles W L p db fresh covered)
  ]

  pub commit_raced :
      (p : Params) (db : Db W L) {e : Entry}
      → L.lookup p.idempotency_key db.ledger ≡ some e
      → (x : Thrown) × (commit p db ≡ (err x, db))
  commit_raced p db {e} taken =
      let (x, thrown) = apply_locked_collides W L p db {e = e} taken in
      (x, rolled_back_err db (apply_locked W L p db) thrown)

  -- The service under concurrent calls: the database, the calls that have found their key unused
  -- and have not committed yet, and the entries created so far.
  pub record System : Type 0 where
    pub db : Db W L
    pub waiting : List Params
    pub created : List Entry

  -- A call begins by finding its key unused, or any call that waits commits or rolls back. (A call
  -- that finds its key used reads only, and is no step.)
  pub data Step : System → System → Type 0 where
    begin :
        (p : Params) (y : System)
        → IsCall p
        → L.lookup p.idempotency_key y.db.ledger ≡ none
        → Step y (record y { waiting = p ∷ y.waiting })
    finish :
        (p : Params) (before after : List Params) (y : System)
        → y.waiting ≡ before ++ p ∷ after
        → Step y (record {
          db = (commit p y.db).1;
          waiting = before ++ after;
          created = fresh_entries (commit p y.db).0 ++ y.created;
        })

  pub data Reach (y : System) : System → Type 0 where
    here : Reach y y
    next : {z w : System} → Reach y z → Step z w → Reach y w

module _ (W : Wallets) (L : Ledger) (start : Db W L) where
  commit_moves :
      (p : Params) (db : Db W L) (u : BillingSubject)
      → IsCall p
      → get_balance W L u (commit W L p db).1
        ≡ get_balance W L u db +ℤ moved u (fresh_entries (commit W L p db).0)
  commit_moves p db u c = elim (Option-cases (L.lookup p.idempotency_key db.ledger)) [
    | inl fresh ↦ rw (commit_alone W L p db fresh) (outcome_moves W L p db u c)
    | inr (e, taken) ↦
        let (x, failed) = commit_raced W L p db {e = e} taken in
        rw failed (sym (+ℤ-zero (get_balance W L u db)))
  ]

  commit_nonneg :
      (p : Params) (db : Db W L)
      → IsCall p
      → ((u : BillingSubject) → pos 0 ≤ℤ get_balance W L u db)
      → (u : BillingSubject) → pos 0 ≤ℤ get_balance W L u (commit W L p db).1
  commit_nonneg p db c h u = elim (Option-cases (L.lookup p.idempotency_key db.ledger)) [
    | inl fresh ↦ rw (commit_alone W L p db fresh) (outcome_nonneg W L p db u c (h u) (h p.subject))
    | inr (e, taken) ↦ let (x, failed) = commit_raced W L p db {e = e} taken in rw failed (h u)
  ]

  -- What holds at every moment.
  pub record IsSound (y : System W L) : Type 0 where
    pub calls : All IsCall y.waiting
    pub accounted :
        (u : BillingSubject) → get_balance W L u y.db ≡ get_balance W L u start +ℤ moved u y.created
    pub solvent : (u : BillingSubject) → pos 0 ≤ℤ get_balance W L u y.db

  All-middle :
      {p : Params} (before after : List Params)
      → All IsCall (before ++ p ∷ after)
      → IsCall p × All IsCall (before ++ after)
  All-middle [] after h = h
  All-middle (q ∷ before) after h = let (c, rest) = All-middle before after h.1 in (c, (h.0, rest))

  Step-IsSound : {y z : System W L} → Step W L y z → IsSound y → IsSound z
  Step-IsSound (begin p y c fresh) h = record {
    calls = (c, h.calls);
    accounted = h.accounted;
    solvent = h.solvent;
  }
  Step-IsSound (finish p before after y e) h =
      let (c, rest) = All-middle before after (subst (All IsCall) e h.calls) in
      record {
        calls = rest;
        accounted = λ u.
            rw
              (
                commit_moves p y.db u c,
                h.accounted u,
                moved-append u (fresh_entries (commit W L p y.db).0) y.created,
              )
              (+ℤ_swap _ _ _);
        solvent = commit_nonneg p y.db c h.solvent;
      }

  -- From a sound state (such as one with no call under way and no wallet overdrawn), and however the
  -- transactions of concurrent calls interleave, no wallet is ever overdrawn, and every balance is
  -- the one at the start plus the movements of the entries created since.
  pub Reach-IsSound : {y z : System W L} → IsSound y → Reach W L y z → IsSound z
  Reach-IsSound h here = h
  Reach-IsSound h (next r st) = Step-IsSound st (Reach-IsSound h r)
