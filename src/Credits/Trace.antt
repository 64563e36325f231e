-- ===== src/Credits/Trace.antt =====
-- Sequences of calls of the credit service, and the movement that each ledger entry stands for.
use mathlib.Core.Path.{fun_ext}
use nestjs_enterprise_starte.Prelude.{
  ◌===◌, not, ◌≡◌, refl, true, Option, some, List, [], ◌∷◌, ◌++◌, arith, if◌then◌else◌, ◌⊎◌, inl,
  inr,
}
use nestjs_enterprise_starte.Prelude.Int.{ℤ, pos, neg, ltb_ℤ}
use nestjs_enterprise_starte.Common.Errors.{Thrown}
use nestjs_enterprise_starte.Common.Exec.{Result, ok, err, Exec, throw, Result-cases}
use nestjs_enterprise_starte.Common.Json.{
  Number, number, integer, fraction, get_field-set_field_self,
}
use nestjs_enterprise_starte.Organizations.Subject.{BillingSubject, user, organization, subject_key}
use nestjs_enterprise_starte.Credits.{
  owner_mismatch, Params, MutationResult, Wallets, Ledger, State, Config, Input, Mutation,
  LedgerType, Entry, entry_for, stored_delta, metadata_with_delta, apply, perform, resolve_subject,
  positive_amount, nonzero_delta, params_for, guarded, adjust_delta_key, object_fields,
}

abbrev integer_part : Option Number → ℤ
integer_part (some (integer n)) = n
integer_part _ = pos 0

-- The signed movement that an entry records: grants and refunds add, spends take away, and an
-- adjustment carries its own sign.
abbrev direction : LedgerType → ℤ → ℤ → ℤ
direction LedgerType.grant amount delta = amount
direction LedgerType.refund amount delta = amount
direction LedgerType.spend amount delta = neg amount
direction LedgerType.adjust amount delta = delta

abbrev pub movement : Entry → ℤ
movement e = direction e.type e.amount (integer_part (stored_delta e))

-- What the four methods hand to `apply`: a delta that agrees with the type and the amount, and
-- the guard against a negative balance exactly on debits.
pub record IsCall (p : Params) : Type 0 where
  pub signed : direction p.type p.amount p.delta ≡ p.delta
  pub guards : ltb_ℤ p.delta (pos 0) ≡ p.fail_if_insufficient

params_for-IsCall :
    (type : LedgerType) (input : Input) (subject : BillingSubject) (n : ℤ)
    → ((type ≡ LedgerType.adjust) ⊎ (ltb_ℤ (pos 0) n ≡ true))
    → IsCall (params_for type input subject n)
params_for-IsCall LedgerType.grant input subject n h = ground arith
params_for-IsCall LedgerType.spend input subject n h = ground arith
params_for-IsCall LedgerType.refund input subject n h = ground arith
params_for-IsCall LedgerType.adjust input subject n h = ground arith

positive_amount-lt : (a : Number) (n : ℤ) → positive_amount a ≡ ok n → ltb_ℤ (pos 0) n ≡ true
unfolding positive_amount
positive_amount-lt (integer k) n h = ground arith
positive_amount-lt fraction n h = ground arith

pub movement-entry_for : (p : Params) (b : ℤ) → IsCall p → movement (entry_for p b) ≡ p.delta
unfolding stored_delta metadata_with_delta
movement-entry_for p b c = by_type p.type refl
  where
    by_type : (t : LedgerType) → p.type ≡ t → movement (entry_for p b) ≡ p.delta
    by_type LedgerType.adjust e = ground (
      arith,
      c.signed,
      get_field-set_field_self adjust_delta_key (number (integer p.delta))
          (object_fields p.metadata),
    )
    by_type _ e = ground (arith, c.signed)

pub owner_mismatch-entry_for :
    (u : BillingSubject) (p : Params) (b : ℤ)
    → owner_mismatch u (entry_for p b) ≡ not (p.subject === u)
owner_mismatch-entry_for u p b = by_subjects u p.subject refl
  where
    by_subjects :
        (u s : BillingSubject)
        → p.subject ≡ s
        → owner_mismatch u (entry_for p b) ≡ not (p.subject === u)
    by_subjects (user a) (user c) e = rw e
    by_subjects (user a) (organization c) e = rw e
    by_subjects (organization a) (user c) e = rw e
    by_subjects (organization a) (organization c) e = rw e

pub stored_delta-entry_for :
    (q : Params) (b : ℤ)
    → q.type ≡ LedgerType.adjust
    → stored_delta (entry_for q b) ≡ some (integer q.delta)
unfolding stored_delta metadata_with_delta
stored_delta-entry_for q b e =
    rw (e, metadata_with_delta)
      (rw
        (get_field-set_field_self adjust_delta_key (number (integer q.delta))
          (object_fields q.metadata))
        refl)

-- the entry that a call has created
abbrev pub fresh_entries : Result MutationResult → List Entry
fresh_entries (ok r) = if r.replayed then [] else r.entry ∷ []
fresh_entries (err _) = []

module _ (W : Wallets) (L : Ledger) (config : Config) where
  abbrev pub CallCases : Exec (State W L) MutationResult → Type 0
  CallCases m =
      ((e : Thrown) × (m ≡ throw e)) ⊎ ((p : Params) × IsCall p × (m ≡ apply W L config p))

  guarded-cases :
      (type : LedgerType) (guard : Number → Result ℤ) (input : Input)
      → ((n : ℤ)
          → guard input.amount ≡ ok n
          → (type ≡ LedgerType.adjust) ⊎ (ltb_ℤ (pos 0) n ≡ true))
      → CallCases (guarded W L config type guard input)
  guarded-cases type guard input fits = elim (Result-cases (guard input.amount)) [
    | inl (e, bad) ↦ inl (e, fun_ext (λ s. rw bad))
    | inr (n, good) ↦ elim (Result-cases (resolve_subject input)) [
      | inl (e, bad) ↦ inl (e, fun_ext (λ s. rw good (rw bad)))
      | inr (subject, known) ↦ inr (
        params_for type input subject n,
        params_for-IsCall type input subject n (fits n good),
        fun_ext (λ s. rw good (rw known)),
      )
    ]
  ]

  -- A call throws before it touches the state, or is `apply` at consistent arguments.
  pub perform-cases : (m : Mutation) → CallCases (perform W L config m)
  unfolding perform
  perform-cases m = by_type m.type refl
    where
      by_type : (t : LedgerType) → m.type ≡ t → CallCases (perform W L config m)
      by_type LedgerType.grant e =
          rw (e, perform)
            (guarded-cases LedgerType.grant positive_amount m.input
              (λ n h. inr (positive_amount-lt m.input.amount n h)))
      by_type LedgerType.spend e =
          rw (e, perform)
            (guarded-cases LedgerType.spend positive_amount m.input
              (λ n h. inr (positive_amount-lt m.input.amount n h)))
      by_type LedgerType.refund e =
          rw (e, perform)
            (guarded-cases LedgerType.refund positive_amount m.input
              (λ n h. inr (positive_amount-lt m.input.amount n h)))
      by_type LedgerType.adjust e =
          rw (e, perform) (guarded-cases LedgerType.adjust nonzero_delta m.input (λ n h. inl refl))

  -- The calls one after the other: the entries that were created, and the state at the end.
  unfoldable pub run : List Mutation → State W L → List Entry × State W L
  run [] s = ([], s)
  run (m ∷ ms) s =
      let (r, s') = perform W L config m s in
      let (es, s'') = run ms s' in (fresh_entries r ++ es, s'')
