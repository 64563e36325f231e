-- ===== src/Charging/Compensation.antt =====
-- A request that fails after it was charged gets its credits back, once.
use mathlib.Core.Path.{subst, subst⁻¹}
use nestjs_enterprise_starte.Common.Exec.{Reply, is_heard, Result-cases, ok, err}
use nestjs_enterprise_starte.Common.Errors.{Thrown}
use nestjs_enterprise_starte.Charging.{
  refund_input, job_for, feature_name, Shared, Marker, queue_compensation, refund_if_needed,
  job_input, process, Job, MutationResult, Adder, enqueue_refund,
}
use nestjs_enterprise_starte.Prelude.Int.{pos}
use nestjs_enterprise_starte.Prelude.Int.{◌+ℤ◌}
use nestjs_enterprise_starte.Credits.Once.{
  over_first, Paid, over_again, resolve_subject-some, refund-eq-apply, IsApplied,
}
use nestjs_enterprise_starte.Organizations.Subject.{subject_key, BillingSubject}
use nestjs_enterprise_starte.Charging.{
  job_input, process, Job, input_for, Json, pos, refund_over, refund, Ledger,
}
use nestjs_enterprise_starte.Credits.{
  apply, get_balance, LedgerType, Params, Wallets, State, Config,
}
use nestjs_enterprise_starte.Prelude.{
  ◌+◌, [], any, ◌∷◌, List, inr, inl, ◌⊎◌, arith, ◌===◌, none, some, if◌then◌else◌, ◌≡◌, suc, Option,
  false, true, String, ℕ, string_key, refl,
}

-- what a refund hands to `apply`, less the metadata
abbrev pub refund_params : BillingSubject → ℕ → String → String → Params
refund_params subject n key feature = record {
  subject = subject;
  type = LedgerType.refund;
  amount = pos (suc n);
  delta = pos (suc n);
  idempotency_key = key;
  feature = some feature;
  metadata = none;
  fail_if_insufficient = false;
}

module _ (W : Wallets) (L : Ledger) (config : Config) where
  refund_call :
      (subject : BillingSubject) (n : ℕ) (key feature : String) (metadata : Option Json)
      (s : State W L)
      → refund W L config (input_for subject (suc n) key feature metadata) s
        ≡ apply W L config (record (refund_params subject n key feature) { metadata = metadata }) s
  refund_call subject n key feature metadata s =
      let input = input_for subject (suc n) key feature metadata in
      refund-eq-apply W L config input s n subject refl (resolve_subject-some input subject refl)

  module _ (subject : BillingSubject) (n : ℕ) (key feature : String) where
    refund_again :
        (reply : Reply) (metadata : Option Json) (s : State W L)
        → IsApplied W L config (refund_params subject n key feature) s
        → (refund_over W L config reply (input_for subject (suc n) key feature metadata) s).1 ≡ s
    unfolding refund_over
    refund_again reply metadata =
        over_again W L config (refund_params subject n key feature) metadata
          (refund W L config (input_for subject (suc n) key feature metadata))
          (refund_call subject n key feature metadata) reply

    -- What one attempt does under a fresh key: nothing, without being heard, or the whole refund.
    pub refund_fresh :
        (reply : Reply) (metadata : Option Json) (s : State W L)
        → L.lookup key s.db.ledger ≡ none
        → let (r, s') =
            refund_over W L config reply (input_for subject (suc n) key feature metadata) s in
          ((is_heard reply ≡ false) × (s' ≡ s) × ((e : Thrown) × (r ≡ err e)))
          ⊎ (Paid W L config (refund_params subject n key feature) s s'
              × ((is_heard reply ≡ true) → (a : MutationResult) × (r ≡ ok a)))
    unfolding refund_over
    refund_fresh reply metadata s =
        over_first W L config (refund_params subject n key feature) metadata
          (refund W L config (input_for subject (suc n) key feature metadata))
          (refund_call subject n key feature metadata) reply s refl

    abbrev job_of : String → Job
    job_of reason = record {
      subject = subject;
      amount = suc n;
      idempotency_key = key;
      feature = feature;
      reason = reason;
    }

    abbrev job_metadata : ℕ → String → Option Json
    job_metadata attempt reason = (job_input attempt (job_of reason)).metadata

    process_applied :
        (attempt : ℕ) (replies : List Reply) (reason : String) (s : State W L)
        → IsApplied W L config (refund_params subject n key feature) s
        → process W L config attempt replies (job_of reason) s ≡ s
    unfolding process
    process_applied attempt [] reason s h = refl
    process_applied attempt (reply ∷ replies) reason s h =
        let kept = refund_again reply (job_metadata attempt reason) s h in
        elim (Result-cases (refund_over W L config reply (job_input attempt (job_of reason)) s).0) [
          | inr (a, fine) ↦ ground arith
          | inl (e, failed) ↦ ground (arith, process_applied (attempt + 1) replies reason s h)
        ]

    process_pays :
        (attempt : ℕ) (replies : List Reply) (reason : String) (s : State W L)
        → L.lookup key s.db.ledger ≡ none
        → any is_heard replies ≡ true
        → Paid W L config
            (refund_params subject n key feature)
            s
            (process W L config attempt replies (job_of reason) s)
    unfolding process
    process_pays attempt [] reason s fresh h = absurd (ground arith)
    process_pays attempt (reply ∷ replies) reason s fresh h =
        let tried = refund_over W L config reply (job_input attempt (job_of reason)) s in
        elim (refund_fresh reply (job_metadata attempt reason) s fresh) [
          | inl (quiet, same, (e, failed)) ↦
              let skipped : process W L config attempt (reply ∷ replies) (job_of reason) s
                  ≡ process W L config (attempt + 1) replies (job_of reason) s =
                ground arith in
              subst⁻¹ (Paid W L config (refund_params subject n key feature) s) skipped
                (process_pays (attempt + 1) replies reason s fresh (ground arith))
          | inr (paid, certain) ↦
              let done : process W L config attempt (reply ∷ replies) (job_of reason) s ≡ tried.1 =
                elim (Result-cases tried.0) [
                  | inr (a, fine) ↦ ground arith
                  | inl (e, failed) ↦
                      ground (arith, process_applied (attempt + 1) replies reason tried.1 paid.0)
                ] in
              subst⁻¹ (Paid W L config (refund_params subject n key feature) s) done paid
        ]

  -- The worker takes every job of the queue, with the given replies at the attempts of each.
  unfoldable pub work_off : List Reply → List Job → State W L → State W L
  work_off replies [] s = s
  work_off replies (job ∷ jobs) s = work_off replies jobs (process W L config 1 replies job s)

  -- the ledger when the handler has failed and the queue is worked off
  abbrev pub settled_credits :
      Reply → Adder → List Reply → Marker → String → Shared W L config → State W L
  settled_credits reply add replies m message s =
      let s' = refund_if_needed W L config reply (some add) (some m) message s in
      work_off replies s'.jobs s'.credits

  -- The wallet of a marker has the amount more, every other one the same.
  abbrev pub GivenBack : Marker → State W L → State W L → BillingSubject → Type 0
  GivenBack m before after u = get_balance W L u after.db ≡ (
      if m.subject === u
      then get_balance W L m.subject before.db +ℤ pos m.amount
      else get_balance W L u before.db)

  refunded_marker :
      (m : Marker) (n : ℕ) (reply : Reply) (add : Adder) (replies : List Reply) (message : String)
      (s : Shared W L config)
      → enqueue_refund add (job_for (record m { amount = suc n })) s.jobs
        ≡ some (job_for (record m { amount = suc n }) ∷ [])
      → s.jobs ≡ []
      → L.lookup m.refund_key s.credits.db.ledger ≡ none
      → any is_heard (reply ∷ replies) ≡ true
      → (u : BillingSubject)
      → GivenBack
          (record m { amount = suc n })
          s.credits
          (settled_credits reply add replies (record m { amount = suc n }) message s)
          u
  unfolding refund_if_needed queue_compensation work_off
  refunded_marker m n reply add replies message s taken idle fresh h u =
      let m' : Marker = record m { amount = suc n } in
      let name = feature_name m.feature in
      let job = job_for m' in
      let tried = refund_over W L config reply (refund_input m' message) s.credits in
      elim (refund_fresh m.subject n m.refund_key name reply (refund_input m' message).metadata
        s.credits fresh) [
          | inl (quiet, same, (e, failed)) ↦
              let skipped : settled_credits reply add replies m' message s
                  ≡ process W L config 1 replies job s.credits =
                ground arith in
              rw skipped (
                (process_pays m.subject n m.refund_key name 1 replies job.reason s.credits fresh
                    (ground arith)).1
                  u)
          | inr (paid, certain) ↦
              let done : settled_credits reply add replies m' message s ≡ tried.1 =
                elim (Result-cases tried.0) [
                  | inr (a, fine) ↦ ground arith
                  | inl (e, failed) ↦ ground (
                    arith,
                    process_applied m.subject n m.refund_key name 1 replies job.reason tried.1
                        paid.0,
                  )
                ] in
              rw done (paid.1 u)
        ]

  -- After a handler has failed, the marked amount is back in the wallet of its subject exactly once,
  -- and no other wallet has changed, when the queue is worked off: if the amount is positive, the
  -- refund key unused, the queue empty before, the job of the refund taken, and one attempt, the first
  -- one of the interceptor or one of the worker, is heard. Every attempt before may have been lost
  -- before or after it was committed.
  pub refunded_once :
      (m : Marker) (n : ℕ) (reply : Reply) (add : Adder) (replies : List Reply) (message : String)
      (s : Shared W L config)
      → m.amount ≡ suc n
      → enqueue_refund add (job_for m) s.jobs ≡ some (job_for m ∷ [])
      → s.jobs ≡ []
      → L.lookup m.refund_key s.credits.db.ledger ≡ none
      → any is_heard (reply ∷ replies) ≡ true
      → (u : BillingSubject)
      → GivenBack m s.credits (settled_credits reply add replies m message s) u
  refunded_once m n reply add replies message s amount taken idle fresh h u =
      subst⁻¹
        (λ a.
          GivenBack (record m { amount = a }) s.credits
            (settled_credits reply add replies (record m { amount = a }) message s) u)
        amount
        (refunded_marker m n reply add replies message s
          (subst
            (λ a.
              enqueue_refund add (job_for (record m { amount = a })) s.jobs
              ≡ some (job_for (record m { amount = a }) ∷ []))
            amount taken)
          idle fresh h u)
