-- ===== src/Charging/Unqueued.antt =====
-- The custom id of the job that retries a refund.
use mathlib.Core.Path.{subst⁻¹}
use nestjs_enterprise_starte.Prelude.{
  ◌≡◌, ◌∙◌, ap, refl, arith, inl, inr, ◌===◌, if◌then◌else◌, Option, none, some, List, String, Bool,
  true, false, string_key,
}
use nestjs_enterprise_starte.Prelude.Int.{◌+ℤ◌, negsuc}
use nestjs_enterprise_starte.Organizations.Subject.{BillingSubject, subject_key}
use nestjs_enterprise_starte.Common.Exec.{Reply, Result, Result-cases, ok}
use nestjs_enterprise_starte.Credits.{Wallets, Ledger, State, Config, get_balance}
use nestjs_enterprise_starte.Charging.{
  Adder, Job, Marker, Route, Shared, job_for, job_id, enqueue_refund, queue_compensation,
  refund_if_needed, charge, refund_over, refund_input, feature_name,
}
use nestjs_enterprise_starte.Charging.Compensation.{refund_fresh, GivenBack}
use nestjs_enterprise_starte.Charging.Guarded.{HasTaken, charge-HasTaken, taken_and_given}
use text.Mathlib.TextLemmas.{append_assoc}
use Prim.Native.String.{◌++◌ as ◌⊕◌}

-- BullMQ refuses a custom id that contains a colon.
abbrev pub RefusesColons : Adder → Type 0
RefusesColons add =
    (a b : String) (job : Job) (jobs : List Job) → add (a ⊕ (":" ⊕ b)) job jobs ≡ none

-- The outcome of an attempt was committed, heard or not.
abbrev pub is_committed : Reply → Bool
is_committed Reply.lost_before = false
is_committed _ = true

never_queued :
    (add : Adder) (m : Marker) (jobs : List Job)
    → RefusesColons add
    → enqueue_refund add (job_for m) jobs ≡ none
unfolding enqueue_refund job_id
never_queued add m jobs refuses =
    ap (λ id. add id (job_for m) jobs) (append_assoc "credit-refund" ":" m.refund_key)
    ∙ refuses "credit-refund" m.refund_key (job_for m) jobs

module _ (W : Wallets) (L : Ledger) (config : Config) where
  unqueued :
      (reply : Reply) (add : Adder) (m : Marker) (message : String) (s : Shared W L config)
      → RefusesColons add
      → refund_if_needed W L config reply (some add) (some m) message s
        ≡ record s { credits = (refund_over W L config reply (refund_input m message) s.credits).1 }
  unfolding refund_if_needed queue_compensation
  unqueued reply add m message s refuses =
      let tried = refund_over W L config reply (refund_input m message) s.credits in
      elim (Result-cases tried.0) [
        | inr (a, fine) ↦ ground arith
        | inl (e, failed) ↦ ground (arith, never_queued add m s.jobs refuses)
      ]

  heard_back :
      (m : Marker) (message : String) (c : State W L)
      → L.lookup m.refund_key c.db.ledger ≡ none
      → let m' = record m { amount = 1 } in
        (u : BillingSubject)
        → GivenBack W L config m' c
            (refund_over W L config Reply.heard (refund_input m' message) c).1
            u
  heard_back m message c unused u =
      let m' : Marker = record m { amount = 1 } in
      elim (refund_fresh W L config m.subject 0 m.refund_key (feature_name m.feature) Reply.heard
        (refund_input m' message).metadata c unused) [
          | inl (quiet, same, failed) ↦ absurd (ground arith)
          | inr (paid, certain) ↦ paid.1 u
        ]

  paid_back :
      (m : Marker) (message : String) (c : State W L)
      → m.amount ≡ 1
      → L.lookup m.refund_key c.db.ledger ≡ none
      → (u : BillingSubject)
      → GivenBack W L config m c (refund_over W L config Reply.heard (refund_input m message) c).1 u
  paid_back m message c one unused u =
      subst⁻¹
        (λ a.
          let m' = record m { amount = a } in
          GivenBack W L config m' c
            (refund_over W L config Reply.heard (refund_input m' message) c).1 u)
        one (heard_back m message c unused u)

  cost :
      (reply : Reply) (m : Marker) (message : String) (s c : State W L)
      → HasTaken W L config m s c
      → (u : BillingSubject)
      → get_balance W L u (refund_over W L config reply (refund_input m message) c).1.db ≡ (
          if is_committed reply
          then get_balance W L u s.db
          else if m.subject === u
          then get_balance W L m.subject s.db +ℤ negsuc 0
          else get_balance W L u s.db)
  unfolding refund_over
  cost Reply.lost_before m message s c (one, unused, paid) u = paid u
  cost Reply.heard m message s c (one, unused, paid) u =
      taken_and_given W L config m s c
        (refund_over W L config Reply.heard (refund_input m message) c).1 (one, unused, paid)
        (paid_back m message c one unused) u
  cost Reply.lost_after m message s c (one, unused, paid) u =
      taken_and_given W L config m s c
        (refund_over W L config Reply.lost_after (refund_input m message) c).1 (one, unused, paid)
        (paid_back m message c one unused) u

  -- If BullMQ refuses custom ids that contain a colon, as its documentation says, the retry of a refund
  -- is never queued: a request that is charged under unused keys and whose handler fails leaves the
  -- jobs as they were, and costs nobody anything if its one attempt of a refund was committed, heard
  -- or not; if that attempt was lost before, its subject has paid the credit, and nobody else
  -- anything.
  pub failed_request_cost :
      (route : Route) (principal : Option String) (billing : String → Result BillingSubject)
      (request_id : Option String) (s : State W L) (m : Marker) (c : State W L) (reply : Reply)
      (add : Adder) (jobs : List Job) (message : String)
      → RefusesColons add
      → charge W L config route principal billing request_id s ≡ (ok (some m), c)
      → L.lookup m.spend_key s.db.ledger ≡ none
      → L.lookup m.refund_key s.db.ledger ≡ none
      → (u : BillingSubject)
      → let t =
          refund_if_needed W L config reply
            (some add)
            (some m)
            message
            (record { credits = c; jobs = jobs }) in
        (t.jobs ≡ jobs)
        × (get_balance W L u t.credits.db ≡ (
            if is_committed reply
            then get_balance W L u s.db
            else if m.subject === u
            then get_balance W L m.subject s.db +ℤ negsuc 0
            else get_balance W L u s.db))
  failed_request_cost route principal billing request_id s m c reply add jobs message refuses h
        new_spend new_refund u =
      let s' : Shared W L config = record { credits = c; jobs = jobs } in
      let after = unqueued reply add m message s' refuses in
      let taken =
        charge-HasTaken W L config route principal billing request_id s m c h new_spend
          new_refund in
      subst⁻¹
        (λ (t : Shared W L config).
          (t.jobs ≡ jobs)
          × (get_balance W L u t.credits.db ≡ (
              if is_committed reply
              then get_balance W L u s.db
              else if m.subject === u
              then get_balance W L m.subject s.db +ℤ negsuc 0
              else get_balance W L u s.db)))
        after (refl, cost reply m message s c taken u)
