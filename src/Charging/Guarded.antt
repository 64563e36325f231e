-- ===== src/Charging/Guarded.antt =====
-- What the guard does when it charges a request, and what a failed request costs in the end.
use nestjs_enterprise_starte.Organizations.Subject.{subject_key}
use nestjs_enterprise_starte.Credits.Balance.{spend-eq-apply}
use nestjs_enterprise_starte.Credits.Once.{resolve_subject-some, applied_first}
use nestjs_enterprise_starte.Charging.Compensation.{refunded_once, settled_credits, GivenBack}
use nestjs_enterprise_starte.Common.Exec.{is_heard}
use mathlib.Core.Bool.{false≢true}
use mathlib.Core.Path.{subst, subst⁻¹}
use nestjs_enterprise_starte.Common.Exec.{Result-cases, ok}
use nestjs_enterprise_starte.Charging.{
  Adder, enqueue_refund, job_for, integer, Reply, spend_input, MutationResult, feature_name, Marker,
  Result, Route, charge, CreditFeature, Ledger, BillingSubject, marker_for,
}
use text.Mathlib.TextLemmas.{append_inj, append_assoc}
use Prim.Native.String.{◌++◌ as ◌⊕◌}
use nestjs_enterprise_starte.Credits.{
  apply, LedgerType, params_for, get_balance, Wallets, State, Config, spend,
}
use nestjs_enterprise_starte.Prelude.Int.{int_laws, ℤ, ◌+ℤ◌, pos, negsuc}
use nestjs_enterprise_starte.Prelude.{
  ===_refl, if◌then◌else◌, ap, [], true, ◌∷◌, any, none, List, Option-cases, arith, ◌||◌, ◌∙◌, sym,
  not, or_else, inl, some, inr, Bool-cases, false, ◌===◌, Option, ◌≡◌, String, string_key, refl,
}

marker_amount :
    (subject : BillingSubject) (feature : CreditFeature) (id : String)
    → (marker_for subject feature id).amount ≡ 1
unfolding marker_for
marker_amount subject CreditFeature.demo_paid id = refl

prefixes_differ : (rest : String) → "spend:" ⊕ rest ≡ "refund:" ⊕ rest → ⊥
prefixes_differ rest e =
    let first : "s" ⊕ ("pend:" ⊕ rest) ≡ "r" ⊕ ("efund:" ⊕ rest) =
      sym (append_assoc "s" "pend:" rest) ∙ e ∙ append_assoc "r" "efund:" rest in
    false≢true (
      (string_key.same_iff "s" "r").1
        (append_inj {s₁ = "s"} {s₂ = "r"} {t₁ = "pend:" ⊕ rest} {t₂ = "efund:" ⊕ rest} first
          refl).0)

keys_differ :
    (subject : BillingSubject) (feature : CreditFeature) (id : String)
    → ((marker_for subject feature id).spend_key === (marker_for subject feature id).refund_key)
      ≡ false
unfolding marker_for
keys_differ subject feature id =
    elim (Bool-cases
      ((marker_for subject feature id).spend_key === (marker_for subject feature id).refund_key)) [
        | inr differ ↦ differ
        | inl same ↦
            absurd
              (prefixes_differ (id ⊕ ":" ⊕ feature_name feature) ((string_key.same_iff _ _).0 same))
      ]

spent_and_back : (b : ℤ) → b +ℤ negsuc 0 +ℤ pos 1 ≡ b
spent_and_back b = omega int_laws

marker_fields :
    (subject : BillingSubject) (feature : CreditFeature) (id : String)
    → marker_for subject feature id
      ≡ marker_for
          (marker_for subject feature id).subject
          (marker_for subject feature id).feature
          id
unfolding marker_for
marker_fields subject feature id = refl

module _ (W : Wallets) (L : Ledger) (config : Config) where
  -- A guard that passes with a marker has spent its amount.
  pub charge_spends :
      (route : Route) (principal : Option String) (billing : String → Result BillingSubject)
      (request_id : Option String) (s : State W L) (m : Marker) (c : State W L)
      → charge W L config route principal billing request_id s ≡ (ok (some m), c)
      → (r : MutationResult) × (spend W L config (spend_input m) s ≡ (ok r, c))
        × (m ≡ marker_for m.subject m.feature (or_else request_id "unknown"))
  unfolding charge
  charge_spends route principal billing request_id s m c h =
      elim (Bool-cases (not route.is_http || route.is_public)) [
        | inl open_route ↦ absurd (ground arith)
        | inr closed ↦ elim (Option-cases route.feature) [
          | inl free ↦ absurd (ground arith)
          | inr (feature, costs) ↦ elim (Option-cases principal) [
            | inl nobody ↦ absurd (ground arith)
            | inr (id, known) ↦ elim (Result-cases (billing id)) [
              | inl (e, unresolved) ↦ absurd (ground arith)
              | inr (subject, resolved) ↦
                  let marker = marker_for subject feature (or_else request_id "unknown") in
                  elim (Result-cases (spend W L config (spend_input marker) s).0) [
                    | inl (e, refused) ↦ absurd (ground arith)
                    | inr (r, spent) ↦
                        let given : marker ≡ m = ground arith in
                        subst
                          (λ (x : Marker).
                            (r : MutationResult) × (spend W L config (spend_input x) s ≡ (ok r, c))
                            × (x ≡ marker_for x.subject x.feature (or_else request_id "unknown")))
                          given
                          (
                            r,
                            ground arith,
                            marker_fields subject feature (or_else request_id "unknown"),
                          )
                  ]
            ]
          ]
        ]
      ]

  -- The guard passes again where the same spend goes through again.
  pub charge_again :
      (route : Route) (principal : Option String) (billing : String → Result BillingSubject)
      (request_id : Option String) (s s' : State W L) (m : Marker) (c : State W L)
      (r : MutationResult)
      → charge W L config route principal billing request_id s ≡ (ok (some m), c)
      → spend W L config (spend_input m) s' ≡ (ok r, s')
      → charge W L config route principal billing request_id s' ≡ (ok (some m), s')
  unfolding charge
  charge_again route principal billing request_id s s' m c r h again =
      elim (Bool-cases (not route.is_http || route.is_public)) [
        | inl open_route ↦ absurd (ground arith)
        | inr closed ↦ elim (Option-cases route.feature) [
          | inl free ↦ absurd (ground arith)
          | inr (feature, costs) ↦ elim (Option-cases principal) [
            | inl nobody ↦ absurd (ground arith)
            | inr (id, known) ↦ elim (Result-cases (billing id)) [
              | inl (e, unresolved) ↦ absurd (ground arith)
              | inr (subject, resolved) ↦
                  let marker = marker_for subject feature (or_else request_id "unknown") in
                  elim (Result-cases (spend W L config (spend_input marker) s).0) [
                    | inl (e, refused) ↦ absurd (ground arith)
                    | inr (q, spent) ↦
                        let given : marker ≡ m = ground arith in
                        let repeated : spend W L config (spend_input marker) s' ≡ (ok r, s') =
                          ap (λ (x : Marker). spend W L config (spend_input x) s') given ∙ again in
                        ground arith
                  ]
            ]
          ]
        ]
      ]

  -- What a charge under unused keys takes: a credit of its subject, and not the key of the refund.
  abbrev pub HasTaken : Marker → State W L → State W L → Type 0
  HasTaken m s c =
      (m.amount ≡ 1)
      × (L.lookup m.refund_key c.db.ledger ≡ none)
      × ((u : BillingSubject)
          → get_balance W L u c.db ≡ (
              if m.subject === u
              then get_balance W L m.subject s.db +ℤ negsuc 0
              else get_balance W L u s.db))

  pub charge-HasTaken :
      (route : Route) (principal : Option String) (billing : String → Result BillingSubject)
      (request_id : Option String) (s : State W L) (m : Marker) (c : State W L)
      → charge W L config route principal billing request_id s ≡ (ok (some m), c)
      → L.lookup m.spend_key s.db.ledger ≡ none
      → L.lookup m.refund_key s.db.ledger ≡ none
      → HasTaken m s c
  charge-HasTaken route principal billing request_id s m c h new_spend new_refund =
      let (r, spent, formed) = charge_spends route principal billing request_id s m c h in
      let one : m.amount ≡ 1 = ap (λ (x : Marker). x.amount) formed ∙ marker_amount _ _ _ in
      let p = params_for LedgerType.spend (spend_input m) m.subject (pos 1) in
      let same : spend W L config (spend_input m) s ≡ apply W L config p s =
        spend-eq-apply W L config (spend_input m) s 0 m.subject (ap (λ a. integer (pos a)) one)
          (resolve_subject-some (spend_input m) m.subject refl) in
      let ran : apply W L config p s ≡ (ok r, c) = sym same ∙ spent in
      let (moved, others) = applied_first W L config p s {r = r} new_spend (ap (λ x. x.0) ran) in
      let after : (apply W L config p s).1 ≡ c = ap (λ x. x.1) ran in
      (
        one,
        ap (λ (x : State W L). L.lookup m.refund_key x.db.ledger) (sym after)
            ∙ others m.refund_key (
                subst⁻¹ (λ (x : Marker). (x.spend_key === x.refund_key) ≡ false) formed
                  (keys_differ _ _ _))
            ∙ new_refund,
        λ u. ap (λ (x : State W L). get_balance W L u x.db) (sym after) ∙ moved u,
      )

  -- What is taken and given back leaves every balance as it was.
  pub taken_and_given :
      (m : Marker) (s c t : State W L)
      → HasTaken m s c
      → ((u : BillingSubject) → GivenBack W L config m c t u)
      → (u : BillingSubject) → get_balance W L u t.db ≡ get_balance W L u s.db
  taken_and_given m s c t (one, unused, paid) back u =
      back u ∙ elim (Bool-cases (m.subject === u)) [
        | inr differ ↦ ground (arith, paid u)
        | inl equal ↦
            let less : get_balance W L m.subject c.db ≡ get_balance W L m.subject s.db +ℤ negsuc 0 =
              ground (arith, paid m.subject, ===_refl m.subject) in
            rw equal (
              rw (less, one)
                (spent_and_back _
                  ∙ ap (λ v. get_balance W L v s.db) ((subject_key.same_iff m.subject u).0 equal)))
      ]

  -- A request that is charged under unused keys and whose handler fails costs nothing in the end, to
  -- anyone: when the queue is worked off, every balance is the one before the guard, if the queue
  -- takes the job of the refund under its id and one attempt of the refund is heard, the first one or one of the
  -- worker, however many attempts were lost before or after they were committed.
  pub failed_request_costs_nothing :
      (route : Route) (principal : Option String) (billing : String → Result BillingSubject)
      (request_id : Option String) (s : State W L) (m : Marker) (c : State W L) (reply : Reply)
      (add : Adder) (replies : List Reply) (message : String)
      → charge W L config route principal billing request_id s ≡ (ok (some m), c)
      → L.lookup m.spend_key s.db.ledger ≡ none
      → L.lookup m.refund_key s.db.ledger ≡ none
      → enqueue_refund add (job_for m) [] ≡ some (job_for m ∷ [])
      → any is_heard (reply ∷ replies) ≡ true
      → (u : BillingSubject)
      → get_balance W L u
          (settled_credits W L config reply add replies m message
            (record { credits = c; jobs = [] })).db
        ≡ get_balance W L u s.db
  failed_request_costs_nothing route principal billing request_id s m c reply add replies message h
        new_spend new_refund taken heard_once =
      let (one, unused, paid) =
        charge-HasTaken route principal billing request_id s m c h new_spend new_refund in
      taken_and_given m s c
        (settled_credits W L config reply add replies m message (record { credits = c; jobs = [] }))
        (one, unused, paid)
        (refunded_once W L config m 0 reply add replies message (record { credits = c; jobs = [] })
          one taken refl unused heard_once)
