-- ===== src/Topup/Delivered.antt =====
-- What the deliveries of Stripe's events do to the wallets: a session that settled is credited once.
use nestjs_enterprise_starte.Topup.Packs.{IsSold}
use mathlib.Core.Path.{subst, subst⁻¹}
use nestjs_enterprise_starte.Topup.{
  checkout_metadata, Config, State, Session, Event, Events, Customers, Pack, handle_event,
  handle_webhook, grant_from_checkout, record_event, session_of, has_settled, user_of, slug_of,
  grant_input, pack_by_slug,
}
use nestjs_enterprise_starte.Credits.{
  Wallets, Ledger, grant, State as CreditState, Config as CreditConfig,
}
use nestjs_enterprise_starte.Organizations.Subject.{subject_key}
use nestjs_enterprise_starte.Common.Exec.{Reply, over}
use nestjs_enterprise_starte.Prelude.{
  All, string_key, Bool-cases, ◌===◌, inr, ◌⊎◌, inl, false, true, Option-cases, is_some, ◌||◌, not,
  [], if◌then◌else◌, ◌∷◌, arith, some, none, ◌≡◌, List, Option, String, refl,
}

-- One delivery: what the endpoint gets, whether the outcome of the credit is heard, and what the
-- database rejects the record of the event with.
pub record Delivery (RawBody : Type 0) : Type 0 where
  pub body : RawBody
  pub signature : Option String
  pub reply : Reply
  pub fault : Option String

module _ (W : Wallets) (L : Ledger) (credits_config : CreditConfig) (P : Events) (C : Customers)
    (Stripe RawBody : Type 0) (config : Config)
    (construct_event : RawBody → String → String → Option Event) where
  abbrev Shop : Type 0
  Shop = State W L credits_config P C Stripe RawBody config

  -- the event of a delivery, if its signature is right
  abbrev pub event_of : Delivery RawBody → Option Event
  event_of d = elim d.signature [
    | none ↦ none
    | some text ↦ construct_event d.body text config.webhook_secret
  ]

  abbrev pub deliver : Delivery RawBody → Shop → Shop
  deliver d s =
      (handle_webhook W L credits_config P C Stripe RawBody config construct_event d.reply d.fault
        d.body d.signature s).1

  unfoldable pub deliver_all : List (Delivery RawBody) → Shop → Shop
  deliver_all [] s = s
  deliver_all (d ∷ ds) s = deliver_all ds (deliver d s)

  record_event_credits :
      (fault : Option String) (e : Event) (s : Shop)
      → (record_event W L credits_config P C Stripe RawBody config fault e s).1.credits ≡ s.credits
  unfolding record_event
  record_event_credits none e s = ground arith
  record_event_credits (some message) e s = refl

  -- a delivery of no verified event changes no wallet
  deliver-none : (d : Delivery RawBody) (s : Shop) → event_of d ≡ none → deliver d s ≡ s
  unfolding handle_webhook
  deliver-none d s h = ground arith

  deliver-some :
      (d : Delivery RawBody) (s : Shop) (e : Event)
      → event_of d ≡ some e
      → deliver d s ≡ (
          if not config.enabled || not config.has_client
          then s
          else (handle_event W L credits_config P C Stripe RawBody config d.reply d.fault e s).1)
  unfolding handle_webhook
  deliver-some d s e h = ground arith

  -- an event without a session changes no wallet
  event_without_session :
      (reply : Reply) (fault : Option String) (e : Event) (s : Shop)
      → session_of e.content ≡ none
      → (handle_event W L credits_config P C Stripe RawBody config reply fault e s).1.credits
        ≡ s.credits
  unfolding handle_event
  event_without_session reply fault e s h = ground (arith, record_event_credits fault e s)

  -- an event with a session does what the credit does, unless it was handled before
  event_with_session :
      (reply : Reply) (fault : Option String) (e : Event) (x : Session) (s : Shop)
      → session_of e.content ≡ some x
      → (handle_event W L credits_config P C Stripe RawBody config reply fault e s).1.credits ≡ (
          if is_some (P.lookup e.id s.processed)
          then s.credits
          else (grant_from_checkout W L credits_config P C Stripe RawBody config reply x
              s).1.credits)
  unfolding handle_event
  event_with_session reply fault e x s h =
      let r = grant_from_checkout W L credits_config P C Stripe RawBody config reply x s in
      ground (arith, record_event_credits fault e r.1)

  -- the credit for a session that names a known user and pack
  grant_known :
      (reply : Reply) (x : Session) (s : Shop) (user slug : String) (pack : Pack)
      → user_of x ≡ some user
      → slug_of x ≡ some slug
      → pack_by_slug slug config.packs ≡ some pack
      → (grant_from_checkout W L credits_config P C Stripe RawBody config reply x s).1.credits ≡ (
          if has_settled x
          then (over reply (grant W L credits_config (grant_input x.id user pack)) s.credits).1
          else s.credits)
  unfolding grant_from_checkout
  grant_known reply x s user slug pack known named found = ground arith

  -- what a delivery's event says of a purchase: it carries its session, or none
  abbrev pub Carries : String → String → Pack → Event → Type 0
  Carries session user pack e =
      (session_of e.content ≡ none)
      ⊎ ((x : Session) × (session_of e.content ≡ some x)
          × (x.id ≡ session)
          × (x.metadata ≡ some (checkout_metadata user pack)))

  abbrev pub IsAbout : String → String → Pack → Delivery RawBody → Type 0
  IsAbout session user pack d = elim (event_of d) [
    | none ↦ Unit {0}
    | some e ↦ Carries session user pack e
  ]

  module _ (session user slug : String) (pack : Pack)
      (found : pack_by_slug slug config.packs ≡ some pack) (sold : IsSold pack)
      (named : pack.slug ≡ slug) (nonempty : (user === "") ≡ false) where
    -- the session that the checkout asked for names the user and the pack
    known : (x : Session) → x.metadata ≡ some (checkout_metadata user pack) → user_of x ≡ some user
    unfolding user_of
    known x h = ground arith

    priced : (x : Session) → x.metadata ≡ some (checkout_metadata user pack) → slug_of x ≡ some slug
    unfolding slug_of
    priced x h = ground (arith, sold.0)

    -- what a predicate on the ledger must be kept by, for a delivery to keep it
    abbrev pub IsKept : (CreditState W L → Type 0) → Type 0
    IsKept Q =
        (reply : Reply) (t : CreditState W L)
        → Q t
        → Q (over reply (grant W L credits_config (grant_input session user pack)) t).1

    event_keeps :
        (Q : CreditState W L → Type 0) (reply : Reply) (fault : Option String) (e : Event)
        (s : Shop)
        → IsKept Q
        → Carries session user pack e
        → Q s.credits
        → Q (handle_event W L credits_config P C Stripe RawBody config reply fault e s).1.credits
    event_keeps Q reply fault e s kept (inl without) h =
        subst⁻¹ Q (event_without_session reply fault e s without) h
    event_keeps Q reply fault e s kept (inr (x, carried, same, noted)) h =
        rw (event_with_session reply fault e x s carried)
          (elim (Bool-cases (is_some (P.lookup e.id s.processed))) [
            | inl handled ↦ rw handled h
            | inr new ↦ rw new (
                rw (grant_known reply x s user slug pack (known x noted) (priced x noted) found)
                  (elim (Bool-cases (has_settled x)) [
                    | inr unsettled ↦ rw unsettled h
                    | inl settled ↦ rw settled (rw same (kept reply s.credits h))
                  ]))
          ])

    deliver_keeps :
        (Q : CreditState W L → Type 0) (d : Delivery RawBody) (s : Shop)
        → IsKept Q
        → IsAbout session user pack d
        → Q s.credits
        → Q (deliver d s).credits
    deliver_keeps Q d s kept about h = elim (Option-cases (event_of d)) [
      | inl nothing ↦ subst⁻¹ (λ t. Q t.credits) (deliver-none d s nothing) h
      | inr (e, verified) ↦
          let carries : Carries session user pack e =
            subst (λ o. elim o [ none ↦ Unit {0} | some a ↦ Carries session user pack a ]) verified
              about in
          subst⁻¹ (λ t. Q t.credits) (deliver-some d s e verified)
            (elim (Bool-cases (not config.enabled || not config.has_client)) [
              | inl off ↦ rw off h
              | inr on ↦ rw on (event_keeps Q d.reply d.fault e s kept carries h)
            ])
    ]

    pub deliver_all_keeps :
        (Q : CreditState W L → Type 0) (ds : List (Delivery RawBody)) (s : Shop)
        → IsKept Q
        → All (IsAbout session user pack) ds
        → Q s.credits
        → Q (deliver_all ds s).credits
    unfolding deliver_all
    deliver_all_keeps Q [] s kept about h = h
    deliver_all_keeps Q (d ∷ ds) s kept about h =
        deliver_all_keeps Q ds (deliver d s) kept about.1 (deliver_keeps Q d s kept about.0 h)

    -- a delivery that is not known yet and whose session has settled does what the credit does
    pub deliver_settled :
        (d : Delivery RawBody) (s : Shop) (e : Event) (x : Session)
        → config.enabled ≡ true
        → config.has_client ≡ true
        → IsAbout session user pack d
        → event_of d ≡ some e
        → session_of e.content ≡ some x
        → has_settled x ≡ true
        → P.lookup e.id s.processed ≡ none
        → (deliver d s).credits
          ≡ (over d.reply (grant W L credits_config (grant_input session user pack)) s.credits).1
    deliver_settled d s e x on client about verified carried settled new =
        let carries : Carries session user pack e =
          subst (λ o. elim o [ none ↦ Unit {0} | some a ↦ Carries session user pack a ]) verified
            about in
        elim carries [
          | inl without ↦ absurd (ground arith)
          | inr (y, carried', same, noted) ↦
              let one : x ≡ y = ground arith in
              let settled_y : has_settled y ≡ true =
                subst (λ z. has_settled z ≡ true) one settled in
              ground (
                arith,
                deliver-some d s e verified,
                event_with_session d.reply d.fault e y s carried',
                grant_known d.reply y s user slug pack (known y noted) (priced y noted) found,
                same,
              )
        ]
