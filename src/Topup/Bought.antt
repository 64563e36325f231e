-- ===== src/Topup/Bought.antt =====
-- A purchase is credited once, however often and in what order its events are delivered.
use nestjs_enterprise_starte.Prelude.Int.{◌+ℤ◌}
use mathlib.Core.Path.{subst, subst⁻¹}
use nestjs_enterprise_starte.Topup.Delivered.{
  Delivery, event_of, deliver, deliver_all, IsAbout, deliver_all_keeps, deliver_settled,
}
use nestjs_enterprise_starte.Topup.{
  integer, pos, ℤ, Config, State, Session, Event, Events, Customers, Pack, session_of, has_settled,
  grant_input, pack_by_slug, parse_credit_packs,
}
use nestjs_enterprise_starte.Topup.Packs.{parse_credit_packs-IsSold, pack_by_slug-IsSold}
use nestjs_enterprise_starte.Credits.{
  resolve_subject, Params, Wallets, Ledger, LedgerType, grant, get_balance, apply,
  State as CreditState, Config as CreditConfig,
}
use nestjs_enterprise_starte.Credits.Once.{Paid, over_again, over_first, grant-eq-apply}
use nestjs_enterprise_starte.Organizations.Subject.{BillingSubject, subject_key}
use nestjs_enterprise_starte.Common.Exec.{ok, Reply, over, is_heard}
use nestjs_enterprise_starte.Prelude.{
  arith, inl, if◌then◌else◌, ◌⊎◌, inr, All, ap, string_key, true, none, false, ◌===◌, suc, some,
  ◌≡◌, List, ℕ, Option, String, refl,
}
use Prim.Native.String.{◌++◌ as ◌⊕◌}

module _ (W : Wallets) (L : Ledger) (credits_config : CreditConfig) (P : Events) (C : Customers)
    (Stripe RawBody : Type 0) (config : Config)
    (construct_event : RawBody → String → String → Option Event) where
  abbrev Shop : Type 0
  Shop = State W L credits_config P C Stripe RawBody config

  module _ (session user : String) (pack : Pack) (n : ℕ) (amount : pack.credits ≡ pos (suc n))
      (nonempty : (user === "") ≡ false) where
    abbrev bought : Params
    bought = record {
      subject = BillingSubject.user user;
      type = LedgerType.grant;
      amount = pos (suc n);
      delta = pos (suc n);
      idempotency_key = "stripe:checkout:" ⊕ session;
      feature = none;
      metadata = none;
      fail_if_insufficient = false;
    }

    grant_call :
        (s : CreditState W L)
        → grant W L credits_config (grant_input session user pack) s
          ≡ apply W L credits_config
              (record bought { metadata = (grant_input session user pack).metadata })
              s
    unfolding resolve_subject
    grant_call s =
        grant-eq-apply W L credits_config (grant_input session user pack) s n
          (BillingSubject.user user) (ap integer amount) (ground arith)

    -- the purchase is credited, or its key is unused and nothing has changed
    abbrev Settling : CreditState W L → CreditState W L → Type 0
    Settling before s =
        ((s ≡ before) × (L.lookup bought.idempotency_key s.db.ledger ≡ none))
        ⊎ Paid W L credits_config bought before s

    over-Settling :
        (before s : CreditState W L) (reply : Reply)
        → Settling before s
        → let s' = (over reply (grant W L credits_config (grant_input session user pack)) s).1 in
          Settling before s' × ((is_heard reply ≡ true) → Paid W L credits_config bought before s')
    over-Settling before s reply (inr paid) =
        let again =
          over_again W L credits_config bought (grant_input session user pack).metadata
            (grant W L credits_config (grant_input session user pack)) grant_call reply s paid.0 in
        (
          inr (subst⁻¹ (Paid W L credits_config bought before) again paid),
          λ h. subst⁻¹ (Paid W L credits_config bought before) again paid,
        )
    over-Settling before s reply (inl (same, fresh)) =
        elim (over_first W L credits_config bought (grant_input session user pack).metadata
          (grant W L credits_config (grant_input session user pack)) grant_call reply s refl
          fresh) [
            | inl (quiet, kept, failed) ↦
                (subst⁻¹ (Settling before) kept (inl (same, fresh)), λ h. absurd (ground arith))
            | inr (paid, certain) ↦
                let since =
                  subst
                    (λ b.
                      Paid W L credits_config bought b
                        (over reply (grant W L credits_config (grant_input session user pack)) s).1)
                    same paid in
                (inr since, λ h. since)
          ]

    over-Paid :
        (before s : CreditState W L) (reply : Reply)
        → Paid W L credits_config bought before s
        → Paid W L credits_config bought before
            (over reply (grant W L credits_config (grant_input session user pack)) s).1
    over-Paid before s reply paid =
        subst⁻¹ (Paid W L credits_config bought before)
          (over_again W L credits_config bought (grant_input session user pack).metadata
            (grant W L credits_config (grant_input session user pack)) grant_call reply s paid.0)
          paid

  -- Stripe may deliver the events of a session in any order and any number of times, and a delivery
  -- may fail anywhere. If every verified event among them that carries a session carries the one of
  -- the checkout, whose key is unused, and one delivery is of a settled session, its event is not
  -- recorded before and the outcome of its credit is heard, then in the end the user has the credits
  -- of the pack once and no other wallet has changed; if top-ups are enabled, the packs are ones that
  -- were read from the configuration, and the user's id is not empty.
  pub bought_once :
      (to_integer : String → Option ℤ) (entries : List (List String)) (session user slug : String)
      (pack : Pack) (s : Shop) (before after : List (Delivery RawBody)) (d : Delivery RawBody)
      (e : Event) (x : Session)
      → parse_credit_packs to_integer entries ≡ ok config.packs
      → pack_by_slug slug config.packs ≡ some pack
      → (user === "") ≡ false
      → config.enabled ≡ true
      → config.has_client ≡ true
      → L.lookup ("stripe:checkout:" ⊕ session) s.credits.db.ledger ≡ none
      → All
          (IsAbout W L credits_config P C Stripe RawBody config construct_event session user pack)
          before
      → IsAbout W L credits_config P C Stripe RawBody config construct_event session user pack d
      → All
          (IsAbout W L credits_config P C Stripe RawBody config construct_event session user pack)
          after
      → event_of W L credits_config P C Stripe RawBody config construct_event d ≡ some e
      → session_of e.content ≡ some x
      → has_settled x ≡ true
      → is_heard d.reply ≡ true
      → P.lookup e.id
          (deliver_all W L credits_config P C Stripe RawBody config construct_event before
            s).processed
        ≡ none
      → (u : BillingSubject)
      → get_balance W L u
          (deliver_all W L credits_config P C Stripe RawBody config construct_event after (
            deliver W L credits_config P C Stripe RawBody config construct_event d (
              deliver_all W L credits_config P C Stripe RawBody config construct_event before
                s))).credits.db
        ≡ (if BillingSubject.user user === u
            then get_balance W L (BillingSubject.user user) s.credits.db +ℤ pack.credits
            else get_balance W L u s.credits.db)
  bought_once to_integer entries session user slug pack s before after d e x parsed found nonempty
        on client fresh about_before about about_after verified carried settled heard new u =
      let (named, sold) =
        pack_by_slug-IsSold slug config.packs pack found
          (parse_credit_packs-IsSold to_integer entries config.packs parsed).0 in
      let (n, amount) = sold.1 in
      let first : Settling session user pack n amount nonempty s.credits
          (deliver_all W L credits_config P C Stripe RawBody config construct_event before
            s).credits =
        deliver_all_keeps W L credits_config P C Stripe RawBody config construct_event session user
          slug pack found sold named nonempty
          (Settling session user pack n amount nonempty s.credits) before s
          (λ reply t h. (over-Settling session user pack n amount nonempty s.credits t reply h).0)
          about_before (inl (refl, fresh)) in
      let hit =
        (over-Settling session user pack n amount nonempty s.credits
            (deliver_all W L credits_config P C Stripe RawBody config construct_event before
              s).credits
            d.reply first).1
          heard in
      let done =
        subst⁻¹ (Paid W L credits_config (bought session user pack n amount nonempty) s.credits)
          (deliver_settled W L credits_config P C Stripe RawBody config construct_event session user
            slug pack found sold named nonempty d
            (deliver_all W L credits_config P C Stripe RawBody config construct_event before s) e x
            on client about verified carried settled new)
          hit in
      let last =
        deliver_all_keeps W L credits_config P C Stripe RawBody config construct_event session user
          slug pack found sold named nonempty
          (Paid W L credits_config (bought session user pack n amount nonempty) s.credits) after
          (deliver W L credits_config P C Stripe RawBody config construct_event d
            (deliver_all W L credits_config P C Stripe RawBody config construct_event before s))
          (λ reply t. over-Paid session user pack n amount nonempty s.credits t reply) about_after
          done in
      rw amount (last.1 u)
