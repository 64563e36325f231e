-- ===== src/Topup/Tests.antt =====
-- A purchase whose payment settles later, with a delivery whose outcome is lost and a repeated one.
use nestjs_enterprise_starte.Prelude.Int.{◌+ℤ◌}
use nestjs_enterprise_starte.Topup.{
  ℤ, pos, Config, State, Session, Event, Content, Pack, Events, PaymentStatus, parse_credit_packs,
  checkout_metadata, has_settled, parse_pack, parse_entries, pack_by_slug, grant_from_checkout,
  record_event, handle_event, handle_webhook, user_of, slug_of,
}
use nestjs_enterprise_starte.Topup.Delivered.{deliver, Delivery, deliver_all}
use nestjs_enterprise_starte.Topup.Bought.{bought_once}
use nestjs_enterprise_starte.Credits.{get_balance, Entry, Wallets, Ledger, Config as CreditConfig}
use nestjs_enterprise_starte.Organizations.Subject.{BillingSubject, subject_key}
use nestjs_enterprise_starte.Common.Exec.{Reply}
use nestjs_enterprise_starte.Common.Table.{rows_table, search_rows}
use nestjs_enterprise_starte.Prelude.{
  ◌===◌, inr, if◌then◌else◌, false, ◌≡◌, string_key, Option, ◌∷◌, true, List, String, [], none,
  some, refl,
}

abbrev wallet_rows : Wallets
wallet_rows = rows_table BillingSubject ℤ subject_key

abbrev ledger_rows : Ledger
ledger_rows = rows_table String Entry string_key

abbrev event_rows : Events
event_rows = rows_table String String string_key

abbrev credits_config : CreditConfig
credits_config = record { low_balance_threshold = none; has_metrics = false }

abbrev hundred : String → Option ℤ
hundred _ = some (pos 100)

abbrev entries : List (List String)
entries = ("starter" ∷ "100" ∷ "price_1" ∷ []) ∷ ("large" ∷ "100" ∷ "price_2" ∷ []) ∷ []

abbrev starter : Pack
starter = record { slug = "starter"; credits = pos 100; price_id = "price_1" }

abbrev config : Config
config = record {
  enabled = true;
  has_client = true;
  webhook_secret = "secret";
  packs = starter ∷ record { slug = "large"; credits = pos 100; price_id = "price_2" } ∷ [];
  success_url = "/success";
  cancel_url = "/cancel";
}

abbrev session : PaymentStatus → Session
session status = record {
  id = "cs_1";
  payment_status = status;
  client_reference_id = some "ann";
  metadata = some (checkout_metadata "ann" starter);
}

abbrev completed_unpaid : Event
completed_unpaid = record {
  id = "evt_1";
  content = Content.completed (session PaymentStatus.unpaid);
}

abbrev settled : Event
settled = record {
  id = "evt_2";
  content = Content.async_payment_succeeded (session PaymentStatus.paid);
}

abbrev right_signature : Event → String → String → Option Event
right_signature e signature secret = if signature === secret then some e else none

abbrev delivery : Event → Reply → Delivery Event
delivery e reply = record { body = e; signature = some "secret"; reply = reply; fault = none }

abbrev before :
    State wallet_rows ledger_rows credits_config event_rows event_rows (Unit {0}) Event config
before = record {
  credits = record { db = record { wallets = []; ledger = [] }; emitted = []; recorded = [] };
  processed = [];
  customers = [];
  stripe = tt;
}

opened : Unit {0}
unfolding parse_credit_packs parse_entries parse_pack pack_by_slug has_settled search_rows
    handle_webhook handle_event grant_from_checkout record_event user_of slug_of deliver_all
opened = tt

bought_once_example :
    get_balance wallet_rows ledger_rows
      (BillingSubject.user "ann")
      (deliver_all wallet_rows ledger_rows credits_config event_rows event_rows
        (Unit {0})
        Event
        config
        right_signature
        (delivery settled Reply.lost_after ∷ delivery settled Reply.heard ∷ [])
        (deliver wallet_rows ledger_rows credits_config event_rows event_rows
          (Unit {0})
          Event
          config
          right_signature
          (delivery settled Reply.heard)
          (deliver_all wallet_rows ledger_rows credits_config event_rows event_rows
            (Unit {0})
            Event
            config
            right_signature
            (delivery completed_unpaid Reply.heard ∷ delivery settled Reply.lost_before ∷ [])
            before))).credits.db
    ≡ pos 100
unfolding opened ◌+ℤ◌ get_balance
bought_once_example =
    bought_once wallet_rows ledger_rows credits_config event_rows event_rows (Unit {0}) Event config
      right_signature hundred entries "cs_1" "ann" "starter" starter before
      (delivery completed_unpaid Reply.heard ∷ delivery settled Reply.lost_before ∷ [])
      (delivery settled Reply.lost_after ∷ delivery settled Reply.heard ∷ [])
      (delivery settled Reply.heard) settled (session PaymentStatus.paid) refl refl refl refl refl
      refl
      (
        inr (session PaymentStatus.unpaid, refl, refl, refl),
        (inr (session PaymentStatus.paid, refl, refl, refl), tt),
      )
      (inr (session PaymentStatus.paid, refl, refl, refl))
      (
        inr (session PaymentStatus.paid, refl, refl, refl),
        (inr (session PaymentStatus.paid, refl, refl, refl), tt),
      )
      refl refl refl refl refl (BillingSubject.user "ann")
