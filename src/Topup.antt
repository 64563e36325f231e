-- ===== src/Topup.antt =====
-- src/modules/billing/stripe-topup.service.ts, with the packs of src/config/stripe.config.ts and
-- src/config/env.schema.ts. Stripe's own calls and the check of signatures are parameters.
pub mod Packs
pub mod Delivered
pub mod Bought
mod Tests
use nestjs_enterprise_starte.Prelude.Int.{pos, leb_ℤ, ℤ}
use nestjs_enterprise_starte.Prelude.{
  any, ◌∷◌, ◌===◌, [], ◌∷◌, true, none, ◌||◌, ℕ, string_key, false, some, if◌then◌else◌, Option,
  Bool, not, List, String, refl,
}
use nestjs_enterprise_starte.Common.Table.{Table}
use nestjs_enterprise_starte.Common.Json.{end, set_field, object, integer, Json}
use nestjs_enterprise_starte.Common.Errors.{Detail, other, ErrorCode, api_error}
use nestjs_enterprise_starte.Common.Exec.{
  Reply, over, lift, ok, pure, err, throw, throw_if, Exec, Result, ◌>>=◌, ◌>>◌,
}
use nestjs_enterprise_starte.Credits.{
  Input, Wallets, Ledger, grant, State as CreditState, Config as CreditConfig,
}
use Prim.Native.String.{◌++◌ as ◌⊕◌}

-- `StripeCreditPack`
pub record Pack : Type 0 where
  pub slug : String
  pub credits : ℤ
  pub price_id : String

-- one entry of `STRIPE_CREDIT_PACKS`, split at the colons; `to_integer` is `Number` where the result
-- is an integer
pub parse_pack : (String → Option ℤ) → List String → Result Pack
parse_pack to_integer (slug ∷ credits ∷ price_id ∷ []) = elim (to_integer credits) [
  | none ↦ err (other "credits must be a positive integer")
  | some n ↦
      if slug === "" || price_id === "" || leb_ℤ n (pos 0)
      then err (other "credits must be a positive integer")
      else ok (record { slug = slug; credits = n; price_id = price_id })
]
parse_pack to_integer _ = err (other "expected slug:credits:priceId")

-- the loop over the entries that are not blank
pub parse_entries : (String → Option ℤ) → List (List String) → Result (List Pack)
unfolding parse_pack
parse_entries to_integer [] = ok []
parse_entries to_integer (entry ∷ entries) =
    let rest = parse_entries to_integer entries in
    elim (parse_pack to_integer entry) [
      | err e ↦ err e
      | ok pack ↦ elim rest [ err e ↦ err e | ok packs ↦ ok (pack ∷ packs) ]
    ]

-- the loop over the set of slugs that were seen
abbrev pub has_duplicate : List Pack → Bool
has_duplicate [] = false
has_duplicate (p ∷ packs) = any (λ q. q.slug === p.slug) packs || has_duplicate packs

-- `parseStripeCreditPacks`
pub parse_credit_packs : (String → Option ℤ) → List (List String) → Result (List Pack)
unfolding parse_entries
parse_credit_packs to_integer entries = elim (parse_entries to_integer entries) [
  | err e ↦ err e
  | ok [] ↦ err (other "must declare at least one pack")
  | ok (p ∷ packs) ↦
      if has_duplicate (p ∷ packs) then err (other "duplicate pack slug") else ok (p ∷ packs)
]

-- `packsBySlug[slug]`, an object in which a later pack overwrites an earlier one
pub pack_by_slug : String → List Pack → Option Pack
pack_by_slug slug [] = none
pack_by_slug slug (p ∷ packs) =
    let rest = pack_by_slug slug packs in
    elim rest [ some q ↦ some q | none ↦ if p.slug === slug then some p else none ]

-- `stripeConfig`
pub record Config : Type 0 where
  pub enabled : Bool
  pub has_client : Bool
  pub webhook_secret : String
  pub packs : List Pack
  pub success_url : String
  pub cancel_url : String

pub data PaymentStatus : Type 0 where
  paid unpaid no_payment_required : PaymentStatus

-- the fields of a session's metadata that are read or written
pub record SessionMetadata : Type 0 where
  pub user_id : Option String
  pub credit_pack : Option String
  pub credits : Option ℤ

-- what is read of a `Checkout.Session`
pub record Session : Type 0 where
  pub id : String
  pub payment_status : PaymentStatus
  pub client_reference_id : Option String
  pub metadata : Option SessionMetadata

pub data Content : Type 0 where
  completed async_payment_succeeded : Session → Content
  another : String → Content

pub record Event : Type 0 where
  pub id : String
  pub content : Content

-- `event.type`
abbrev pub type_of : Content → String
type_of (completed _) = "checkout.session.completed"
type_of (async_payment_succeeded _) = "checkout.session.async_payment_succeeded"
type_of (another type) = type

-- the session of an event that grants
abbrev pub session_of : Content → Option Session
session_of (completed x) = some x
session_of (async_payment_succeeded x) = some x
session_of (another _) = none

-- `hasSettled`
pub has_settled : Session → Bool
has_settled x = elim x.payment_status [ paid ↦ true | unpaid ↦ false | no_payment_required ↦ true ]

-- a text that is neither missing nor empty
abbrev truthy : Option String → Option String
truthy none = none
truthy (some a) = if a === "" then none else some a

-- `session.metadata?.userId ?? session.client_reference_id`
pub user_of : Session → Option String
user_of x = elim x.metadata [
  | none ↦ truthy x.client_reference_id
  | some m ↦ elim m.user_id [ none ↦ truthy x.client_reference_id | some user ↦ truthy (some user) ]
]

-- `session.metadata?.creditPack`
pub slug_of : Session → Option String
slug_of x = elim x.metadata [ none ↦ none | some m ↦ truthy m.credit_pack ]

-- the argument of `grant`
abbrev pub grant_input : String → String → Pack → Input
grant_input session user pack = record {
  subject = none;
  user_id = some user;
  amount = integer pack.credits;
  idempotency_key = "stripe:checkout:" ⊕ session;
  feature = none;
  metadata = some (
      object (
        set_field "source" (Json.text "stripe_checkout") (
          set_field "sessionId" (Json.text session) (
            set_field "creditPack" (Json.text pack.slug)
              (set_field "priceId" (Json.text pack.price_id) end)))));
}

-- the metadata of the session that a checkout asks for
abbrev pub checkout_metadata : String → Pack → SessionMetadata
checkout_metadata user pack = record {
  user_id = some user;
  credit_pack = some pack.slug;
  credits = some pack.credits;
}

-- the argument of `checkout.sessions.create`
pub record CheckoutRequest : Type 0 where
  pub customer : String
  pub client_reference_id : String
  pub price : String
  pub quantity : ℕ
  pub success_url : String
  pub cancel_url : String
  pub metadata : SessionMetadata

pub checkout_request : Config → String → String → Pack → CheckoutRequest
checkout_request config customer user pack = record {
  customer = customer;
  client_reference_id = user;
  price = pack.price_id;
  quantity = 1;
  success_url = config.success_url;
  cancel_url = config.cancel_url;
  metadata = checkout_metadata user pack;
}

-- `stripe_processed_events` and `stripe_customers`
abbrev pub Events : Type 1
Events = Table String String string_key

abbrev pub Customers : Type 1
Customers = Table String String string_key

module _ (W : Wallets) (L : Ledger) (credits_config : CreditConfig) (P : Events) (C : Customers)
    (Stripe RawBody : Type 0) (config : Config) where
  -- the ledger, the two tables, and what Stripe keeps
  pub record State : Type 0 where
    pub credits : CreditState W L
    pub processed : P.State
    pub customers : C.State
    pub stripe : Stripe

  -- `assertEnabled`
  abbrev pub assert_enabled : Exec State (Unit {0})
  assert_enabled =
      throw_if (not config.enabled || not config.has_client)
        (api_error 503 ErrorCode.service_unavailable "Stripe top-up is not configured." [])

  abbrev on_credits : {A : Type 0} → Exec (CreditState W L) A → Exec State A
  on_credits m s = let (r, t) = m s.credits in (r, record s { credits = t })

  abbrev on_stripe : {A : Type 0} → Exec Stripe A → Exec State A
  on_stripe m s = let (r, t) = m s.stripe in (r, record s { stripe = t })

  -- `grantFromCheckout`
  pub grant_from_checkout : Reply → Session → Exec State (Unit {0})
  unfolding has_settled
  grant_from_checkout reply x = if not (has_settled x) then pure tt else elim (user_of x) [
    | none ↦ pure tt
    | some user ↦ elim (slug_of x) [
      | none ↦ pure tt
      | some slug ↦ elim (pack_by_slug slug config.packs) [
        | none ↦ pure tt
        | some pack ↦ do
          on_credits (over reply (grant W L credits_config (grant_input x.id user pack)))
          pure tt
      ]
    ]
  ]

  -- the insert of the processed event, which another delivery may have done before
  pub record_event : Option String → Event → Exec State (Unit {0})
  record_event (some message) event s = (err (other message), s)
  record_event none event s = elim (P.lookup event.id s.processed) [
    | some taken ↦ (err (other "P2002"), s)
    | none ↦ (ok tt, record s { processed = P.put event.id (type_of event.content) s.processed })
  ]

  -- `handleWebhook` from the verified event on
  pub handle_event : Reply → Option String → Event → Exec State (Unit {0})
  unfolding grant_from_checkout record_event
  handle_event reply fault event s = elim (P.lookup event.id s.processed) [
    | some already ↦ (ok tt, s)
    | none ↦ elim (session_of event.content) [
      | none ↦ record_event fault event s
      | some x ↦ (grant_from_checkout reply x >> record_event fault event) s
    ]
  ]

  -- `handleWebhook`, with `constructEvent`, which checks the signature with the secret
  pub handle_webhook :
      (RawBody → String → String → Option Event)
      → Reply
      → Option String
      → RawBody
      → Option String
      → Exec State (Unit {0})
  unfolding handle_event
  handle_webhook construct_event reply fault body signature = do
    assert_enabled
    elim signature [
      | none ↦ throw (api_error 400 ErrorCode.bad_request "Missing Stripe-Signature header." [])
      | some text ↦ elim (construct_event body text config.webhook_secret) [
        | none ↦ throw (api_error 400 ErrorCode.bad_request "Invalid Stripe webhook signature." [])
        | some event ↦ handle_event reply fault event
      ]
    ]

  -- the insert of a customer, whose user is unique
  pub record_customer : String → String → Exec State (Unit {0})
  record_customer user customer s = elim (C.lookup user s.customers) [
    | some taken ↦ (err (other "P2002"), s)
    | none ↦ (ok tt, record s { customers = C.put user customer s.customers })
  ]

  -- `getOrCreateCustomer`, with `customers.create`
  pub get_or_create_customer :
      (String → String → Exec Stripe String) → String → String → Exec State String
  unfolding record_customer
  get_or_create_customer create_customer user email s = elim (C.lookup user s.customers) [
    | some existing ↦ (ok existing, s)
    | none ↦
        (do
          customer ← on_stripe (create_customer email user)
          record_customer user customer
          pure customer)
          s
  ]

  -- `createCheckoutSession`, with `customers.create` and `checkout.sessions.create`, which returns
  -- the session's id and its address, if it has one
  pub create_checkout_session :
      (String → String → Exec Stripe String)
      → (CheckoutRequest → Exec Stripe (String × Option String))
      → String
      → String
      → String
      → Exec State (String × String)
  unfolding get_or_create_customer
  create_checkout_session create_customer create_session user email slug = do
    assert_enabled
    elim (pack_by_slug slug config.packs) [
      | none ↦ throw (
          api_error 400 ErrorCode.bad_request "Unknown credit pack."
            (("pack", Detail.text slug) ∷ []))
      | some pack ↦ do
        customer ← get_or_create_customer create_customer user email
        (id, url) ← on_stripe (create_session (checkout_request config customer user pack))
        elim url [
          | none ↦
              throw
                (api_error 500 ErrorCode.internal_error "Stripe did not return a Checkout URL." [])
          | some address ↦ pure (address, id)
        ]
    ]
