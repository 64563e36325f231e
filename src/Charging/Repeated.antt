-- ===== src/Charging/Repeated.antt =====
-- Requests that share an id.
use nestjs_enterprise_starte.Credits.Once.{spend_retry}
use nestjs_enterprise_starte.Charging.Guarded.{charge_again, charge_spends}
use mathlib.Core.Path.{subst⁻¹}
use nestjs_enterprise_starte.Credits.Trace.{run}
use nestjs_enterprise_starte.Common.Exec.{ok}
use nestjs_enterprise_starte.Charging.{
  spend_input, resolve_request_id, request_id_of, charge, Marker, BillingSubject, Result, Route,
}
use nestjs_enterprise_starte.Credits.{Mutation, Ledger, Wallets, State, Config, spend}
use nestjs_enterprise_starte.Prelude.{
  ◌∙◌, ap, sym, arith, none, some, true, ◌≡◌, List, Option, Bool, String, string_key,
}

id_of_client :
    (acceptable : String → Bool) (fresh id : String)
    → acceptable id ≡ true
    → request_id_of acceptable fresh none (some id) ≡ id
unfolding request_id_of resolve_request_id
id_of_client acceptable fresh id good = ground arith

module _ (W : Wallets) (L : Ledger) (config : Config) where
  -- The id of a request that carries an acceptable one is the client's, so a client can send many
  -- requests under one id. If one of them was charged, every later one by the same user with the same
  -- billing subject on the same route passes the guard and changes nothing, whatever calls of the
  -- ledger lie between them, the refund of the first one included: it is not charged.
  pub same_id_is_charged_once :
      (acceptable : String → Bool) (fresh fresh' id : String) (route : Route)
      (principal : Option String) (billing : String → Result BillingSubject) (s : State W L)
      (m : Marker) (c : State W L) (ms : List Mutation)
      → acceptable id ≡ true
      → charge W L config route principal billing
          (some (request_id_of acceptable fresh none (some id)))
          s
        ≡ (ok (some m), c)
      → let s' = (run W L config ms c).1 in
        charge W L config route principal billing
          (some (request_id_of acceptable fresh' none (some id)))
          s'
        ≡ (ok (some m), s')
  same_id_is_charged_once acceptable fresh fresh' id route principal billing s m c ms good h =
      let (r, spent, formed) = charge_spends W L config route principal billing _ s m c h in
      let s' = (run W L config ms c).1 in
      let kept : c ≡ (spend W L config (spend_input m) s).1 = sym (ap (λ x. x.1) spent) in
      let again : spend W L config (spend_input m) s' ≡ (ok (record r { replayed = true }), s') =
        subst⁻¹
          (λ x.
            spend W L config (spend_input m) (run W L config ms x).1
            ≡ (ok (record r { replayed = true }), (run W L config ms x).1))
          kept (spend_retry W L config (spend_input m) s {r = r} (ap (λ x. x.0) spent) ms) in
      let same : request_id_of acceptable fresh' none (some id)
          ≡ request_id_of acceptable fresh none (some id) =
        id_of_client acceptable fresh' id good ∙ sym (id_of_client acceptable fresh id good) in
      rw same (
        charge_again W L config route principal billing _ s s' m c (record r { replayed = true }) h
          again)
