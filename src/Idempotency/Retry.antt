-- ===== src/Idempotency/Retry.antt =====
-- What a request leaves, and what a request with the same key finds.
use nestjs_enterprise_starte.Common.Errors.{other}
use nestjs_enterprise_starte.Idempotency.Rows.{
  keyed_replays, keyed_keeps, keyed_records, keyed_failure,
}
use nestjs_enterprise_starte.Common.Exec.{Result-cases, err, ok}
use nestjs_enterprise_starte.Idempotency.{
  no_faults, complete, begin_processing, run_handler, handle_keyed, principal_of, extract_key,
  IdempotencyRecord, handle, Faults, Exec, Json, Records, State, Config, Request,
}
use nestjs_enterprise_starte.Prelude.{
  refl, none, inr, arith, inl, [], false, some, ◌∷◌, ◌≡◌, List, ℕ, Bool, String, pair_key,
}

module _ (T : Records) (World : Type 0) (config : Config) (is_blank : String → Bool)
    (text_length : String → ℕ) (hash : String → String → Json → String) where
  -- a request that reaches the interceptor
  pub record Call : Type 0 where
    pub faults : Faults
    pub now : ℕ
    pub request : Request
    pub handler : Exec World Json

  abbrev pub serve : Call → Exec (State T World config is_blank text_length hash) Json
  serve c = handle T World config is_blank text_length hash c.faults c.now c.request c.handler

  unfoldable pub serve_all :
      List Call
      → State T World config is_blank text_length hash
      → State T World config is_blank text_length hash
  serve_all [] s = s
  serve_all (c ∷ cs) s = serve_all cs (serve c s).1

  serve_keeps :
      (c : Call) (s : State T World config is_blank text_length hash) (k : String × String)
      (row : IdempotencyRecord)
      → T.lookup k s.records ≡ some row
      → T.lookup k (serve c s).1.records ≡ some row
  unfolding handle
  serve_keeps c s k row h =
      elim (Result-cases (extract_key T World config is_blank text_length hash c.request)) [
        | inl (e, keyless) ↦ ground arith
        | inr (key, keyed) ↦ elim (Result-cases (principal_of c.request)) [
          | inl (e, nobody) ↦ ground arith
          | inr (principal, known) ↦ ground (
            arith,
            keyed_keeps T World config is_blank text_length hash c.faults c.now principal key
                c.request c.handler s k row h,
          )
        ]
      ]

  serve_all_keeps :
      (cs : List Call) (s : State T World config is_blank text_length hash) (k : String × String)
      (row : IdempotencyRecord)
      → T.lookup k s.records ≡ some row
      → T.lookup k (serve_all cs s).records ≡ some row
  unfolding serve_all
  serve_all_keeps [] s k row h = h
  serve_all_keeps (c ∷ cs) s k row h =
      serve_all_keeps cs (serve c s).1 k row (serve_keeps c s k row h)

  -- A request that went through may be sent again, after any other requests, with any handler and at
  -- any time: it returns the same response, and nothing is run and nothing is written. It is so also
  -- after the time of expiry in its row, which no operation reads, although the specification of the
  -- service wants a new execution then.
  pub handle_retry :
      (c : Call) (s : State T World config is_blank text_length hash) (r : Json)
      → (serve c s).0 ≡ ok r
      → (cs : List Call) (f : Faults) (now : ℕ) (handler : Exec World Json)
      → let s' = serve_all cs (serve c s).1 in
        handle T World config is_blank text_length hash f now c.request handler s' ≡ (ok r, s')
  unfolding handle
  handle_retry c s r h cs f now handler =
      elim (Result-cases (extract_key T World config is_blank text_length hash c.request)) [
        | inl (e, keyless) ↦ absurd (ground arith)
        | inr (key, keyed) ↦ elim (Result-cases (principal_of c.request)) [
          | inl (e, nobody) ↦ absurd (ground arith)
          | inr (principal, known) ↦
              let (row, stored, agrees) =
                keyed_records T World config is_blank text_length hash c.faults c.now principal key
                  c.request c.handler s r (ground arith) in
              let s' = serve_all cs (serve c s).1 in
              let kept : T.lookup (principal, key) s'.records ≡ some row =
                serve_all_keeps cs (serve c s).1 (principal, key) row (ground arith) in
              ground (
                arith,
                keyed_replays T World config is_blank text_length hash f now principal key c.request
                    handler s' row r kept agrees,
              )
        ]
      ]

  fresh_runs :
      (f : Faults) (now : ℕ) (principal key : String) (req : Request) (handler : Exec World Json)
      (s : State T World config is_blank text_length hash)
      → T.lookup (principal, key) s.records ≡ none
      → f.create ≡ none
      → (handle_keyed T World config is_blank text_length hash f now principal key req handler
          s).1.world
        ≡ (handler s.world).1
  unfolding handle_keyed run_handler begin_processing
  fresh_runs f now principal key req handler s free accepted =
      elim (Result-cases (handler s.world).0) [
        | inl (e, failed) ↦ ground arith
        | inr (result, fine) ↦ ground arith
      ]

  keyed_update_failure :
      (c : Call) (s : State T World config is_blank text_length hash)
      (key principal message : String) (result : Json) (w : World)
      → T.lookup (principal, key) s.records ≡ none
      → c.faults ≡ record { create = none; update = some message; delete = false }
      → c.handler s.world ≡ (ok result, w)
      → ((handle_keyed T World config is_blank text_length hash c.faults c.now principal key
            c.request c.handler s).0
          ≡ err (other message))
        × ((handle_keyed T World config is_blank text_length hash c.faults c.now principal key
              c.request c.handler s).1.world
            ≡ w)
  unfolding handle_keyed run_handler begin_processing complete
  keyed_update_failure c s key principal message result w free faults ran = ground arith

  -- If the handler went through and the update of its row is rejected, the caller gets an error and
  -- the row is deleted, so the request with the same key runs the handler a second time.
  pub update_failure_runs_again :
      (c : Call) (s : State T World config is_blank text_length hash)
      (key principal message : String) (result : Json) (w : World)
      → extract_key T World config is_blank text_length hash c.request ≡ ok key
      → principal_of c.request ≡ ok principal
      → T.lookup (principal, key) s.records ≡ none
      → c.faults ≡ record { create = none; update = some message; delete = false }
      → c.handler s.world ≡ (ok result, w)
      → ((serve c s).0 ≡ err (other message))
        × ((serve (record c { faults = no_faults }) (serve c s).1).1.world ≡ (c.handler w).1)
  unfolding handle
  update_failure_runs_again c s key principal message result w keyed known free faults ran =
      let first =
        handle_keyed T World config is_blank text_length hash c.faults c.now principal key c.request
          c.handler s in
      let failed = keyed_update_failure c s key principal message result w free faults ran in
      let still_free =
        keyed_failure T World config is_blank text_length hash c.faults c.now principal key
          c.request c.handler s (principal, key) {e = other message} (ground arith) failed.0 in
      (
        ground (arith, failed.0),
        ground (
          arith,
          failed.1,
          fresh_runs no_faults c.now principal key c.request c.handler first.1 (ground arith) refl,
        ),
      )
