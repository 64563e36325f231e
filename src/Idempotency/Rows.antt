-- ===== src/Idempotency/Rows.antt =====
-- What a call with a key makes of the rows: it changes only the row of its key, and that row only from
-- none to its own response.
use nestjs_enterprise_starte.Common.Exec.{Result-cases, err, ok}
use nestjs_enterprise_starte.Idempotency.{
  resolve_status, forgetting, completed_row, started, hash_request, Thrown, IdempotencyRecord, Exec,
  replay, Result, Faults, handle_keyed, complete, begin_processing, forget, run_handler, Json,
  Records, State, Config, Request,
}
use nestjs_enterprise_starte.Prelude.{
  ◌∙◌, string_key, same_pair_iff, ===_refl, inr, inl, arith, Bool-cases, Option-cases, some, false,
  same_pair, ◌≡◌, Option, ℕ, Bool, String, pair_key, refl,
}

module _ (T : Records) (World : Type 0) (config : Config) (is_blank : String → Bool)
    (text_length : String → ℕ) (hash : String → String → Json → String) where
  begin-other :
      (fault : Option String) (now : ℕ) (principal key : String) (req : Request) (t : T.State)
      (k : String × String)
      → same_pair (principal, key) k ≡ false
      → T.lookup k
          (begin_processing T World config is_blank text_length hash fault now principal key req
            t).1
        ≡ T.lookup k t
  unfolding begin_processing
  begin-other fault now principal key req t k apart = ground (
    arith,
    T.lookup-put (principal, key) k (started T World config is_blank text_length hash now req) t,
  )

  complete-other :
      (fault : Option String) (principal key : String) (code : ℕ) (result : Json) (t : T.State)
      (k : String × String)
      → same_pair (principal, key) k ≡ false
      → T.lookup k
          (complete T World config is_blank text_length hash fault principal key code result t).1
        ≡ T.lookup k t
  unfolding complete
  complete-other fault principal key code result t k apart = elim (Option-cases fault) [
    | inr (message, rejected) ↦ ground arith
    | inl accepted ↦ elim (Option-cases (T.lookup (principal, key) t)) [
      | inl gone ↦ ground arith
      | inr (row, found) ↦
          ground (arith, T.lookup-put (principal, key) k (completed_row code result row) t)
    ]
  ]

  run_handler-other :
      (f : Faults) (principal key : String) (req : Request) (handler : Exec World Json)
      (s : State T World config is_blank text_length hash) (k : String × String)
      → same_pair (principal, key) k ≡ false
      → T.lookup k
          (run_handler T World config is_blank text_length hash f principal key req handler
            s).1.records
        ≡ T.lookup k s.records
  unfolding run_handler
  run_handler-other f principal key req handler s k apart =
      elim (Result-cases (handler s.world).0) [
        | inl (e, failed) ↦ ground arith
        | inr (result, fine) ↦ ground (
          arith,
          complete-other f.update principal key (resolve_status req) result s.records k apart,
        )
      ]

  caught-other :
      (fails : Bool) (principal key : String)
      (x : Result Json × State T World config is_blank text_length hash) (k : String × String)
      → same_pair (principal, key) k ≡ false
      → T.lookup k
          (forgetting T World config is_blank text_length hash fails principal key x).1.records
        ≡ T.lookup k x.1.records
  unfolding forget
  caught-other fails principal key (ok r, s) k apart = refl
  caught-other fails principal key (err e, s) k apart =
      ground (arith, T.lookup-remove (principal, key) k s.records)

  -- A call changes only the row of its own key.
  keyed-other :
      (f : Faults) (now : ℕ) (principal key : String) (req : Request) (handler : Exec World Json)
      (s : State T World config is_blank text_length hash) (k : String × String)
      → same_pair (principal, key) k ≡ false
      → T.lookup k
          (handle_keyed T World config is_blank text_length hash f now principal key req handler
            s).1.records
        ≡ T.lookup k s.records
  unfolding handle_keyed
  keyed-other f now principal key req handler s k apart =
      elim (Option-cases (T.lookup (principal, key) s.records)) [
        | inr (existing, found) ↦ ground arith
        | inl fresh ↦
            let begun =
              begin_processing T World config is_blank text_length hash f.create now principal key
                req s.records in
            let u = record s { records = begun.1 } in
            elim (Result-cases begun.0) [
              | inl (e, refused) ↦
                  ground (arith, begin-other f.create now principal key req s.records k apart)
              | inr (_, started) ↦ ground (
                arith,
                begin-other f.create now principal key req s.records k apart,
                run_handler-other f principal key req handler u k apart,
                caught-other f.delete principal key
                    (run_handler T World config is_blank text_length hash f principal key req
                      handler u)
                    k apart,
              )
            ]
      ]

  pub keyed_keeps :
      (f : Faults) (now : ℕ) (principal key : String) (req : Request) (handler : Exec World Json)
      (s : State T World config is_blank text_length hash) (k : String × String)
      (row : IdempotencyRecord)
      → T.lookup k s.records ≡ some row
      → T.lookup k
          (handle_keyed T World config is_blank text_length hash f now principal key req handler
            s).1.records
        ≡ some row
  unfolding handle_keyed
  keyed_keeps f now principal key req handler s k row h =
      elim (Bool-cases (same_pair (principal, key) k)) [
        | inl same ↦ ground (arith, same_pair_iff (principal, key) k)
        | inr apart ↦ keyed-other f now principal key req handler s k apart ∙ h
      ]

  begin_self :
      (fault : Option String) (now : ℕ) (principal key : String) (req : Request) (t : T.State)
      → (begin_processing T World config is_blank text_length hash fault now principal key req t).0
        ≡ ok tt
      → T.lookup
          (principal, key)
          (begin_processing T World config is_blank text_length hash fault now principal key req
            t).1
        ≡ some (started T World config is_blank text_length hash now req)
  unfolding begin_processing
  begin_self fault now principal key req t h = ground (
    arith,
    ===_refl {K = String × String} (principal, key),
    T.lookup-put (principal, key) (principal, key)
        (started T World config is_blank text_length hash now req) t,
  )

  complete_self :
      (fault : Option String) (principal key : String) (code : ℕ) (result : Json) (t : T.State)
      (row : IdempotencyRecord)
      → T.lookup (principal, key) t ≡ some row
      → (complete T World config is_blank text_length hash fault principal key code result t).0
        ≡ ok tt
      → T.lookup
          (principal, key)
          (complete T World config is_blank text_length hash fault principal key code result t).1
        ≡ some (completed_row code result row)
  unfolding complete
  complete_self fault principal key code result t row found h = ground (
    arith,
    ===_refl {K = String × String} (principal, key),
    T.lookup-put (principal, key) (principal, key) (completed_row code result row) t,
  )

  run_handler_records :
      (f : Faults) (principal key : String) (req : Request) (handler : Exec World Json)
      (s : State T World config is_blank text_length hash) (row : IdempotencyRecord) (r : Json)
      → T.lookup (principal, key) s.records ≡ some row
      → (run_handler T World config is_blank text_length hash f principal key req handler s).0
        ≡ ok r
      → T.lookup
          (principal, key)
          (run_handler T World config is_blank text_length hash f principal key req handler
            s).1.records
        ≡ some (completed_row (resolve_status req) r row)
  unfolding run_handler
  run_handler_records f principal key req handler s row r found h =
      elim (Result-cases (handler s.world).0) [
        | inl (e, failed) ↦ absurd (ground arith)
        | inr (result, fine) ↦
            elim (Result-cases
              (complete T World config is_blank text_length hash f.update principal key
                (resolve_status req) result s.records).0) [
                  | inl (e, lost) ↦ absurd (ground arith)
                  | inr (_, written) ↦ ground (
                    arith,
                    complete_self f.update principal key (resolve_status req) result s.records row
                        found,
                  )
                ]
      ]

  -- what a call that went through has stored
  pub keyed_records :
      (f : Faults) (now : ℕ) (principal key : String) (req : Request) (handler : Exec World Json)
      (s : State T World config is_blank text_length hash) (r : Json)
      → (handle_keyed T World config is_blank text_length hash f now principal key req handler s).0
        ≡ ok r
      → (row : IdempotencyRecord) × (T.lookup
            (principal, key)
            (handle_keyed T World config is_blank text_length hash f now principal key req handler
              s).1.records
          ≡ some row)
        × (replay row (hash_request T World config is_blank text_length hash req) key ≡ ok r)
  unfolding handle_keyed replay
  keyed_records f now principal key req handler s r h =
      elim (Option-cases (T.lookup (principal, key) s.records)) [
        | inr (existing, found) ↦ (existing, ground arith, ground arith)
        | inl fresh ↦
            let begun =
              begin_processing T World config is_blank text_length hash f.create now principal key
                req s.records in
            let u = record s { records = begun.1 } in
            let row = started T World config is_blank text_length hash now req in
            elim (Result-cases begun.0) [
              | inl (e, refused) ↦ absurd (ground arith)
              | inr (_, ready) ↦
                  elim (Result-cases
                    (run_handler T World config is_blank text_length hash f principal key req
                      handler u).0) [
                        | inl (e, failed) ↦ absurd (ground arith)
                        | inr (result, fine) ↦ (
                          completed_row (resolve_status req) result row,
                          ground (
                            arith,
                            run_handler_records f principal key req handler u row result
                                (begin_self f.create now principal key req s.records ready) fine,
                          ),
                          ground (
                            arith,
                            ===_refl (hash_request T World config is_blank text_length hash req),
                          ),
                        )
                      ]
            ]
      ]

  pub keyed_replays :
      (f : Faults) (now : ℕ) (principal key : String) (req : Request) (handler : Exec World Json)
      (s : State T World config is_blank text_length hash) (row : IdempotencyRecord) (r : Json)
      → T.lookup (principal, key) s.records ≡ some row
      → replay row (hash_request T World config is_blank text_length hash req) key ≡ ok r
      → handle_keyed T World config is_blank text_length hash f now principal key req handler s
        ≡ (ok r, s)
  unfolding handle_keyed
  keyed_replays f now principal key req handler s row r found agrees = ground arith

  pub keyed_failure :
      (f : Faults) (now : ℕ) (principal key : String) (req : Request) (handler : Exec World Json)
      (s : State T World config is_blank text_length hash) (k : String × String) {e : Thrown}
      → f.delete ≡ false
      → (handle_keyed T World config is_blank text_length hash f now principal key req handler s).0
        ≡ err e
      → T.lookup k
          (handle_keyed T World config is_blank text_length hash f now principal key req handler
            s).1.records
        ≡ T.lookup k s.records
  unfolding handle_keyed begin_processing forget
  keyed_failure f now principal key req handler s k {e} deleted h =
      elim (Bool-cases (same_pair (principal, key) k)) [
        | inr apart ↦ keyed-other f now principal key req handler s k apart
        | inl same ↦ elim (Option-cases (T.lookup (principal, key) s.records)) [
          | inr (existing, found) ↦ ground arith
          | inl fresh ↦
              let begun =
                begin_processing T World config is_blank text_length hash f.create now principal key
                  req s.records in
              let u = record s { records = begun.1 } in
              let ran =
                run_handler T World config is_blank text_length hash f principal key req handler
                  u in
              elim (Result-cases begun.0) [
                | inl (d, refused) ↦ ground arith
                | inr (_, ready) ↦ elim (Result-cases ran.0) [
                  | inr (result, fine) ↦ absurd (ground arith)
                  | inl (d, failed) ↦ ground (
                    arith,
                    same_pair_iff (principal, key) k,
                    T.lookup-remove (principal, key) k ran.1.records,
                  )
                ]
              ]
        ]
      ]
