-- ===== src/Idempotency/Race.antt =====
-- Requests with keys, interleaved: a request reads no row, then inserts one, then runs its handler,
-- and then updates or deletes the row. Only the insert, the update and the delete matter here: each
-- is atomic, and the read decides nothing that the unique key does not decide again.
use nestjs_enterprise_starte.Common.Exec.{ok}
use nestjs_enterprise_starte.Idempotency.{
  completed_row, started, forget, complete, begin_processing, Json, Records, Config, Request,
}
use nestjs_enterprise_starte.Prelude.{
  ap, same_pair_iff, inl, inr, Option-cases, false, [], arith, is_some, none, ◌≤◌, same_pair,
  if◌then◌else◌, ◌+◌, ◌≡◌, ◌∷◌, ◌∷◌, ℕ, ◌++◌, Bool, List, String, pair_key, refl,
}

-- how often a key is in a list
abbrev pub occurrences : String × String → List (String × String) → ℕ
occurrences k [] = 0
occurrences k (j ∷ keys) = (if same_pair j k then 1 else 0) + occurrences k keys

occurrences-middle :
    (k j : String × String) (xs ys : List (String × String))
    → occurrences k (xs ++ j ∷ ys) ≡ (if same_pair j k then 1 else 0) + occurrences k (xs ++ ys)
occurrences-middle k j [] ys = refl
occurrences-middle k j (x ∷ xs) ys = omega (arith, occurrences-middle k j xs ys)

module _ (T : Records) (World : Type 0) (config : Config) (is_blank : String → Bool)
    (text_length : String → ℕ) (hash : String → String → Json → String) where
  -- the rows, the keys of the handlers that run, and the keys of those that went through
  pub record Shared : Type 0 where
    pub records : T.State
    pub running : List (String × String)
    pub finished : List (String × String)

  pub data Step : Shared → Shared → Type 0 where
    start :
        (s : Shared) (now : ℕ) (principal key : String) (req : Request) (t : T.State)
        → begin_processing T World config is_blank text_length hash none now principal key req
            s.records
          ≡ (ok tt, t)
        → Step s (record s { records = t; running = (principal, key) ∷ s.running })
    finish :
        (s : Shared) (principal key : String) (code : ℕ) (result : Json) (t : T.State)
        (xs ys : List (String × String))
        → s.running ≡ xs ++ (principal, key) ∷ ys
        → complete T World config is_blank text_length hash none principal key code result s.records
          ≡ (ok tt, t)
        → Step s
            (record { records = t; running = xs ++ ys; finished = (principal, key) ∷ s.finished })
    fail :
        (s : Shared) (principal key : String) (xs ys : List (String × String))
        → s.running ≡ xs ++ (principal, key) ∷ ys
        → Step s (record s {
          records = forget T World config is_blank text_length hash false principal key s.records;
          running = xs ++ ys;
        })

  pub data Reach (s : Shared) : Shared → Type 0 where
    here : Reach s s
    next : {t u : Shared} → Reach s t → Step t u → Reach s u

  -- A key without a row has no handler, one with a row has at most one that runs or went through.
  abbrev pub IsExclusive : Shared → Type 0
  IsExclusive s =
      (k : String × String)
      → occurrences k s.running + occurrences k s.finished
        ≤ (if is_some (T.lookup k s.records) then 1 else 0)

  Step-IsExclusive : {s u : Shared} → Step s u → IsExclusive s → IsExclusive u
  unfolding begin_processing complete forget
  Step-IsExclusive (start s now principal key req t e) h k =
      elim (Option-cases (T.lookup (principal, key) s.records)) [
        | inr (row, taken) ↦ absurd (ground arith)
        | inl free ↦ ground (
          arith,
          h k,
          e,
          same_pair_iff (principal, key) k,
          T.lookup-put (principal, key) k (started T World config is_blank text_length hash now req)
              s.records,
        )
      ]
  Step-IsExclusive (finish s principal key code result t xs ys e w) h k =
      elim (Option-cases (T.lookup (principal, key) s.records)) [
        | inl gone ↦ absurd (ground arith)
        | inr (row, found) ↦ ground (
          arith,
          h k,
          w,
          ap (occurrences k) e,
          occurrences-middle k (principal, key) xs ys,
          same_pair_iff (principal, key) k,
          T.lookup-put (principal, key) k (completed_row code result row) s.records,
        )
      ]
  Step-IsExclusive (fail s principal key xs ys e) h k = ground (
    arith,
    h k,
    ap (occurrences k) e,
    occurrences-middle k (principal, key) xs ys,
    same_pair_iff (principal, key) k,
    T.lookup-remove (principal, key) k s.records,
  )

  -- Whatever the requests do one between the other and at whatever times, if every handler that goes
  -- through has its update accepted and every one that fails its delete: from a state in which no
  -- handler runs, at most one handler per key of a principal runs or has gone through. It is so also
  -- after the row of the key has expired, when the specification of the service wants a new execution,
  -- since no operation reads the time of expiry.
  pub one_handler :
      (t : T.State) {s : Shared} (k : String × String)
      → Reach (record { records = t; running = []; finished = [] }) s
      → occurrences k s.running + occurrences k s.finished ≤ 1
  one_handler t k r = ground (arith, reached t r k)
    where
      reached :
          (t : T.State) {s : Shared}
          → Reach (record { records = t; running = []; finished = [] }) s
          → IsExclusive s
      reached t here = λ j. ground arith
      reached t (next r st) = Step-IsExclusive st (reached t r)
