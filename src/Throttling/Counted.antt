-- ===== src/Throttling/Counted.antt =====
-- Requests of one window, and what a plain count of earlier requests admits of them.
use nestjs_enterprise_starte.Throttling.{
  Policy, Settings, StorageRecord, no_faults, increment, generate_key,
}
use nestjs_enterprise_starte.Common.Timed.{Timed}
use nestjs_enterprise_starte.Common.Exec.{Result, ok, err}
use nestjs_enterprise_starte.Prelude.{
  string_key, string_key, ◌+◌, ◌===◌, if◌then◌else◌, [], false, ltb, ◌∷◌, ℕ, not, List, String,
  Bool,
}

-- a request under a policy, of a caller, at a time
pub record Call : Type 0 where
  pub policy : Policy
  pub tracker : String
  pub now : ℕ

abbrev pub key_of : Call → String
key_of c = generate_key c.policy c.tracker

-- how often a key occurs
abbrev pub occurrences : String → List String → ℕ
occurrences k [] = 0
occurrences k (j ∷ keys) = (if j === k then 1 else 0) + occurrences k keys

abbrev pub is_admitted : Result StorageRecord → Bool
is_admitted (ok r) = not r.is_blocked
is_admitted (err e) = false

-- A request is admitted if fewer requests of its caller under its policy came before it than the
-- policy allows.
unfoldable pub admitted_by_count : (Policy → Settings) → List String → List Call → List Bool
admitted_by_count rule earlier [] = []
admitted_by_count rule earlier (c ∷ calls) =
    ltb (occurrences (key_of c) earlier) (rule c.policy).limit
    ∷ admitted_by_count rule (key_of c ∷ earlier) calls

module _ (T : Timed) (name : String) (rule : Policy → Settings) where
  abbrev pub serve : Call → T.State → Result StorageRecord × T.State
  serve c s =
      increment T no_faults c.now (key_of c) (rule c.policy).ttl (rule c.policy).limit
        (rule c.policy).block_duration name s

  -- the answers of the storage to a sequence of requests
  unfoldable pub admitted : List Call → T.State → List Bool
  admitted [] s = []
  admitted (c ∷ calls) s = let (r, s') = serve c s in is_admitted r ∷ admitted calls s'
