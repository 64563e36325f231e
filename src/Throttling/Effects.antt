-- ===== src/Throttling/Effects.antt =====
-- What one request does to its own keys, in each state of its window.
use nestjs_enterprise_starte.Throttling.{no_faults, increment, hits_key, block_key}
use nestjs_enterprise_starte.Common.Timed.{Timed, live}
use nestjs_enterprise_starte.Prelude.{
  string_key, string_key, ◌<◌, ◌≤◌, arith, ◌+◌, some, none, if◌then◌else◌, false, ltb, ◌≡◌, ℕ, not,
  String,
}
use nestjs_enterprise_starte.Throttling.Counted.{is_admitted}

module _ (T : Timed) (name : String) where
  module _ (now ttl limit bd : ℕ) (key : String) where
    abbrev pub counted : T.State → T.State
    counted s = (T.incr now (hits_key name key) s).1

    -- a blocked caller changes nothing
    pub blocked_effect :
        (s : T.State) (v d : ℕ)
        → T.view now (block_key name key) s ≡ some (record { value = v; deadline = some d })
        → now < d
        → (is_admitted (increment T no_faults now key ttl limit bd name s).0 ≡ false)
          × ((increment T no_faults now key ttl limit bd name s).1 ≡ s)
    unfolding increment
    blocked_effect s v d blocked ahead = (ground arith, ground arith)

    abbrev pub closed : ℕ → T.State → T.State
    closed hits s = if ltb limit hits then T.set_px now (block_key name key) bd s else s

    -- the first request of a window opens it
    pub first_effect :
        (s : T.State)
        → T.view now (block_key name key) s ≡ none
        → T.view now (hits_key name key) s ≡ none
        → (is_admitted (increment T no_faults now key ttl limit bd name s).0 ≡ not (ltb limit 1))
          × ((increment T no_faults now key ttl limit bd name s).1
              ≡ closed 1 (T.pexpire now (hits_key name key) ttl (counted s)))
    unfolding increment live
    first_effect s free fresh = (
      ground (arith, T.incr_reply now (hits_key name key) s),
      ground (arith, T.incr_reply now (hits_key name key) s),
    )

    pub later_effect :
        (s : T.State) (n d : ℕ)
        → T.view now (block_key name key) s ≡ none
        → T.view now (hits_key name key) s ≡ some (record { value = n; deadline = some d })
        → 1 ≤ n
        → now < d
        → (is_admitted (increment T no_faults now key ttl limit bd name s).0
            ≡ not (ltb limit (n + 1)))
          × ((increment T no_faults now key ttl limit bd name s).1 ≡ closed (n + 1) (counted s))
    unfolding increment live
    later_effect s n d free seen some_before ahead = (
      ground (
        arith,
        T.incr_reply now (hits_key name key) s,
        T.view-incr now now (hits_key name key) (hits_key name key) s,
        string_key.same_iff (hits_key name key) (hits_key name key),
      ),
      ground (
        arith,
        T.incr_reply now (hits_key name key) s,
        T.view-incr now now (hits_key name key) (hits_key name key) s,
        string_key.same_iff (hits_key name key) (hits_key name key),
      ),
    )
