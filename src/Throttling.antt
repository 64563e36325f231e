-- ===== src/Throttling.antt =====
-- src/modules/throttling: redis-throttler.storage.ts and app-throttler.guard.ts, with
-- src/config/throttle.config.ts. The guard of the throttler library is a parameter. The commands of
-- one increment run in the same millisecond.
pub mod Keys
pub mod Counted
pub mod Effects
pub mod Windows
pub mod Refined
mod Tests
use nestjs_enterprise_starte.Prelude.Int.{pos}
use nestjs_enterprise_starte.Prelude.{
  ◌∷◌, is_some, not, string_key, some, ◌/◌, ◌||◌, true, none, nat_eq, ◌*◌, ◌+◌, max, ◌===◌, ltb, [],
  or_else, ℕ, String, false, if◌then◌else◌, Option, Bool, refl,
}
use nestjs_enterprise_starte.Common.Timed.{Timed, pttl}
use nestjs_enterprise_starte.Common.Errors.{Thrown, Detail, other, ErrorCode, api, api_error}
use nestjs_enterprise_starte.Common.Exec.{
  ok, pure, err, throw_if, modify, Exec, Result, ◌>>=◌, ◌>>◌,
}
use Prim.Native.String.{◌++◌ as ◌⊕◌}

-- one ceiling of `throttleConfig`
pub record Ceiling : Type 0 where
  pub window_seconds : ℕ
  pub max : ℕ

-- `throttleConfig`
pub record Config : Type 0 where
  pub burst : Ceiling
  pub minute : Ceiling
  pub strict_burst : Ceiling
  pub strict_minute : Ceiling

-- `ThrottlerStorageRecord`
pub record StorageRecord : Type 0 where
  pub total_hits : ℕ
  pub time_to_expire : ℕ
  pub is_blocked : Bool
  pub time_to_block_expire : ℕ

-- which commands of an increment are rejected
pub record Faults : Type 0 where
  pub block_pttl : Bool
  pub incr : Bool
  pub pttl : Bool
  pub pexpire : Bool
  pub set : Bool

abbrev pub no_faults : Faults
no_faults = record { block_pttl = false; incr = false; pttl = false; pexpire = false; set = false }

-- `hitsKey` and `blockKey`
pub hits_key : String → String → String
hits_key name key = "throttle:" ⊕ name ⊕ ":" ⊕ key

pub block_key : String → String → String
block_key name key = "throttle:" ⊕ name ⊕ ":" ⊕ "block:" ⊕ key

-- `Math.ceil(ms / 1000)`
abbrev seconds_up : ℕ → ℕ
seconds_up ms = (ms + 999) / 1000

abbrev rejected : Thrown
rejected = other "redis"

module _ (T : Timed) where
  -- the expiry of a counter that has none, and the milliseconds that are left
  pub set_window : Faults → ℕ → String → ℕ → ℕ → Exec T.State ℕ
  set_window faults now key hits ttl = do
    throw_if faults.pttl rejected
    (λ s.
        let left = pttl T now key s in
        if nat_eq hits 1 || not (is_some left)
        then (throw_if faults.pexpire rejected >> modify (T.pexpire now key ttl) >> pure ttl) s
        else (ok (or_else left 0), s))

  -- the answer to a counted request, with the block of one too many
  pub close_window : Faults → ℕ → ℕ → ℕ → ℕ → String → String → ℕ → Exec T.State StorageRecord
  close_window faults now hits limit block_duration name key left =
      let answer : StorageRecord = record {
        total_hits = hits;
        time_to_expire = max 1 (seconds_up left);
        is_blocked = ltb limit hits;
        time_to_block_expire = if ltb limit hits then max 1 (seconds_up block_duration) else 0;
      } in
      if ltb limit hits
      then throw_if faults.set rejected
        >> modify (T.set_px now (block_key name key) block_duration)
        >> pure answer
      else pure answer

  -- the rest of `increment`, when no block is in force
  pub count_hit : Faults → ℕ → String → ℕ → ℕ → ℕ → String → Exec T.State StorageRecord
  unfolding set_window close_window
  count_hit faults now key ttl limit block_duration name = do
    throw_if faults.incr rejected
    hits ← (λ s. let (n, s') = T.incr now (hits_key name key) s in (ok n, s'))
    left ← set_window faults now (hits_key name key) hits ttl
    close_window faults now hits limit block_duration name key left

  -- `increment`; its `catch` only logs
  pub increment :
      Faults
      → (now : ℕ) (key : String) (ttl limit block_duration : ℕ) (throttler_name : String)
      → Exec T.State StorageRecord
  unfolding count_hit
  increment faults now key ttl limit block_duration name = do
    throw_if faults.block_pttl rejected
    (λ s.
        let blocked = or_else (pttl T now (block_key name key) s) 0 in
        if ltb 0 blocked
        then (
          ok (record {
            total_hits = limit + 1;
            time_to_expire = seconds_up blocked;
            is_blocked = true;
            time_to_block_expire = seconds_up blocked;
          }),
          s,
        )
        else count_hit faults now key ttl limit block_duration name s)

-- the policy that governs a route
pub data Policy : Type 0 where
  strict standard : Policy

-- `policyFor`
abbrev pub policy_for : Bool → Policy
policy_for is_strict = if is_strict then strict else standard

-- the name of a policy in a key
abbrev pub policy_name : Policy → String
policy_name strict = "strict"
policy_name standard = "default"

-- what the guard reads of a request
pub record Request : Type 0 where
  pub principal : Option String
  pub ip : Option String

-- `getTracker`; an empty id counts as none
pub get_tracker : Request → String
get_tracker req = elim req.principal [
  | none ↦ "ip:" ⊕ or_else req.ip "unknown"
  | some id ↦ if id === "" then "ip:" ⊕ or_else req.ip "unknown" else "user:" ⊕ id
]

-- `generateKey`
pub generate_key : Policy → String → String
generate_key policy tracker = policy_name policy ⊕ ":" ⊕ tracker

-- the named ceiling that a request is held to, in milliseconds
pub record Settings : Type 0 where
  pub name : String
  pub limit : ℕ
  pub ttl : ℕ
  pub block_duration : ℕ

abbrev settings_of : String → Ceiling → Settings
settings_of name c = record {
  name = name;
  limit = c.max;
  ttl = c.window_seconds * 1000;
  block_duration = c.window_seconds * 1000;
}

-- the substitution of `handleRequest`
pub settings_for : Config → Policy → Settings → Settings
settings_for config standard given = given
settings_for config strict given =
    settings_of given.name
      (if given.name === "minute" then config.strict_minute else config.strict_burst)

-- `throwThrottlingException`
pub throttling_exception : ℕ → ℕ → Thrown
throttling_exception limit time_to_block_expire =
    let retry_after = max 1 time_to_block_expire in
    api (record {
      status = 429;
      code = ErrorCode.rate_limited;
      message = "Too many requests. Try again later.";
      details = ("limit", Detail.num (pos limit)) ∷ ("remaining", Detail.num (pos 0)) ∷ [];
      headers = ("Retry-After", Detail.num (pos retry_after)) ∷ [];
    })

-- the `catch` of `handleRequest`; the library's own exception is told apart by a test
pub guard_error : (Thrown → Bool) → Thrown → Thrown
guard_error is_throttler (api e) = api e
guard_error is_throttler (other text) =
    if is_throttler (other text)
    then other text
    else api_error 503 ErrorCode.service_unavailable "Rate limiting temporarily unavailable." []

-- `handleRequest`, around the one of the library
pub handle_request :
    {S : Type 0}
    → Config
    → (Thrown → Bool)
    → (Settings → Exec S Bool)
    → Policy
    → Settings
    → Exec S Bool
unfolding settings_for guard_error
handle_request config is_throttler super policy given s =
    let (r, s') = super (settings_for config policy given) s in
    elim r [ ok b ↦ (ok b, s') | err e ↦ (err (guard_error is_throttler e), s') ]
