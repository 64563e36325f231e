-- ===== src/Usage.antt =====
-- src/modules/usage-limits/usage-limits.service.ts
pub mod Undo
pub mod Tightest
pub mod Window
pub mod Consume
pub mod Refusal
pub mod Sweep
mod Tests
use nestjs_enterprise_starte.Common.Exec.{or_throw, throw, gets, ◌>>=◌, ◌>>◌}
use nestjs_enterprise_starte.Prelude.Int.{pos}
use nestjs_enterprise_starte.Common.Object.{set_key, get_key}
use nestjs_enterprise_starte.Common.Exec.{err, pure, ok, modify, throw_if, Result, Exec}
use nestjs_enterprise_starte.Organizations.Subject.{organization, user, BillingSubject}
use nestjs_enterprise_starte.Plans.{
  resolve, usage_ceiling, EffectivePlan, Subscription, of_period, Period, Ceilings, Catalogue,
}
use nestjs_enterprise_starte.Common.Errors.{other, Detail, ErrorCode, api, api_error, Thrown}
use nestjs_enterprise_starte.Common.Counters.{Counters}
use Prim.Native.String.{◌++◌ as ◌⊕◌}
use nestjs_enterprise_starte.Prelude.{
  true, false, map, ◌++◌, leb, nat_eq, ◌%◌, ◌-◌, ◌*◌, string_key, ◌+◌, not, ◌/◌, some, or_else, ltb,
  ◌===◌, none, max, [], if◌then◌else◌, any, ◌∷◌, Option, ◌∷◌, ℕ, Bool, String, List, refl,
}

-- `USAGE_FEATURE_LIST`
abbrev pub usage_feature_list : List String
usage_feature_list = "demo" ∷ []

-- `isUsageFeature`
pub is_usage_feature : String → Bool
is_usage_feature feature = any (λ f. f === feature) usage_feature_list

-- `usageLimitsConfig`
pub record Config : Type 0 where
  pub default_limits : Ceilings
  pub features : List (String × Ceilings)

-- `UsageSubject`; `billing` is the id of the organization
pub record UsageSubject : Type 0 where
  pub actor : String
  pub billing : Option String

-- `UsageScope`
pub record UsageScope : Type 0 where
  pub key : String
  pub owner : BillingSubject

-- `UsageSnapshot`
pub record Snapshot : Type 0 where
  pub feature : String
  pub period : Period
  pub used : ℕ
  pub limit : ℕ
  pub remaining : ℕ
  pub retry_after_seconds : ℕ

-- What the plan service reads for a call: its catalogue, its clock, and the subscriptions of a
-- subject, the latest change first, or nothing if the query fails. The tables do not change during
-- a call.
pub record PlanReads : Type 0 where
  pub catalogue : Catalogue
  pub now : ℕ
  pub subscriptions : BillingSubject → Option (List Subscription)

-- a period with the readings of the clock in its turns: for the keys and the snapshots of the
-- check, for the time to live, and for the keys that are incremented
pub record Turn : Type 0 where
  pub period : Period
  pub check_keys : ℕ
  pub check_retry : ℕ
  pub ttl : ℕ
  pub keys : ℕ

-- `secondsUntilPeriodEnd`, on the milliseconds since 1970: the day is `getUTCDate`, and the days of
-- the week start with a Thursday
pub seconds_until_period_end : Period → ℕ → ℕ
seconds_until_period_end Period.day t = max 1 (((t / 86400000 + 1) * 86400000 - t + 999) / 1000)
seconds_until_period_end Period.week t =
    let today = t / 86400000 in
    let sunday_based = (today + 4) % 7 in
    let weekday = if nat_eq sunday_based 0 then 7 else sunday_based in
    max 1 (((today + (8 - weekday)) * 86400000 - t + 999) / 1000)

-- `ceiling`
pub ceiling : Config → String → Period → ℕ
ceiling config feature period =
    of_period period (or_else (get_key feature config.features) config.default_limits)

-- the key of the plan memo
pub memo_key : BillingSubject → String
memo_key (user id) = "u:" ⊕ id
memo_key (organization id) = "o:" ⊕ id

abbrev period_name : Period → String
period_name Period.day = "day"
period_name Period.week = "week"

-- `throwExceeded`
abbrev pub exceeded : Snapshot → Thrown
exceeded s = api (record {
  status = 429;
  code = ErrorCode.usage_limit_exceeded;
  message = "Usage limit exceeded for this period.";
  details =
      ("feature", Detail.text s.feature)
      ∷ ("period", Detail.text (period_name s.period))
      ∷ ("limit", Detail.num (pos s.limit))
      ∷ ("remaining", Detail.num (pos 0))
      ∷ [];
  headers = ("Retry-After", Detail.num (pos s.retry_after_seconds)) ∷ [];
})

-- what `failClosed` throws
abbrev pub unavailable : Thrown
unavailable = api_error 503 ErrorCode.service_unavailable "Usage limits temporarily unavailable." []

-- `reduce` to the snapshot with the least headroom, the first of those
pub tightest_of : Snapshot → List Snapshot → Snapshot
tightest_of tightest [] = tightest
tightest_of tightest (s ∷ rest) =
    tightest_of (if ltb s.remaining tightest.remaining then s else tightest) rest

-- `values[index] ? Number(values[index]) : 0`, for the first of the values left
abbrev pub first_number : List (Option ℕ) → ℕ
first_number [] = 0
first_number (v ∷ values) = or_else v 0

abbrev pub later_values : List (Option ℕ) → List (Option ℕ)
later_values [] = []
later_values (v ∷ values) = values

-- the day, counted from 1970, of the Thursday in the week of a time
abbrev pub thursday_of : ℕ → ℕ
thursday_of t =
    let today = t / 86400000 in
    let sunday_based = (today + 4) % 7 in
    let weekday = if nat_eq sunday_based 0 then 7 else sunday_based in today + 4 - weekday

-- `isoWeekStamp`: `year_of` is the UTC year of a day, `first_day` the first day of a year, and `show`
-- and `padded` the texts of a year and of a week
pub iso_week_stamp : (ℕ → ℕ) → (ℕ → ℕ) → (ℕ → String) → (ℕ → String) → ℕ → String
iso_week_stamp year_of first_day show padded t =
    let thursday = thursday_of t in
    let year = year_of thursday in
    let week = (thursday - first_day year + 1 + 6) / 7 in show year ⊕ "-W" ⊕ padded week

-- `periodStamp`; `date_of` is the date of a time in ISO form
pub period_stamp :
    (ℕ → String) → (ℕ → ℕ) → (ℕ → ℕ) → (ℕ → String) → (ℕ → String) → Period → ℕ → String
unfolding iso_week_stamp
period_stamp date_of year_of first_day show padded Period.day t = date_of t
period_stamp date_of year_of first_day show padded Period.week t =
    iso_week_stamp year_of first_day show padded t

-- `stamp` is `periodStamp`, with the text of a date.
module _ (C : Counters) (config : Config) (plans : Option PlanReads)
    (stamp : Period → ℕ → String) where
  -- the counters, and the memo and the list `applied` of a call
  pub record State : Type 0 where
    pub counters : C.State
    pub memo : List (String × EffectivePlan)
    pub applied : List String

  -- `assertUsageFeature`
  abbrev assert_usage_feature : String → Exec State (Unit {0})
  assert_usage_feature feature =
      throw_if (not (is_usage_feature feature)) (other "Unknown usage feature")

  -- `scopesFor`
  pub scopes_for : UsageSubject → String → Period → ℕ → List UsageScope
  scopes_for subject feature period t =
      let prefix = "usage:" ⊕ period_name period ⊕ ":" ⊕ stamp period t ⊕ ":" ⊕ feature in
      record { key = prefix ⊕ ":u:" ⊕ subject.actor; owner = user subject.actor }
      ∷ elim subject.billing [
        | none ↦ []
        | some org ↦ record { key = prefix ⊕ ":o:" ⊕ org; owner = organization org } ∷ []
      ]

  -- `ceilingForOwner`
  pub ceiling_for_owner : BillingSubject → String → Period → Exec State ℕ
  ceiling_for_owner owner feature period s = elim plans [
    | none ↦ (ok (ceiling config feature period), s)
    | some reads ↦ elim (get_key (memo_key owner) s.memo) [
      | some effective ↦
          (ok (or_else (usage_ceiling effective feature period) (ceiling config feature period)), s)
      | none ↦ elim (reads.subscriptions owner) [
        | none ↦ (err (other "subscription.findMany"), s)
        | some rows ↦
            let effective = resolve reads.catalogue rows reads.now in
            (
              ok (or_else (usage_ceiling effective feature period) (ceiling config feature period)),
              record s { memo = set_key (memo_key owner) effective s.memo },
            )
      ]
    ]
  ]

  -- the snapshots of `check`; the value of a scope is that at its index, if there is one
  pub snapshots_of :
      String → Period → ℕ → List UsageScope → List (Option ℕ) → Exec State (List Snapshot)
  unfolding ceiling_for_owner
  snapshots_of feature period retry [] values = pure []
  snapshots_of feature period retry (scope ∷ scopes) values = do
    limit ← ceiling_for_owner scope.owner feature period
    rest ← snapshots_of feature period retry scopes (later_values values)
    let used = first_number values
    pure (
        record {
          feature = feature;
          period = period;
          used = used;
          limit = limit;
          remaining = limit - used;
          retry_after_seconds = seconds_until_period_end period retry;
        }
        ∷ rest)

  -- a handler that throws an `ApiException` again and fails closed on any other error
  abbrev fail_closed : {A : Type 0} → Result A × State → Result A × State
  fail_closed (ok a, s) = (ok a, s)
  fail_closed (err (api e), s) = (err (api e), s)
  fail_closed (err (other _), s) = (err unavailable, s)

  -- `reduce`, which throws on an empty list
  pub reduce_all : List Snapshot → Exec State Snapshot
  unfolding tightest_of
  reduce_all [] = throw (other "Reduce of empty array with no initial value")
  reduce_all (first ∷ rest) = pure (tightest_of first rest)

  -- the `try` block of `check`
  pub check_scopes : String → Period → ℕ → List UsageScope → Exec State Snapshot
  unfolding snapshots_of reduce_all
  check_scopes feature period retry scopes = do
    read ← gets (λ s. C.mget (map (λ (x : UsageScope). x.key) scopes) s.counters)
    values ← or_throw read (other "MGET")
    snapshots ← snapshots_of feature period retry scopes values
    reduce_all snapshots

  -- `check`; the clock is read for the keys and for the snapshots
  pub check : UsageSubject → String → Period → ℕ → ℕ → Exec State Snapshot
  unfolding check_scopes scopes_for
  check subject feature period t retry = do
    assert_usage_feature feature
    (λ s. fail_closed (check_scopes feature period retry (scopes_for subject feature period t) s))

  -- the first loop of `consume`
  pub pre_check : UsageSubject → String → List Turn → Exec State (Unit {0})
  unfolding check
  pre_check subject feature [] = pure tt
  pre_check subject feature (turn ∷ turns) = do
    snapshot ← check subject feature turn.period turn.check_keys turn.check_retry
    throw_if (leb snapshot.remaining 0) (exceeded snapshot)
    pre_check subject feature turns

  -- the loop of `rollback`; a command that fails is logged
  pub decr_all : List String → C.State → C.State
  decr_all [] c = c
  decr_all (k ∷ keys) c = decr_all keys (C.decr k c).1

  -- `rollback(applied)`, which empties the list
  pub rollback : Exec State (Unit {0})
  unfolding decr_all
  rollback = modify (λ s. record s { counters = decr_all s.applied s.counters; applied = [] })

  -- `incr` and the push
  pub increment : String → Exec State ℕ
  increment key s =
      let (reply, c) = C.incr key s.counters in
      elim reply [
        | none ↦ (err (other "INCR"), record s { counters = c })
        | some n ↦ (ok n, record s { counters = c; applied = s.applied ++ key ∷ [] })
      ]

  -- `expire`
  pub set_expiry : String → ℕ → Exec State (Unit {0})
  set_expiry key ttl s =
      let (accepted, c) = C.expire key ttl s.counters in
      (if accepted then ok tt else err (other "EXPIRE"), record s { counters = c })

  -- `expire`, for a new counter
  pub expire_if : Bool → String → ℕ → Exec State (Unit {0})
  unfolding set_expiry
  expire_if false key ttl = pure tt
  expire_if true key ttl = set_expiry key ttl

  -- the refusal of a call that is over a ceiling
  pub refuse_if : Bool → Snapshot → Exec State (Unit {0})
  unfolding rollback
  refuse_if false snapshot = pure tt
  refuse_if true snapshot = rollback >> throw (exceeded snapshot)

  -- what follows an increment
  pub after_increment : String → Period → ℕ → String → ℕ → ℕ → Exec State (Unit {0})
  unfolding expire_if refuse_if
  after_increment feature period ttl key limit next =
      expire_if (nat_eq next 1) key ttl
      >> refuse_if (ltb limit next) (record {
        feature = feature;
        period = period;
        used = limit;
        limit = limit;
        remaining = 0;
        retry_after_seconds = ttl;
      })

  -- the body of the inner loop of `consume`
  pub increment_scope : String → Period → ℕ → UsageScope → Exec State (Unit {0})
  unfolding ceiling_for_owner increment after_increment
  increment_scope feature period ttl scope = do
    limit ← ceiling_for_owner scope.owner feature period
    next ← increment scope.key
    after_increment feature period ttl scope.key limit next

  -- the inner loop of `consume`
  pub increment_scopes : String → Period → ℕ → List UsageScope → Exec State (Unit {0})
  unfolding increment_scope
  increment_scopes feature period ttl [] = pure tt
  increment_scopes feature period ttl (scope ∷ scopes) =
      increment_scope feature period ttl scope >> increment_scopes feature period ttl scopes

  -- the second loop of `consume`
  pub increment_turns : UsageSubject → String → List Turn → Exec State (Unit {0})
  unfolding increment_scopes scopes_for
  increment_turns subject feature [] = pure tt
  increment_turns subject feature (turn ∷ turns) =
      increment_scopes feature turn.period (seconds_until_period_end turn.period turn.ttl)
        (scopes_for subject feature turn.period turn.keys)
      >> increment_turns subject feature turns

  -- the handler of `consume`
  abbrev pub undo_faults : Result (Unit {0}) × State → Result (Unit {0}) × State
  undo_faults (ok a, s) = (ok a, s)
  undo_faults (err (api e), s) = (err (api e), s)
  undo_faults (err (other _), s) = (err unavailable, (rollback s).1)

  -- `consume`; the memo and the list start empty
  pub consume : UsageSubject → String → List Turn → Exec State (Unit {0})
  unfolding pre_check increment_turns rollback
  consume subject feature turns = do
    assert_usage_feature feature
    modify (λ s. record s { memo = []; applied = [] })
    pre_check subject feature turns
    (λ s. undo_faults (increment_turns subject feature turns s))

  -- the sweep of `snapshotsForUser`, with the two turns of each feature
  pub sweep : UsageSubject → Turn → Turn → List String → Exec State (List Snapshot)
  unfolding check
  sweep subject daily weekly [] = pure []
  sweep subject daily weekly (feature ∷ features) = do
    day ← check subject feature Period.day daily.check_keys daily.check_retry
    week ← check subject feature Period.week weekly.check_keys weekly.check_retry
    rest ← sweep subject daily weekly features
    pure (day ∷ week ∷ rest)

  -- `snapshotsForUser`; the memo starts empty
  pub snapshots_for_user : String → Option String → Turn → Turn → Exec State (List Snapshot)
  unfolding sweep
  snapshots_for_user user_id feature daily weekly =
      let subject : UsageSubject = record { actor = user_id; billing = none } in
      throw_if (elim feature [ none ↦ false | some f ↦ not (is_usage_feature f) ])
        (other "Unknown usage feature")
      >> modify (λ s. record s { memo = [] })
      >> sweep subject daily weekly (elim feature [ none ↦ usage_feature_list | some f ↦ f ∷ [] ])

  -- `ceilingFor`, with a memo of its own
  pub ceiling_for : UsageSubject → String → Period → State → Result ℕ
  ceiling_for subject feature period s =
      (ceiling_for_owner (user subject.actor) feature period (record s { memo = [] })).0

  -- `keysFor`
  pub keys_for : UsageSubject → String → Period → ℕ → List String
  keys_for subject feature period t =
      map (λ (x : UsageScope). x.key) (scopes_for subject feature period t)
