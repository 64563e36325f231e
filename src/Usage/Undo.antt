-- ===== src/Usage/Undo.antt =====
-- What a metered call leaves on the counters: its increments if it goes through, nothing if not.
use mathlib.Core.List.{append-nil, append_assoc}
use nestjs_enterprise_starte.Common.Errors.{api}
use nestjs_enterprise_starte.Usage.{
  after_increment, increment_scope, seconds_until_period_end, scopes_for, UsageScope, Turn,
  increment_scopes, UsageSubject, increment_turns, Snapshot, expire_if, refuse_if, BillingSubject,
  rollback, ceiling_for_owner, increment, State, set_expiry, decr_all, Period, PlanReads, Config,
}
use nestjs_enterprise_starte.Common.Exec.{lift, ◌>>=◌, err, ok, Exec, Result}
use nestjs_enterprise_starte.Common.Counters.{Counters}
use nestjs_enterprise_starte.Prelude.{
  ap, ltb, nat_eq, sym, ◌∙◌, map, false, Bool, string_key, ===_refl, [], or_else, true, ◌===◌,
  if◌then◌else◌, arith, ◌+◌, ◌∷◌, Option, ◌≡◌, ◌++◌, ℕ, List, String, refl,
}

-- how often a key is in a list
abbrev pub times_in : String → List String → ℕ
times_in k [] = 0
times_in k (j ∷ keys) = (if j === k then 1 else 0) + times_in k keys

times_in-++ :
    (k : String) (xs ys : List String) → times_in k (xs ++ ys) ≡ times_in k xs + times_in k ys
times_in-++ k [] ys = omega arith
times_in-++ k (x ∷ xs) ys = omega (arith, times_in-++ k xs ys)

abbrev pub is_ok : {A : Type 0} → Result A → Bool
is_ok (ok a) = true
is_ok (err e) = false

-- whether a call threw an `ApiException`
abbrev pub is_api : {A : Type 0} → Result A → Bool
is_api (err (api e)) = true
is_api _ = false

module _ (C : Counters) where
  -- DECR is never rejected.
  abbrev pub Reliable : Type 0
  Reliable = (k : String) (c : C.State) → (C.decr k c).0 ≡ true

  abbrev pub number : String → C.State → ℕ
  number k c = or_else (C.get k c) 0

module _ (C : Counters) (config : Config) (plans : Option PlanReads)
    (stamp : Period → ℕ → String) where
  -- Each counter is at its base plus the increments of this call.
  abbrev pub Owes : (String → ℕ) → State C config plans stamp → Type 0
  Owes base s = (k : String) → number C k s.counters ≡ base k + times_in k s.applied

  decr_all_lem :
      (reliable : Reliable C) (base : String → ℕ) (keys : List String) (c : C.State)
      → ((k : String) → number C k c ≡ base k + times_in k keys)
      → (k : String) → number C k (decr_all C config plans stamp keys c) ≡ base k
  unfolding decr_all
  decr_all_lem reliable base [] c h k = omega (arith, h k)
  decr_all_lem reliable base (j ∷ keys) c h k =
      decr_all_lem reliable base keys (C.decr j c).1
        (λ i. ground (arith, h i, h j, reliable j c, C.get-decr j i c, ===_refl j)) k

  pub rollback-Owes :
      (reliable : Reliable C) (base : String → ℕ) (s : State C config plans stamp)
      → Owes base s
      → Owes base (rollback C config plans stamp s).1
  unfolding rollback
  rollback-Owes reliable base s h k =
      omega (arith, decr_all_lem reliable base s.applied s.counters h k)

  -- The counters owe the increments so far; a call that went through has made the given ones, and
  -- one that stated its error has none left.
  abbrev pub Settles :
      {A : Type 0} → (String → ℕ) → List String → Result A → State C config plans stamp → Type 0
  Settles base keys r s =
      Owes base s × (is_ok r ≡ true → s.applied ≡ keys) × (is_api r ≡ true → s.applied ≡ [])

  settle_on :
      {A B : Type 0} (base : String → ℕ) (xs ys : List String)
      (f : A → Exec (State C config plans stamp) B) (x : Result A × State C config plans stamp)
      → Settles base xs x.0 x.1
      → ((a : A) (t : State C config plans stamp)
          → Owes base t
          → t.applied ≡ xs
          → Settles base ys (f a t).0 (f a t).1)
      → Settles base ys ((lift x.0 >>= f) x.1).0 ((lift x.0 >>= f) x.1).1
  settle_on base xs ys f (ok a, t) h next = next a t h.0 (h.1 refl)
  settle_on base xs ys f (err e, t) h next = (h.0, λ good. absurd (ground arith), h.2)

  settle_bind :
      {A B : Type 0} (base : String → ℕ) (xs ys : List String)
      (m : Exec (State C config plans stamp) A) (f : A → Exec (State C config plans stamp) B)
      (s : State C config plans stamp)
      → Settles base xs (m s).0 (m s).1
      → ((a : A) (t : State C config plans stamp)
          → Owes base t
          → t.applied ≡ xs
          → Settles base ys (f a t).0 (f a t).1)
      → Settles base ys ((m >>= f) s).0 ((m >>= f) s).1
  settle_bind base xs ys m f s h next = settle_on base xs ys f (m s) h next

  ceiling-Settles :
      (base : String → ℕ) (xs : List String) (owner : BillingSubject) (feature : String)
      (period : Period) (s : State C config plans stamp)
      → Owes base s
      → s.applied ≡ xs
      → Settles base xs
          (ceiling_for_owner C config plans stamp owner feature period s).0
          (ceiling_for_owner C config plans stamp owner feature period s).1
  unfolding ceiling_for_owner
  ceiling-Settles base xs owner feature period s h e =
      (λ k. ground (arith, h k), λ good. ground arith, λ bad. ground arith)

  increment-Settles :
      (base : String → ℕ) (xs : List String) (k : String) (s : State C config plans stamp)
      → Owes base s
      → s.applied ≡ xs
      → Settles base
          (xs ++ k ∷ [])
          (increment C config plans stamp k s).0
          (increment C config plans stamp k s).1
  unfolding increment
  increment-Settles base xs k s h e = (
    λ j. ground (arith, h j, C.get-incr k j s.counters, times_in-++ j s.applied (k ∷ [])),
    λ good. ground arith,
    λ bad. ground arith,
  )

  expire-Settles :
      (base : String → ℕ) (xs : List String) (b : Bool) (k : String) (ttl : ℕ)
      (s : State C config plans stamp)
      → Owes base s
      → s.applied ≡ xs
      → Settles base xs
          (expire_if C config plans stamp b k ttl s).0
          (expire_if C config plans stamp b k ttl s).1
  unfolding expire_if set_expiry
  expire-Settles base xs false k ttl s h e = (h, λ good. e, λ bad. absurd (ground arith))
  expire-Settles base xs true k ttl s h e = (
    λ j. ground (arith, h j, C.get-expire k j ttl s.counters),
    λ good. ground arith,
    λ bad. ground arith,
  )

  refuse-Settles :
      (reliable : Reliable C) (base : String → ℕ) (xs : List String) (b : Bool)
      (snapshot : Snapshot) (s : State C config plans stamp)
      → Owes base s
      → s.applied ≡ xs
      → Settles base xs
          (refuse_if C config plans stamp b snapshot s).0
          (refuse_if C config plans stamp b snapshot s).1
  unfolding refuse_if rollback
  refuse-Settles reliable base xs false snapshot s h e =
      (h, λ good. e, λ bad. absurd (ground arith))
  refuse-Settles reliable base xs true snapshot s h e =
      (rollback-Owes reliable base s h, λ good. absurd (ground arith), λ bad. refl)

  after-Settles :
      (reliable : Reliable C) (base : String → ℕ) (feature : String) (period : Period) (ttl : ℕ)
      (key : String) (limit next : ℕ) (xs : List String) (s : State C config plans stamp)
      → Owes base s
      → s.applied ≡ xs
      → Settles base xs
          (after_increment C config plans stamp feature period ttl key limit next s).0
          (after_increment C config plans stamp feature period ttl key limit next s).1
  unfolding after_increment
  after-Settles reliable base feature period ttl key limit next xs s h e =
      settle_bind base xs xs (expire_if C config plans stamp (nat_eq next 1) key ttl)
        (λ _. refuse_if C config plans stamp (ltb limit next) (record {
          feature = feature;
          period = period;
          used = limit;
          limit = limit;
          remaining = 0;
          retry_after_seconds = ttl;
        }))
        s (expire-Settles base xs (nat_eq next 1) key ttl s h e)
        (λ _ t. refuse-Settles reliable base xs (ltb limit next) _ t)

  scope-Settles :
      (reliable : Reliable C) (base : String → ℕ) (feature : String) (period : Period) (ttl : ℕ)
      (scope : UsageScope) (xs : List String) (s : State C config plans stamp)
      → Owes base s
      → s.applied ≡ xs
      → Settles base
          (xs ++ scope.key ∷ [])
          (increment_scope C config plans stamp feature period ttl scope s).0
          (increment_scope C config plans stamp feature period ttl scope s).1
  unfolding increment_scope
  scope-Settles reliable base feature period ttl scope xs s h e =
      settle_bind base xs (xs ++ scope.key ∷ [])
        (ceiling_for_owner C config plans stamp scope.owner feature period)
        (λ limit. increment C config plans stamp scope.key >>= λ next.
          after_increment C config plans stamp feature period ttl scope.key limit next)
        s (ceiling-Settles base xs scope.owner feature period s h e)
        (λ limit t ht et.
          settle_bind base (xs ++ scope.key ∷ []) (xs ++ scope.key ∷ [])
            (increment C config plans stamp scope.key)
            (λ next. after_increment C config plans stamp feature period ttl scope.key limit next) t
            (increment-Settles base xs scope.key t ht et)
            (λ next u. after-Settles reliable base feature period ttl scope.key limit next _ u))

  scopes-Settles :
      (reliable : Reliable C) (base : String → ℕ) (feature : String) (period : Period) (ttl : ℕ)
      (scopes : List UsageScope) (xs ys : List String) (s : State C config plans stamp)
      → xs ++ map (λ (x : UsageScope). x.key) scopes ≡ ys
      → Owes base s
      → s.applied ≡ xs
      → Settles base ys
          (increment_scopes C config plans stamp feature period ttl scopes s).0
          (increment_scopes C config plans stamp feature period ttl scopes s).1
  unfolding increment_scopes
  scopes-Settles reliable base feature period ttl [] xs ys s all h e =
      (h, λ good. e ∙ sym (append-nil xs) ∙ all, λ bad. absurd (ground arith))
  scopes-Settles reliable base feature period ttl (scope ∷ scopes) xs ys s all h e =
      settle_bind base (xs ++ scope.key ∷ []) ys
        (increment_scope C config plans stamp feature period ttl scope)
        (λ _. increment_scopes C config plans stamp feature period ttl scopes) s
        (scope-Settles reliable base feature period ttl scope xs s h e)
        (λ _ t.
          scopes-Settles reliable base feature period ttl scopes (xs ++ scope.key ∷ []) ys t
            (append_assoc xs (scope.key ∷ []) (map (λ (x : UsageScope). x.key) scopes) ∙ all))

  -- the keys of the turns
  abbrev pub keys_of : UsageSubject → String → List Turn → List String
  keys_of subject feature [] = []
  keys_of subject feature (turn ∷ turns) =
      map (λ (x : UsageScope). x.key)
        (scopes_for C config plans stamp subject feature turn.period turn.keys)
      ++ keys_of subject feature turns

  pub turns-Settles :
      (reliable : Reliable C) (base : String → ℕ) (subject : UsageSubject) (feature : String)
      (turns : List Turn) (xs ys : List String) (s : State C config plans stamp)
      → xs ++ keys_of subject feature turns ≡ ys
      → Owes base s
      → s.applied ≡ xs
      → Settles base ys
          (increment_turns C config plans stamp subject feature turns s).0
          (increment_turns C config plans stamp subject feature turns s).1
  unfolding increment_turns
  turns-Settles reliable base subject feature [] xs ys s all h e =
      (h, λ good. e ∙ sym (append-nil xs) ∙ all, λ bad. absurd (ground arith))
  turns-Settles reliable base subject feature (turn ∷ turns) xs ys s all h e =
      settle_bind base (xs ++ keys_of subject feature (turn ∷ [])) ys
        (increment_scopes C config plans stamp feature turn.period
          (seconds_until_period_end turn.period turn.ttl)
          (scopes_for C config plans stamp subject feature turn.period turn.keys))
        (λ _. increment_turns C config plans stamp subject feature turns) s
        (scopes-Settles reliable base feature turn.period
          (seconds_until_period_end turn.period turn.ttl)
          (scopes_for C config plans stamp subject feature turn.period turn.keys) xs _ s
          (ap (λ l. xs ++ l) (sym (append-nil _))) h e)
        (λ _ t. turns-Settles reliable base subject feature turns _ ys t (
          append_assoc xs _ (keys_of subject feature turns)
          ∙ ap (λ l. xs ++ (l ++ keys_of subject feature turns))
              (append-nil (
                map (λ (x : UsageScope). x.key)
                  (scopes_for C config plans stamp subject feature turn.period turn.keys)))
          ∙ all))
