-- ===== src/Usage/Consume.antt =====
-- What a metered call leaves on the counters, as a whole.
use nestjs_enterprise_starte.Common.Errors.{other, api}
use nestjs_enterprise_starte.Usage.Undo.{Settles, turns-Settles, rollback-Owes}
use nestjs_enterprise_starte.Usage.Undo.{keys_of, times_in, is_ok, number, Reliable}
use nestjs_enterprise_starte.Common.Exec.{Result-cases, ◌>>◌, err, throw_if, ok, lift, ◌>>=◌}
use nestjs_enterprise_starte.Usage.{
  BillingSubject, is_usage_feature, ceiling_for_owner, later_values, rollback, increment_turns,
  undo_faults, consume, scopes_for, exceeded, Turn, Result, UsageScope, check_scopes, UsageSubject,
  State, Exec, check, snapshots_of, pre_check, Period, PlanReads, Config,
}
use nestjs_enterprise_starte.Common.Counters.{Counters}
use nestjs_enterprise_starte.Prelude.{
  Bool-cases, if◌then◌else◌, inr, ◌+◌, inl, map, [], Option-cases, leb, ◌∙◌, arith, ◌∷◌, ◌≡◌, List,
  String, ℕ, Option, refl,
}

module _ (C : Counters) (config : Config) (plans : Option PlanReads)
    (stamp : Period → ℕ → String) where
  -- An action that reads only: no counter is changed, and none is added to the list.
  abbrev pub Keeps : {A : Type 0} → Exec (State C config plans stamp) A → Type 0
  Keeps m =
      (s : State C config plans stamp)
      → ((m s).1.counters ≡ s.counters) × ((m s).1.applied ≡ s.applied)

  Keeps-on :
      {A B : Type 0} (f : A → Exec (State C config plans stamp) B)
      (x : Result A × State C config plans stamp) (s : State C config plans stamp)
      → ((a : A) → Keeps (f a))
      → (x.1.counters ≡ s.counters) × (x.1.applied ≡ s.applied)
      → (((lift x.0 >>= f) x.1).1.counters ≡ s.counters)
        × (((lift x.0 >>= f) x.1).1.applied ≡ s.applied)
  Keeps-on f (ok a, t) s next h = ((next a t).0 ∙ h.0, (next a t).1 ∙ h.1)
  Keeps-on f (err e, t) s next h = h

  pub Keeps-bind :
      {A B : Type 0} (m : Exec (State C config plans stamp) A)
      (f : A → Exec (State C config plans stamp) B)
      → Keeps m
      → ((a : A) → Keeps (f a))
      → Keeps (m >>= f)
  Keeps-bind m f h next s = Keeps-on f (m s) s next (h s)

  ceiling-Keeps :
      (owner : BillingSubject) (feature : String) (period : Period)
      → Keeps (ceiling_for_owner C config plans stamp owner feature period)
  unfolding ceiling_for_owner
  ceiling-Keeps owner feature period s = ground arith

  snapshots-Keeps :
      (feature : String) (period : Period) (retry : ℕ) (scopes : List UsageScope)
      (values : List (Option ℕ))
      → Keeps (snapshots_of C config plans stamp feature period retry scopes values)
  unfolding snapshots_of
  snapshots-Keeps feature period retry [] values s = (refl, refl)
  snapshots-Keeps feature period retry (scope ∷ scopes) values s = ground (
    arith,
    ceiling-Keeps scope.owner feature period s,
    snapshots-Keeps feature period retry scopes (later_values values)
        (ceiling_for_owner C config plans stamp scope.owner feature period s).1,
  )

  check_scopes-Keeps :
      (feature : String) (period : Period) (retry : ℕ) (scopes : List UsageScope)
      → Keeps (check_scopes C config plans stamp feature period retry scopes)
  unfolding check_scopes
  check_scopes-Keeps feature period retry scopes s =
      elim (Option-cases (C.mget (map (λ (x : UsageScope). x.key) scopes) s.counters)) [
        | inl broken ↦ ground arith
        | inr (values, found) ↦ ground (arith, snapshots-Keeps feature period retry scopes values s)
      ]

  pub check-Keeps :
      (subject : UsageSubject) (feature : String) (period : Period) (t retry : ℕ)
      → Keeps (check C config plans stamp subject feature period t retry)
  unfolding check
  check-Keeps subject feature period t retry s = ground (
    arith,
    check_scopes-Keeps feature period retry
        (scopes_for C config plans stamp subject feature period t) s,
  )

  pre_check-Keeps :
      (subject : UsageSubject) (feature : String) (turns : List Turn)
      → Keeps (pre_check C config plans stamp subject feature turns)
  unfolding pre_check
  pre_check-Keeps subject feature [] s = (refl, refl)
  pre_check-Keeps subject feature (turn ∷ turns) s =
      Keeps-bind
        (check C config plans stamp subject feature turn.period turn.check_keys turn.check_retry)
        (λ snapshot.
          throw_if (leb snapshot.remaining 0) (exceeded snapshot)
          >> pre_check C config plans stamp subject feature turns)
        (check-Keeps subject feature turn.period turn.check_keys turn.check_retry)
        (λ snapshot.
          Keeps-bind (throw_if (leb snapshot.remaining 0) (exceeded snapshot))
            (λ _. pre_check C config plans stamp subject feature turns) (λ s. (refl, refl))
            (λ _. pre_check-Keeps subject feature turns))
        s

  settled_after :
      (reliable : Reliable C) (base : String → ℕ) (ys : List String)
      (x : Result (Unit {0}) × State C config plans stamp)
      → Settles C config plans stamp base ys x.0 x.1
      → (k : String)
      → number C k (undo_faults C config plans stamp x).1.counters
        ≡ base k + (if is_ok (undo_faults C config plans stamp x).0 then times_in k ys else 0)
  unfolding rollback
  settled_after reliable base ys (ok a, t) h k = ground (arith, h.0 k, h.1 refl)
  settled_after reliable base ys (err (api e), t) h k = ground (arith, h.0 k, h.2 refl)
  settled_after reliable base ys (err (other m), t) h k =
      omega (arith, rollback-Owes C config plans stamp reliable base t h.0 k)

  catch_lem :
      (reliable : Reliable C) (subject : UsageSubject) (feature : String) (turns : List Turn)
      (s : State C config plans stamp)
      → s.applied ≡ []
      → (k : String)
      → number C k
          (undo_faults C config plans stamp
            (increment_turns C config plans stamp subject feature turns s)).1.counters
        ≡ number C k s.counters
          + (if is_ok
                (undo_faults C config plans stamp
                  (increment_turns C config plans stamp subject feature turns s)).0
              then times_in k (keys_of C config plans stamp subject feature turns)
              else 0)
  catch_lem reliable subject feature turns s h =
      settled_after reliable (λ j. number C j s.counters)
        (keys_of C config plans stamp subject feature turns)
        (increment_turns C config plans stamp subject feature turns s)
        (turns-Settles C config plans stamp reliable (λ j. number C j s.counters) subject feature
          turns [] _ s refl (λ j. ground arith) h)

  -- A call that goes through has raised every counter by the number of its own keys that name it; a
  -- call that throws, refused in the middle or stopped by a fault of Redis or of the database, has
  -- left every counter as it was, as long as no DECR is rejected.
  pub consume_all_or_nothing :
      (subject : UsageSubject) (feature : String) (turns : List Turn)
      (s : State C config plans stamp) (k : String)
      → Reliable C
      → number C k (consume C config plans stamp subject feature turns s).1.counters
        ≡ number C k s.counters
          + (if is_ok (consume C config plans stamp subject feature turns s).0
              then times_in k (keys_of C config plans stamp subject feature turns)
              else 0)
  unfolding consume
  consume_all_or_nothing subject feature turns s k reliable =
      let start : State C config plans stamp = record s { memo = []; applied = [] } in
      elim (Bool-cases (is_usage_feature feature)) [
        | inr unknown ↦ ground arith
        | inl known ↦
            elim (Result-cases (pre_check C config plans stamp subject feature turns start).0) [
              | inl (e, refused) ↦ ground (arith, pre_check-Keeps subject feature turns start)
              | inr (a, free) ↦ ground (
                arith,
                pre_check-Keeps subject feature turns start,
                catch_lem reliable subject feature turns
                    (pre_check C config plans stamp subject feature turns start).1
                    (pre_check-Keeps subject feature turns start).1 k,
              )
            ]
      ]
