-- ===== src/Usage/Sweep.antt =====
-- Reading the counters of a user, and the weeks that share a counter.
use nestjs_enterprise_starte.Common.Errors.{other}
use Prim.Native.String.{◌++◌ as ◌⊕◌}
use nestjs_enterprise_starte.Usage.Consume.{Keeps, Keeps-bind, check-Keeps}
use nestjs_enterprise_starte.Usage.{usage_feature_list, is_usage_feature, thursday_of}
use nestjs_enterprise_starte.Prelude.{
  not, some, [], false, ◌∷◌, none, List, Option, inr, arith, inl, ◌%◌, ◌-◌, sym, nat_eq, ap,
  Bool-cases, ◌*◌, ◌∙◌, ◌≡◌, ◌+◌, ◌/◌, String, ℕ, refl,
}
use nestjs_enterprise_starte.Common.Counters.{Counters}
use nestjs_enterprise_starte.Common.Exec.{pure, ◌>>=◌, modify, ◌>>◌, throw_if}
use nestjs_enterprise_starte.Plans.{Period}
use nestjs_enterprise_starte.Usage.{
  Config, PlanReads, UsageSubject, Turn, check, sweep, snapshots_for_user, period_stamp,
  iso_week_stamp,
}

-- the Thursday is the multiple of seven in the week
thursday_of_lem : (t : ℕ) → thursday_of t ≡ 7 * ((t / 86400000 + 3) / 7)
thursday_of_lem t = elim (Bool-cases (nat_eq ((t / 86400000 + 4) % 7) 0)) [
  | inl sunday ↦ ground arith
  | inr other_day ↦ ground arith
]

-- All times of one week, from a Monday on, share the stamp of the week.
pub same_week_same_stamp :
    (date_of : ℕ → String) (year_of first_day : ℕ → ℕ) (show padded : ℕ → String) (t u : ℕ)
    → (t / 86400000 + 3) / 7 ≡ (u / 86400000 + 3) / 7
    → period_stamp date_of year_of first_day show padded Period.week t
      ≡ period_stamp date_of year_of first_day show padded Period.week u
unfolding period_stamp iso_week_stamp
same_week_same_stamp date_of year_of first_day show padded t u h =
    let same : thursday_of t ≡ thursday_of u =
      thursday_of_lem t ∙ ap (λ n. 7 * n) h ∙ sym (thursday_of_lem u) in
    ap (λ d. show (year_of d) ⊕ "-W" ⊕ padded ((d - first_day (year_of d) + 1 + 6) / 7)) same

module _ (C : Counters) (config : Config) (plans : Option PlanReads)
    (stamp : Period → ℕ → String) where
  sweep-Keeps :
      (subject : UsageSubject) (daily weekly : Turn) (features : List String)
      → Keeps C config plans stamp (sweep C config plans stamp subject daily weekly features)
  unfolding sweep
  sweep-Keeps subject daily weekly [] s = (refl, refl)
  sweep-Keeps subject daily weekly (feature ∷ features) s =
      let one =
        check C config plans stamp subject feature Period.day daily.check_keys daily.check_retry in
      let two =
        check C config plans stamp subject feature Period.week weekly.check_keys
          weekly.check_retry in
      let rest = sweep C config plans stamp subject daily weekly features in
      Keeps-bind C config plans stamp one
        (λ day. two >>= λ week. rest >>= λ more. pure (day ∷ week ∷ more))
        (check-Keeps C config plans stamp subject feature Period.day daily.check_keys
          daily.check_retry)
        (λ day.
          Keeps-bind C config plans stamp two (λ week. rest >>= λ more. pure (day ∷ week ∷ more))
            (check-Keeps C config plans stamp subject feature Period.week weekly.check_keys
              weekly.check_retry)
            (λ week.
              Keeps-bind C config plans stamp rest (λ more. pure (day ∷ week ∷ more))
                (sweep-Keeps subject daily weekly features) (λ more s. (refl, refl))))
        s

  -- The snapshots of a user change no counter, whatever comes of them.
  pub snapshots_for_user-Keeps :
      (user_id : String) (feature : Option String) (daily weekly : Turn)
      → Keeps C config plans stamp
          (snapshots_for_user C config plans stamp user_id feature daily weekly)
  unfolding snapshots_for_user
  snapshots_for_user-Keeps user_id feature daily weekly s =
      let subject : UsageSubject = record { actor = user_id; billing = none } in
      let features : List String = elim feature [ none ↦ usage_feature_list | some f ↦ f ∷ [] ] in
      Keeps-bind C config plans stamp
        (throw_if (elim feature [ none ↦ false | some f ↦ not (is_usage_feature f) ])
            (other "Unknown usage feature")
          >> modify (λ t. record t { memo = [] }))
        (λ _. sweep C config plans stamp subject daily weekly features) (λ t. ground arith)
        (λ _. sweep-Keeps subject daily weekly features) s
