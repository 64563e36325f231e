-- ===== src/Usage/Tightest.antt =====
-- What a check reports: the counter with the least headroom, each against its owner's own ceiling.
use nestjs_enterprise_starte.Common.Errors.{other, api}
use nestjs_enterprise_starte.Usage.Undo.{number}
use Prim.Native.String.{◌++◌ as ◌⊕◌}
use mathlib.Core.Bool.{false≢true}
use mathlib.Core.Path.{subst}
use nestjs_enterprise_starte.Organizations.Subject.{user, organization}
use nestjs_enterprise_starte.Common.Object.{get_key-set_key}
use nestjs_enterprise_starte.Common.Exec.{Result-cases, ok}
use nestjs_enterprise_starte.Usage.{
  reduce_all, is_usage_feature, scopes_for, UsageSubject, check_scopes, check, first_number,
  later_values, usage_ceiling, Snapshot, snapshots_of, UsageScope, tightest_of, resolve, State,
  get_key, ceiling, set_key, ceiling_for_owner, EffectivePlan, BillingSubject, Period, Config,
  PlanReads, memo_key,
}
use nestjs_enterprise_starte.Common.Counters.{Counters}
use text.Mathlib.TextLemmas.{append_inj, append_cancel_left}
use nestjs_enterprise_starte.Prelude.{
  if◌then◌else◌, map, ◌-◌, [], ltb, ◌∷◌, All, ◌≤◌, or_else, sym, ap, none, string_key, arith, inl,
  inr, ◌===◌, Bool-cases, Option-cases, some, List, ◌≡◌, ℕ, Option, String, refl,
}

prefixes_differ : (a b : String) → "u:" ⊕ a ≡ "o:" ⊕ b → ⊥
prefixes_differ a b e = false≢true (
    (string_key.same_iff "u:" "o:").1
      (append_inj {s₁ = "u:"} {s₂ = "o:"} {t₁ = a} {t₂ = b} e refl).0)

memo_key_inj : (a b : BillingSubject) → memo_key a ≡ memo_key b → a ≡ b
unfolding memo_key
memo_key_inj (user a) (user b) e = ap user (append_cancel_left "u:" a b e)
memo_key_inj (user a) (organization b) e = absurd (prefixes_differ a b e)
memo_key_inj (organization a) (user b) e = absurd (prefixes_differ b a (sym e))
memo_key_inj (organization a) (organization b) e = ap organization (append_cancel_left "o:" a b e)

-- the plan of a subject, if its subscriptions can be read
abbrev pub plan_of : PlanReads → BillingSubject → Option EffectivePlan
plan_of reads owner = elim (reads.subscriptions owner) [
  | none ↦ none
  | some rows ↦ some (resolve reads.catalogue rows reads.now)
]

-- the ceiling of a subject, if it can be told, without a memo
abbrev pub limit_of : Config → PlanReads → BillingSubject → String → Period → Option ℕ
limit_of config reads owner feature period = elim (plan_of reads owner) [
  | none ↦ none
  | some plan ↦ some (or_else (usage_ceiling plan feature period) (ceiling config feature period))
]

module _ (C : Counters) (config : Config) (reads : PlanReads) (stamp : Period → ℕ → String) where
  abbrev pub Memo : List (String × EffectivePlan) → Type 0
  Memo memo =
      (owner : BillingSubject) (plan : EffectivePlan)
      → get_key (memo_key owner) memo ≡ some plan
      → plan_of reads owner ≡ some plan

  Memo-set_key :
      (memo : List (String × EffectivePlan)) (owner : BillingSubject) (plan : EffectivePlan)
      → Memo memo
      → plan_of reads owner ≡ some plan
      → Memo (set_key (memo_key owner) plan memo)
  Memo-set_key memo owner plan h found holder other_plan e =
      elim (Bool-cases (memo_key owner === memo_key holder)) [
        | inl same ↦ ground (
          arith,
          memo_key_inj owner holder ((string_key.same_iff _ _).0 same),
          get_key-set_key (memo_key owner) (memo_key holder) plan memo,
        )
        | inr differ ↦
            h holder other_plan
              (ground (arith, get_key-set_key (memo_key owner) (memo_key holder) plan memo))
      ]

  pub ceiling-Memo :
      (owner : BillingSubject) (feature : String) (period : Period)
      (s : State C config (some reads) stamp)
      → Memo s.memo
      → Memo (ceiling_for_owner C config (some reads) stamp owner feature period s).1.memo
  unfolding ceiling_for_owner
  ceiling-Memo owner feature period s h holder plan e =
      elim (Option-cases (get_key (memo_key owner) s.memo)) [
        | inr (memoized, known) ↦ h holder plan (ground arith)
        | inl fresh ↦ elim (Option-cases (reads.subscriptions owner)) [
          | inl broken ↦ h holder plan (ground arith)
          | inr (rows, found) ↦
              Memo-set_key s.memo owner (resolve reads.catalogue rows reads.now) h (ground arith)
                holder plan (ground arith)
        ]
      ]

  ceiling_lem :
      (owner : BillingSubject) (feature : String) (period : Period) (limit : ℕ)
      (s : State C config (some reads) stamp)
      → Memo s.memo
      → (ceiling_for_owner C config (some reads) stamp owner feature period s).0 ≡ ok limit
      → limit_of config reads owner feature period ≡ some limit
  unfolding ceiling_for_owner
  ceiling_lem owner feature period limit s h e =
      elim (Option-cases (get_key (memo_key owner) s.memo)) [
        | inr (plan, memoized) ↦ ground (arith, h owner plan memoized)
        | inl fresh ↦ elim (Option-cases (reads.subscriptions owner)) [
          | inl broken ↦ absurd (ground arith)
          | inr (rows, found) ↦ ground arith
        ]
      ]

  abbrev Reports : String → Period → List UsageScope → List (Option ℕ) → List Snapshot → Type 0
  Reports feature period [] values [] = Unit
  Reports feature period (scope ∷ scopes) values (x ∷ snapshots) =
      (limit_of config reads scope.owner feature period ≡ some x.limit)
      × (x.remaining ≡ x.limit - first_number values)
      × Reports feature period scopes (later_values values) snapshots
  Reports feature period _ values _ = ⊥

  snapshots-Reports :
      (feature : String) (period : Period) (retry : ℕ) (scopes : List UsageScope)
      (values : List (Option ℕ)) (s : State C config (some reads) stamp) (snapshots : List Snapshot)
      → Memo s.memo
      → (snapshots_of C config (some reads) stamp feature period retry scopes values s).0
        ≡ ok snapshots
      → Reports feature period scopes values snapshots
  unfolding snapshots_of
  snapshots-Reports feature period retry [] values s [] h e = tt
  snapshots-Reports feature period retry [] values s (x ∷ xs) h e = absurd (ground arith)
  snapshots-Reports feature period retry (scope ∷ scopes) values s [] h e =
      elim (Result-cases
        (ceiling_for_owner C config (some reads) stamp scope.owner feature period s).0) [
          | inl (d, failed) ↦ absurd (ground arith)
          | inr (limit, told) ↦ absurd (ground arith)
        ]
  snapshots-Reports feature period retry (scope ∷ scopes) values s (x ∷ xs) h e =
      elim (Result-cases
        (ceiling_for_owner C config (some reads) stamp scope.owner feature period s).0) [
          | inl (d, failed) ↦ absurd (ground arith)
          | inr (limit, told) ↦
              let t =
                (ceiling_for_owner C config (some reads) stamp scope.owner feature period s).1 in
              elim (Result-cases
                (snapshots_of C config (some reads) stamp feature period retry scopes
                  (later_values values) t).0) [
                    | inl (d, failed) ↦ absurd (ground arith)
                    | inr (rest, listed) ↦ (
                      ground (arith, ceiling_lem scope.owner feature period limit s h told),
                      ground arith,
                      snapshots-Reports feature period retry scopes (later_values values) t xs
                          (ceiling-Memo scope.owner feature period s h) (ground arith),
                    )
                  ]
        ]

  lesser :
      (x y : Snapshot)
      → ((if ltb y.remaining x.remaining then y else x).remaining ≤ x.remaining)
        × ((if ltb y.remaining x.remaining then y else x).remaining ≤ y.remaining)
  lesser x y = (ground arith, ground arith)

  tightest_lem :
      (x : Snapshot) (xs : List Snapshot)
      → ((tightest_of x xs).remaining ≤ x.remaining)
        × All (λ y. (tightest_of x xs).remaining ≤ y.remaining) xs
  unfolding tightest_of
  tightest_lem x [] = (omega arith, tt)
  tightest_lem x (y ∷ ys) =
      let h = tightest_lem (if ltb y.remaining x.remaining then y else x) ys in
      (omega (arith, h.0, lesser x y), (omega (arith, h.0, lesser x y), h.1))

  -- a ceiling of the scope, and a headroom below it
  abbrev pub Within : String → Period → ℕ → C.State → UsageScope → Type 0
  Within feature period remaining c scope =
      (limit : ℕ) × (limit_of config reads scope.owner feature period ≡ some limit)
      × (remaining ≤ limit - number C scope.key c)

  Within-Reports :
      (feature : String) (period : Period) (scopes : List UsageScope) (c : C.State) (least : ℕ)
      (snapshots : List Snapshot)
      → Reports feature period scopes
          (map (λ k. C.get k c) (map (λ (x : UsageScope). x.key) scopes))
          snapshots
      → All (λ (y : Snapshot). least ≤ y.remaining) snapshots
      → All (Within feature period least c) scopes
  Within-Reports feature period [] c least snapshots h below = tt
  Within-Reports feature period (scope ∷ scopes) c least [] h below = absurd h
  Within-Reports feature period (scope ∷ scopes) c least (x ∷ xs) h below = (
    (x.limit, h.0, omega (arith, h.1, below.0)),
    Within-Reports feature period scopes c least xs h.2 below.1,
  )

  least_of :
      (snapshots : List Snapshot) (s : State C config (some reads) stamp) (snapshot : Snapshot)
      → (reduce_all C config (some reads) stamp snapshots s).0 ≡ ok snapshot
      → All (λ (y : Snapshot). snapshot.remaining ≤ y.remaining) snapshots
  unfolding reduce_all
  least_of [] s snapshot e = absurd (ground arith)
  least_of (x ∷ xs) s snapshot e =
      let same : tightest_of x xs ≡ snapshot = ground arith in
      subst (λ (z : Snapshot). All (λ (y : Snapshot). z.remaining ≤ y.remaining) (x ∷ xs)) same
        (tightest_lem x xs)

  check_scopes_lem :
      (feature : String) (period : Period) (retry : ℕ) (scopes : List UsageScope)
      (s : State C config (some reads) stamp) (snapshot : Snapshot)
      → Memo s.memo
      → (check_scopes C config (some reads) stamp feature period retry scopes s).0 ≡ ok snapshot
      → All (Within feature period snapshot.remaining s.counters) scopes
  unfolding check_scopes
  check_scopes_lem feature period retry scopes s snapshot h e =
      let keys = map (λ (x : UsageScope). x.key) scopes in
      elim (Option-cases (C.mget keys s.counters)) [
        | inl broken ↦ absurd (ground arith)
        | inr (values, found) ↦
            elim (Result-cases
              (snapshots_of C config (some reads) stamp feature period retry scopes values s).0) [
                | inl (d, failed) ↦ absurd (ground arith)
                | inr (snapshots, listed) ↦
                    Within-Reports feature period scopes s.counters snapshot.remaining snapshots
                      (subst (λ v. Reports feature period scopes v snapshots)
                        (C.mget-get keys s.counters values found)
                        (snapshots-Reports feature period retry scopes values s snapshots h listed))
                      (least_of snapshots
                        (snapshots_of C config (some reads) stamp feature period retry scopes values
                          s).1
                        snapshot (ground arith))
              ]
      ]

  -- With a plan service: if the memo that a check starts with holds the plans of their subjects, the
  -- headroom that the check reports is at most the one of each counter of the subject below the
  -- ceiling of the counter's own owner, the acting member or the organization.
  pub check_tightest :
      (subject : UsageSubject) (feature : String) (period : Period) (t retry : ℕ)
      (s : State C config (some reads) stamp) (snapshot : Snapshot)
      → Memo s.memo
      → (check C config (some reads) stamp subject feature period t retry s).0 ≡ ok snapshot
      → All
          (Within feature period snapshot.remaining s.counters)
          (scopes_for C config (some reads) stamp subject feature period t)
  unfolding check
  check_tightest subject feature period t retry s snapshot h e =
      let scopes = scopes_for C config (some reads) stamp subject feature period t in
      elim (Bool-cases (is_usage_feature feature)) [
        | inr unknown ↦ absurd (ground arith)
        | inl known ↦
            elim (Result-cases
              (check_scopes C config (some reads) stamp feature period retry scopes s).0) [
                | inl (api d, failed) ↦ absurd (ground arith)
                | inl (other d, failed) ↦ absurd (ground arith)
                | inr (x, fine) ↦
                    check_scopes_lem feature period retry scopes s snapshot h (ground arith)
              ]
      ]
