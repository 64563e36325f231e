-- ===== src/Environment/Accepted.antt =====
-- What the rest of the program may rely on when the environment was accepted.

use nestjs_enterprise_starte.Prelude.{
  string_key, ltb, ◌===◌, ◌&&◌, not, Option-cases, ◌≢◌, ◌∷◌, inr, ◌∷◌, leb, true, inl, ◌⊎◌, ◌≤◌,
  Bool-cases, All, arith, some, false, ℕ, [], List, ◌<◌, Option, ◌≡◌, String, ◌*◌, Bool, refl,
}
use nestjs_enterprise_starte.Prelude.Int.{ℤ}
use nestjs_enterprise_starte.Common.Object.{get_key}
use nestjs_enterprise_starte.Common.Exec.{ok, Result-cases}
use nestjs_enterprise_starte.Topup.{parse_credit_packs, Pack}
use nestjs_enterprise_starte.Throttling.{Ceiling}
use nestjs_enterprise_starte.Environment.{
  is_s3, is_production, is_smtp, rules, issues, Env, NodeEnv, MailTransport, StorageDriver, Rule,
  credential_groups, smtp_group, s3_group, placeholder, pack_issues, url_issues, issue_if,
  rate_issues,
}
use nestjs_enterprise_starte.Environment.Groups.{
  missing_issues-AllSupplied, group_issues-whole, gathered_nil, AllSupplied, NoneSupplied,
}

-- one ceiling lets through less than another in the same time
abbrev pub Stricter : Ceiling → Ceiling → Type 0
Stricter strict general = strict.max * general.window_seconds < general.max * strict.window_seconds

issue_if-false : (b : Bool) (path : String) (rule : Rule) → issue_if b path rule ≡ [] → b ≡ false
issue_if-false false path rule h = refl
issue_if-false true path rule h = absurd (ground arith)

is_smtp_true :
    (t : MailTransport)
    → elim t [ MailTransport.log ↦ false | MailTransport.smtp ↦ true ] ≡ true
    → t ≡ MailTransport.smtp
is_smtp_true MailTransport.smtp h = refl
is_smtp_true MailTransport.log h = absurd (ground arith)

is_s3_true :
    (d : StorageDriver)
    → elim d [ StorageDriver.local ↦ false | StorageDriver.s3 ↦ true ] ≡ true
    → d ≡ StorageDriver.s3
is_s3_true StorageDriver.s3 h = refl
is_s3_true StorageDriver.local h = absurd (ground arith)

module _ (to_integer : String → Option ℤ) (entries_of : String → List (List String))
    (is_http : String → Bool) (reaches : ℕ → ℕ → ℕ → ℕ → Bool) where
  -- what an accepted environment guarantees
  pub record IsSound (env : Env) : Type 0 where
    pub groups : All (λ g. AllSupplied env g.1 ⊎ NoneSupplied env g.1) credential_groups
    pub packs :
        (raw : String)
        → get_key "STRIPE_CREDIT_PACKS" env.texts ≡ some raw
        → (packs : List Pack) × (parse_credit_packs to_integer (entries_of raw) ≡ ok packs)
    pub urls :
        All
          (λ name. (value : String) → get_key name env.texts ≡ some value → is_http value ≡ true)
          ("STRIPE_SUCCESS_URL" ∷ "STRIPE_CANCEL_URL" ∷ [])
    pub mail : env.mail_transport ≡ MailTransport.smtp → AllSupplied env smtp_group
    pub storage : env.storage_driver ≡ StorageDriver.s3 → AllSupplied env s3_group
    pub in_production :
        env.node_env ≡ NodeEnv.production
        → (env.mail_transport ≡ MailTransport.smtp)
          × (env.storage_driver ≡ StorageDriver.s3)
          × (env.better_auth_secret ≢ placeholder)
    pub passwords : env.min_password_length ≤ env.max_password_length
    pub lockout : env.lockout_base_delay ≤ env.lockout_max_delay
    pub auth_rate : Stricter env.auth_strict_rate env.auth_rate
    pub burst_rate : Stricter env.strict_burst env.burst
    pub minute_rate : Stricter env.strict_minute env.minute

  -- division rounds, and keeps the order
  abbrev pub KeepsOrder : Type 0
  KeepsOrder = (a b c d : ℕ) → 0 < b → 0 < d → c * b ≤ a * d → reaches a b c d ≡ true

  rate_issues-Stricter :
      (path : String) (strict general : Ceiling)
      → KeepsOrder
      → 0 < strict.window_seconds
      → 0 < general.window_seconds
      → rate_issues to_integer entries_of is_http reaches path strict general ≡ []
      → Stricter strict general
  unfolding rate_issues
  rate_issues-Stricter path strict general keeps opens opens' h =
      elim (Bool-cases
        (leb (general.max * strict.window_seconds) (strict.max * general.window_seconds))) [
          | inl over ↦
              let hit =
                keeps strict.max strict.window_seconds general.max general.window_seconds opens
                  opens' (ground arith) in
              absurd (ground arith)
          | inr below ↦ ground arith
        ]

  url_issues-fine :
      (env : Env) (names : List String)
      → url_issues to_integer entries_of is_http reaches env names ≡ []
      → All
          (λ name. (value : String) → get_key name env.texts ≡ some value → is_http value ≡ true)
          names
  unfolding url_issues
  url_issues-fine env [] h = tt
  url_issues-fine env (name ∷ names) h = elim (Option-cases (get_key name env.texts)) [
    | inl missing ↦ (λ value given. absurd (ground arith), url_issues-fine env names (ground arith))
    | inr (text, supplied) ↦ elim (Bool-cases (is_http text)) [
      | inl fine ↦ (λ value given. ground arith, url_issues-fine env names (ground arith))
      | inr bad ↦ absurd (ground arith)
    ]
  ]

  pack_issues-fine :
      (env : Env)
      → pack_issues to_integer entries_of is_http reaches env ≡ []
      → (raw : String) → get_key "STRIPE_CREDIT_PACKS" env.texts ≡ some raw
      → (packs : List Pack) × (parse_credit_packs to_integer (entries_of raw) ≡ ok packs)
  unfolding pack_issues
  pack_issues-fine env h raw given =
      elim (Result-cases (parse_credit_packs to_integer (entries_of raw))) [
        | inl (e, bad) ↦ absurd (ground arith)
        | inr (packs, fine) ↦ (packs, fine)
      ]

  -- every window of a limit is open for some time, as the schema of the single variables asks
  abbrev pub HasWindows : Env → Type 0
  HasWindows env =
      All (λ (c : Ceiling). 0 < c.window_seconds)
        (env.auth_strict_rate ∷ env.auth_rate ∷ env.strict_burst ∷ env.burst ∷ env.strict_minute
          ∷ env.minute ∷ [])

  -- An environment that the refinement accepts without an issue is sound: each credential group is
  -- supplied as a whole or not at all, the packs parse, the URLs of Stripe are absolute, the group of
  -- the chosen transport and driver is complete, production neither logs its mail nor stores files on
  -- its disk nor signs with the placeholder, the password lengths and the lockout delays are in
  -- order, and each strict ceiling permits a lower rate than the general one. The windows of the
  -- limits are positive, and the division of the runtime keeps the order of fractions.
  pub accepted-IsSound :
      (env : Env)
      → KeepsOrder
      → HasWindows env
      → issues to_integer entries_of is_http reaches env ≡ []
      → IsSound env
  unfolding issues rules
  accepted-IsSound env keeps (w₁, (w₂, (w₃, (w₄, (w₅, (w₆, _)))))) h =
      let (
        groups,
        (
          packs,
          (
            urls,
            (
              mail,
              (
                logging,
                (
                  local_disk,
                  (
                    storage,
                    (secret, (passwords, (lockout, (auth_rate, (burst_rate, (minute_rate, _)))))),
                  ),
                ),
              ),
            ),
          ),
        ),
      ) =
        gathered_nil (rules to_integer entries_of is_http reaches env) h in
      let no_log = issue_if-false (not (is_smtp env) && is_production env) _ _ logging in
      let no_disk = issue_if-false (not (is_s3 env) && is_production env) _ _ local_disk in
      let no_placeholder =
        issue_if-false (is_production env && (env.better_auth_secret === placeholder)) _ _ secret in
      let lengths =
        issue_if-false (ltb env.max_password_length env.min_password_length) _ _ passwords in
      let delays = issue_if-false (ltb env.lockout_max_delay env.lockout_base_delay) _ _ lockout in
      record {
        groups = group_issues-whole env credential_groups groups;
        packs = pack_issues-fine env packs;
        urls = url_issues-fine env _ urls;
        mail =
            λ chosen. missing_issues-AllSupplied env Rule.smtp_incomplete smtp_group (ground arith);
        storage =
            λ chosen. missing_issues-AllSupplied env Rule.s3_incomplete s3_group (ground arith);
        in_production = λ live. (
          is_smtp_true env.mail_transport (ground arith),
          is_s3_true env.storage_driver (ground arith),
          λ same. ground (arith, string_key.same_iff env.better_auth_secret placeholder),
        );
        passwords = ground arith;
        lockout = ground arith;
        auth_rate = rate_issues-Stricter _ env.auth_strict_rate env.auth_rate keeps w₁ w₂ auth_rate;
        burst_rate = rate_issues-Stricter _ env.strict_burst env.burst keeps w₃ w₄ burst_rate;
        minute_rate = rate_issues-Stricter _ env.strict_minute env.minute keeps w₅ w₆ minute_rate;
      }
