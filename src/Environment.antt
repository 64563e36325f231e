-- ===== src/Environment.antt =====
-- The rules between environment variables: the refinement of src/config/env.schema.ts, with
-- src/config/auth.config.ts and src/config/throttle.config.ts, which read what it let pass. The
-- schema of the single variables is the library's; a state of this part is an environment that has
-- passed it.
pub mod Accepted
pub mod Groups
mod Tests
use nestjs_enterprise_starte.Prelude.{
  string_key, ltb, ◌===◌, some, ◌||◌, not, ◌&&◌, ◌++◌, true, [], nat_eq, none, ◌+◌, Option, is_some,
  ◌∷◌, if◌then◌else◌, ℕ, false, ◌∷◌, String, List, Bool, refl,
}
use nestjs_enterprise_starte.Prelude.Int.{ℤ}
use nestjs_enterprise_starte.Common.Object.{get_key}
use nestjs_enterprise_starte.Common.Exec.{Result, ok, err}
use nestjs_enterprise_starte.Topup.{parse_credit_packs}
use nestjs_enterprise_starte.Throttling
use nestjs_enterprise_starte.Throttling.{Ceiling}
use nestjs_enterprise_starte.Auth.Lockout

pub data NodeEnv : Type 0 where
  development test production : NodeEnv

pub data MailTransport : Type 0 where
  log smtp : MailTransport

pub data StorageDriver : Type 0 where
  local s3 : StorageDriver

-- `EnvShape`, as far as the rules read it; `texts` has the optional variables that are present
pub record Env : Type 0 where
  pub node_env : NodeEnv
  pub better_auth_secret : String
  pub min_password_length : ℕ
  pub max_password_length : ℕ
  pub auth_rate : Ceiling
  pub auth_strict_rate : Ceiling
  pub lockout_threshold : ℕ
  pub lockout_base_delay : ℕ
  pub lockout_max_delay : ℕ
  pub lockout_window : ℕ
  pub burst : Ceiling
  pub minute : Ceiling
  pub strict_burst : Ceiling
  pub strict_minute : Ceiling
  pub mail_transport : MailTransport
  pub storage_driver : StorageDriver
  pub texts : List (String × String)

-- what an issue is about
pub data Rule : Type 0 where
  partial_group : String → Rule
  bad_packs bad_url smtp_incomplete log_in_production local_in_production : Rule
  s3_incomplete placeholder_secret crossed rate_not_lower : Rule

pub record Issue : Type 0 where
  pub path : String
  pub rule : Rule

abbrev issue : String → Rule → Issue
issue path rule = record { path = path; rule = rule }

-- `env[name] !== undefined`
abbrev pub is_supplied : Env → String → Bool
is_supplied env name = is_some (get_key name env.texts)

-- `CREDENTIAL_GROUPS`
pub credential_groups : List (String × List String)
credential_groups =
    ("Google OAuth", "GOOGLE_CLIENT_ID" ∷ "GOOGLE_CLIENT_SECRET" ∷ [])
    ∷ ("Apple OAuth", "APPLE_CLIENT_ID" ∷ "APPLE_CLIENT_SECRET" ∷ [])
    ∷ ("Stripe top-up", "STRIPE_SECRET_KEY" ∷ "STRIPE_WEBHOOK_SECRET" ∷ "STRIPE_CREDIT_PACKS" ∷ [])
    ∷ []

-- `SMTP_GROUP`
pub smtp_group : List String
smtp_group = "SMTP_HOST" ∷ "SMTP_PORT" ∷ "SMTP_USER" ∷ "SMTP_PASSWORD" ∷ []

-- the variables of the S3 rule
pub s3_group : List String
s3_group =
    "STORAGE_S3_BUCKET" ∷ "STORAGE_S3_REGION" ∷ "STORAGE_S3_ACCESS_KEY_ID"
    ∷ "STORAGE_S3_SECRET_ACCESS_KEY" ∷ []

-- `PLACEHOLDER_AUTH_SECRET`
abbrev pub placeholder : String
placeholder = "change-me-to-a-random-32-char-minimum-secret"

-- an issue for each variable that is not supplied
pub missing_issues : Env → Rule → List String → List Issue
missing_issues env rule [] = []
missing_issues env rule (name ∷ names) =
    let rest = missing_issues env rule names in
    if is_supplied env name then rest else issue name rule ∷ rest

-- how many variables of a group are supplied
pub supplied_count : Env → List String → ℕ
supplied_count env [] = 0
supplied_count env (name ∷ names) =
    let rest = supplied_count env names in if is_supplied env name then rest + 1 else rest

abbrev pub size : List String → ℕ
size [] = 0
size (x ∷ xs) = size xs + 1

-- the first loop
pub group_issues : Env → List (String × List String) → List Issue
unfolding supplied_count missing_issues
group_issues env [] = []
group_issues env ((name, members) ∷ groups) =
    let supplied = supplied_count env members in
    let rest = group_issues env groups in
    if nat_eq supplied 0 || nat_eq supplied (size members)
    then rest
    else missing_issues env (partial_group name) members ++ rest

-- the issues of all rules
pub gathered : List (List Issue) → List Issue
gathered [] = []
gathered (found ∷ rest) = found ++ gathered rest

-- an issue if a test is true
abbrev pub issue_if : Bool → String → Rule → List Issue
issue_if b path rule = if b then issue path rule ∷ [] else []

abbrev pub is_production : Env → Bool
is_production env = elim env.node_env [ development ↦ false | test ↦ false | production ↦ true ]

abbrev pub is_smtp : Env → Bool
is_smtp env = elim env.mail_transport [ log ↦ false | smtp ↦ true ]

abbrev pub is_s3 : Env → Bool
is_s3 env = elim env.storage_driver [ local ↦ false | s3 ↦ true ]

-- `entries_of` splits the packs of an environment as `parseStripeCreditPacks` does, `is_http` is the
-- test on an absolute URL, and `reaches a b c d` is `a / b >= c / d` on numbers.
module _ (to_integer : String → Option ℤ) (entries_of : String → List (List String))
    (is_http : String → Bool) (reaches : ℕ → ℕ → ℕ → ℕ → Bool) where
  -- the rule on the packs
  pub pack_issues : Env → List Issue
  pack_issues env = elim (get_key "STRIPE_CREDIT_PACKS" env.texts) [
    | none ↦ []
    | some raw ↦ elim (parse_credit_packs to_integer (entries_of raw)) [
      | ok _ ↦ []
      | err _ ↦ issue "STRIPE_CREDIT_PACKS" bad_packs ∷ []
    ]
  ]

  -- the rule on the URLs of Stripe
  pub url_issues : Env → List String → List Issue
  url_issues env [] = []
  url_issues env (name ∷ names) =
      let rest = url_issues env names in
      elim (get_key name env.texts) [
        | none ↦ rest
        | some value ↦ if is_http value then rest else issue name bad_url ∷ rest
      ]

  -- a strict ceiling must permit a lower rate
  pub rate_issues : String → Ceiling → Ceiling → List Issue
  rate_issues path strict general =
      issue_if (reaches strict.max strict.window_seconds general.max general.window_seconds) path
        rate_not_lower

  -- the rules of the refinement, in their order
  pub rules : Env → List (List Issue)
  rules env =
      group_issues env credential_groups
      ∷ pack_issues env
      ∷ url_issues env ("STRIPE_SUCCESS_URL" ∷ "STRIPE_CANCEL_URL" ∷ [])
      ∷ (if is_smtp env then missing_issues env smtp_incomplete smtp_group else [])
      ∷ issue_if (not (is_smtp env) && is_production env) "MAIL_TRANSPORT" log_in_production
      ∷ issue_if (not (is_s3 env) && is_production env) "STORAGE_DRIVER" local_in_production
      ∷ (if is_s3 env then missing_issues env s3_incomplete s3_group else [])
      ∷ issue_if (is_production env && (env.better_auth_secret === placeholder))
          "BETTER_AUTH_SECRET" placeholder_secret
      ∷ issue_if (ltb env.max_password_length env.min_password_length) "AUTH_MIN_PASSWORD_LENGTH"
          crossed
      ∷ issue_if (ltb env.lockout_max_delay env.lockout_base_delay)
          "AUTH_LOCKOUT_BASE_DELAY_SECONDS" crossed
      ∷ rate_issues "AUTH_STRICT_RATE_LIMIT_MAX" env.auth_strict_rate env.auth_rate
      ∷ rate_issues "THROTTLE_STRICT_BURST_MAX" env.strict_burst env.burst
      ∷ rate_issues "THROTTLE_STRICT_MINUTE_MAX" env.strict_minute env.minute
      ∷ []

  -- the refinement
  pub issues : Env → List Issue
  unfolding rules
  issues env = gathered (rules env)

-- `lockout` of `authConfig`
pub lockout_config : Env → Lockout.Config
lockout_config env = record {
  threshold = env.lockout_threshold;
  base_delay_seconds = env.lockout_base_delay;
  max_delay_seconds = env.lockout_max_delay;
  window_seconds = env.lockout_window;
}

-- `enabledProviders` of `authConfig`; a text that is present is not empty
pub enabled_providers : Env → List String
enabled_providers env =
    (if is_supplied env "GOOGLE_CLIENT_ID" && is_supplied env "GOOGLE_CLIENT_SECRET"
      then "google" ∷ []
      else [])
    ++ (if is_supplied env "APPLE_CLIENT_ID" && is_supplied env "APPLE_CLIENT_SECRET"
        then "apple" ∷ []
        else [])

-- `throttleConfig`
pub throttle_config : Env → Throttling.Config
throttle_config env = record {
  burst = env.burst;
  minute = env.minute;
  strict_burst = env.strict_burst;
  strict_minute = env.strict_minute;
}
