-- ===== src/Environment/Tests.antt =====
-- A production environment that is accepted, and one that is not.
use nestjs_enterprise_starte.Prelude.{
  ◌*◌, true, none, leb, Option, [], ◌≡◌, Bool, List, String, ◌∷◌, arith, ℕ, refl,
}
use nestjs_enterprise_starte.Prelude.Int.{ℤ}
use nestjs_enterprise_starte.Common.Object.{get_key}
use nestjs_enterprise_starte.Throttling.{Ceiling}
use nestjs_enterprise_starte.Environment.{
  Env, NodeEnv, MailTransport, StorageDriver, Rule, issues, rules, gathered, group_issues,
  credential_groups, smtp_group, s3_group, missing_issues, supplied_count, pack_issues, url_issues,
  rate_issues,
}
use nestjs_enterprise_starte.Environment.Accepted.{accepted-IsSound, IsSound}

abbrev rate : ℕ → ℕ → Ceiling
rate window max = record { window_seconds = window; max = max }

abbrev production_env : Env
production_env = record {
  node_env = NodeEnv.production;
  better_auth_secret = "a unique secret of thirty-two characters";
  min_password_length = 12;
  max_password_length = 128;
  auth_rate = rate 60 60;
  auth_strict_rate = rate 300 10;
  lockout_threshold = 5;
  lockout_base_delay = 30;
  lockout_max_delay = 900;
  lockout_window = 3600;
  burst = rate 10 20;
  minute = rate 60 120;
  strict_burst = rate 10 10;
  strict_minute = rate 60 30;
  mail_transport = MailTransport.smtp;
  storage_driver = StorageDriver.s3;
  texts =
      ("SMTP_HOST", "h")
      ∷ ("SMTP_PORT", "25")
      ∷ ("SMTP_USER", "u")
      ∷ ("SMTP_PASSWORD", "p")
      ∷ ("STORAGE_S3_BUCKET", "b")
      ∷ ("STORAGE_S3_REGION", "r")
      ∷ ("STORAGE_S3_ACCESS_KEY_ID", "k")
      ∷ ("STORAGE_S3_SECRET_ACCESS_KEY", "s")
      ∷ ("GOOGLE_CLIENT_ID", "i")
      ∷ ("GOOGLE_CLIENT_SECRET", "s")
      ∷ [];
}

abbrev no_integer : String → Option ℤ
no_integer _ = none

abbrev no_entries : String → List (List String)
no_entries _ = []

abbrev any_url : String → Bool
any_url _ = true

-- the comparison of the fractions themselves
abbrev exact : ℕ → ℕ → ℕ → ℕ → Bool
exact a b c d = leb (c * b) (a * d)

half_a_group :
    issues no_integer no_entries any_url exact (record production_env {
      texts = ("GOOGLE_CLIENT_ID", "i") ∷ production_env.texts;
      storage_driver = StorageDriver.local;
    })
    ≡ record { path = "STORAGE_DRIVER"; rule = Rule.local_in_production } ∷ []
unfolding issues rules gathered group_issues credential_groups smtp_group s3_group missing_issues
    supplied_count pack_issues url_issues rate_issues get_key
half_a_group = refl

accepted-IsSound_example : IsSound no_integer no_entries any_url exact production_env
unfolding issues rules gathered group_issues credential_groups smtp_group s3_group missing_issues
    supplied_count pack_issues url_issues rate_issues get_key
accepted-IsSound_example =
    accepted-IsSound no_integer no_entries any_url exact production_env
      (λ a b c d opens opens' below. ground arith)
      (omega arith, (omega arith, (omega arith, (omega arith, (omega arith, (omega arith, tt))))))
      refl
