-- ===== src/Auth/Lockout/Delay.antt =====
-- The backoff of the account lockout.
use native.Mathlib.Nat.{pow-suc}
use nestjs_enterprise_starte.Prelude.{◌-◌, ◌^◌, suc, ◌*◌, ◌≤◌, min, ℕ, ◌≡◌, arith}
use nestjs_enterprise_starte.Auth.Lockout.{Config, delay_for}

double_power : (b e : ℕ) → b * 2 ^ suc e ≡ 2 * (b * 2 ^ e)
double_power b e = rw (pow-suc 2 e) (omega arith)

module _ (config : Config) where
  pub delay_for-le-max : (n : ℕ) → delay_for config n ≤ config.max_delay_seconds
  unfolding delay_for
  delay_for-le-max n = omega arith

  -- The first failure at the threshold waits for the base delay, and each further one for twice as
  -- long as the one before, never for longer than the maximum.
  pub delay_for_backoff :
      (n : ℕ)
      → config.base_delay_seconds ≤ config.max_delay_seconds
      → config.threshold ≤ n
      → (delay_for config config.threshold ≡ config.base_delay_seconds)
        × (delay_for config (suc n) ≡ min (2 * delay_for config n) config.max_delay_seconds)
  unfolding delay_for
  delay_for_backoff n capped late =
      let first : config.threshold - config.threshold ≡ 0 = omega arith in
      let later : suc n - config.threshold ≡ suc (n - config.threshold) = omega arith in
      (
        rw first (omega arith),
        rw (later, double_power config.base_delay_seconds (n - config.threshold)) (omega arith),
      )
