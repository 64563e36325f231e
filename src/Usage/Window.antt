-- ===== src/Usage/Window.antt =====
-- How long a counter lives: until the UTC day or the week from Monday to Sunday is over.
use mathlib.Core.Path.{subst}
use nestjs_enterprise_starte.Usage.{seconds_until_period_end}
use nestjs_enterprise_starte.Plans.{Period}
use nestjs_enterprise_starte.Prelude.{
  sym, ◌≡◌, ◌%◌, nat_eq, if◌then◌else◌, ◌-◌, arith, ◌<◌, max, ◌*◌, ◌≤◌, ◌+◌, ◌/◌, ℕ,
}

-- the number of the day, or of the week, with 1970-01-01 (a Thursday) in number 0
abbrev pub window_index : Period → ℕ → ℕ
window_index Period.day t = t / 86400000
window_index Period.week t = (t / 86400000 + 3) / 7

-- where that day or week ends, in milliseconds
abbrev pub window_end : Period → ℕ → ℕ
window_end Period.day n = (n + 1) * 86400000
window_end Period.week n = (n * 7 + 4) * 86400000

days_left :
    (a : ℕ) → a + (8 - (if nat_eq ((a + 4) % 7) 0 then 7 else (a + 4) % 7)) ≡ (a + 3) / 7 * 7 + 4
days_left a = ground arith

-- The end is reached in whole seconds, if it is ahead.
rounded_up :
    (t e : ℕ)
    → t < e
    → (e ≤ t + max 1 ((e - t + 999) / 1000) * 1000)
      × (t + max 1 ((e - t + 999) / 1000) * 1000 < e + 1000)
rounded_up t e h = (omega arith, omega arith)

-- The time to live that a counter gets covers the rest of its period, and not a second more.
pub ttl_covers_window :
    (period : Period) (t : ℕ)
    → (window_end period (window_index period t) ≤ t + seconds_until_period_end period t * 1000)
      × (t + seconds_until_period_end period t * 1000
          < window_end period (window_index period t) + 1000)
unfolding seconds_until_period_end
ttl_covers_window Period.day t = rounded_up t ((t / 86400000 + 1) * 86400000) (omega arith)
ttl_covers_window Period.week t =
    subst
      (λ days.
        (((t / 86400000 + 3) / 7 * 7 + 4) * 86400000
          ≤ t + max 1 ((days * 86400000 - t + 999) / 1000) * 1000)
        × (t + max 1 ((days * 86400000 - t + 999) / 1000) * 1000
            < ((t / 86400000 + 3) / 7 * 7 + 4) * 86400000 + 1000))
      (sym (days_left (t / 86400000)))
      (rounded_up t (((t / 86400000 + 3) / 7 * 7 + 4) * 86400000) (omega arith))
