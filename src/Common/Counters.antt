-- ===== src/Common/Counters.antt =====
-- What the usage counters rely on of Redis: numbers under text keys, changed by INCR and DECR and
-- read by MGET. Each command may be rejected, and then changes no number. `EXPIRE` changes no
-- number at the time of the command. DECR is described where the number is not 0.
use nestjs_enterprise_starte.Common.Object.{get_key-set_key, set_key, get_key}
use nestjs_enterprise_starte.Prelude.{
  zero, none, false, suc, string_key, ◌-◌, ◌===◌, ◌&&◌, is_some, arith, ◌+◌, true, if◌then◌else◌,
  ◌≤◌, ◌≡◌, or_else, Option, List, Bool, map, some, ℕ, String, refl,
}

pub record Counters : Type 1 where
  pub State : Type 0
  pub get : String → State → Option ℕ
  pub mget : List String → State → Option (List (Option ℕ))
  pub incr : String → State → Option ℕ × State
  pub decr : String → State → Bool × State
  pub expire : String → ℕ → State → Bool × State
  pub mget-get :
      (keys : List String) (s : State) (values : List (Option ℕ))
      → mget keys s ≡ some values
      → values ≡ map (λ k. get k s) keys
  pub incr_reply :
      (k : String) (s : State) (n : ℕ) → (incr k s).0 ≡ some n → n ≡ or_else (get k s) 0 + 1
  pub get-incr :
      (k j : String) (s : State)
      → or_else (get j (incr k s).1) 0
        ≡ (if is_some (incr k s).0 && k === j then or_else (get j s) 0 + 1 else or_else (get j s) 0)
  pub get-decr :
      (k j : String) (s : State)
      → 1 ≤ or_else (get k s) 0
      → or_else (get j (decr k s).1) 0 + (if (decr k s).0 && k === j then 1 else 0)
        ≡ or_else (get j s) 0
  pub get-expire : (k j : String) (ttl : ℕ) (s : State) → get j (expire k ttl s).1 ≡ get j s

-- Counters in a list. They accept a number of increments and expiries, and then reject them all.
abbrev Rows : Type 0
Rows = ℕ × List (String × ℕ)

abbrev number_of : String → Rows → Option ℕ
number_of k (budget, rows) = get_key k rows

abbrev incr_row : String → Rows → Option ℕ × Rows
incr_row k (zero, rows) = (none, (0, rows))
incr_row k (suc b, rows) = let n = or_else (get_key k rows) 0 + 1 in (some n, (b, set_key k n rows))

abbrev decr_row : String → Rows → Bool × Rows
decr_row k (budget, rows) = (true, (budget, set_key k (or_else (get_key k rows) 0 - 1) rows))

abbrev expire_row : String → ℕ → Rows → Bool × Rows
expire_row k ttl (zero, rows) = (false, (0, rows))
expire_row k ttl (suc b, rows) = (true, (b, rows))

pub number-incr :
    (k j : String) (s : Rows)
    → or_else (number_of j (incr_row k s).1) 0 ≡ (
        if is_some (incr_row k s).0 && k === j
        then or_else (number_of j s) 0 + 1
        else or_else (number_of j s) 0)
number-incr k j (zero, rows) = refl
number-incr k j (suc b, rows) =
    ground
      (arith, get_key-set_key k j (or_else (get_key k rows) 0 + 1) rows, string_key.same_iff k j)

pub number-decr :
    (k j : String) (s : Rows)
    → 1 ≤ or_else (number_of k s) 0
    → or_else (number_of j (decr_row k s).1) 0 + (if (decr_row k s).0 && k === j then 1 else 0)
      ≡ or_else (number_of j s) 0
number-decr k j (b, rows) h =
    ground
      (arith, get_key-set_key k j (or_else (get_key k rows) 0 - 1) rows, string_key.same_iff k j)

pub number-expire :
    (k j : String) (ttl : ℕ) (s : Rows) → number_of j (expire_row k ttl s).1 ≡ number_of j s
number-expire k j ttl (zero, rows) = refl
number-expire k j ttl (suc b, rows) = refl

pub number-reply :
    (k : String) (s : Rows) (n : ℕ) → (incr_row k s).0 ≡ some n → n ≡ or_else (number_of k s) 0 + 1
number-reply k (zero, rows) n h = absurd (ground arith)
number-reply k (suc b, rows) n h = ground arith

pub number-mget :
    (keys : List String) (s : Rows) (values : List (Option ℕ))
    → some (map (λ k. number_of k s) keys) ≡ some values
    → values ≡ map (λ k. number_of k s) keys
number-mget keys s values h = ground arith

abbrev pub memory : Counters
memory = record {
  State = Rows;
  get = number_of;
  mget = λ keys s. some (map (λ k. number_of k s) keys);
  incr = incr_row;
  decr = decr_row;
  expire = expire_row;
  mget-get = number-mget;
  incr_reply = number-reply;
  get-incr = number-incr;
  get-decr = number-decr;
  get-expire = number-expire;
}
