-- ===== src/Common/Timed.antt =====
-- What the limiters rely on of Redis counters with a time to live, at a time in milliseconds: what a
-- key holds as long as its deadline is ahead, and what INCR, PEXPIRE and SET PX make of it.
use nestjs_enterprise_starte.Prelude.{
  inr, inl, Option-cases, string_key, arith, ◌===◌, ltb, ◌-◌, if◌then◌else◌, none, some, ◌≡◌,
  Option, List, String, ℕ, ◌+◌, refl,
}
use nestjs_enterprise_starte.Common.Object.{get_key-set_key, set_key, get_key}

-- a number under a key, with its deadline if it has one
pub record Entry : Type 0 where
  pub value : ℕ
  pub deadline : Option ℕ

-- an entry at a time: it is gone from its deadline on
unfoldable pub live : ℕ → Entry → Option Entry
live now e = elim e.deadline [ none ↦ some e | some d ↦ if ltb now d then some e else none ]

-- the entry that INCR leaves
abbrev pub bumped : Option Entry → Entry
bumped none = record { value = 1; deadline = none }
bumped (some e) = record e { value = e.value + 1 }

-- the entry that PEXPIRE leaves
abbrev pub expiring : ℕ → Option Entry → Option Entry
expiring d none = none
expiring d (some e) = some (record e { deadline = some d })

abbrev pub live_one : ℕ → Option Entry → Option Entry
live_one later none = none
live_one later (some e) = live later e

pub record Timed : Type 1 where
  pub State : Type 0
  pub view : ℕ → String → State → Option Entry
  pub incr : ℕ → String → State → ℕ × State
  pub pexpire : ℕ → String → ℕ → State → State
  pub set_px : ℕ → String → ℕ → State → State
  pub incr_reply :
      (now : ℕ) (k : String) (s : State) → (incr now k s).0 ≡ (bumped (view now k s)).value
  pub view-incr :
      (now later : ℕ) (k j : String) (s : State)
      → view later j (incr now k s).1
        ≡ (if k === j then live later (bumped (view now k s)) else view later j s)
  pub view-pexpire :
      (now later ms : ℕ) (k j : String) (s : State)
      → view later j (pexpire now k ms s)
        ≡ (if k === j then live_one later (expiring (now + ms) (view now k s)) else view later j s)
  pub view-set_px :
      (now later ms : ℕ) (k j : String) (s : State)
      → view later j (set_px now k ms s) ≡ (
          if k === j
          then live later (record { value = 1; deadline = some (now + ms) })
          else view later j s)

-- the milliseconds that PTTL answers for a live entry with a deadline; it is negative for others
abbrev pub pttl : (T : Timed) → ℕ → String → T.State → Option ℕ
pttl T now k s = elim (T.view now k s) [
  | none ↦ none
  | some e ↦ elim e.deadline [ none ↦ none | some d ↦ some (d - now) ]
]

-- counters as a list of keys with their entries
abbrev pub Rows : Type 0
Rows = List (String × Entry)

abbrev pub seen : ℕ → String → Rows → Option Entry
seen now k rows = live_one now (get_key k rows)

-- an entry, or one that is gone
abbrev pub with_entry : String → Option Entry → Rows → Rows
with_entry k none rows = set_key k (record { value = 0; deadline = some 0 }) rows
with_entry k (some e) rows = set_key k e rows

pub seen-set :
    (later : ℕ) (k j : String) (e : Entry) (rows : Rows)
    → seen later j (set_key k e rows) ≡ (if k === j then live later e else seen later j rows)
seen-set later k j e rows = ground (arith, get_key-set_key k j e rows, string_key.same_iff k j)

pub seen-expire :
    (now later ms : ℕ) (k j : String) (rows : Rows)
    → seen later j (with_entry k (expiring (now + ms) (seen now k rows)) rows) ≡ (
        if k === j
        then live_one later (expiring (now + ms) (seen now k rows))
        else seen later j rows)
unfolding live
seen-expire now later ms k j rows = elim (Option-cases (seen now k rows)) [
  | inl gone ↦
      rw gone (ground (arith, seen-set later k j (record { value = 0; deadline = some 0 }) rows))
  | inr (e, found) ↦ rw found (seen-set later k j (record e { deadline = some (now + ms) }) rows)
]

abbrev pub memory : Timed
memory = record {
  State = Rows;
  view = seen;
  incr =
      λ now k rows. ((bumped (seen now k rows)).value, set_key k (bumped (seen now k rows)) rows);
  pexpire = λ now k ms rows. with_entry k (expiring (now + ms) (seen now k rows)) rows;
  set_px = λ now k ms rows. set_key k (record { value = 1; deadline = some (now + ms) }) rows;
  incr_reply = λ now k rows. refl;
  view-incr = λ now later k j rows. seen-set later k j (bumped (seen now k rows)) rows;
  view-pexpire = seen-expire;
  view-set_px = λ now later ms k j rows. seen-set later k j _ rows;
}
