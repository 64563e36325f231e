-- ===== src/Mcp/Stuck.antt =====
-- A counter whose first expiry was rejected.
use nestjs_enterprise_starte.Prelude.{
  string_key, arith, true, suc, [], false, none, leb, some, ◌∷◌, Bool, ◌≤◌, ◌≡◌, List, ℕ, String,
  refl,
}
use nestjs_enterprise_starte.Common.Exec.{Result, ok, err}
use nestjs_enterprise_starte.Common.Errors.{other}
use nestjs_enterprise_starte.Common.Timed.{Timed, live}
use nestjs_enterprise_starte.Throttling.{Ceiling}
use nestjs_enterprise_starte.Mcp.Throttle.{hit, no_outage}

module _ (T : Timed) (key : String) (ceiling : Ceiling) where
  -- the answers to later hits, at any times
  pub answers : List ℕ → T.State → List (Result Bool)
  answers [] s = []
  answers (now ∷ times) s = let (a, s') = hit T no_outage now key ceiling s in a ∷ answers times s'

  -- the answers where each hit is the next one, and none is forgotten
  pub counting_on : ℕ → List ℕ → List (Result Bool)
  counting_on n [] = []
  counting_on n (now ∷ times) = ok (leb (suc n) ceiling.max) ∷ counting_on (suc n) times

  -- The counter holds a number for good.
  abbrev Holds : ℕ → T.State → Type 0
  Holds n s = (now : ℕ) → T.view now key s ≡ some (record { value = n; deadline = none })

  hit-Holds :
      (n now : ℕ) (s : T.State)
      → 1 ≤ n
      → Holds n s
      → ((hit T no_outage now key ceiling s).0 ≡ ok (leb (suc n) ceiling.max))
        × Holds (suc n) (hit T no_outage now key ceiling s).1
  unfolding hit live
  hit-Holds n now s some_before h = (
    ground (arith, T.incr_reply now key s, h now),
    λ later. ground (
      arith,
      T.incr_reply now key s,
      T.view-incr now later key key s,
      string_key.same_iff key key,
      h now,
    ),
  )

  answers-from :
      (times : List ℕ) (n : ℕ) (s : T.State)
      → 1 ≤ n
      → Holds n s
      → answers times s ≡ counting_on n times
  unfolding answers counting_on
  answers-from [] n s some_before h = refl
  answers-from (now ∷ times) n s some_before h =
      let (answer, after) = hit-Holds n now s some_before h in
      let rest =
        answers-from times (suc n) (hit T no_outage now key ceiling s).1 (omega arith) after in
      ground arith

  -- If the EXPIRE of the first hit of a fresh counter is rejected, that hit fails, and no later hit is
  -- ever forgotten: whatever the times of later hits, however far apart, the answers are those of a
  -- count that starts at one and never falls, so a user is refused for good after the ceiling.
  pub never_expires :
      (first : ℕ) (times : List ℕ) (s : T.State)
      → T.view first key s ≡ none
      → let (a, s') = hit T (record { incr = false; expire = true }) first key ceiling s in
        (a ≡ err (other "redis")) × (answers times s' ≡ counting_on 1 times)
  unfolding hit live
  never_expires first times s fresh = (
    ground (arith, T.incr_reply first key s),
    answers-from times 1 (hit T (record { incr = false; expire = true }) first key ceiling s).1
        (omega arith)
        (λ later. ground (
          arith,
          T.incr_reply first key s,
          T.view-incr first later key key s,
          string_key.same_iff key key,
        )),
  )
