-- ===== src/Throttling/Windows.antt =====
-- Requests within one window: the storage admits what a plain count of earlier requests admits.
use nestjs_enterprise_starte.Throttling.Keys.{
  hits_key_apart, block_key_apart, hits_key_same, block_key_same,
}
use mathlib.Core.Path.{subst⁻¹}
use nestjs_enterprise_starte.Throttling.{
  Policy, no_faults, increment, hits_key, block_key, generate_key,
}
use nestjs_enterprise_starte.Common.Timed.{Timed, live}
use nestjs_enterprise_starte.Prelude.{
  Bool-cases, inr, ◌∙◌, suc, inl, ◌⊎◌, string_key, string_key, ◌<◌, ◌≤◌, arith, ◌+◌, some, ◌===◌,
  none, false, ltb, ◌≡◌, ℕ, String,
}
use nestjs_enterprise_starte.Throttling.Counted.{is_admitted}
use nestjs_enterprise_starte.Throttling.Effects.{closed, blocked_effect, first_effect, later_effect}

module _ (T : Timed) (name : String) (until : ℕ) where
  -- what the keys of a caller hold until the end of the window, after a number of requests
  abbrev pub IsCounted : String → ℕ → ℕ → T.State → Type 0
  IsCounted key limit n s =
      ((n ≡ 0)
        × ((t : ℕ)
            → t < until
            → (T.view t (block_key name key) s ≡ none) × (T.view t (hits_key name key) s ≡ none)))
      ⊎ ((1 ≤ n)
          × (n ≤ limit)
          × ((d : ℕ) × (until ≤ d)
              × ((t : ℕ)
                  → t < until
                  → (T.view t (block_key name key) s ≡ none)
                    × (T.view t (hits_key name key) s
                        ≡ some (record { value = n; deadline = some d })))))
      ⊎ ((limit < n)
          × ((d : ℕ) × (until ≤ d)
              × ((t : ℕ)
                  → t < until
                  → T.view t (block_key name key) s
                    ≡ some (record { value = 1; deadline = some d }))))

  -- keys that are left alone
  IsCounted-apart :
      (key : String) (limit n : ℕ) (s t : T.State)
      → ((now : ℕ)
          → (T.view now (block_key name key) t ≡ T.view now (block_key name key) s)
            × (T.view now (hits_key name key) t ≡ T.view now (hits_key name key) s))
      → IsCounted key limit n s
      → IsCounted key limit n t
  IsCounted-apart key limit n s t same (inl (none_yet, h)) =
      inl (none_yet, λ now early. ((same now).0 ∙ (h now early).0, (same now).1 ∙ (h now early).1))
  IsCounted-apart key limit n s t same (inr (inl (some_yet, below, (d, far, h)))) = inr (
      inl (
        some_yet,
        below,
        (d, far, λ now early. ((same now).0 ∙ (h now early).0, (same now).1 ∙ (h now early).1)),
      ))
  IsCounted-apart key limit n s t same (inr (inr (over, (d, far, h)))) =
      inr (inr (over, (d, far, λ now early. (same now).0 ∙ h now early)))

  module _ (now ttl limit bd : ℕ) (p : Policy) (tracker : String) (early : now < until)
      (window : until ≤ now + ttl) (blocks : until ≤ now + bd) where
    abbrev key : String
    key = generate_key p tracker

    abbrev hk : String
    hk = hits_key name key

    abbrev bk : String
    bk = block_key name key

    shut : (n : ℕ) (u : T.State) → limit < n → IsCounted key limit n (T.set_px now bk bd u)
    unfolding live
    shut n u over = inr (
        inr (
          over,
          (
            now + bd,
            blocks,
            λ t soon. ground (arith, T.view-set_px now t bd bk bk u, string_key.same_iff bk bk),
          ),
        ))

    open_first :
        (s : T.State)
        → 1 ≤ limit
        → ((t : ℕ) → t < until → (T.view t bk s ≡ none) × (T.view t hk s ≡ none))
        → IsCounted key limit 1 (T.pexpire now hk ttl (T.incr now hk s).1)
    unfolding live
    open_first s room h = inr (
        inl (
          omega arith,
          room,
          (
            now + ttl,
            window,
            λ t soon. (
              ground (
                arith,
                T.view-pexpire now t ttl hk bk (T.incr now hk s).1,
                T.view-incr now t hk bk s,
                hits_key_apart name p p tracker tracker,
                h t soon,
              ),
              ground (
                arith,
                T.view-pexpire now t ttl hk hk (T.incr now hk s).1,
                T.view-incr now now hk hk s,
                string_key.same_iff hk hk,
                h now early,
              ),
            ),
          ),
        ))

    open_later :
        (n d : ℕ) (s : T.State)
        → suc n ≤ limit
        → until ≤ d
        → ((t : ℕ)
            → t < until
            → (T.view t bk s ≡ none)
              × (T.view t hk s ≡ some (record { value = n; deadline = some d })))
        → IsCounted key limit (suc n) (T.incr now hk s).1
    unfolding live
    open_later n d s room far h = inr (
        inl (
          omega arith,
          room,
          (
            d,
            far,
            λ t soon. (
              ground (
                arith,
                T.view-incr now t hk bk s,
                hits_key_apart name p p tracker tracker,
                h t soon,
              ),
              ground (arith, T.view-incr now t hk hk s, string_key.same_iff hk hk, h now early),
            ),
          ),
        ))

    -- the requests of a caller are counted
    pub counts :
        (n : ℕ) (s : T.State)
        → IsCounted key limit n s
        → let (r, t) = increment T no_faults now key ttl limit bd name s in
          (is_admitted r ≡ ltb n limit) × IsCounted key limit (suc n) t
    counts n s (inl (none_yet, h)) =
        let (free, fresh) = h now early in
        let (answer, state) = first_effect T name now ttl limit bd key s free fresh in
        (
          ground arith,
          subst⁻¹ (IsCounted key limit (suc n)) state (
              subst⁻¹
                (λ m.
                  IsCounted key limit (suc m) (
                    closed T name now ttl limit bd key 1
                      (T.pexpire now hk ttl (T.incr now hk s).1)))
                none_yet
                (elim (Bool-cases (ltb limit 1)) [
                  | inl over ↦
                      rw over (shut 1 (T.pexpire now hk ttl (T.incr now hk s).1) (ground arith))
                  | inr room ↦ rw room (open_first s (ground arith) h)
                ])),
        )
    counts n s (inr (inl (some_yet, below, (d, far, h)))) =
        let (free, seen) = h now early in
        let (answer, state) =
          later_effect T name now ttl limit bd key s n d free seen some_yet (omega arith) in
        (
          ground arith,
          subst⁻¹ (IsCounted key limit (suc n)) state (elim (Bool-cases (ltb limit (n + 1))) [
            | inl over ↦ rw over (shut (suc n) (T.incr now hk s).1 (ground arith))
            | inr room ↦ rw room (open_later n d s (ground arith) far h)
          ]),
        )
    counts n s (inr (inr (over, (d, far, h)))) =
        let (answer, state) =
          blocked_effect T name now ttl limit bd key s 1 d (h now early) (omega arith) in
        (
          ground arith,
          subst⁻¹ (IsCounted key limit (suc n)) state (inr (inr (omega arith, (d, far, h)))),
        )

    module _ (q : Policy) (other : String) (most n : ℕ)
        (apart : (key === generate_key q other) ≡ false) where
      abbrev Theirs : T.State → Type 0
      Theirs = IsCounted (generate_key q other) most n

      incr_apart : (s : T.State) → Theirs s → Theirs (T.incr now hk s).1
      incr_apart s = IsCounted-apart (generate_key q other) most n s (T.incr now hk s).1 (λ t. (
        ground (
          arith,
          T.view-incr now t hk (block_key name (generate_key q other)) s,
          hits_key_apart name p q tracker other,
        ),
        ground (
          arith,
          T.view-incr now t hk (hits_key name (generate_key q other)) s,
          hits_key_same name key (generate_key q other),
        ),
      ))

      pexpire_apart : (s : T.State) → Theirs s → Theirs (T.pexpire now hk ttl s)
      pexpire_apart s =
          IsCounted-apart (generate_key q other) most n s (T.pexpire now hk ttl s) (λ t. (
            ground (
              arith,
              T.view-pexpire now t ttl hk (block_key name (generate_key q other)) s,
              hits_key_apart name p q tracker other,
            ),
            ground (
              arith,
              T.view-pexpire now t ttl hk (hits_key name (generate_key q other)) s,
              hits_key_same name key (generate_key q other),
            ),
          ))

      set_px_apart : (s : T.State) → Theirs s → Theirs (T.set_px now bk bd s)
      set_px_apart s = IsCounted-apart (generate_key q other) most n s (T.set_px now bk bd s) (λ t.
          (
            ground (
              arith,
              T.view-set_px now t bd bk (block_key name (generate_key q other)) s,
              block_key_same name key (generate_key q other),
            ),
            ground (
              arith,
              T.view-set_px now t bd bk (hits_key name (generate_key q other)) s,
              block_key_apart name p q tracker other,
            ),
          ))

      closed_apart :
          (hits : ℕ) (s : T.State) → Theirs s → Theirs (closed T name now ttl limit bd key hits s)
      closed_apart hits s k = elim (Bool-cases (ltb limit hits)) [
        | inl over ↦ rw over (set_px_apart s k)
        | inr room ↦ rw room k
      ]

      -- the requests of another caller, or of the caller under another policy, are not
      pub untouched :
          (m : ℕ) (s : T.State)
          → IsCounted key limit m s
          → Theirs s
          → Theirs (increment T no_faults now key ttl limit bd name s).1
      untouched m s (inl (none_yet, h)) k =
          let (free, fresh) = h now early in
          subst⁻¹ Theirs (first_effect T name now ttl limit bd key s free fresh).1 (
            closed_apart 1 (T.pexpire now hk ttl (T.incr now hk s).1)
              (pexpire_apart (T.incr now hk s).1 (incr_apart s k)))
      untouched m s (inr (inl (some_yet, below, (d, far, h)))) k =
          let (free, seen) = h now early in
          subst⁻¹ Theirs
            (later_effect T name now ttl limit bd key s m d free seen some_yet (omega arith)).1
            (closed_apart (m + 1) (T.incr now hk s).1 (incr_apart s k))
      untouched m s (inr (inr (over, (d, far, h)))) k =
          subst⁻¹ Theirs
            (blocked_effect T name now ttl limit bd key s 1 d (h now early) (omega arith)).1 k
