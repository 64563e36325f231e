-- ===== src/Authorization/Stale.antt =====
-- An announcement that Redis rejects.
use nestjs_enterprise_starte.Authorization.{
  Cache, Faults, Db, State, entry_key, read_database, current_version, resolve, invalidate,
  EffectiveAccess,
}
use nestjs_enterprise_starte.Prelude.{
  ◌&&◌, not, if◌then◌else◌, ◌+◌, inr, inl, Option-cases, arith, true, or_else, some, ◌||◌, ◌≡◌,
  Bool, String, false, ℕ,
}

-- no command is rejected
abbrev pub accepted : Faults
accepted = record { seed = false; version = false; read = false; write = false }

module _ (T : Cache) where
  -- a resolve whose commands go through leaves its answer under the marker
  resolve_stores :
      (now : ℕ) (user : String) (s : State T)
      → let (access, t) = resolve T accepted now user s in
        (t.version ≡ some (or_else s.version now))
        × (T.lookup (user, or_else s.version now) t.cache ≡ some access)
  unfolding resolve current_version
  resolve_stores now user s = elim (Option-cases (T.lookup (user, or_else s.version now) s.cache)) [
    | inl missed ↦ (
      ground arith,
      ground (
        arith,
        T.lookup-put (user, or_else s.version now) (user, or_else s.version now)
            (read_database s.db user) s.cache,
        entry_key.same_iff (user, or_else s.version now) (user, or_else s.version now),
      ),
    )
    | inr (access, hit) ↦ (ground arith, ground arith)
  ]

  -- a resolve that finds its answer under the marker returns it
  resolve_hits :
      (now v : ℕ) (user : String) (s : State T) (access : EffectiveAccess)
      → s.version ≡ some v
      → T.lookup (user, v) s.cache ≡ some access
      → (resolve T accepted now user s).0 ≡ access
  unfolding resolve current_version
  resolve_hits now v user s access set hit = ground arith

  -- If, of all commands, Redis rejects only the announcement of a change of roles, a user whose access
  -- was resolved before is answered the same access afterwards, whatever the database holds now, as
  -- long as no entry is gone.
  pub failed_invalidate_serves_stale :
      (now now' now'' : ℕ) (user : String) (s : State T) (db : Db) (seed_fails incr_fails : Bool)
      → seed_fails || incr_fails ≡ true
      → let (access, t) = resolve T accepted now user s in
        (resolve T accepted now'' user
          (invalidate T seed_fails incr_fails now' (record t { db = db }))).0
        ≡ access
  unfolding invalidate
  failed_invalidate_serves_stale now now' now'' user s db seed_fails incr_fails failed =
      let (access, t) = resolve T accepted now user s in
      let (set, stored) = resolve_stores now user s in
      resolve_hits now'' (or_else s.version now) user
        (invalidate T seed_fails incr_fails now' (record t { db = db })) access (ground arith)
        (ground arith)

-- A call of `invalidate` whose commands are accepted raises the marker, as a reader finds it, by one,
-- and any other leaves it.
pub invalidate-version :
    (T : Cache) (seed_fails incr_fails : Bool) (now : ℕ) (s : State T)
    → or_else (invalidate T seed_fails incr_fails now s).version now
      ≡ or_else s.version now + (if not seed_fails && not incr_fails then 1 else 0)
unfolding invalidate
invalidate-version T seed_fails incr_fails now s = elim (Option-cases s.version) [
  | inl fresh ↦ ground arith
  | inr (v, found) ↦ ground arith
]
