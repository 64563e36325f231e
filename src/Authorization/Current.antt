-- ===== src/Authorization/Current.antt =====
-- When every change of roles is announced, the cache answers what the database holds.
use mathlib.Core.Path.{subst⁻¹}
use nestjs_enterprise_starte.Authorization.{
  read_cache, Cache, Faults, Route, entry_key, read_database, current_version, resolve, decide,
  can_activate,
}
use nestjs_enterprise_starte.Authorization.Granted.{
  is_permitted_free, is_permitted, decide-read_database,
}
use nestjs_enterprise_starte.Common.Exec.{ok}
use nestjs_enterprise_starte.Prelude.{
  is_empty, if◌then◌else◌, ◌↔◌, Bool-cases, arith, Option-cases, ◌&&◌, false, inr, true, [], inl,
  none, some, ◌≡◌, All, String, ℕ,
}
use nestjs_enterprise_starte.Authorization.Steps.{
  current_version_stored, current_version-IsKept, IsGood, IsBehind, Shared, Reach,
}
use nestjs_enterprise_starte.Authorization.Coherence.{Reach-IsCoherent}

module _ (T : Cache) where
  -- nothing is cached and no request runs
  abbrev pub IsFresh : Shared T → Type 0
  IsFresh s =
      ((k : String × ℕ) → T.lookup k s.store.cache ≡ none) × (s.started ≡ []) × (s.fetched ≡ [])

  -- Once every change of roles has been announced, a request is answered what the database holds,
  -- whichever of its commands Redis rejects.
  pub resolve_current :
      {s t : Shared T}
      → IsFresh s
      → Reach T s t
      → t.unannounced ≡ false
      → (faults : Faults) (now : ℕ) (user : String)
      → (resolve T faults now user t.store).0 ≡ read_database t.store.db user
  unfolding resolve
  resolve_current {s} {t} (empty, idle, unread) r clean faults now user =
      let (entries, started, fetched) =
        Reach-IsCoherent T
          (
            λ k a found. absurd (ground (arith, empty k)),
            subst⁻¹ (All (IsBehind T s.store)) idle tt,
            subst⁻¹ (All (λ q. IsGood T s.store s.unannounced q.0 q.1)) unread tt,
          )
          r in
      let (rows, same, marker) = current_version-IsKept T faults now t.store in
      elim (Option-cases (current_version T faults now t.store).0) [
        | inl unread_marker ↦ ground (arith, rows)
        | inr (v, known) ↦
            elim (Option-cases
              (read_cache T faults.read user v (current_version T faults now t.store).1)) [
                | inl missed ↦ ground (arith, rows)
                | inr (access, hit) ↦
                    let (n, set, behind, current) =
                      entries (user, v) access (ground (arith, same)) in
                    ground (
                      arith,
                      current
                          (ground (
                            arith,
                            marker n set,
                            current_version_stored T faults now t.store v known,
                          ))
                          clean,
                    )
              ]
      ]

  -- From a state with an empty cache, under every interleaving of requests that read the marker, the
  -- database and the cache, of changes of roles and of their announcements, with entries that are
  -- gone and commands that are rejected: once every change has been announced, the guard of an HTTP
  -- route that is not public lets an authenticated user, whose request carries no access yet, through
  -- exactly if the database holds every permission that the route requires and one of the roles that
  -- it accepts, if it names any.
  pub guard_exact :
      {s t : Shared T}
      → IsFresh s
      → Reach T s t
      → t.unannounced ≡ false
      → (route : Route) (user : String) (faults : Faults) (now : ℕ) → route.is_http ≡ true
      → route.is_public ≡ false
      → ((can_activate T route (some user) none faults now t.store).0 ≡ ok tt)
        ↔ (is_permitted route t.store.db user ≡ true)
  unfolding can_activate
  guard_exact {s} {t} fresh r clean route user faults now http private =
      let current = resolve_current fresh r clean faults now user in
      let (once, back) = decide-read_database route t.store.db user in
      let free : ((can_activate T route (some user) none faults now t.store).0 ≡ (
          if is_empty route.required_permissions && is_empty route.accepted_roles
          then ok tt
          else decide route (read_database t.store.db user))) =
        ground (arith, current) in
      elim (Bool-cases (is_empty route.required_permissions && is_empty route.accepted_roles)) [
        | inl nothing ↦
            (λ h. is_permitted_free route t.store.db user nothing, λ h. ground (arith, free))
        | inr something ↦ (λ h. once (ground (arith, free)), λ h. ground (arith, free, back h))
      ]
