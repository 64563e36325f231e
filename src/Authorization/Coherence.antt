-- ===== src/Authorization/Coherence.antt =====
-- Every entry under the marker is what the database holds, unless a change is to be announced.
use mathlib.Core.Path.{subst, subst⁻¹}
use nestjs_enterprise_starte.Authorization.{
  same_entry, Cache, EffectiveAccess, Db, State, entry_key, current_version, invalidate,
}
use nestjs_enterprise_starte.Prelude.{
  Bool-cases, arith, Option-cases, suc, ◌||◌, ◌&&◌, false, inr, true, inl, some, ◌≡◌, Bool, String,
  ℕ, refl,
}
use nestjs_enterprise_starte.Authorization.Steps.{
  invalidate-IsKept, IsBehind-kept, current_version_stored, IsGood-advanced, invalidate_advances,
  IsGood-kept, current_version-IsKept, IsCoherent, IsGood, IsBehind, IsKept, Shared, Step, Reach,
  begin, fetch, fill, change, announce, expire, here, next, All-Any, All-map,
}

module _ (T : Cache) where
  kept-IsCoherent :
      (s : Shared T) (t : State T)
      → IsKept T s.store t
      → IsCoherent T s
      → IsCoherent T (record s { store = t })
  kept-IsCoherent s t kept (entries, started, fetched) = (
    λ k access found.
        IsGood-kept T s.store t s.unannounced k access kept
          (entries k access (ground (arith, kept.1))),
    All-map (IsBehind T s.store) (IsBehind T t) s.started (λ k. IsBehind-kept T s.store t k kept)
        started,
    All-map (λ r. IsGood T s.store s.unannounced r.0 r.1) (λ r. IsGood T t s.unannounced r.0 r.1)
        s.fetched (λ r. IsGood-kept T s.store t s.unannounced r.0 r.1 kept) fetched,
  )

  IsBehind-advanced :
      (s t : State T) (k : String × ℕ)
      → ((n : ℕ) → s.version ≡ some n → t.version ≡ some (suc n))
      → IsBehind T s k
      → IsBehind T t k
  IsBehind-advanced s t (user, v) marker (n, set, behind) = (suc n, marker n set, ground arith)

  changed :
      (s : State T) (db : Db) (b : Bool) (k : String × ℕ) (access : EffectiveAccess)
      → IsGood T s b k access
      → IsGood T (record s { db = db }) true k access
  changed s db b (user, v) access (n, set, behind, fresh) =
      (n, set, behind, λ current clean. absurd (ground arith))

  -- a write of something good keeps every entry good
  filled :
      (s : Shared T) (user : String) (v : ℕ) (access : EffectiveAccess)
      → ((k : String × ℕ) (a : EffectiveAccess)
          → T.lookup k s.store.cache ≡ some a
          → IsGood T s.store s.unannounced k a)
      → IsGood T s.store s.unannounced (user, v) access
      → (k : String × ℕ) (a : EffectiveAccess)
      → T.lookup k (T.put (user, v) access s.store.cache) ≡ some a
      → IsGood T s.store s.unannounced k a
  filled s user v access entries good k a found = elim (Bool-cases (same_entry (user, v) k)) [
    | inl same ↦
        let stored : a ≡ access = ground (arith, T.lookup-put (user, v) k access s.store.cache) in
        subst⁻¹ (λ b. IsGood T s.store s.unannounced k b) stored
          (subst (λ j. IsGood T s.store s.unannounced j access)
            ((entry_key.same_iff (user, v) k).0 same) good)
    | inr apart ↦ entries k a (ground (arith, T.lookup-put (user, v) k access s.store.cache))
  ]

  announced :
      (s : Shared T) (seed_fails incr_fails : Bool) (now : ℕ)
      → seed_fails || incr_fails ≡ false
      → IsCoherent T s
      → IsCoherent T (record s {
        store = invalidate T seed_fails incr_fails now s.store;
        unannounced = (seed_fails || incr_fails) && s.unannounced;
      })
  announced s seed_fails incr_fails now went (entries, started, fetched) =
      let (same, marker) = invalidate_advances T seed_fails incr_fails now s.store went in
      (
        λ k a found.
            IsGood-advanced T s.store (invalidate T seed_fails incr_fails now s.store) s.unannounced
              ((seed_fails || incr_fails) && s.unannounced) k a marker
              (entries k a (ground (arith, same))),
        All-map (IsBehind T s.store) (IsBehind T (invalidate T seed_fails incr_fails now s.store))
            s.started
            (λ k.
              IsBehind-advanced s.store (invalidate T seed_fails incr_fails now s.store) k marker)
            started,
        All-map (λ r. IsGood T s.store s.unannounced r.0 r.1)
            (λ r.
              IsGood T (invalidate T seed_fails incr_fails now s.store)
                ((seed_fails || incr_fails) && s.unannounced) r.0 r.1)
            s.fetched
            (λ r.
              IsGood-advanced T s.store (invalidate T seed_fails incr_fails now s.store)
                s.unannounced ((seed_fails || incr_fails) && s.unannounced) r.0 r.1 marker)
            fetched,
      )

  Step-IsCoherent : {s t : Shared T} → Step T s t → IsCoherent T s → IsCoherent T t
  Step-IsCoherent {s = s} (begin faults now user) h =
      let kept =
        kept-IsCoherent s (current_version T faults now s.store).1
          (current_version-IsKept T faults now s.store) h in
      elim (Option-cases (current_version T faults now s.store).0) [
        | inl unread ↦ rw unread kept
        | inr (v, known) ↦ rw known (
          kept.0,
          ((v, current_version_stored T faults now s.store v known, ground arith), kept.1),
          kept.2,
        )
      ]
  Step-IsCoherent {s = s} (fetch user v member) (entries, started, fetched) =
      let (n, set, behind) = All-Any (IsBehind T s.store) s.started (user, v) started member in
      (entries, started, ((n, set, behind, λ current clean. refl), fetched))
  Step-IsCoherent {s = s} (fill user v access fails member) (entries, started, fetched) =
      let good =
        All-Any (λ r. IsGood T s.store s.unannounced r.0 r.1) s.fetched ((user, v), access) fetched
          member in
      elim (Bool-cases fails) [
        | inl lost ↦ rw lost (entries, started, fetched)
        | inr put ↦ rw put (filled s user v access entries good, started, fetched)
      ]
  Step-IsCoherent {s = s} (change db) (entries, started, fetched) = (
    λ k a found. changed s.store db s.unannounced k a (entries k a found),
    started,
    All-map (λ r. IsGood T s.store s.unannounced r.0 r.1)
        (λ r. IsGood T (record s.store { db = db }) true r.0 r.1) s.fetched
        (λ r. changed s.store db s.unannounced r.0 r.1) fetched,
  )
  Step-IsCoherent {s = s} (announce seed_fails incr_fails now) (entries, started, fetched) =
      elim (Bool-cases (seed_fails || incr_fails)) [
        | inl failed ↦ rw failed (
            kept-IsCoherent s (invalidate T seed_fails incr_fails now s.store)
              (invalidate-IsKept T seed_fails incr_fails now s.store failed)
              (entries, started, fetched))
        | inr went ↦ announced s seed_fails incr_fails now went (entries, started, fetched)
      ]
  Step-IsCoherent {s = s} (expire k) (entries, started, fetched) = (
    λ j a found. entries j a (ground (arith, T.lookup-remove k j s.store.cache)),
    started,
    fetched,
  )

  pub Reach-IsCoherent : {s t : Shared T} → IsCoherent T s → Reach T s t → IsCoherent T t
  Reach-IsCoherent h here = h
  Reach-IsCoherent h (next r step) = Step-IsCoherent step (Reach-IsCoherent h r)
