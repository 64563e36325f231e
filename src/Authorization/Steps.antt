-- ===== src/Authorization/Steps.antt =====
-- Requests that resolve permissions, changes of roles and their announcements, as steps.
use mathlib.Core.Path.{subst}
use nestjs_enterprise_starte.Authorization.{
  Cache, Faults, EffectiveAccess, Db, State, entry_key, read_database, current_version, write_cache,
  invalidate,
}
use nestjs_enterprise_starte.Prelude.{
  sym, ap, arith, suc, ◌∙◌, ◌||◌, ◌&&◌, false, inr, true, [], ◌≤◌, inl, none, ◌∷◌, some, ◌∷◌, ◌≡◌,
  Any, Option, All, Bool, List, String, ℕ,
}

pub All-Any :
    {A : Type 0} (P : A → Type 0) (xs : List A) (a : A) → All P xs → Any (λ x. x ≡ a) xs → P a
All-Any P [] a h member = elim member [ ]
All-Any P (x ∷ xs) a (h, hs) (inl same) = subst P same h
All-Any P (x ∷ xs) a (h, hs) (inr later) = All-Any P xs a hs later

pub All-map :
    {A : Type 0} (P Q : A → Type 0) (xs : List A) → ((a : A) → P a → Q a) → All P xs → All Q xs
All-map P Q [] f h = tt
All-map P Q (x ∷ xs) f (h, hs) = (f x h, All-map P Q xs f hs)

module _ (T : Cache) where
  -- The stores, whether a change of roles was committed and not announced yet, the requests that have
  -- read the marker, with what they read, and those that have also read the database.
  pub record Shared : Type 0 where
    pub store : State T
    pub unannounced : Bool
    pub started : List (String × ℕ)
    pub fetched : List ((String × ℕ) × EffectiveAccess)

  abbrev pub start : String → Option ℕ → List (String × ℕ) → List (String × ℕ)
  start user none started = started
  start user (some v) started = (user, v) ∷ started

  -- What may happen next. A request may stop anywhere, so what it has read is kept.
  pub data Step : Shared → Shared → Type 0 where
    begin :
        {s : Shared} (faults : Faults) (now : ℕ) (user : String)
        → Step s (record s {
          store = (current_version T faults now s.store).1;
          started = start user (current_version T faults now s.store).0 s.started;
        })
    fetch :
        {s : Shared} (user : String) (v : ℕ)
        → Any (λ r. r ≡ (user, v)) s.started
        → Step s (record s { fetched = ((user, v), read_database s.store.db user) ∷ s.fetched })
    fill :
        {s : Shared} (user : String) (v : ℕ) (access : EffectiveAccess) (fails : Bool)
        → Any (λ r. r ≡ ((user, v), access)) s.fetched
        → Step s (record s { store = write_cache T fails user v access s.store })
    change :
        {s : Shared} (db : Db)
        → Step s (record s { store = record s.store { db = db }; unannounced = true })
    announce :
        {s : Shared} (seed_fails incr_fails : Bool) (now : ℕ)
        → Step s (record s {
          store = invalidate T seed_fails incr_fails now s.store;
          unannounced = (seed_fails || incr_fails) && s.unannounced;
        })
    expire :
        {s : Shared} (k : String × ℕ)
        → Step s (record s { store = record s.store { cache = T.remove k s.store.cache } })

  pub data Reach (s : Shared) : Shared → Type 0 where
    here : Reach s s
    next : {t u : Shared} → Reach s t → Step t u → Reach s u

  -- what was read under a version that is not ahead of the marker, and is current unless a change is
  -- to be announced
  abbrev pub IsGood : State T → Bool → String × ℕ → EffectiveAccess → Type 0
  IsGood store unannounced (user, v) access =
      (n : ℕ) × (store.version ≡ some n)
      × (v ≤ n)
      × ((v ≡ n) → (unannounced ≡ false) → access ≡ read_database store.db user)

  abbrev pub IsBehind : State T → String × ℕ → Type 0
  IsBehind store (user, v) = (n : ℕ) × (store.version ≡ some n) × (v ≤ n)

  abbrev pub IsCoherent : Shared → Type 0
  IsCoherent s =
      ((k : String × ℕ) (access : EffectiveAccess)
        → T.lookup k s.store.cache ≡ some access
        → IsGood s.store s.unannounced k access)
      × All (IsBehind s.store) s.started
      × All (λ r. IsGood s.store s.unannounced r.0 r.1) s.fetched

  -- the two stores hold the same rows and entries, and a marker that is set stays as it is
  abbrev pub IsKept : State T → State T → Type 0
  IsKept s t =
      (t.db ≡ s.db) × (t.cache ≡ s.cache) × ((n : ℕ) → s.version ≡ some n → t.version ≡ some n)

  pub current_version-IsKept :
      (faults : Faults) (now : ℕ) (s : State T) → IsKept s (current_version T faults now s).1
  unfolding current_version
  current_version-IsKept faults now s = (ground arith, ground arith, λ n h. ground arith)

  -- a marker that was read is the one that is stored
  pub current_version_stored :
      (faults : Faults) (now : ℕ) (s : State T) (v : ℕ)
      → (current_version T faults now s).0 ≡ some v
      → (current_version T faults now s).1.version ≡ some v
  unfolding current_version
  current_version_stored faults now s v h = ground arith

  pub invalidate-IsKept :
      (seed_fails incr_fails : Bool) (now : ℕ) (s : State T)
      → seed_fails || incr_fails ≡ true
      → IsKept s (invalidate T seed_fails incr_fails now s)
  unfolding invalidate
  invalidate-IsKept seed_fails incr_fails now s h =
      (ground arith, ground arith, λ n g. ground arith)

  pub invalidate_advances :
      (seed_fails incr_fails : Bool) (now : ℕ) (s : State T)
      → seed_fails || incr_fails ≡ false
      → let t = invalidate T seed_fails incr_fails now s in
        (t.cache ≡ s.cache) × ((n : ℕ) → s.version ≡ some n → t.version ≡ some (suc n))
  unfolding invalidate
  invalidate_advances seed_fails incr_fails now s h = (ground arith, λ n g. ground arith)

  pub IsGood-kept :
      (s t : State T) (b : Bool) (k : String × ℕ) (access : EffectiveAccess)
      → IsKept s t
      → IsGood s b k access
      → IsGood t b k access
  IsGood-kept s t b (user, v) access (rows, entries, marker) (n, set, behind, fresh) = (
    n,
    marker n set,
    behind,
    λ current clean. fresh current clean ∙ ap (λ db. read_database db user) (sym rows),
  )

  pub IsBehind-kept : (s t : State T) (k : String × ℕ) → IsKept s t → IsBehind s k → IsBehind t k
  IsBehind-kept s t (user, v) (rows, entries, marker) (n, set, behind) = (n, marker n set, behind)

  -- what was good under a marker that has advanced since is old, and so good for ever
  pub IsGood-advanced :
      (s t : State T) (b c : Bool) (k : String × ℕ) (access : EffectiveAccess)
      → ((n : ℕ) → s.version ≡ some n → t.version ≡ some (suc n))
      → IsGood s b k access
      → IsGood t c k access
  IsGood-advanced s t b c (user, v) access marker (n, set, behind, fresh) =
      (suc n, marker n set, ground arith, λ current. absurd (ground arith))
