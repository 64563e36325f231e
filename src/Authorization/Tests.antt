-- ===== src/Authorization/Tests.antt =====
-- A permission that is taken away while a request resolves it.
use nestjs_enterprise_starte.Authorization.{
  Cache, Route, Db, State, EffectiveAccess, entry_key, read_database, current_version, invalidate,
  resolve, can_activate,
}
use nestjs_enterprise_starte.Authorization.Steps.{
  Shared, Reach, begin, fetch, fill, change, announce, here, next,
}
use nestjs_enterprise_starte.Authorization.Granted.{is_permitted}
use nestjs_enterprise_starte.Authorization.Current.{guard_exact}
use nestjs_enterprise_starte.Authorization.Stale.{accepted, failed_invalidate_serves_stale}
use nestjs_enterprise_starte.Common.Table.{rows_table, search_rows}
use nestjs_enterprise_starte.Common.Exec.{ok}
use nestjs_enterprise_starte.Prelude.{
  ◌↔◌, ◌≡◌, [], ℕ, none, false, inl, some, true, ◌∷◌, String, refl,
}

abbrev cache_rows : Cache
cache_rows = rows_table (String × ℕ) EffectiveAccess entry_key

abbrev admin_db : Db
admin_db = record {
  user_roles = ("ann", "r1") ∷ [];
  roles = record { id = "r1"; name = "admin"; permissions = "user:read" ∷ [] } ∷ [];
}

abbrev reader_db : Db
reader_db = record {
  user_roles = ("ann", "r1") ∷ [];
  roles = record { id = "r1"; name = "admin"; permissions = [] } ∷ [];
}

abbrev route : Route
route = record {
  is_http = true;
  is_public = false;
  required_permissions = "user:read" ∷ [];
  accepted_roles = "admin" ∷ [];
}

abbrev empty : State cache_rows
empty = record { db = admin_db; version = some 7; cache = [] }

abbrev idle : Shared cache_rows
idle = record { store = empty; unannounced = false; started = []; fetched = [] }

opened : Unit {0}
unfolding current_version read_database invalidate resolve can_activate search_rows
opened = tt

abbrev access : EffectiveAccess
access = record { roles = "admin" ∷ []; permissions = "user:read" ∷ [] }

-- the request of Ann has read the marker and the roles before the change, and writes after it
abbrev after : Shared cache_rows
after = record {
  store = record { db = reader_db; version = some 8; cache = (("ann", 7), access) ∷ [] };
  unannounced = false;
  started = ("ann", 7) ∷ [];
  fetched = (("ann", 7), access) ∷ [];
}

history : Reach cache_rows idle after
unfolding opened
history =
    next
      (next
        (next (next (next here (begin accepted 1 "ann")) (fetch "ann" 7 (inl refl)))
          (change reader_db))
        (announce false false 2))
      (fill "ann" 7 access false (inl refl))

guard_exact_example :
    ((can_activate cache_rows route (some "ann") none accepted 3 after.store).0 ≡ ok tt)
    ↔ (is_permitted route reader_db "ann" ≡ true)
unfolding opened
guard_exact_example =
    guard_exact cache_rows {s = idle} {t = after} (λ k. refl, refl, refl) history refl route "ann"
      accepted 3 refl refl

failed_invalidate_serves_stale_example :
    (resolve cache_rows accepted 3 "ann" (
      invalidate cache_rows false true 2
        (record (resolve cache_rows accepted 1 "ann" empty).1 { db = reader_db }))).0
    ≡ access
unfolding opened
failed_invalidate_serves_stale_example =
    failed_invalidate_serves_stale cache_rows 1 2 3 "ann" empty reader_db false true refl
