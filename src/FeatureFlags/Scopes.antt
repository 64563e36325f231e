-- ===== src/FeatureFlags/Scopes.antt =====
-- What is left of a flag when the override of a user is cleared.
use nestjs_enterprise_starte.Common.Exec.{error_code}
use nestjs_enterprise_starte.Common.Rows.{delete_rows, Rows}
use nestjs_enterprise_starte.FeatureFlags.{
  flag_value, is_enabled, for_organization, for_user, for_scope, clear_override, FlagContext,
  Override,
}
use nestjs_enterprise_starte.Prelude.{
  [], inr, arith, inl, ◌∷◌, ◌⊎◌, none, Bool, find, All, some, List, Option, ◌≡◌, String, refl,
}

-- No row has both a user and an organization.
abbrev pub OneScope : Override → Type 0
OneScope row = (row.user_id ≡ none) ⊎ (row.organization_id ≡ none)

abbrev pub user_scope : String → FlagContext
user_scope user = record { user_id = some user; organization_id = none }

find-cleared :
    (key user : String) (rows : List Override)
    → All OneScope rows
    → find (for_user key user) (delete_rows (for_scope key (user_scope user)) rows) ≡ none
find-cleared key user [] h = refl
find-cleared key user (row ∷ rows) (inl e, h) = ground (arith, find-cleared key user rows h)
find-cleared key user (row ∷ rows) (inr e, h) = ground (arith, find-cleared key user rows h)

find-organization :
    (key user org : String) (rows : List Override)
    → find (for_organization key org) (delete_rows (for_scope key (user_scope user)) rows)
      ≡ find (for_organization key org) rows
find-organization key user org [] = refl
find-organization key user org (row ∷ rows) = ground (arith, find-organization key user org rows)

find-global :
    (key user : String) (rows : List Override)
    → find
        (for_scope key (record { user_id = none; organization_id = none }))
        (delete_rows (for_scope key (user_scope user)) rows)
      ≡ find (for_scope key (record { user_id = none; organization_id = none })) rows
find-global key user [] = refl
find-global key user (row ∷ rows) = ground (arith, find-global key user rows)

module _ (F : Rows Override) (env_default : String → Option Bool) where
  value_cleared :
      (key user : String) (org : Option String) (s : F.State)
      → All OneScope (F.rows s)
      → flag_value F env_default key
          (record { user_id = some user; organization_id = org })
          (F.delete (for_scope key (user_scope user)) s)
        ≡ flag_value F env_default key (record { user_id = none; organization_id = org }) s
  unfolding flag_value
  value_cleared key user none s one = ground (
    arith,
    F.rows-delete (for_scope key (user_scope user)) s,
    find-cleared key user (F.rows s) one,
    find-global key user (F.rows s),
  )
  value_cleared key user (some org) s one = ground (
    arith,
    F.rows-delete (for_scope key (user_scope user)) s,
    find-cleared key user (F.rows s) one,
    find-organization key user org (F.rows s),
    find-global key user (F.rows s),
  )

  -- After a successful clear of the override of a user, a flag has for the user, in whatever
  -- organization, the value that it had without a user, if no row has both a user and an
  -- organization.
  pub flag_value-clear_override :
      (key user : String) (org : Option String) (s : F.State)
      → All OneScope (F.rows s)
      → error_code (clear_override F env_default key (user_scope user) s).0 ≡ none
      → (is_enabled F env_default key
          (record { user_id = some user; organization_id = org })
          (clear_override F env_default key (user_scope user) s).1).0
        ≡ (is_enabled F env_default key (record { user_id = none; organization_id = org }) s).0
  unfolding clear_override is_enabled
  flag_value-clear_override key user org s one h = ground (arith, value_cleared key user org s one)
