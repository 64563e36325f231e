-- ===== src/FeatureFlags.antt =====
-- src/modules/feature-flags/feature-flags.service.ts and feature-flags.catalogue.ts. The table is
-- searched in its order; the ids of new rows are arguments.
pub mod Scopes
mod Tests
use nestjs_enterprise_starte.Common.Errors.{other, Thrown}
use nestjs_enterprise_starte.Common.Rows.{Rows}
use nestjs_enterprise_starte.Common.Exec.{gets, modify, throw_if, Exec, ◌>>=◌, ◌>>◌}
use nestjs_enterprise_starte.Prelude.{
  false, true, not, string_key, none, ◌&&◌, or_else, any, find, if◌then◌else◌, ◌===◌, [], Bool, ◌∷◌,
  some, String, Option, List, refl,
}

-- `FEATURE_FLAGS`
abbrev pub email_low_balance : String
email_low_balance = "email.low_balance"

abbrev pub org_billing : String
org_billing = "org.billing"

-- `FEATURE_FLAG_LIST`
abbrev pub feature_flag_list : List String
feature_flag_list = email_low_balance ∷ org_billing ∷ []

-- `FEATURE_FLAG_CODE_DEFAULTS`
abbrev pub code_default : String → Bool
code_default key = key === org_billing

-- a row of `feature_flag_overrides`
pub record Override : Type 0 where
  pub id : String
  pub flag_key : String
  pub enabled : Bool
  pub user_id : Option String
  pub organization_id : Option String

-- `FeatureFlagContext`, and the scope of an override
pub record FlagContext : Type 0 where
  pub user_id : Option String
  pub organization_id : Option String

-- a value of an optional column or field
abbrev pub same_option : Option String → Option String → Bool
same_option none none = true
same_option (some a) (some b) = a === b
same_option _ _ = false

-- a field that is set and not the empty text
abbrev pub truthy : Option String → Option String
truthy none = none
truthy (some a) = if a === "" then none else some a

-- the filters of `isEnabled`
abbrev pub for_user : String → String → Override → Bool
for_user key user row = row.flag_key === key && same_option row.user_id (some user)

abbrev pub for_organization : String → String → Override → Bool
for_organization key org row = row.flag_key === key && same_option row.organization_id (some org)

-- `where` with a value or null in both columns
abbrev pub for_scope : String → FlagContext → Override → Bool
for_scope key scope row =
    row.flag_key === key
    && same_option row.user_id scope.user_id
    && same_option row.organization_id scope.organization_id

-- `assertKnownKey`
abbrev known_key : String → Bool
known_key key = any (λ k. k === key) feature_flag_list

abbrev unknown : Thrown
unknown = other "Unknown feature flag key"

-- the search under an optional field
abbrev pub find_if : (String → Override → Bool) → Option String → List Override → Option Override
find_if p none rows = none
find_if p (some a) rows = find (p a) rows

module _ (F : Rows Override) (env_default : String → Option Bool) where
  -- `isEnabled` after the check of the key
  unfoldable pub flag_value : String → FlagContext → F.State → Bool
  flag_value key context s = elim (find_if (for_user key) (truthy context.user_id) (F.rows s)) [
    | some row ↦ row.enabled
    | none ↦ elim (find_if (for_organization key) (truthy context.organization_id) (F.rows s)) [
      | some row ↦ row.enabled
      | none ↦
          elim (find (for_scope key (record { user_id = none; organization_id = none }))
            (F.rows s)) [
              | some row ↦ row.enabled
              | none ↦ or_else (env_default key) (code_default key)
            ]
    ]
  ]

  -- `isEnabled`
  unfoldable pub is_enabled : String → FlagContext → Exec F.State Bool
  unfolding flag_value
  is_enabled key context = do throw_if (not (known_key key)) unknown; gets (flag_value key context)

  -- `setOverride`
  pub set_override : String → String → Bool → FlagContext → Exec F.State (Unit {0})
  set_override new_id key enabled scope = do
    throw_if (not (known_key key)) unknown
    existing ← gets (λ s. find (for_scope key scope) (F.rows s))
    elim existing [
      | some row ↦ modify (
          F.update (λ (x : Override). x.id === row.id)
            (λ (x : Override). record x { enabled = enabled }))
      | none ↦ modify (
          F.insert (record {
            id = new_id;
            flag_key = key;
            enabled = enabled;
            user_id = scope.user_id;
            organization_id = scope.organization_id;
          }))
    ]

  -- `clearOverride`
  pub clear_override : String → FlagContext → Exec F.State (Unit {0})
  clear_override key scope = do
    throw_if (not (known_key key)) unknown
    modify (F.delete (for_scope key scope))
