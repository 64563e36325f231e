-- ===== src/ApiKeys/Tests.antt =====
-- A key that is used, revoked by somebody else, and then by its owner.
use nestjs_enterprise_starte.ApiKeys.{
  CreatedApiKey, User, create, authenticate_bearer, extract_bearer, verify_secret, has_form, by_id,
  by_prefix, prefix_of,
}
use nestjs_enterprise_starte.ApiKeys.Lifetime.{Action, key_lifetime, run}
use nestjs_enterprise_starte.Authorization.{EffectiveAccess}
use nestjs_enterprise_starte.Prelude.{
  string_key, ◌===◌, if◌then◌else◌, ◌≡◌, ◌∷◌, [], Option, none, true, List, String, some, refl,
}

abbrev same_text : String → String
same_text a = a

abbrev account : User
account = record {
  id = "ann";
  email = "ann@example.org";
  name = "Ann";
  email_verified = true;
  two_factor_enabled = none;
}

abbrev find_user : String → Option User
find_user id = if id === "ann" then some account else none

abbrev tools : String → EffectiveAccess
tools _ = record { roles = "user" ∷ []; permissions = "mcp:tools:invoke" ∷ [] }

abbrev random : String
random = "0123456789abcdef"

abbrev made : CreatedApiKey
made = record {
  id = "k1";
  name = "laptop";
  prefix = "nes_01234567";
  secret = "nes_0123456789abcdef";
  created_at = 5;
}

abbrev actions : List Action
actions =
    Action.use_key "k1" 6
    ∷ Action.revoke_key "bob" "k1" 7
    ∷ Action.create_key "bob" "other" "k2" "fedcba9876543210" 8
    ∷ Action.revoke_key "ann" "k1" 9
    ∷ []

opened : Unit {0}
unfolding create authenticate_bearer extract_bearer verify_secret has_form by_id by_prefix prefix_of
opened = tt

key_lifetime_example :
    authenticate_bearer same_text same_text find_user tools (some "Bearer nes_0123456789abcdef") (
      run same_text same_text actions
        (create same_text same_text "ann" "laptop" "k1" random 5 []).1)
    ≡ none
unfolding opened
key_lifetime_example =
    key_lifetime same_text same_text find_user tools "ann" "laptop" "k1" random 5 [] made actions
      account (some "Bearer nes_0123456789abcdef") refl refl refl refl refl
