-- ===== src/Authorization/Granted.antt =====
-- What the guard decides from the roles that the database holds.
use nestjs_enterprise_starte.Authorization.{
  Db, Role, Route, includes, add, add_mapped, add_roles, roles_of, read_database, decide,
}
use nestjs_enterprise_starte.Common.Exec.{ok}
use nestjs_enterprise_starte.Prelude.{
  string_key, string_key, not, [], filter, ◌===◌, arith, ◌||◌, ◌↔◌, is_empty, true, map, ◌∷◌, any,
  ◌&&◌, ◌++◌, Bool, ◌≡◌, List, String, refl,
}

-- a role of the user grants the permission
pub holds_permission : Db → String → String → Bool
holds_permission db user p = any (λ r. includes p r.permissions) (roles_of db db.user_roles user)

-- the user has a role of the name
pub holds_role : Db → String → String → Bool
holds_role db user name = any (λ r. r.name === name) (roles_of db db.user_roles user)

abbrev pub every : (String → Bool) → List String → Bool
every p [] = true
every p (x ∷ xs) = p x && every p xs

-- The user holds every permission that the route requires, and one of the roles that it accepts if
-- it names any.
pub is_permitted : Route → Db → String → Bool
unfolding holds_permission holds_role
is_permitted route db user =
    every (holds_permission db user) route.required_permissions
    && (is_empty route.accepted_roles || any (holds_role db user) route.accepted_roles)

includes-append :
    (p : String) (xs ys : List String) → includes p (xs ++ ys) ≡ (includes p xs || includes p ys)
includes-append p [] ys = refl
includes-append p (x ∷ xs) ys = ground (arith, includes-append p xs ys)

includes-add :
    (p a : String) (set : List String) → includes p (add a set) ≡ (includes p set || a === p)
includes-add p a set = ground (arith, includes-append p set (a ∷ []), string_key.same_iff a p)

includes-add_mapped :
    (p : String) (xs set : List String)
    → includes p (add_mapped xs set) ≡ (includes p set || includes p xs)
unfolding add_mapped
includes-add_mapped p [] set = ground arith
includes-add_mapped p (x ∷ xs) set =
    ground (arith, includes-add_mapped p xs (add x set), includes-add p x set)

includes-add_roles :
    (p : String) (roles : List Role) (set : List String)
    → includes p (add_roles roles set)
      ≡ (includes p set || any (λ r. includes p r.permissions) roles)
unfolding add_roles
includes-add_roles p [] set = ground arith
includes-add_roles p (r ∷ roles) set = ground (
  arith,
  includes-add_roles p roles (add_mapped r.permissions set),
  includes-add_mapped p r.permissions set,
)

includes-names :
    (name : String) (roles : List Role)
    → includes name (map (λ r. r.name) roles) ≡ any (λ r. r.name === name) roles
includes-names name [] = refl
includes-names name (r ∷ roles) = ground (arith, includes-names name roles)

no_missing :
    (held : String → Bool) (xs : List String)
    → is_empty (filter (λ p. not (held p)) xs) ≡ every held xs
no_missing held [] = refl
no_missing held (x ∷ xs) = ground (arith, no_missing held xs)

every-same :
    (f g : String → Bool) (xs : List String) → ((x : String) → f x ≡ g x) → every f xs ≡ every g xs
every-same f g [] h = refl
every-same f g (x ∷ xs) h = ground (arith, h x, every-same f g xs h)

any-same :
    (f g : String → Bool) (xs : List String) → ((x : String) → f x ≡ g x) → any f xs ≡ any g xs
any-same f g [] h = refl
any-same f g (x ∷ xs) h = ground (arith, h x, any-same f g xs h)

-- The guard lets the access through that the database holds exactly if the user is permitted.
pub decide-read_database :
    (route : Route) (db : Db) (user : String)
    → (decide route (read_database db user) ≡ ok tt) ↔ (is_permitted route db user ≡ true)
unfolding decide read_database is_permitted holds_permission holds_role
decide-read_database route db user = ground (
  arith,
  no_missing (λ p. includes p (read_database db user).permissions) route.required_permissions,
  every-same (λ p. includes p (read_database db user).permissions) (holds_permission db user)
      route.required_permissions (λ p. includes-add_roles p (roles_of db db.user_roles user) []),
  any-same (λ r. includes r (read_database db user).roles) (holds_role db user) route.accepted_roles
      (λ r. includes-names r (roles_of db db.user_roles user)),
)

every_of_none : (p : String → Bool) (xs : List String) → is_empty xs ≡ true → every p xs ≡ true
every_of_none p [] h = refl
every_of_none p (x ∷ xs) h = absurd (ground arith)

-- a route that requires nothing is permitted to everyone
pub is_permitted_free :
    (route : Route) (db : Db) (user : String)
    → is_empty route.required_permissions && is_empty route.accepted_roles ≡ true
    → is_permitted route db user ≡ true
unfolding is_permitted
is_permitted_free route db user h =
    ground (arith, every_of_none (holds_permission db user) route.required_permissions)
