-- ===== src/Seed/Through.antt =====
-- A seed goes through where every permission of a role is declared.
use nestjs_enterprise_starte.Prelude.{
  inr, inl, Bool-cases, [], arith, sym, true, ◌===◌, ◌∷◌, All, ◌≡◌, any, List, String, refl,
  string_key, pair_key,
}
use mathlib.Core.Path.{subst}
use nestjs_enterprise_starte.Common.Table.{Table}
use nestjs_enterprise_starte.Common.Exec.{ok}
use nestjs_enterprise_starte.Seed.{
  Row, Access, upsert_role, seed_permissions, upsert_grant, seed_grants, seed_roles, seed_access,
}
use nestjs_enterprise_starte.Seed.Settled.{
  IsDeclared, IsBaseline, seed_declares, seed_grants-Extends,
}
use nestjs_enterprise_starte.Seed.Baseline.{role_step}
use nestjs_enterprise_starte.Seed.Again.{SameRows, seed_again_changes_nothing}

-- every permission of every role is among the declared ones
abbrev pub AllKnown : (String → List String) → List String → List String → Type 0
AllKnown permissions_of keys names =
    All (λ name. All (λ key. any (λ k. k === key) keys ≡ true) (permissions_of name)) names

module _ (P R : Table String Row string_key) (G : Table (String × String) (Unit {0}) pair_key)
    (new_id describe describe_role : String → String) (permissions_of : String → List String) where
  abbrev Acc : Type 0
  Acc = Access P R G new_id describe describe_role permissions_of

  found_among :
      (keys : List String) (t : P.State) (key : String)
      → any (λ k. k === key) keys ≡ true
      → All (IsDeclared P R G new_id describe describe_role permissions_of t) keys
      → IsDeclared P R G new_id describe describe_role permissions_of t key
  found_among [] t key h declared = absurd (ground arith)
  found_among (k ∷ keys) t key h (first, declared) = elim (Bool-cases (k === key)) [
    | inl same ↦
        subst (IsDeclared P R G new_id describe describe_role permissions_of t) {x = k} {y = key}
          ((string_key.same_iff k key).0 same) first
    | inr apart ↦ found_among keys t key (ground arith) declared
  ]

  seed_grants_went :
      (wanted keys : List String) (id : String) (s : Acc)
      → All (λ key. any (λ k. k === key) keys ≡ true) wanted
      → All (IsDeclared P R G new_id describe describe_role permissions_of s.permissions) keys
      → (seed_grants P R G new_id describe describe_role permissions_of id wanted s).0 ≡ ok tt
  unfolding seed_grants
  seed_grants_went [] keys id s known declared = refl
  seed_grants_went (key ∷ wanted) keys id s (first, known) declared =
      let (row, found, text) = found_among keys s.permissions key first declared in
      let rest =
        seed_grants_went wanted keys id
          (record s {
            grants =
                upsert_grant P R G new_id describe describe_role permissions_of (id, row.id)
                  s.grants;
          })
          known declared in
      ground arith

  seed_roles_went :
      (names keys : List String) (s : Acc)
      → AllKnown permissions_of keys names
      → All (IsDeclared P R G new_id describe describe_role permissions_of s.permissions) keys
      → (seed_roles P R G new_id describe describe_role permissions_of names s).0 ≡ ok tt
  unfolding seed_roles upsert_role
  seed_roles_went [] keys s known declared = refl
  seed_roles_went (name ∷ names) keys s (first, known) declared =
      let row = (upsert_role P R G new_id describe describe_role permissions_of name s.roles).0 in
      let s' : Acc = record s {
        roles = (upsert_role P R G new_id describe describe_role permissions_of name s.roles).1;
      } in
      let (p, r, kept) =
        seed_grants-Extends P R G new_id describe describe_role permissions_of row.id
          (permissions_of name) s' in
      let t = (role_step P R G new_id describe describe_role permissions_of name s).1 in
      let went = seed_grants_went (permissions_of name) keys row.id s' first declared in
      let rest = seed_roles_went names keys t known (
        subst (λ x. All (IsDeclared P R G new_id describe describe_role permissions_of x) keys)
          (sym p) declared) in
      ground arith

  -- If every permission of a baseline role is declared, a seed of roles and permissions goes through,
  -- whatever the tables hold, and leaves every declared permission with its description and every
  -- baseline role with its description and all of its permissions; run again, it goes through and
  -- leaves every row of the three tables as it was.
  pub seed_access_twice :
      (keys names : List String) (s : Acc)
      → AllKnown permissions_of keys names
      → let (a, t) = seed_access P R G new_id describe describe_role permissions_of keys names s in
        let (b, u) = seed_access P R G new_id describe describe_role permissions_of keys names t in
        (a ≡ ok tt)
        × (b ≡ ok tt)
        × All (IsDeclared P R G new_id describe describe_role permissions_of t.permissions) keys
        × All (IsBaseline P R G new_id describe describe_role permissions_of t) names
        × SameRows P R G new_id describe describe_role permissions_of t u
  unfolding seed_access
  seed_access_twice keys names s known =
      let s' : Acc = record s {
        permissions =
            seed_permissions P R G new_id describe describe_role permissions_of keys s.permissions;
      } in
      let went =
        seed_roles_went names keys s' known
          (seed_declares P R G new_id describe describe_role permissions_of keys s.permissions) in
      let (declared, baseline, fine, same) =
        seed_again_changes_nothing P R G new_id describe describe_role permissions_of keys names s
          went in
      (went, fine, declared, baseline, same)
