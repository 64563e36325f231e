-- ===== src/Seed/Again.antt =====
-- A seed that is run again.
use nestjs_enterprise_starte.Prelude.{
  [], ap, ◌∙◌, arith, ◌∷◌, ◌≡◌, All, List, String, refl, string_key, pair_key,
}
use mathlib.Core.Path.{subst⁻¹}
use nestjs_enterprise_starte.Common.Table.{Table}
use nestjs_enterprise_starte.Common.Exec.{ok}
use nestjs_enterprise_starte.Seed.{
  seed_access, seed_roles, Row, upserted, Access, upsert_permission, upsert_role, seed_permissions,
  upsert_grant, seed_grants,
}
use nestjs_enterprise_starte.Seed.Settled.{seed_declares, IsDeclared, IsGranted, IsBaseline}
use nestjs_enterprise_starte.Seed.Baseline.{seed_roles_makes, seed_roles-permissions, role_step}

module _ (P R : Table String Row string_key) (G : Table (String × String) (Unit {0}) pair_key)
    (new_id describe describe_role : String → String) (permissions_of : String → List String) where
  abbrev Acc : Type 0
  Acc = Access P R G new_id describe describe_role permissions_of

  -- the same rows under every key
  abbrev pub SameRows : Acc → Acc → Type 0
  SameRows s t =
      ((k : String) → P.lookup k t.permissions ≡ P.lookup k s.permissions)
      × ((k : String) → R.lookup k t.roles ≡ R.lookup k s.roles)
      × ((g : String × String) → G.lookup g t.grants ≡ G.lookup g s.grants)

  upsert_idle :
      (t : P.State) (key : String)
      → IsDeclared P R G new_id describe describe_role permissions_of t key
      → (j : String)
      → P.lookup j (upsert_permission P R G new_id describe describe_role permissions_of key t)
        ≡ P.lookup j t
  unfolding upsert_permission upserted
  upsert_idle t key (row, found, declared) j = ground (
    arith,
    P.lookup-put key j (upserted new_id key (describe key) (P.lookup key t)) t,
    string_key.same_iff key j,
  )

  IsDeclared-again :
      (keys : List String) (t t' : P.State)
      → ((j : String) → P.lookup j t' ≡ P.lookup j t)
      → All (IsDeclared P R G new_id describe describe_role permissions_of t) keys
      → All (IsDeclared P R G new_id describe describe_role permissions_of t') keys
  IsDeclared-again [] t t' same h = tt
  IsDeclared-again (key ∷ keys) t t' same ((row, found, declared), h) =
      ((row, same key ∙ found, declared), IsDeclared-again keys t t' same h)

  seed_permissions_idle :
      (keys : List String) (t : P.State)
      → All (IsDeclared P R G new_id describe describe_role permissions_of t) keys
      → (j : String)
      → P.lookup j (seed_permissions P R G new_id describe describe_role permissions_of keys t)
        ≡ P.lookup j t
  unfolding seed_permissions
  seed_permissions_idle [] t h j = refl
  seed_permissions_idle (key ∷ keys) t (first, h) j =
      let t' = upsert_permission P R G new_id describe describe_role permissions_of key t in
      seed_permissions_idle keys t' (IsDeclared-again keys t t' (upsert_idle t key first) h) j
      ∙ upsert_idle t key first j

  seed_grants_idle :
      (keys : List String) (id : String) (s : Acc)
      → All
          (IsGranted P R G new_id describe describe_role permissions_of s.permissions s.grants id)
          keys
      → seed_grants P R G new_id describe describe_role permissions_of id keys s ≡ (ok tt, s)
  unfolding seed_grants upsert_grant
  seed_grants_idle [] id s h = refl
  seed_grants_idle (key ∷ keys) id s ((row, found, granted), h) =
      let rest = seed_grants_idle keys id s h in ground arith

  IsBaseline-again :
      (names : List String) (s t : Acc)
      → ((j : String) → P.lookup j t.permissions ≡ P.lookup j s.permissions)
      → ((j : String) → R.lookup j t.roles ≡ R.lookup j s.roles)
      → t.grants ≡ s.grants
      → All (IsBaseline P R G new_id describe describe_role permissions_of s) names
      → All (IsBaseline P R G new_id describe describe_role permissions_of t) names
  IsBaseline-again [] s t p r g h = tt
  IsBaseline-again (name ∷ names) s t p r g ((row, found, declared, granted), h) = (
    (row, r name ∙ found, declared, moved (permissions_of name) row.id granted),
    IsBaseline-again names s t p r g h,
  )
    where
      moved :
          (keys : List String) (id : String)
          → All
              (IsGranted P R G new_id describe describe_role permissions_of s.permissions s.grants
                id)
              keys
          → All
              (IsGranted P R G new_id describe describe_role permissions_of t.permissions t.grants
                id)
              keys
      moved [] id h = tt
      moved (key ∷ keys) id ((row, found, granted), h) =
          ((row, p key ∙ found, ap (λ x. G.lookup (id, row.id) x) g ∙ granted), moved keys id h)

  role_step_idle :
      (name : String) (s : Acc)
      → IsBaseline P R G new_id describe describe_role permissions_of s name
      → ((role_step P R G new_id describe describe_role permissions_of name s).0 ≡ ok tt)
        × ((role_step P R G new_id describe describe_role permissions_of name s).1.permissions
            ≡ s.permissions)
        × ((j : String)
            → R.lookup j
                (role_step P R G new_id describe describe_role permissions_of name s).1.roles
              ≡ R.lookup j s.roles)
        × ((role_step P R G new_id describe describe_role permissions_of name s).1.grants
            ≡ s.grants)
  unfolding upsert_role upserted
  role_step_idle name s (row, found, declared, granted) =
      let new = upserted new_id name (describe_role name) (R.lookup name s.roles) in
      let s' : Acc = record s { roles = R.put name new s.roles } in
      let is : new ≡ row = ground arith in
      let idle = seed_grants_idle (permissions_of name) new.id s' (
        subst⁻¹
          (λ (x : Row).
            All
              (IsGranted P R G new_id describe describe_role permissions_of s.permissions s.grants
                x.id)
              (permissions_of name))
          is granted) in
      (
        ap (λ x. x.0) idle,
        ap (λ x. x.1.permissions) idle,
        λ j.
            ap (λ x. R.lookup j x.1.roles) idle
            ∙ ground
                (arith, is, found, R.lookup-put name j new s.roles, string_key.same_iff name j),
        ap (λ x. x.1.grants) idle,
      )

  seed_roles_idle :
      (names : List String) (s : Acc)
      → All (IsBaseline P R G new_id describe describe_role permissions_of s) names
      → ((seed_roles P R G new_id describe describe_role permissions_of names s).0 ≡ ok tt)
        × SameRows s (seed_roles P R G new_id describe describe_role permissions_of names s).1
  unfolding seed_roles
  seed_roles_idle [] s h = (refl, (λ k. refl, λ k. refl, λ g. refl))
  seed_roles_idle (name ∷ names) s (first, h) =
      let t = (role_step P R G new_id describe describe_role permissions_of name s).1 in
      let (went, p, r, g) = role_step_idle name s first in
      let (fine, same) =
        seed_roles_idle names t
          (IsBaseline-again names s t (λ j. ap (λ x. P.lookup j x) p) r g h) in
      let step : seed_roles P R G new_id describe describe_role permissions_of (name ∷ names) s
          ≡ seed_roles P R G new_id describe describe_role permissions_of names t =
        ground arith in
      subst⁻¹ (λ x. (x.0 ≡ ok tt) × SameRows s x.1) step
        (
          fine,
          (
            λ k. same.0 k ∙ ap (λ x. P.lookup k x) p,
            λ k. same.1 k ∙ r k,
            λ k. same.2 k ∙ ap (λ x. G.lookup k x) g,
          ),
        )

  -- A seed of roles and permissions that goes through leaves every declared permission with its
  -- description, and every baseline role with its description and all of its permissions; run again,
  -- it goes through and leaves every row of the three tables as it was.
  pub seed_again_changes_nothing :
      (keys names : List String) (s : Acc)
      → (seed_access P R G new_id describe describe_role permissions_of keys names s).0 ≡ ok tt
      → let t = (seed_access P R G new_id describe describe_role permissions_of keys names s).1 in
        All (IsDeclared P R G new_id describe describe_role permissions_of t.permissions) keys
        × All (IsBaseline P R G new_id describe describe_role permissions_of t) names
        × ((seed_access P R G new_id describe describe_role permissions_of keys names t).0 ≡ ok tt)
        × SameRows t (seed_access P R G new_id describe describe_role permissions_of keys names t).1
  unfolding seed_access
  seed_again_changes_nothing keys names s h =
      let s' : Acc = record s {
        permissions =
            seed_permissions P R G new_id describe describe_role permissions_of keys s.permissions;
      } in
      let t = (seed_roles P R G new_id describe describe_role permissions_of names s').1 in
      let kept =
        seed_roles-permissions P R G new_id describe describe_role permissions_of names s' in
      let declared =
        subst⁻¹ (λ x. All (IsDeclared P R G new_id describe describe_role permissions_of x) keys)
          kept
          (seed_declares P R G new_id describe describe_role permissions_of keys s.permissions) in
      let baseline =
        seed_roles_makes P R G new_id describe describe_role permissions_of names s' {u = tt} h in
      let t' : Acc = record t {
        permissions =
            seed_permissions P R G new_id describe describe_role permissions_of keys t.permissions;
      } in
      let same = seed_permissions_idle keys t.permissions declared in
      let (fine, rows) =
        seed_roles_idle names t' (IsBaseline-again names t t' same (λ j. refl) refl baseline) in
      (declared, baseline, fine, (λ k. rows.0 k ∙ same k, rows.1, rows.2))
