-- ===== src/Seed/Baseline.antt =====
-- The roles that a seed establishes.
use mathlib.Core.Path.{subst⁻¹}
use nestjs_enterprise_starte.Prelude.{
  sym, inl, Option-cases, arith, [], ◌∷◌, ◌∙◌, inr, All, ap, some, ◌===◌, ◌≡◌, Bool-cases, List,
  String, refl, string_key, pair_key,
}
use nestjs_enterprise_starte.Common.Table.{Table}
use nestjs_enterprise_starte.Common.Exec.{Result, ok, err, Result-cases}
use nestjs_enterprise_starte.Seed.{
  Row, upserted, Access, upsert_role, upsert_grant, seed_grants, seed_roles,
}
use nestjs_enterprise_starte.Seed.Settled.{
  IsGranted, IsBaseline, seed_grants-Extends, upsert_grant_makes,
}

module _ (P R : Table String Row string_key) (G : Table (String × String) (Unit {0}) pair_key)
    (new_id describe describe_role : String → String) (permissions_of : String → List String) where
  abbrev Acc : Type 0
  Acc = Access P R G new_id describe describe_role permissions_of

  granted_mono :
      (keys : List String) (id : String) (s t : Acc)
      → t.permissions ≡ s.permissions
      → ((g : String × String) → G.lookup g s.grants ≡ some tt → G.lookup g t.grants ≡ some tt)
      → All
          (IsGranted P R G new_id describe describe_role permissions_of s.permissions s.grants id)
          keys
      → All
          (IsGranted P R G new_id describe describe_role permissions_of t.permissions t.grants id)
          keys
  granted_mono [] id s t same kept h = tt
  granted_mono (key ∷ keys) id s t same kept ((row, found, granted), h) = (
    (row, ap (λ x. P.lookup key x) same ∙ found, kept (id, row.id) granted),
    granted_mono keys id s t same kept h,
  )

  seed_grants_grants :
      (keys : List String) (id : String) (s : Acc) {u : Unit {0}}
      → (seed_grants P R G new_id describe describe_role permissions_of id keys s).0 ≡ ok u
      → All
          (IsGranted P R G new_id describe describe_role permissions_of s.permissions
            (seed_grants P R G new_id describe describe_role permissions_of id keys s).1.grants
            id)
          keys
  unfolding seed_grants
  seed_grants_grants [] id s h = tt
  seed_grants_grants (key ∷ keys) id s {u} h = elim (Option-cases (P.lookup key s.permissions)) [
    | inl missing ↦ absurd (ground arith)
    | inr (row, found) ↦
        let s' : Acc = record s {
          grants =
              upsert_grant P R G new_id describe describe_role permissions_of (id, row.id) s.grants;
        } in
        let (p, r, kept) =
          seed_grants-Extends P R G new_id describe describe_role permissions_of id keys s' in
        let step : seed_grants P R G new_id describe describe_role permissions_of id (key ∷ keys) s
            ≡ seed_grants P R G new_id describe describe_role permissions_of id keys s' =
          ground arith in
        subst⁻¹
          (λ x.
            All
              (IsGranted P R G new_id describe describe_role permissions_of s.permissions x.1.grants
                id)
              (key ∷ keys))
          step
          (
            (
              row,
              found,
              kept (id, row.id)
                  (upsert_grant_makes P R G new_id describe describe_role permissions_of
                    (id, row.id) s.grants),
            ),
            seed_grants_grants keys id s' {u = u} (ap (λ x. x.0) (sym step) ∙ h),
          )
  ]

  -- one role of the second loop
  abbrev pub role_step : String → Acc → Result (Unit {0}) × Acc
  role_step name s =
      let (row, roles) =
        upsert_role P R G new_id describe describe_role permissions_of name s.roles in
      seed_grants P R G new_id describe describe_role permissions_of row.id (permissions_of name)
        (record s { roles = roles })

  role_step_keeps :
      (name n : String) (s : Acc)
      → IsBaseline P R G new_id describe describe_role permissions_of s n
      → IsBaseline P R G new_id describe describe_role permissions_of (role_step name s).1 n
  unfolding upsert_role upserted
  role_step_keeps name n s (row, found, declared, granted) =
      let new = upserted new_id name (describe_role name) (R.lookup name s.roles) in
      let s' : Acc = record s { roles = R.put name new s.roles } in
      let (p, r, kept) =
        seed_grants-Extends P R G new_id describe describe_role permissions_of new.id
          (permissions_of name) s' in
      let t = (role_step name s).1 in
      let grants = granted_mono (permissions_of n) row.id s t p kept granted in
      elim (Bool-cases (name === n)) [
        | inr apart ↦ (row, ground (arith, r, R.lookup-put name n new s.roles), declared, grants)
        | inl same ↦
            let e : name ≡ n = (string_key.same_iff name n).0 same in
            (
              record row { description = describe_role name },
              ap (λ x. R.lookup n x) r ∙ ground (arith, e, R.lookup-put name n new s.roles),
              ap describe_role e,
              grants,
            )
      ]

  role_step_makes :
      (name : String) (s : Acc) {u : Unit {0}}
      → (role_step name s).0 ≡ ok u
      → IsBaseline P R G new_id describe describe_role permissions_of (role_step name s).1 name
  unfolding upsert_role upserted
  role_step_makes name s {u} h =
      let new = upserted new_id name (describe_role name) (R.lookup name s.roles) in
      let s' : Acc = record s { roles = R.put name new s.roles } in
      let (p, r, kept) =
        seed_grants-Extends P R G new_id describe describe_role permissions_of new.id
          (permissions_of name) s' in
      let grants = seed_grants_grants (permissions_of name) new.id s' {u = u} h in
      (
        new,
        ap (λ x. R.lookup name x) r
            ∙ ground (arith, R.lookup-put name name new s.roles, string_key.same_iff name name),
        elim (Option-cases (R.lookup name s.roles)) [
          | inl fresh ↦ ground arith
          | inr (row, found) ↦ ground arith
        ],
        subst⁻¹
            (λ x.
              All
                (IsGranted P R G new_id describe describe_role permissions_of x
                  (role_step name s).1.grants new.id)
                (permissions_of name))
            p grants,
      )

  pub seed_roles_step :
      (name : String) (names : List String) (s : Acc)
      → seed_roles P R G new_id describe describe_role permissions_of (name ∷ names) s ≡ (
          let (a, t) = role_step name s in
          elim a [
            | ok _ ↦ seed_roles P R G new_id describe describe_role permissions_of names t
            | err e ↦ (err e, t)
          ])
  unfolding seed_roles
  seed_roles_step name names s = refl

  pub seed_roles_keeps :
      (names : List String) (n : String) (s : Acc)
      → IsBaseline P R G new_id describe describe_role permissions_of s n
      → IsBaseline P R G new_id describe describe_role permissions_of
          (seed_roles P R G new_id describe describe_role permissions_of names s).1
          n
  unfolding seed_roles
  seed_roles_keeps [] n s h = h
  seed_roles_keeps (name ∷ names) n s h =
      let next = role_step_keeps name n s h in
      elim (Result-cases (role_step name s).0) [
        | inl (e, failed) ↦
            subst⁻¹ (λ x. IsBaseline P R G new_id describe describe_role permissions_of x n)
              {x = (seed_roles P R G new_id describe describe_role permissions_of (name ∷ names)
                s).1}
              {y = (role_step name s).1} (ground arith) next
        | inr (u, went) ↦
            subst⁻¹ (λ x. IsBaseline P R G new_id describe describe_role permissions_of x n)
              {x = (seed_roles P R G new_id describe describe_role permissions_of (name ∷ names)
                s).1}
              {y = (seed_roles P R G new_id describe describe_role permissions_of names
                (role_step name s).1).1}
              (ground arith) (seed_roles_keeps names n (role_step name s).1 next)
      ]

  -- every role that was seeded
  pub seed_roles_makes :
      (names : List String) (s : Acc) {u : Unit {0}}
      → (seed_roles P R G new_id describe describe_role permissions_of names s).0 ≡ ok u
      → All
          (IsBaseline P R G new_id describe describe_role permissions_of
            (seed_roles P R G new_id describe describe_role permissions_of names s).1)
          names
  unfolding seed_roles
  seed_roles_makes [] s h = tt
  seed_roles_makes (name ∷ names) s {u} h = elim (Result-cases (role_step name s).0) [
    | inl (e, failed) ↦ absurd (ground arith)
    | inr (v, went) ↦
        let t = (role_step name s).1 in
        let step : seed_roles P R G new_id describe describe_role permissions_of (name ∷ names) s
            ≡ seed_roles P R G new_id describe describe_role permissions_of names t =
          ground arith in
        subst⁻¹
          (λ x.
            All (IsBaseline P R G new_id describe describe_role permissions_of x.1) (name ∷ names))
          step
          (
            seed_roles_keeps names name t (role_step_makes name s {u = v} went),
            seed_roles_makes names t {u = u} (ap (λ x. x.0) (sym step) ∙ h),
          )
  ]

  -- the second loop leaves the permissions
  pub seed_roles-permissions :
      (names : List String) (s : Acc)
      → (seed_roles P R G new_id describe describe_role permissions_of names s).1.permissions
        ≡ s.permissions
  unfolding seed_roles upsert_role
  seed_roles-permissions [] s = refl
  seed_roles-permissions (name ∷ names) s =
      let s' : Acc = record s {
        roles = (upsert_role P R G new_id describe describe_role permissions_of name s.roles).1;
      } in
      let (p, r, kept) =
        seed_grants-Extends P R G new_id describe describe_role permissions_of
          (upsert_role P R G new_id describe describe_role permissions_of name s.roles).0.id
          (permissions_of name) s' in
      let rest = seed_roles-permissions names (role_step name s).1 in
      elim (Result-cases (role_step name s).0) [
        | inl (e, failed) ↦ ground arith
        | inr (u, went) ↦ ground arith
      ]
