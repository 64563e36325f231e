-- ===== src/Seed/Settled.antt =====
-- What a seed establishes.
use nestjs_enterprise_starte.Prelude.{
  ap, inr, inl, [], Option-cases, some, ◌===◌, arith, ◌∷◌, All, Bool-cases, ◌≡◌, List, String, refl,
  string_key, pair_key,
}
use nestjs_enterprise_starte.Common.Table.{Table}
use nestjs_enterprise_starte.Seed.{
  Row, upserted, Access, upsert_permission, seed_permissions, upsert_grant, seed_grants,
}

module _ (P R : Table String Row string_key) (G : Table (String × String) (Unit {0}) pair_key)
    (new_id describe describe_role : String → String) (permissions_of : String → List String) where
  -- the row of a permission, as declared
  abbrev pub IsDeclared : P.State → String → Type 0
  IsDeclared t key = (row : Row) × (P.lookup key t ≡ some row) × (row.description ≡ describe key)

  -- a permission that a role has
  abbrev pub IsGranted : P.State → G.State → String → String → Type 0
  IsGranted permissions grants role_id key =
      (row : Row) × (P.lookup key permissions ≡ some row)
      × (G.lookup (role_id, row.id) grants ≡ some tt)

  -- a baseline role with its permissions
  abbrev pub IsBaseline :
      Access P R G new_id describe describe_role permissions_of → String → Type 0
  IsBaseline s name =
      (row : Row) × (R.lookup name s.roles ≡ some row)
      × (row.description ≡ describe_role name)
      × All (IsGranted s.permissions s.grants row.id) (permissions_of name)

  upsert_keeps :
      (t : P.State) (key j : String)
      → IsDeclared t j
      → IsDeclared (upsert_permission P R G new_id describe describe_role permissions_of key t) j
  unfolding upsert_permission upserted
  upsert_keeps t key j (row, found, declared) = elim (Bool-cases (key === j)) [
    | inr apart ↦ (
      row,
      ground (arith, P.lookup-put key j (upserted new_id key (describe key) (P.lookup key t)) t),
      declared,
    )
    | inl same ↦
        let e : key ≡ j = (string_key.same_iff key j).0 same in
        (
          record row { description = describe key },
          ground (
            arith,
            e,
            P.lookup-put key j (upserted new_id key (describe key) (P.lookup key t)) t,
          ),
          ap describe e,
        )
  ]

  upsert_declares :
      (t : P.State) (key : String)
      → IsDeclared (upsert_permission P R G new_id describe describe_role permissions_of key t) key
  unfolding upsert_permission upserted
  upsert_declares t key = (
    upserted new_id key (describe key) (P.lookup key t),
    ground (
      arith,
      P.lookup-put key key (upserted new_id key (describe key) (P.lookup key t)) t,
      string_key.same_iff key key,
    ),
    elim (Option-cases (P.lookup key t)) [
      | inl fresh ↦ ground arith
      | inr (row, found) ↦ ground arith
    ],
  )

  seed_keeps :
      (keys : List String) (t : P.State) (j : String)
      → IsDeclared t j
      → IsDeclared (seed_permissions P R G new_id describe describe_role permissions_of keys t) j
  unfolding seed_permissions
  seed_keeps [] t j h = h
  seed_keeps (key ∷ keys) t j h =
      seed_keeps keys (upsert_permission P R G new_id describe describe_role permissions_of key t) j
        (upsert_keeps t key j h)

  pub seed_declares :
      (keys : List String) (t : P.State)
      → All
          (IsDeclared (seed_permissions P R G new_id describe describe_role permissions_of keys t))
          keys
  unfolding seed_permissions
  seed_declares [] t = tt
  seed_declares (key ∷ keys) t = (
    seed_keeps keys (upsert_permission P R G new_id describe describe_role permissions_of key t) key
        (upsert_declares t key),
    seed_declares keys (upsert_permission P R G new_id describe describe_role permissions_of key t),
  )

  -- a grant that exists is left
  upsert_grant_keeps :
      (grant g : String × String) (t : G.State)
      → G.lookup g t ≡ some tt
      → G.lookup g (upsert_grant P R G new_id describe describe_role permissions_of grant t)
        ≡ some tt
  unfolding upsert_grant
  upsert_grant_keeps grant g t h = elim (Option-cases (G.lookup grant t)) [
    | inl fresh ↦ ground (arith, G.lookup-put grant g tt t)
    | inr (u, found) ↦ ground arith
  ]

  pub upsert_grant_makes :
      (grant : String × String) (t : G.State)
      → G.lookup grant (upsert_grant P R G new_id describe describe_role permissions_of grant t)
        ≡ some tt
  unfolding upsert_grant
  upsert_grant_makes grant t = elim (Option-cases (G.lookup grant t)) [
    | inl fresh ↦ ground (arith, G.lookup-put grant grant tt t, pair_key.same_iff grant grant)
    | inr (u, found) ↦ ground arith
  ]

  -- the loop over grants touches nothing else, and leaves the grants that exist
  abbrev pub Extends :
      Access P R G new_id describe describe_role permissions_of
      → Access P R G new_id describe describe_role permissions_of
      → Type 0
  Extends s t =
      (t.permissions ≡ s.permissions)
      × (t.roles ≡ s.roles)
      × ((g : String × String) → G.lookup g s.grants ≡ some tt → G.lookup g t.grants ≡ some tt)

  pub seed_grants-Extends :
      (id : String) (keys : List String)
      (s : Access P R G new_id describe describe_role permissions_of)
      → Extends s (seed_grants P R G new_id describe describe_role permissions_of id keys s).1
  unfolding seed_grants
  seed_grants-Extends id [] s = (refl, refl, λ g h. h)
  seed_grants-Extends id (key ∷ keys) s = elim (Option-cases (P.lookup key s.permissions)) [
    | inl missing ↦ (ground arith, ground arith, λ g h. ground arith)
    | inr (row, found) ↦
        let s' : Access P R G new_id describe describe_role permissions_of = record s {
          grants =
              upsert_grant P R G new_id describe describe_role permissions_of (id, row.id) s.grants;
        } in
        let (p, r, kept) = seed_grants-Extends id keys s' in
        (
          ground arith,
          ground arith,
          λ g h. ground (arith, kept g (upsert_grant_keeps (id, row.id) g s.grants h)),
        )
  ]
