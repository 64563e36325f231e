-- ===== src/Seed/Tests.antt =====
-- Two permissions and a role, seeded into tables where an operator has changed a description.
use nestjs_enterprise_starte.Prelude.{◌≡◌, [], List, String, All, ◌∷◌, refl, string_key, pair_key}
use nestjs_enterprise_starte.Common.Table.{Table, rows_table}
use nestjs_enterprise_starte.Common.Exec.{ok}
use nestjs_enterprise_starte.Seed.{Row, Access, seed_access}
use nestjs_enterprise_starte.Seed.Through.{seed_access_twice}
use nestjs_enterprise_starte.Seed.Settled.{IsDeclared, IsBaseline}
use nestjs_enterprise_starte.Seed.Again.{SameRows}

abbrev described_rows : Table String Row string_key
described_rows = rows_table String Row string_key

abbrev grant_rows : Table (String × String) (Unit {0}) pair_key
grant_rows = rows_table (String × String) (Unit {0}) pair_key

abbrev same_text : String → String
same_text text = text

abbrev all_permissions : String → List String
all_permissions name = "account:read" ∷ "user:read" ∷ []

abbrev Acc : Type 0
Acc = Access described_rows described_rows grant_rows same_text same_text same_text all_permissions

abbrev before : Acc
before = record {
  permissions = ("user:read", record { id = "p7"; description = "changed" }) ∷ [];
  roles = [];
  grants = [];
}

seed_access_twice_example :
    let (a, t) =
      seed_access described_rows described_rows grant_rows same_text same_text same_text
        all_permissions
        ("account:read" ∷ "user:read" ∷ [])
        ("admin" ∷ [])
        before in
    let (b, u) =
      seed_access described_rows described_rows grant_rows same_text same_text same_text
        all_permissions
        ("account:read" ∷ "user:read" ∷ [])
        ("admin" ∷ [])
        t in
    (a ≡ ok tt)
    × (b ≡ ok tt)
    × All
        (IsDeclared described_rows described_rows grant_rows same_text same_text same_text
          all_permissions t.permissions)
        ("account:read" ∷ "user:read" ∷ [])
    × All
        (IsBaseline described_rows described_rows grant_rows same_text same_text same_text
          all_permissions t)
        ("admin" ∷ [])
    × SameRows described_rows described_rows grant_rows same_text same_text same_text
        all_permissions t u
seed_access_twice_example =
    seed_access_twice described_rows described_rows grant_rows same_text same_text same_text
      all_permissions ("account:read" ∷ "user:read" ∷ []) ("admin" ∷ []) before
      ((refl, (refl, tt)), tt)
