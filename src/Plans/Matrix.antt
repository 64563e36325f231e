-- ===== src/Plans/Matrix.antt =====
-- What the matrices of the catalogue say, from the rows of the tables that `reloadMatrices` reads.
use nestjs_enterprise_starte.Plans.{
  Catalogue, load_all, reload_matrices, entitlement_list, assign_all, matrix_of, PlanMatrix,
  all_off, PlanRow,
}
use nestjs_enterprise_starte.Common.Object.{get_key-set_key, set_key, get_key}
use nestjs_enterprise_starte.Prelude.{
  Bool-cases, inl, ◌∙◌, inr, ap, ◌⊎◌, sym, Any, some, string_key, ◌===◌, [], if◌then◌else◌, arith,
  ◌∷◌, ◌≡◌, false, Bool, List, or_else, String, refl,
}

-- whether the last of the rows under a key enables it
abbrev pub enables : String → List (String × Bool) → Bool → Bool
enables k [] before = before
enables k ((j, on) ∷ rows) before = enables k rows (if j === k then on else before)

flag_assign :
    (k : String) (rows fields : List (String × Bool))
    → or_else (get_key k (assign_all rows fields)) false
      ≡ enables k rows (or_else (get_key k fields) false)
flag_assign k [] fields = refl
flag_assign k ((j, v) ∷ rows) fields =
    ground (arith, flag_assign k rows (set_key j v fields), get_key-set_key j k v fields)

pub flag_off : (k : String) (keys : List String) → or_else (get_key k (all_off keys)) false ≡ false
unfolding get_key
flag_off k [] = refl
flag_off k (j ∷ keys) = ground (arith, flag_off k keys)

-- whether a plan grants an entitlement, by its rows
abbrev pub grants : String → PlanRow → Bool
grants k plan = enables k plan.entitlements false

pub flag_matrix :
    (k : String) (plan : PlanRow)
    → or_else (get_key k (matrix_of plan).entitlements) false ≡ grants k plan
flag_matrix k plan =
    ground (
      arith,
      flag_assign k plan.entitlements (all_off entitlement_list),
      flag_off k entitlement_list,
    )

-- one of the two maps that the loop of `reloadMatrices` fills
load_by :
    (PlanRow → String) → List PlanRow → List (String × PlanMatrix) → List (String × PlanMatrix)
load_by name [] fields = fields
load_by name (plan ∷ plans) fields =
    load_by name plans (set_key (name plan) (matrix_of plan) fields)

load_all-by_id :
    (plans : List PlanRow) (c : Catalogue)
    → (load_all plans c).by_id ≡ load_by (λ p. p.id) plans c.by_id
unfolding load_all load_by
load_all-by_id [] c = refl
load_all-by_id (plan ∷ plans) c = load_all-by_id plans _

load_all-by_slug :
    (plans : List PlanRow) (c : Catalogue)
    → (load_all plans c).by_slug ≡ load_by (λ p. p.slug) plans c.by_slug
unfolding load_all load_by
load_all-by_slug [] c = refl
load_all-by_slug (plan ∷ plans) c = load_all-by_slug plans _

-- A matrix found under an id or a slug is the one before, or that of a plan with this name.
load_by-Any :
    (name : PlanRow → String) (P : PlanRow → Type 0) (k : String) (m : PlanMatrix)
    (plans : List PlanRow) (fields : List (String × PlanMatrix))
    → ((p : PlanRow) → name p ≡ k → matrix_of p ≡ m → P p)
    → get_key k (load_by name plans fields) ≡ some m
    → Any P plans ⊎ (get_key k fields ≡ some m)
unfolding load_by
load_by-Any name P k m [] fields f h = inr h
load_by-Any name P k m (plan ∷ plans) fields f h =
    elim (load_by-Any name P k m plans (set_key (name plan) (matrix_of plan) fields) f h) [
      | inl later ↦ inl (inr later)
      | inr here ↦ elim (Bool-cases (name plan === k)) [
        | inl same ↦ inl (
            inl (
              f plan ((string_key.same_iff _ _).0 same)
                (ground (arith, get_key-set_key (name plan) k (matrix_of plan) fields))))
        | inr differ ↦ inr (ground (arith, get_key-set_key (name plan) k (matrix_of plan) fields))
      ]
    ]

-- A matrix of the catalogue that `reloadMatrices` makes is that of a plan with the id.
pub by_id-Any :
    (P : PlanRow → Type 0) (k : String) (m : PlanMatrix) (plans : List PlanRow)
    → ((p : PlanRow) → p.id ≡ k → matrix_of p ≡ m → P p)
    → get_key k (reload_matrices plans).by_id ≡ some m
    → Any P plans
unfolding reload_matrices get_key
by_id-Any P k m plans f h =
    elim (load_by-Any (λ p. p.id) P k m plans [] f
      (sym (ap (get_key k) (load_all-by_id plans _)) ∙ h)) [
        | inl found ↦ found
        | inr never ↦ absurd (ground arith)
      ]

pub by_slug-Any :
    (P : PlanRow → Type 0) (k : String) (m : PlanMatrix) (plans : List PlanRow)
    → ((p : PlanRow) → p.slug ≡ k → matrix_of p ≡ m → P p)
    → get_key k (reload_matrices plans).by_slug ≡ some m
    → Any P plans
unfolding reload_matrices get_key
by_slug-Any P k m plans f h =
    elim (load_by-Any (λ p. p.slug) P k m plans [] f
      (sym (ap (get_key k) (load_all-by_slug plans _)) ∙ h)) [
        | inl found ↦ found
        | inr never ↦ absurd (ground arith)
      ]
