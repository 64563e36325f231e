-- ===== src/Environment/Groups.antt =====
-- Groups of variables that are supplied together.
use nestjs_enterprise_starte.Prelude.{
  inr, inl, nat_eq, Bool-cases, ◌⊎◌, Option-cases, true, arith, none, ◌∷◌, [], ◌≤◌, ◌≡◌, All,
  String, ◌++◌, List, refl,
}
use nestjs_enterprise_starte.Common.Object.{get_key}
use nestjs_enterprise_starte.Environment.{
  gathered, Env, Rule, Issue, is_supplied, missing_issues, supplied_count, size, group_issues,
}

abbrev pub AllSupplied : Env → List String → Type 0
AllSupplied env names = All (λ name. is_supplied env name ≡ true) names

abbrev pub NoneSupplied : Env → List String → Type 0
NoneSupplied env names = All (λ name. get_key name env.texts ≡ none) names

pub missing_issues-AllSupplied :
    (env : Env) (rule : Rule) (names : List String)
    → missing_issues env rule names ≡ []
    → AllSupplied env names
unfolding missing_issues
missing_issues-AllSupplied env rule [] h = tt
missing_issues-AllSupplied env rule (name ∷ names) h = elim (Bool-cases (is_supplied env name)) [
  | inl supplied ↦ (supplied, missing_issues-AllSupplied env rule names (ground arith))
  | inr missing ↦ absurd (ground arith)
]

supplied_count-le-size : (env : Env) (names : List String) → supplied_count env names ≤ size names
unfolding supplied_count
supplied_count-le-size env [] = omega arith
supplied_count-le-size env (name ∷ names) =
    let h = supplied_count-le-size env names in
    elim (Bool-cases (is_supplied env name)) [
      | inl supplied ↦ ground arith
      | inr missing ↦ ground arith
    ]

none_counted :
    (env : Env) (names : List String) → supplied_count env names ≡ 0 → NoneSupplied env names
unfolding supplied_count
none_counted env [] h = tt
none_counted env (name ∷ names) h = elim (Option-cases (get_key name env.texts)) [
  | inl missing ↦ (missing, none_counted env names (ground arith))
  | inr (value, supplied) ↦ absurd (ground arith)
]

all_counted :
    (env : Env) (names : List String)
    → supplied_count env names ≡ size names
    → AllSupplied env names
unfolding supplied_count
all_counted env [] h = tt
all_counted env (name ∷ names) h =
    let bound = supplied_count-le-size env names in
    elim (Bool-cases (is_supplied env name)) [
      | inl supplied ↦ (supplied, all_counted env names (ground arith))
      | inr missing ↦ absurd (ground arith)
    ]

pub append_nil : (xs ys : List Issue) → xs ++ ys ≡ [] → (xs ≡ []) × (ys ≡ [])
append_nil [] ys h = (refl, h)
append_nil (x ∷ xs) ys h = absurd (ground arith)

pub group_issues-whole :
    (env : Env) (groups : List (String × List String))
    → group_issues env groups ≡ []
    → All (λ g. AllSupplied env g.1 ⊎ NoneSupplied env g.1) groups
unfolding group_issues
group_issues-whole env [] h = tt
group_issues-whole env ((name, members) ∷ groups) h =
    elim (Bool-cases (nat_eq (supplied_count env members) 0)) [
      | inl zero ↦ (
        inr (none_counted env members (ground arith)),
        group_issues-whole env groups (ground arith),
      )
      | inr some_supplied ↦ elim (Bool-cases (nat_eq (supplied_count env members) (size members))) [
        | inl full ↦ (
          inl (all_counted env members (ground arith)),
          group_issues-whole env groups (ground arith),
        )
        | inr partly ↦
            let (whole, rest) =
              append_nil (missing_issues env (Rule.partial_group name) members)
                (group_issues env groups) (ground arith) in
            (
              inl (missing_issues-AllSupplied env (Rule.partial_group name) members whole),
              group_issues-whole env groups rest,
            )
      ]
    ]

pub gathered_nil : (xss : List (List Issue)) → gathered xss ≡ [] → All (λ xs. xs ≡ []) xss
unfolding gathered
gathered_nil [] h = tt
gathered_nil (xs ∷ xss) h =
    let (first, rest) = append_nil xs (gathered xss) h in (first, gathered_nil xss rest)
