-- ===== src/Topup/Packs.antt =====
-- The packs of the configuration: what `parseStripeCreditPacks` accepts.
use mathlib.Core.Path.{subst}
use nestjs_enterprise_starte.Common.Exec.{Result-cases, ok}
use nestjs_enterprise_starte.Prelude.{
  zero, none, some, All, any, [], ◌||◌, Bool-cases, inr, inl, Option-cases, string_key, ◌∷◌, suc,
  arith, ℕ, List, false, Option, ◌≡◌, ◌===◌, String, refl,
}
use nestjs_enterprise_starte.Prelude.Int.{negsuc, pos, leb_ℤ, ℤ}
use nestjs_enterprise_starte.Topup.{
  Pack, parse_pack, parse_entries, parse_credit_packs, has_duplicate, pack_by_slug,
}

-- a pack that may be sold: it has a name, and its credits are positive
abbrev pub IsSold : Pack → Type 0
IsSold p = ((p.slug === "") ≡ false) × ((n : ℕ) × (p.credits ≡ pos (suc n)))

positive_integer : (a : ℤ) → leb_ℤ a (pos 0) ≡ false → (n : ℕ) × (a ≡ pos (suc n))
positive_integer (pos zero) h = absurd (ground arith)
positive_integer (pos (suc n)) h = (n, refl)
positive_integer (negsuc n) h = absurd (ground arith)

parse_pack-IsSold :
    (to_integer : String → Option ℤ) (entry : List String) (p : Pack)
    → parse_pack to_integer entry ≡ ok p
    → IsSold p
unfolding parse_pack
parse_pack-IsSold to_integer [] p h = absurd (ground arith)
parse_pack-IsSold to_integer (a ∷ []) p h = absurd (ground arith)
parse_pack-IsSold to_integer (a ∷ b ∷ []) p h = absurd (ground arith)
parse_pack-IsSold to_integer (slug ∷ credits ∷ price_id ∷ []) p h =
    elim (Option-cases (to_integer credits)) [
      | inl missing ↦ absurd (ground arith)
      | inr (n, found) ↦ elim (Bool-cases (slug === "" || price_id === "" || leb_ℤ n (pos 0))) [
        | inl bad ↦ absurd (ground arith)
        | inr good ↦
            subst IsSold {x = record { slug = slug; credits = n; price_id = price_id }} {y = p}
              (ground arith) (ground arith, positive_integer n (ground arith))
      ]
    ]
parse_pack-IsSold to_integer (a ∷ b ∷ c ∷ d ∷ rest) p h = absurd (ground arith)

parse_entries-IsSold :
    (to_integer : String → Option ℤ) (entries : List (List String)) (packs : List Pack)
    → parse_entries to_integer entries ≡ ok packs
    → All IsSold packs
unfolding parse_entries
parse_entries-IsSold to_integer [] packs h =
    subst (All IsSold) {x = []} {y = packs} (ground arith) tt
parse_entries-IsSold to_integer (entry ∷ entries) packs h =
    elim (Result-cases (parse_pack to_integer entry)) [
      | inl (e, bad) ↦ absurd (ground arith)
      | inr (p, good) ↦ elim (Result-cases (parse_entries to_integer entries)) [
        | inl (e, bad) ↦ absurd (ground arith)
        | inr (rest, fine) ↦ subst (All IsSold) {x = p ∷ rest} {y = packs} (ground arith) (
          parse_pack-IsSold to_integer entry p good,
          parse_entries-IsSold to_integer entries rest fine,
        )
      ]
    ]

-- Packs that were read may all be sold, and no two have the same name.
pub parse_credit_packs-IsSold :
    (to_integer : String → Option ℤ) (entries : List (List String)) (packs : List Pack)
    → parse_credit_packs to_integer entries ≡ ok packs
    → All IsSold packs × (has_duplicate packs ≡ false)
unfolding parse_credit_packs
parse_credit_packs-IsSold to_integer entries packs h =
    elim (Result-cases (parse_entries to_integer entries)) [
      | inl (e, bad) ↦ absurd (ground arith)
      | inr ([], fine) ↦ absurd (ground arith)
      | inr (p ∷ rest, fine) ↦ elim (Bool-cases (has_duplicate (p ∷ rest))) [
        | inl twice ↦ absurd (ground arith)
        | inr once ↦
            subst (λ q. All IsSold q × (has_duplicate q ≡ false)) {x = p ∷ rest} {y = packs}
              (ground arith) (parse_entries-IsSold to_integer entries (p ∷ rest) fine, once)
      ]
    ]

-- The pack that is found under a name has that name, and may be sold if all packs may.
pub pack_by_slug-IsSold :
    (slug : String) (packs : List Pack) (p : Pack)
    → pack_by_slug slug packs ≡ some p
    → All IsSold packs
    → (p.slug ≡ slug) × IsSold p
unfolding pack_by_slug
pack_by_slug-IsSold slug [] p h sold = absurd (ground arith)
pack_by_slug-IsSold slug (q ∷ packs) p h sold = elim (Option-cases (pack_by_slug slug packs)) [
  | inr (r, found) ↦ pack_by_slug-IsSold slug packs p (ground arith) sold.1
  | inl none_left ↦ elim (Bool-cases (q.slug === slug)) [
    | inl named ↦
        subst (λ a. (a.slug ≡ slug) × IsSold a) {x = q} {y = p} (ground arith)
          ((string_key.same_iff q.slug slug).0 named, sold.0)
    | inr unnamed ↦ absurd (ground arith)
  ]
]

not_found :
    (slug : String) (packs : List Pack)
    → any (λ q. q.slug === slug) packs ≡ false
    → pack_by_slug slug packs ≡ none
unfolding pack_by_slug
not_found slug [] h = refl
not_found slug (q ∷ packs) h = ground (arith, not_found slug packs)

later_found :
    (q : Pack) (packs xs : List Pack)
    → All (λ p. IsSold p × (pack_by_slug p.slug packs ≡ some p)) xs
    → All (λ p. IsSold p × (pack_by_slug p.slug (q ∷ packs) ≡ some p)) xs
unfolding pack_by_slug
later_found q packs [] h = tt
later_found q packs (x ∷ xs) ((sold, found), h) =
    ((sold, ground (arith, found)), later_found q packs xs h)

all_found :
    (packs : List Pack)
    → All IsSold packs
    → has_duplicate packs ≡ false
    → All (λ p. IsSold p × (pack_by_slug p.slug packs ≡ some p)) packs
unfolding pack_by_slug
all_found [] sold once = tt
all_found (q ∷ packs) sold once = (
  (
    sold.0,
    ground (arith, string_key.same_iff q.slug q.slug, not_found q.slug packs (ground arith)),
  ),
  later_found q packs packs (all_found packs sold.1 (ground arith)),
)

-- Every pack that `parseStripeCreditPacks` returns has a name and a positive number of credits, and
-- is the one that is found under its name.
pub parsed_pack_found :
    (to_integer : String → Option ℤ) (entries : List (List String)) (packs : List Pack)
    → parse_credit_packs to_integer entries ≡ ok packs
    → All (λ p. IsSold p × (pack_by_slug p.slug packs ≡ some p)) packs
parsed_pack_found to_integer entries packs h =
    let (sold, once) = parse_credit_packs-IsSold to_integer entries packs h in
    all_found packs sold once
