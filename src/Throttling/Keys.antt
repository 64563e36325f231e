-- ===== src/Throttling/Keys.antt =====
-- The keys of different policies, trackers and kinds never meet.
use nestjs_enterprise_starte.Throttling.{hits_key, block_key, Policy, generate_key, policy_name}
use nestjs_enterprise_starte.Prelude.{
  refl, ◌∙◌, sym, ℕ, arith, ap, inr, inl, ◌≢◌, Bool-cases, string_key, false, ◌≡◌, ◌===◌, String,
}
use Prim.Native.Char.{Char, code}
use Prim.Native.String.{◌∷◌, ◌++◌ as ◌⊕◌}
use text.Mathlib.TextLemmas.{cons-append, append_cancel_left}

hits_key_cancel : (name j k : String) → hits_key name j ≡ hits_key name k → j ≡ k
unfolding hits_key
hits_key_cancel name j k h = append_cancel_left ":" j k (
    append_cancel_left name (":" ⊕ j) (":" ⊕ k)
      (append_cancel_left "throttle:" (name ⊕ ":" ⊕ j) (name ⊕ ":" ⊕ k) h))

block_key_cancel : (name j k : String) → block_key name j ≡ block_key name k → j ≡ k
unfolding block_key hits_key
block_key_cancel name j k h =
    append_cancel_left "block:" j k (hits_key_cancel name ("block:" ⊕ j) ("block:" ⊕ k) h)

-- a test on keys is the test on what they are made of
same_of_cancel :
    (f : String → String) (j k : String) → (f j ≡ f k → j ≡ k) → (f j === f k) ≡ (j === k)
same_of_cancel f j k cancel = elim (Bool-cases (j === k)) [
  | inl same ↦
      let e : f j ≡ f k = ap f ((string_key.same_iff j k).0 same) in
      ground (arith, string_key.same_iff (f j) (f k))
  | inr apart ↦ elim (Bool-cases (f j === f k)) [
    | inr far ↦ ground arith
    | inl met ↦
        let e : j ≡ k = cancel ((string_key.same_iff (f j) (f k)).0 met) in
        absurd (ground (arith, string_key.same_iff j k))
  ]
]

pub hits_key_same : (name j k : String) → (hits_key name j === hits_key name k) ≡ (j === k)
hits_key_same name j k = same_of_cancel (hits_key name) j k (hits_key_cancel name j k)

pub block_key_same : (name j k : String) → (block_key name j === block_key name k) ≡ (j === k)
block_key_same name j k = same_of_cancel (block_key name) j k (block_key_cancel name j k)

first : String → ℕ
first (a ∷ s) = code a
first _ = 0

pub starts_apart : (c d : Char) (a b x y : String) → code c ≢ code d → ((c ∷ a) ⊕ x) ≢ ((d ∷ b) ⊕ y)
unfolding first
starts_apart c d a b x y other h =
    other (ap first (sym (cons-append c a x) ∙ h ∙ cons-append d b y))

no_block : (p : Policy) (t x : String) → (policy_name p ⊕ ":" ⊕ t) ≢ ("block:" ⊕ x)
no_block Policy.strict t x = starts_apart "s" "b" "trict" "lock:" (":" ⊕ t) x (omega arith)
no_block Policy.standard t x = starts_apart "d" "b" "efault" "lock:" (":" ⊕ t) x (omega arith)

-- the counter of a caller is no block of any caller
pub hits_key_apart :
    (name : String) (p q : Policy) (t u : String)
    → (hits_key name (generate_key p t) === block_key name (generate_key q u)) ≡ false
unfolding hits_key block_key generate_key
hits_key_apart name p q t u =
    let k = generate_key q u in
    elim (Bool-cases (hits_key name (generate_key p t) === block_key name k)) [
      | inr apart ↦ apart
      | inl met ↦ absurd (
          no_block p t k (
            hits_key_cancel name (generate_key p t) ("block:" ⊕ k)
              ((string_key.same_iff (hits_key name (generate_key p t)) (block_key name k)).0 met)))
    ]

pub block_key_apart :
    (name : String) (p q : Policy) (t u : String)
    → (block_key name (generate_key p t) === hits_key name (generate_key q u)) ≡ false
block_key_apart name p q t u =
    let h = hits_key_apart name q p u t in
    let j = block_key name (generate_key p t) in
    let k = hits_key name (generate_key q u) in
    ground (arith, string_key.same_iff j k, string_key.same_iff k j)

-- the policy can be read off a key
pub generate_key_policy :
    (p q : Policy) (t u : String) → generate_key p t ≡ generate_key q u → p ≡ q
unfolding generate_key
generate_key_policy Policy.strict Policy.strict t u h = refl
generate_key_policy Policy.standard Policy.standard t u h = refl
generate_key_policy Policy.strict Policy.standard t u h =
    absurd (starts_apart "s" "d" "trict" "efault" (":" ⊕ t) (":" ⊕ u) (omega arith) h)
generate_key_policy Policy.standard Policy.strict t u h =
    absurd (starts_apart "d" "s" "efault" "trict" (":" ⊕ t) (":" ⊕ u) (omega arith) h)
