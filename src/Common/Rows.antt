-- ===== src/Common/Rows.antt =====
-- What the application relies on of a stored table that it also searches and counts: the rows, in
-- the order in which the database returns them, and what an insert, an update and a delete make of
-- them. A list shows that such a table exists.
use nestjs_enterprise_starte.Prelude.{◌+◌, ℕ, ◌≡◌, refl, Bool, List, [], ◌∷◌, if◌then◌else◌}

-- the rows after `update` and `delete`
module _ {V : Type 0} where
  abbrev pub update_rows : (V → Bool) → (V → V) → List V → List V
  update_rows p f [] = []
  update_rows p f (v ∷ rows) = (if p v then f v else v) ∷ update_rows p f rows

  abbrev pub delete_rows : (V → Bool) → List V → List V
  delete_rows p [] = []
  delete_rows p (v ∷ rows) = let rest = delete_rows p rows in if p v then rest else v ∷ rest

  -- `SELECT count(*) WHERE p`
  abbrev pub count_rows : (V → Bool) → List V → ℕ
  count_rows p [] = 0
  count_rows p (v ∷ rows) = (if p v then 1 else 0) + count_rows p rows

pub record Rows (V : Type 0) : Type 1 where
  pub State : Type 0
  pub rows : State → List V
  pub insert : V → State → State
  pub update : (V → Bool) → (V → V) → State → State
  pub delete : (V → Bool) → State → State
  pub rows-insert : (v : V) (s : State) → rows (insert v s) ≡ v ∷ rows s
  pub rows-update :
      (p : V → Bool) (f : V → V) (s : State) → rows (update p f s) ≡ update_rows p f (rows s)
  pub rows-delete : (p : V → Bool) (s : State) → rows (delete p s) ≡ delete_rows p (rows s)

abbrev pub list_rows : (V : Type 0) → Rows V
list_rows V = record {
  State = List V;
  rows = λ s. s;
  insert = λ v s. v ∷ s;
  update = update_rows;
  delete = delete_rows;
  rows-insert = λ v s. refl;
  rows-update = λ p f s. refl;
  rows-delete = λ p s. refl;
}
