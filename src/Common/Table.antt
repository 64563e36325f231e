-- ===== src/Common/Table.antt =====
-- What the application relies on of a stored table (a Postgres table with a unique key behind
-- Prisma, or a Redis key space): rows are read and written by key, and no write touches another
-- key. A list of pairs shows that such a table exists.
use nestjs_enterprise_starte.Prelude.{
  ◌≡◌, refl, Option, none, some, List, [], ◌∷◌, arith, Key, ◌===◌, if◌then◌else◌,
}

pub record Table (K V : Type 0) (e : Key K) : Type 1 where
  pub State : Type 0
  pub lookup : K → State → Option V
  pub put : K → V → State → State
  pub remove : K → State → State
  pub lookup-put :
      (k j : K) (v : V) (t : State)
      → lookup j (put k v t) ≡ (if e.same k j then some v else lookup j t)
  pub lookup-remove :
      (k j : K) (t : State) → lookup j (remove k t) ≡ (if e.same k j then none else lookup j t)

module _ {K V : Type 0} ⦃e : Key K⦄ where
  unfoldable pub search_rows : K → List (K × V) → Option V
  search_rows k [] = none
  search_rows k ((j, v) ∷ rows) = if j === k then some v else search_rows k rows

  unfoldable pub drop_rows : K → List (K × V) → List (K × V)
  drop_rows k [] = []
  drop_rows k ((j, v) ∷ rows) =
      let rest = drop_rows k rows in if j === k then rest else (j, v) ∷ rest

  pub search_rows-drop_rows :
      (k j : K) (rows : List (K × V))
      → search_rows j (drop_rows k rows) ≡ (if k === j then none else search_rows j rows)
  unfolding search_rows drop_rows
  search_rows-drop_rows k j [] = ground arith
  search_rows-drop_rows k j ((i, v) ∷ rows) =
      ground (arith, e.same_iff i k, e.same_iff i j, e.same_iff k j, search_rows-drop_rows k j rows)

  pub search_rows-cons :
      (k j : K) (v : V) (rows : List (K × V))
      → search_rows j ((k, v) ∷ rows) ≡ (if k === j then some v else search_rows j rows)
  unfolding search_rows
  search_rows-cons k j v rows = refl

-- a table as a list of rows, for the examples
abbrev pub rows_table : (K V : Type 0) (e : Key K) → Table K V e
rows_table K V e = record {
  State = List (K × V);
  lookup = search_rows ⦃e = e⦄;
  put = λ k v rows. (k, v) ∷ rows;
  remove = drop_rows ⦃e = e⦄;
  lookup-put = search_rows-cons ⦃e = e⦄;
  lookup-remove = search_rows-drop_rows ⦃e = e⦄;
}
