-- ===== src/Store/Table.antt =====
-- SQL statements on one table, a list of rows in the order of insertion. `WHERE id = $1` is a test
-- like any other: that it meets at most one row is the primary key's promise, `IsUnique`.
pub mod Keys
pub mod Sums
pub mod Rows
pub mod Keep
pub mod Counts
use pontoqap.Base.{
  ℕ, suc, ◌+◌, ◌≡◌, Bool, true, false, Option, none, some, List, [], ◌∷◌, ◌++◌, ◌==◌, if◌then◌else◌,
  ltb,
}

-- The smaller of a value and a minimum that may be NULL.
abbrev pub least : ℕ → Option ℕ → ℕ
least a none = a
least a (some b) = if ltb b a then b else a

module _ {ℓ} {A : Type ℓ} where
  -- `SELECT … WHERE p LIMIT 1`, in the order of insertion.
  unfoldable pub select_first : (A → Bool) → List A → Option A
  select_first p [] = none
  select_first p (r ∷ rs) = if p r then some r else select_first p rs

  -- `SELECT … WHERE p`.
  unfoldable pub select_where : (A → Bool) → List A → List A
  select_where p [] = []
  select_where p (r ∷ rs) = let rest = select_where p rs in if p r then r ∷ rest else rest

  -- `UPDATE … SET f WHERE p`.
  unfoldable pub update_where : (A → Bool) → (A → A) → List A → List A
  update_where p f [] = []
  update_where p f (r ∷ rs) = (if p r then f r else r) ∷ update_where p f rs

  -- `DELETE … WHERE p`.
  unfoldable pub delete_where : (A → Bool) → List A → List A
  delete_where p [] = []
  delete_where p (r ∷ rs) = let rest = delete_where p rs in if p r then rest else r ∷ rest

  -- `SELECT COUNT(*) … WHERE p`, and the rows that an update of them affects.
  unfoldable pub count_where : (A → Bool) → List A → ℕ
  count_where p [] = 0
  count_where p (r ∷ rs) = (if p r then 1 else 0) + count_where p rs

  -- `SELECT COALESCE(SUM(f), 0) … WHERE p`.
  unfoldable pub sum_where : (A → Bool) → (A → ℕ) → List A → ℕ
  sum_where p f [] = 0
  sum_where p f (r ∷ rs) = (if p r then f r else 0) + sum_where p f rs

  -- `SELECT COALESCE(MAX(f), 0) … WHERE p`.
  unfoldable pub max_where : (A → Bool) → (A → ℕ) → List A → ℕ
  max_where p f [] = 0
  max_where p f (r ∷ rs) =
      let rest = max_where p f rs in if p r then (if ltb rest (f r) then f r else rest) else rest

  -- `SELECT MIN(f) … WHERE p`, which is NULL over no row.
  unfoldable pub min_where : (A → Bool) → (A → ℕ) → List A → Option ℕ
  min_where p f [] = none
  min_where p f (r ∷ rs) =
      let rest = min_where p f rs in if p r then some (least (f r) rest) else rest

  -- `INSERT INTO …`.
  abbrev pub insert_row : A → List A → List A
  insert_row r t = t ++ r ∷ []
