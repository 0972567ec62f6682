-- ===== src/Store/Table/Sums.antt =====
-- Sums over a table, and how each statement changes them.
use pontoqap.Base.{ℕ, ◌+◌, ◌≡◌, refl, Bool, some, List, [], ◌∷◌, ◌++◌, if◌then◌else◌, arith}
use pontoqap.Store.Table.{select_first, update_where, sum_where}
use pontoqap.Store.Table.Keys.{find_by, update_by, IsUnique, update_by-absent}

module _ {ℓ} {A : Type ℓ} (p : A → Bool) (f : A → ℕ) where
  pub sum_where-append :
      (xs ys : List A) → sum_where p f (xs ++ ys) ≡ sum_where p f xs + sum_where p f ys
  unfolding sum_where
  sum_where-append [] ys = omega arith
  sum_where-append (x ∷ xs) ys = ground (arith, sum_where-append xs ys)

  -- An update by key moves a sum by the change of the row that it meets.
  pub sum_where-update_by :
      (key : A → ℕ) (k : ℕ) (g : A → A) (t : List A) {r : A}
      → IsUnique key t
      → find_by key k t ≡ some r
      → sum_where p f (update_by key k g t) + (if p r then f r else 0)
        ≡ sum_where p f t + (if p (g r) then f (g r) else 0)
  unfolding sum_where update_where select_first
  sum_where-update_by key k g [] u h = ground arith
  sum_where-update_by key k g (x ∷ xs) {r} u h =
      ground (arith, update_by-absent key k g xs, sum_where-update_by key k g xs {r = r} u.1)

  -- An update that keeps what is summed keeps the sum.
  pub sum_where-update_same :
      (q : A → Bool) (g : A → A) (t : List A)
      → ((r : A) → (if p (g r) then f (g r) else 0) ≡ (if p r then f r else 0))
      → sum_where p f (update_where q g t) ≡ sum_where p f t
  unfolding sum_where update_where
  sum_where-update_same q g [] h = refl
  sum_where-update_same q g (x ∷ xs) h = ground (arith, h x, sum_where-update_same q g xs h)
