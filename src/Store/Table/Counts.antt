-- ===== src/Store/Table/Counts.antt =====
-- The number of rows that a test meets, and how each statement changes it.
use pontoqap.Base.{
  ℕ, ◌+◌, ◌≡◌, refl, Bool, none, some, List, [], ◌∷◌, ◌++◌, if◌then◌else◌, arith, ◌≤◌, true,
  Bool-cases, inl, inr, ◌==◌,
}
use pontoqap.Store.Table.{select_first, update_where, count_where}
use pontoqap.Store.Table.Keys.{find_by, update_by, IsUnique, update_by-absent}

module _ {ℓ} {A : Type ℓ} (p : A → Bool) where
  pub count_where-append :
      (xs ys : List A) → count_where p (xs ++ ys) ≡ count_where p xs + count_where p ys
  unfolding count_where
  count_where-append [] ys = omega arith
  count_where-append (x ∷ xs) ys = ground (arith, count_where-append xs ys)

  -- A look-up that finds no row, and a count of 0.
  pub count_where-none : (t : List A) → select_first p t ≡ none → count_where p t ≡ 0
  unfolding count_where select_first
  count_where-none [] h = refl
  count_where-none (x ∷ xs) h = ground (arith, count_where-none xs)

  pub count_where-some : (t : List A) {r : A} → select_first p t ≡ some r → 1 ≤ count_where p t
  unfolding count_where select_first
  count_where-some [] h = cc
  count_where-some (x ∷ xs) {r} h = ground (arith, count_where-some xs {r = r})

  pub select_first-meets : (t : List A) {r : A} → select_first p t ≡ some r → p r ≡ true
  unfolding select_first
  select_first-meets [] h = cc
  select_first-meets (x ∷ xs) {r} h = ground (arith, select_first-meets xs {r = r})

  -- An update by key moves a count by the change of the row that it meets.
  pub count_where-update_by :
      (key : A → ℕ) (k : ℕ) (g : A → A) (t : List A) {r : A}
      → IsUnique key t
      → find_by key k t ≡ some r
      → count_where p (update_by key k g t) + (if p r then 1 else 0)
        ≡ count_where p t + (if p (g r) then 1 else 0)
  unfolding count_where update_where select_first
  count_where-update_by key k g [] u h = ground arith
  count_where-update_by key k g (x ∷ xs) {r} u h =
      ground (arith, update_by-absent key k g xs, count_where-update_by key k g xs {r = r} u.1)

  -- With unique keys, a row that a test finds is the one that its key finds.
  pub find_by-select_first :
      (key : A → ℕ) (t : List A) {r : A}
      → IsUnique key t
      → select_first p t ≡ some r
      → find_by key (key r) t ≡ some r
  unfolding select_first
  find_by-select_first key [] u h = ground arith
  find_by-select_first key (x ∷ xs) {r} u h = elim (Bool-cases (p x)) [
    | inl hit ↦ let same : r ≡ x = ground arith in rw same (ground arith)
    | inr miss ↦
        let later = find_by-select_first key xs {r = r} u.1 (ground arith) in
        elim (Bool-cases (key x == key r)) [
          | inl clash ↦ absurd (ground (arith, u.0))
          | inr other ↦ rw other later
        ]
  ]
