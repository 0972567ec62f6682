-- ===== src/Store/Table/Keep.antt =====
-- Updates of any rows that leave the keys alone.
use pontoqap.Base.{
  ℕ, ◌≡◌, refl, Bool, none, some, List, [], ◌∷◌, arith, Bool-cases, inl, inr, if◌then◌else◌, ◌==◌,
}
use pontoqap.Store.Table.{select_first, update_where}
use pontoqap.Store.Table.Keys.{find_by, IsUnique}

module _ {ℓ} {A : Type ℓ} (key : A → ℕ) (q : A → Bool) (f : A → A)
    (same : (r : A) → key (f r) ≡ key r) where
  find_by-update_none :
      (k : ℕ) (t : List A) → find_by key k t ≡ none → find_by key k (update_where q f t) ≡ none
  unfolding select_first update_where
  find_by-update_none k [] h = refl
  find_by-update_none k (x ∷ xs) h = ground (arith, same x, find_by-update_none k xs)

  pub update_where-IsUnique : (t : List A) → IsUnique key t → IsUnique key (update_where q f t)
  unfolding update_where
  update_where-IsUnique [] u = tt
  update_where-IsUnique (x ∷ xs) u =
      ground (arith, same x, find_by-update_none (key x) xs u.0, update_where-IsUnique xs u.1)

  -- A row found after the update is a row found before it, updated or not.
  pub find_by-update_where :
      (k : ℕ) (t : List A) {r' : A}
      → find_by key k (update_where q f t) ≡ some r'
      → (r : A) × (find_by key k t ≡ some r) × (r' ≡ (if q r then f r else r))
  unfolding select_first update_where
  find_by-update_where k [] e = cc
  find_by-update_where k (x ∷ xs) {r'} e = elim (Bool-cases (key x == k)) [
    | inl hit ↦ (x, rw hit, ground (arith, same x))
    | inr miss ↦
        let (r, found, image) = find_by-update_where k xs {r' = r'} (ground (arith, same x)) in
        (r, rw miss found, image)
  ]

  -- A row found before the update is found, updated or not, after it.
  pub find_by-update_some :
      (k : ℕ) (t : List A) {r : A}
      → find_by key k t ≡ some r
      → find_by key k (update_where q f t) ≡ some (if q r then f r else r)
  unfolding select_first update_where
  find_by-update_some k [] e = cc
  find_by-update_some k (x ∷ xs) {r} e = elim (Bool-cases (key x == k)) [
    | inl hit ↦ ground (arith, same x)
    | inr miss ↦ ground (arith, same x, find_by-update_some k xs {r = r})
  ]
