-- ===== src/Store/Table/Rows.antt =====
-- Predicates that hold of every row.
use pontoqap.Store.Table.Keys.{IsUnique, find_by, update_by, update_by-absent}
use pontoqap.Base.{
  ◌≡◌, Bool, some, List, [], ◌∷◌, ◌++◌, All, arith, Bool-cases, inl, inr, true, ℕ, ◌==◌,
}
use pontoqap.Store.Table.{select_first, update_where, delete_where}

module _ {ℓ κ} {A : Type ℓ} (P : A → Type κ) where
  pub All-select_first :
      (q : A → Bool) (t : List A) {r : A} → All P t → select_first q t ≡ some r → P r
  unfolding select_first
  All-select_first q [] h e = cc
  All-select_first q (x ∷ xs) {r} h e = elim (Bool-cases (q x)) [
    | inl hit ↦ let same : r ≡ x = ground arith in rw same h.0
    | inr miss ↦ All-select_first q xs {r = r} h.1 (ground arith)
  ]

  pub All-update_where :
      (q : A → Bool) (f : A → A) (t : List A)
      → ((r : A) → q r ≡ true → P r → P (f r))
      → All P t
      → All P (update_where q f t)
  unfolding update_where
  All-update_where q f [] keep h = tt
  All-update_where q f (x ∷ xs) keep h = elim (Bool-cases (q x)) [
    | inl hit ↦ rw hit (keep x hit h.0, All-update_where q f xs keep h.1)
    | inr miss ↦ rw miss (h.0, All-update_where q f xs keep h.1)
  ]

  pub All-append : (xs ys : List A) → All P xs → All P ys → All P (xs ++ ys)
  All-append [] ys h k = k
  All-append (x ∷ xs) ys h k = (h.0, All-append xs ys h.1 k)

  pub All-delete_where : (q : A → Bool) (t : List A) → All P t → All P (delete_where q t)
  unfolding delete_where
  All-delete_where q [] h = tt
  All-delete_where q (x ∷ xs) h = elim (Bool-cases (q x)) [
    | inl hit ↦ rw hit (All-delete_where q xs h.1)
    | inr miss ↦ rw miss (h.0, All-delete_where q xs h.1)
  ]

  -- An update by key changes one row at most, so only that row's image has to be looked at.
  pub All-update_by :
      (key : A → ℕ) (k : ℕ) (f : A → A) (t : List A) {r : A}
      → IsUnique key t
      → find_by key k t ≡ some r
      → P (f r)
      → All P t
      → All P (update_by key k f t)
  unfolding select_first update_where
  All-update_by key k f [] u e now h = tt
  All-update_by key k f (x ∷ xs) {r} u e now h = elim (Bool-cases (key x == k)) [
    | inl hit ↦
        let same : r ≡ x = ground arith in
        let rest : update_by key k f xs ≡ xs = ground (arith, update_by-absent key k f xs) in
        rw (hit, rest) (rw same at now, h.1)
    | inr miss ↦ rw miss (h.0, All-update_by key k f xs {r = r} u.1 (ground arith) now h.1)
  ]
