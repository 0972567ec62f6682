-- ===== src/Store/Table/Keys.antt =====
-- Tables with a key: look-ups and updates by key.
use pontoqap.Base.{
  ℕ, ◌≡◌, refl, Option, none, some, List, [], ◌∷◌, ◌++◌, ◌==◌, if◌then◌else◌, arith, ◌≢◌,
}
use pontoqap.Store.Table.{select_first, update_where}

module _ {ℓ} {A : Type ℓ} (key : A → ℕ) where
  -- `SELECT … WHERE key = $1`.
  abbrev pub find_by : ℕ → List A → Option A
  find_by k t = select_first (λ r. key r == k) t

  -- `UPDATE … WHERE key = $1`.
  abbrev pub update_by : ℕ → (A → A) → List A → List A
  update_by k f t = update_where (λ r. key r == k) f t

  -- No two rows share a key: the primary key's constraint.
  abbrev pub IsUnique : List A → Type ℓ
  IsUnique [] = Unit
  IsUnique (r ∷ rs) = (find_by (key r) rs ≡ none) × IsUnique rs

  pub find_by-insert :
      (k : ℕ) (r : A) (t : List A)
      → find_by k (t ++ r ∷ [])
        ≡ (elim (find_by k t) [ none ↦ if key r == k then some r else none | some x ↦ some x ])
  unfolding select_first
  find_by-insert k r [] = refl
  find_by-insert k r (x ∷ xs) = ground (arith, find_by-insert k r xs)

  -- A row inserted under a new key keeps the constraint.
  pub insert-IsUnique :
      (r : A) (t : List A) → find_by (key r) t ≡ none → IsUnique t → IsUnique (t ++ r ∷ [])
  unfolding select_first
  insert-IsUnique r [] h u = (refl, tt)
  insert-IsUnique r (x ∷ xs) h u = ground (arith, find_by-insert (key x) r xs, insert-IsUnique r xs)

  pub find_by-append :
      (k : ℕ) (xs ys : List A) → find_by k xs ≡ none → find_by k (xs ++ ys) ≡ find_by k ys
  unfolding select_first
  find_by-append k [] ys h = refl
  find_by-append k (x ∷ xs) ys h = ground (arith, find_by-append k xs ys)

  -- An update by a key that no row has changes nothing.
  pub update_by-absent : (k : ℕ) (f : A → A) (t : List A) → find_by k t ≡ none → update_by k f t ≡ t
  unfolding select_first update_where
  update_by-absent k f [] h = refl
  update_by-absent k f (x ∷ xs) h = ground (arith, update_by-absent k f xs)

  -- An update that leaves the keys alone is seen by exactly the look-ups of its key.
  pub find_by-update_by :
      (j k : ℕ) (f : A → A) (t : List A)
      → ((r : A) → key (f r) ≡ key r)
      → find_by j (update_by k f t) ≡ (
          if j == k
          then (elim (find_by j t) [ none ↦ none | some r ↦ some (f r) ])
          else find_by j t)
  unfolding select_first update_where
  find_by-update_by j k f [] h = ground arith
  find_by-update_by j k f (x ∷ xs) h = ground (arith, h x, find_by-update_by j k f xs h)

  pub update_by-IsUnique :
      (k : ℕ) (f : A → A) (t : List A)
      → ((r : A) → key (f r) ≡ key r)
      → IsUnique t
      → IsUnique (update_by k f t)
  unfolding update_where
  update_by-IsUnique k f [] h u = tt
  update_by-IsUnique k f (x ∷ xs) h u = ground (
    arith,
    find_by-update_by (key (if key x == k then f x else x)) k f xs h,
    h x,
    update_by-IsUnique k f xs h,
  )

  -- A row is found by its key, so a key that is not found is not its key.
  pub find_by-middle_ne :
      (k : ℕ) (xs : List A) (r : A) (ys : List A) → find_by k (xs ++ r ∷ ys) ≡ none → key r ≢ k
  unfolding select_first
  find_by-middle_ne k [] r ys h = ground arith
  find_by-middle_ne k (x ∷ xs) r ys h = ground (arith, find_by-middle_ne k xs r ys)

  find_by-middle_same :
      (k : ℕ) (xs : List A) (r r' : A) (ys : List A)
      → key r' ≡ key r
      → find_by k (xs ++ r ∷ ys) ≡ none
      → find_by k (xs ++ r' ∷ ys) ≡ none
  unfolding select_first
  find_by-middle_same k [] r r' ys same h = ground arith
  find_by-middle_same k (x ∷ xs) r r' ys same h =
      ground (arith, find_by-middle_same k xs r r' ys same)

  -- A row may be replaced by another of the same key.
  pub IsUnique-middle :
      (xs : List A) (r r' : A) (ys : List A)
      → key r' ≡ key r
      → IsUnique (xs ++ r ∷ ys)
      → IsUnique (xs ++ r' ∷ ys)
  IsUnique-middle [] r r' ys same u = rw same u
  IsUnique-middle (x ∷ xs) r r' ys same u =
      (find_by-middle_same (key x) xs r r' ys same u.0, IsUnique-middle xs r r' ys same u.1)

  -- What is found by a key has it.
  pub find_by-key : (k : ℕ) (t : List A) {r : A} → find_by k t ≡ some r → key r ≡ k
  unfolding select_first
  find_by-key k [] e = cc
  find_by-key k (x ∷ xs) {r} e = ground (arith, find_by-key k xs {r = r})

  -- Two updates by one key are one update.
  pub update_by-twice :
      (k : ℕ) (f g : A → A) (t : List A)
      → ((r : A) → key (f r) ≡ key r)
      → update_by k g (update_by k f t) ≡ update_by k (λ r. g (f r)) t
  unfolding update_where
  update_by-twice k f g [] h = refl
  update_by-twice k f g (x ∷ xs) h = ground (arith, h x, update_by-twice k f g xs h)
