-- ===== src/Inventory/Lots/Held.antt =====
-- What a first-in-first-out pass takes from the lots (lots.go).
use pontoqap.Base.{ℕ, ◌-◌, ◌≡◌, ◌≢◌, ◌⊎◌, refl, List, [], ◌∷◌, none, arith}
use pontoqap.Store.Table.{select_first, sum_where}
use pontoqap.Store.Table.Keys.{find_by, IsUnique}
use pontoqap.Store.Schema.{Lot}
use pontoqap.Inventory.Lots.{lot_id}
use pontoqap.Inventory.Lots.Fifo.{held, fifo}

module _ (loc sku : ℕ) where
  -- The stock falls by what is taken.
  pub held-fifo : (n : ℕ) (t : List Lot) → held loc sku (fifo loc sku n t) ≡ held loc sku t - n
  unfolding fifo sum_where
  held-fifo n [] = omega arith
  held-fifo n (r ∷ rs) = ground (arith, held-fifo n rs, held-fifo (n - r.quantity_remaining) rs)

  -- No other item's stock changes.
  pub held-fifo_other :
      (loc' sku' n : ℕ) (t : List Lot)
      → (loc ≢ loc') ⊎ (sku ≢ sku')
      → held loc' sku' (fifo loc sku n t) ≡ held loc' sku' t
  unfolding fifo sum_where
  held-fifo_other loc' sku' n [] other = refl
  held-fifo_other loc' sku' n (r ∷ rs) other = ground (
    arith,
    held-fifo_other loc' sku' n rs,
    held-fifo_other loc' sku' (n - r.quantity_remaining) rs,
  )

  -- The keys stay.
  pub find_by-fifo :
      (k n : ℕ) (t : List Lot)
      → find_by lot_id k t ≡ none
      → find_by lot_id k (fifo loc sku n t) ≡ none
  unfolding fifo select_first
  find_by-fifo k n [] h = refl
  find_by-fifo k n (r ∷ rs) h =
      ground (arith, find_by-fifo k n rs, find_by-fifo k (n - r.quantity_remaining) rs)

  pub fifo-IsUnique :
      (n : ℕ) (t : List Lot) → IsUnique lot_id t → IsUnique lot_id (fifo loc sku n t)
  unfolding fifo
  fifo-IsUnique n [] u = tt
  fifo-IsUnique n (r ∷ rs) u = ground (
    arith,
    find_by-fifo r.id n rs,
    find_by-fifo r.id (n - r.quantity_remaining) rs,
    fifo-IsUnique n rs,
    fifo-IsUnique (n - r.quantity_remaining) rs,
  )
