-- ===== src/Inventory/Lots/Fifo.antt =====
-- The updates of lots.go, one row at a time by identifier, refine a single pass over the table.
use pontoqap.Base.{
  ℕ, ◌-◌, ◌≡◌, refl, List, [], ◌∷◌, ◌++◌, arith, Bool-cases, inl, inr, if◌then◌else◌, ltb, true,
  false,
}
use pontoqap.Store.Table.{select_where, update_where, select_first, sum_where}
use mathlib.Core.List.{append_assoc}
use pontoqap.Store.Table.Keys.{
  find_by-middle_ne, IsUnique-middle, update_by, IsUnique, update_by-absent,
}
use pontoqap.Store.Schema.{Lot}
use pontoqap.Inventory.Lots.{
  stocks, in_stock, lot_id, consume_rows, lot_rows, consume_lots_fifo_tx, Db, err,
  insufficient_lot_quantity, ok,
}

module _ (loc sku : ℕ) where
  -- The quantity in stock.
  abbrev pub held : List Lot → ℕ
  held t = sum_where (stocks loc sku) (λ r. r.quantity_remaining) t

  -- First in, first out as one pass: each lot of the item gives what it can.
  unfoldable pub fifo : ℕ → List Lot → List Lot
  fifo n [] = []
  fifo n (r ∷ rs) =
      let rest = fifo (if stocks loc sku r then n - r.quantity_remaining else n) rs in
      (if stocks loc sku r then record r { quantity_remaining = r.quantity_remaining - n } else r)
      ∷ rest

  pub fifo_zero : (t : List Lot) → fifo 0 t ≡ t
  unfolding fifo
  fifo_zero [] = refl
  fifo_zero (r ∷ rs) = ground (arith, fifo_zero rs)

  -- An update by the key of a row in the middle of a table reaches that row alone.
  pub update_by-middle :
      (done : List Lot) (r : Lot) (rs : List Lot) (f : Lot → Lot)
      → IsUnique lot_id (done ++ r ∷ rs)
      → update_by lot_id r.id f (done ++ r ∷ rs) ≡ done ++ f r ∷ rs
  unfolding update_where select_first
  update_by-middle [] r rs f u = ground (arith, update_by-absent lot_id r.id f rs)
  update_by-middle (x ∷ done) r rs f u =
      ground (arith, find_by-middle_ne lot_id x.id done r rs u.0, update_by-middle done r rs f u.1)

  append_shift :
      (done : List Lot) (r : Lot) (rs : List Lot) → (done ++ r ∷ []) ++ rs ≡ done ++ r ∷ rs
  append_shift done r rs = append_assoc done (r ∷ []) rs

  IsSplit : (done : List Lot) (n : ℕ) (rs : List Lot) → Type 0
  IsSplit done n rs =
      consume_rows (lot_rows loc sku rs) n (done ++ rs) ≡ (n - held rs, done ++ fifo n rs)

  skip_row :
      (done : List Lot) (n : ℕ) (r : Lot) (rs : List Lot)
      → in_stock loc sku r ≡ false
      → IsSplit (done ++ r ∷ []) n rs
      → IsSplit done n (r ∷ rs)
  unfolding IsSplit select_where fifo sum_where
  skip_row done n r rs out ih =
      ground (arith, ih, append_shift done r rs, append_shift done r (fifo n rs))

  take_row :
      (done : List Lot) (n : ℕ) (r : Lot) (rs : List Lot)
      → in_stock loc sku r ≡ true
      → IsUnique lot_id (done ++ r ∷ rs)
      → IsSplit
          (done ++ record r { quantity_remaining = r.quantity_remaining - n } ∷ [])
          (n - r.quantity_remaining)
          rs
      → IsSplit done n (r ∷ rs)
  unfolding IsSplit select_where fifo sum_where consume_rows
  take_row done n r rs inside u ih =
      let q = r.quantity_remaining in
      let r' : Lot = record r { quantity_remaining = q - n } in
      let take = if ltb n q then n else q in
      ground (
        arith,
        ih,
        append_shift done r' rs,
        append_shift done r' (fifo (n - q) rs),
        fifo_zero rs,
        update_by-middle done r rs (λ x. record x { quantity_remaining = q - take }) u,
      )

  -- The loop over the query's rows leaves the table as one pass does, and what it could not take.
  pub consume_rows-fifo :
      (done : List Lot) (n : ℕ) (rs : List Lot)
      → IsUnique lot_id (done ++ rs)
      → consume_rows (lot_rows loc sku rs) n (done ++ rs) ≡ (n - held rs, done ++ fifo n rs)
  unfolding IsSplit select_where sum_where fifo consume_rows
  consume_rows-fifo done n [] u = ground arith
  consume_rows-fifo done n (r ∷ rs) u = elim (Bool-cases (in_stock loc sku r)) [
    | inl inside ↦
        let q = r.quantity_remaining in
        let r' : Lot = record r { quantity_remaining = q - n } in
        take_row done n r rs inside u (
          consume_rows-fifo (done ++ r' ∷ []) (n - q) rs
            (rw (append_shift done r' rs) (IsUnique-middle lot_id done r r' rs refl u)))
    | inr out ↦
        skip_row done n r rs out
          (consume_rows-fifo (done ++ r ∷ []) n rs (rw (append_shift done r rs) u))
  ]

  -- On a table with unique identifiers, the transaction fails when less than the quantity is held,
  -- and otherwise leaves the lots as one first-in-first-out pass does and nothing else changed.
  pub consume_lots_fifo_tx-fifo :
      (quantity : ℕ) (db : Db)
      → IsUnique lot_id db.lots
      → consume_lots_fifo_tx loc sku quantity db ≡ (
          if ltb (held db.lots) quantity
          then err insufficient_lot_quantity
          else ok (tt, record db { lots = fifo quantity db.lots }))
  unfolding consume_lots_fifo_tx
  consume_lots_fifo_tx-fifo quantity db u =
      rw (consume_rows-fifo [] quantity db.lots u) (ground arith)
