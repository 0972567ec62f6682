-- ===== src/Inventory/Movements/Balances.antt =====
-- The balance of one stock item under `lockBalance` and the versioned update (movements.go).
use pontoqap.Base.{
  ℕ, ◌+◌, ◌≡◌, ◌≢◌, refl, Bool, ◌&&◌, none, some, List, [], ◌∷◌, ◌++◌, ◌==◌, if◌then◌else◌, arith,
  Option-cases, inl, inr,
}
use pontoqap.Store.Table.{select_first, update_where, count_where}
use pontoqap.Store.Table.Keys.{find_by, IsUnique}
use pontoqap.Store.Schema.{Balance}
use pontoqap.Inventory.Movements.{balance_key, balances_of, lock_balance, store_balance, Db, ok}

abbrev pub empty_balance : ℕ → ℕ → ℕ → Balance
empty_balance id loc sku = record {
  id = id;
  location_id = loc;
  sku_id = sku;
  available_quantity = 0;
  version = 0;
}

-- A balance given a new quantity, its version counted on.
abbrev pub set_quantity : ℕ → Balance → Balance
set_quantity n b = record b { available_quantity = n; version = b.version + 1 }

-- The available quantity of an item, 0 where it has no balance.
abbrev pub quantity_of : ℕ → ℕ → List Balance → ℕ
quantity_of loc sku t = elim (select_first (balances_of loc sku) t) [
  | none ↦ 0
  | some b ↦ b.available_quantity
]

abbrev pub hit : ℕ → ℕ → Balance → Bool
hit id version b = b.id == id && b.version == version

-- The item's balance set to `n` in one pass, inserted where there is none.
pub put_balance : ℕ → ℕ → ℕ → ℕ → List Balance → List Balance
put_balance new_id loc sku n [] = set_quantity n (empty_balance new_id loc sku) ∷ []
put_balance new_id loc sku n (b ∷ bs) =
    let rest = put_balance new_id loc sku n bs in
    if balances_of loc sku b then set_quantity n b ∷ bs else b ∷ rest

find_by-select_first_ne :
    (p : Balance → Bool) (k : ℕ) (t : List Balance) {b : Balance}
    → select_first p t ≡ some b
    → find_by balance_key k t ≡ none
    → b.id ≢ k
unfolding select_first
find_by-select_first_ne p k [] s f = cc
find_by-select_first_ne p k (x ∷ xs) {b} s f =
    ground (arith, find_by-select_first_ne p k xs {b = b})

-- The versioned update of a key that is not there affects no row.
hit_absent :
    (id version : ℕ) (f : Balance → Balance) (t : List Balance)
    → find_by balance_key id t ≡ none
    → update_where (hit id version) f t ≡ t
unfolding select_first update_where
hit_absent id version f [] h = refl
hit_absent id version f (x ∷ xs) h = ground (arith, hit_absent id version f xs)

-- Where the item has a balance, the versioned update affects a row and sets the balance.
update_found :
    (new_id loc sku n : ℕ) (t : List Balance) {b : Balance}
    → IsUnique balance_key t
    → select_first (balances_of loc sku) t ≡ some b
    → (update_where (hit b.id b.version) (set_quantity n) t ≡ put_balance new_id loc sku n t)
      × (count_where (hit b.id b.version) t ≢ 0)
unfolding select_first update_where put_balance count_where
update_found new_id loc sku n [] u s = cc
update_found new_id loc sku n (x ∷ xs) {b} u s = ground (
  arith,
  hit_absent b.id b.version (set_quantity n) xs,
  find_by-select_first_ne (balances_of loc sku) x.id xs {b = b},
  update_found new_id loc sku n xs {b = b} u.1,
)

-- Where it has none, the new row is the one that the update affects.
update_inserted :
    (new_id loc sku n : ℕ) (t : List Balance)
    → find_by balance_key new_id t ≡ none
    → select_first (balances_of loc sku) t ≡ none
    → (update_where (hit new_id 0) (set_quantity n) (t ++ empty_balance new_id loc sku ∷ [])
        ≡ put_balance new_id loc sku n t)
      × (count_where (hit new_id 0) (t ++ empty_balance new_id loc sku ∷ []) ≢ 0)
unfolding select_first update_where put_balance count_where
update_inserted new_id loc sku n [] f s = ground arith
update_inserted new_id loc sku n (x ∷ xs) f s = ground (arith, update_inserted new_id loc sku n xs)

pub quantity_of-put_balance :
    (new_id loc sku n loc' sku' : ℕ) (t : List Balance)
    → quantity_of loc' sku' (put_balance new_id loc sku n t)
      ≡ (if loc == loc' && sku == sku' then n else quantity_of loc' sku' t)
unfolding put_balance select_first
quantity_of-put_balance new_id loc sku n loc' sku' [] = ground arith
quantity_of-put_balance new_id loc sku n loc' sku' (b ∷ bs) =
    ground (arith, quantity_of-put_balance new_id loc sku n loc' sku' bs)

find_by-put_balance :
    (new_id loc sku n k : ℕ) (t : List Balance)
    → k ≢ new_id
    → find_by balance_key k t ≡ none
    → find_by balance_key k (put_balance new_id loc sku n t) ≡ none
unfolding put_balance select_first
find_by-put_balance new_id loc sku n k [] ne h = ground arith
find_by-put_balance new_id loc sku n k (b ∷ bs) ne h =
    ground (arith, find_by-put_balance new_id loc sku n k bs)

pub put_balance-IsUnique :
    (new_id loc sku n : ℕ) (t : List Balance)
    → find_by balance_key new_id t ≡ none
    → IsUnique balance_key t
    → IsUnique balance_key (put_balance new_id loc sku n t)
unfolding put_balance select_first
put_balance-IsUnique new_id loc sku n [] f u = (refl, tt)
put_balance-IsUnique new_id loc sku n (b ∷ bs) f u =
    ground (
      arith,
      find_by-put_balance new_id loc sku n b.id bs,
      put_balance-IsUnique new_id loc sku n bs,
    )

-- The balance under its lock: what is read is what the item has, and the versioned update of it
-- never finds the version changed.
pub lock-store :
    (new_id loc sku n : ℕ) (db : Db)
    → find_by balance_key new_id db.balances ≡ none
    → IsUnique balance_key db.balances
    → (id : ℕ) × (version : ℕ) × (locked : Db) × (lock_balance new_id loc sku db
        ≡ ok ((id, quantity_of loc sku db.balances, version), locked))
      × (store_balance id version n locked
          ≡ ok (tt, record db { balances = put_balance new_id loc sku n db.balances }))
unfolding lock_balance store_balance
lock-store new_id loc sku n db f u =
    elim (Option-cases (select_first (balances_of loc sku) db.balances)) [
      | inl e ↦ (
        new_id,
        0,
        record db { balances = db.balances ++ empty_balance new_id loc sku ∷ [] },
        ground arith,
        ground (arith, update_inserted new_id loc sku n db.balances f e),
      )
      | inr (b, e) ↦ (
        b.id,
        b.version,
        db,
        ground arith,
        ground (arith, update_found new_id loc sku n db.balances {b = b} u e),
      )
    ]
