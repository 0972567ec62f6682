-- ===== src/Sales/Checkout/Success.antt =====
-- A checkout that succeeds, and the same request sent again (sales/service.go).
use pontoqap.Base.{
  ℕ, ◌≡◌, Option, Option-cases, Bool, none, some, List, [], ◌∷◌, ◌++◌, ◌==◌, arith, inl, inr, ap,
  ◌∙◌,
}
use pontoqap.Base.Int.{ℤ}
use pontoqap.Store.Schema.{Db, Customer, CustomerStatus}
use pontoqap.Store.Shop.{Order}
use pontoqap.Store.Tx.{Error, ok, err, run_tx, Result-cases}
use pontoqap.Store.Table.{select_first}
use pontoqap.Store.Table.Keys.{find_by-append}
use pontoqap.Billing.Dates.{Location}
use pontoqap.Catalog.Prices.{Float64}
use pontoqap.Customers.{get_customer, ensure_not_blocked}
use pontoqap.Customers.Collaborators.{collaborator_margin_for_customer}
use pontoqap.Sales.Carts.{CartView, ensure_cart, get_or_create_cart, load_cart}
use pontoqap.Sales.Placing.{CheckoutLine, CheckoutIds, place_order}
use pontoqap.Sales.Placing.Orders.{IsPlaced, place_order-IsPlaced}
use pontoqap.Sales.Checkout.{
  checkout, checkout_cart, checkout_tx, checkout_lines, recalculate_sold, recalculate_ended,
}
use pontoqap.Sales.Checkout.Untouched.{
  Untouched, Untouched-trans, Untouched-refl, ensure_cart-Untouched, checkout_lines-Untouched,
  recalculate_sold-Untouched, recalculate_ended-Untouched,
}

abbrev pub by_key : ℕ → Order → Bool
by_key key o = o.idempotency_key == key

approved :
    (cust : Customer) {u : Unit {0}}
    → ensure_not_blocked (some cust) ≡ ok u
    → cust.status ≡ CustomerStatus.approved_customer
unfolding ensure_not_blocked
approved cust h = ground arith

stored_by_key :
    {key : ℕ} (o : Order) (orders : List Order)
    → select_first (by_key key) orders ≡ none
    → o.idempotency_key ≡ key
    → select_first (by_key key) (orders ++ o ∷ []) ≡ some o
unfolding select_first
stored_by_key {key} o orders new same =
    find_by-append (λ (x : Order). x.idempotency_key) key orders (o ∷ []) new ∙ ground arith

module _ {W : Type 0} (f : Float64 W) (loc : ℕ) (zone : Location) where
  -- The order is placed between tables that agree with those before and after the pricing.
  IsPlaced-between :
      (ids : CheckoutIds) (cust : Customer) (key now : ℕ) (lines : List CheckoutLine) (a b : Db)
      (o : Order) (c d : Db)
      → Untouched a b
      → IsPlaced ids cust key now lines b o c
      → Untouched c d
      → IsPlaced ids cust key now lines a o d
  IsPlaced-between ids cust key now lines a b o c d before p after = record {
    order = p.order;
    within = p.within;
    charged = ground (arith, before, after, p.charged);
    stored = ground (arith, before, after, p.stored);
    itemized = ground (arith, before, after, p.itemized);
    billed = (p.billed.0, ground (arith, before, after, p.billed.1));
  }

  module _ (ids : CheckoutIds) (key actor now : ℕ) where
    checkout_tx-IsPlaced :
        (cust : Customer) (margin : Option ℤ) (cart : CartView) (pool db : Db) (o : Order)
        (lines : List CheckoutLine) (db' : Db)
        → checkout_tx f loc zone ids cust margin cart key actor now pool db ≡ ok ((o, lines), db')
        → IsPlaced ids cust key now lines db o db'
    unfolding checkout_tx
    checkout_tx-IsPlaced cust margin cart pool db o lines db' e =
        elim (Result-cases (checkout_lines f loc pool margin cart.items [] db)) [
          | inl (er, h) ↦ ground arith
          | inr ((ls, db1), h) ↦
              elim (Result-cases
                (place_order loc zone ids cust cart.cart_id key actor now ls db1)) [
                  | inl (er, h') ↦ ground arith
                  | inr ((o', db2), h') ↦
                      let same : o' ≡ o = ground arith in
                      let same' : ls ≡ lines = ground arith in
                      let same'' : db2 ≡ db' = ground arith in
                      let placed =
                        place_order-IsPlaced loc zone ids cust key actor now cart.cart_id ls db1
                          h' in
                      rw (← same, ← same', ← same'')
                        (IsPlaced-between ids cust key now ls db db1 o' db2 db2
                          (checkout_lines-Untouched f loc pool margin cart.items [] db ls db1 h)
                          placed (Untouched-refl db2))
                ]
        ]

    checkout_cart-IsPlaced :
        (cust : Customer) (db : Db) (o : Order) (db' : Db)
        → checkout_cart f loc zone ids cust key actor now db ≡ (ok o, db')
        → (lines : List CheckoutLine) × IsPlaced ids cust key now lines db o db'
    unfolding checkout_cart get_or_create_cart run_tx
    checkout_cart-IsPlaced cust db o db' e =
        let margin = collaborator_margin_for_customer cust.id db in
        let (cart_id, db1) = ensure_cart ids.cart cust.id db in
        elim (Result-cases (load_cart f loc cart_id cust.id db1)) [
          | inl (er, h) ↦ absurd (ground arith)
          | inr (cart, h) ↦
              elim (Result-cases
                (checkout_tx f loc zone ids cust margin cart key actor now db1 db1)) [
                  | inl (er, h') ↦ absurd (ground arith)
                  | inr (((o', lines), db2), h') ↦
                      let db3 = recalculate_sold f loc [] actor lines db2 in
                      let same : o' ≡ o = ground arith in
                      let same' : db' ≡ recalculate_ended f loc actor lines db3 = ground arith in
                      (
                        lines,
                        rw (← same, same')
                            (IsPlaced-between ids cust key now lines db db1 o' db2
                              (recalculate_ended f loc actor lines db3)
                              (ensure_cart-Untouched ids.cart cust.id db)
                              (checkout_tx-IsPlaced cust margin cart db1 db1 o' lines db2 h')
                              (Untouched-trans db2 db3 (recalculate_ended f loc actor lines db3)
                                (recalculate_sold-Untouched f loc [] actor lines db2)
                                (recalculate_ended-Untouched f loc actor lines db3))),
                      )
                ]
        ]

    -- A new key: a checkout that succeeds is of an approved customer and places the order of some
    -- lines: its total is theirs and within the customer's limit, the customer owes that much more,
    -- and the order, its items and one billing entry of its total are added.
    pub checkout-IsPlaced :
        (customer_id : ℕ) (db : Db) {o : Order} {db' : Db}
        → select_first (by_key key) db.shop.orders ≡ none
        → checkout f loc zone ids customer_id (some key) actor now db ≡ (ok o, db')
        → (cust : Customer) × (lines : List CheckoutLine) × (get_customer customer_id db
            ≡ some cust)
          × (cust.status ≡ CustomerStatus.approved_customer)
          × IsPlaced ids cust key now lines db o db'
    unfolding checkout
    checkout-IsPlaced customer_id db {o} {db'} new e =
        elim (Option-cases (get_customer customer_id db)) [
          | inl missing ↦ absurd (ground arith)
          | inr (cust, found) ↦ elim (Result-cases (ensure_not_blocked (some cust))) [
            | inl (er, h) ↦ absurd (ground arith)
            | inr (u, h) ↦
                let run : checkout_cart f loc zone ids cust key actor now db ≡ (ok o, db') =
                  ground arith in
                let (lines, placed) = checkout_cart-IsPlaced cust db o db' run in
                (cust, lines, found, approved cust h, placed)
          ]
        ]

    -- A key is used once: after a checkout that succeeded, a request with the same key, whoever
    -- sends it and whenever, is given the same order, and changes nothing.
    pub checkout-again :
        (customer_id : ℕ) (db : Db) {o : Order} {db' : Db}
        → checkout f loc zone ids customer_id (some key) actor now db ≡ (ok o, db')
        → (ids' : CheckoutIds) (customer_id' actor' now' : ℕ)
        → checkout f loc zone ids' customer_id' (some key) actor' now' db' ≡ (ok o, db')
    unfolding checkout
    checkout-again customer_id db {o} {db'} e ids' customer_id' actor' now' =
        elim (Option-cases (select_first (by_key key) db.shop.orders)) [
          | inl new ↦
              let (cust, lines, _, _, placed) =
                checkout-IsPlaced customer_id db {o = o} {db' = db'} new e in
              let there =
                stored_by_key o db.shop.orders new
                  (ap (λ (x : Order). x.idempotency_key) placed.order) in
              ground (arith, there, placed.stored)
          | inr (o', old) ↦ ground arith
        ]

    -- A checkout that fails leaves customers, orders, their items and billing entries as they were.
    pub checkout-err :
        (customer_id : ℕ) (db : Db) {e : Error} {db' : Db}
        → checkout f loc zone ids customer_id (some key) actor now db ≡ (err e, db')
        → Untouched db db'
    unfolding checkout checkout_cart get_or_create_cart run_tx
    checkout-err customer_id db {e} {db'} h = elim (Option-cases (get_customer customer_id db)) [
      | inl missing ↦ ground arith
      | inr (cust, found) ↦ ground (arith, ensure_cart-Untouched ids.cart cust.id db)
    ]
