-- ===== src/Customers/Collaborators.antt =====
-- Collaborators: backend/internal/customers/collaborators.go, and the category that `Update` of
-- admin.go gives to a customer. Margins are hundredths of a percent.
use pontoqap.Customers.{is_approved_customer}
use pontoqap.Billing.Rows.{customer_key}
use pontoqap.Store.Table.{insert_row}
use pontoqap.Catalog.Prices.{is_margin, fits_column}
use pontoqap.Store.Table.Keys.{find_by, update_by}
use pontoqap.Store.Tx.{
  Tx, err, invalid_margin, numeric_overflow, ok, category_not_found, invalid_collaborator_category,
}
use pontoqap.Base.Int.{ℤ}
use pontoqap.Store.Schema.{Db}
use pontoqap.Store.Shop.{CollaboratorCategory}
use pontoqap.Base.{none, some, true, false, ℕ, Option, Bool, if◌then◌else◌, not, true, ◌&&◌}

abbrev pub collaborator_key : CollaboratorCategory → ℕ
collaborator_key c = c.id

-- `getCollaboratorCategory`.
abbrev pub get_collaborator_category : ℕ → Db → Option CollaboratorCategory
get_collaborator_category id db = find_by collaborator_key id db.shop.collaborator_categories

-- `CreateCollaboratorCategory`.
unfoldable pub create_collaborator_category : ℕ → ℤ → Tx Db (Unit {0})
create_collaborator_category new_id margin db =
    if not (is_margin margin)
    then err invalid_margin
    else if not (fits_column margin)
    then err numeric_overflow
    else ok (
      tt,
      record db {
        shop = record db.shop {
          collaborator_categories =
              insert_row (record { id = new_id; margin_percent = margin; active = true })
                db.shop.collaborator_categories;
        };
      },
    )

-- `UpdateCollaboratorCategory`.
unfoldable pub update_collaborator_category : ℕ → Option ℤ → Option Bool → Tx Db (Unit {0})
update_collaborator_category id set_margin set_active db = elim (get_collaborator_category id db) [
  | none ↦ err category_not_found
  | some c ↦
      let margin = elim set_margin as (λ _. ℤ) [ none ↦ c.margin_percent | some m ↦ m ] in
      let margin_ok = elim set_margin as (λ _. Bool) [ none ↦ true | some m ↦ is_margin m ] in
      if not margin_ok
      then err invalid_margin
      else if not (fits_column margin)
      then err numeric_overflow
      else ok (
        tt,
        record db {
          shop = record db.shop {
            collaborator_categories =
                update_by collaborator_key id
                  (λ x. record x {
                    margin_percent = margin;
                    active = elim set_active as (λ _. Bool) [ none ↦ c.active | some b ↦ b ];
                  })
                  db.shop.collaborator_categories;
          };
        },
      )
]

-- `AssertCollaboratorCategoryAssignable`.
unfoldable pub is_assignable : ℕ → Db → Bool
is_assignable id db = elim (get_collaborator_category id db) [ none ↦ false | some c ↦ c.active ]

-- `Update`, which is no error and changes nothing where the customer is missing: `clear` takes the
-- category away, `category` gives one.
unfoldable pub update_customer : ℕ → Bool → Option ℕ → Tx Db (Unit {0})
unfolding is_assignable
update_customer customer_id clear category db =
    elim (find_by customer_key customer_id db.customers) [
      | none ↦ ok (tt, db)
      | some c ↦
          let set : Option ℕ → Db = λ cat. record db {
            customers =
                update_by customer_key customer_id
                  (λ x. record x { collaborator_category_id = cat }) db.customers;
          } in
          if clear then ok (tt, set none) else elim category [
            | none ↦ ok (tt, set c.collaborator_category_id)
            | some cat ↦
                if is_assignable cat db
                then ok (tt, set (some cat))
                else err invalid_collaborator_category
          ]
    ]

-- `CollaboratorMarginForCustomer`.
unfoldable pub collaborator_margin_for_customer : ℕ → Db → Option ℤ
collaborator_margin_for_customer customer_id db =
    elim (find_by customer_key customer_id db.customers) [
      | none ↦ none
      | some c ↦ elim c.collaborator_category_id [
        | none ↦ none
        | some cat ↦ elim (get_collaborator_category cat db) [
          | none ↦ none
          | some k ↦
              if is_approved_customer c.status && k.active then some k.margin_percent else none
        ]
      ]
    ]
