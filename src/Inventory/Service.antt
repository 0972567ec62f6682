-- ===== src/Inventory/Service.antt =====
-- The operations that other services and the handlers call: backend/internal/inventory/service.go,
-- returns.go and the `Register…` functions of movements.go. `loc` is the default location. A trimmed
-- reason is only compared with the empty text, so it is given as that test.
pub mod Stock
use pontoqap.Base.{ℕ, Bool, Option, none, some, ◌==◌, if◌then◌else◌, ◌+◌, true, not, false}
use pontoqap.Base.Int.{ℤ, pos, negsuc, ◌-ℤ◌, ltb_ℤ, leb_ℤ, pos_part, neg_part}
use pontoqap.Store.Schema.{MovementType, Db}
use pontoqap.Store.Tx.{
  Tx, Result, ok, err, throw_if, gets, ◌>>=◌, ◌>>◌, run_tx, invalid_quantity, invalid_movement_type,
  reason_required, invalid_physical_count, no_adjustment_needed,
}
use pontoqap.Inventory.Lots.{entry_unit_cost_cents}
use pontoqap.Inventory.Movements.{FreshIds, MovementApply, apply_movement_tx, current_balance}

-- The additive inverse of a quantity.
abbrev pub negate : ℤ → ℤ
negate q = pos 0 -ℤ q

-- A movement that states no cost.
abbrev pub plain : MovementType → ℤ → Option ℕ → ℕ → MovementApply
plain movement_type delta reference_id created_by = record {
  movement_type = movement_type;
  quantity_delta = delta;
  reference_id = reference_id;
  created_by = created_by;
  unit_cost_cents = none;
}

-- `applyMovement`: one movement in a transaction of its own.
unfoldable pub apply_movement : FreshIds → ℕ → ℕ → MovementApply → Tx Db (Unit {0})
apply_movement ids loc sku m = do
  throw_if (pos_part m.quantity_delta + neg_part m.quantity_delta == 0) invalid_quantity
  apply_movement_tx ids loc sku m

-- `RegisterEntry`.
unfoldable pub register_entry : FreshIds → ℕ → ℕ → ℤ → ℕ → ℤ → ℤ → Tx Db (Unit {0})
unfolding apply_movement
register_entry ids loc sku quantity created_by total_paid other_expenses db =
    elim (entry_unit_cost_cents total_paid other_expenses quantity) [
      | err e ↦ err e
      | ok cost ↦
          apply_movement ids loc sku
            (record {
              movement_type = MovementType.entry;
              quantity_delta = quantity;
              reference_id = none;
              created_by = created_by;
              unit_cost_cents = some cost;
            })
            db
    ]

-- `RegisterInitialStock`: a negative cost stands for an unknown one.
unfoldable pub register_initial_stock : FreshIds → ℕ → ℕ → ℤ → ℕ → ℤ → Tx Db (Unit {0})
unfolding apply_movement
register_initial_stock ids loc sku quantity created_by unit_cost =
    apply_movement ids loc sku (record {
      movement_type = MovementType.initial_stock;
      quantity_delta = quantity;
      reference_id = none;
      created_by = created_by;
      unit_cost_cents = if leb_ℤ (pos 0) unit_cost then some (pos_part unit_cost) else none;
    })

-- `movementType != MovementLoss && movementType != MovementDamage`.
abbrev pub is_outbound : MovementType → Bool
is_outbound MovementType.loss = true
is_outbound MovementType.damage = true
is_outbound _ = false

-- `RegisterOutbound`.
unfoldable pub register_outbound : FreshIds → ℕ → ℕ → ℤ → MovementType → ℕ → Tx Db (Unit {0})
unfolding apply_movement
register_outbound ids loc sku quantity movement_type created_by = do
  throw_if (leb_ℤ quantity (pos 0)) invalid_quantity
  throw_if (not (is_outbound movement_type)) invalid_movement_type
  apply_movement ids loc sku (record {
    movement_type = movement_type;
    quantity_delta = negate quantity;
    reference_id = none;
    created_by = created_by;
    unit_cost_cents = none;
  })

-- `RegisterAdjustment`: the balance is brought to the physical count.
unfoldable pub register_adjustment : FreshIds → ℕ → ℕ → ℤ → Bool → ℕ → Tx Db (Unit {0})
register_adjustment ids loc sku physical_count reason_empty created_by = do
  throw_if reason_empty reason_required
  throw_if (ltb_ℤ physical_count (pos 0)) invalid_physical_count
  prev ← gets (current_balance loc sku)
  let delta = physical_count -ℤ pos prev
  throw_if (pos_part delta + neg_part delta == 0) no_adjustment_needed
  apply_movement_tx ids loc sku (plain MovementType.adjustment delta none created_by)

-- `ReserveAndDecrement`, within the transaction of a sale.
unfoldable pub reserve_and_decrement : FreshIds → ℕ → ℕ → ℤ → ℕ → ℕ → Tx Db (Unit {0})
reserve_and_decrement ids loc sku quantity ref_id created_by =
    apply_movement_tx ids loc sku
      (plain MovementType.sale (negate quantity) (some ref_id) created_by)

-- `RestoreFromSaleTx`, within the transaction of a cancellation.
unfoldable pub restore_from_sale_tx : FreshIds → ℕ → ℕ → ℤ → ℕ → ℕ → Tx Db (Unit {0})
restore_from_sale_tx ids loc sku quantity order_id created_by =
    apply_movement_tx ids loc sku (plain MovementType.return quantity (some order_id) created_by)
