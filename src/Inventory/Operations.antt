-- ===== src/Inventory/Operations.antt =====
-- The public operations of `InventoryService`, and the expiry of reservations.
use nexora_ai.Prelude.{
  ℕ, String, ◌&&◌, ◌||◌, not, Option, none, some, [], ◌∷◌, ◌++◌, ◌==◌, str_eq, any_of, update_where,
}
use nexora_ai.Prelude.Int.{ℤ, pos, ◌+ℤ◌, ◌-ℤ◌, neg, eq_ℤ, ltb_ℤ}
use nexora_ai.Session.{
  Uuid, Context, Env, not_found, conflict, domain_validation, integrity_error, Tx, pure, raise_if,
  or_raise, gets, modify, new_id, audit, except_integrity, ◌>>=◌, ◌>>◌,
}
use nexora_ai.Inventory.Model.{
  receipt, issue, adjustment, active, released, is_active, Key, Product, InventoryMovement,
  InventoryBalance, StockReservation, StockAdjustment, Stock, at_balance, reservation,
}
use nexora_ai.Inventory.Movement.{
  validate_pair, balance_for_update, is_precise, Move, post_movement,
}

-- `MovementCreate`, of `receipt` and `issue`.
pub record MovementCreate : Type 0 where
  pub warehouse_id : Uuid
  pub product_id : Uuid
  pub quantity : ℤ
  pub unit_cost : Option ℤ
  pub reference_type : Option String
  pub reference_id : Option Uuid

-- `receipt`
unfoldable pub receive_stock :
    Context → Env → MovementCreate → Option Key → Tx Stock InventoryMovement
receive_stock c env q key = do
  _ ← or_raise q.unit_cost (domain_validation "VALIDATION_ERROR")
  except_integrity (conflict "IDEMPOTENCY_KEY_REUSE") (do
    p ← validate_pair c q.warehouse_id q.product_id
    post_movement env (record {
      warehouse_id = q.warehouse_id;
      item = p;
      movement_type = receipt;
      quantity = q.quantity;
      unit_cost = q.unit_cost;
      reference_type = q.reference_type;
      reference_id = q.reference_id;
      idempotency_key = key;
    }))

-- `issue`
unfoldable pub issue_stock :
    Context → Env → MovementCreate → Option Key → Tx Stock InventoryMovement
issue_stock c env q key = except_integrity (conflict "IDEMPOTENCY_KEY_REUSE") (do
  p ← validate_pair c q.warehouse_id q.product_id
  post_movement env (record {
    warehouse_id = q.warehouse_id;
    item = p;
    movement_type = issue;
    quantity = neg q.quantity;
    unit_cost = none;
    reference_type = q.reference_type;
    reference_id = q.reference_id;
    idempotency_key = key;
  }))

pub record AdjustmentCreate : Type 0 where
  pub adjustment_number : String
  pub warehouse_id : Uuid
  pub product_id : Uuid
  pub quantity : ℤ

-- The unique number of an adjustment, and a quantity that is not zero.
unfoldable pub insert_adjustment : StockAdjustment → Tx Stock Unit
insert_adjustment a = do
  taken ← gets (λ s. any_of (λ b. str_eq a.adjustment_number b.adjustment_number) s.adjustments)
  raise_if (taken || eq_ℤ a.quantity (pos 0)) (integrity_error "stock_adjustments")
  modify (λ s. record s { adjustments = s.adjustments ++ a ∷ [] })

abbrev pub new_adjustment : Uuid → AdjustmentCreate → StockAdjustment
new_adjustment i q = record {
  id = i;
  adjustment_number = q.adjustment_number;
  quantity = q.quantity;
}

abbrev pub adjustment_move : AdjustmentCreate → Product → Uuid → Option Key → Move
adjustment_move q p i key = record {
  warehouse_id = q.warehouse_id;
  item = p;
  movement_type = adjustment;
  quantity = q.quantity;
  unit_cost = none;
  reference_type = some "adjustment";
  reference_id = some i;
  idempotency_key = key;
}

-- `adjust`
unfoldable pub adjust :
    Context → Env → AdjustmentCreate → Option Key → Tx Stock (StockAdjustment × InventoryMovement)
adjust c env q key = except_integrity (conflict "DUPLICATE_RESOURCE") (do
  p ← validate_pair c q.warehouse_id q.product_id
  i ← new_id env
  m ← post_movement env (adjustment_move q p i key)
  insert_adjustment (new_adjustment i q)
  audit "inventory.adjustment_posted" "stock_adjustment" (some i)
  pure (new_adjustment i q, m))

pub record ReservationCreate : Type 0 where
  pub warehouse_id : Uuid
  pub product_id : Uuid
  pub quantity : ℤ
  pub expires_at : Option ℕ

-- `reserved_quantity` changes by an amount; the column's check refuses a negative sum.
abbrev pub add_reserved : Uuid → Uuid → ℤ → Stock → Stock
add_reserved w p amount s = record s {
  balances =
      update_where (at_balance w p)
        (λ b. record b { reserved_quantity = b.reserved_quantity +ℤ amount }) s.balances;
}

unfoldable pub reserve_more : InventoryBalance → ℤ → Tx Stock Unit
reserve_more b amount = do
  raise_if (ltb_ℤ (b.reserved_quantity +ℤ amount) (pos 0)) (integrity_error "reserved_nonnegative")
  modify (add_reserved b.warehouse_id b.product_id amount)

abbrev pub new_reservation : Uuid → ReservationCreate → StockReservation
new_reservation i q = record {
  id = i;
  warehouse_id = q.warehouse_id;
  product_id = q.product_id;
  quantity = q.quantity;
  status = active;
  expires_at = q.expires_at;
}

unfoldable pub insert_reservation : StockReservation → Tx Stock Unit
insert_reservation r = do
  taken ← gets (λ s. any_of (λ q. r.id == q.id) s.reservations)
  raise_if (taken || not (ltb_ℤ (pos 0) r.quantity)) (integrity_error "stock_reservations")
  modify (λ s. record s { reservations = s.reservations ++ r ∷ [] })

-- The reservation and its quantity on the balance.
unfoldable pub write_reservation :
    Env → ReservationCreate → InventoryBalance → Tx Stock StockReservation
write_reservation env q b = do
  reserve_more b q.quantity
  i ← new_id env
  insert_reservation (new_reservation i q)
  audit "inventory.reservation_created" "stock_reservation" (some i)
  pure (new_reservation i q)

-- The check of the available quantity, on the locked balance.
unfoldable pub reserve_available :
    Env → ReservationCreate → InventoryBalance → Tx Stock StockReservation
reserve_available env q b = do
  negative_allowed ← gets (λ s. s.allow_negative_inventory)
  raise_if (not negative_allowed && ltb_ℤ (b.quantity_on_hand -ℤ b.reserved_quantity) q.quantity)
      (conflict "INSUFFICIENT_STOCK")
  write_reservation env q b

unfoldable pub reserve_locked : Env → ReservationCreate → Tx Stock StockReservation
reserve_locked env q = do
  b ← balance_for_update q.warehouse_id q.product_id
  reserve_available env q b

-- `reserve`
unfoldable pub reserve : Context → Env → ReservationCreate → Tx Stock StockReservation
reserve c env q = do
  p ← validate_pair c q.warehouse_id q.product_id
  raise_if (not (is_precise p.precision q.quantity)) (domain_validation "VALIDATION_ERROR")
  reserve_locked env q

abbrev pub set_released : Uuid → Stock → Stock
set_released i s = record s {
  reservations = update_where (λ r. i == r.id) (λ r. record r { status = released }) s.reservations;
}

-- What `release` and the expiry do to a reservation and its balance.
unfoldable pub give_back : StockReservation → InventoryBalance → Tx Stock Unit
give_back r b = do
  reserve_more b (neg r.quantity)
  modify (set_released r.id)
  audit "inventory.reservation_released" "stock_reservation" (some r.id)

unfoldable pub release_locked : StockReservation → Tx Stock Unit
release_locked r = do b ← balance_for_update r.warehouse_id r.product_id; give_back r b

-- `release`
unfoldable pub release : Uuid → Tx Stock Unit
release i = do
  found ← gets (reservation i)
  r ← or_raise found not_found
  raise_if (not (is_active r.status)) (conflict "INVALID_STATE_TRANSITION")
  release_locked r
