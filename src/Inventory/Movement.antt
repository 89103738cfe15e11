-- ===== src/Inventory/Movement.antt =====
-- The private methods of `InventoryService` that every operation goes through, up to
-- `_post_movement`, the only one that writes the ledger.
pub mod Cost
pub mod Effect
pub mod Kept
pub mod Refused
pub mod Replay
pub mod Steps
use nexora_ai.Prelude.{
  ℕ, suc, ◌-◌, ◌%◌, ◌^◌, String, Bool, true, false, ◌&&◌, ◌||◌, not, Option, none, some, List, [],
  ◌∷◌, ◌++◌, ◌==◌, str_eq, if◌then◌else◌, first, update_where, any_of,
}
use nexora_ai.Prelude.Int.{ℤ, pos, negsuc, ◌+ℤ◌, ◌-ℤ◌, ◌*ℤ◌, neg, abs, eq_ℤ, ltb_ℤ}
use nexora_ai.Decimal.{round_half_up}
use nexora_ai.Session.{
  Uuid, Context, Env, not_found, conflict, domain_validation, integrity_error, Session, Tx, ok, err,
  pure, raise_if, or_raise, gets, modify, new_id, audit, require_branch, ◌>>=◌, ◌>>◌,
}
use nexora_ai.Inventory.Model.{
  MovementType, receipt, type_code, Key, client, transfer_key, Warehouse, Product,
  InventoryMovement, InventoryBalance, Stock, warehouse, product, at_balance, movement_by_key,
  with_balance, insert_movement,
}

-- `_validate_pair`
unfoldable pub require_tracked : Product → Tx Stock Product
require_tracked p = do
  raise_if (not p.is_stock_tracked) (conflict "PRODUCT_NOT_STOCK_TRACKED")
  pure p

unfoldable pub validate_pair : Context → Uuid → Uuid → Tx Stock Product
unfolding require_branch
validate_pair c warehouse_id product_id = do
  found ← gets (warehouse warehouse_id)
  listed ← gets (product product_id)
  w ← or_raise found not_found
  p ← or_raise listed not_found
  require_branch c w.branch_id
  require_tracked p

-- `_balance_for_update`; the row is there after `ensure_balance`.
unfoldable pub balance_for_update : Uuid → Uuid → Tx Stock InventoryBalance
balance_for_update w p = do
  modify (λ s. record s { balances = with_balance w p s.balances })
  found ← gets (λ s. first (at_balance w p) s.balances)
  or_raise found (integrity_error "inventory_balances")

-- `_validate_quantity`: no decimal place beyond the unit's precision.
abbrev pub is_precise : ℕ → ℤ → Bool
is_precise precision quantity = abs quantity % 10 ^ (6 - precision) == 0

-- Integer division with ROUND_HALF_UP, the denominator of either sign. The code divides to 28
-- digits and then rounds; the model divides exactly.
unfoldable pub divide : ℤ → ℤ → ℤ
divide n (pos d) = round_half_up d n
divide n (negsuc d) = round_half_up (suc d) (neg n)

-- What `_post_movement` is called with.
pub record Move : Type 0 where
  pub warehouse_id : Uuid
  pub item : Product
  pub movement_type : MovementType
  pub quantity : ℤ
  pub unit_cost : Option ℤ
  pub reference_type : Option String
  pub reference_id : Option Uuid
  pub idempotency_key : Option Key

abbrev pub same_amount : Option ℤ → Option ℤ → Bool
same_amount none none = true
same_amount (some a) (some b) = eq_ℤ a b
same_amount _ _ = false

abbrev pub same_text : Option String → Option String → Bool
same_text none none = true
same_text (some a) (some b) = str_eq a b
same_text _ _ = false

abbrev pub same_uuid : Option Uuid → Option Uuid → Bool
same_uuid none none = true
same_uuid (some a) (some b) = a == b
same_uuid _ _ = false

abbrev pub same_request : Move → InventoryMovement → Bool
same_request r m =
    m.warehouse_id == r.warehouse_id
    && m.product_id == r.item.id
    && type_code m.movement_type == type_code r.movement_type
    && eq_ℤ m.quantity r.quantity
    && same_amount m.unit_cost r.unit_cost
    && same_text m.reference_type r.reference_type
    && same_uuid m.reference_id r.reference_id

-- `if idempotency_key:`, false on a missing key and on an empty one.
abbrev pub usable_key : Option Key → Option Key
usable_key none = none
usable_key (some (client s)) = if str_eq s "" then none else some (client s)
usable_key (some (transfer_key s m p)) = some (transfer_key s m p)

unfoldable pub existing_movement : Option Key → Stock → Option InventoryMovement
existing_movement k s = elim (usable_key k) [ none ↦ none | some key ↦ movement_by_key key s ]

-- `quantity > 0 and unit_cost is not None and movement_type == MovementType.RECEIPT`
abbrev pub new_cost : Move → InventoryBalance → Product → ℤ
new_cost r b p = elim r.unit_cost [
  | none ↦ p.cost_price
  | some cost ↦
      let denominator = b.quantity_on_hand +ℤ r.quantity in
      if ltb_ℤ (pos 0) r.quantity
        && type_code r.movement_type == type_code receipt
        && not (eq_ℤ denominator (pos 0))
      then divide (b.quantity_on_hand *ℤ p.cost_price +ℤ r.quantity *ℤ cost) denominator
      else p.cost_price
]

abbrev pub set_cost : Move → InventoryBalance → Stock → Stock
set_cost r b s = record s {
  products =
      update_where (λ p. r.item.id == p.id) (λ p. record p { cost_price = new_cost r b p })
        s.products;
}

abbrev pub set_on_hand : Uuid → Uuid → ℤ → Stock → Stock
set_on_hand w p quantity s = record s {
  balances =
      update_where (at_balance w p) (λ b. record b { quantity_on_hand = quantity }) s.balances;
}

abbrev pub movement_of : Uuid → Move → ℤ → InventoryMovement
movement_of i r after = record {
  id = i;
  warehouse_id = r.warehouse_id;
  product_id = r.item.id;
  movement_type = r.movement_type;
  quantity = r.quantity;
  unit_cost = r.unit_cost;
  balance_after = after;
  reference_type = r.reference_type;
  reference_id = r.reference_id;
  idempotency_key = r.idempotency_key;
}

-- The balance and its ledger entry, once the movement is allowed.
unfoldable pub write_movement : Env → Move → InventoryBalance → Tx Stock InventoryMovement
write_movement env r b = do
  modify (set_cost r b)
  i ← new_id env
  let m = movement_of i r (b.quantity_on_hand +ℤ r.quantity)
  modify (set_on_hand r.warehouse_id r.item.id (b.quantity_on_hand +ℤ r.quantity))
  insert_movement m
  audit "inventory.movement_posted" "inventory_movement" (some i)
  pure m

-- `-quantity > available` for an outward movement.
abbrev pub is_short : Move → InventoryBalance → Bool
is_short r b =
    ltb_ℤ r.quantity (pos 0) && ltb_ℤ (b.quantity_on_hand -ℤ b.reserved_quantity) (neg r.quantity)

unfoldable pub post_new : Env → Move → Tx Stock InventoryMovement
post_new env r = do
  b ← balance_for_update r.warehouse_id r.item.id
  negative_allowed ← gets (λ s. s.allow_negative_inventory)
  raise_if (not negative_allowed && is_short r b) (conflict "INSUFFICIENT_STOCK")
  write_movement env r b

unfoldable pub replay : Move → InventoryMovement → Tx Stock InventoryMovement
replay r m = do
  raise_if (not (same_request r m)) (domain_validation "IDEMPOTENCY_KEY_REUSE")
  pure m

-- A replay, or a movement of its own.
unfoldable pub post_or_replay : Env → Move → Option InventoryMovement → Tx Stock InventoryMovement
post_or_replay env r (some m) = replay r m
post_or_replay env r none = post_new env r

-- `_post_movement`
unfoldable pub post_movement : Env → Move → Tx Stock InventoryMovement
post_movement env r = do
  raise_if (not (is_precise r.item.precision r.quantity)) (domain_validation "VALIDATION_ERROR")
  existing ← gets (existing_movement r.idempotency_key)
  post_or_replay env r existing
