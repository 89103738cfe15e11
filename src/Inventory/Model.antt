-- ===== src/Inventory/Model.antt =====
-- The rows of `inventory/models.py`, the columns of warehouses, products and units that they meet,
-- and the queries of `inventory/repository.py`. Quantities and unit costs are integers that count
-- units of 10 ^ -6, the scale of their columns; the rows are one tenant's.
use nexora_ai.Prelude.{
  ℕ, String, Bool, true, false, ◌&&◌, ◌||◌, Option, none, some, List, [], ◌∷◌, ◌++◌, ◌==◌, leb,
  str_eq, if◌then◌else◌, any_of, first, select_where,
}
use nexora_ai.Prelude.Int.{ℤ, pos, eq_ℤ}
use nexora_ai.Session.{Uuid, integrity_error, Tx, raise_if, modify, gets, ◌>>=◌, ◌>>◌}

pub data MovementType : Type 0 where
  receipt issue adjustment transfer_in transfer_out sale sale_return purchase_return : MovementType

abbrev pub type_code : MovementType → ℕ
type_code receipt = 0
type_code issue = 1
type_code adjustment = 2
type_code transfer_in = 3
type_code transfer_out = 4
type_code sale = 5
type_code sale_return = 6
type_code purchase_return = 7

pub data ReservationStatus : Type 0 where
  active released consumed : ReservationStatus

abbrev pub is_active : ReservationStatus → Bool
is_active active = true
is_active released = false
is_active consumed = false

pub data TransferStatus : Type 0 where
  draft in_transit completed cancelled : TransferStatus

abbrev pub status_code : TransferStatus → ℕ
status_code draft = 0
status_code in_transit = 1
status_code completed = 2
status_code cancelled = 3

-- An idempotency key: a client's, or the one that a transfer builds of a key, the movement's type
-- and the product, `{key}:{type}:{product}`.
pub data Key : Type 0 where
  client : String → Key
  transfer_key : String → MovementType → Uuid → Key

abbrev pub same_key : Key → Key → Bool
same_key (client s) (client t) = str_eq s t
same_key (transfer_key s m p) (transfer_key t n q) =
    str_eq s t && type_code m == type_code n && p == q
same_key _ _ = false

pub record Warehouse : Type 0 where
  pub id : Uuid
  pub branch_id : Uuid
  pub is_live : Bool

-- `precision` is the unit's, which lies between 0 and 6.
pub record Product : Type 0 where
  pub id : Uuid
  pub is_live : Bool
  pub is_stock_tracked : Bool
  pub precision : ℕ
  pub cost_price : ℤ

pub record InventoryMovement : Type 0 where
  pub id : Uuid
  pub warehouse_id : Uuid
  pub product_id : Uuid
  pub movement_type : MovementType
  pub quantity : ℤ
  pub unit_cost : Option ℤ
  pub balance_after : ℤ
  pub reference_type : Option String
  pub reference_id : Option Uuid
  pub idempotency_key : Option Key

pub record InventoryBalance : Type 0 where
  pub warehouse_id : Uuid
  pub product_id : Uuid
  pub quantity_on_hand : ℤ
  pub reserved_quantity : ℤ

pub record StockReservation : Type 0 where
  pub id : Uuid
  pub warehouse_id : Uuid
  pub product_id : Uuid
  pub quantity : ℤ
  pub status : ReservationStatus
  pub expires_at : Option ℕ

pub record StockTransfer : Type 0 where
  pub id : Uuid
  pub transfer_number : String
  pub source_warehouse_id : Uuid
  pub destination_warehouse_id : Uuid
  pub status : TransferStatus

pub record StockTransferLine : Type 0 where
  pub transfer_id : Uuid
  pub product_id : Uuid
  pub quantity : ℤ

pub record StockAdjustment : Type 0 where
  pub id : Uuid
  pub adjustment_number : String
  pub quantity : ℤ

-- The last field is the tenant's setting.
pub record Stock : Type 0 where
  pub warehouses : List Warehouse
  pub products : List Product
  pub balances : List InventoryBalance
  pub movements : List InventoryMovement
  pub reservations : List StockReservation
  pub transfers : List StockTransfer
  pub transfer_lines : List StockTransferLine
  pub adjustments : List StockAdjustment
  pub allow_negative_inventory : Bool

unfoldable pub warehouse : Uuid → Stock → Option Warehouse
warehouse i s = first (λ w. i == w.id && w.is_live) s.warehouses

unfoldable pub product : Uuid → Stock → Option Product
product i s = first (λ p. i == p.id && p.is_live) s.products

-- The unique key of a balance, and the rows of a movement or a reservation that belong to it.
abbrev pub at_balance : Uuid → Uuid → InventoryBalance → Bool
at_balance w p b = w == b.warehouse_id && p == b.product_id

abbrev pub at_movement : Uuid → Uuid → InventoryMovement → Bool
at_movement w p m = w == m.warehouse_id && p == m.product_id

abbrev pub same_option_key : Option Key → Key → Bool
same_option_key none k = false
same_option_key (some j) k = same_key j k

unfoldable pub movement_by_key : Key → Stock → Option InventoryMovement
movement_by_key k s = first (λ m. same_option_key m.idempotency_key k) s.movements

unfoldable pub reservation : Uuid → Stock → Option StockReservation
reservation i s = first (λ r. i == r.id) s.reservations

unfoldable pub transfer : Uuid → Stock → Option StockTransfer
transfer i s = first (λ t. i == t.id) s.transfers

-- `ORDER BY product_id`
abbrev pub insert_sorted : StockTransferLine → List StockTransferLine → List StockTransferLine
insert_sorted l [] = l ∷ []
insert_sorted l (m ∷ ms) =
    let rest = insert_sorted l ms in if leb l.product_id m.product_id then l ∷ m ∷ ms else m ∷ rest

abbrev pub sort_lines : List StockTransferLine → List StockTransferLine
sort_lines [] = []
sort_lines (l ∷ ls) = insert_sorted l (sort_lines ls)

unfoldable pub transfer_lines_of : Uuid → Stock → List StockTransferLine
transfer_lines_of i s = sort_lines (select_where (λ l. i == l.transfer_id) s.transfer_lines)

-- `ensure_balance`: INSERT … ON CONFLICT DO NOTHING.
abbrev pub new_balance : Uuid → Uuid → InventoryBalance
new_balance w p = record {
  warehouse_id = w;
  product_id = p;
  quantity_on_hand = pos 0;
  reserved_quantity = pos 0;
}

abbrev pub with_balance : Uuid → Uuid → List InventoryBalance → List InventoryBalance
with_balance w p bs = if any_of (at_balance w p) bs then bs else bs ++ new_balance w p ∷ []

-- The key of a movement is unique where there is one, and its quantity is not zero.
abbrev pub clashes : Option Key → InventoryMovement → Bool
clashes none m = false
clashes (some k) m = same_option_key m.idempotency_key k

unfoldable pub insert_movement : InventoryMovement → Tx Stock Unit
insert_movement m = do
  taken ← gets (λ s. any_of (clashes m.idempotency_key) s.movements)
  raise_if (taken || eq_ℤ m.quantity (pos 0)) (integrity_error "inventory_movements")
  modify (λ s. record s { movements = s.movements ++ m ∷ [] })
