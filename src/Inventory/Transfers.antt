-- ===== src/Inventory/Transfers.antt =====
-- `create_transfer`, `transition_transfer` and `reconcile`.
pub mod Conserved
pub mod Effect
use nexora_ai.Prelude.{
  String, Bool, false, ◌&&◌, ◌||◌, not, Option, none, some, List, [], ◌∷◌, ◌++◌, ◌==◌, str_eq,
  if◌then◌else◌, any_of, select_where, update_where,
}
use nexora_ai.Prelude.Int.{ℤ, pos, neg, eq_ℤ, ltb_ℤ, total}
use nexora_ai.Session.{
  Uuid, Context, Env, not_found, conflict, integrity_error, Tx, pure, raise_if, or_raise, gets,
  modify, new_id, audit, require_branch, except_integrity, ◌>>=◌, ◌>>◌,
}
use nexora_ai.Inventory.Model.{
  MovementType, transfer_in, transfer_out, TransferStatus, draft, in_transit, completed,
  status_code, Key, transfer_key, Product, InventoryMovement, InventoryBalance, StockTransfer,
  StockTransferLine, Stock, warehouse, at_movement, transfer, transfer_lines_of,
}
use nexora_ai.Inventory.Movement.{validate_pair, Move, post_movement}

pub record TransferCreate : Type 0 where
  pub transfer_number : String
  pub source_warehouse_id : Uuid
  pub destination_warehouse_id : Uuid
  pub lines : List (Uuid × ℤ)

abbrev pub has_twice : List (Uuid × ℤ) → Bool
has_twice [] = false
has_twice (l ∷ ls) = any_of (λ m. l.0 == m.0) ls || has_twice ls

-- The unique number, and two different warehouses.
unfoldable pub insert_transfer : StockTransfer → Tx Stock Unit
insert_transfer t = do
  taken ←
      gets
        (λ s. any_of (λ u. t.id == u.id || str_eq t.transfer_number u.transfer_number) s.transfers)
  raise_if (taken || t.source_warehouse_id == t.destination_warehouse_id)
      (integrity_error "stock_transfers")
  modify (λ s. record s { transfers = s.transfers ++ t ∷ [] })

unfoldable pub insert_transfer_line : StockTransferLine → Tx Stock Unit
insert_transfer_line l = do
  taken ← gets (λ s.
      any_of (λ m. l.transfer_id == m.transfer_id && l.product_id == m.product_id) s.transfer_lines)
  raise_if (taken || not (ltb_ℤ (pos 0) l.quantity)) (integrity_error "stock_transfer_lines")
  modify (λ s. record s { transfer_lines = s.transfer_lines ++ l ∷ [] })

unfoldable pub add_lines : Context → Uuid → Uuid → List (Uuid × ℤ) → Tx Stock Unit
add_lines c i source [] = pure tt
add_lines c i source ((p, quantity) ∷ ls) = do
  _ ← validate_pair c source p
  insert_transfer_line (record { transfer_id = i; product_id = p; quantity = quantity })
  add_lines c i source ls

unfoldable pub write_transfer : Context → Env → TransferCreate → Tx Stock Uuid
write_transfer c env q = do
  i ← new_id env
  insert_transfer (record {
    id = i;
    transfer_number = q.transfer_number;
    source_warehouse_id = q.source_warehouse_id;
    destination_warehouse_id = q.destination_warehouse_id;
    status = draft;
  })
  add_lines c i q.source_warehouse_id q.lines
  audit "inventory.transfer_created" "stock_transfer" (some i)
  pure i

-- `create_transfer`
unfoldable pub create_transfer : Context → Env → TransferCreate → Tx Stock Uuid
unfolding require_branch
create_transfer c env q = do
  raise_if (has_twice q.lines) (conflict "DUPLICATE_RESOURCE")
  except_integrity (conflict "DUPLICATE_RESOURCE") (do
    from ← gets (warehouse q.source_warehouse_id)
    to ← gets (warehouse q.destination_warehouse_id)
    source ← or_raise from not_found
    destination ← or_raise to not_found
    require_branch c source.branch_id
    require_branch c destination.branch_id
    write_transfer c env q)

-- What a transition asks for, and where it leads.
abbrev pub expected_status : Bool → TransferStatus
expected_status receive = if receive then in_transit else draft

abbrev pub next_status : Bool → TransferStatus
next_status receive = if receive then completed else in_transit

abbrev pub move_type : Bool → MovementType
move_type receive = if receive then transfer_in else transfer_out

abbrev pub line_key : Bool → Uuid → Option String → Option Key
line_key receive p none = none
line_key receive p (some key) =
    if str_eq key "" then none else some (transfer_key key (move_type receive) p)

abbrev pub line_move : Bool → Uuid → Option String → StockTransfer → Uuid × ℤ → Product → Move
line_move receive w key t (p, quantity) item = record {
  warehouse_id = w;
  item = item;
  movement_type = move_type receive;
  quantity = if receive then quantity else neg quantity;
  unit_cost = if receive then some item.cost_price else none;
  reference_type = some "transfer";
  reference_id = some t.id;
  idempotency_key = line_key receive p key;
}

unfoldable pub move_lines :
    Context
    → Env
    → Bool
    → Uuid
    → Option String
    → StockTransfer
    → List StockTransferLine
    → Tx Stock Unit
move_lines c env receive w key t [] = pure tt
move_lines c env receive w key t (l ∷ ls) = do
  item ← validate_pair c w l.product_id
  _ ← post_movement env (line_move receive w key t (l.product_id, l.quantity) item)
  move_lines c env receive w key t ls

abbrev pub set_status : Uuid → TransferStatus → Stock → Stock
set_status i status s = record s {
  transfers = update_where (λ t. i == t.id) (λ t. record t { status = status }) s.transfers;
}

-- The movements of all lines, then the new status.
unfoldable pub move_transfer : Context → Env → Bool → Option String → StockTransfer → Tx Stock Unit
move_transfer c env receive key t = do
  lines ← gets (transfer_lines_of t.id)
  move_lines c env receive (if receive then t.destination_warehouse_id else t.source_warehouse_id)
      key t lines
  modify (set_status t.id (next_status receive))
  audit (if receive then "inventory.transfer_received" else "inventory.transfer_shipped")
      "stock_transfer" (some t.id)

-- `transition_transfer`
unfoldable pub transition_transfer : Context → Env → Uuid → Bool → Option String → Tx Stock Unit
transition_transfer c env i receive key = do
  found ← gets (transfer i)
  t ← or_raise found not_found
  raise_if (not (status_code t.status == status_code (expected_status receive)))
      (conflict "TRANSFER_STATE_INVALID")
  move_transfer c env receive key t

-- What the ledger says of a balance.
abbrev pub ledger : Uuid → Uuid → List InventoryMovement → ℤ
ledger w p ms = total (λ m. m.quantity) (select_where (at_movement w p) ms)
