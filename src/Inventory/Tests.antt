-- ===== src/Inventory/Tests.antt =====
-- The inventory theorems at a company with two warehouses and one product.
use nexora_ai.Prelude.{
  Bool, ◌&&◌, length, ◌++◌, ℕ, ◌+◌, ◌≡◌, refl, true, false, none, some, List, [], ◌∷◌, ◌++◌,
  if◌then◌else◌, ◌==◌,
}
use nexora_ai.Prelude.Int.{ℤ, pos, negsuc, ◌+ℤ◌, ◌-ℤ◌, ◌*ℤ◌, neg}
use nexora_ai.Decimal.{round_half_up, half_up}
use nexora_ai.Session.{
  Context, Env, Session, Result, ok, err, conflict, audit, require_branch, may_use_branch,
  service_transaction,
}
use nexora_ai.Inventory.Model.{
  StockReservation, released, with_balance, Stock, Product, InventoryMovement, InventoryBalance,
  StockTransfer, receipt, issue, draft, completed, status_code, client, warehouse, product,
  movement_by_key, transfer, transfer_lines_of, insert_movement,
}
use nexora_ai.Inventory.Movement.{
  Move, balance_for_update, post_movement, post_or_replay, post_new, replay, write_movement,
  existing_movement, divide, validate_pair, require_tracked,
}
use nexora_ai.Inventory.Movement.Effect.{IsMove, post_movement_effect, on_hand}
use nexora_ai.Inventory.Movement.Refused.{post_movement_refused}
use nexora_ai.Inventory.Movement.Replay.{post_movement_again}
use nexora_ai.Inventory.Balances.{IsStock}
use nexora_ai.Inventory.Reconcile.{LedgerRow, Reconciliation, reconcile}
use nexora_ai.Inventory.Reconcile.Reports.{count, is_off, item_of, drift_events, reconcile_reports}
use nexora_ai.Inventory.Reservations.Undone.{release_reserved}
use nexora_ai.Session.Keeps.{Keeps-ok}
use nexora_ai.Inventory.Operations.{
  ReservationCreate, reserve, reserve_locked, reserve_available, reserve_more, write_reservation,
  insert_reservation, new_reservation, release,
}
use nexora_ai.Inventory.Movement.Kept.{post_movement-IsStock}
use nexora_ai.Inventory.Requests.{Request, receipt_of, reservation_of, expiry, serve, serve-IsStock}
use nexora_ai.Inventory.Transfers.{transition_transfer, move_transfer, move_lines}
use nexora_ai.Inventory.Transfers.Effect.{moved_quantity}
use nexora_ai.Inventory.Transfers.Conserved.{transfer_conserved}

abbrev caller : Context
caller = record { membership_id = 7; permissions = []; branch_ids = none }

abbrev clock : Env
clock = record { uuid7 = λ n. n + 100; now = 50; today = 20_260_315 }

abbrev tea : Product
tea = record {
  id = 9;
  is_live = true;
  is_stock_tracked = true;
  precision = 2;
  cost_price = pos 2_000_000;
}

-- Two warehouses, none of the product, and a transfer of three pieces from the first to the second.
abbrev empty : Stock
empty = record {
  warehouses =
      record { id = 1; branch_id = 5; is_live = true }
      ∷ record { id = 2; branch_id = 5; is_live = true }
      ∷ [];
  products = tea ∷ [];
  balances = [];
  movements = [];
  reservations = [];
  transfers =
      record {
        id = 40;
        transfer_number = "T-1";
        source_warehouse_id = 1;
        destination_warehouse_id = 2;
        status = draft;
      }
      ∷ [];
  transfer_lines = record { transfer_id = 40; product_id = 9; quantity = pos 3_000_000 } ∷ [];
  adjustments = [];
  allow_negative_inventory = false;
}

abbrev start : Session Stock
start = record { rows = empty; sequences = []; audit_rows = []; drawn = 0 }

start-IsStock : IsStock empty
start-IsStock = record {
  counted = tt;
  unmoved = λ w p n. refl;
  unheld = λ w p n. refl;
  reservations_distinct = tt;
  positive = tt;
}

abbrev ten : Move
ten = record {
  warehouse_id = 1;
  item = tea;
  movement_type = receipt;
  quantity = pos 10_000_000;
  unit_cost = some (pos 3_000_000);
  reference_type = none;
  reference_id = none;
  idempotency_key = some (client "a");
}

abbrev three_out : Move
three_out = record ten { movement_type = issue; quantity = negsuc 2_999_999; unit_cost = none }

abbrev nothing_moved : InventoryMovement
nothing_moved = record {
  id = 0;
  warehouse_id = 0;
  product_id = 0;
  movement_type = issue;
  quantity = pos 0;
  unit_cost = none;
  balance_after = pos 0;
  reference_type = none;
  reference_id = none;
  idempotency_key = none;
}

abbrev outcome : {A : Type 0} → A → Result A → A
outcome a (ok b) = b
outcome a (err e) = a

received : InventoryMovement × Session Stock
unfolding post_movement
received = outcome (nothing_moved, start) (post_movement clock ten start)

received_lem : post_movement clock ten start ≡ ok received
unfolding post_movement received existing_movement movement_by_key post_or_replay post_new replay
    balance_for_update write_movement insert_movement audit divide ◌+ℤ◌ ◌-ℤ◌ ◌*ℤ◌ round_half_up
    half_up
received_lem = refl

nothing_found : existing_movement ten.idempotency_key empty ≡ none
unfolding existing_movement movement_by_key
nothing_found = refl

post_movement_effect_example : IsMove ten empty received.0 received.1.rows
post_movement_effect_example = post_movement_effect clock ten start nothing_found received_lem

post_movement_refused_example :
    service_transaction (post_movement clock three_out) start
    ≡ (err (conflict "INSUFFICIENT_STOCK"), start)
unfolding ◌-ℤ◌ neg
post_movement_refused_example = post_movement_refused clock three_out start refl nothing_found refl

post_movement_again_example : post_movement clock ten received.1 ≡ ok received
post_movement_again_example =
    post_movement_again clock clock ten tea (client "a") start refl received_lem refl refl

abbrev four_there : InventoryBalance
four_there = record {
  warehouse_id = 1;
  product_id = 9;
  quantity_on_hand = pos 4_000_000;
  reserved_quantity = pos 0;
}

-- A stock whose only balance has lost its movements.
abbrev drifted : Session Stock
drifted = record start { rows = record empty { balances = four_there ∷ [] } }

reconcile_reports_example :
    (report : Reconciliation) × (reconcile drifted
      ≡ ok (report, record drifted { audit_rows = [] ++ drift_events (length report.drift) }))
    × (report.checked ≡ 1)
    × ((g : LedgerRow × ℤ → Bool)
        → count g report.drift ≡ count (λ b. is_off [] b && g (item_of [] b)) (four_there ∷ []))
reconcile_reports_example = reconcile_reports drifted

abbrev requests : List (Context × Env × Request)
requests =
    (
      caller,
      clock,
      receipt_of
          (record {
            warehouse_id = 1;
            product_id = 9;
            quantity = pos 10_000_000;
            unit_cost = some (pos 3_000_000);
            reference_type = none;
            reference_id = none;
          })
          none,
    )
    ∷ (
      caller,
      clock,
      reservation_of (record {
        warehouse_id = 1;
        product_id = 9;
        quantity = pos 4_000_000;
        expires_at = some 40;
      }),
    )
    ∷ (caller, clock, expiry)
    ∷ []

serve-IsStock_example : IsStock (serve requests start).rows
serve-IsStock_example = serve-IsStock requests start start-IsStock

shipped : Unit {0} × Session Stock
unfolding transition_transfer
shipped = outcome (tt, start) (transition_transfer caller clock 40 false none received.1)

arrived : Unit {0} × Session Stock
unfolding transition_transfer
arrived = outcome (tt, start) (transition_transfer caller clock 40 true none shipped.1)

shipped_lem : transition_transfer caller clock 40 false none received.1 ≡ ok shipped
unfolding transition_transfer shipped received move_transfer move_lines transfer transfer_lines_of
    validate_pair require_tracked require_branch may_use_branch warehouse product post_movement
    existing_movement movement_by_key post_or_replay post_new replay balance_for_update
    write_movement insert_movement audit divide ◌+ℤ◌ ◌-ℤ◌ ◌*ℤ◌ neg round_half_up half_up
shipped_lem = refl

arrived_lem : transition_transfer caller clock 40 true none shipped.1 ≡ ok arrived
unfolding transition_transfer shipped arrived received move_transfer move_lines transfer
    transfer_lines_of validate_pair require_tracked require_branch may_use_branch warehouse product
    post_movement existing_movement movement_by_key post_or_replay post_new replay
    balance_for_update write_movement insert_movement audit divide ◌+ℤ◌ ◌-ℤ◌ ◌*ℤ◌ neg round_half_up
    half_up
arrived_lem = refl

transfer_conserved_example :
    (t : StockTransfer) × (transfer 40 received.1.rows ≡ some t)
    × (status_code t.status ≡ status_code draft)
    × (transfer 40 arrived.1.rows ≡ some (record t { status = completed }))
    × ((w q : ℕ)
        → let amount = moved_quantity true q (transfer_lines_of 40 received.1.rows) in
          on_hand w q arrived.1.rows
          ≡ on_hand w q received.1.rows
            +ℤ (if w == t.source_warehouse_id then neg amount else pos 0)
            +ℤ (if w == t.destination_warehouse_id then amount else pos 0))
transfer_conserved_example =
    transfer_conserved caller caller clock clock 40 received.1 shipped_lem arrived_lem

-- Four of the ten pieces are reserved, and released again.
abbrev four_held : ReservationCreate
four_held = record {
  warehouse_id = 1;
  product_id = 9;
  quantity = pos 4_000_000;
  expires_at = some 40;
}

held : StockReservation × Session Stock
unfolding reserve
held = outcome (new_reservation 0 four_held, start) (reserve caller clock four_held received.1)

held_lem : reserve caller clock four_held received.1 ≡ ok held
unfolding reserve held received reserve_locked reserve_available reserve_more write_reservation
    insert_reservation validate_pair require_tracked require_branch may_use_branch warehouse product
    post_movement existing_movement movement_by_key post_or_replay post_new replay
    balance_for_update write_movement insert_movement audit divide ◌+ℤ◌ ◌-ℤ◌ ◌*ℤ◌ neg round_half_up
    half_up
held_lem = refl

release_reserved_example :
    (u : Session Stock) × (release held.0.id held.1 ≡ ok (tt, u))
    × (u.rows ≡ record (received.1.rows) {
      balances = with_balance 1 9 received.1.rows.balances;
      reservations = received.1.rows.reservations ++ record (held.0) { status = released } ∷ [];
    })
release_reserved_example =
    release_reserved caller clock four_held received.1 held.0 held.1
      (Keeps-ok {P = IsStock} start received.1 received.0 (post_movement-IsStock clock ten)
        start-IsStock received_lem)
      held_lem
