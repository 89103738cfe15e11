-- ===== src/Inventory/Reservations/Returns.antt =====
-- What `release` needs in order to return, and what it then writes.
use nexora_ai.Prelude.{◌≡◌, refl, ◌∙◌, true, false, some, ◌==◌, arith, first}
use nexora_ai.Prelude.Int.{pos, ◌+ℤ◌, neg, ltb_ℤ}
use nexora_ai.Prelude.Rows.{any_of-first}
use nexora_ai.Session.{bind_ok, Uuid, Session, ok, audit}
use nexora_ai.Inventory.Model.{
  InventoryBalance, StockReservation, Stock, is_active, at_balance, reservation,
}
use nexora_ai.Inventory.Movement.{balance_for_update}
use nexora_ai.Inventory.Operations.{release_locked, release, give_back, reserve_more}
use nexora_ai.Inventory.Reservations.{given_back}

balance_found :
    (w p : Uuid) (b : InventoryBalance) (t : Session Stock)
    → first (at_balance w p) t.rows.balances ≡ some b
    → balance_for_update w p t ≡ ok (b, t)
unfolding balance_for_update
balance_found w p b t found = ground (arith, any_of-first (at_balance w p) t.rows.balances b found)

give_back_returns :
    (r : StockReservation) (b : InventoryBalance) (t : Session Stock)
    → ltb_ℤ (b.reserved_quantity +ℤ neg r.quantity) (pos 0) ≡ false
    → (u : Session Stock) × (give_back r b t ≡ ok (tt, u)) × (u.rows ≡ given_back r b t.rows)
unfolding give_back reserve_more audit
give_back_returns r b t enough = rw enough (_, refl, refl)

release_locked_returns :
    (r : StockReservation) (b : InventoryBalance) (t : Session Stock)
    → first (at_balance r.warehouse_id r.product_id) t.rows.balances ≡ some b
    → ltb_ℤ (b.reserved_quantity +ℤ neg r.quantity) (pos 0) ≡ false
    → (u : Session Stock) × (release_locked r t ≡ ok (tt, u)) × (u.rows ≡ given_back r b t.rows)
unfolding release_locked
release_locked_returns r b t found enough =
    let (u, done, rows) = give_back_returns r b t enough in
    let locked = balance_found r.warehouse_id r.product_id b t found in
    (u, bind_ok (balance_for_update r.warehouse_id r.product_id) (give_back r) locked ∙ done, rows)

pub release_returns :
    (i : Uuid) (r : StockReservation) (b : InventoryBalance) (t : Session Stock)
    → first (λ x. i == x.id) t.rows.reservations ≡ some r
    → is_active r.status ≡ true
    → first (at_balance r.warehouse_id r.product_id) t.rows.balances ≡ some b
    → ltb_ℤ (b.reserved_quantity +ℤ neg r.quantity) (pos 0) ≡ false
    → (u : Session Stock) × (release i t ≡ ok (tt, u)) × (u.rows ≡ given_back r b t.rows)
unfolding release reservation
release_returns i r b t listed live found enough =
    rw (listed, live) (release_locked_returns r b t found enough)
