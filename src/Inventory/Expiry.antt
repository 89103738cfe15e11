-- ===== src/Inventory/Expiry.antt =====
-- `ReservationExpiryService`: the release of the reservations whose time has come.
pub mod Kept
use nexora_ai.Prelude.{
  take, ℕ, String, Bool, true, false, ◌&&◌, ◌||◌, not, Option, none, some, List, [], ◌∷◌, ◌++◌,
  ◌==◌, leb, ltb, zero, suc, str_eq, if◌then◌else◌, any_of, first, select_where, update_where,
  length,
}
use nexora_ai.Prelude.Int.{ℤ, pos, ◌+ℤ◌, ◌-ℤ◌, neg, eq_ℤ, ltb_ℤ}
use nexora_ai.Session.{
  Uuid, Context, Env, not_found, conflict, domain_validation, integrity_error, Tx, pure, raise_if,
  or_raise, gets, modify, new_id, audit, except_integrity, ◌>>=◌, ◌>>◌,
}
use nexora_ai.Inventory.Model.{
  receipt, issue, adjustment, active, released, is_active, Key, Product, InventoryMovement,
  InventoryBalance, StockReservation, StockAdjustment, Stock, at_balance, reservation,
}
use nexora_ai.Inventory.Movement.{
  validate_pair, balance_for_update, is_precise, Move, post_movement,
}
use nexora_ai.Inventory.Operations.{give_back}

-- `expired_reservations`: the active ones whose expiry has come. Rows that another transaction has
-- locked, which the query skips, are not modelled.
abbrev pub is_expired : ℕ → StockReservation → Bool
is_expired now r = is_active r.status && elim r.expires_at [ none ↦ false | some at ↦ leb at now ]

-- One turn of the loop of `release_expired`, and the loop over the rows of the query.
unfoldable pub release_one : StockReservation → Tx Stock Unit
release_one r = do
  found ← gets (λ t. first (at_balance r.warehouse_id r.product_id) t.balances)
  b ← or_raise found (integrity_error "inventory_balances")
  give_back r b

unfoldable pub release_all : List StockReservation → Tx Stock Unit
release_all [] = pure tt
release_all (r ∷ rs) = do release_one r; release_all rs

-- `ORDER BY expires_at, id LIMIT 500`; a row of the query has an expiry.
abbrev pub expires_first : StockReservation → StockReservation → Bool
expires_first q r = elim q.expires_at [
  | none ↦ false
  | some a ↦ elim r.expires_at [ none ↦ true | some b ↦ ltb a b || a == b && leb q.id r.id ]
]

abbrev pub insert_expiring : StockReservation → List StockReservation → List StockReservation
insert_expiring q [] = q ∷ []
insert_expiring q (r ∷ rs) =
    let rest = insert_expiring q rs in if expires_first q r then q ∷ r ∷ rs else r ∷ rest

abbrev pub sort_expiring : List StockReservation → List StockReservation
sort_expiring [] = []
sort_expiring (r ∷ rs) = insert_expiring r (sort_expiring rs)

abbrev pub expired_reservations : ℕ → Stock → List StockReservation
expired_reservations now s = take 500 (sort_expiring (select_where (is_expired now) s.reservations))

unfoldable pub release_expired : Env → Tx Stock ℕ
release_expired env = do rs ← gets (expired_reservations env.now); release_all rs; pure (length rs)
