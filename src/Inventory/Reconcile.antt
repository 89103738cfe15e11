-- ===== src/Inventory/Reconcile.antt =====
-- `reconcile`: the cached balances held against the ledger.
pub mod Reports
use nexora_ai.Prelude.{
  ℕ, ◌≡◌, ◌∙◌, refl, ap, Bool, false, ◌&&◌, ◌||◌, not, List, [], ◌∷◌, ◌==◌, ltb, leb, length, none,
  arith, if◌then◌else◌, select_where, All,
}
use nexora_ai.Prelude.Int.{ℤ, eq_ℤ, ◌-ℤ◌, eq_ℤ_refl}
use nexora_ai.Session.{Uuid, Session, Tx, ok, pure, gets, audit, ◌>>=◌, ◌>>◌}
use nexora_ai.Session.Keeps.{Keeps, Keeps-bind, Keeps-audit, keeps_rules}
use nexora_ai.Inventory.Model.{InventoryBalance, InventoryMovement, Stock}
use nexora_ai.Inventory.Transfers.{ledger}
use nexora_ai.Inventory.Balances.{IsCounted, IsStock}

-- A row of the query `reconciliation`.
pub record LedgerRow : Type 0 where
  pub warehouse_id : Uuid
  pub product_id : Uuid
  pub ledger_quantity : ℤ
  pub cached_quantity : ℤ

abbrev pub ledger_row : List InventoryMovement → InventoryBalance → LedgerRow
ledger_row ms b = record {
  warehouse_id = b.warehouse_id;
  product_id = b.product_id;
  ledger_quantity = ledger b.warehouse_id b.product_id ms;
  cached_quantity = b.quantity_on_hand;
}

-- `ORDER BY b.warehouse_id, b.product_id`
abbrev pub row_first : LedgerRow → LedgerRow → Bool
row_first q r =
    ltb q.warehouse_id r.warehouse_id
    || q.warehouse_id == r.warehouse_id && leb q.product_id r.product_id

abbrev pub insert_row : LedgerRow → List LedgerRow → List LedgerRow
insert_row q [] = q ∷ []
insert_row q (r ∷ rs) = let rest = insert_row q rs in if row_first q r then q ∷ r ∷ rs else r ∷ rest

abbrev pub ledger_rows : List InventoryMovement → List InventoryBalance → List LedgerRow
ledger_rows ms [] = []
ledger_rows ms (b ∷ bs) = insert_row (ledger_row ms b) (ledger_rows ms bs)

unfoldable pub reconciliation : Stock → List LedgerRow
reconciliation s = ledger_rows s.movements s.balances

abbrev pub differs : LedgerRow → Bool
differs r = not (eq_ℤ r.ledger_quantity r.cached_quantity)

unfoldable pub audit_drift : List LedgerRow → Tx Stock Unit
audit_drift [] = pure tt
audit_drift (r ∷ rs) = do
  audit "inventory.reconciliation_drift" "inventory_balance" none
  audit_drift rs

-- `ReconciliationResponse`; a row of the drift carries the difference with it.
pub record Reconciliation : Type 0 where
  pub checked : ℕ
  pub drift : List (LedgerRow × ℤ)

abbrev pub with_difference : List LedgerRow → List (LedgerRow × ℤ)
with_difference [] = []
with_difference (r ∷ rs) = (r, r.ledger_quantity -ℤ r.cached_quantity) ∷ with_difference rs

unfoldable pub reconcile : Tx Stock Reconciliation
reconcile = do
  rows ← gets reconciliation
  audit_drift (select_where differs rows)
  pure (record { checked = length rows; drift = with_difference (select_where differs rows) })

audit_drift-IsStock : (rows : List LedgerRow) → Keeps IsStock (audit_drift rows)
unfolding audit_drift
audit_drift-IsStock [] = search keeps_rules
audit_drift-IsStock (r ∷ rs) =
    Keeps-bind (audit "inventory.reconciliation_drift" "inventory_balance" none)
      (λ _. audit_drift rs) (Keeps-audit _ _ _) (λ _. audit_drift-IsStock rs)

pub reconcile-IsStock : Keeps IsStock reconcile
unfolding reconcile
reconcile-IsStock = search (keeps_rules, audit_drift-IsStock) depth 9
