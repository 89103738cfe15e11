-- ===== src/Inventory/Movement/Steps.antt =====
-- What the steps of `_post_movement` write when they succeed, and the ledger of a balance.
use nexora_ai.Prelude.{
  ◌≡◌, ap, ◌∙◌, subst, true, false, ◌&&◌, not, some, [], ◌∷◌, ◌++◌, arith, first, if◌then◌else◌,
}
use nexora_ai.Prelude.Int.{
  ℤ, pos, ◌+ℤ◌, ◌-ℤ◌, neg, ◌≤ℤ◌, ltb_ℤ, +ℤ_zero, +ℤ_parts, -ℤ_parts, neg_parts,
}
use nexora_ai.Session.{
  Uuid, Env, conflict, Session, ok, bind_inv, raise_if_inv, audit, raise_if, gets, ◌>>=◌, ◌>>◌,
}
use nexora_ai.Inventory.Model.{
  InventoryMovement, InventoryBalance, Stock, at_balance, at_movement, with_balance,
  insert_movement,
}
use nexora_ai.Inventory.Movement.{
  Move, balance_for_update, set_cost, set_on_hand, movement_of, write_movement, is_short, post_new,
}
use nexora_ai.Inventory.Transfers.{ledger}
use nexora_ai.Prelude.Rows.{total-select_append}

-- The balance that a lock returns, in a stock that has it.
pub balance_for_update_inv :
    (w p : Uuid) (s : Session Stock) {u : InventoryBalance × Session Stock}
    → balance_for_update w p s ≡ ok u
    → (u.1.rows ≡ record (s.rows) { balances = with_balance w p s.rows.balances })
      × (first (at_balance w p) u.1.rows.balances ≡ some u.0)
unfolding balance_for_update
balance_for_update_inv w p s h = ground arith

-- The stock after a movement.
abbrev pub moved : Move → InventoryBalance → InventoryMovement → Stock → Stock
moved r b m s =
    let t =
      set_on_hand r.warehouse_id r.item.id (b.quantity_on_hand +ℤ r.quantity) (set_cost r b s) in
    record t { movements = t.movements ++ m ∷ [] }

pub write_movement_inv :
    (env : Env) (r : Move) (b : InventoryBalance) (s : Session Stock)
    {u : InventoryMovement × Session Stock}
    → write_movement env r b s ≡ ok u
    → (i : Uuid) × (u.0 ≡ movement_of i r (b.quantity_on_hand +ℤ r.quantity))
      × (u.1.rows ≡ moved r b (movement_of i r (b.quantity_on_hand +ℤ r.quantity)) s.rows)
unfolding write_movement insert_movement audit
write_movement_inv env r b s h = (env.uuid7 s.drawn, ground arith, ground arith)

-- What a check of the available quantity leaves, and what a movement makes of it.
pub still_available :
    (h q v : ℤ) → v ≤ℤ h → (ltb_ℤ q (pos 0) && ltb_ℤ (h -ℤ v) (neg q)) ≡ false → v ≤ℤ h +ℤ q
still_available h q v a e = ground (arith, +ℤ_parts h q, -ℤ_parts h v, neg_parts q)

module _ (r : Move) (b : InventoryBalance) (m : InventoryMovement) (s : Stock) where
  -- The ledger of a balance grows by the movement if the balance is the movement's.
  pub ledger_at :
      (v q : Uuid)
      → at_movement v q m ≡ true
      → ledger v q (s.movements ++ m ∷ []) ≡ ledger v q s.movements +ℤ m.quantity
  ledger_at v q e =
      total-select_append (λ m. m.quantity) (at_movement v q) s.movements m
      ∙ ap (λ t. ledger v q s.movements +ℤ (if t then m.quantity else pos 0)) e

  pub ledger_away :
      (v q : Uuid)
      → at_movement v q m ≡ false
      → ledger v q (s.movements ++ m ∷ []) ≡ ledger v q s.movements
  ledger_away v q e =
      total-select_append (λ m. m.quantity) (at_movement v q) s.movements m
      ∙ ap (λ t. ledger v q s.movements +ℤ (if t then m.quantity else pos 0)) e
      ∙ +ℤ_zero _

pub key_of :
    (w p : Uuid) (b : InventoryBalance)
    → at_balance w p b ≡ true
    → (w ≡ b.warehouse_id) × (p ≡ b.product_id)
key_of w p b h = (ground arith, ground arith)

abbrev pub with_row : Move → Stock → Stock
with_row r s = record s { balances = with_balance r.warehouse_id r.item.id s.balances }

-- What a movement that is not a replay went through.
pub post_new_inv :
    (env : Env) (r : Move) (s : Session Stock) {u : InventoryMovement × Session Stock}
    → post_new env r s ≡ ok u
    → (b : InventoryBalance) × (i : Uuid) × (first
          (at_balance r.warehouse_id r.item.id)
          (with_row r s.rows).balances
        ≡ some b)
      × ((not s.rows.allow_negative_inventory && is_short r b) ≡ false)
      × (u.0 ≡ movement_of i r (b.quantity_on_hand +ℤ r.quantity))
      × (u.1.rows
          ≡ moved r b (movement_of i r (b.quantity_on_hand +ℤ r.quantity)) (with_row r s.rows))
unfolding post_new
post_new_inv env r s {u} e =
    let (b, t, p, h1) =
      bind_inv (balance_for_update r.warehouse_id r.item.id)
        (λ b. gets (λ s. s.allow_negative_inventory) >>= λ n.
          raise_if (not n && is_short r b) (conflict "INSUFFICIENT_STOCK")
          >> write_movement env r b)
        s e in
    let (rows, found) = balance_for_update_inv r.warehouse_id r.item.id s p in
    let (enough, h2) =
      raise_if_inv (not t.rows.allow_negative_inventory && is_short r b)
        (conflict "INSUFFICIENT_STOCK") (write_movement env r b) t h1 in
    let (i, made, after) = write_movement_inv env r b t h2 in
    (
      b,
      i,
      subst (λ (x : Stock). first (at_balance r.warehouse_id r.item.id) x.balances ≡ some b) rows
          found,
      subst (λ (x : Stock). (not x.allow_negative_inventory && is_short r b) ≡ false) rows enough,
      made,
      subst
          (λ (x : Stock).
            u.1.rows ≡ moved r b (movement_of i r (b.quantity_on_hand +ℤ r.quantity)) x)
          rows after,
    )
