-- ===== src/Inventory/Movement/Refused.antt =====
-- The guard on the available quantity: a movement that there is too little for is refused.
use nexora_ai.Prelude.{
  ◌≡◌, refl, sym, ap, ◌∙◌, subst, Bool, true, false, ◌&&◌, not, Option, none, some, List, [], ◌∷◌,
  ◌++◌, arith, any_of, first, Bool-cases, inl, inr,
}
use nexora_ai.Prelude.Int.{ℤ, pos, ◌-ℤ◌, neg, ltb_ℤ}
use nexora_ai.Session.{Uuid, Env, conflict, Session, ok, err, ◌>>=◌, service_transaction}
use nexora_ai.Session.Keeps.{rolled_back}
use nexora_ai.Inventory.Model.{InventoryBalance, Stock, at_balance, new_balance, with_balance}
use nexora_ai.Inventory.Movement.{
  Move, balance_for_update, is_short, post_new, post_or_replay, post_movement, is_precise,
  existing_movement,
}
use nexora_ai.Inventory.Movement.Steps.{with_row}
use nexora_ai.Inventory.Movement.Effect.{column, column-with_balance, on_hand, held}

module _ (w p : Uuid) where
  first-some :
      (bs : List InventoryBalance)
      → any_of (at_balance w p) bs ≡ true
      → (b : InventoryBalance) × (first (at_balance w p) bs ≡ some b)
  first-some [] e = cc
  first-some (b ∷ bs) e = elim (Bool-cases (at_balance w p b)) [
    | inl t ↦ rw t (b, refl)
    | inr t ↦ rw t (first-some bs (ground (arith, e)))
  ]

  first-append :
      (bs : List InventoryBalance)
      → any_of (at_balance w p) bs ≡ false
      → first (at_balance w p) (bs ++ new_balance w p ∷ []) ≡ some (new_balance w p)
  first-append [] e = ground arith
  first-append (b ∷ bs) e = ground (arith, first-append bs)

  first-with_balance :
      (bs : List InventoryBalance)
      → (b : InventoryBalance) × (first (at_balance w p) (with_balance w p bs) ≡ some b)
  first-with_balance bs = elim (Bool-cases (any_of (at_balance w p) bs)) [
    | inl e ↦ rw e (first-some bs e)
    | inr e ↦ rw e (new_balance w p, first-append bs e)
  ]

abbrev locked_row : Move → Session Stock → Session Stock
locked_row r s = record s { rows = with_row r s.rows }

balance_for_update_ok :
    (r : Move) (s : Session Stock) (b : InventoryBalance)
    → first (at_balance r.warehouse_id r.item.id) (with_row r s.rows).balances ≡ some b
    → balance_for_update r.warehouse_id r.item.id s ≡ ok (b, locked_row r s)
unfolding balance_for_update
balance_for_update_ok r s b e = ground (arith, e)

-- Too little is on hand and not reserved for an outward quantity, in a company that does not allow
-- negative stock.
abbrev pub is_refused : Move → Stock → Bool
is_refused r s =
    not s.allow_negative_inventory
    && (ltb_ℤ r.quantity (pos 0)
        && ltb_ℤ (on_hand r.warehouse_id r.item.id s -ℤ held r.warehouse_id r.item.id s)
            (neg r.quantity))

post_new_refused :
    (env : Env) (r : Move) (s : Session Stock)
    → is_refused r s.rows ≡ true
    → post_new env r s ≡ err (conflict "INSUFFICIENT_STOCK")
unfolding post_new
post_new_refused env r s e =
    let w = r.warehouse_id in
    let p = r.item.id in
    let (b, found) = first-with_balance w p s.rows.balances in
    let before : (f : InventoryBalance → ℤ)
        → f (new_balance w p) ≡ pos 0
        → column f w p s.rows.balances ≡ f b =
      λ f z.
        sym (column-with_balance w p w p f s.rows.balances z)
        ∙ ap (λ (o : Option InventoryBalance). elim o [ none ↦ pos 0 | some x ↦ f x ]) found in
    let short : (not s.rows.allow_negative_inventory && is_short r b) ≡ true =
      subst
        (λ x.
          (not s.rows.allow_negative_inventory
            && (ltb_ℤ r.quantity (pos 0) && ltb_ℤ (b.quantity_on_hand -ℤ x) (neg r.quantity)))
          ≡ true)
        (before (λ y. y.reserved_quantity) refl)
        (subst
          (λ x.
            (not s.rows.allow_negative_inventory
              && (ltb_ℤ r.quantity (pos 0) && ltb_ℤ (x -ℤ held w p s.rows) (neg r.quantity)))
            ≡ true)
          (before (λ y. y.quantity_on_hand) refl) e) in
    rw (balance_for_update_ok r s b found, ◌>>=◌) (rw short refl)

-- A movement that is not a replay and is within the unit's precision is refused with
-- INSUFFICIENT_STOCK where it takes more than is on hand and not reserved and the company does not
-- allow negative stock, and the transaction leaves everything as it was.
pub post_movement_refused :
    (env : Env) (r : Move) (s : Session Stock)
    → is_precise r.item.precision r.quantity ≡ true
    → existing_movement r.idempotency_key s.rows ≡ none
    → is_refused r s.rows ≡ true
    → service_transaction (post_movement env r) s ≡ (err (conflict "INSUFFICIENT_STOCK"), s)
unfolding post_movement post_or_replay
post_movement_refused env r s precise fresh short =
    rolled_back (post_movement env r) s (conflict "INSUFFICIENT_STOCK")
      (ground (arith, precise, fresh, post_new_refused env r s short))
