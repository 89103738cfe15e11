-- ===== src/Inventory/Movement/Effect.antt =====
-- What a movement does to the figures that the stock shows, and when there is too little for it.
use nexora_ai.Prelude.{
  ◌≡◌, refl, sym, ap, ◌∙◌, subst, false, ◌&&◌, not, Option, none, some, List, [], ◌∷◌, ◌++◌, ◌==◌,
  arith, any_of, first, update_where, Bool-cases, inl, inr,
}
use nexora_ai.Prelude.Int.{ℤ, pos, ◌+ℤ◌, ◌-ℤ◌, neg, ltb_ℤ}
use nexora_ai.Session.{Uuid, Env, domain_validation, Session, ok, gets, raise_if_inv, ◌>>=◌}
use nexora_ai.Inventory.Model.{
  InventoryMovement, InventoryBalance, Stock, at_balance, new_balance, with_balance,
}
use nexora_ai.Inventory.Movement.{
  Move, movement_of, post_new, post_or_replay, post_movement, is_precise, existing_movement,
}
use nexora_ai.Inventory.Movement.Steps.{post_new_inv, with_row, moved}

-- A figure of the balance of a warehouse and a product, zero where there is no row.
abbrev pub column : (InventoryBalance → ℤ) → Uuid → Uuid → List InventoryBalance → ℤ
column f v q bs = elim (first (at_balance v q) bs) [ none ↦ pos 0 | some b ↦ f b ]

abbrev pub on_hand : Uuid → Uuid → Stock → ℤ
on_hand v q s = column (λ b. b.quantity_on_hand) v q s.balances

abbrev pub held : Uuid → Uuid → Stock → ℤ
held v q s = column (λ b. b.reserved_quantity) v q s.balances

module _ (w p v q : Uuid) where
  column-append :
      (f : InventoryBalance → ℤ) (bs : List InventoryBalance)
      → f (new_balance w p) ≡ pos 0
      → column f v q (bs ++ new_balance w p ∷ []) ≡ column f v q bs
  column-append f [] z = ground arith
  column-append f (b ∷ bs) z = ground (arith, column-append f bs z)

  -- A row of zeros shows what a missing row shows.
  pub column-with_balance :
      (f : InventoryBalance → ℤ) (bs : List InventoryBalance)
      → f (new_balance w p) ≡ pos 0
      → column f v q (with_balance w p bs) ≡ column f v q bs
  column-with_balance f bs z = elim (Bool-cases (any_of (at_balance w p) bs)) [
    | inl e ↦ rw e refl
    | inr e ↦ rw e (column-append f bs z)
  ]

abbrev set_quantity : ℤ → InventoryBalance → InventoryBalance
set_quantity x b = record b { quantity_on_hand = x }

module _ (w p : Uuid) (x : ℤ) where
  on_hand_set :
      (b : InventoryBalance) (bs : List InventoryBalance)
      → first (at_balance w p) bs ≡ some b
      → column (λ y. y.quantity_on_hand) w p (update_where (at_balance w p) (set_quantity x) bs) ≡ x
  on_hand_set b [] e = cc
  on_hand_set b (c ∷ cs) e = ground (arith, on_hand_set b cs)

  held_set :
      (v q : Uuid) (bs : List InventoryBalance)
      → column (λ y. y.reserved_quantity) v q (update_where (at_balance w p) (set_quantity x) bs)
        ≡ column (λ y. y.reserved_quantity) v q bs
  held_set v q [] = refl
  held_set v q (c ∷ cs) = ground (arith, held_set v q cs)

  on_hand_elsewhere :
      (v q : Uuid) (bs : List InventoryBalance)
      → (v == w && q == p) ≡ false
      → column (λ y. y.quantity_on_hand) v q (update_where (at_balance w p) (set_quantity x) bs)
        ≡ column (λ y. y.quantity_on_hand) v q bs
  on_hand_elsewhere v q [] n = refl
  on_hand_elsewhere v q (c ∷ cs) n = ground (arith, on_hand_elsewhere v q cs)

-- The movement `m` of a request `r` between the stocks `s` and `t`.
pub record IsMove (r : Move) (s : Stock) (m : InventoryMovement) (t : Stock) : Type 0 where
  pub recorded : t.movements ≡ s.movements ++ m ∷ []
  pub quantity : m.quantity ≡ r.quantity
  pub here : on_hand r.warehouse_id r.item.id t ≡ on_hand r.warehouse_id r.item.id s +ℤ r.quantity
  pub after : m.balance_after ≡ on_hand r.warehouse_id r.item.id t
  pub elsewhere :
      (v q : Uuid) → (v == r.warehouse_id && q == r.item.id) ≡ false → on_hand v q t ≡ on_hand v q s
  pub unreserved : (v q : Uuid) → held v q t ≡ held v q s
  pub same_transfers : t.transfers ≡ s.transfers
  pub same_lines : t.transfer_lines ≡ s.transfer_lines
  pub enough :
      (not s.allow_negative_inventory
        && (ltb_ℤ r.quantity (pos 0)
            && ltb_ℤ
                (on_hand r.warehouse_id r.item.id s -ℤ held r.warehouse_id r.item.id s)
                (neg r.quantity)))
      ≡ false

post_new_effect :
    (env : Env) (r : Move) (s : Session Stock) {u : InventoryMovement × Session Stock}
    → post_new env r s ≡ ok u
    → IsMove r s.rows u.0 u.1.rows
post_new_effect env r s {u} e =
    let (b, i, found, enough, made, rows) = post_new_inv env r s e in
    let w = r.warehouse_id in
    let p = r.item.id in
    let m = movement_of i r (b.quantity_on_hand +ℤ r.quantity) in
    let before : (f : InventoryBalance → ℤ)
        → f (new_balance w p) ≡ pos 0
        → f b ≡ column f w p s.rows.balances =
      λ f z.
        sym (ap (λ (o : Option InventoryBalance). elim o [ none ↦ pos 0 | some x ↦ f x ]) found)
        ∙ column-with_balance w p w p f s.rows.balances z in
    let on_hand_before = before (λ x. x.quantity_on_hand) refl in
    let held_before = before (λ x. x.reserved_quantity) refl in
    let new = b.quantity_on_hand +ℤ r.quantity in
    let is : IsMove r s.rows m (moved r b m (with_row r s.rows)) = record {
      recorded = refl;
      quantity = refl;
      here =
          on_hand_set w p new b (with_row r s.rows).balances found
          ∙ ap (λ x. x +ℤ r.quantity) on_hand_before;
      after = sym (on_hand_set w p new b (with_row r s.rows).balances found);
      elsewhere = λ v q n.
          on_hand_elsewhere w p new v q (with_row r s.rows).balances n
          ∙ column-with_balance w p v q (λ x. x.quantity_on_hand) s.rows.balances refl;
      unreserved = λ v q.
          held_set w p new v q (with_row r s.rows).balances
          ∙ column-with_balance w p v q (λ x. x.reserved_quantity) s.rows.balances refl;
      same_transfers = refl;
      same_lines = refl;
      enough =
          subst
            (λ x.
              (not s.rows.allow_negative_inventory
                && (ltb_ℤ r.quantity (pos 0) && ltb_ℤ (x -ℤ held w p s.rows) (neg r.quantity)))
              ≡ false)
            on_hand_before
            (subst
              (λ x.
                (not s.rows.allow_negative_inventory
                  && (ltb_ℤ r.quantity (pos 0) && ltb_ℤ (b.quantity_on_hand -ℤ x) (neg r.quantity)))
                ≡ false)
              held_before enough);
    } in
    subst (λ x. IsMove r s.rows x u.1.rows) (sym made)
      (subst (λ x. IsMove r s.rows m x) (sym rows) is)

-- When `_post_movement` posts a movement of its own: the ledger gains that movement and nothing
-- else, the quantity on hand of its balance changes by the quantity of the movement, which records
-- the figure that results, no other quantity on hand and no reserved quantity changes, and there
-- was enough: unless the company allows negative stock, an outward quantity is at most what was
-- on hand and not reserved.
pub post_movement_effect :
    (env : Env) (r : Move) (s : Session Stock) {u : InventoryMovement × Session Stock}
    → existing_movement r.idempotency_key s.rows ≡ none
    → post_movement env r s ≡ ok u
    → IsMove r s.rows u.0 u.1.rows
unfolding post_movement post_or_replay
post_movement_effect env r s {u} fresh e =
    let (_, e1) =
      raise_if_inv (not (is_precise r.item.precision r.quantity))
        (domain_validation "VALIDATION_ERROR")
        (gets (existing_movement r.idempotency_key) >>= post_or_replay env r) s e in
    post_new_effect env r s
      (subst (λ (o : Option InventoryMovement). post_or_replay env r o s ≡ ok u) fresh e1)
