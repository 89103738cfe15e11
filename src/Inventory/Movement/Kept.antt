-- ===== src/Inventory/Movement/Kept.antt =====
-- `_post_movement` keeps the invariant of the stock.
use nexora_ai.Prelude.{
  ◌≡◌, refl, sym, ap, ◌∙◌, subst, true, false, ◌&&◌, not, Option, none, some, [], ◌∷◌, ◌++◌, ◌==◌,
  arith, any_of, first, update_where, Bool-cases, inl, inr,
}
use nexora_ai.Prelude.Int.{pos, ◌+ℤ◌, ◌≤ℤ◌}
use nexora_ai.Session.{Uuid, Env, Session, ok, raise_if_inv, gets, ◌>>=◌, domain_validation}
use nexora_ai.Session.Keeps.{Keeps, Keeps-inv}
use nexora_ai.Inventory.Model.{InventoryMovement, InventoryBalance, Stock, at_balance, at_movement}
use nexora_ai.Inventory.Movement.{
  Move, movement_of, is_short, post_new, replay, post_or_replay, post_movement, is_precise,
  existing_movement, same_request,
}
use nexora_ai.Inventory.Transfers.{ledger}
use nexora_ai.Inventory.Balances.{IsCounted, IsStock, with_balance-IsStock, reserved_for}
use nexora_ai.Prelude.Rows.{All-update, All-first, any_of-first, any_of-update}
use nexora_ai.Inventory.Movement.Steps.{
  moved, post_new_inv, with_row, still_available, ledger_at, ledger_away, key_of,
}

-- A movement of a balance that was counted, where there is enough for it.
module _ (r : Move) (b : InventoryBalance) (m : InventoryMovement) (s : Stock) (h : IsStock s)
    (found : first (at_balance r.warehouse_id r.item.id) s.balances ≡ some b)
    (enough : (not s.allow_negative_inventory && is_short r b) ≡ false)
    (of_warehouse : m.warehouse_id ≡ r.warehouse_id) (of_product : m.product_id ≡ r.item.id)
    (of_quantity : m.quantity ≡ r.quantity) where
  IsMoved : InventoryBalance → Type 0
  IsMoved = IsCounted (s.movements ++ m ∷ []) s.reservations s.allow_negative_inventory

  locked :
      IsCounted s.movements s.reservations s.allow_negative_inventory b
      × (at_balance r.warehouse_id r.item.id b ≡ true)
  locked =
      All-first (IsCounted s.movements s.reservations s.allow_negative_inventory)
        (at_balance r.warehouse_id r.item.id) s.balances b h.counted found

  at_self : (v q : Uuid) → r.warehouse_id ≡ v → r.item.id ≡ q → at_movement v q m ≡ true
  at_self v q e f = ground (arith, of_warehouse, of_product, e, f)

  at_other :
      (v q : Uuid) → (r.warehouse_id == v && r.item.id == q) ≡ false → at_movement v q m ≡ false
  at_other v q e = ground (arith, of_warehouse, of_product)

  on_hand_here :
      (x : InventoryBalance)
      → at_balance r.warehouse_id r.item.id x ≡ true
      → b.quantity_on_hand +ℤ r.quantity
        ≡ ledger x.warehouse_id x.product_id (s.movements ++ m ∷ [])
  on_hand_here x e =
      let (vw, vp) = key_of r.warehouse_id r.item.id x e in
      let (bw, bp) = key_of r.warehouse_id r.item.id b locked.1 in
      ap (λ y. y +ℤ r.quantity) (locked.0.on_hand)
      ∙ ap (λ y. ledger y b.product_id s.movements +ℤ r.quantity) (sym bw ∙ vw)
      ∙ ap (λ y. ledger x.warehouse_id y s.movements +ℤ r.quantity) (sym bp ∙ vp)
      ∙ ap (λ y. ledger x.warehouse_id x.product_id s.movements +ℤ y) (sym of_quantity)
      ∙ sym (ledger_at r b m s x.warehouse_id x.product_id (at_self _ _ vw vp))

  reserved_here :
      (x : InventoryBalance)
      → at_balance r.warehouse_id r.item.id x ≡ true
      → IsCounted s.movements s.reservations s.allow_negative_inventory x
      → b.reserved_quantity ≡ x.reserved_quantity
  reserved_here x e c =
      let (vw, vp) = key_of r.warehouse_id r.item.id x e in
      let (bw, bp) = key_of r.warehouse_id r.item.id b locked.1 in
      locked.0.reserved
      ∙ ap (λ y. reserved_for y b.product_id s.reservations) (sym bw ∙ vw)
      ∙ ap (λ y. reserved_for x.warehouse_id y s.reservations) (sym bp ∙ vp)
      ∙ sym c.reserved

  here :
      (x : InventoryBalance)
      → at_balance r.warehouse_id r.item.id x ≡ true
      → IsCounted s.movements s.reservations s.allow_negative_inventory x
      → IsMoved (record x { quantity_on_hand = b.quantity_on_hand +ℤ r.quantity })
  unfolding IsMoved
  here x e c = record {
    on_hand = on_hand_here x e;
    reserved = c.reserved;
    available = λ n.
        subst (λ y. y ≤ℤ b.quantity_on_hand +ℤ r.quantity) (reserved_here x e c)
          (still_available _ _ _ (locked.0.available n) (ground (arith, enough, n)));
  }

  away :
      (x : InventoryBalance)
      → at_balance r.warehouse_id r.item.id x ≡ false
      → IsCounted s.movements s.reservations s.allow_negative_inventory x
      → IsMoved x
  unfolding IsMoved
  away x e c = record {
    on_hand = c.on_hand ∙ sym (ledger_away r b m s x.warehouse_id x.product_id (at_other _ _ e));
    reserved = c.reserved;
    available = c.available;
  }

  key_eqs : (v q : Uuid) → at_movement v q m ≡ true → (v ≡ r.warehouse_id) × (q ≡ r.item.id)
  key_eqs v q e = (ground (arith, of_warehouse), ground (arith, of_product))

  -- A balance that is not there is not the movement's.
  unmoved_still :
      (v q : Uuid)
      → any_of (at_balance v q) s.balances ≡ false
      → ledger v q (s.movements ++ m ∷ []) ≡ pos 0
  unmoved_still v q n = elim (Bool-cases (at_movement v q m)) [
    | inl e ↦ cc (
      n,
      any_of-first (at_balance v q) s.balances b (
          subst (λ y. first (at_balance y q) s.balances ≡ some b) (sym (key_eqs v q e).0)
            (subst (λ y. first (at_balance r.warehouse_id y) s.balances ≡ some b)
              (sym (key_eqs v q e).1) found)),
    )
    | inr e ↦ ledger_away r b m s v q e ∙ h.unmoved v q n
  ]

  pub moved-IsStock : IsStock (moved r b m s)
  unfolding IsMoved
  moved-IsStock =
      let t = at_balance r.warehouse_id r.item.id in
      let same : (v q : Uuid)
          → any_of (at_balance v q) (
              update_where t (λ x. record x { quantity_on_hand = b.quantity_on_hand +ℤ r.quantity })
                s.balances)
            ≡ any_of (at_balance v q) s.balances =
        λ v q.
          any_of-update (at_balance v q) t
            (λ x. record x { quantity_on_hand = b.quantity_on_hand +ℤ r.quantity }) s.balances
            (λ x. refl) in
      record {
        counted =
            All-update (IsCounted s.movements s.reservations s.allow_negative_inventory) IsMoved t _
              s.balances here away h.counted;
        unmoved = λ v q n. unmoved_still v q (sym (same v q) ∙ n);
        unheld = λ v q n. h.unheld v q (sym (same v q) ∙ n);
        reservations_distinct = h.reservations_distinct;
        positive = h.positive;
      }

pub post_new-IsStock :
    (env : Env) (r : Move) (s : Session Stock) {u : InventoryMovement × Session Stock}
    → IsStock s.rows
    → post_new env r s ≡ ok u
    → IsStock u.1.rows
post_new-IsStock env r s {u} h e =
    let (b, i, found, enough, _, after) = post_new_inv env r s e in
    subst IsStock (sym after) (
      moved-IsStock r b (movement_of i r (b.quantity_on_hand +ℤ r.quantity)) (with_row r s.rows)
        (with_balance-IsStock r.warehouse_id r.item.id s.rows h) found enough refl refl refl)

-- A replay changes nothing.
pub replay_inv :
    (r : Move) (m : InventoryMovement) (s : Session Stock) {u : InventoryMovement × Session Stock}
    → replay r m s ≡ ok u
    → (same_request r m ≡ true) × (u.0 ≡ m) × (u.1 ≡ s)
unfolding replay
replay_inv r m s h = elim (Bool-cases (same_request r m)) [
  | inl e ↦ (e, ground (arith, e), ground (arith, e))
  | inr e ↦ ground (arith, e)
]

post_or_replay-IsStock :
    (env : Env) (r : Move) (s : Session Stock) {u : InventoryMovement × Session Stock}
    (o : Option InventoryMovement)
    → IsStock s.rows
    → post_or_replay env r o s ≡ ok u
    → IsStock u.1.rows
unfolding post_or_replay
post_or_replay-IsStock env r s (some m) h e =
    subst (λ t. IsStock t.rows) (sym (replay_inv r m s e).2) h
post_or_replay-IsStock env r s none h e = post_new-IsStock env r s h e

pub post_movement-IsStock : (env : Env) (r : Move) → Keeps IsStock (post_movement env r)
unfolding post_movement
post_movement-IsStock env r = Keeps-inv {P = IsStock} {m = post_movement env r} λ s u h e.
    let existing = existing_movement r.idempotency_key s.rows in
    let (_, e1) =
      raise_if_inv (not (is_precise r.item.precision r.quantity))
        (domain_validation "VALIDATION_ERROR")
        (gets (existing_movement r.idempotency_key) >>= post_or_replay env r) s e in
    post_or_replay-IsStock env r s existing h e1
