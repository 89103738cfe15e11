-- ===== src/Inventory/Reservations/Kept.antt =====
-- `reserve` and `release` keep the invariant of the stock.
use nexora_ai.Prelude.{
  ◌≡◌, refl, sym, ap, ◌∙◌, subst, true, false, ◌&&◌, some, List, ◌==◌, arith, All, any_of, first,
  update_where, if◌then◌else◌, Bool-cases, inl, inr,
}
use nexora_ai.Prelude.Int.{ℤ, pos, ◌+ℤ◌, ◌≤ℤ◌, +ℤ_zero}
use nexora_ai.Prelude.Groups.{Distinct}
use nexora_ai.Session.{Uuid}
use nexora_ai.Inventory.Model.{InventoryBalance, StockReservation, Stock, at_balance}
use nexora_ai.Inventory.Movement.Steps.{key_of}
use nexora_ai.Inventory.Operations.{add_reserved}
use nexora_ai.Inventory.Transfers.{ledger}
use nexora_ai.Inventory.Balances.{IsCounted, IsStock, reserved_for, reservation_id}
use nexora_ai.Prelude.Rows.{All-update, All-first, any_of-first, any_of-update}

-- Two counted balances of one key have the same figures.
same_counts :
    (s : Stock) (w p : Uuid) (x y : InventoryBalance)
    → at_balance w p x ≡ true
    → at_balance w p y ≡ true
    → IsCounted s.movements s.reservations s.allow_negative_inventory x
    → IsCounted s.movements s.reservations s.allow_negative_inventory y
    → (x.quantity_on_hand ≡ y.quantity_on_hand) × (x.reserved_quantity ≡ y.reserved_quantity)
same_counts s w p x y ex ey cx cy =
    let (xw, xp) = key_of w p x ex in
    let (yw, yp) = key_of w p y ey in
    (
      cx.on_hand
          ∙ ap (λ z. ledger z x.product_id s.movements) (sym xw ∙ yw)
          ∙ ap (λ z. ledger y.warehouse_id z s.movements) (sym xp ∙ yp)
          ∙ sym cy.on_hand,
      cx.reserved
          ∙ ap (λ z. reserved_for z x.product_id s.reservations) (sym xw ∙ yw)
          ∙ ap (λ z. reserved_for y.warehouse_id z s.reservations) (sym xp ∙ yp)
          ∙ sym cy.reserved,
    )

-- The reserved quantity of one key and the reservations change by the same amount, which fits.
module _ (w p : Uuid) (amount : ℤ) (s : Stock) (rs : List StockReservation) (b : InventoryBalance)
    (h : IsStock s) (found : first (at_balance w p) s.balances ≡ some b)
    (sums : (v q : Uuid)
      → reserved_for v q rs
        ≡ reserved_for v q s.reservations +ℤ (if v == w && q == p then amount else pos 0))
    (distinct : Distinct reservation_id rs) (positive : All (λ r. pos 0 ≤ℤ r.quantity) rs)
    (fits : s.allow_negative_inventory ≡ false
      → b.reserved_quantity ≤ℤ b.quantity_on_hand
      → b.reserved_quantity +ℤ amount ≤ℤ b.quantity_on_hand) where
  Was : InventoryBalance → Type 0
  Was = IsCounted s.movements s.reservations s.allow_negative_inventory

  Is : InventoryBalance → Type 0
  Is = IsCounted s.movements rs s.allow_negative_inventory

  locked : Was b × (at_balance w p b ≡ true)
  unfolding Was
  locked = All-first Was (at_balance w p) s.balances b h.counted found

  here :
      (x : InventoryBalance)
      → at_balance w p x ≡ true
      → Was x
      → Is (record x { reserved_quantity = x.reserved_quantity +ℤ amount })
  unfolding Was Is
  here x e c =
      let (on, held) = same_counts s w p b x locked.1 e locked.0 c in
      let (xw, xp) = key_of w p x e in
      let it : (if x.warehouse_id == w && x.product_id == p then amount else pos 0) ≡ amount =
        ground (arith, xw, xp) in
      record {
        on_hand = c.on_hand;
        reserved =
            ap (λ z. z +ℤ amount) c.reserved
            ∙ ap (λ z. reserved_for x.warehouse_id x.product_id s.reservations +ℤ z) (sym it)
            ∙ sym (sums x.warehouse_id x.product_id);
        available = λ n.
            subst (λ z. z +ℤ amount ≤ℤ x.quantity_on_hand) held
              (subst (λ z. b.reserved_quantity +ℤ amount ≤ℤ z) on (fits n (locked.0.available n)));
      }

  away : (x : InventoryBalance) → at_balance w p x ≡ false → Was x → Is x
  unfolding Was Is
  away x e c =
      let it : (if x.warehouse_id == w && x.product_id == p then amount else pos 0) ≡ pos 0 =
        ground arith in
      record {
        on_hand = c.on_hand;
        reserved =
            c.reserved
            ∙ sym (
                sums x.warehouse_id x.product_id
                ∙ ap (λ z. reserved_for x.warehouse_id x.product_id s.reservations +ℤ z) it
                ∙ +ℤ_zero _);
        available = c.available;
      }

  unheld_still :
      (v q : Uuid) → any_of (at_balance v q) s.balances ≡ false → reserved_for v q rs ≡ pos 0
  unheld_still v q n = elim (Bool-cases (v == w && q == p)) [
    | inl e ↦
        let vw : v ≡ w = ground arith in
        let qp : q ≡ p = ground arith in
        cc (
          n,
          any_of-first (at_balance v q) s.balances b (
              subst (λ y. first (at_balance y q) s.balances ≡ some b) (sym vw)
                (subst (λ y. first (at_balance w y) s.balances ≡ some b) (sym qp) found)),
        )
    | inr e ↦
        sums v q
        ∙ ap (λ t. reserved_for v q s.reservations +ℤ (if t then amount else pos 0)) e
        ∙ +ℤ_zero _
        ∙ h.unheld v q n
  ]

  pub rebooked-IsStock : IsStock (record (add_reserved w p amount s) { reservations = rs })
  unfolding Was Is
  rebooked-IsStock =
      let same : (v q : Uuid)
          → any_of (at_balance v q) (
              update_where (at_balance w p)
                (λ x. record x { reserved_quantity = x.reserved_quantity +ℤ amount }) s.balances)
            ≡ any_of (at_balance v q) s.balances =
        λ v q.
          any_of-update (at_balance v q) (at_balance w p)
            (λ x. record x { reserved_quantity = x.reserved_quantity +ℤ amount }) s.balances
            (λ x. refl) in
      record {
        counted = All-update Was Is (at_balance w p) _ s.balances here away h.counted;
        unmoved = λ v q n. h.unmoved v q (sym (same v q) ∙ n);
        unheld = λ v q n. unheld_still v q (sym (same v q) ∙ n);
        reservations_distinct = distinct;
        positive = positive;
      }
