-- ===== src/Inventory/Reservations/Service.antt =====
-- The two operations, from the lock of the balance to the last write.
use nexora_ai.Prelude.{
  ◌≡◌, refl, sym, ap, ◌∙◌, subst, Bool, true, false, ◌&&◌, not, some, List, [], ◌∷◌, ◌++◌, ◌==◌,
  arith, All-append, any_of, first, update_where, if◌then◌else◌,
}
use nexora_ai.Prelude.Int.{
  ℤ, pos, pos_part, neg_part, ◌+ℤ◌, ◌-ℤ◌, neg, ◌≤ℤ◌, ltb_ℤ, int_laws, +ℤ_parts, -ℤ_parts, neg_parts,
}
use nexora_ai.Prelude.Groups.{Distinct, Distinct-append}
use nexora_ai.Session.{
  Uuid, Context, Env, conflict, not_found, Session, ok, bind_inv, raise_if_inv, or_raise_inv,
  raise_if, ◌>>◌,
}
use nexora_ai.Session.Keeps.{Keeps, Keeps-inv, keeps_rules}
use nexora_ai.Inventory.Model.{
  InventoryBalance, StockReservation, Stock, is_active, at_balance, reservation,
}
use nexora_ai.Inventory.Movement.{balance_for_update}
use nexora_ai.Inventory.Movement.Steps.{balance_for_update_inv, key_of}
use nexora_ai.Inventory.Operations.{
  ReservationCreate, reserve, reserve_locked, reserve_available, release_locked, release,
  write_reservation, give_back, new_reservation,
}
use nexora_ai.Inventory.Balances.{
  IsCounted, IsStock, with_balance-IsStock, reserved_for, reservation_id, holds,
}
use nexora_ai.Prelude.Rows.{first-passes, All-update, All-first, any_of-update, total-select_append}
use nexora_ai.Inventory.Kept.{validate_pair-IsStock}
use nexora_ai.Inventory.Reservations.{
  reserved, given_back, write_reservation_inv, give_back_inv, released_sum, release_row,
}
use nexora_ai.Inventory.Reservations.Kept.{rebooked-IsStock}

reserved_fits : (on held q : ℤ) → ltb_ℤ (on -ℤ held) q ≡ false → held +ℤ q ≤ℤ on
reserved_fits on held q e = ground (arith, +ℤ_parts held q, -ℤ_parts on held)

released_fits : (on held q : ℤ) → held ≤ℤ on → pos 0 ≤ℤ q → held +ℤ neg q ≤ℤ on
released_fits on held q a p = ground (arith, +ℤ_parts held (neg q), neg_parts q)

-- What a balance of a key is updated by.
at_own_key :
    (w p : Uuid) (b : InventoryBalance) (P : Uuid → Uuid → Type 0)
    → at_balance w p b ≡ true
    → P w p
    → P b.warehouse_id b.product_id
at_own_key w p b P e x =
    let (ew, ep) = key_of w p b e in subst (λ y. P b.warehouse_id y) ep (subst (λ y. P y p) ew x)

active_test : (a b : Bool) → (a && b && true) ≡ (a && b)
active_test true true = refl
active_test true false = refl
active_test false b = refl

other_side :
    (c : Bool) (x y q : ℤ)
    → x ≡ y +ℤ (if c then q else pos 0)
    → y ≡ x +ℤ (if c then neg q else pos 0)
other_side true x y q e = omega (int_laws, ap pos_part e, ap neg_part e)
other_side false x y q e = omega (int_laws, ap pos_part e, ap neg_part e)

-- An update that leaves the identifiers keeps them distinct.
Distinct-released :
    (i : Uuid) (rs : List StockReservation)
    → Distinct reservation_id rs
    → Distinct reservation_id (update_where (λ x. i == x.id) release_row rs)
unfolding release_row
Distinct-released i [] d = tt
Distinct-released i (x ∷ rs) d = (
  ground (arith, any_of-update (λ y. x.id == y.id) (λ y. i == y.id) release_row rs (λ y. refl)),
  Distinct-released i rs d.1,
)

reserved-IsStock :
    (q : ReservationCreate) (i : Uuid) (b : InventoryBalance) (s : Stock)
    → IsStock s
    → first (at_balance q.warehouse_id q.product_id) s.balances ≡ some b
    → (not s.allow_negative_inventory
        && ltb_ℤ (b.quantity_on_hand -ℤ b.reserved_quantity) q.quantity)
      ≡ false
    → any_of (λ x. i == x.id) s.reservations ≡ false
    → ltb_ℤ (pos 0) q.quantity ≡ true
    → IsStock (reserved (new_reservation i q) b s)
reserved-IsStock q i b s h found enough fresh some_of_it =
    let r = new_reservation i q in
    let (_, at) =
      All-first (IsCounted s.movements s.reservations s.allow_negative_inventory)
        (at_balance q.warehouse_id q.product_id) s.balances b h.counted found in
    at_own_key q.warehouse_id q.product_id b
      (λ w p. IsStock (reserved r (record b { warehouse_id = w; product_id = p }) s)) at
      (rebooked-IsStock q.warehouse_id q.product_id q.quantity s (s.reservations ++ r ∷ []) b h
        found
        (λ v p.
          total-select_append (λ x. x.quantity) (holds v p) s.reservations r
          ∙ ap (λ t. reserved_for v p s.reservations +ℤ (if t then q.quantity else pos 0))
              (active_test (v == q.warehouse_id) (p == q.product_id)))
        (Distinct-append reservation_id r s.reservations h.reservations_distinct fresh)
        (All-append (λ x. pos 0 ≤ℤ x.quantity) s.reservations (r ∷ []) h.positive
          (ground arith, tt))
        (λ n _. reserved_fits _ _ _ (ground (arith, enough, n))))

pub given_back-IsStock :
    (r : StockReservation) (b : InventoryBalance) (s : Stock)
    → IsStock s
    → first (λ x. r.id == x.id) s.reservations ≡ some r
    → is_active r.status ≡ true
    → first (at_balance r.warehouse_id r.product_id) s.balances ≡ some b
    → IsStock (given_back r b s)
unfolding release_row
given_back-IsStock r b s h listed active found =
    let (_, at) =
      All-first (IsCounted s.movements s.reservations s.allow_negative_inventory)
        (at_balance r.warehouse_id r.product_id) s.balances b h.counted found in
    let (amount, _) =
      All-first (λ x. pos 0 ≤ℤ x.quantity) (λ x. r.id == x.id) s.reservations r h.positive listed in
    at_own_key r.warehouse_id r.product_id b
      (λ w p. IsStock (given_back r (record b { warehouse_id = w; product_id = p }) s)) at
      (rebooked-IsStock r.warehouse_id r.product_id (neg r.quantity) s
        (update_where (λ x. r.id == x.id) release_row s.reservations) b h found
        (λ v p.
          other_side _ _ _ _
            (released_sum v p r s.reservations h.reservations_distinct listed active))
        (Distinct-released r.id s.reservations h.reservations_distinct)
        (All-update (λ x. pos 0 ≤ℤ x.quantity) (λ x. pos 0 ≤ℤ x.quantity) (λ x. r.id == x.id)
          release_row s.reservations (λ x _ k. k) (λ x _ k. k) h.positive)
        (λ n a. released_fits _ _ _ a amount))

locked_for :
    (w p : Uuid) (s : Session Stock) {u : InventoryBalance × Session Stock}
    → IsStock s.rows
    → balance_for_update w p s ≡ ok u
    → IsStock u.1.rows
      × (first (at_balance w p) u.1.rows.balances ≡ some u.0)
      × (u.1.rows.reservations ≡ s.rows.reservations)
locked_for w p s h e =
    let (rows, found) = balance_for_update_inv w p s e in
    (
      subst IsStock (sym rows) (with_balance-IsStock w p s.rows h),
      found,
      ap (λ (t : Stock). t.reservations) rows,
    )

reserve_locked-IsStock : (env : Env) (q : ReservationCreate) → Keeps IsStock (reserve_locked env q)
unfolding reserve_locked reserve_available
reserve_locked-IsStock env q = Keeps-inv {P = IsStock} {m = reserve_locked env q} λ s u h e.
    let (b, t, p, h1) =
      bind_inv (balance_for_update q.warehouse_id q.product_id) (reserve_available env q) s e in
    let (held, found, _) = locked_for q.warehouse_id q.product_id s h p in
    let (enough, h2) =
      raise_if_inv
        (not t.rows.allow_negative_inventory
          && ltb_ℤ (b.quantity_on_hand -ℤ b.reserved_quantity) q.quantity)
        (conflict "INSUFFICIENT_STOCK") (write_reservation env q b) t h1 in
    let (i, _, after, fresh, some_of_it) = write_reservation_inv env q b t h2 in
    subst IsStock (sym after) (reserved-IsStock q i b t.rows held found enough fresh some_of_it)

pub reserve-IsStock :
    (c : Context) (env : Env) (q : ReservationCreate) → Keeps IsStock (reserve c env q)
unfolding reserve
reserve-IsStock c env q =
    search (keeps_rules, validate_pair-IsStock, reserve_locked-IsStock) depth 9

first_key :
    (i : Uuid) (rs : List StockReservation) (r : StockReservation)
    → first (λ x. i == x.id) rs ≡ some r
    → first (λ x. r.id == x.id) rs ≡ some r
first_key i rs r e =
    let test = first-passes (λ (x : StockReservation). i == x.id) rs r e in
    let same : i ≡ r.id = ground arith in subst (λ j. first (λ x. j == x.id) rs ≡ some r) same e

pub release-IsStock : (i : Uuid) → Keeps IsStock (release i)
unfolding release reservation release_locked
release-IsStock i = Keeps-inv {P = IsStock} {m = release i} λ s u h e.
    let (r, listed, h1) =
      or_raise_inv (reservation i s.rows) not_found
        (λ r.
          raise_if (not (is_active r.status)) (conflict "INVALID_STATE_TRANSITION")
          >> release_locked r)
        s e in
    let (live, h2) =
      raise_if_inv (not (is_active r.status)) (conflict "INVALID_STATE_TRANSITION")
        (release_locked r) s h1 in
    let (b, t, p, h3) =
      bind_inv (balance_for_update r.warehouse_id r.product_id) (give_back r) s h2 in
    let (held, found, same) = locked_for r.warehouse_id r.product_id s h p in
    let listed_there =
      first_key i t.rows.reservations r (ap (first (λ x. i == x.id)) same ∙ listed) in
    subst IsStock (sym (give_back_inv r b t h3))
      (given_back-IsStock r b t.rows held listed_there (ground arith) found)
