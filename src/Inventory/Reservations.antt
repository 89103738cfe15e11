-- ===== src/Inventory/Reservations.antt =====
-- What `reserve` and `release` write, and what a released reservation takes from a sum.
pub mod Kept
pub mod Service
mod Returns
pub mod Undone
use mathlib.Core.Option.{some-injective}
use nexora_ai.Prelude.{
  ℕ, String, ◌≡◌, refl, sym, ap, ◌∙◌, subst, Bool, true, false, ◌&&◌, ◌||◌, not, Option, none, some,
  List, [], ◌∷◌, ◌++◌, ◌==◌, arith, All, All-append, any_of, first, select_where, update_where,
  if◌then◌else◌, Bool-cases, inl, inr,
}
use nexora_ai.Prelude.Int.{
  ℤ, pos, ◌+ℤ◌, ◌-ℤ◌, neg, ◌≤ℤ◌, ltb_ℤ, total, int_laws, +ℤ_parts, -ℤ_parts, neg_parts, +ℤ_zero,
}
use nexora_ai.Prelude.Groups.{Distinct, Distinct-append}
use nexora_ai.Session.{
  Uuid, Context, Env, conflict, integrity_error, domain_validation, not_found, Session, Result, ok,
  err, Tx, bind_inv, raise_if_inv, or_raise_inv, audit, raise_if, gets, modify, ◌>>=◌, ◌>>◌,
}
use nexora_ai.Session.Keeps.{Keeps, Keeps-inv, Keeps-ok}
use nexora_ai.Inventory.Model.{
  Product, InventoryBalance, StockReservation, Stock, is_active, active, released, at_balance,
  with_balance, reservation,
}
use nexora_ai.Inventory.Movement.{validate_pair, balance_for_update, is_precise}
use nexora_ai.Inventory.Movement.Steps.{balance_for_update_inv, key_of}
use nexora_ai.Inventory.Operations.{
  ReservationCreate, reserve, release, write_reservation, give_back, add_reserved, set_released,
  new_reservation, insert_reservation, reserve_more,
}
use nexora_ai.Inventory.Balances.{
  IsCounted, IsStock, with_balance-IsStock, reserved_for, reservation_id, holds,
}
use nexora_ai.Prelude.Rows.{
  All-update, All-first, any_of-first, any_of-update, total-select_append, +ℤ_assoc,
}
use nexora_ai.Inventory.Kept.{validate_pair-IsStock}

-- The stock after a reservation.
abbrev pub reserved : StockReservation → InventoryBalance → Stock → Stock
reserved r b s =
    let t = add_reserved b.warehouse_id b.product_id r.quantity s in
    record t { reservations = t.reservations ++ r ∷ [] }

pub write_reservation_inv :
    (env : Env) (q : ReservationCreate) (b : InventoryBalance) (s : Session Stock)
    {u : StockReservation × Session Stock}
    → write_reservation env q b s ≡ ok u
    → (i : Uuid) × (u.0 ≡ new_reservation i q)
      × (u.1.rows ≡ reserved (new_reservation i q) b s.rows)
      × (any_of (λ x. i == x.id) s.rows.reservations ≡ false)
      × (ltb_ℤ (pos 0) q.quantity ≡ true)
unfolding write_reservation reserve_more insert_reservation audit
write_reservation_inv env q b s h =
    (env.uuid7 s.drawn, ground arith, ground arith, ground arith, ground arith)

-- The stock after a release.
abbrev pub given_back : StockReservation → InventoryBalance → Stock → Stock
given_back r b s = set_released r.id (add_reserved b.warehouse_id b.product_id (neg r.quantity) s)

pub give_back_inv :
    (r : StockReservation) (b : InventoryBalance) (s : Session Stock) {u : Unit × Session Stock}
    → give_back r b s ≡ ok u
    → u.1.rows ≡ given_back r b s.rows
unfolding give_back reserve_more audit
give_back_inv r b s h = ground arith

unfoldable pub release_row : StockReservation → StockReservation
release_row r = record r { status = released }

+ℤ_comm : (a b : ℤ) → a +ℤ b ≡ b +ℤ a
+ℤ_comm a b = omega int_laws

no_release :
    (v p i : Uuid) (rs : List StockReservation)
    → any_of (λ x. i == x.id) rs ≡ false
    → reserved_for v p (update_where (λ x. i == x.id) release_row rs) ≡ reserved_for v p rs
unfolding release_row
no_release v p i [] h = refl
no_release v p i (x ∷ rs) h = ground (arith, no_release v p i rs)

released_head :
    (v p : Uuid) (r : StockReservation) (rs : List StockReservation)
    → any_of (λ x. r.id == x.id) rs ≡ false
    → is_active r.status ≡ true
    → reserved_for v p (r ∷ rs)
      ≡ reserved_for v p (update_where (λ x. r.id == x.id) release_row (r ∷ rs))
        +ℤ (if v == r.warehouse_id && p == r.product_id then r.quantity else pos 0)
unfolding release_row
released_head v p r rs n a = ground (
  arith,
  no_release v p r.id rs n,
  +ℤ_comm r.quantity (reserved_for v p rs),
  +ℤ_zero (reserved_for v p rs),
)

-- Releasing one active reservation takes its quantity from its own balance, and from no other.
pub released_sum :
    (v p : Uuid) (r : StockReservation) (rs : List StockReservation)
    → Distinct reservation_id rs
    → first (λ x. r.id == x.id) rs ≡ some r
    → is_active r.status ≡ true
    → reserved_for v p rs
      ≡ reserved_for v p (update_where (λ x. r.id == x.id) release_row rs)
        +ℤ (if v == r.warehouse_id && p == r.product_id then r.quantity else pos 0)
unfolding release_row
released_sum v p r [] d f a = cc
released_sum v p r (x ∷ rs) d f a = elim (Bool-cases (r.id == x.id)) [
  | inl e ↦
      let same : r ≡ x = ground (arith, some-injective x r) in
      subst
        (λ y.
          reserved_for v p (y ∷ rs)
          ≡ reserved_for v p (update_where (λ z. r.id == z.id) release_row (y ∷ rs))
            +ℤ (if v == r.warehouse_id && p == r.product_id then r.quantity else pos 0))
        same (released_head v p r rs (ground arith) a)
  | inr e ↦ ground (
    arith,
    released_sum v p r rs d.1 (ground arith) a,
    +ℤ_assoc x.quantity (reserved_for v p (update_where (λ z. r.id == z.id) release_row rs))
        (if v == r.warehouse_id && p == r.product_id then r.quantity else pos 0),
  )
]
