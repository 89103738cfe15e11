-- ===== src/Inventory/Balances.antt =====
-- The invariant of the stock, and how its parts follow the lists that they stand on: each balance is
-- the sum of its movements and of its active reservations, and no more is reserved than is there.
use nexora_ai.Prelude.{
  ◌≡◌, refl, sym, Bool, true, false, ◌&&◌, List, [], ◌∷◌, ◌++◌, ◌==◌, arith, All, any_of,
  select_where, if◌then◌else◌, All-append,
}
use nexora_ai.Prelude.Int.{ℤ, pos, ◌≤ℤ◌, total}
use nexora_ai.Prelude.Rows.{any_of-append}
use nexora_ai.Prelude.Groups.{Distinct}
use nexora_ai.Session.{Uuid}
use nexora_ai.Inventory.Model.{
  InventoryMovement, InventoryBalance, StockReservation, is_active, Stock, at_balance, new_balance,
  with_balance,
}
use nexora_ai.Inventory.Transfers.{ledger}

abbrev pub reservation_id : StockReservation → Uuid
reservation_id r = r.id

abbrev pub holds : Uuid → Uuid → StockReservation → Bool
holds w p r = w == r.warehouse_id && p == r.product_id && is_active r.status

-- The quantity that the active reservations of a balance come to.
abbrev pub reserved_for : Uuid → Uuid → List StockReservation → ℤ
reserved_for w p rs = total (λ r. r.quantity) (select_where (holds w p) rs)

pub record IsCounted (ms : List InventoryMovement) (rs : List StockReservation)
    (negative_allowed : Bool) (b : InventoryBalance) : Type 0 where
  pub on_hand : b.quantity_on_hand ≡ ledger b.warehouse_id b.product_id ms
  pub reserved : b.reserved_quantity ≡ reserved_for b.warehouse_id b.product_id rs
  pub available : negative_allowed ≡ false → b.reserved_quantity ≤ℤ b.quantity_on_hand

pub record IsStock (s : Stock) : Type 0 where
  pub counted : All (IsCounted s.movements s.reservations s.allow_negative_inventory) s.balances
  pub unmoved :
      (w p : Uuid) → any_of (at_balance w p) s.balances ≡ false → ledger w p s.movements ≡ pos 0
  pub unheld :
      (w p : Uuid)
      → any_of (at_balance w p) s.balances ≡ false
      → reserved_for w p s.reservations ≡ pos 0
  pub reservations_distinct : Distinct reservation_id s.reservations
  pub positive : All (λ r. pos 0 ≤ℤ r.quantity) s.reservations

-- A row that ON CONFLICT DO NOTHING adds holds zeros, which is what nothing comes to.
pub with_balance-IsStock :
    (w p : Uuid) (s : Stock)
    → IsStock s
    → IsStock (record s { balances = with_balance w p s.balances })
with_balance-IsStock w p s h = go (any_of (at_balance w p) s.balances) refl
  where
    go :
        (b : Bool)
        → any_of (at_balance w p) s.balances ≡ b
        → IsStock
            (record s { balances = if b then s.balances else s.balances ++ new_balance w p ∷ [] })
    go true e = record {
      counted = h.counted;
      unmoved = h.unmoved;
      unheld = h.unheld;
      reservations_distinct = h.reservations_distinct;
      positive = h.positive;
    }
    go false e = record {
      counted =
          All-append (IsCounted s.movements s.reservations s.allow_negative_inventory) s.balances
            (new_balance w p ∷ []) h.counted
            (
              record {
                on_hand = sym (h.unmoved w p e);
                reserved = sym (h.unheld w p e);
                available = λ _. omega arith;
              },
              tt,
            );
      unmoved = λ v q n. h.unmoved v q (without v q n);
      unheld = λ v q n. h.unheld v q (without v q n);
      reservations_distinct = h.reservations_distinct;
      positive = h.positive;
    }
      where
        without :
            (v q : Uuid)
            → any_of (at_balance v q) (s.balances ++ new_balance w p ∷ []) ≡ false
            → any_of (at_balance v q) s.balances ≡ false
        without v q n = ground (arith, any_of-append (at_balance v q) s.balances (new_balance w p))
