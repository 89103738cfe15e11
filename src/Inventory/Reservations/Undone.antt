-- ===== src/Inventory/Reservations/Undone.antt =====
-- A reservation that is released: `release` after `reserve`.
use mathlib.Core.Path.{ap₂}
use nexora_ai.Prelude.{
  ◌≡◌, refl, sym, ap, ◌∙◌, subst, false, ◌&&◌, not, some, List, [], ◌∷◌, ◌++◌, ◌==◌, arith, All,
  any_of, first, update_where,
}
use nexora_ai.Prelude.Int.{ℤ, pos, ◌+ℤ◌, ◌-ℤ◌, neg, ◌≤ℤ◌, ltb_ℤ, int_laws, total}
use nexora_ai.Prelude.Rows.{first-passes, All-first, All-select, first-update, update_twice}
use nexora_ai.Session.{
  Uuid, Context, Env, conflict, domain_validation, Session, ok, bind_inv, raise_if_inv, raise_if,
  ◌>>◌,
}
use nexora_ai.Session.Keeps.{Keeps, Keeps-ok, keeps_rules}
use nexora_ai.Inventory.Model.{
  InventoryBalance, StockReservation, Stock, released, at_balance, with_balance,
}
use nexora_ai.Inventory.Movement.{validate_pair, require_tracked, balance_for_update, is_precise}
use nexora_ai.Inventory.Movement.Steps.{balance_for_update_inv, key_of}
use nexora_ai.Inventory.Operations.{
  ReservationCreate, reserve, reserve_locked, reserve_available, release, write_reservation,
  new_reservation,
}
use nexora_ai.Inventory.Balances.{IsCounted, IsStock, with_balance-IsStock, holds}
use nexora_ai.Inventory.Reservations.Returns.{release_returns}
use nexora_ai.Inventory.Reservations.{reserved, given_back, write_reservation_inv}

validate_pair_inv :
    (c : Context) (w p : Uuid) (s : Session Stock) (P : Stock → Type 0)
    → P s.rows
    → Keeps P (validate_pair c w p)
unfolding validate_pair require_tracked
validate_pair_inv c w p s P h = search keeps_rules depth 12

total_nonneg :
    (rs : List StockReservation)
    → All (λ r. pos 0 ≤ℤ r.quantity) rs
    → pos 0 ≤ℤ total (λ r. r.quantity) rs
total_nonneg [] h = omega arith
total_nonneg (r ∷ rs) h = omega (int_laws, total_nonneg rs h.1, h.0)

reserved_nonneg :
    (w p : Uuid) (b : InventoryBalance) (s : Stock)
    → IsStock s
    → first (at_balance w p) s.balances ≡ some b
    → pos 0 ≤ℤ b.reserved_quantity
reserved_nonneg w p b s h found =
    let (counted, _) =
      All-first (IsCounted s.movements s.reservations s.allow_negative_inventory) (at_balance w p)
        s.balances b h.counted found in
    subst (λ x. pos 0 ≤ℤ x) (sym counted.reserved)
      (total_nonneg _ (
        All-select (λ r. pos 0 ≤ℤ r.quantity) (holds b.warehouse_id b.product_id) s.reservations
          h.positive))

-- Adding and taking away again.
taken_back : (a q : ℤ) → a +ℤ q +ℤ neg q ≡ a
taken_back a q = omega (int_laws)

module _ (r : StockReservation) where
  first-append_new :
      (rs : List StockReservation)
      → any_of (λ x. r.id == x.id) rs ≡ false
      → first (λ x. r.id == x.id) (rs ++ r ∷ []) ≡ some r
  first-append_new [] n = ground arith
  first-append_new (x ∷ rs) n = ground (arith, first-append_new rs)

  released_new :
      (rs : List StockReservation)
      → any_of (λ x. r.id == x.id) rs ≡ false
      → update_where (λ x. r.id == x.id) (λ x. record x { status = released }) (rs ++ r ∷ [])
        ≡ rs ++ record r { status = released } ∷ []
  released_new [] n = ground arith
  released_new (x ∷ rs) n =
      let other : (r.id == x.id) ≡ false = ground arith in
      rw other (ap (λ l. x ∷ l) (released_new rs (ground arith)))

module _ (q : ReservationCreate) (i : Uuid) (b : InventoryBalance) (s : Stock) where
  -- The same reservation, taken away again.
  undone :
      any_of (λ x. i == x.id) s.reservations ≡ false
      → given_back (new_reservation i q) b (reserved (new_reservation i q) b s) ≡ record s {
        reservations = s.reservations ++ record (new_reservation i q) { status = released } ∷ [];
      }
  undone fresh =
      ap₂ (λ bs rs. record s { balances = bs; reservations = rs })
        (update_twice (at_balance b.warehouse_id b.product_id) _ _ s.balances (λ x e. (
          e,
          ap (λ z. record x { reserved_quantity = z }) (taken_back x.reserved_quantity q.quantity),
        )))
        (released_new (new_reservation i q) s.reservations fresh)

-- The row of the key, when the quantity is added to it.
reserved_row :
    (w p : Uuid) (r : StockReservation) (b : InventoryBalance) (s : Stock)
    → first (at_balance w p) s.balances ≡ some b
    → first (at_balance w p) (reserved r b s).balances
      ≡ some (record b { reserved_quantity = b.reserved_quantity +ℤ r.quantity })
reserved_row w p r b s found =
    let (ew, ep) = key_of w p b (first-passes (at_balance w p) s.balances b found) in
    let here =
      first-update (at_balance w p)
        (λ b. record b { reserved_quantity = b.reserved_quantity +ℤ r.quantity }) s.balances b
        (λ x. refl) found in
    let row : Uuid → Uuid → Type 0 = λ v y.
      first (at_balance w p) (
        update_where (at_balance v y)
          (λ b. record b { reserved_quantity = b.reserved_quantity +ℤ r.quantity }) s.balances)
      ≡ some (record b { reserved_quantity = b.reserved_quantity +ℤ r.quantity }) in
    subst (row b.warehouse_id) ep (subst (λ v. row v p) ew here)

not_negative : (a : ℤ) → pos 0 ≤ℤ a → ltb_ℤ a (pos 0) ≡ false
not_negative a h = ground arith

undone_returns :
    (q : ReservationCreate) (i : Uuid) (b : InventoryBalance) (s : Stock) (t : Session Stock)
    → IsStock s
    → first (at_balance q.warehouse_id q.product_id) s.balances ≡ some b
    → any_of (λ x. i == x.id) s.reservations ≡ false
    → t.rows ≡ reserved (new_reservation i q) b s
    → (u : Session Stock) × (release i t ≡ ok (tt, u))
      × (u.rows ≡ record s {
        reservations = s.reservations ++ record (new_reservation i q) { status = released } ∷ [];
      })
undone_returns q i b s t h found fresh after =
    let r = new_reservation i q in
    let c : InventoryBalance = record b { reserved_quantity = b.reserved_quantity +ℤ q.quantity } in
    let enough =
      subst (λ z. ltb_ℤ z (pos 0) ≡ false) (sym (taken_back b.reserved_quantity q.quantity))
        (not_negative b.reserved_quantity
          (reserved_nonneg q.warehouse_id q.product_id b s h found)) in
    let (u, done, rows) =
      release_returns i r c t
        (ap (λ (x : Stock). first (λ y. i == y.id) x.reservations) after
          ∙ first-append_new r s.reservations fresh)
        refl
        (ap (λ (x : Stock). first (at_balance q.warehouse_id q.product_id) x.balances) after
          ∙ reserved_row q.warehouse_id q.product_id r b s found)
        enough in
    (u, done, rows ∙ ap (given_back r c) after ∙ undone q i b s fresh)

-- The balance of a key, opened.
abbrev opened : Uuid → Uuid → Stock → Stock
opened w p s = record s { balances = with_balance w p s.balances }

reserve_inv :
    (c : Context) (env : Env) (q : ReservationCreate) (s : Session Stock) (r : StockReservation)
    (t : Session Stock)
    → reserve c env q s ≡ ok (r, t)
    → (i : Uuid) × (b : InventoryBalance) × (r ≡ new_reservation i q)
      × (t.rows ≡ reserved (new_reservation i q) b (opened q.warehouse_id q.product_id s.rows))
      × (first
            (at_balance q.warehouse_id q.product_id)
            (opened q.warehouse_id q.product_id s.rows).balances
          ≡ some b)
      × (any_of (λ x. i == x.id) s.rows.reservations ≡ false)
unfolding reserve reserve_locked reserve_available
reserve_inv c env q s r t e =
    let (p, s1, e1, k1) =
      bind_inv (validate_pair c q.warehouse_id q.product_id)
        (λ p.
          raise_if (not (is_precise p.precision q.quantity)) (domain_validation "VALIDATION_ERROR")
          >> reserve_locked env q)
        s e in
    let (_, k2) =
      raise_if_inv (not (is_precise p.precision q.quantity)) (domain_validation "VALIDATION_ERROR")
        (reserve_locked env q) s1 k1 in
    let (b, s2, e2, k3) =
      bind_inv (balance_for_update q.warehouse_id q.product_id) (reserve_available env q) s1 k2 in
    let (rows, found) = balance_for_update_inv q.warehouse_id q.product_id s1 e2 in
    let (_, k4) =
      raise_if_inv
        (not s2.rows.allow_negative_inventory
          && ltb_ℤ (b.quantity_on_hand -ℤ b.reserved_quantity) q.quantity)
        (conflict "INSUFFICIENT_STOCK") (write_reservation env q b) s2 k3 in
    let (i, made, after, fresh, _) = write_reservation_inv env q b s2 k4 in
    let same : s1.rows ≡ s.rows =
      Keeps-ok {P = λ x. x ≡ s.rows} s s1 p
        (validate_pair_inv c q.warehouse_id q.product_id s (λ x. x ≡ s.rows) refl) refl e1 in
    let there : s2.rows ≡ opened q.warehouse_id q.product_id s.rows =
      rows ∙ ap (opened q.warehouse_id q.product_id) same in
    (
      i,
      b,
      made,
      after ∙ ap (reserved (new_reservation i q) b) there,
      subst (λ (x : Stock). first (at_balance q.warehouse_id q.product_id) x.balances ≡ some b)
          there found,
      subst (λ (x : Stock). any_of (λ y. i == y.id) x.reservations ≡ false) there fresh,
    )

-- A reservation undone: when `reserve` returns, a `release` of what it returned returns as well, and
-- the stock is what it was, with the opened balance and the released reservation in addition, if the
-- stock kept its invariant.
pub release_reserved :
    (c : Context) (env : Env) (q : ReservationCreate) (s : Session Stock) (r : StockReservation)
    (t : Session Stock)
    → IsStock s.rows
    → reserve c env q s ≡ ok (r, t)
    → (u : Session Stock) × (release r.id t ≡ ok (tt, u))
      × (u.rows ≡ record (s.rows) {
        balances = with_balance q.warehouse_id q.product_id s.rows.balances;
        reservations = s.rows.reservations ++ record r { status = released } ∷ [];
      })
release_reserved c env q s r t h e =
    let (i, b, made, after, found, fresh) = reserve_inv c env q s r t e in
    let (u, done, end) =
      undone_returns q i b (opened q.warehouse_id q.product_id s.rows) t
        (with_balance-IsStock q.warehouse_id q.product_id s.rows h) found fresh after in
    (
      u,
      subst (λ (x : StockReservation). release x.id t ≡ ok (tt, u)) (sym made) done,
      end
          ∙ ap
              (λ (y : StockReservation). record (opened q.warehouse_id q.product_id s.rows) {
                reservations = s.rows.reservations ++ record y { status = released } ∷ [];
              })
              (sym made),
    )
