-- ===== src/Inventory/Transfers/Effect.antt =====
-- What shipping and receiving a transfer does to the quantities on hand.
use nexora_ai.Prelude.{
  ◌≡◌, refl, sym, ap, ◌∙◌, subst, Bool, true, false, ◌&&◌, none, some, List, [], ◌∷◌, ◌==◌, arith,
  if◌then◌else◌, Bool-cases, inl, inr,
}
use nexora_ai.Prelude.Int.{ℤ, pos, ◌+ℤ◌, neg, total, int_laws, +ℤ_zero}
use nexora_ai.Session.{Uuid, Context, Env, Session, ok, bind_inv, ◌>>=◌}
use nexora_ai.Inventory.Model.{
  Product, InventoryMovement, StockTransfer, StockTransferLine, Stock, product,
}
use nexora_ai.Inventory.Movement.{
  validate_pair, require_tracked, Move, post_movement, existing_movement,
}
use nexora_ai.Inventory.Movement.Effect.{on_hand, IsMove, post_movement_effect}
use nexora_ai.Inventory.Transfers.{line_move, move_lines}
use nexora_ai.Prelude.Rows.{first-passes}

-- `_validate_pair` reads, and returns the product of the identifier.
validate_pair_inv :
    (c : Context) (w p : Uuid) (s : Session Stock) {u : Product × Session Stock}
    → validate_pair c w p s ≡ ok u
    → (product p s.rows ≡ some u.0) × (u.1 ≡ s)
unfolding validate_pair require_tracked
validate_pair_inv c w p s {u} e = (ground arith, ground arith)

product_id : (p : Uuid) (s : Stock) (x : Product) → product p s ≡ some x → x.id ≡ p
unfolding product
product_id p s x e =
    let test = first-passes (λ (y : Product). p == y.id && y.is_live) s.products x e in ground arith

-- The quantity that a transfer moves of one product, with the sign of its direction.
abbrev pub moved_quantity : Bool → Uuid → List StockTransferLine → ℤ
moved_quantity receive q ls =
    total
      (λ l. if q == l.product_id then (if receive then l.quantity else neg l.quantity) else pos 0)
      ls

-- The figures of `t` are those of `s`, with `amount q` more of each product `q` in one warehouse;
-- the transfers and their lines are the same.
pub record IsShifted (w : Uuid) (amount : Uuid → ℤ) (s t : Stock) : Type 0 where
  pub quantities :
      (v q : Uuid) → on_hand v q t ≡ on_hand v q s +ℤ (if v == w then amount q else pos 0)
  pub same_transfers : t.transfers ≡ s.transfers
  pub same_lines : t.transfer_lines ≡ s.transfer_lines

-- The effect of a movement on every figure at once.
IsMove-figures :
    (r : Move) (s t : Stock) (m : InventoryMovement) (v q : Uuid)
    → IsMove r s m t
    → on_hand v q t
      ≡ on_hand v q s +ℤ (if v == r.warehouse_id && q == r.item.id then r.quantity else pos 0)
IsMove-figures r s t m v q k = elim (Bool-cases (v == r.warehouse_id && q == r.item.id)) [
  | inl y ↦
      let of_warehouse : r.warehouse_id ≡ v = ground arith in
      let of_product : r.item.id ≡ q = ground arith in
      subst (λ x. on_hand v x t ≡ on_hand v x s +ℤ r.quantity) of_product
        (subst (λ x. on_hand x r.item.id t ≡ on_hand x r.item.id s +ℤ r.quantity) of_warehouse
          k.here)
      ∙ ap (λ c. on_hand v q s +ℤ (if c then r.quantity else pos 0)) (sym y)
  | inr n ↦
      k.elsewhere v q n
      ∙ sym (+ℤ_zero (on_hand v q s))
      ∙ ap (λ c. on_hand v q s +ℤ (if c then r.quantity else pos 0)) (sym n)
]

one_line :
    (a b : Bool) (x : ℤ)
    → (if a && b then x else pos 0) ≡ (if a then (if b then x else pos 0) +ℤ pos 0 else pos 0)
one_line true true x = sym (+ℤ_zero x)
one_line true false x = sym (+ℤ_zero (pos 0))
one_line false b x = refl

move_line_effect :
    (env : Env) (receive : Bool) (w : Uuid) (t : StockTransfer) (l : StockTransferLine)
    (item : Product) (s : Session Stock) {u : InventoryMovement × Session Stock}
    → item.id ≡ l.product_id
    → post_movement env (line_move receive w none t (l.product_id, l.quantity) item) s ≡ ok u
    → IsShifted w (λ q. moved_quantity receive q (l ∷ [])) s.rows u.1.rows
unfolding existing_movement
move_line_effect env receive w t l item s {u} same e =
    let r = line_move receive w none t (l.product_id, l.quantity) item in
    let k = post_movement_effect env r s refl e in
    let x : ℤ = if receive then l.quantity else neg l.quantity in
    record {
      quantities = λ v q.
          IsMove-figures r s.rows u.1.rows u.0 v q k
          ∙ ap (λ i. on_hand v q s.rows +ℤ (if v == w && q == i then x else pos 0)) same
          ∙ ap (λ y. on_hand v q s.rows +ℤ y) (one_line (v == w) (q == l.product_id) x);
      same_transfers = k.same_transfers;
      same_lines = k.same_lines;
    }

more :
    (a : Bool) (x y z : ℤ)
    → x +ℤ (if a then y +ℤ pos 0 else pos 0) +ℤ (if a then z else pos 0)
      ≡ x +ℤ (if a then y +ℤ z else pos 0)
more true x y z = omega int_laws
more false x y z = omega int_laws

IsShifted-append :
    (w : Uuid) (receive : Bool) (l : StockTransferLine) (ls : List StockTransferLine)
    (s t u : Stock)
    → IsShifted w (λ q. moved_quantity receive q (l ∷ [])) s t
    → IsShifted w (λ q. moved_quantity receive q ls) t u
    → IsShifted w (λ q. moved_quantity receive q (l ∷ ls)) s u
IsShifted-append w receive l ls s t u h k = record {
  quantities = λ v q.
      k.quantities v q
      ∙ ap (λ x. x +ℤ (if v == w then moved_quantity receive q ls else pos 0)) (h.quantities v q)
      ∙ more (v == w) (on_hand v q s)
          (if q == l.product_id then (if receive then l.quantity else neg l.quantity) else pos 0)
          (moved_quantity receive q ls);
  same_transfers = k.same_transfers ∙ h.same_transfers;
  same_lines = k.same_lines ∙ h.same_lines;
}

unshifted : (a : Bool) (x : ℤ) → x ≡ x +ℤ (if a then pos 0 else pos 0)
unshifted true x = sym (+ℤ_zero x)
unshifted false x = sym (+ℤ_zero x)

-- All lines, with no idempotency key, so that none is a replay.
pub move_lines_effect :
    (c : Context) (env : Env) (receive : Bool) (w : Uuid) (t : StockTransfer)
    (ls : List StockTransferLine) (s : Session Stock) {u : Unit × Session Stock}
    → move_lines c env receive w none t ls s ≡ ok u
    → IsShifted w (λ q. moved_quantity receive q ls) s.rows u.1.rows
unfolding move_lines
move_lines_effect c env receive w t [] s {u} e =
    let same : s ≡ u.1 = ground arith in
    subst (λ (x : Session Stock). IsShifted w (λ q. pos 0) s.rows x.rows) same
      (record {
        quantities = λ v q. unshifted (v == w) (on_hand v q s.rows);
        same_transfers = refl;
        same_lines = refl;
      })
move_lines_effect c env receive w t (l ∷ ls) s {u} e =
    let (item, s1, p, e1) =
      bind_inv (validate_pair c w l.product_id)
        (λ item.
          post_movement env (line_move receive w none t (l.product_id, l.quantity) item) >>= λ _.
          move_lines c env receive w none t ls)
        s e in
    let (found, same) = validate_pair_inv c w l.product_id s p in
    let (m, s2, p2, e2) =
      bind_inv (post_movement env (line_move receive w none t (l.product_id, l.quantity) item))
        (λ _. move_lines c env receive w none t ls) s1 e1 in
    IsShifted-append w receive l ls s.rows s2.rows u.1.rows
      (subst
        (λ (x : Session Stock). IsShifted w (λ q. moved_quantity receive q (l ∷ [])) x.rows s2.rows)
        same
        (move_line_effect env receive w t l item s1 (product_id l.product_id s.rows item found) p2))
      (move_lines_effect c env receive w t ls s2 e2)
