-- ===== src/Inventory/Transfers/Conserved.antt =====
-- A transfer that is shipped and then received: what leaves one warehouse arrives in the other.
use mathlib.Core.Option.{some-injective}
use nexora_ai.Prelude.{
  ◌≡◌, refl, sym, ap, ◌∙◌, subst, Bool, true, false, not, none, some, List, [], ◌∷◌, ◌==◌, arith,
  first, select_where, if◌then◌else◌,
}
use nexora_ai.Prelude.Int.{ℤ, pos, ◌+ℤ◌, neg, int_laws}
use nexora_ai.Session.{
  Uuid, Context, Env, not_found, conflict, Session, ok, modify, audit, raise_if, bind_inv,
  or_raise_inv, raise_if_inv, ◌>>◌,
}
use nexora_ai.Inventory.Model.{
  StockTransfer, StockTransferLine, Stock, transfer, transfer_lines_of, status_code, draft,
  completed, sort_lines,
}
use nexora_ai.Inventory.Movement.Effect.{on_hand}
use nexora_ai.Inventory.Transfers.{
  move_lines, move_transfer, transition_transfer, set_status, next_status, expected_status,
}
use nexora_ai.Inventory.Transfers.Effect.{moved_quantity, IsShifted, move_lines_effect}
use nexora_ai.Prelude.Rows.{first-passes, first-update}

abbrev pub end_of : Bool → StockTransfer → Uuid
end_of receive t = if receive then t.destination_warehouse_id else t.source_warehouse_id

abbrev pub with_status : Bool → StockTransfer → StockTransfer
with_status receive t = record t { status = next_status receive }

-- One transition of the transfer `t`, between two stocks.
pub record IsTransition (receive : Bool) (i : Uuid) (t : StockTransfer) (s u : Stock) : Type 0 where
  pub found : transfer i s ≡ some t
  pub expected : (status_code t.status == status_code (expected_status receive)) ≡ true
  pub quantities :
      (v q : Uuid)
      → on_hand v q u
        ≡ on_hand v q s
          +ℤ (if v == end_of receive t
              then moved_quantity receive q (transfer_lines_of i s)
              else pos 0)
  pub then_found : transfer i u ≡ some (with_status receive t)
  pub same_lines : u.transfer_lines ≡ s.transfer_lines

move_transfer_inv :
    (c : Context) (env : Env) (receive : Bool) (t : StockTransfer) (s : Session Stock)
    {u : Unit × Session Stock}
    → move_transfer c env receive none t s ≡ ok u
    → (x : Session Stock) × (move_lines c env receive
          (end_of receive t)
          none
          t
          (transfer_lines_of t.id s.rows)
          s
        ≡ ok (tt, x))
      × (u.1.rows ≡ set_status t.id (next_status receive) x.rows)
unfolding move_transfer audit
move_transfer_inv c env receive t s {u} e =
    let (_, x, p, e1) =
      bind_inv (move_lines c env receive (end_of receive t) none t (transfer_lines_of t.id s.rows))
        (λ _.
          modify (set_status t.id (next_status receive))
          >> audit (if receive then "inventory.transfer_received" else "inventory.transfer_shipped")
              "stock_transfer" (some t.id))
        s e in
    (x, p, ground arith)

transitioned :
    (receive : Bool) (i : Uuid) (t : StockTransfer) (s x : Stock)
    → transfer i s ≡ some t
    → (status_code t.status == status_code (expected_status receive)) ≡ true
    → IsShifted (end_of receive t) (λ q. moved_quantity receive q (transfer_lines_of i s)) s x
    → IsTransition receive i t s (set_status i (next_status receive) x)
unfolding transfer
transitioned receive i t s x found expected k = record {
  found = found;
  expected = expected;
  quantities = k.quantities;
  then_found =
      first-update (λ (y : StockTransfer). i == y.id) (with_status receive) x.transfers t
        (λ y. refl) (ap (first (λ (y : StockTransfer). i == y.id)) k.same_transfers ∙ found);
  same_lines = k.same_lines;
}

transition_transfer_inv :
    (c : Context) (env : Env) (i : Uuid) (receive : Bool) (s : Session Stock)
    {u : Unit × Session Stock}
    → transition_transfer c env i receive none s ≡ ok u
    → (t : StockTransfer) × IsTransition receive i t s.rows u.1.rows
unfolding transition_transfer transfer
transition_transfer_inv c env i receive s {u} e =
    let (t, found, e1) =
      or_raise_inv (transfer i s.rows) not_found
        (λ t.
          raise_if (not (status_code t.status == status_code (expected_status receive)))
            (conflict "TRANSFER_STATE_INVALID")
          >> move_transfer c env receive none t)
        s e in
    let (expected, e2) =
      raise_if_inv (not (status_code t.status == status_code (expected_status receive)))
        (conflict "TRANSFER_STATE_INVALID") (move_transfer c env receive none t) s e1 in
    let (x, p, after) = move_transfer_inv c env receive t s e2 in
    let test = first-passes (λ (y : StockTransfer). i == y.id) s.rows.transfers t found in
    let same : t.id ≡ i = ground arith in
    let k =
      subst
        (λ j.
          IsShifted (end_of receive t) (λ q. moved_quantity receive q (transfer_lines_of j s.rows))
            s.rows x.rows)
        same
        (move_lines_effect c env receive (end_of receive t) t (transfer_lines_of t.id s.rows) s
          p) in
    (
      t,
      subst (IsTransition receive i t s.rows)
          (ap (λ j. set_status j (next_status receive) x.rows) (sym same) ∙ sym after)
          (transitioned receive i t s.rows x.rows found (ground arith) k),
    )

neg_sum :
    (a : Bool) (x y : ℤ)
    → (if a then neg x else pos 0) +ℤ neg y ≡ neg ((if a then x else pos 0) +ℤ y)
neg_sum true x y = omega int_laws
neg_sum false x y = omega int_laws

total_out :
    (q : Uuid) (ls : List StockTransferLine)
    → moved_quantity false q ls ≡ neg (moved_quantity true q ls)
total_out q [] = omega int_laws
total_out q (l ∷ ls) =
    ap (λ x. (if q == l.product_id then neg l.quantity else pos 0) +ℤ x) (total_out q ls)
    ∙ neg_sum (q == l.product_id) l.quantity (moved_quantity true q ls)

-- A transfer that is shipped and then received, each time with no idempotency key: it was a draft,
-- and for every product the quantity of its lines is taken from what was on hand in the source
-- warehouse and added to what was on hand in the destination; no other figure on hand changes, and
-- the transfer is completed.
pub transfer_conserved :
    (c d : Context) (env later : Env) (i : Uuid) (s : Session Stock) {u v : Unit × Session Stock}
    → transition_transfer c env i false none s ≡ ok u
    → transition_transfer d later i true none u.1 ≡ ok v
    → (t : StockTransfer) × (transfer i s.rows ≡ some t)
      × (status_code t.status ≡ status_code draft)
      × (transfer i v.1.rows ≡ some (record t { status = completed }))
      × ((w q : Uuid)
          → let amount = moved_quantity true q (transfer_lines_of i s.rows) in
            on_hand w q v.1.rows
            ≡ on_hand w q s.rows
              +ℤ (if w == t.source_warehouse_id then neg amount else pos 0)
              +ℤ (if w == t.destination_warehouse_id then amount else pos 0))
unfolding transfer_lines_of
transfer_conserved c d env later i s {u} {v} e f =
    let (t, out) = transition_transfer_inv c env i false s e in
    let (t2, back) = transition_transfer_inv d later i true u.1 f in
    let same : t2 ≡ with_status false t = some-injective _ _ (sym back.found ∙ out.then_found) in
    (
      t,
      out.found,
      ground (arith, out.expected),
      back.then_found ∙ ap (λ x. some (with_status true x)) same,
      λ w q.
          back.quantities w q
          ∙ ap
              (λ x.
                on_hand w q u.1.rows
                +ℤ (if w == x then moved_quantity true q (transfer_lines_of i u.1.rows) else pos 0))
              (ap (end_of true) same)
          ∙ ap
              (λ x.
                on_hand w q u.1.rows
                +ℤ (if w == t.destination_warehouse_id
                    then moved_quantity true q
                        (sort_lines (select_where (λ l. i == l.transfer_id) x))
                    else pos 0))
              out.same_lines
          ∙ ap
              (λ x.
                x
                +ℤ (if w == t.destination_warehouse_id
                    then moved_quantity true q (transfer_lines_of i s.rows)
                    else pos 0))
              (out.quantities w q
                ∙ ap (λ y. on_hand w q s.rows +ℤ (if w == t.source_warehouse_id then y else pos 0))
                    (total_out q (transfer_lines_of i s.rows))),
    )
