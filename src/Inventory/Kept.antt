-- ===== src/Inventory/Kept.antt =====
-- Every operation of the inventory keeps the invariant of the stock.
use nexora_ai.Prelude.{String, Bool, Option, List, [], ◌∷◌}
use nexora_ai.Prelude.Int.{ℤ}
use nexora_ai.Session.{Uuid, Context, Env, Tx, require_branch, ◌>>=◌, ◌>>◌}
use nexora_ai.Session.Keeps.{Keeps, Keeps-modify, Keeps-bind, keeps_rules}
use nexora_ai.Inventory.Model.{
  Product, StockAdjustment, StockTransfer, StockTransferLine, Stock, Key,
}
use nexora_ai.Inventory.Movement.{validate_pair, require_tracked, post_movement}
use nexora_ai.Inventory.Movement.Kept.{post_movement-IsStock}
use nexora_ai.Inventory.Operations.{
  MovementCreate, receive_stock, issue_stock, AdjustmentCreate, insert_adjustment, adjust,
}
use nexora_ai.Inventory.Transfers.{
  TransferCreate, insert_transfer, insert_transfer_line, add_lines, write_transfer, create_transfer,
  line_move, move_lines, move_transfer, transition_transfer,
}
use nexora_ai.Inventory.Balances.{IsStock}

-- Reads and rows that the invariant does not mention.
require_tracked-IsStock : (p : Product) → Keeps IsStock (require_tracked p)
unfolding require_tracked
require_tracked-IsStock p = search keeps_rules

require_branch-IsStock : (c : Context) (i : Uuid) → Keeps IsStock (require_branch c i)
unfolding require_branch
require_branch-IsStock c i = search keeps_rules

pub validate_pair-IsStock : (c : Context) (w p : Uuid) → Keeps IsStock (validate_pair c w p)
unfolding validate_pair
validate_pair-IsStock c w p =
    search (keeps_rules, require_tracked-IsStock, require_branch-IsStock) depth 12

-- A stock with the same counted rows.
same_stock :
    (s : Stock) (adjustments : List StockAdjustment) (transfers : List StockTransfer)
    (transfer_lines : List StockTransferLine)
    → IsStock s
    → IsStock (record s {
      adjustments = adjustments;
      transfers = transfers;
      transfer_lines = transfer_lines;
    })
same_stock s a t l h = record {
  counted = h.counted;
  unmoved = h.unmoved;
  unheld = h.unheld;
  reservations_distinct = h.reservations_distinct;
  positive = h.positive;
}

pub receive_stock-IsStock :
    (c : Context) (env : Env) (q : MovementCreate) (key : Option Key)
    → Keeps IsStock (receive_stock c env q key)
unfolding receive_stock
receive_stock-IsStock c env q key =
    search (keeps_rules, validate_pair-IsStock, post_movement-IsStock) depth 9

pub issue_stock-IsStock :
    (c : Context) (env : Env) (q : MovementCreate) (key : Option Key)
    → Keeps IsStock (issue_stock c env q key)
unfolding issue_stock
issue_stock-IsStock c env q key =
    search (keeps_rules, validate_pair-IsStock, post_movement-IsStock) depth 9

insert_adjustment-IsStock : (a : StockAdjustment) → Keeps IsStock (insert_adjustment a)
unfolding insert_adjustment
insert_adjustment-IsStock a = search (keeps_rules, Keeps-modify, same_stock) depth 9

pub adjust-IsStock :
    (c : Context) (env : Env) (q : AdjustmentCreate) (key : Option Key)
    → Keeps IsStock (adjust c env q key)
unfolding adjust
adjust-IsStock c env q key =
    search (keeps_rules, validate_pair-IsStock, post_movement-IsStock, insert_adjustment-IsStock)
      depth 12

insert_transfer-IsStock : (t : StockTransfer) → Keeps IsStock (insert_transfer t)
unfolding insert_transfer
insert_transfer-IsStock t = search (keeps_rules, Keeps-modify, same_stock) depth 9

insert_transfer_line-IsStock : (l : StockTransferLine) → Keeps IsStock (insert_transfer_line l)
unfolding insert_transfer_line
insert_transfer_line-IsStock l = search (keeps_rules, Keeps-modify, same_stock) depth 9

add_lines-IsStock :
    (c : Context) (i source : Uuid) (ls : List (Uuid × ℤ)) → Keeps IsStock (add_lines c i source ls)
unfolding add_lines
add_lines-IsStock c i source [] = search keeps_rules
add_lines-IsStock c i source ((p, quantity) ∷ ls) =
    Keeps-bind (validate_pair c source p) (λ _. line >> add_lines c i source ls)
      (validate_pair-IsStock c source p)
      λ _.
        Keeps-bind line (λ _. add_lines c i source ls) (insert_transfer_line-IsStock _)
          λ _. add_lines-IsStock c i source ls
  where
    line : Tx Stock Unit
    line = insert_transfer_line (record { transfer_id = i; product_id = p; quantity = quantity })

write_transfer-IsStock :
    (c : Context) (env : Env) (q : TransferCreate) → Keeps IsStock (write_transfer c env q)
unfolding write_transfer
write_transfer-IsStock c env q =
    search (keeps_rules, insert_transfer-IsStock, add_lines-IsStock) depth 9

pub create_transfer-IsStock :
    (c : Context) (env : Env) (q : TransferCreate) → Keeps IsStock (create_transfer c env q)
unfolding create_transfer
create_transfer-IsStock c env q =
    search (keeps_rules, require_branch-IsStock, write_transfer-IsStock) depth 14

move_lines-IsStock :
    (c : Context) (env : Env) (receive : Bool) (w : Uuid) (key : Option String) (t : StockTransfer)
    (ls : List StockTransferLine)
    → Keeps IsStock (move_lines c env receive w key t ls)
unfolding move_lines
move_lines-IsStock c env receive w key t [] = search keeps_rules
move_lines-IsStock c env receive w key t (l ∷ ls) =
    Keeps-bind (validate_pair c w l.product_id)
      (λ item.
        post_movement env (line_move receive w key t (l.product_id, l.quantity) item) >>= λ _.
        move_lines c env receive w key t ls)
      (validate_pair-IsStock c w l.product_id)
      λ item.
        Keeps-bind (post_movement env (line_move receive w key t (l.product_id, l.quantity) item))
          (λ _. move_lines c env receive w key t ls) (post_movement-IsStock env _)
          λ _. move_lines-IsStock c env receive w key t ls

move_transfer-IsStock :
    (c : Context) (env : Env) (receive : Bool) (key : Option String) (t : StockTransfer)
    → Keeps IsStock (move_transfer c env receive key t)
unfolding move_transfer
move_transfer-IsStock c env receive key t =
    search (keeps_rules, move_lines-IsStock, Keeps-modify, same_stock) depth 12

pub transition_transfer-IsStock :
    (c : Context) (env : Env) (i : Uuid) (receive : Bool) (key : Option String)
    → Keeps IsStock (transition_transfer c env i receive key)
unfolding transition_transfer
transition_transfer-IsStock c env i receive key =
    search (keeps_rules, move_transfer-IsStock) depth 12
