-- ===== src/Sales/Fulfil.antt =====
-- `fulfil` and `_post_fulfillment` of `sales/service.py`: goods leave the warehouse through a
-- movement of the stock, and their cost is recognised in the books.
use nexora_ai.Prelude.{
  not, Option, none, some, List, [], ◌∷◌, ◌==◌, any_of, all_of, first, update_where, sort_by,
  is_empty, if◌then◌else◌,
}
use nexora_ai.Prelude.Int.{ℤ, pos, ◌+ℤ◌, ◌-ℤ◌, ◌*ℤ◌, neg, ltb_ℤ, leb_ℤ}
use nexora_ai.Session.{
  Uuid, year_of, DocumentNumber, Context, Env, not_found, conflict, Tx, pure, raise_if, or_raise,
  gets, modify, new_id, audit, require_branch, ◌>>=◌, ◌>>◌,
}
use nexora_ai.Numbering.{allocate}
use nexora_ai.Accounting.PostingRules.{cogs_recognition}
use nexora_ai.Inventory.Model.{Product, sale}
use nexora_ai.Inventory.Movement.{post_movement}
use nexora_ai.Company.{Company, in_documents, in_stock, get_product, post_event}
use nexora_ai.Sales.Model.{
  confirmed, partially_fulfilled, fulfilled, order_code, SalesOrder, SalesOrderLine, Fulfillment,
  FulfillmentLine, Sales, order_row, order_lines_of, order_line_row, insert_row, insert_fulfillment,
}
use nexora_ai.Sales.Lines.{require_status}
use nexora_ai.Sales.Orders.{set_order_status}

-- A line of a payload, and an entry of the dictionary `requested`.
pub record FulfillmentLineInput : Type 0 where
  pub sales_order_line_id : Uuid
  pub quantity : ℤ

-- `requested[item.sales_order_line_id] = item.quantity`
unfoldable pub put_requested :
    FulfillmentLineInput → List FulfillmentLineInput → List FulfillmentLineInput
put_requested item [] = item ∷ []
put_requested item (r ∷ rs) =
    let rest = put_requested item rs in
    if item.sales_order_line_id == r.sales_order_line_id then item ∷ rs else r ∷ rest

-- The payload's lines, each of which must be one of the order's.
unfoldable pub requested_from :
    List SalesOrderLine
    → List FulfillmentLineInput
    → List FulfillmentLineInput
    → Tx (Company Sales) (List FulfillmentLineInput)
unfolding put_requested
requested_from lines [] requested = pure requested
requested_from lines (item ∷ items) requested = do
  raise_if (not (any_of (λ l. item.sales_order_line_id == l.id) lines)) not_found
  requested_from lines items (put_requested item requested)

abbrev pub outstanding : SalesOrderLine → ℤ
outstanding l = l.totals.quantity -ℤ l.fulfilled_quantity

-- Without lines in the payload: everything still outstanding.
unfoldable pub all_outstanding : List SalesOrderLine → List FulfillmentLineInput
all_outstanding [] = []
all_outstanding (l ∷ ls) =
    let rest = all_outstanding ls in
    if ltb_ℤ l.fulfilled_quantity l.totals.quantity
    then record { sales_order_line_id = l.id; quantity = outstanding l } ∷ rest
    else rest

unfoldable pub requested_of :
    List SalesOrderLine
    → Option (List FulfillmentLineInput)
    → Tx (Company Sales) (List FulfillmentLineInput)
unfolding all_outstanding requested_from
requested_of lines none = pure (all_outstanding lines)
requested_of lines (some items) = requested_from lines items []

-- The row of the fulfillment, and the quantity of the order's line.
unfoldable pub write_fulfilled : SalesOrderLine → FulfillmentLine → Tx Sales Unit
write_fulfilled line l =
    insert_row "fulfillment_lines" (λ d. d.fulfillment_lines)
      (λ xs d. record d {
        fulfillment_lines = xs;
        order_lines =
            update_where (λ k. l.sales_order_line_id == k.id)
              (λ k. record k { fulfilled_quantity = line.fulfilled_quantity +ℤ l.quantity })
              d.order_lines;
      })
      (λ x y. x.id == y.id) (ltb_ℤ (pos 0) l.quantity) l

-- The movement of a tracked product, and its cost.
unfoldable pub ship : Env → Uuid → Uuid → Product → ℤ → Tx (Company Sales) ℤ
unfolding in_stock
ship env warehouse_id fulfillment_id p quantity =
    if p.is_stock_tracked
    then (do
      _ ← in_stock (
          post_movement env (record {
            warehouse_id = warehouse_id;
            item = p;
            movement_type = sale;
            quantity = neg quantity;
            unit_cost = none;
            reference_type = some "fulfillment";
            reference_id = some fulfillment_id;
            idempotency_key = none;
          }))
      pure (quantity *ℤ p.cost_price))
    else pure (pos 0)

abbrev pub new_fulfillment_line :
    Uuid → Fulfillment → FulfillmentLineInput → SalesOrderLine → FulfillmentLine
new_fulfillment_line i f r line = record {
  id = i;
  fulfillment_id = f.id;
  sales_order_line_id = r.sales_order_line_id;
  product_id = line.product_id;
  quantity = r.quantity;
}

-- What a line does that is not over-fulfilled, and its cost.
unfoldable pub ship_line :
    Env → Fulfillment → FulfillmentLineInput → SalesOrderLine → Tx (Company Sales) ℤ
unfolding get_product ship in_documents write_fulfilled
ship_line env f r line = do
  p ← get_product line.product_id
  cost ← ship env f.warehouse_id f.id p r.quantity
  i ← new_id env
  in_documents (write_fulfilled line (new_fulfillment_line i f r line))
  pure cost

-- One round of the loop; the objects of the code are the rows, so a line is read where it is used.
unfoldable pub fulfil_line :
    Env → Fulfillment → FulfillmentLineInput → SalesOrderLine → Tx (Company Sales) ℤ
unfolding ship_line
fulfil_line env f r line = do
  raise_if (ltb_ℤ (outstanding line) r.quantity) (conflict "OVER_FULFILMENT")
  ship_line env f r line

unfoldable pub fulfil_lines :
    Env → Fulfillment → List FulfillmentLineInput → ℤ → Tx (Company Sales) ℤ
unfolding fulfil_line
fulfil_lines env f [] cost = pure cost
fulfil_lines env f (r ∷ rs) cost = do
  found ← gets (λ d. order_line_row r.sales_order_line_id d.documents)
  line ← or_raise found not_found
  added ← fulfil_line env f r line
  fulfil_lines env f rs (cost +ℤ added)

-- `by_id[key].product_id`
abbrev pub product_of : List SalesOrderLine → FulfillmentLineInput → Uuid
product_of lines r = elim (first (λ l. r.sales_order_line_id == l.id) lines) [
  | none ↦ 0
  | some l ↦ l.product_id
]

abbrev pub new_fulfillment : Uuid → Env → SalesOrder → Fulfillment
new_fulfillment i env o = record {
  id = i;
  fulfillment_number = none;
  sales_order_id = o.id;
  warehouse_id = o.warehouse_id;
  shipped_on = env.today;
}

abbrev pub set_fulfillment_number : Uuid → DocumentNumber → Sales → Sales
set_fulfillment_number i number d = record d {
  fulfillments =
      update_where (λ f. i == f.id) (λ f. record f { fulfillment_number = some number })
        d.fulfillments;
}

-- `_post_fulfillment`
unfoldable pub post_fulfillment : Context → Env → Fulfillment → ℤ → Tx (Company Sales) Unit
unfolding post_event cogs_recognition
post_fulfillment c env f cost =
    if leb_ℤ cost (pos 0)
    then pure tt
    else post_event c env (record {
      entry_date = f.shipped_on;
      source_type = "fulfillment";
      source_id = f.id;
      event_type = "FULFILLMENT_COGS";
      lines = cogs_recognition cost;
    })

-- From the row of the fulfillment on.
unfoldable pub fulfil_requested :
    Context
    → Env
    → SalesOrder
    → List SalesOrderLine
    → List FulfillmentLineInput
    → Tx (Company Sales) Fulfillment
unfolding in_documents insert_fulfillment fulfil_lines post_fulfillment allocate audit
fulfil_requested c env o lines requested = do
  i ← new_id env
  let f = new_fulfillment i env o
  in_documents (insert_fulfillment f)
  cost ← fulfil_lines env f (sort_by (product_of lines) requested) (pos 0)
  after ← gets (λ d. order_lines_of o.id d.documents)
  in_documents (
      modify (
        set_order_status o.id (
          if all_of (λ l. leb_ℤ l.totals.quantity l.fulfilled_quantity) after
          then fulfilled
          else partially_fulfilled)))
  number ← allocate "fulfillment" (year_of env.today)
  in_documents (modify (set_fulfillment_number i number))
  post_fulfillment c env f cost
  audit "sales.fulfillment_posted" "fulfillment" (some i)
  pure (record f { fulfillment_number = some number })

unfoldable pub fulfil :
    Context → Env → Uuid → Option (List FulfillmentLineInput) → Tx (Company Sales) Fulfillment
unfolding require_branch requested_of fulfil_requested
fulfil c env i payload_lines = do
  found ← gets (λ d. order_row i d.documents)
  o ← or_raise found not_found
  require_branch c o.branch_id
  require_status (order_code o.status) (order_code confirmed ∷ order_code partially_fulfilled ∷ [])
  lines ← gets (λ d. order_lines_of o.id d.documents)
  requested ← requested_of lines payload_lines
  raise_if (is_empty requested) (conflict "NOTHING_TO_FULFIL")
  fulfil_requested c env o lines requested
