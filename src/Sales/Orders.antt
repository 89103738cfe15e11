-- ===== src/Sales/Orders.antt =====
-- The orders of `sales/service.py`, up to their confirmation or cancellation.
use nexora_ai.Prelude.{none, some, List, [], ◌∷◌, ◌==◌, any_of, update_where}
use nexora_ai.Prelude.Int.{pos, ◌+ℤ◌, ltb_ℤ}
use nexora_ai.Session.{
  Uuid, Date, year_of, DocumentNumber, Context, Env, not_found, conflict, domain_validation, Tx,
  pure, raise_if, or_raise, gets, modify, new_id, audit, require_branch, ◌>>=◌, ◌>>◌,
}
use nexora_ai.Numbering.{allocate}
use nexora_ai.Company.{Company, in_documents, get_product, require_warehouse}
use nexora_ai.Sales.Model.{
  SalesOrderStatus, draft, confirmed, partially_fulfilled, cancelled, order_code, SalesOrder, Sales,
  order_row, order_lines_of, insert_order, insert_order_line,
}
use nexora_ai.Sales.Lines.{
  require_status, LineInput, has_duplicate, totals_for, Amounts, plus_line, no_amounts,
}

pub record SalesOrderCreate : Type 0 where
  pub customer_id : Uuid
  pub branch_id : Uuid
  pub warehouse_id : Uuid
  pub order_date : Date
  pub lines : List LineInput

unfoldable pub add_order_lines : Env → Uuid → List LineInput → Amounts → Tx (Company Sales) Amounts
unfolding in_documents get_product insert_order_line totals_for plus_line
add_order_lines env order_id [] a = pure a
add_order_lines env order_id (item ∷ items) a = do
  _ ← get_product item.product_id
  let t = totals_for item.quantity item.unit_price item.discount_rate item.tax_rate
  i ← new_id env
  in_documents (
      insert_order_line (record {
        id = i;
        sales_order_id = order_id;
        product_id = item.product_id;
        totals = t;
        fulfilled_quantity = pos 0;
        invoiced_quantity = pos 0;
      }))
  add_order_lines env order_id items (plus_line a t)

abbrev pub new_order : Uuid → SalesOrderCreate → Amounts → DocumentNumber → SalesOrder
new_order i q a number = record {
  id = i;
  order_number = some number;
  customer_id = q.customer_id;
  branch_id = q.branch_id;
  warehouse_id = q.warehouse_id;
  quotation_id = none;
  status = draft;
  order_date = q.order_date;
  net_amount = a.net;
  tax_amount = a.tax;
  total_amount = a.net +ℤ a.tax;
}

unfoldable pub create_order : Context → Env → SalesOrderCreate → Tx (Company Sales) SalesOrder
unfolding require_warehouse in_documents add_order_lines insert_order allocate audit
create_order c env q = do
  require_warehouse c q.branch_id q.warehouse_id
  raise_if (has_duplicate q.lines) (domain_validation "DUPLICATE_LINE")
  i ← new_id env
  a ← add_order_lines env i q.lines no_amounts
  number ← allocate "sales_order" (year_of env.today)
  in_documents (insert_order (new_order i q a number))
  audit "sales.order_created" "sales_order" (some i)
  pure (new_order i q a number)

abbrev pub set_order_status : Uuid → SalesOrderStatus → Sales → Sales
set_order_status i status d = record d {
  orders = update_where (λ o. i == o.id) (λ o. record o { status = status }) d.orders;
}

unfoldable pub confirm_order : Context → Uuid → Tx (Company Sales) SalesOrder
unfolding require_branch in_documents audit
confirm_order c i = do
  found ← gets (λ d. order_row i d.documents)
  o ← or_raise found not_found
  require_branch c o.branch_id
  require_status (order_code o.status) (order_code draft ∷ [])
  in_documents (modify (set_order_status i confirmed))
  audit "sales.order_confirmed" "sales_order" (some i)
  pure (record o { status = confirmed })

unfoldable pub cancel_order : Context → Uuid → Tx (Company Sales) SalesOrder
unfolding require_branch in_documents audit
cancel_order c i = do
  found ← gets (λ d. order_row i d.documents)
  o ← or_raise found not_found
  require_branch c o.branch_id
  require_status (order_code o.status)
      (order_code draft ∷ order_code confirmed ∷ order_code partially_fulfilled ∷ [])
  lines ← gets (λ d. order_lines_of i d.documents)
  raise_if (any_of (λ l. ltb_ℤ (pos 0) l.fulfilled_quantity) lines)
      (conflict "ORDER_PARTIALLY_FULFILLED")
  in_documents (modify (set_order_status i cancelled))
  audit "sales.order_cancelled" "sales_order" (some i)
  pure (record o { status = cancelled })
