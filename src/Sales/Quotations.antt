-- ===== src/Sales/Quotations.antt =====
-- The quotations of `sales/service.py`.
use nexora_ai.Prelude.{ℕ, is_some, Option, none, some, List, [], ◌∷◌, ◌==◌, update_where}
use nexora_ai.Prelude.Int.{pos, ◌+ℤ◌, leb_ℤ}
use nexora_ai.Session.{
  Uuid, Date, year_of, DocumentNumber, Context, Env, not_found, conflict, domain_validation, Tx,
  pure, raise_if, or_raise, gets, modify, new_id, audit, require_branch, ◌>>=◌, ◌>>◌,
}
use nexora_ai.Numbering.{allocate}
use nexora_ai.Company.{Company, in_documents, get_product, require_warehouse}
use nexora_ai.Sales.Model.{
  QuotationStatus, draft, sent, accepted, rejected, expired, quotation_code, Quotation,
  QuotationLine, SalesOrder, Sales, quotation_row, quotation_lines_of, insert_row, insert_quotation,
  insert_quotation_line, insert_order_line,
}
use nexora_ai.Sales.Lines.{
  require_status, LineInput, has_duplicate, totals_for, Amounts, plus_line, no_amounts,
}

pub record QuotationCreate : Type 0 where
  pub customer_id : Uuid
  pub branch_id : Uuid
  pub issue_date : Date
  pub valid_until : Option Date
  pub lines : List LineInput

-- The loop over the lines: each line's row, and what they come to.
unfoldable pub add_quotation_lines :
    Env → Uuid → List LineInput → Amounts → Tx (Company Sales) Amounts
unfolding in_documents get_product insert_quotation_line totals_for plus_line
add_quotation_lines env quotation_id [] a = pure a
add_quotation_lines env quotation_id (item ∷ items) a = do
  _ ← get_product item.product_id
  let t = totals_for item.quantity item.unit_price item.discount_rate item.tax_rate
  i ← new_id env
  in_documents (
      insert_quotation_line
        (record { id = i; quotation_id = quotation_id; product_id = item.product_id; totals = t }))
  add_quotation_lines env quotation_id items (plus_line a t)

abbrev pub new_quotation : Uuid → QuotationCreate → Amounts → DocumentNumber → Quotation
new_quotation i q a number = record {
  id = i;
  quotation_number = some number;
  customer_id = q.customer_id;
  branch_id = q.branch_id;
  status = draft;
  issue_date = q.issue_date;
  valid_until = q.valid_until;
  net_amount = a.net;
  tax_amount = a.tax;
  total_amount = a.net +ℤ a.tax;
  converted_order_id = none;
}

-- `create_quotation`; the row is written with the number that it has at the commit.
unfoldable pub create_quotation : Context → Env → QuotationCreate → Tx (Company Sales) Quotation
unfolding require_branch in_documents add_quotation_lines insert_quotation allocate audit
create_quotation c env q = do
  require_branch c q.branch_id
  raise_if (has_duplicate q.lines) (domain_validation "DUPLICATE_LINE")
  i ← new_id env
  a ← add_quotation_lines env i q.lines no_amounts
  number ← allocate "quotation" (year_of env.today)
  in_documents (insert_quotation (new_quotation i q a number))
  audit "sales.quotation_created" "quotation" (some i)
  pure (new_quotation i q a number)

-- The table `legal` of `set_quotation_status`; a status that it does not have is never asked for.
abbrev pub legal : QuotationStatus → List ℕ
legal sent = quotation_code draft ∷ []
legal accepted = quotation_code sent ∷ []
legal rejected = quotation_code sent ∷ []
legal expired = quotation_code draft ∷ quotation_code sent ∷ []
legal draft = []

abbrev pub set_status : Uuid → QuotationStatus → Sales → Sales
set_status i status d = record d {
  quotations = update_where (λ q. i == q.id) (λ q. record q { status = status }) d.quotations;
}

unfoldable pub set_quotation_status :
    Context → Uuid → QuotationStatus → Tx (Company Sales) Quotation
unfolding require_branch in_documents audit
set_quotation_status c i status = do
  found ← gets (λ d. quotation_row i d.documents)
  q ← or_raise found not_found
  require_branch c q.branch_id
  require_status (quotation_code q.status) (legal status)
  in_documents (modify (set_status i status))
  audit "sales.quotation_accepted" "quotation" (some i)
  pure (record q { status = status })

pub record QuotationConvert : Type 0 where
  pub warehouse_id : Uuid
  pub order_date : Date

-- The lines of the order, copied.
unfoldable pub copy_lines : Env → Uuid → List QuotationLine → Tx (Company Sales) Unit
unfolding in_documents insert_order_line
copy_lines env order_id [] = pure tt
copy_lines env order_id (l ∷ ls) = do
  i ← new_id env
  in_documents (
      insert_order_line (record {
        id = i;
        sales_order_id = order_id;
        product_id = l.product_id;
        totals = l.totals;
        fulfilled_quantity = pos 0;
        invoiced_quantity = pos 0;
      }))
  copy_lines env order_id ls

abbrev pub order_of_quotation : Uuid → Quotation → QuotationConvert → DocumentNumber → SalesOrder
order_of_quotation i q p number = record {
  id = i;
  order_number = some number;
  customer_id = q.customer_id;
  branch_id = q.branch_id;
  warehouse_id = p.warehouse_id;
  quotation_id = some q.id;
  status = draft;
  order_date = p.order_date;
  net_amount = q.net_amount;
  tax_amount = q.tax_amount;
  total_amount = q.total_amount;
}

-- The order, and the quotation's `converted_order_id`.
unfoldable pub write_conversion : Uuid → SalesOrder → Tx Sales Unit
write_conversion i o =
    insert_row "sales_orders" (λ d. d.orders)
      (λ xs d. record d {
        orders = xs;
        quotations =
            update_where (λ q. i == q.id) (λ q. record q { converted_order_id = some o.id })
              d.quotations;
      })
      (λ x y. x.id == y.id) (leb_ℤ (pos 0) o.total_amount) o

-- What follows the guards of `convert_quotation`.
unfoldable pub convert : Env → Quotation → QuotationConvert → Tx (Company Sales) SalesOrder
unfolding in_documents copy_lines write_conversion allocate audit
convert env q p = do
  lines ← gets (λ d. quotation_lines_of q.id d.documents)
  i ← new_id env
  copy_lines env i lines
  number ← allocate "sales_order" (year_of env.today)
  in_documents (write_conversion q.id (order_of_quotation i q p number))
  audit "sales.quotation_converted" "quotation" (some q.id)
  pure (order_of_quotation i q p number)

unfoldable pub convert_quotation :
    Context → Env → Uuid → QuotationConvert → Tx (Company Sales) SalesOrder
unfolding require_branch require_warehouse convert
convert_quotation c env i p = do
  found ← gets (λ d. quotation_row i d.documents)
  q ← or_raise found not_found
  require_branch c q.branch_id
  require_warehouse c q.branch_id p.warehouse_id
  require_status (quotation_code q.status) (quotation_code accepted ∷ [])
  raise_if (is_some q.converted_order_id) (conflict "ALREADY_CONVERTED")
  convert env q p
