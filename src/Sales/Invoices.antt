-- ===== src/Sales/Invoices.antt =====
-- The invoices of `sales/service.py`: drawn up of an order, and issued with their journal entry and
-- their rows of the VAT register.
use nexora_ai.Prelude.{
  String, Bool, true, false, not, Option, none, some, List, [], ◌∷◌, ◌==◌, map, update_where,
  if◌then◌else◌,
}
use nexora_ai.Prelude.Int.{ℤ, pos, ◌+ℤ◌, ◌-ℤ◌, leb_ℤ}
use nexora_ai.Decimal.{to_amount}
use nexora_ai.Session.{
  Uuid, Date, year_of, DocumentNumber, Context, Env, not_found, conflict, Tx, pure, raise_if,
  or_raise, gets, modify, new_id, audit, require_branch, ◌>>=◌, ◌>>◌,
}
use nexora_ai.Numbering.{allocate}
use nexora_ai.Accounting.PostingRules.{credit_sale}
use nexora_ai.Vat.Model.{output}
use nexora_ai.Vat.Grouping.{RateLine, group_taxable_lines}
use nexora_ai.Vat.Register.{Taxed, record_taxed}
use nexora_ai.Idempotency.{Keyed, claim, complete, inside}
use nexora_ai.Company.{Company, in_documents, in_register, post_event}
use nexora_ai.Sales.Model.{
  draft, confirmed, partially_fulfilled, fulfilled, issued, order_code, invoice_code, SalesOrder,
  SalesOrderLine, Invoice, InvoiceLine, Sales, order_row, order_lines_of, order_line_row,
  invoice_row, invoice_lines_of, insert_row, insert_invoice, is_priced,
}
use nexora_ai.Sales.Lines.{require_status, totals_for, Amounts, plus_line, no_amounts}

pub record InvoiceCreate : Type 0 where
  pub sales_order_id : Uuid
  pub issue_date : Date
  pub due_date : Option Date
  pub invoice_fulfilled_only : Bool

-- The invoice's line, and the quantity of the order's line.
unfoldable pub write_invoiced : SalesOrderLine → InvoiceLine → Tx Sales Unit
write_invoiced line l =
    insert_row "invoice_lines" (λ d. d.invoice_lines)
      (λ xs d. record d {
        invoice_lines = xs;
        order_lines =
            update_where (λ k. line.id == k.id)
              (λ k. record k { invoiced_quantity = line.invoiced_quantity +ℤ l.totals.quantity })
              d.order_lines;
      })
      (λ x y. x.id == y.id) (is_priced l.totals) l

abbrev pub new_invoice_line : Uuid → Uuid → SalesOrderLine → ℤ → InvoiceLine
new_invoice_line i invoice_id line quantity = record {
  id = i;
  invoice_id = invoice_id;
  product_id = line.product_id;
  sales_order_line_id = some line.id;
  totals =
      totals_for quantity line.totals.unit_price line.totals.discount_rate line.totals.tax_rate;
  credited_quantity = pos 0;
}

abbrev pub billable : Bool → SalesOrderLine → ℤ
billable fulfilled_only line =
    (if fulfilled_only then line.fulfilled_quantity else line.totals.quantity)
    -ℤ line.invoiced_quantity

-- What the loop has come to: `billed_any`, and the amounts.
pub record Billed : Type 0 where
  pub billed_any : Bool
  pub amounts : Amounts

unfoldable pub bill : Env → Uuid → Bool → SalesOrderLine → Billed → Tx (Company Sales) Billed
unfolding in_documents write_invoiced totals_for plus_line
bill env invoice_id fulfilled_only line b = do
  i ← new_id env
  let l = new_invoice_line i invoice_id line (billable fulfilled_only line)
  in_documents (write_invoiced line l)
  pure (record { billed_any = true; amounts = plus_line b.amounts l.totals })

-- One round of the loop, on the row that the line is.
unfoldable pub bill_line : Env → Uuid → Bool → SalesOrderLine → Billed → Tx (Company Sales) Billed
unfolding bill
bill_line env invoice_id fulfilled_only line b =
    if leb_ℤ (billable fulfilled_only line) (pos 0)
    then pure b
    else bill env invoice_id fulfilled_only line b

unfoldable pub bill_lines :
    Env → Uuid → Bool → List SalesOrderLine → Billed → Tx (Company Sales) Billed
unfolding bill_line
bill_lines env invoice_id fulfilled_only [] b = pure b
bill_lines env invoice_id fulfilled_only (l ∷ ls) b = do
  found ← gets (λ d. order_line_row l.id d.documents)
  line ← or_raise found not_found
  after ← bill_line env invoice_id fulfilled_only line b
  bill_lines env invoice_id fulfilled_only ls after

abbrev pub new_invoice : Uuid → SalesOrder → InvoiceCreate → Amounts → Invoice
new_invoice i o q a = record {
  id = i;
  invoice_number = none;
  customer_id = o.customer_id;
  branch_id = o.branch_id;
  sales_order_id = some o.id;
  status = draft;
  issue_date = q.issue_date;
  due_date = q.due_date;
  net_amount = a.net;
  tax_amount = a.tax;
  total_amount = a.net +ℤ a.tax;
  paid_amount = pos 0;
}

unfoldable pub create_invoice : Context → Env → InvoiceCreate → Tx (Company Sales) Invoice
unfolding require_branch in_documents bill_lines insert_invoice audit
create_invoice c env q = do
  found ← gets (λ d. order_row q.sales_order_id d.documents)
  o ← or_raise found not_found
  require_branch c o.branch_id
  require_status (order_code o.status)
      (order_code confirmed ∷ order_code partially_fulfilled ∷ order_code fulfilled ∷ [])
  lines ← gets (λ d. order_lines_of o.id d.documents)
  i ← new_id env
  b ←
      bill_lines env i q.invoice_fulfilled_only lines
        (record { billed_any = false; amounts = no_amounts })
  raise_if (not b.billed_any) (conflict "NOTHING_TO_INVOICE")
  in_documents (insert_invoice (new_invoice i o q b.amounts))
  audit "sales.invoice_created" "invoice" (some i)
  pure (new_invoice i o q b.amounts)

-- `_post_invoice`
unfoldable pub post_invoice : Context → Env → Invoice → Tx (Company Sales) Unit
unfolding post_event credit_sale to_amount
post_invoice c env v =
    if leb_ℤ (v.net_amount +ℤ v.tax_amount) (pos 0)
    then pure tt
    else post_event c env (record {
      entry_date = v.issue_date;
      source_type = "invoice";
      source_id = v.id;
      event_type = "INVOICE_ISSUED";
      lines = credit_sale (to_amount v.net_amount) (to_amount v.tax_amount);
    })

abbrev pub taxed_group : Date → String → Uuid → Bool → RateLine → Taxed
taxed_group occurred_on source_type source_id is_reversal g = record {
  direction = output;
  occurred_on = occurred_on;
  source_type = source_type;
  source_id = source_id;
  taxable_amount = to_amount g.net;
  vat_amount = to_amount g.tax;
  rate = g.rate;
  rate_code = none;
  is_reversal = is_reversal;
}

-- A row of the register for each rate of the groups: a document's own, or one that reverses.
unfoldable pub record_groups :
    Env → Date → String → Uuid → Bool → List RateLine → Tx (Company Sales) Unit
unfolding in_register record_taxed to_amount
record_groups env occurred_on source_type source_id is_reversal [] = pure tt
record_groups env occurred_on source_type source_id is_reversal (g ∷ gs) = do
  _ ← in_register (record_taxed env (taxed_group occurred_on source_type source_id is_reversal g))
  record_groups env occurred_on source_type source_id is_reversal gs

abbrev pub rate_line : InvoiceLine → RateLine
rate_line l = record {
  rate = l.totals.tax_rate;
  net = l.totals.net_amount;
  tax = l.totals.tax_amount;
}

-- `_record_vat_for_invoice`
unfoldable pub record_vat_for_invoice : Env → Invoice → Tx (Company Sales) Unit
unfolding record_groups group_taxable_lines
record_vat_for_invoice env v = do
  lines ← gets (λ d. invoice_lines_of v.id d.documents)
  record_groups env v.issue_date "invoice" v.id false (group_taxable_lines (map rate_line lines))

abbrev pub issued_invoice : DocumentNumber → Invoice → Invoice
issued_invoice number v = record v { status = issued; invoice_number = some number }

abbrev pub set_issued : Uuid → DocumentNumber → Sales → Sales
set_issued i number d = record d {
  invoices = update_where (λ v. i == v.id) (issued_invoice number) d.invoices;
}

-- What an invoice that is a draft goes through.
unfoldable pub issue_draft : Context → Env → Uuid → Invoice → Tx (Company Sales) Invoice
unfolding in_documents post_invoice record_vat_for_invoice allocate audit
issue_draft c env i v = do
  number ← allocate "invoice" (year_of env.today)
  in_documents (modify (set_issued i number))
  post_invoice c env (issued_invoice number v)
  record_vat_for_invoice env (issued_invoice number v)
  audit "sales.invoice_issued" "invoice" (some i)
  pure (issued_invoice number v)

-- What `issue_invoice` does under a key that is won.
unfoldable pub issue : Context → Env → Uuid → Tx (Company Sales) Invoice
unfolding require_branch issue_draft
issue c env i = do
  found ← gets (λ d. invoice_row i d.documents)
  v ← or_raise found not_found
  require_branch c v.branch_id
  require_status (invoice_code v.status) (invoice_code draft ∷ [])
  issue_draft c env i v

abbrev pub issue_path : String
issue_path = "POST /invoices/{id}/issue"

-- `hash` stands for the hash of the body `{"invoice_id": …}`.
module _ (hash : Uuid → String) where
  unfoldable pub issue_and_complete :
      Context → Env → Uuid → String → Tx (Keyed Uuid (Company Sales)) (Invoice × Bool)
  unfolding issue complete
  issue_and_complete c env i key = do
    v ← inside (issue c env i)
    complete issue_path key 200 v.id
    pure (v, false)

  -- The stored answer's invoice, if it stands.
  unfoldable pub replay_issue :
      Context
      → Env
      → Uuid
      → String
      → Option Invoice
      → Tx (Keyed Uuid (Company Sales)) (Invoice × Bool)
  unfolding require_branch issue_and_complete
  replay_issue c env i key none = issue_and_complete c env i key
  replay_issue c env i key (some v) = do require_branch c v.branch_id; pure (v, true)

  unfoldable pub answer_issue :
      Context → Env → Uuid → String → Option Uuid → Tx (Keyed Uuid (Company Sales)) (Invoice × Bool)
  unfolding replay_issue issue_and_complete
  answer_issue c env i key none = issue_and_complete c env i key
  answer_issue c env i key (some j) = do
    existing ← gets (λ k. invoice_row j k.work.documents)
    replay_issue c env i key existing

  unfoldable pub issue_invoice :
      Context → Env → Uuid → String → Tx (Keyed Uuid (Company Sales)) (Invoice × Bool)
  unfolding claim answer_issue
  issue_invoice c env i key = do
    r ← claim issue_path key (hash i)
    answer_issue c env i key (if r.won then none else r.stored_response)
