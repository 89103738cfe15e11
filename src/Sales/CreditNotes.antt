-- ===== src/Sales/CreditNotes.antt =====
-- The credit notes of `sales/service.py`: part of an issued invoice is taken back, in the books, in
-- the VAT register and, where goods return, in the stock.
use nexora_ai.Prelude.{
  String, Bool, true, ◌&&◌, not, Option, none, some, List, [], ◌∷◌, ◌++◌, ◌==◌, is_some,
  update_where, sort_by, if◌then◌else◌,
}
use nexora_ai.Prelude.Int.{ℤ, pos, ◌+ℤ◌, ◌-ℤ◌, ◌*ℤ◌, ltb_ℤ}
use nexora_ai.Decimal.{to_amount}
use nexora_ai.Session.{
  Uuid, Date, year_of, DocumentNumber, Context, Env, not_found, conflict, domain_validation, Tx,
  pure, raise_if, or_raise, gets, new_id, audit, require_branch, ◌>>=◌, ◌>>◌,
}
use nexora_ai.Numbering.{allocate}
use nexora_ai.Accounting.PostingRules.{PostingLine, sales_return}
use nexora_ai.Inventory.Model.{Product, sale_return}
use nexora_ai.Inventory.Movement.{post_movement}
use nexora_ai.Vat.Grouping.{RateLine, group_taxable_lines}
use nexora_ai.Company.{
  Company, in_documents, in_stock, get_product, require_warehouse, Event, post_event,
}
use nexora_ai.Sales.Model.{
  issued, partially_paid, paid, invoice_code, Invoice, InvoiceLine, CreditNote, CreditNoteLine,
  Sales, invoice_row, invoice_line_row, insert_row, insert_credit_note, is_priced,
}
use nexora_ai.Sales.Lines.{require_status, totals_for, Amounts, plus_line, no_amounts}
use nexora_ai.Sales.Invoices.{record_groups}

pub record CreditNoteLineInput : Type 0 where
  pub invoice_line_id : Uuid
  pub quantity : ℤ

pub record CreditNoteCreate : Type 0 where
  pub invoice_id : Uuid
  pub issue_date : Date
  pub reason : String
  pub restock : Bool
  pub warehouse_id : Option Uuid
  pub lines : List CreditNoteLineInput

-- The note's line, and the quantity of the invoice's line.
unfoldable pub write_credited : InvoiceLine → CreditNoteLine → Tx Sales Unit
write_credited line l =
    insert_row "credit_note_lines" (λ d. d.credit_note_lines)
      (λ xs d. record d {
        credit_note_lines = xs;
        invoice_lines =
            update_where (λ k. l.invoice_line_id == k.id)
              (λ k. record k { credited_quantity = line.credited_quantity +ℤ l.totals.quantity })
              d.invoice_lines;
      })
      (λ x y. x.id == y.id) (is_priced l.totals) l

abbrev pub new_credit_line : Uuid → Uuid → InvoiceLine → CreditNoteLineInput → CreditNoteLine
new_credit_line i note_id line item = record {
  id = i;
  credit_note_id = note_id;
  invoice_line_id = item.invoice_line_id;
  product_id = line.product_id;
  totals =
      totals_for item.quantity line.totals.unit_price line.totals.discount_rate
        line.totals.tax_rate;
}

-- What goes back to the stock, and its cost. The movement leaves the cost price alone, since it
-- carries none.
unfoldable pub put_back : Env → Uuid → Uuid → Product → ℤ → Tx (Company Sales) ℤ
unfolding in_stock
put_back env warehouse_id note_id p quantity =
    if p.is_stock_tracked
    then (do
      _ ← in_stock (
          post_movement env (record {
            warehouse_id = warehouse_id;
            item = p;
            movement_type = sale_return;
            quantity = quantity;
            unit_cost = none;
            reference_type = some "credit_note";
            reference_id = some note_id;
            idempotency_key = none;
          }))
      pure (quantity *ℤ p.cost_price))
    else pure (pos 0)

unfoldable pub restock_line :
    Env → Bool → Option Uuid → Uuid → InvoiceLine → ℤ → Tx (Company Sales) ℤ
unfolding get_product put_back
restock_line env restock none note_id line quantity = pure (pos 0)
restock_line env restock (some w) note_id line quantity =
    if restock
    then (do p ← get_product line.product_id; put_back env w note_id p quantity)
    else pure (pos 0)

-- What the loop has come to.
pub record Credited : Type 0 where
  pub amounts : Amounts
  pub cost : ℤ
  pub rate_lines : List RateLine

abbrev pub credited_after : Credited → InvoiceLine → CreditNoteLine → ℤ → Credited
credited_after x line l cost = record {
  amounts = plus_line x.amounts l.totals;
  cost = x.cost +ℤ cost;
  rate_lines =
      x.rate_lines
      ++ record {
        rate = line.totals.tax_rate;
        net = l.totals.net_amount;
        tax = l.totals.tax_amount;
      }
        ∷ [];
}

-- What follows the guards of a line.
unfoldable pub take_back :
    Env
    → CreditNoteCreate
    → Uuid
    → CreditNoteLineInput
    → InvoiceLine
    → Credited
    → Tx (Company Sales) Credited
unfolding in_documents write_credited restock_line totals_for plus_line
take_back env q note_id item line x = do
  i ← new_id env
  let l = new_credit_line i note_id line item
  in_documents (write_credited line l)
  cost ← restock_line env q.restock q.warehouse_id note_id line item.quantity
  pure (credited_after x line l cost)

-- One round of the loop, on the row that the line is.
unfoldable pub credit_line_of :
    Env
    → CreditNoteCreate
    → Uuid
    → CreditNoteLineInput
    → InvoiceLine
    → Credited
    → Tx (Company Sales) Credited
unfolding take_back
credit_line_of env q note_id item line x = do
  raise_if (ltb_ℤ (line.totals.quantity -ℤ line.credited_quantity) item.quantity)
      (conflict "OVER_CREDIT")
  take_back env q note_id item line x

unfoldable pub credit_lines :
    Env
    → CreditNoteCreate
    → Uuid
    → Uuid
    → List CreditNoteLineInput
    → Credited
    → Tx (Company Sales) Credited
unfolding credit_line_of
credit_lines env q invoice_id note_id [] x = pure x
credit_lines env q invoice_id note_id (item ∷ items) x = do
  found ← gets (λ d. invoice_line_row item.invoice_line_id d.documents)
  line ← or_raise found not_found
  raise_if (not (line.invoice_id == invoice_id)) not_found
  after ← credit_line_of env q note_id item line x
  credit_lines env q invoice_id note_id items after

abbrev pub new_note : Uuid → Invoice → CreditNoteCreate → Amounts → DocumentNumber → CreditNote
new_note i v q a number = record {
  id = i;
  credit_note_number = some number;
  invoice_id = v.id;
  customer_id = v.customer_id;
  branch_id = v.branch_id;
  issue_date = q.issue_date;
  reason = q.reason;
  restock = q.restock;
  warehouse_id = q.warehouse_id;
  net_amount = a.net;
  tax_amount = a.tax;
  total_amount = a.net +ℤ a.tax;
}

abbrev pub note_event : CreditNote → String → List PostingLine → Event
note_event n event_type lines = record {
  entry_date = n.issue_date;
  source_type = "credit_note";
  source_id = n.id;
  event_type = event_type;
  lines = lines;
}

unfoldable pub post_cost :
    Context → Env → CreditNote → Option (List PostingLine) → Tx (Company Sales) Unit
unfolding post_event
post_cost c env n none = pure tt
post_cost c env n (some lines) = post_event c env (note_event n "CREDIT_NOTE_COGS" lines)

-- `_post_credit_note`
unfoldable pub post_credit_note : Context → Env → CreditNote → ℤ → Tx (Company Sales) Unit
unfolding post_event post_cost sales_return to_amount
post_credit_note c env n cost = do
  let (revenue_lines, cost_lines) =
      sales_return (to_amount n.net_amount) (to_amount n.tax_amount) cost
  if ltb_ℤ (pos 0) (n.net_amount +ℤ n.tax_amount)
      then post_event c env (note_event n "CREDIT_NOTE_REVENUE" revenue_lines)
      else pure tt
  post_cost c env n cost_lines

-- From the note on, `i` its identifier. `_record_vat_for_credit_note` is its last step but the
-- audit event.
unfoldable pub credit_invoice :
    Context → Env → CreditNoteCreate → Invoice → Tx (Company Sales) CreditNote
unfolding in_documents credit_lines insert_credit_note post_credit_note record_groups
    group_taxable_lines allocate audit
credit_invoice c env q v = do
  i ← new_id env
  x ←
      credit_lines env q v.id i (sort_by (λ l. l.invoice_line_id) q.lines)
        (record { amounts = no_amounts; cost = pos 0; rate_lines = [] })
  number ← allocate "credit_note" (year_of env.today)
  let n = new_note i v q x.amounts number
  in_documents (insert_credit_note n)
  post_credit_note c env n x.cost
  record_groups env n.issue_date "credit_note" n.id true (group_taxable_lines x.rate_lines)
  audit "sales.credit_note_issued" "credit_note" (some i)
  pure n

-- `if payload.warehouse_id is not None: …`
unfoldable pub check_warehouse : Context → Uuid → Option Uuid → Tx (Company Sales) Unit
unfolding require_warehouse
check_warehouse c branch_id none = pure tt
check_warehouse c branch_id (some w) = require_warehouse c branch_id w

unfoldable pub issue_credit_note : Context → Env → CreditNoteCreate → Tx (Company Sales) CreditNote
unfolding require_branch check_warehouse credit_invoice
issue_credit_note c env q = do
  found ← gets (λ d. invoice_row q.invoice_id d.documents)
  v ← or_raise found not_found
  require_branch c v.branch_id
  require_status (invoice_code v.status)
      (invoice_code issued ∷ invoice_code partially_paid ∷ invoice_code paid ∷ [])
  raise_if (q.restock && not (is_some q.warehouse_id)) (domain_validation "WAREHOUSE_REQUIRED")
  check_warehouse c v.branch_id q.warehouse_id
  credit_invoice c env q v
