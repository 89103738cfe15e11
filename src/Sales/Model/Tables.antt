-- ===== src/Sales/Model/Tables.antt =====
-- The queries of `sales/repository.py`, and the constraints that the database puts on an insert.
use nexora_ai.Prelude.{
  String, Bool, true, false, ◌&&◌, ◌||◌, not, Option, none, some, List, [], ◌∷◌, ◌++◌, ◌==◌, any_of,
  first, select_where, sort_by,
}
use nexora_ai.Prelude.Int.{pos, ltb_ℤ, leb_ℤ}
use nexora_ai.Session.{Uuid, integrity_error, Tx, raise_if, gets, modify, ◌>>=◌, ◌>>◌}
use nexora_ai.Sales.Model.Rows.{
  CreditNote, Fulfillment, Invoice, InvoiceLine, LineTotals, Payment, PaymentAllocation, Quotation,
  QuotationLine, Sales, SalesOrder, SalesOrderLine,
}

abbrev pub refers_to : Uuid → Option Uuid → Bool
refers_to i none = false
refers_to i (some j) = i == j

abbrev pub quotation_row : Uuid → Sales → Option Quotation
quotation_row i d = first (λ q. i == q.id) d.quotations

abbrev pub quotation_lines_of : Uuid → Sales → List QuotationLine
quotation_lines_of i d =
    sort_by (λ l. l.product_id) (select_where (λ l. i == l.quotation_id) d.quotation_lines)

abbrev pub order_row : Uuid → Sales → Option SalesOrder
order_row i d = first (λ o. i == o.id) d.orders

abbrev pub order_lines_of : Uuid → Sales → List SalesOrderLine
order_lines_of i d =
    sort_by (λ l. l.product_id) (select_where (λ l. i == l.sales_order_id) d.order_lines)

abbrev pub order_line_row : Uuid → Sales → Option SalesOrderLine
order_line_row i d = first (λ l. i == l.id) d.order_lines

abbrev pub invoice_row : Uuid → Sales → Option Invoice
invoice_row i d = first (λ v. i == v.id) d.invoices

abbrev pub invoice_lines_of : Uuid → Sales → List InvoiceLine
invoice_lines_of i d =
    sort_by (λ l. l.product_id) (select_where (λ l. i == l.invoice_id) d.invoice_lines)

abbrev pub invoice_line_row : Uuid → Sales → Option InvoiceLine
invoice_line_row i d = first (λ l. i == l.id) d.invoice_lines

abbrev pub payment_row : Uuid → Sales → Option Payment
payment_row i d = first (λ p. i == p.id) d.payments

abbrev pub allocations_of : Uuid → Sales → List PaymentAllocation
allocations_of i d = select_where (λ a. i == a.payment_id) d.allocations

-- The checks `quantity_positive` and `unit_price_nonnegative`.
abbrev pub is_priced : LineTotals → Bool
is_priced t = ltb_ℤ (pos 0) t.quantity && leb_ℤ (pos 0) t.unit_price

-- An insert: the constraints that the row meets by itself, and the keys that it must not share.
unfoldable pub insert_row :
    {D A : Type 0}
    → String
    → (D → List A)
    → (List A → D → D)
    → (A → A → Bool)
    → Bool
    → A
    → Tx D Unit
insert_row name get set clashes is_fit a = do
  taken ← gets (λ d. any_of (clashes a) (get d))
  raise_if (not is_fit || taken) (integrity_error name)
  modify (λ d. set (get d ++ a ∷ []) d)

unfoldable pub insert_quotation : Quotation → Tx Sales Unit
insert_quotation q =
    insert_row "quotations" (λ d. d.quotations) (λ xs d. record d { quotations = xs })
      (λ x y. x.id == y.id) (leb_ℤ (pos 0) q.total_amount) q

unfoldable pub insert_quotation_line : QuotationLine → Tx Sales Unit
insert_quotation_line l =
    insert_row "quotation_lines" (λ d. d.quotation_lines)
      (λ xs d. record d { quotation_lines = xs }) (λ x y. x.id == y.id) (is_priced l.totals) l

unfoldable pub insert_order : SalesOrder → Tx Sales Unit
insert_order o =
    insert_row "sales_orders" (λ d. d.orders) (λ xs d. record d { orders = xs })
      (λ x y. x.id == y.id) (leb_ℤ (pos 0) o.total_amount) o

unfoldable pub insert_order_line : SalesOrderLine → Tx Sales Unit
insert_order_line l =
    insert_row "sales_order_lines" (λ d. d.order_lines) (λ xs d. record d { order_lines = xs })
      (λ x y. x.id == y.id || x.sales_order_id == y.sales_order_id && x.product_id == y.product_id)
      (is_priced l.totals) l

unfoldable pub insert_fulfillment : Fulfillment → Tx Sales Unit
insert_fulfillment f =
    insert_row "fulfillments" (λ d. d.fulfillments) (λ xs d. record d { fulfillments = xs })
      (λ x y. x.id == y.id) true f

unfoldable pub insert_invoice : Invoice → Tx Sales Unit
insert_invoice v =
    insert_row "invoices" (λ d. d.invoices) (λ xs d. record d { invoices = xs })
      (λ x y. x.id == y.id) (leb_ℤ (pos 0) v.total_amount) v

-- `amount_positive` and `allocated_within_amount`.
unfoldable pub insert_payment : Payment → Tx Sales Unit
insert_payment p =
    insert_row "payments" (λ d. d.payments) (λ xs d. record d { payments = xs })
      (λ x y. x.id == y.id)
      (ltb_ℤ (pos 0) p.amount
        && leb_ℤ (pos 0) p.allocated_amount
        && leb_ℤ p.allocated_amount p.amount)
      p

unfoldable pub insert_credit_note : CreditNote → Tx Sales Unit
insert_credit_note n =
    insert_row "credit_notes" (λ d. d.credit_notes) (λ xs d. record d { credit_notes = xs })
      (λ x y. x.id == y.id) (leb_ℤ (pos 0) n.total_amount) n
