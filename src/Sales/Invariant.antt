-- ===== src/Sales/Invariant.antt =====
-- What holds of the documents between any two requests: the counters of the lines and of the
-- invoices are the sums of the rows that they count, within their limits.
pub mod Counters
pub mod Writes
use nexora_ai.Prelude.{
  ℕ, ◌≡◌, refl, Bool, true, false, ◌&&◌, ◌||◌, not, Option, none, some, List, [], ◌∷◌, ◌++◌, ◌==◌,
  arith, All, any_of, is_some, if◌then◌else◌, String, All-append,
}
use nexora_ai.Prelude.Int.{ℤ, pos, ltb_ℤ, leb_ℤ}
use nexora_ai.Prelude.Tally.{Tallied, Tallied-insert, Tallied-update, Tallied-unrelated}
use nexora_ai.Session.{Failure, Session, Tx, raise_if, modify, integrity_error, gets, ◌>>=◌, ◌>>◌}
use nexora_ai.Session.Keeps.{Keeps, Ensures, Keeps-modify, keeps_rules}
use nexora_ai.Session.Takes.{Takes, Takes-Keeps}
use nexora_ai.Sales.Model.{
  CreditNoteLine, FulfillmentLine, Invoice, InvoiceLine, InvoiceStatus, PaymentAllocation,
  Quotation, Sales, SalesOrder, SalesOrderLine, cancelled, draft, fulfilled, insert_row, issued,
  paid, partially_paid, refers_to,
}

abbrev pub quotation_id : Quotation → ℕ
quotation_id q = q.id

abbrev pub order_line_id : SalesOrderLine → ℕ
order_line_id l = l.id

abbrev pub invoice_id : Invoice → ℕ
invoice_id v = v.id

abbrev pub invoice_line_id : InvoiceLine → ℕ
invoice_line_id l = l.id

-- Whether a quotation is converted, as the number of its orders.
abbrev pub conversions : Quotation → ℤ
conversions q = pos (if is_some q.converted_order_id then 1 else 0)

-- A status with the paid amount, the total and the number that belong to it.
abbrev pub StatedAs : InvoiceStatus → Invoice → Type 0
StatedAs draft v = (v.paid_amount ≡ pos 0) × (is_some v.invoice_number ≡ false)
StatedAs issued v = (v.paid_amount ≡ pos 0) × (is_some v.invoice_number ≡ true)
StatedAs partially_paid v =
    (ltb_ℤ (pos 0) v.paid_amount && ltb_ℤ v.paid_amount v.total_amount ≡ true)
    × (is_some v.invoice_number ≡ true)
StatedAs paid v = (v.paid_amount ≡ v.total_amount) × (is_some v.invoice_number ≡ true)
StatedAs cancelled v = ⊥

abbrev pub IsStated : Invoice → Type 0
IsStated v = StatedAs v.status v

-- A quotation counts its orders, at most one; an order's line what is fulfilled and what is
-- invoiced, at most its quantity; an invoice's line what is credited; an invoice what is paid.
pub record AreSales (quotations : List Quotation) (orders : List SalesOrder)
    (order_lines : List SalesOrderLine) (fulfillment_lines : List FulfillmentLine)
    (invoices : List Invoice) (invoice_lines : List InvoiceLine)
    (credit_note_lines : List CreditNoteLine) (allocations : List PaymentAllocation) : Type 0 where
  pub converted :
      Tallied quotation_id
        (λ i o. refers_to i o.quotation_id)
        conversions
        (λ q. pos 1)
        (λ o. pos 1)
        quotations
        orders
  pub fulfilled :
      Tallied order_line_id
        (λ i f. i == f.sales_order_line_id)
        (λ l. l.fulfilled_quantity)
        (λ l. l.totals.quantity)
        (λ f. f.quantity)
        order_lines
        fulfillment_lines
  pub invoiced :
      Tallied order_line_id
        (λ i l. refers_to i l.sales_order_line_id)
        (λ l. l.invoiced_quantity)
        (λ l. l.totals.quantity)
        (λ l. l.totals.quantity)
        order_lines
        invoice_lines
  pub credited :
      Tallied invoice_line_id
        (λ i l. i == l.invoice_line_id)
        (λ l. l.credited_quantity)
        (λ l. l.totals.quantity)
        (λ l. l.totals.quantity)
        invoice_lines
        credit_note_lines
  pub paid :
      Tallied invoice_id
        (λ i a. refers_to i a.invoice_id)
        (λ v. v.paid_amount)
        (λ v. v.total_amount)
        (λ a. a.amount)
        invoices
        allocations
  pub stated : All IsStated invoices

abbrev pub IsSales : Sales → Type 0
IsSales d =
    AreSales d.quotations d.orders d.order_lines d.fulfillment_lines d.invoices d.invoice_lines
      d.credit_note_lines d.allocations

-- What an insert is let through with.
pub Takes-insert :
    {D A : Type 0} (P Q : D → Type 0) (name : String) (get : D → List A) (set : List A → D → D)
    (clashes : A → A → Bool) (is_fit : Bool) (a : A)
    → ((d : D)
        → P d
        → is_fit ≡ true
        → any_of (clashes a) (get d) ≡ false
        → Q (set (get d ++ a ∷ []) d))
    → Takes P Q (insert_row name get set clashes is_fit a)
unfolding insert_row
Takes-insert {D} P Q name get set clashes is_fit a k = record {
  at = λ s h. go s is_fit (any_of (clashes a) (get s.rows)) (k s.rows h);
}
  where
    go :
        (s : Session D) (fit taken : Bool)
        → (fit ≡ true → taken ≡ false → Q (set (get s.rows ++ a ∷ []) s.rows))
        → Ensures Q (
            (raise_if (not fit || taken) (integrity_error name)
                >> modify (λ d. set (get d ++ a ∷ []) d))
              s)
    go s true true k = tt
    go s true false k = k refl refl
    go s false taken k = tt
