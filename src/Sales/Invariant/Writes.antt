-- ===== src/Sales/Invariant/Writes.antt =====
-- Each write of the documents keeps what holds of them.
use nexora_ai.Prelude.{
  ◌≡◌, refl, true, false, none, some, [], ◌∷◌, ◌++◌, ◌==◌, arith, any_of, All-append,
}
use nexora_ai.Prelude.Int.{ℤ, pos, ltb_ℤ, ◌≤ℤ◌}
use nexora_ai.Prelude.Rows.{any_of-left}
use nexora_ai.Prelude.Tally.{Tallied-insert, Tallied-unrelated}
use nexora_ai.Session.{Uuid}
use nexora_ai.Session.Keeps.{Keeps}
use nexora_ai.Session.Takes.{Takes-Keeps}
use nexora_ai.Sales.Invariant.{IsSales, IsStated, Takes-insert}
use nexora_ai.Sales.Model.{
  CreditNote, Fulfillment, Invoice, LineTotals, Payment, Quotation, QuotationLine, Sales,
  SalesOrder, SalesOrderLine, draft, insert_credit_note, insert_fulfillment, insert_invoice,
  insert_order, insert_order_line, insert_payment, insert_quotation, insert_quotation_line,
  is_priced, quotation_row,
}

ltb_ℤ→le : (a b : ℤ) → ltb_ℤ a b ≡ true → a ≤ℤ b
ltb_ℤ→le a b h = ground arith

abbrev pub fresh_line : Uuid → Uuid → Uuid → LineTotals → SalesOrderLine
fresh_line i o p t = record {
  id = i;
  sales_order_id = o;
  product_id = p;
  totals = t;
  fulfilled_quantity = pos 0;
  invoiced_quantity = pos 0;
}

-- An order's line of which nothing is fulfilled or invoiced.
with_line-IsSales :
    (i o p : Uuid) (t : LineTotals) (d : Sales)
    → IsSales d
    → is_priced t ≡ true
    → any_of (λ m. i == m.id) d.order_lines ≡ false
    → IsSales (record d { order_lines = d.order_lines ++ fresh_line i o p t ∷ [] })
with_line-IsSales i o p t d h fit new =
    let low : pos 0 ≤ℤ t.quantity = ground arith in
    let l = fresh_line i o p t in
    record {
      converted = h.converted;
      fulfilled =
          Tallied-insert _ _ _ _ _ l d.order_lines d.fulfillment_lines new refl low h.fulfilled;
      invoiced = Tallied-insert _ _ _ _ _ l d.order_lines d.invoice_lines new refl low h.invoiced;
      credited = h.credited;
      paid = h.paid;
      stated = h.stated;
    }

pub insert_order_line-IsSales :
    (i o p : Uuid) (t : LineTotals) → Keeps IsSales (insert_order_line (fresh_line i o p t))
unfolding insert_order_line
insert_order_line-IsSales i o p t = Takes-Keeps _ (
    Takes-insert IsSales IsSales _ _ _ _ _ _ λ d h fit free.
      with_line-IsSales i o p t d h fit (any_of-left (λ m. i == m.id) _ d.order_lines free))

-- The same, beside a quotation that stays what it is.
pub insert_order_line_beside :
    (i o p : Uuid) (t : LineTotals) (j : Uuid) (q : Quotation)
    → Keeps (λ d. IsSales d × (quotation_row j d ≡ some q)) (insert_order_line (fresh_line i o p t))
unfolding insert_order_line
insert_order_line_beside i o p t j q = Takes-Keeps _ (
    Takes-insert _ _ _ _ _ _ _ _ λ d h fit free. (
      with_line-IsSales i o p t d h.0 fit (any_of-left (λ m. i == m.id) _ d.order_lines free),
      h.1,
    ))

-- A quotation that is not converted.
pub insert_quotation-IsSales :
    (q : Quotation) → q.converted_order_id ≡ none → Keeps IsSales (insert_quotation q)
unfolding insert_quotation
insert_quotation-IsSales q n = Takes-Keeps _ (
    Takes-insert IsSales IsSales _ _ _ _ _ _ λ d h fit free. record {
      converted =
          Tallied-insert _ _ _ _ _ q d.quotations d.orders free (rw n refl) (omega arith)
            h.converted;
      fulfilled = h.fulfilled;
      invoiced = h.invoiced;
      credited = h.credited;
      paid = h.paid;
      stated = h.stated;
    })

-- An order that no quotation has become.
pub insert_order-IsSales : (o : SalesOrder) → o.quotation_id ≡ none → Keeps IsSales (insert_order o)
unfolding insert_order
insert_order-IsSales o n = Takes-Keeps _ (
    Takes-insert IsSales IsSales _ _ _ _ _ _ λ d h fit free. record {
      converted = Tallied-unrelated _ _ _ _ _ o d.quotations d.orders (λ i. rw n refl) h.converted;
      fulfilled = h.fulfilled;
      invoiced = h.invoiced;
      credited = h.credited;
      paid = h.paid;
      stated = h.stated;
    })

-- An invoice that is a draft.
pub insert_invoice-IsSales :
    (v : Invoice)
    → v.status ≡ draft
    → v.paid_amount ≡ pos 0
    → v.invoice_number ≡ none
    → Keeps IsSales (insert_invoice v)
unfolding insert_invoice
insert_invoice-IsSales v s p n = Takes-Keeps _ (
    Takes-insert IsSales IsSales _ _ _ _ _ _ λ d h fit free. record {
      converted = h.converted;
      fulfilled = h.fulfilled;
      invoiced = h.invoiced;
      credited = h.credited;
      paid = Tallied-insert _ _ _ _ _ v d.invoices d.allocations free p (ground arith) h.paid;
      stated = All-append IsStated d.invoices (v ∷ []) h.stated (rw (s, p, n) (refl, refl), tt);
    })

-- Rows that nothing counts.
pub insert_quotation_line-IsSales : (l : QuotationLine) → Keeps IsSales (insert_quotation_line l)
unfolding insert_quotation_line
insert_quotation_line-IsSales l =
    Takes-Keeps _ (Takes-insert IsSales IsSales _ _ _ _ _ _ λ d h fit free. h)

pub insert_fulfillment-IsSales : (f : Fulfillment) → Keeps IsSales (insert_fulfillment f)
unfolding insert_fulfillment
insert_fulfillment-IsSales f =
    Takes-Keeps _ (Takes-insert IsSales IsSales _ _ _ _ _ _ λ d h fit free. h)

pub insert_payment-IsSales : (p : Payment) → Keeps IsSales (insert_payment p)
unfolding insert_payment
insert_payment-IsSales p =
    Takes-Keeps _ (Takes-insert IsSales IsSales _ _ _ _ _ _ λ d h fit free. h)

pub insert_credit_note-IsSales : (n : CreditNote) → Keeps IsSales (insert_credit_note n)
unfolding insert_credit_note
insert_credit_note-IsSales n =
    Takes-Keeps _ (Takes-insert IsSales IsSales _ _ _ _ _ _ λ d h fit free. h)
