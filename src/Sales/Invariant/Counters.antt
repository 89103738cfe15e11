-- ===== src/Sales/Invariant/Counters.antt =====
-- The writes that move a counter keep what holds of the documents, once their guards have let them
-- pass.
use nexora_ai.Prelude.{
  ◌≡◌, refl, sym, subst, Bool, true, false, not, some, [], ◌∷◌, ◌==◌, arith, any_of, is_some,
  if◌then◌else◌, Bool-cases, inl, inr,
}
use nexora_ai.Prelude.Int.{
  ℤ, pos, eq_of_parts, ltb_ℤ, leb_ℤ, ◌+ℤ◌, ◌-ℤ◌, ◌≤ℤ◌, int_laws, -ℤ_parts, +ℤ_parts,
}
use nexora_ai.Prelude.Rows.{All-update, All-first}
use nexora_ai.Prelude.Tally.{
  Tallied-insert, Tallied-update, Tallied-add, Tallied-touch, Distinct-found, All-pair,
  found_itself,
}
use nexora_ai.Decimal.Rounding.{to_money-to_amount}
use nexora_ai.Session.{Uuid, DocumentNumber, modify}
use nexora_ai.Session.Takes.{Takes, Takes-modify}
use nexora_ai.Sales.Invariant.{
  IsSales, StatedAs, IsStated, Takes-insert, quotation_id, order_line_id, invoice_id,
}
use nexora_ai.Sales.Model.{
  CreditNoteLine, FulfillmentLine, Invoice, InvoiceLine, InvoiceStatus, PaymentAllocation,
  Quotation, SalesOrder, SalesOrderLine, cancelled, draft, invoice_code, invoice_line_row,
  invoice_row, issued, order_line_row, paid, partially_paid, quotation_row,
}
use nexora_ai.Sales.Quotations.{write_conversion}
use nexora_ai.Sales.Fulfil.{outstanding, write_fulfilled}
use nexora_ai.Sales.Invoices.{billable, issued_invoice, set_issued, write_invoiced}
use nexora_ai.Sales.Payments.{pay_invoice, write_allocation}
use nexora_ai.Sales.CreditNotes.{write_credited}

-- What is left of a limit bounds what may be added.
within_limit :
    (limit counter amount : ℤ)
    → ltb_ℤ (limit -ℤ counter) amount ≡ false
    → counter +ℤ amount ≤ℤ limit
within_limit limit counter amount h =
    let p = -ℤ_parts limit counter in let q = +ℤ_parts counter amount in ground arith

positive : (a : ℤ) → ltb_ℤ (pos 0) a ≡ true → pos 0 ≤ℤ a
positive a h = ground arith

pub write_fulfilled-IsSales :
    (line : SalesOrderLine) (l : FulfillmentLine)
    → ltb_ℤ (outstanding line) l.quantity ≡ false
    → Takes
        (λ d. IsSales d × (order_line_row l.sales_order_line_id d ≡ some line))
        IsSales
        (write_fulfilled line l)
unfolding write_fulfilled
write_fulfilled-IsSales line l guard = Takes-insert _ IsSales _ _ _ _ _ _ λ d h fit free. record {
  converted = h.0.converted;
  fulfilled =
      Tallied-add _ _ _ _ _ l.sales_order_line_id line l
        (λ k. record k { fulfilled_quantity = line.fulfilled_quantity +ℤ l.quantity }) d.order_lines
        d.fulfillment_lines h.1 (λ j. refl) (λ k. refl) refl refl (positive l.quantity fit)
        (within_limit line.totals.quantity line.fulfilled_quantity l.quantity guard) h.0.fulfilled;
  invoiced =
      Tallied-update _ _ _ _ _ _ _ d.order_lines d.invoice_lines (λ k. refl) (λ k. refl) (λ k. refl)
        h.0.invoiced;
  credited = h.0.credited;
  paid = h.0.paid;
  stated = h.0.stated;
}

pub write_credited-IsSales :
    (line : InvoiceLine) (l : CreditNoteLine)
    → ltb_ℤ (line.totals.quantity -ℤ line.credited_quantity) l.totals.quantity ≡ false
    → Takes
        (λ d. IsSales d × (invoice_line_row l.invoice_line_id d ≡ some line))
        IsSales
        (write_credited line l)
unfolding write_credited
write_credited-IsSales line l guard = Takes-insert _ IsSales _ _ _ _ _ _ λ d h fit free. record {
  converted = h.0.converted;
  fulfilled = h.0.fulfilled;
  invoiced =
      Tallied-touch _ _ _ _ _ (λ k. l.invoice_line_id == k.id)
        (λ k. record k { credited_quantity = line.credited_quantity +ℤ l.totals.quantity })
        d.order_lines d.invoice_lines (λ j k. refl) (λ k. refl) h.0.invoiced;
  credited =
      Tallied-add _ _ _ _ _ l.invoice_line_id line l
        (λ k. record k { credited_quantity = line.credited_quantity +ℤ l.totals.quantity })
        d.invoice_lines d.credit_note_lines h.1 (λ j. refl) (λ k. refl) refl refl
        (positive l.totals.quantity (ground arith))
        (within_limit line.totals.quantity line.credited_quantity l.totals.quantity guard)
        h.0.credited;
  paid = h.0.paid;
  stated = h.0.stated;
}

-- What may be billed is within the quantity, since what is fulfilled is.
billable_bound :
    (b : Bool) (line : SalesOrderLine)
    → line.fulfilled_quantity ≤ℤ line.totals.quantity
    → line.invoiced_quantity +ℤ billable b line ≤ℤ line.totals.quantity
billable_bound true line h = omega (int_laws, h)
billable_bound false line h = omega int_laws

pub write_invoiced-IsSales :
    (b : Bool) (i : Uuid) (line : SalesOrderLine) (l : InvoiceLine)
    → l.sales_order_line_id ≡ some line.id
    → l.credited_quantity ≡ pos 0
    → l.totals.quantity ≡ billable b line
    → Takes (λ d. IsSales d × (order_line_row i d ≡ some line)) IsSales (write_invoiced line l)
unfolding write_invoiced
write_invoiced-IsSales b i line l refers credits bills =
    Takes-insert _ IsSales _ _ _ _ _ _ λ d h fit free.
      let low : pos 0 ≤ℤ l.totals.quantity = positive l.totals.quantity (ground arith) in
      let counted = All-first _ _ d.order_lines line h.0.fulfilled.counted h.1 in
      let high : line.invoiced_quantity +ℤ l.totals.quantity ≤ℤ line.totals.quantity =
        subst (λ q. line.invoiced_quantity +ℤ q ≤ℤ line.totals.quantity) (sym bills)
          (billable_bound b line counted.0.high) in
      record {
        converted = h.0.converted;
        fulfilled =
            Tallied-update _ _ _ _ _ _ _ d.order_lines d.fulfillment_lines (λ k. refl) (λ k. refl)
              (λ k. refl) h.0.fulfilled;
        invoiced =
            Tallied-add _ _ _ _ _ line.id line l
              (λ k. record k { invoiced_quantity = line.invoiced_quantity +ℤ l.totals.quantity })
              d.order_lines d.invoice_lines (found_itself order_line_id i d.order_lines line h.1)
              (λ j. rw refers refl) (λ k. refl) refl refl low high h.0.invoiced;
        credited =
            Tallied-insert _ _ _ _ _ l d.invoice_lines d.credit_note_lines free credits low
              h.0.credited;
        paid = h.0.paid;
        stated = h.0.stated;
      }

-- The order of a quotation that has none.
pub write_conversion-IsSales :
    (i : Uuid) (q : Quotation) (o : SalesOrder)
    → o.quotation_id ≡ some q.id
    → is_some q.converted_order_id ≡ false
    → Takes (λ d. IsSales d × (quotation_row i d ≡ some q)) IsSales (write_conversion q.id o)
unfolding write_conversion
write_conversion-IsSales i q o refers new = Takes-insert _ IsSales _ _ _ _ _ _ λ d h fit free.
    record {
      converted =
          Tallied-add _ _ _ _ _ q.id q o (λ k. record k { converted_order_id = some o.id })
            d.quotations d.orders (found_itself quotation_id i d.quotations q h.1)
            (λ j. rw refers refl) (λ k. refl) (rw new (omega int_laws)) refl (omega arith)
            (rw new (omega int_laws)) h.0.converted;
      fulfilled = h.0.fulfilled;
      invoiced = h.0.invoiced;
      credited = h.0.credited;
      paid = h.0.paid;
      stated = h.0.stated;
    }

drafted_unpaid : (w : Invoice) → w.status ≡ draft → IsStated w → w.paid_amount ≡ pos 0
drafted_unpaid w s h = go w.status s h
  where
    go : (z : InvoiceStatus) → z ≡ draft → StatedAs z w → w.paid_amount ≡ pos 0
    go draft e k = k.0
    go issued e k = k.0
    go partially_paid e k = cc
    go paid e k = cc
    go cancelled e k = cc

-- A number and the status of an invoice that was a draft.
pub set_issued-IsSales :
    (i : Uuid) (v : Invoice) (number : DocumentNumber)
    → v.status ≡ draft
    → Takes (λ d. IsSales d × (invoice_row i d ≡ some v)) IsSales (modify (set_issued i number))
set_issued-IsSales i v number s = Takes-modify (set_issued i number) λ d h. record {
  converted = h.0.converted;
  fulfilled = h.0.fulfilled;
  invoiced = h.0.invoiced;
  credited = h.0.credited;
  paid =
      Tallied-update _ _ _ _ _ (λ v. i == v.id) (issued_invoice number) d.invoices d.allocations
        (λ k. refl) (λ k. refl) (λ k. refl) h.0.paid;
  stated =
      All-update _ IsStated (λ w. i == w.id) (issued_invoice number) d.invoices
        (λ w e x. (drafted_unpaid w (subst (λ z. z.status ≡ draft) (sym (x.1 e)) s) x.0, refl))
        (λ w e x. x.0)
        (All-pair _ _ d.invoices h.0.stated
          (Distinct-found invoice_id i d.invoices v h.0.paid.distinct h.1));
}

-- Of an invoice that takes payments, the number is there.
payable_number :
    (s : InvoiceStatus) (v : Invoice)
    → not
        (any_of (λ c. invoice_code s == c) (invoice_code issued ∷ invoice_code partially_paid ∷ []))
      ≡ false
    → StatedAs s v
    → is_some v.invoice_number ≡ true
payable_number draft v g h = cc
payable_number issued v g h = h.1
payable_number partially_paid v g h = h.1
payable_number paid v g h = h.1
payable_number cancelled v g h = absurd h

-- The status after an allocation belongs to what is paid then.
allocated-IsStated :
    (v : Invoice) (amount : ℤ)
    → is_some v.invoice_number ≡ true
    → pos 0 ≤ℤ v.paid_amount
    → ltb_ℤ (pos 0) amount ≡ true
    → v.paid_amount +ℤ amount ≤ℤ v.total_amount
    → IsStated (record v {
      paid_amount = v.paid_amount +ℤ amount;
      status = if leb_ℤ v.total_amount (v.paid_amount +ℤ amount) then paid else partially_paid;
    })
allocated-IsStated v amount number low more high =
    elim (Bool-cases (leb_ℤ v.total_amount (v.paid_amount +ℤ amount))) [
      | inl e ↦
          let same : v.paid_amount +ℤ amount ≡ v.total_amount = eq_of_parts _ _ (ground arith) in
          rw e (same, number)
      | inr e ↦ let p = +ℤ_parts v.paid_amount amount in rw e (ground arith, number)
    ]

pub write_allocation-IsSales :
    (i : Uuid) (v : Invoice) (a : PaymentAllocation)
    → a.invoice_id ≡ some v.id
    → not (
        any_of
          (λ c. invoice_code v.status == c)
          (invoice_code issued ∷ invoice_code partially_paid ∷ []))
      ≡ false
    → ltb_ℤ (v.total_amount -ℤ v.paid_amount) a.amount ≡ false
    → Takes (λ d. IsSales d × (invoice_row i d ≡ some v)) IsSales (write_allocation v a)
unfolding write_allocation
write_allocation-IsSales i v a refers payable guard =
    Takes-insert _ IsSales _ _ _ _ _ _ λ d h fit free.
      let bound = within_limit v.total_amount v.paid_amount a.amount guard in
      let row = All-first _ _ d.invoices v h.0.paid.counted h.1 in
      let before = All-first _ _ d.invoices v h.0.stated h.1 in
      let itself = found_itself invoice_id i d.invoices v h.1 in
      let sum = to_money-to_amount (v.paid_amount +ℤ a.amount) in
      let after =
        subst
          (λ z. IsStated (record v {
            paid_amount = z;
            status = if leb_ℤ v.total_amount z then paid else partially_paid;
          }))
          (sym sum)
          (allocated-IsStated v a.amount (payable_number v.status v payable before.0) row.0.low fit
            bound) in
      record {
        converted = h.0.converted;
        fulfilled = h.0.fulfilled;
        invoiced = h.0.invoiced;
        credited = h.0.credited;
        paid =
            Tallied-add _ _ _ _ _ v.id v a (pay_invoice v a) d.invoices d.allocations itself
              (λ j. rw refers refl) (λ k. refl) sum refl (positive a.amount fit) bound h.0.paid;
        stated =
            All-update _ IsStated (λ w. v.id == w.id) (pay_invoice v a) d.invoices
              (λ w e x. subst (λ z. IsStated (pay_invoice v a z)) (sym (x.1 e)) after)
              (λ w e x. x.0)
              (All-pair _ _ d.invoices h.0.stated
                (Distinct-found invoice_id v.id d.invoices v h.0.paid.distinct itself));
      }
