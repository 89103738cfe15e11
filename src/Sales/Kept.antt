-- ===== src/Sales/Kept.antt =====
-- Every method of the sales keeps the invariants: its own documents', and through the calls that it
-- makes those of the books, the stock and the VAT register.
pub mod Billing
pub mod Settling
use nexora_ai.Prelude.{
  ℕ, ◌≡◌, refl, ap, update_where, Bool, true, false, not, Option, none, some, List, [], ◌∷◌, ◌==◌,
  any_of, all_of, is_some, String, Bool-cases, inl, inr, if◌then◌else◌, first,
}
use nexora_ai.Prelude.Int.{ℤ, pos, ◌+ℤ◌, ltb_ℤ, leb_ℤ, ◌-ℤ◌}
use nexora_ai.Prelude.Tally.{Tallied-update, Tallied-touch}
use nexora_ai.Session.{
  Uuid, Date, DocumentNumber, Context, Env, Failure, Tx, require_branch, raise_if, or_raise, gets,
  modify, not_found, ◌>>=◌, ◌>>◌, conflict, new_id, pure,
}
use nexora_ai.Session.Keeps.{Keeps, Keeps-modify, Keeps-new_id, Keeps-pure, keeps_rules}
use nexora_ai.Session.Takes.{
  Takes, Takes-Keeps, Keeps-Takes, Takes-after, Takes-then, Takes-guard, Takes-found, Takes-weaken,
}
use nexora_ai.Inventory.Model.{Product}
use nexora_ai.Inventory.Movement.Kept.{post_movement-IsStock}
use nexora_ai.Vat.Filed.Kept.{record_taxed-IsRegister}
use nexora_ai.Company.{Company, in_documents}
use nexora_ai.Company.Kept.{
  Stands, allocate-Keeps, in_stock-Stands, in_register-Stands, in_documents-Takes, Takes-document,
  Stands-map, in_documents-Stands, get_product-Stands, require_warehouse-Stands, post_event-Stands,
}
use nexora_ai.Sales.Invariant.{IsSales}
use nexora_ai.Sales.Invariant.Writes.{
  insert_order_line-IsSales, insert_quotation-IsSales, insert_order-IsSales, insert_invoice-IsSales,
  insert_quotation_line-IsSales, insert_fulfillment-IsSales, insert_payment-IsSales,
  insert_credit_note-IsSales,
}
use nexora_ai.Sales.Invariant.Counters.{
  write_fulfilled-IsSales, write_credited-IsSales, write_invoiced-IsSales, write_conversion-IsSales,
  set_issued-IsSales, write_allocation-IsSales,
}
use nexora_ai.Sales.Model.{
  Fulfillment, QuotationStatus, Sales, SalesOrder, SalesOrderLine, SalesOrderStatus, fulfilled,
  order_line_row, paid, refers_to,
}
use nexora_ai.Sales.Lines.{Amounts, LineInput}
use nexora_ai.Sales.Quotations.{
  QuotationCreate, add_quotation_lines, create_quotation, new_quotation, set_quotation_status,
  set_status,
}
use nexora_ai.Sales.Orders.{
  SalesOrderCreate, add_order_lines, cancel_order, confirm_order, create_order, new_order,
  set_order_status,
}
use nexora_ai.Sales.Fulfil.{
  FulfillmentLineInput, fulfil, fulfil_line, fulfil_lines, fulfil_requested, new_fulfillment_line,
  outstanding, post_fulfillment, requested_from, requested_of, set_fulfillment_number, ship,
  ship_line,
}
use nexora_ai.Sales.Invoices.{}
use nexora_ai.Sales.Payments.{}
use nexora_ai.Sales.CreditNotes.{put_back}

abbrev pub Sound : Company Sales → Type 0
Sound = Stands IsSales

pub ruleset shared_rules = (
  keeps_rules, allocate-Keeps, in_documents-Stands, get_product-Stands, require_warehouse-Stands,
  post_event-Stands,
)

add_quotation_lines-Sound :
    (env : Env) (i : Uuid) (items : List LineInput) (a : Amounts)
    → Keeps Sound (add_quotation_lines env i items a)
unfolding add_quotation_lines
add_quotation_lines-Sound env i [] a = search keeps_rules
add_quotation_lines-Sound env i (item ∷ items) a =
    search (shared_rules, insert_quotation_line-IsSales, add_quotation_lines-Sound env i items)
      depth 12

pub create_quotation-Sound :
    (c : Context) (env : Env) (q : QuotationCreate) → Keeps Sound (create_quotation c env q)
unfolding create_quotation require_branch
create_quotation-Sound c env q =
    search
      (
        shared_rules,
        add_quotation_lines-Sound,
        (λ (i : Uuid) (a : Amounts) (n : DocumentNumber).
            insert_quotation-IsSales (new_quotation i q a n) refl),
      )
      depth 14

add_order_lines-Sound :
    (env : Env) (i : Uuid) (items : List LineInput) (a : Amounts)
    → Keeps Sound (add_order_lines env i items a)
unfolding add_order_lines
add_order_lines-Sound env i [] a = search keeps_rules
add_order_lines-Sound env i (item ∷ items) a =
    search (shared_rules, insert_order_line-IsSales, add_order_lines-Sound env i items) depth 12

pub create_order-Sound :
    (c : Context) (env : Env) (q : SalesOrderCreate) → Keeps Sound (create_order c env q)
unfolding create_order
create_order-Sound c env q =
    search
      (
        shared_rules,
        add_order_lines-Sound,
        (λ (i : Uuid) (a : Amounts) (n : DocumentNumber).
            insert_order-IsSales (new_order i q a n) refl),
      )
      depth 14

set_status-IsSales :
    (i : Uuid) (status : QuotationStatus) (d : Sales) → IsSales d → IsSales (set_status i status d)
set_status-IsSales i status d h = record {
  converted =
      Tallied-update _ _ _ _ _ (λ q. i == q.id) (λ q. record q { status = status }) d.quotations
        d.orders (λ k. refl) (λ k. refl) (λ k. refl) h.converted;
  fulfilled = h.fulfilled;
  invoiced = h.invoiced;
  credited = h.credited;
  paid = h.paid;
  stated = h.stated;
}

pub set_quotation_status-Sound :
    (c : Context) (i : Uuid) (status : QuotationStatus)
    → Keeps Sound (set_quotation_status c i status)
unfolding set_quotation_status require_branch
set_quotation_status-Sound c i status =
    search (shared_rules, Keeps-modify, set_status-IsSales) depth 14

touch_order :
    (i : Uuid) (f : SalesOrder → SalesOrder)
    → ((o : SalesOrder) → (f o).quotation_id ≡ o.quotation_id)
    → (d : Sales) → IsSales d
    → IsSales (record d { orders = update_where (λ o. i == o.id) f d.orders })
touch_order i f same d h = record {
  converted =
      Tallied-touch _ _ _ _ _ (λ o. i == o.id) f d.quotations d.orders
        (λ j o. ap (refers_to j) (same o)) (λ o. refl) h.converted;
  fulfilled = h.fulfilled;
  invoiced = h.invoiced;
  credited = h.credited;
  paid = h.paid;
  stated = h.stated;
}

set_order_status-IsSales :
    (i : Uuid) (status : SalesOrderStatus) (d : Sales)
    → IsSales d
    → IsSales (set_order_status i status d)
set_order_status-IsSales i status d h =
    touch_order i (λ o. record o { status = status }) (λ o. refl) d h

pub confirm_order-Sound : (c : Context) (i : Uuid) → Keeps Sound (confirm_order c i)
unfolding confirm_order require_branch
confirm_order-Sound c i = search (shared_rules, Keeps-modify, set_order_status-IsSales) depth 14

pub cancel_order-Sound : (c : Context) (i : Uuid) → Keeps Sound (cancel_order c i)
unfolding cancel_order require_branch
cancel_order-Sound c i = search (shared_rules, Keeps-modify, set_order_status-IsSales) depth 14

module _ {R : Sales → Type 0} where
  ship-Keeps :
      (env : Env) (w f : Uuid) (p : Product) (quantity : ℤ)
      → Keeps (Stands R) (ship env w f p quantity)
  unfolding ship
  ship-Keeps env w f p quantity =
      search (keeps_rules, in_stock-Stands, post_movement-IsStock env) depth 9

  pub put_back-Keeps :
      (env : Env) (w n : Uuid) (p : Product) (quantity : ℤ)
      → Keeps (Stands R) (put_back env w n p quantity)
  unfolding put_back
  put_back-Keeps env w n p quantity =
      search (keeps_rules, in_stock-Stands, post_movement-IsStock env) depth 9

fulfil_line-Takes :
    (env : Env) (f : Fulfillment) (r : FulfillmentLineInput) (line : SalesOrderLine)
    → Takes
        (Stands (λ d. IsSales d × (order_line_row r.sales_order_line_id d ≡ some line)))
        Sound
        (fulfil_line env f r line)
unfolding fulfil_line ship_line
fulfil_line-Takes env f r line =
    Takes-guard (ltb_ℤ (outstanding line) r.quantity) (conflict "OVER_FULFILMENT")
      (ship_line env f r line)
      λ guard. Takes-after _ _ (get_product-Stands line.product_id) λ p.
        Takes-after _ _ (ship-Keeps env f.warehouse_id f.id p r.quantity) λ cost.
          Takes-after _ _ (Keeps-new_id env) λ i.
            Takes-then Sound _ _
              (in_documents-Takes IsSales _
                (write_fulfilled-IsSales line (new_fulfillment_line i f r line) guard))
              (λ _. Keeps-Takes _ (Keeps-pure cost))

fulfil_lines-Sound :
    (env : Env) (f : Fulfillment) (rs : List FulfillmentLineInput) (cost : ℤ)
    → Keeps Sound (fulfil_lines env f rs cost)
unfolding fulfil_lines
fulfil_lines-Sound env f [] cost = search keeps_rules
fulfil_lines-Sound env f (r ∷ rs) cost = Takes-Keeps _ (
    Takes-document IsSales Sound (order_line_row r.sales_order_line_id) not_found _ λ line.
      Takes-then Sound _ _ (fulfil_line-Takes env f r line)
        λ added. Keeps-Takes _ (fulfil_lines-Sound env f rs (cost +ℤ added)))

set_fulfillment_number-Sound :
    (i : Uuid) (n : DocumentNumber)
    → Keeps Sound (in_documents (modify (set_fulfillment_number i n)))
set_fulfillment_number-Sound i n = in_documents-Stands _ (Keeps-modify _ (λ d h. h))

post_fulfillment-Sound :
    (c : Context) (env : Env) (f : Fulfillment) (cost : ℤ)
    → Keeps Sound (post_fulfillment c env f cost)
unfolding post_fulfillment
post_fulfillment-Sound c env f cost = search shared_rules depth 9

fulfil_requested-Sound :
    (c : Context) (env : Env) (o : SalesOrder) (lines : List SalesOrderLine)
    (rs : List FulfillmentLineInput)
    → Keeps Sound (fulfil_requested c env o lines rs)
unfolding fulfil_requested
fulfil_requested-Sound c env o lines rs =
    search
      (
        shared_rules, insert_fulfillment-IsSales, fulfil_lines-Sound, Keeps-modify,
        set_order_status-IsSales, set_fulfillment_number-Sound, post_fulfillment-Sound,
      )
      depth 20

requested_from-Sound :
    (lines : List SalesOrderLine) (items rs : List FulfillmentLineInput)
    → Keeps Sound (requested_from lines items rs)
unfolding requested_from
requested_from-Sound lines [] rs = search keeps_rules
requested_from-Sound lines (item ∷ items) rs =
    search (keeps_rules, requested_from-Sound lines items)

requested_of-Sound :
    (lines : List SalesOrderLine) (p : Option (List FulfillmentLineInput))
    → Keeps Sound (requested_of lines p)
unfolding requested_of
requested_of-Sound lines none = search keeps_rules
requested_of-Sound lines (some items) = requested_from-Sound lines items []

pub fulfil-Sound :
    (c : Context) (env : Env) (i : Uuid) (p : Option (List FulfillmentLineInput))
    → Keeps Sound (fulfil c env i p)
unfolding fulfil require_branch
fulfil-Sound c env i p =
    search (keeps_rules, requested_of-Sound, fulfil_requested-Sound c env) depth 16
