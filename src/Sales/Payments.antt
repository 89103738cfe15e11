-- ===== src/Sales/Payments.antt =====
-- The payments of `sales/service.py`: money that a customer pays, allocated to invoices, and its
-- journal entry, behind an idempotency key if there is one.
use nexora_ai.Prelude.{
  String, Bool, false, ◌&&◌, ◌||◌, not, Option, none, some, List, [], ◌∷◌, ◌++◌, ◌==◌, update_where,
  sort_by, if◌then◌else◌,
}
use nexora_ai.Prelude.Int.{ℤ, pos, ◌+ℤ◌, ◌-ℤ◌, ltb_ℤ, leb_ℤ, sum_from}
use nexora_ai.Decimal.{to_money, to_amount}
use nexora_ai.Session.{
  Uuid, Date, year_of, DocumentNumber, Context, Env, not_found, conflict, domain_validation, Tx,
  pure, raise_if, or_raise, gets, modify, new_id, audit, require_branch, ◌>>=◌, ◌>>◌,
}
use nexora_ai.Numbering.{allocate}
use nexora_ai.Accounting.PostingRules.{customer_payment}
use nexora_ai.Idempotency.{Keyed, Endpoint, guarded}
use nexora_ai.Company.{Company, in_documents, post_event}
use nexora_ai.Sales.Model.{
  InvoiceStatus, issued, partially_paid, paid, invoice_code, PaymentMethod, is_cash, Invoice,
  Payment, PaymentAllocation, Sales, refers_to, invoice_row, payment_row, allocations_of,
  insert_row, insert_payment,
}
use nexora_ai.Sales.Lines.{require_status}

pub record AllocationInput : Type 0 where
  pub invoice_id : Uuid
  pub amount : ℤ

pub record PaymentCreate : Type 0 where
  pub customer_id : Uuid
  pub branch_id : Uuid
  pub method : PaymentMethod
  pub amount : ℤ
  pub payment_date : Date
  pub allocations : List AllocationInput

-- `round_money(invoice.paid_amount + item.amount)`
abbrev pub paid_after : Invoice → ℤ → ℤ
paid_after v amount = to_money (to_amount (v.paid_amount +ℤ amount))

abbrev pub status_after : Invoice → ℤ → InvoiceStatus
status_after v amount = if leb_ℤ v.total_amount (paid_after v amount) then paid else partially_paid

abbrev pub pay_invoice : Invoice → PaymentAllocation → Invoice → Invoice
pay_invoice v a w = record w {
  paid_amount = paid_after v a.amount;
  status = status_after v a.amount;
}

abbrev pub same_target : PaymentAllocation → PaymentAllocation → Bool
same_target a b =
    a.payment_id == b.payment_id
    && elim a.invoice_id [ none ↦ false | some i ↦ refers_to i b.invoice_id ]

-- The row of the allocation, with its check and its unique keys, and the invoice that it pays.
unfoldable pub write_allocation : Invoice → PaymentAllocation → Tx Sales Unit
unfolding to_money to_amount
write_allocation v a =
    insert_row "payment_allocations" (λ d. d.allocations)
      (λ xs d. record d {
        allocations = xs;
        invoices = update_where (λ w. v.id == w.id) (pay_invoice v a) d.invoices;
      })
      (λ x y. x.id == y.id || same_target x y) (ltb_ℤ (pos 0) a.amount) a

abbrev pub new_allocation : Uuid → Uuid → AllocationInput → Invoice → PaymentAllocation
new_allocation i payment_id item v = record {
  id = i;
  payment_id = payment_id;
  invoice_id = some v.id;
  supplier_bill_id = none;
  amount = item.amount;
}

-- What follows the guards of an allocation.
unfoldable pub apply_allocation :
    Env → Uuid → AllocationInput → Invoice → Tx (Company Sales) PaymentAllocation
unfolding in_documents write_allocation
apply_allocation env payment_id item v = do
  i ← new_id env
  in_documents (write_allocation v (new_allocation i payment_id item v))
  pure (new_allocation i payment_id item v)

-- An invoice that takes payments, and no more than it is open for.
unfoldable pub allocate_within :
    Env → Uuid → AllocationInput → Invoice → Tx (Company Sales) PaymentAllocation
unfolding apply_allocation
allocate_within env payment_id item v = do
  raise_if (ltb_ℤ (v.total_amount -ℤ v.paid_amount) item.amount) (conflict "OVER_ALLOCATION")
  apply_allocation env payment_id item v

unfoldable pub allocate_payable :
    Env → Uuid → AllocationInput → Invoice → Tx (Company Sales) PaymentAllocation
unfolding allocate_within
allocate_payable env payment_id item v = do
  require_status (invoice_code v.status) (invoice_code issued ∷ invoice_code partially_paid ∷ [])
  allocate_within env payment_id item v

-- One round of the loop over the allocations.
unfoldable pub allocate_to :
    Context
    → Env
    → PaymentCreate
    → Uuid
    → AllocationInput
    → Invoice
    → Tx (Company Sales) PaymentAllocation
unfolding require_branch allocate_payable
allocate_to c env q payment_id item v = do
  require_branch c v.branch_id
  raise_if (not (v.customer_id == q.customer_id) || not (v.branch_id == q.branch_id))
      (domain_validation "ALLOCATION_TARGET_MISMATCH")
  allocate_payable env payment_id item v

unfoldable pub allocate_all :
    Context
    → Env
    → PaymentCreate
    → Uuid
    → List AllocationInput
    → List PaymentAllocation
    → Tx (Company Sales) (List PaymentAllocation)
unfolding allocate_to
allocate_all c env q payment_id [] done = pure done
allocate_all c env q payment_id (item ∷ items) done = do
  found ← gets (λ d. invoice_row item.invoice_id d.documents)
  v ← or_raise found not_found
  a ← allocate_to c env q payment_id item v
  allocate_all c env q payment_id items (done ++ a ∷ [])

-- `sum((item.amount for item in payload.allocations), ZERO)`
abbrev pub allocated_of : PaymentCreate → ℤ
allocated_of q = sum_from (λ a. a.amount) (pos 0) q.allocations

abbrev pub new_payment : Uuid → PaymentCreate → Option String → Payment
new_payment i q key = record {
  id = i;
  payment_number = none;
  customer_id = q.customer_id;
  branch_id = q.branch_id;
  method = q.method;
  amount = q.amount;
  allocated_amount = allocated_of q;
  payment_date = q.payment_date;
  idempotency_key = key;
}

abbrev pub set_payment_number : Uuid → DocumentNumber → Sales → Sales
set_payment_number i number d = record d {
  payments =
      update_where (λ p. i == p.id) (λ p. record p { payment_number = some number }) d.payments;
}

-- `_post_payment`
unfoldable pub post_payment : Context → Env → Payment → Tx (Company Sales) Unit
unfolding post_event customer_payment to_amount
post_payment c env p =
    if leb_ℤ p.amount (pos 0)
    then pure tt
    else post_event c env (record {
      entry_date = p.payment_date;
      source_type = "payment";
      source_id = p.id;
      event_type = "CUSTOMER_PAYMENT";
      lines = customer_payment (to_amount p.amount) (is_cash p.method);
    })

-- The work of `record_payment`, under a key that is won or without one.
unfoldable pub pay :
    Context
    → Env
    → Option String
    → PaymentCreate
    → Tx (Company Sales) (Payment × List PaymentAllocation)
unfolding in_documents insert_payment allocate_all post_payment allocate audit
pay c env key q = do
  raise_if (ltb_ℤ q.amount (allocated_of q)) (domain_validation "OVER_ALLOCATION")
  i ← new_id env
  in_documents (insert_payment (new_payment i q key))
  allocations ← allocate_all c env q i (sort_by (λ a. a.invoice_id) q.allocations) []
  number ← allocate "sales_payment" (year_of env.today)
  in_documents (modify (set_payment_number i number))
  let p : Payment = record (new_payment i q key) { payment_number = some number }
  post_payment c env p
  audit "sales.payment_recorded" "payment" (some i)
  pure (p, allocations)

-- The payment of a stored response, with its allocations.
unfoldable pub found_payment : Uuid → Company Sales → Option (Payment × List PaymentAllocation)
found_payment i k = elim (payment_row i k.documents) [
  | none ↦ none
  | some p ↦ some (p, allocations_of p.id k.documents)
]

-- `hash` stands for the hash of the body.
module _ (hash : PaymentCreate → String) where
  unfoldable pub payments :
      Context
      → Env
      → Option String
      → Endpoint PaymentCreate Uuid (Company Sales) (Payment × List PaymentAllocation)
  unfolding pay found_payment
  payments c env key = record {
    path = "POST /sales/payments";
    digest = hash;
    work = pay c env key;
    respond = λ r. r.0.id;
    found = found_payment;
  }

  unfoldable pub record_payment :
      Context
      → Env
      → PaymentCreate
      → Option String
      → Tx (Keyed Uuid (Company Sales)) ((Payment × List PaymentAllocation) × Bool)
  unfolding require_branch payments guarded
  record_payment c env q key = do require_branch c q.branch_id; guarded (payments c env key) key q
