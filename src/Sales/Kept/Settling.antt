-- ===== src/Sales/Kept/Settling.antt =====
-- Payments and credit notes keep the invariants.
use nexora_ai.Prelude.{
  ◌≡◌, refl, Bool, false, not, Option, none, some, List, [], ◌∷◌, ◌==◌, ◌++◌, ◌||◌, any_of, String,
}
use nexora_ai.Prelude.Int.{ℤ, ltb_ℤ, ◌-ℤ◌}
use nexora_ai.Session.{
  Uuid, DocumentNumber, Context, Env, require_branch, may_use_branch, raise_if, modify, not_found,
}
use nexora_ai.Session.Keeps.{
  Keeps, Keeps-modify, Keeps-new_id, Keeps-raise_if, Keeps-pure, keeps_rules,
}
use nexora_ai.Session.Takes.{Takes, Takes-Keeps, Keeps-Takes, Takes-after, Takes-then, Takes-guard}
use nexora_ai.Accounting.PostingRules.{PostingLine}
use nexora_ai.Company.{in_documents}
use nexora_ai.Company.Kept.{Stands, in_documents-Takes, Takes-document, in_documents-Stands}
use nexora_ai.Sales.Invariant.{IsSales}
use nexora_ai.Sales.Invariant.Writes.{insert_payment-IsSales, insert_credit_note-IsSales}
use nexora_ai.Sales.Invariant.Counters.{write_credited-IsSales, write_allocation-IsSales}
use nexora_ai.Sales.Model.{
  CreditNote, Invoice, InvoiceLine, Payment, PaymentAllocation, invoice_code, invoice_line_row,
  invoice_row, issued, partially_paid,
}
use nexora_ai.Sales.Lines.{totals_for}
use nexora_ai.Sales.Payments.{
  AllocationInput, PaymentCreate, allocate_all, allocate_payable, allocate_to, allocate_within,
  apply_allocation, new_allocation, pay, post_payment, set_payment_number,
}
use nexora_ai.Sales.CreditNotes.{
  CreditNoteCreate, CreditNoteLineInput, Credited, check_warehouse, credit_invoice, credit_line_of,
  credit_lines, credited_after, issue_credit_note, new_credit_line, post_cost, post_credit_note,
  restock_line, take_back,
}
use nexora_ai.Sales.Kept.{Sound, shared_rules, put_back-Keeps}
use nexora_ai.Sales.Kept.Billing.{record_groups-Sound}

allocate_within-Takes :
    (env : Env) (p i : Uuid) (item : AllocationInput) (v : Invoice)
    → not (
        any_of
          (λ c. invoice_code v.status == c)
          (invoice_code issued ∷ invoice_code partially_paid ∷ []))
      ≡ false
    → Takes
        (Stands (λ d. IsSales d × (invoice_row i d ≡ some v)))
        Sound
        (allocate_within env p item v)
unfolding allocate_within apply_allocation
allocate_within-Takes env p i item v payable =
    Takes-guard (ltb_ℤ (v.total_amount -ℤ v.paid_amount) item.amount) _
      (apply_allocation env p item v)
      λ guard. Takes-after _ _ (Keeps-new_id env) λ j.
        Takes-then Sound _ _
          (in_documents-Takes IsSales _
            (write_allocation-IsSales i v (new_allocation j p item v) refl payable guard))
          λ _. Keeps-Takes _ (Keeps-pure (new_allocation j p item v))

allocate_to-Takes :
    (c : Context) (env : Env) (q : PaymentCreate) (p i : Uuid) (item : AllocationInput)
    (v : Invoice)
    → Takes
        (Stands (λ d. IsSales d × (invoice_row i d ≡ some v)))
        Sound
        (allocate_to c env q p item v)
unfolding allocate_to allocate_payable require_branch
allocate_to-Takes c env q p i item v =
    Takes-after (raise_if (not (may_use_branch c v.branch_id)) _) _ (Keeps-raise_if _ _) λ _.
      Takes-after
        (raise_if (not (v.customer_id == q.customer_id) || not (v.branch_id == q.branch_id)) _) _
        (Keeps-raise_if _ _)
        λ _.
          Takes-guard
            (not (
              any_of (λ c. invoice_code v.status == c)
                (invoice_code issued ∷ invoice_code partially_paid ∷ [])))
            _ (allocate_within env p item v) (allocate_within-Takes env p i item v)

allocate_all-Sound :
    (c : Context) (env : Env) (q : PaymentCreate) (p : Uuid) (items : List AllocationInput)
    (done : List PaymentAllocation)
    → Keeps Sound (allocate_all c env q p items done)
unfolding allocate_all
allocate_all-Sound c env q p [] done = search keeps_rules
allocate_all-Sound c env q p (item ∷ items) done = Takes-Keeps _ (
    Takes-document IsSales Sound (invoice_row item.invoice_id) not_found _ λ v.
      Takes-then Sound (allocate_to c env q p item v) _
        (allocate_to-Takes c env q p item.invoice_id item v)
        λ a. Keeps-Takes _ (allocate_all-Sound c env q p items (done ++ a ∷ [])))

post_payment-Sound : (c : Context) (env : Env) (p : Payment) → Keeps Sound (post_payment c env p)
unfolding post_payment
post_payment-Sound c env p = search shared_rules depth 9

set_payment_number-Sound :
    (i : Uuid) (n : DocumentNumber) → Keeps Sound (in_documents (modify (set_payment_number i n)))
set_payment_number-Sound i n = in_documents-Stands _ (Keeps-modify _ (λ d h. h))

pub pay-Sound :
    (c : Context) (env : Env) (key : Option String) (q : PaymentCreate)
    → Keeps Sound (pay c env key q)
unfolding pay
pay-Sound c env key q =
    search
      (
        shared_rules, insert_payment-IsSales, allocate_all-Sound, post_payment-Sound,
        set_payment_number-Sound,
      )
      depth 16

restock_line-Sound :
    (env : Env) (b : Bool) (w : Option Uuid) (n : Uuid) (line : InvoiceLine) (quantity : ℤ)
    → Keeps Sound (restock_line env b w n line quantity)
unfolding restock_line
restock_line-Sound env b none n line quantity = search keeps_rules
restock_line-Sound env b (some w) n line quantity =
    search (shared_rules, put_back-Keeps env w n) depth 9

credit_line_of-Takes :
    (env : Env) (q : CreditNoteCreate) (n : Uuid) (item : CreditNoteLineInput) (line : InvoiceLine)
    (x : Credited)
    → Takes
        (Stands (λ d. IsSales d × (invoice_line_row item.invoice_line_id d ≡ some line)))
        Sound
        (credit_line_of env q n item line x)
unfolding credit_line_of take_back totals_for
credit_line_of-Takes env q n item line x =
    Takes-guard (ltb_ℤ (line.totals.quantity -ℤ line.credited_quantity) item.quantity) _
      (take_back env q n item line x)
      λ guard. Takes-after _ _ (Keeps-new_id env) λ i.
        Takes-then Sound _ _
          (in_documents-Takes IsSales _
            (write_credited-IsSales line (new_credit_line i n line item) guard))
          λ _.
            Takes-then Sound _ _
              (Keeps-Takes _ (restock_line-Sound env q.restock q.warehouse_id n line item.quantity))
              λ cost.
                Keeps-Takes _
                  (Keeps-pure (credited_after x line (new_credit_line i n line item) cost))

credit_lines-Sound :
    (env : Env) (q : CreditNoteCreate) (v n : Uuid) (items : List CreditNoteLineInput)
    (x : Credited)
    → Keeps Sound (credit_lines env q v n items x)
unfolding credit_lines
credit_lines-Sound env q v n [] x = search keeps_rules
credit_lines-Sound env q v n (item ∷ items) x = Takes-Keeps _ (
    Takes-document IsSales Sound (invoice_line_row item.invoice_line_id) not_found _ λ line.
      Takes-after (raise_if (not (line.invoice_id == v)) not_found) _ (Keeps-raise_if _ _) λ _.
        Takes-then Sound (credit_line_of env q n item line x) _
          (credit_line_of-Takes env q n item line x)
          λ after. Keeps-Takes _ (credit_lines-Sound env q v n items after))

post_cost-Sound :
    (c : Context) (env : Env) (n : CreditNote) (o : Option (List PostingLine))
    → Keeps Sound (post_cost c env n o)
unfolding post_cost
post_cost-Sound c env n none = search keeps_rules
post_cost-Sound c env n (some lines) = search shared_rules

post_credit_note-Sound :
    (c : Context) (env : Env) (n : CreditNote) (cost : ℤ)
    → Keeps Sound (post_credit_note c env n cost)
unfolding post_credit_note
post_credit_note-Sound c env n cost = search (shared_rules, post_cost-Sound) depth 9

credit_invoice-Sound :
    (c : Context) (env : Env) (q : CreditNoteCreate) (v : Invoice)
    → Keeps Sound (credit_invoice c env q v)
unfolding credit_invoice
credit_invoice-Sound c env q v =
    search
      (
        shared_rules, credit_lines-Sound, insert_credit_note-IsSales, post_credit_note-Sound,
        record_groups-Sound,
      )
      depth 16

check_warehouse-Sound :
    (c : Context) (b : Uuid) (w : Option Uuid) → Keeps Sound (check_warehouse c b w)
unfolding check_warehouse
check_warehouse-Sound c b none = search keeps_rules
check_warehouse-Sound c b (some w) = search shared_rules

pub issue_credit_note-Sound :
    (c : Context) (env : Env) (q : CreditNoteCreate) → Keeps Sound (issue_credit_note c env q)
unfolding issue_credit_note require_branch
issue_credit_note-Sound c env q =
    search (keeps_rules, check_warehouse-Sound, credit_invoice-Sound c env q) depth 14
