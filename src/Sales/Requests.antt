-- ===== src/Sales/Requests.antt =====
-- The requests that reach a company: those of the sales, and those of the services that the sales
-- call, each in a transaction, one after another.
use nexora_ai.Prelude.{ℕ, String, false, Option, none, some, List, str_eq, if◌then◌else◌}
use nexora_ai.Session.{Uuid, Context, Env, Session, Tx, pure, require_branch, ◌>>=◌}
use nexora_ai.Session.Served.{serve_all, serve_all-Keeps}
use nexora_ai.Session.Keeps.{
  Keeps, Keeps-modify, Keeps-bind, Keeps-if, Keeps-pure, Keeps-raise_if, keeps_rules,
}
use nexora_ai.Session.Takes.{Takes-Keeps, Keeps-Takes, Takes-within}
use nexora_ai.Accounting.Requests.{Request as BooksRequest, perform as perform_books, perform-Holds}
use nexora_ai.Inventory.Requests.{
  Request as StockRequest, perform as perform_stock, perform-IsStock,
}
use nexora_ai.Vat.Requests.{
  Request as RegisterRequest, perform as perform_register, perform-IsRegister,
}
use nexora_ai.Idempotency.{
  IdempotencyKey, Keyed, claim, claim_or_replay, replay_key, complete, inside, Endpoint, do_work,
  return_or_work, answer_stored, answer, guarded,
}
use nexora_ai.Company.{Company, in_books, in_stock, in_register}
use nexora_ai.Company.Kept.{in_books-Stands, in_stock-Stands, in_register-Stands}
use nexora_ai.Sales.Model.{QuotationStatus, Sales, Invoice}
use nexora_ai.Sales.Quotations.{
  QuotationCreate, create_quotation, set_quotation_status, QuotationConvert, convert_quotation,
}
use nexora_ai.Sales.Orders.{SalesOrderCreate, create_order, confirm_order, cancel_order}
use nexora_ai.Sales.Fulfil.{FulfillmentLineInput, fulfil}
use nexora_ai.Sales.Invoices.{
  InvoiceCreate, create_invoice, issue_path, issue_and_complete, replay_issue, answer_issue,
  issue_invoice,
}
use nexora_ai.Sales.Payments.{PaymentCreate, payments, record_payment}
use nexora_ai.Sales.CreditNotes.{CreditNoteCreate, issue_credit_note}
use nexora_ai.Sales.Kept.{
  Sound, create_quotation-Sound, create_order-Sound, set_quotation_status-Sound,
  confirm_order-Sound, cancel_order-Sound, fulfil-Sound,
}
use nexora_ai.Sales.Kept.Billing.{convert_quotation-Sound, create_invoice-Sound, issue-Sound}
use nexora_ai.Sales.Kept.Settling.{pay-Sound, issue_credit_note-Sound}

pub data Request : Type 0 where
  quotation_of : QuotationCreate → Request
  quotation_status_of : Uuid → QuotationStatus → Request
  conversion_of : Uuid → QuotationConvert → Request
  order_of : SalesOrderCreate → Request
  confirmation_of : Uuid → Request
  cancellation_of : Uuid → Request
  fulfilment_of : Uuid → Option (List FulfillmentLineInput) → Request
  invoice_of : InvoiceCreate → Request
  issue_of : Uuid → String → Request
  payment_of : PaymentCreate → Option String → Request
  credit_note_of : CreditNoteCreate → Request
  books_of : BooksRequest → Request
  stock_of : StockRequest → Request
  register_of : RegisterRequest → Request

-- The rows of a tenant: the keys of the requests, and the company.
abbrev pub Rows : Type 0
Rows = Keyed Uuid (Company Sales)

-- `hash_issue` and `hash_payment` stand for the hashes of the bodies.
module _ (hash_issue : Uuid → String) (hash_payment : PaymentCreate → String) where
  unfoldable pub perform : Context → Env → Request → Tx Rows Unit
  perform c env (quotation_of q) = inside (create_quotation c env q) >>= λ _. pure tt
  perform c env (quotation_status_of i s) = inside (set_quotation_status c i s) >>= λ _. pure tt
  perform c env (conversion_of i p) = inside (convert_quotation c env i p) >>= λ _. pure tt
  perform c env (order_of q) = inside (create_order c env q) >>= λ _. pure tt
  perform c env (confirmation_of i) = inside (confirm_order c i) >>= λ _. pure tt
  perform c env (cancellation_of i) = inside (cancel_order c i) >>= λ _. pure tt
  perform c env (fulfilment_of i p) = inside (fulfil c env i p) >>= λ _. pure tt
  perform c env (invoice_of q) = inside (create_invoice c env q) >>= λ _. pure tt
  perform c env (issue_of i key) = issue_invoice hash_issue c env i key >>= λ _. pure tt
  perform c env (payment_of q key) = record_payment hash_payment c env q key >>= λ _. pure tt
  perform c env (credit_note_of q) = inside (issue_credit_note c env q) >>= λ _. pure tt
  perform c env (books_of q) = inside (in_books (perform_books c env q))
  perform c env (stock_of q) = inside (in_stock (perform_stock c env q))
  perform c env (register_of q) = inside (in_register (perform_register c env q))

  -- What is committed after the requests, whatever each of them answers.
  abbrev pub serve : List (Context × Env × Request) → Session Rows → Session Rows
  serve = serve_all perform

-- An invariant of the work, whatever keys stand.
abbrev OfWork : {S : Type 0} → (S → Type 0) → Keyed Uuid S → Type 0
OfWork P k = P k.work

module _ {S : Type 0} (P : S → Type 0) where
  inside-Keeps : {A : Type 0} (m : Tx S A) → Keeps P m → Keeps (OfWork P) (inside {B = Uuid} m)
  inside-Keeps m k = Takes-Keeps _ (
      Takes-within _ (λ t k. record k { work = t }) P P (OfWork P) (OfWork P) (λ b h. h)
        (λ t b h q. q) m (Keeps-Takes m k))

  claim-Keeps : (e key hash : String) → Keeps (OfWork P) (claim e key hash)
  unfolding claim claim_or_replay replay_key
  claim-Keeps e key hash = search (keeps_rules, step)
    where
      step : (o : Option (IdempotencyKey Uuid)) → Keeps (OfWork P) (claim_or_replay e key hash o)
      step none = search (keeps_rules, Keeps-modify)
      step (some k) = search keeps_rules depth 9

  complete-Keeps : (e key : String) (n : ℕ) (b : Uuid) → Keeps (OfWork P) (complete e key n b)
  unfolding complete
  complete-Keeps e key n b = Keeps-modify _ (λ b h. h)

module _ {Q S R : Type 0} {P : S → Type 0} (e : Endpoint Q Uuid S R)
    (k : (q : Q) → Keeps P (e.work q)) where
  do_work-Keeps : (key : Option String) (q : Q) → Keeps (OfWork P) (do_work e key q)
  unfolding do_work
  do_work-Keeps none q = search (keeps_rules, inside-Keeps P, k)
  do_work-Keeps (some key) q = search (keeps_rules, inside-Keeps P, k, complete-Keeps P) depth 9

  return-Keeps : (key : String) (q : Q) (o : Option R) → Keeps (OfWork P) (return_or_work e key q o)
  unfolding return_or_work
  return-Keeps key q none = do_work-Keeps (some key) q
  return-Keeps key q (some r) = search keeps_rules

  stored-Keeps :
      (key : String) (q : Q) (o : Option Uuid) → Keeps (OfWork P) (answer_stored e key q o)
  unfolding answer_stored
  stored-Keeps key q none = do_work-Keeps (some key) q
  stored-Keeps key q (some b) = search (keeps_rules, return-Keeps key q)

  guarded-Keeps : (key : Option String) (q : Q) → Keeps (OfWork P) (guarded e key q)
  unfolding guarded answer
  guarded-Keeps none q = do_work-Keeps none q
  guarded-Keeps (some key) q = Keeps-if (str_eq key "") _ _ (do_work-Keeps none q) (
      Keeps-bind _ _ (claim-Keeps P e.path key (e.digest q))
        (λ c. stored-Keeps key q (if c.won then none else c.stored_response)))

inside-Sound :
    {A : Type 0} (m : Tx (Company Sales) A)
    → Keeps Sound m
    → Keeps (OfWork Sound) (inside {B = Uuid} m)
inside-Sound m k = inside-Keeps Sound m k

ruleset operations = (
  keeps_rules, inside-Sound, create_quotation-Sound, create_order-Sound, set_quotation_status-Sound,
  confirm_order-Sound, cancel_order-Sound, fulfil-Sound, convert_quotation-Sound,
  create_invoice-Sound, issue_credit_note-Sound, in_books-Stands, in_stock-Stands,
  in_register-Stands, perform-Holds, perform-IsStock, perform-IsRegister,
)

module _ (hash_issue : Uuid → String) (hash_payment : PaymentCreate → String) where
  issue_and_complete-Sound :
      (c : Context) (env : Env) (i : Uuid) (key : String)
      → Keeps (OfWork Sound) (issue_and_complete hash_issue c env i key)
  unfolding issue_and_complete
  issue_and_complete-Sound c env i key =
      Keeps-bind _ _ (inside-Sound _ (issue-Sound c env i)) λ v.
        Keeps-bind _ _ (complete-Keeps Sound issue_path key 200 v.id) λ _. Keeps-pure (v, false)

  replay_issue-Sound :
      (c : Context) (env : Env) (i : Uuid) (key : String) (o : Option Invoice)
      → Keeps (OfWork Sound) (replay_issue hash_issue c env i key o)
  unfolding replay_issue require_branch
  replay_issue-Sound c env i key none = issue_and_complete-Sound c env i key
  replay_issue-Sound c env i key (some v) = search keeps_rules

  answer_issue-Sound :
      (c : Context) (env : Env) (i : Uuid) (key : String) (o : Option Uuid)
      → Keeps (OfWork Sound) (answer_issue hash_issue c env i key o)
  unfolding answer_issue
  answer_issue-Sound c env i key none = issue_and_complete-Sound c env i key
  answer_issue-Sound c env i key (some j) = search (keeps_rules, replay_issue-Sound c env i key)

  issue_invoice-Sound :
      (c : Context) (env : Env) (i : Uuid) (key : String)
      → Keeps (OfWork Sound) (issue_invoice hash_issue c env i key)
  unfolding issue_invoice
  issue_invoice-Sound c env i key =
      search (keeps_rules, claim-Keeps Sound, answer_issue-Sound c env i key)

  record_payment-Sound :
      (c : Context) (env : Env) (q : PaymentCreate) (key : Option String)
      → Keeps (OfWork Sound) (record_payment hash_payment c env q key)
  unfolding record_payment require_branch payments
  record_payment-Sound c env q key =
      Keeps-bind _ _ (Keeps-raise_if _ _)
        λ _. guarded-Keeps (payments hash_payment c env key) (pay-Sound c env key) key q

  perform-Sound :
      (c : Context) (env : Env) (q : Request)
      → Keeps (OfWork Sound) (perform hash_issue hash_payment c env q)
  unfolding perform
  perform-Sound c env (quotation_of q) = search operations
  perform-Sound c env (quotation_status_of i s) = search operations
  perform-Sound c env (conversion_of i p) = search operations
  perform-Sound c env (order_of q) = search operations
  perform-Sound c env (confirmation_of i) = search operations
  perform-Sound c env (cancellation_of i) = search operations
  perform-Sound c env (fulfilment_of i p) = search operations
  perform-Sound c env (invoice_of q) = search operations
  perform-Sound c env (issue_of i key) = search (operations, issue_invoice-Sound)
  perform-Sound c env (payment_of q key) = search (operations, record_payment-Sound)
  perform-Sound c env (credit_note_of q) = search operations
  perform-Sound c env (books_of q) = search operations
  perform-Sound c env (stock_of q) = search operations
  perform-Sound c env (register_of q) = search operations

  -- Whatever is requested of a company, in any order, and whichever requests fail: its books, its
  -- stock and its VAT register keep their invariants; every quotation has at most one order, and
  -- one exactly when it is converted; what an order's line says to be fulfilled and invoiced, what
  -- an invoice's line says to be credited and what an invoice says to be paid are the sums of the
  -- rows that say so, within the quantity or the total; and an invoice's number and what is paid of
  -- it belong to its status; if all that holds at the start.
  pub serve-Sound :
      (qs : List (Context × Env × Request)) (s : Session Rows)
      → Sound s.rows.work
      → Sound (serve hash_issue hash_payment qs s).rows.work
  serve-Sound = serve_all-Keeps (perform hash_issue hash_payment) {P = OfWork Sound} perform-Sound
