-- ===== src/Sales/Tests.antt =====
-- The theorems on sales at a company that sells three pieces of one product.
use nexora_ai.Session.Served.{serve_all}
use nexora_ai.Prelude.{String, ◌+◌, ◌≡◌, refl, true, false, none, some, List, [], ◌∷◌, ◌++◌, map}
use nexora_ai.Prelude.Int.{pos, ◌+ℤ◌, ◌-ℤ◌, ◌*ℤ◌, neg}
use nexora_ai.Decimal.{round_half_up, half_up, to_amount, scale_up, to_money}
use nexora_ai.Session.{
  Uuid, Context, Env, Session, ok, err, audit, require_branch, may_use_branch, service_transaction,
  Failure,
}
use nexora_ai.Numbering.{allocate, upsert, prefix_of}
use nexora_ai.Accounting.Model.{
  Books, insert_account, insert_period, insert_entry, insert_line, insert_lines, lines_of,
  period_for_date,
}
use nexora_ai.Accounting.Bootstrap.{
  bootstrap, add_defaults, add_default, add_journal, fiscal_year, days_in_month,
}
use nexora_ai.Accounting.PostingRules.{
  credit_sale, customer_payment, cogs_recognition, sales_return,
}
use nexora_ai.Accounting.Post.{
  post, post_balanced, require_period, enter, resolve, system_accounts, enter_resolved, account_for,
  write_entry, finish_entry, check_journal_balanced,
}
use nexora_ai.Inventory.Model.{Stock, Product, receipt, insert_movement}
use nexora_ai.Inventory.Movement.{
  Move, balance_for_update, post_movement, post_or_replay, post_new, write_movement,
  existing_movement, divide,
}
use nexora_ai.Inventory.Requests.{perform as perform_stock, document}
use nexora_ai.Vat.Model.{insert_transaction}
use nexora_ai.Vat.Grouping.{group_taxable_lines, grouped, add_line}
use nexora_ai.Vat.Pricing.{line_totals}
use nexora_ai.Vat.Register.{record_taxed}
use nexora_ai.Idempotency.{
  claim, claim_or_replay, replay_key, complete, guarded, do_work, answer, answer_stored,
}
use nexora_ai.Company.{
  Company, event_posting, get_product, in_books, in_documents, in_register, in_stock, post_event,
  require_warehouse,
}
use nexora_ai.Session.{date}
use nexora_ai.Sales.Model.{
  Sales, SalesOrder, accepted, cancelled, cash, insert_credit_note, insert_fulfillment,
  insert_invoice, insert_order_line, insert_payment, insert_quotation, insert_quotation_line,
  insert_row, sent,
}
use nexora_ai.Sales.Lines.{plus_line, totals_for}
use nexora_ai.Sales.Quotations.{
  QuotationConvert, QuotationCreate, add_quotation_lines, convert, convert_quotation, copy_lines,
  create_quotation, set_quotation_status, write_conversion,
}
use nexora_ai.Sales.Orders.{confirm_order}
use nexora_ai.Sales.Fulfil.{
  all_outstanding, fulfil, fulfil_line, fulfil_lines, fulfil_requested, post_fulfillment,
  requested_of, ship, ship_line, write_fulfilled,
}
use nexora_ai.Sales.Invoices.{
  answer_issue, bill, bill_line, bill_lines, create_invoice, issue, issue_and_complete, issue_draft,
  issue_invoice, post_invoice, record_groups, record_vat_for_invoice, write_invoiced,
}
use nexora_ai.Sales.Payments.{
  PaymentCreate, allocate_all, allocate_payable, allocate_to, allocate_within, apply_allocation,
  pay, payments, post_payment, record_payment, write_allocation,
}
use nexora_ai.Sales.CreditNotes.{
  check_warehouse, credit_invoice, credit_line_of, credit_lines, issue_credit_note, post_cost,
  post_credit_note, put_back, restock_line, take_back, write_credited,
}
use nexora_ai.Sales.Kept.{Sound}
use nexora_ai.Sales.Converted.{convert_again}
use nexora_ai.Sales.Requests.{
  Request, Rows, confirmation_of, conversion_of, credit_note_of, fulfilment_of, invoice_of,
  issue_of, payment_of, perform, quotation_of, quotation_status_of, serve, serve-Sound, stock_of,
}

abbrev caller : Context
caller = record { membership_id = 7; permissions = []; branch_ids = none }

abbrev clock : Env
clock = record { uuid7 = λ n. n + 100; now = 50; today = 20_260_315 }

abbrev tea : Product
tea = record {
  id = 9;
  is_live = true;
  is_stock_tracked = true;
  precision = 2;
  cost_price = pos 2_000_000;
}

abbrev no_books : Books
no_books = record {
  accounts = [];
  journal = none;
  periods = [];
  entries = [];
  lines = [];
  fiscal_year_start_month = 7;
}

abbrev no_stock : Stock
no_stock = record {
  warehouses = record { id = 1; branch_id = 5; is_live = true } ∷ [];
  products = tea ∷ [];
  balances = [];
  movements = [];
  reservations = [];
  transfers = [];
  transfer_lines = [];
  adjustments = [];
  allow_negative_inventory = false;
}

abbrev no_sales : Sales
no_sales = record {
  quotations = [];
  quotation_lines = [];
  orders = [];
  order_lines = [];
  fulfillments = [];
  fulfillment_lines = [];
  invoices = [];
  invoice_lines = [];
  payments = [];
  allocations = [];
  credit_notes = [];
  credit_note_lines = [];
}

abbrev founded : Company Sales
founded = record {
  books = no_books;
  stock = no_stock;
  register = record { rates = []; transactions = []; returns = [] };
  documents = no_sales;
}

abbrev opened : Session Rows
opened = record {
  rows = record { keys = []; work = founded };
  sequences = [];
  audit_rows = [];
  drawn = 0;
}

founded-Sound : Sound founded
founded-Sound = record {
  books =
      (record { accounts_distinct = tt; entries_distinct = tt; placed = tt; balanced = tt }, tt);
  stock = record {
    counted = tt;
    unmoved = λ w p n. refl;
    unheld = λ w p n. refl;
    reservations_distinct = tt;
    positive = tt;
  };
  register = record { returns_distinct = tt; stated = tt; unknown = λ i h. refl };
  documents = record {
    converted = record { distinct = tt; owned = tt; counted = tt };
    fulfilled = record { distinct = tt; owned = tt; counted = tt };
    invoiced = record { distinct = tt; owned = tt; counted = tt };
    credited = record { distinct = tt; owned = tt; counted = tt };
    paid = record { distinct = tt; owned = tt; counted = tt };
    stated = tt;
  };
}

-- Ten pieces arrive at 3.00.
abbrev ten : Move
ten = record {
  warehouse_id = 1;
  item = tea;
  movement_type = receipt;
  quantity = pos 10_000_000;
  unit_cost = some (pos 3_000_000);
  reference_type = none;
  reference_id = none;
  idempotency_key = none;
}

-- Three pieces at 10.00 with a tax of 15 %.
abbrev three : QuotationCreate
three = record {
  customer_id = 30;
  branch_id = 5;
  issue_date = 20_260_310;
  valid_until = none;
  lines =
      record {
        product_id = 9;
        quantity = pos 3_000_000;
        unit_price = pos 10_000_000;
        discount_rate = pos 0;
        tax_rate = pos 150_000;
      }
      ∷ [];
}

abbrev hash_issue : Uuid → String
hash_issue i = "issue"

abbrev hash_payment : PaymentCreate → String
hash_payment q = "payment"

abbrev quote : List Request
quote =
    stock_of (document ten)
    ∷ quotation_of three
    ∷ quotation_status_of 101 sent
    ∷ quotation_status_of 101 accepted
    ∷ []

abbrev conversion : QuotationConvert
conversion = record { warehouse_id = 1; order_date = 20_260_311 }

abbrev sell : List Request
sell = quote ++ conversion_of 101 conversion ∷ confirmation_of 103 ∷ fulfilment_of 103 none ∷ []

abbrev bill_it : List Request
bill_it =
    sell
    ++ invoice_of (record {
      sales_order_id = 103;
      issue_date = 20_260_312;
      due_date = none;
      invoice_fulfilled_only = true;
    })
      ∷ []

abbrev ask : List Request → List (Context × Env × Request)
ask [] = []
ask (q ∷ qs) = (caller, clock, q) ∷ ask qs

-- What the requests of the caller leave of an empty company.
abbrev ran : List Request → Session Rows
ran qs = serve hash_issue hash_payment (ask qs) opened

-- The invoice is issued, credited in full, and then paid in full.
abbrev settle : List Request
settle =
    bill_it
    ++ issue_of 135 "k-1"
      ∷ credit_note_of (record {
        invoice_id = 135;
        issue_date = 20_260_313;
        reason = "RETURN";
        restock = true;
        warehouse_id = some 1;
        lines = record { invoice_line_id = 136; quantity = pos 3_000_000 } ∷ [];
      })
      ∷ payment_of
          (record {
            customer_id = 30;
            branch_id = 5;
            method = cash;
            amount = pos 345_000;
            payment_date = 20_260_314;
            allocations = record { invoice_id = 135; amount = pos 345_000 } ∷ [];
          })
          (some "k-2")
      ∷ []

serve-Sound_example : Sound (ran settle).rows.work
serve-Sound_example = serve-Sound hash_issue hash_payment (ask settle) opened founded-Sound

-- What a credit note takes back is still taken as payment: the invoice of 34.50 is credited in full
-- and paid in full.
overpaid :
    (map (λ v. v.paid_amount) (ran settle).rows.work.documents.invoices ≡ pos 345_000 ∷ [])
    × (map (λ n. n.total_amount) (ran settle).rows.work.documents.credit_notes ≡ pos 345_000 ∷ [])
unfolding serve_all service_transaction perform perform_stock in_stock in_documents in_books
    in_register post_movement post_or_replay post_new write_movement balance_for_update divide
    round_half_up half_up existing_movement insert_movement insert_row audit allocate upsert
    prefix_of create_quotation add_quotation_lines get_product require_branch may_use_branch
    insert_quotation insert_quotation_line totals_for plus_line line_totals set_quotation_status
    convert_quotation convert copy_lines write_conversion insert_order_line require_warehouse
    confirm_order fulfil requested_of all_outstanding fulfil_requested insert_fulfillment
    fulfil_lines fulfil_line ship_line ship write_fulfilled post_fulfillment post_event
    event_posting cogs_recognition post bootstrap add_defaults add_default insert_account
    add_journal insert_period fiscal_year days_in_month post_balanced period_for_date require_period
    enter resolve account_for system_accounts enter_resolved write_entry insert_entry insert_lines
    insert_line finish_entry check_journal_balanced lines_of to_money date create_invoice bill_lines
    bill_line bill write_invoiced insert_invoice issue_invoice claim claim_or_replay replay_key
    answer_issue issue_and_complete issue issue_draft complete post_invoice credit_sale
    record_vat_for_invoice group_taxable_lines grouped add_line record_groups record_taxed
    insert_transaction to_amount scale_up issue_credit_note check_warehouse credit_invoice
    credit_lines credit_line_of take_back write_credited restock_line put_back insert_credit_note
    post_credit_note post_cost sales_return record_payment payments guarded answer answer_stored
    do_work pay insert_payment allocate_all allocate_to allocate_payable allocate_within
    apply_allocation write_allocation post_payment customer_payment ◌+ℤ◌ ◌-ℤ◌ ◌*ℤ◌ neg
overpaid = (refl, refl)

-- The quotation is accepted, and then converted.
abbrev before : Session (Company Sales)
before = record {
  rows = (ran quote).rows.work;
  sequences = (ran quote).sequences;
  audit_rows = (ran quote).audit_rows;
  drawn = (ran quote).drawn;
}

abbrev blank : SalesOrder
blank = record {
  id = 0;
  order_number = none;
  customer_id = 0;
  branch_id = 0;
  warehouse_id = 0;
  quotation_id = none;
  status = cancelled;
  order_date = 0;
  net_amount = pos 0;
  tax_amount = pos 0;
  total_amount = pos 0;
}

converted : SalesOrder × Session (Company Sales)
converted = elim (convert_quotation caller clock 101 conversion before) [
  | ok u ↦ u
  | err e ↦ (blank, before)
]

converted_lem : convert_quotation caller clock 101 conversion before ≡ ok converted
unfolding converted serve_all service_transaction perform perform_stock in_stock in_documents
    post_movement post_or_replay post_new write_movement balance_for_update divide round_half_up
    half_up existing_movement insert_movement insert_row audit allocate upsert prefix_of
    create_quotation add_quotation_lines get_product require_branch may_use_branch insert_quotation
    insert_quotation_line totals_for plus_line line_totals set_quotation_status convert_quotation
    convert copy_lines write_conversion insert_order_line require_warehouse ◌+ℤ◌ ◌-ℤ◌ ◌*ℤ◌ neg
converted_lem = refl

convert_again_example :
    (e : Failure) × (convert_quotation caller clock 101
        (record { warehouse_id = 1; order_date = 20_260_312 })
        converted.1
      ≡ err e)
convert_again_example =
    convert_again caller caller clock clock 101 conversion
      (record { warehouse_id = 1; order_date = 20_260_312 }) converted.0 before converted.1
      converted.1 (serve-Sound hash_issue hash_payment (ask quote) opened founded-Sound)
      converted_lem refl
