-- ===== src/Sales/Model/Rows.antt =====
-- The rows of `sales/models.py`. Quantities and rates count units of 10 ^ -6, a unit price too;
-- amounts count units of 10 ^ -4. A number `none` is one that is not allocated yet.
use nexora_ai.Prelude.{ℕ, String, Bool, true, false, Option, List}
use nexora_ai.Prelude.Int.{ℤ}
use nexora_ai.Session.{Uuid, Date, DocumentNumber}

pub data QuotationStatus : Type 0 where
  draft sent accepted rejected expired : QuotationStatus

pub data SalesOrderStatus : Type 0 where
  draft confirmed partially_fulfilled fulfilled cancelled : SalesOrderStatus

pub data InvoiceStatus : Type 0 where
  draft issued partially_paid paid cancelled : InvoiceStatus

pub data PaymentMethod : Type 0 where
  cash card bank_transfer mobile credit : PaymentMethod

abbrev pub quotation_code : QuotationStatus → ℕ
quotation_code draft = 0
quotation_code sent = 1
quotation_code accepted = 2
quotation_code rejected = 3
quotation_code expired = 4

abbrev pub order_code : SalesOrderStatus → ℕ
order_code draft = 0
order_code confirmed = 1
order_code partially_fulfilled = 2
order_code fulfilled = 3
order_code cancelled = 4

abbrev pub invoice_code : InvoiceStatus → ℕ
invoice_code draft = 0
invoice_code issued = 1
invoice_code partially_paid = 2
invoice_code paid = 3
invoice_code cancelled = 4

abbrev pub is_cash : PaymentMethod → Bool
is_cash cash = true
is_cash _ = false

-- `_LineTotals`, the columns of every priced line.
pub record LineTotals : Type 0 where
  pub quantity : ℤ
  pub unit_price : ℤ
  pub discount_rate : ℤ
  pub tax_rate : ℤ
  pub net_amount : ℤ
  pub tax_amount : ℤ
  pub total_amount : ℤ

pub record Quotation : Type 0 where
  pub id : Uuid
  pub quotation_number : Option DocumentNumber
  pub customer_id : Uuid
  pub branch_id : Uuid
  pub status : QuotationStatus
  pub issue_date : Date
  pub valid_until : Option Date
  pub net_amount : ℤ
  pub tax_amount : ℤ
  pub total_amount : ℤ
  pub converted_order_id : Option Uuid

pub record QuotationLine : Type 0 where
  pub id : Uuid
  pub quotation_id : Uuid
  pub product_id : Uuid
  pub totals : LineTotals

pub record SalesOrder : Type 0 where
  pub id : Uuid
  pub order_number : Option DocumentNumber
  pub customer_id : Uuid
  pub branch_id : Uuid
  pub warehouse_id : Uuid
  pub quotation_id : Option Uuid
  pub status : SalesOrderStatus
  pub order_date : Date
  pub net_amount : ℤ
  pub tax_amount : ℤ
  pub total_amount : ℤ

pub record SalesOrderLine : Type 0 where
  pub id : Uuid
  pub sales_order_id : Uuid
  pub product_id : Uuid
  pub totals : LineTotals
  pub fulfilled_quantity : ℤ
  pub invoiced_quantity : ℤ

pub record Fulfillment : Type 0 where
  pub id : Uuid
  pub fulfillment_number : Option DocumentNumber
  pub sales_order_id : Uuid
  pub warehouse_id : Uuid
  pub shipped_on : Date

pub record FulfillmentLine : Type 0 where
  pub id : Uuid
  pub fulfillment_id : Uuid
  pub sales_order_line_id : Uuid
  pub product_id : Uuid
  pub quantity : ℤ

pub record Invoice : Type 0 where
  pub id : Uuid
  pub invoice_number : Option DocumentNumber
  pub customer_id : Uuid
  pub branch_id : Uuid
  pub sales_order_id : Option Uuid
  pub status : InvoiceStatus
  pub issue_date : Date
  pub due_date : Option Date
  pub net_amount : ℤ
  pub tax_amount : ℤ
  pub total_amount : ℤ
  pub paid_amount : ℤ

pub record InvoiceLine : Type 0 where
  pub id : Uuid
  pub invoice_id : Uuid
  pub product_id : Uuid
  pub sales_order_line_id : Option Uuid
  pub totals : LineTotals
  pub credited_quantity : ℤ

-- An INBOUND row of `payments`: a customer's.
pub record Payment : Type 0 where
  pub id : Uuid
  pub payment_number : Option DocumentNumber
  pub customer_id : Uuid
  pub branch_id : Uuid
  pub method : PaymentMethod
  pub amount : ℤ
  pub allocated_amount : ℤ
  pub payment_date : Date
  pub idempotency_key : Option String

pub record PaymentAllocation : Type 0 where
  pub id : Uuid
  pub payment_id : Uuid
  pub invoice_id : Option Uuid
  pub supplier_bill_id : Option Uuid
  pub amount : ℤ

-- A credit note is written as ISSUED.
pub record CreditNote : Type 0 where
  pub id : Uuid
  pub credit_note_number : Option DocumentNumber
  pub invoice_id : Uuid
  pub customer_id : Uuid
  pub branch_id : Uuid
  pub issue_date : Date
  pub reason : String
  pub restock : Bool
  pub warehouse_id : Option Uuid
  pub net_amount : ℤ
  pub tax_amount : ℤ
  pub total_amount : ℤ

pub record CreditNoteLine : Type 0 where
  pub id : Uuid
  pub credit_note_id : Uuid
  pub invoice_line_id : Uuid
  pub product_id : Uuid
  pub totals : LineTotals

pub record Sales : Type 0 where
  pub quotations : List Quotation
  pub quotation_lines : List QuotationLine
  pub orders : List SalesOrder
  pub order_lines : List SalesOrderLine
  pub fulfillments : List Fulfillment
  pub fulfillment_lines : List FulfillmentLine
  pub invoices : List Invoice
  pub invoice_lines : List InvoiceLine
  pub payments : List Payment
  pub allocations : List PaymentAllocation
  pub credit_notes : List CreditNote
  pub credit_note_lines : List CreditNoteLine
