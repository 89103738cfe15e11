-- ===== src/Sales.antt =====
-- `modules/sales`: quotation, order, fulfillment, invoice, payment and credit note, with the books,
-- the stock and the VAT register that they reach in the same transaction.
pub mod Lines
pub mod Model
pub mod Quotations
pub mod Requests
mod Tests
pub mod Orders
pub mod Fulfil
pub mod Invoices
pub mod Payments
pub mod CreditNotes
pub mod Invariant
pub mod Kept
pub mod Converted
