-- ===== src/Vat.antt =====
-- `modules/vat`: prices with and without VAT, dated rates, the register and the periodic returns.
pub mod Filed
pub mod Grouping
pub mod Model
pub mod Pricing
pub mod Rates
pub mod Register
pub mod Requests
pub mod Reversal
pub mod Returns
mod Tests
