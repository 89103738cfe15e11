-- ===== src/Inventory.antt =====
-- `inventory/service.py`: the stock ledger, its balances, reservations and transfers.
pub mod Balances
pub mod Expiry
pub mod Kept
pub mod Model
pub mod Movement
pub mod Operations
pub mod Reconcile
pub mod Reservations
pub mod Requests
mod Tests
pub mod Transfers
