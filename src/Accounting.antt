-- ===== src/Accounting.antt =====
-- `modules/accounting`: the chart of accounts, fiscal periods and the double-entry journal.
pub mod Model
mod Tests
pub mod Bootstrap
pub mod Post
pub mod Invariant
pub mod PostingRules
pub mod Reports
pub mod Service
pub mod Requests
