-- ===== src/Sales/Model.antt =====
-- The tables of the sales.
mod Rows
mod Tables
pub use Rows.*
unfoldable pub use Tables.*
