-- ===== src/Company.antt =====
-- A company's rows as a transaction of one module sees them: the books, the stock and the VAT
-- register beside the module's own documents, `D`. A call of another service, which shares the
-- session of its caller, works on its part.
pub mod Kept
use nexora_ai.Prelude.{String, Bool, false, ◌==◌, not, Option, none, List, first}
use nexora_ai.Session.{
  Uuid, Date, Context, Env, Tx, pure, within, ok, err, not_found, domain_validation, raise_if,
  or_raise, gets, require_branch, ◌>>=◌, ◌>>◌,
}
use nexora_ai.Accounting.Model.{Books}
use nexora_ai.Accounting.Post.{Posting, post}
use nexora_ai.Accounting.PostingRules.{PostingLine}
use nexora_ai.Inventory.Model.{Stock, Product, Warehouse}
use nexora_ai.Vat.Model.{Register}

pub record Company (D : Type 0) : Type 0 where
  pub books : Books
  pub stock : Stock
  pub register : Register
  pub documents : D

-- The arguments that the documents give to `AccountingService.post`.
pub record Event : Type 0 where
  pub entry_date : Date
  pub source_type : String
  pub source_id : Uuid
  pub event_type : String
  pub lines : List PostingLine

unfoldable pub event_posting : Event → Posting
event_posting e = record {
  entry_date = e.entry_date;
  source_type = e.source_type;
  source_id = e.source_id;
  event_type = e.event_type;
  lines = e.lines;
  allow_closed = false;
  account_map = none;
}

module _ {D : Type 0} where
  unfoldable pub in_books : {A : Type 0} → Tx Books A → Tx (Company D) A
  in_books m = within (λ c. c.books) (λ b c. record c { books = b }) m

  unfoldable pub in_stock : {A : Type 0} → Tx Stock A → Tx (Company D) A
  in_stock m = within (λ c. c.stock) (λ b c. record c { stock = b }) m

  unfoldable pub in_register : {A : Type 0} → Tx Register A → Tx (Company D) A
  in_register m = within (λ c. c.register) (λ b c. record c { register = b }) m

  unfoldable pub in_documents : {A : Type 0} → Tx D A → Tx (Company D) A
  in_documents m = within (λ c. c.documents) (λ b c. record c { documents = b }) m

  -- `session.get(Product, …)` and `session.get(Warehouse, …)` find what is marked as deleted too.
  abbrev pub product_row : Uuid → Company D → Option Product
  product_row i c = first (λ p. i == p.id) c.stock.products

  abbrev pub warehouse_row : Uuid → Company D → Option Warehouse
  warehouse_row i c = first (λ w. i == w.id) c.stock.warehouses

  -- `_product`
  unfoldable pub get_product : Uuid → Tx (Company D) Product
  get_product i = do found ← gets (product_row i); or_raise found not_found

  -- `_require_warehouse`
  unfoldable pub require_warehouse : Context → Uuid → Uuid → Tx (Company D) Unit
  unfolding require_branch
  require_warehouse c branch_id warehouse_id = do
    require_branch c branch_id
    found ← gets (warehouse_row warehouse_id)
    w ← or_raise found not_found
    raise_if (not (w.branch_id == branch_id)) (domain_validation "WAREHOUSE_BRANCH_MISMATCH")

  unfoldable pub post_event : Context → Env → Event → Tx (Company D) Unit
  unfolding in_books event_posting
  post_event c env e = in_books (post c env (event_posting e)) >>= λ _. pure tt
