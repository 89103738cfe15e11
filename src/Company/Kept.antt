-- ===== src/Company/Kept.antt =====
-- What a method keeps of a company: each service keeps its own part, and leaves the others.
use nexora_ai.Prelude.{ℕ, ◌≡◌, Option, some, String, [], Option-cases, inl, inr}
use nexora_ai.Session.{Uuid, Context, Env, Failure, Tx, or_raise, gets, require_branch, ◌>>=◌}
use nexora_ai.Session.Keeps.{Keeps, keeps_rules}
use nexora_ai.Session.Takes.{
  Takes, Takes-Keeps, Keeps-Takes, Takes-within, Takes-found, Takes-weaken,
}
use nexora_ai.Numbering.{allocate, prefix_of}
use nexora_ai.Accounting.Model.{Books}
use nexora_ai.Accounting.Bootstrap.Kept.{Holds}
use nexora_ai.Accounting.Post.{post}
use nexora_ai.Accounting.Service.Kept.{post-Holds}
use nexora_ai.Accounting.Post.Charted.{map_ids}
use nexora_ai.Inventory.Model.{Stock}
use nexora_ai.Inventory.Balances.{IsStock}
use nexora_ai.Vat.Model.{Register}
use nexora_ai.Vat.Filed.{IsRegister}
use nexora_ai.Company.{
  Company, in_books, in_stock, in_register, in_documents, get_product, require_warehouse, Event,
  event_posting, post_event,
}

-- The invariants of the services, and one of the documents.
pub record Stands {D : Type 0} (R : D → Type 0) (c : Company D) : Type 0 where
  pub books : Holds [] c.books
  pub stock : IsStock c.stock
  pub register : IsRegister c.register
  pub documents : R c.documents

pub allocate-Keeps :
    {S : Type 0} {P : S → Type 0} (series : String) (period : ℕ)
    → Keeps P (allocate {S = S} series period)
unfolding allocate
allocate-Keeps {P = P} series period = record {
  at = λ s h. elim (Option-cases (prefix_of series)) [ inl n ↦ rw n tt | inr (p, e) ↦ rw e h ];
}

event-Kept : (c : Context) (env : Env) (e : Event) → Keeps (Holds []) (post c env (event_posting e))
unfolding map_ids event_posting
event-Kept c env e = post-Holds c env (event_posting e)

module _ {D : Type 0} {R : D → Type 0} where
  pub in_books-Stands :
      {A : Type 0} (m : Tx Books A) → Keeps (Holds []) m → Keeps (Stands R) (in_books {D = D} m)
  unfolding in_books
  in_books-Stands m k = Takes-Keeps _ (
      Takes-within _ _ (Holds []) (Holds []) (Stands R) (Stands R) (λ b h. h.books)
        (λ t b h q. record {
          books = q;
          stock = h.stock;
          register = h.register;
          documents = h.documents;
        })
        m (Keeps-Takes m k))

  pub in_stock-Stands :
      {A : Type 0} (m : Tx Stock A) → Keeps IsStock m → Keeps (Stands R) (in_stock {D = D} m)
  unfolding in_stock
  in_stock-Stands m k = Takes-Keeps _ (
      Takes-within _ _ IsStock IsStock (Stands R) (Stands R) (λ b h. h.stock)
        (λ t b h q. record {
          books = h.books;
          stock = q;
          register = h.register;
          documents = h.documents;
        })
        m (Keeps-Takes m k))

  pub in_register-Stands :
      {A : Type 0} (m : Tx Register A)
      → Keeps IsRegister m
      → Keeps (Stands R) (in_register {D = D} m)
  unfolding in_register
  in_register-Stands m k = Takes-Keeps _ (
      Takes-within _ _ IsRegister IsRegister (Stands R) (Stands R) (λ b h. h.register)
        (λ t b h q. record {
          books = h.books;
          stock = h.stock;
          register = q;
          documents = h.documents;
        })
        m (Keeps-Takes m k))

  pub in_documents-Takes :
      {A : Type 0} (Q : D → Type 0) (m : Tx D A)
      → Takes R Q m
      → Takes (Stands R) (Stands Q) (in_documents m)
  unfolding in_documents
  in_documents-Takes Q m k =
      Takes-within _ _ R Q (Stands R) (Stands Q) (λ b h. h.documents)
        (λ t b h q. record {
          books = h.books;
          stock = h.stock;
          register = h.register;
          documents = q;
        })
        m k

  pub in_documents-Stands :
      {A : Type 0} (m : Tx D A) → Keeps R m → Keeps (Stands R) (in_documents m)
  in_documents-Stands m k = Takes-Keeps _ (in_documents-Takes R m (Keeps-Takes m k))

  pub get_product-Stands : (i : Uuid) → Keeps (Stands R) (get_product {D = D} i)
  unfolding get_product
  get_product-Stands i = search keeps_rules

  pub require_warehouse-Stands :
      (c : Context) (b w : Uuid) → Keeps (Stands R) (require_warehouse {D = D} c b w)
  unfolding require_warehouse require_branch
  require_warehouse-Stands c b w = search keeps_rules depth 9

  pub post_event-Stands :
      (c : Context) (env : Env) (e : Event) → Keeps (Stands R) (post_event {D = D} c env e)
  unfolding post_event
  post_event-Stands c env e = search (keeps_rules, in_books-Stands _ (event-Kept c env e))

-- A row of the documents that is read and must be there.
pub Takes-document :
    {D A B : Type 0} (R : D → Type 0) (Q : Company D → Type 0) (f : D → Option A) (e : Failure)
    (g : A → Tx (Company D) B)
    → ((a : A) → Takes (Stands (λ d. R d × (f d ≡ some a))) Q (g a))
    → Takes (Stands R) Q (gets (λ c. f c.documents) >>= λ o. or_raise o e >>= g)
Takes-document R Q f e g k =
    Takes-found (λ c. f c.documents) e g
      λ a.
        Takes-weaken _ (g a)
          (λ b h. record {
            books = h.0.books;
            stock = h.0.stock;
            register = h.0.register;
            documents = (h.0.documents, h.1);
          })
          (k a)

-- What is more than the invariant may be forgotten.
pub Stands-map :
    {D : Type 0} (R Q : D → Type 0)
    → ((d : D) → R d → Q d)
    → (c : Company D) → Stands R c
    → Stands Q c
Stands-map R Q k c h = record {
  books = h.books;
  stock = h.stock;
  register = h.register;
  documents = k c.documents h.documents;
}
