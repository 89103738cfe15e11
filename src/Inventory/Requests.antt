-- ===== src/Inventory/Requests.antt =====
-- The requests that reach `InventoryService`, each in a transaction of its own, one after another.
use nexora_ai.Prelude.{Bool, String, Option, List}
use nexora_ai.Session.{Uuid, Context, Env, Session, Tx, pure, ◌>>=◌}
use nexora_ai.Session.Served.{serve_all, serve_all-Keeps}
use nexora_ai.Session.Keeps.{Keeps, keeps_rules}
use nexora_ai.Inventory.Model.{Key, Stock}
use nexora_ai.Inventory.Movement.{Move, post_movement}
use nexora_ai.Inventory.Movement.Kept.{post_movement-IsStock}
use nexora_ai.Inventory.Operations.{
  MovementCreate, receive_stock, issue_stock, AdjustmentCreate, adjust, ReservationCreate, reserve,
  release,
}
use nexora_ai.Inventory.Expiry.{release_expired}
use nexora_ai.Inventory.Expiry.Kept.{release_expired-IsStock}
use nexora_ai.Inventory.Transfers.{TransferCreate, create_transfer, transition_transfer}
use nexora_ai.Inventory.Reconcile.{reconcile, reconcile-IsStock}
use nexora_ai.Inventory.Balances.{IsStock}
use nexora_ai.Inventory.Kept.{
  receive_stock-IsStock, issue_stock-IsStock, adjust-IsStock, create_transfer-IsStock,
  transition_transfer-IsStock,
}
use nexora_ai.Inventory.Reservations.Service.{reserve-IsStock, release-IsStock}

-- `document` is a movement that another module posts inside its own transaction.
pub data Request : Type 0 where
  receipt_of : MovementCreate → Option Key → Request
  issue_of : MovementCreate → Option Key → Request
  adjustment_of : AdjustmentCreate → Option Key → Request
  reservation_of : ReservationCreate → Request
  release_of : Uuid → Request
  expiry : Request
  transfer_of : TransferCreate → Request
  transition_of : Uuid → Bool → Option String → Request
  document : Move → Request
  reconciliation_of : Request

unfoldable pub perform : Context → Env → Request → Tx Stock Unit
perform c env (receipt_of q key) = receive_stock c env q key >>= λ _. pure tt
perform c env (issue_of q key) = issue_stock c env q key >>= λ _. pure tt
perform c env (adjustment_of q key) = adjust c env q key >>= λ _. pure tt
perform c env (reservation_of q) = reserve c env q >>= λ _. pure tt
perform c env (release_of i) = release i
perform c env expiry = release_expired env >>= λ _. pure tt
perform c env (transfer_of q) = create_transfer c env q >>= λ _. pure tt
perform c env (transition_of i receive key) = transition_transfer c env i receive key
perform c env (document r) = post_movement env r >>= λ _. pure tt
perform c env reconciliation_of = reconcile >>= λ _. pure tt

-- What is committed after the requests, whatever each of them answers.
abbrev pub serve : List (Context × Env × Request) → Session Stock → Session Stock
serve = serve_all perform

ruleset operations = (
  receive_stock-IsStock, issue_stock-IsStock, adjust-IsStock, reserve-IsStock, release-IsStock,
  release_expired-IsStock, create_transfer-IsStock, transition_transfer-IsStock,
  post_movement-IsStock, reconcile-IsStock,
)

pub perform-IsStock : (c : Context) (env : Env) (q : Request) → Keeps IsStock (perform c env q)
unfolding perform
perform-IsStock c env (receipt_of q key) = search (keeps_rules, operations)
perform-IsStock c env (issue_of q key) = search (keeps_rules, operations)
perform-IsStock c env (adjustment_of q key) = search (keeps_rules, operations)
perform-IsStock c env (reservation_of q) = search (keeps_rules, operations)
perform-IsStock c env (release_of i) = search (keeps_rules, operations)
perform-IsStock c env expiry = search (keeps_rules, operations)
perform-IsStock c env (transfer_of q) = search (keeps_rules, operations)
perform-IsStock c env (transition_of i receive key) = search (keeps_rules, operations)
perform-IsStock c env (document r) = search (keeps_rules, operations)
perform-IsStock c env reconciliation_of = search (keeps_rules, operations)

-- Whatever requests arrive, in any order, from any callers, at any times and with any identifiers
-- drawn, and whichever of them fail, the stock keeps its invariant: every cached balance is the sum
-- of its ledger rows, its reserved quantity is the sum of its active reservations, and no more is
-- reserved than is there unless the company allows negative stock.
pub serve-IsStock :
    (qs : List (Context × Env × Request)) (s : Session Stock)
    → IsStock s.rows
    → IsStock (serve qs s).rows
serve-IsStock = serve_all-Keeps perform perform-IsStock
