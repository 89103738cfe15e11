-- ===== src/Accounting/Reports/Ledger.antt =====
-- `general_ledger` with its two queries. An identifier of `uuid7` grows with time, so the lines of
-- one date come in the order in which they were inserted.
pub mod Closing
mod Sums
use nexora_ai.Prelude.{
  ℕ, Bool, true, false, ◌&&◌, ◌||◌, Option, none, some, List, [], ◌∷◌, ◌==◌, ltb, if◌then◌else◌,
  first, map, sort_by,
}
use nexora_ai.Prelude.Int.{ℤ, pos, ◌+ℤ◌, ◌-ℤ◌, neg, total}
use nexora_ai.Session.{
  Uuid, Date, Env, DocumentNumber, Tx, not_found, pure, or_raise, gets, ◌>>=◌, ◌>>◌,
}
use nexora_ai.Accounting.Model.{
  AccountType, liability, equity, revenue, same_type, Account, JournalEntry, JournalEntryLine,
  is_posted, Books, account,
}
use nexora_ai.Accounting.Bootstrap.{bootstrap}
use nexora_ai.Accounting.Reports.{in_window}

-- A line with its entry.
abbrev pub Joined : Type 0
Joined = JournalEntry × JournalEntryLine

-- The lines on one account whose entries pass a test.
abbrev pub joined_lines :
    Uuid → (JournalEntry → Bool) → List JournalEntry → List JournalEntryLine → List Joined
joined_lines i test entries [] = []
joined_lines i test entries (l ∷ ls) =
    let rest = joined_lines i test entries ls in
    elim (first (λ e. l.journal_entry_id == e.id) entries) [
      | none ↦ rest
      | some e ↦ if i == l.account_id && test e then (e, l) ∷ rest else rest
    ]

abbrev pub net_movement : Joined → ℤ
net_movement (e, l) = l.debit -ℤ l.credit

-- `je.status = 'POSTED' AND je.entry_date < :before`
abbrev pub is_before : Date → JournalEntry → Bool
is_before before e = is_posted e.status && ltb e.entry_date before

-- `general_ledger_opening_balance`
unfoldable pub opening_balance : Uuid → Date → Books → ℤ
opening_balance i before b =
    total net_movement (joined_lines i (is_before before) b.entries b.lines)

pub record LedgerLine : Type 0 where
  pub entry_number : Option DocumentNumber
  pub entry_date : Date
  pub debit : ℤ
  pub credit : ℤ
  pub running : ℤ

-- `:opening + SUM(…) OVER (ORDER BY … ROWS BETWEEN UNBOUNDED PRECEDING AND CURRENT ROW)`
abbrev pub running_from : ℤ → List Joined → List LedgerLine
running_from balance [] = []
running_from balance ((e, l) ∷ rows) =
    let next = balance +ℤ (l.debit -ℤ l.credit) in
    record {
      entry_number = e.entry_number;
      entry_date = e.entry_date;
      debit = l.debit;
      credit = l.credit;
      running = next;
    }
    ∷ running_from next rows

abbrev pub date_of : Joined → Date
date_of (e, l) = e.entry_date

-- `general_ledger_lines`
unfoldable pub ledger_lines : Uuid → Date → Date → ℤ → Books → List LedgerLine
ledger_lines i start end opening b =
    running_from opening (sort_by date_of (joined_lines i (in_window start end) b.entries b.lines))

-- `signed`: the sign of an account whose normal balance is on the credit side.
abbrev pub signed : AccountType → ℤ → ℤ
signed kind amount =
    if same_type kind liability || same_type kind AccountType.equity || same_type kind revenue
    then neg amount
    else amount

abbrev pub signed_line : AccountType → LedgerLine → LedgerLine
signed_line kind l = record l { running = signed kind l.running }

abbrev pub signed_lines : AccountType → List LedgerLine → List LedgerLine
signed_lines kind [] = []
signed_lines kind (l ∷ ls) = signed_line kind l ∷ signed_lines kind ls

-- `general_ledger`, after `_bootstrap`.
unfoldable pub read_ledger : Uuid → Date → Date → Tx Books (Account × ℤ × List LedgerLine)
unfolding ledger_lines opening_balance
read_ledger i start end = do
  found ← gets (account i)
  a ← or_raise found not_found
  opening ← gets (opening_balance i start)
  lines ← gets (ledger_lines i start end opening)
  pure (a, signed a.account_type opening, signed_lines a.account_type lines)

unfoldable pub general_ledger : Env → Uuid → Date → Date → Tx Books (Account × ℤ × List LedgerLine)
general_ledger env i start end = do bootstrap env; read_ledger i start end
