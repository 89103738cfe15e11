-- ===== src/Accounting/Invariant.antt =====
-- What holds of the books whatever is posted: the keys are distinct, each line stands on a known
-- account and a known entry, and each entry is posted, balanced and of the figures of its header.
use nexora_ai.Prelude.{◌≡◌, ◌≢◌, true, List, ◌==◌, All, is_some, select_where}
use nexora_ai.Prelude.Int.{pos, total}
use nexora_ai.Prelude.Groups.{Distinct, find}
use nexora_ai.Session.{Uuid}
use nexora_ai.Accounting.Model.{
  Account, JournalEntry, JournalEntryLine, is_posted, Books, exactly_one_side,
}

abbrev pub account_id : Account → Uuid
account_id a = a.id

abbrev pub entry_id : JournalEntry → Uuid
entry_id e = e.id

abbrev pub entry_lines : List JournalEntryLine → JournalEntry → List JournalEntryLine
entry_lines ls e = select_where (λ l. e.id == l.journal_entry_id) ls

-- An entry, among all lines: what the columns of its own lines come to.
pub record IsPosted (ls : List JournalEntryLine) (e : JournalEntry) : Type 0 where
  pub status : is_posted e.status ≡ true
  pub debits : total (λ l. l.debit) (entry_lines ls e) ≡ e.total_debit
  pub credits : total (λ l. l.credit) (entry_lines ls e) ≡ e.total_credit
  pub equal : e.total_debit ≡ e.total_credit
  pub nonzero : e.total_debit ≢ pos 0

-- A line has an account and an entry, and an amount on one side only.
pub record IsPlaced (accounts : List Account) (entries : List JournalEntry) (l : JournalEntryLine)
    : Type 0 where
  pub on_account : is_some (find account_id l.account_id accounts) ≡ true
  pub in_entry : is_some (find entry_id l.journal_entry_id entries) ≡ true
  pub one_side : exactly_one_side l ≡ true

pub record IsBooks (b : Books) : Type 0 where
  pub accounts_distinct : Distinct account_id b.accounts
  pub entries_distinct : Distinct entry_id b.entries
  pub placed : All (IsPlaced b.accounts b.entries) b.lines
  pub balanced : All (IsPosted b.lines) b.entries
