-- ===== src/Accounting/Reports.antt =====
-- The reports of `AccountingService` and their query, `repository.trial_balance`. Sums of stored
-- money have its four places, so the quantization of a report changes nothing; the rows come in
-- the order of the chart. They read the books as the `_bootstrap` that each method begins with
-- leaves them.
pub mod Equation
pub mod Ledger
pub mod Sheet
use nexora_ai.Prelude.{
  ℕ, ◌≡◌, Bool, true, false, ◌&&◌, Option, none, some, List, [], ◌∷◌, ◌==◌, leb, if◌then◌else◌,
  is_empty, select_where, first,
}
use nexora_ai.Prelude.Int.{ℤ, pos, ◌+ℤ◌, ◌-ℤ◌, total, sum_from}
use nexora_ai.Session.{Date, date}
use nexora_ai.Accounting.Model.{
  AccountType, asset, liability, equity, revenue, expense, same_type, Account, FiscalPeriod,
  JournalEntry, JournalEntryLine, is_posted, Books, period_for_date,
}

-- `JournalEntry.status == "POSTED", JournalEntry.entry_date.between(start, end)`
abbrev pub in_window : Date → Date → JournalEntry → Bool
in_window start end e = is_posted e.status && (leb start e.entry_date && leb e.entry_date end)

-- The join of a line with its entry.
abbrev pub line_in_window : Date → Date → List JournalEntry → JournalEntryLine → Bool
line_in_window start end entries l = elim (first (λ e. l.journal_entry_id == e.id) entries) [
  | none ↦ false
  | some e ↦ in_window start end e
]

-- A row of the trial balance: an account, its debits and its credits.
abbrev pub TrialRow : Type 0
TrialRow = Account × ℤ × ℤ

abbrev pub lines_on : Account → List JournalEntryLine → List JournalEntryLine
lines_on a ls = select_where (λ l. a.id == l.account_id) ls

-- GROUP BY account: an account with no line in the window has no row.
abbrev pub trial_rows : List JournalEntryLine → List Account → List TrialRow
trial_rows ls [] = []
trial_rows ls (a ∷ rest) =
    let others = trial_rows ls rest in
    if is_empty (lines_on a ls)
    then others
    else (a, total (λ l. l.debit) (lines_on a ls), total (λ l. l.credit) (lines_on a ls)) ∷ others

unfoldable pub trial_balance : Date → Date → Books → List TrialRow
trial_balance start end b =
    trial_rows (select_where (line_in_window start end b.entries) b.lines) b.accounts

-- `[(account, amount) for account, debit, credit in rows if account.account_type == kind]`
abbrev pub rows_of : AccountType → (TrialRow → ℤ) → List TrialRow → List (Account × ℤ)
rows_of kind amount [] = []
rows_of kind amount (r ∷ rs) =
    let others = rows_of kind amount rs in
    if same_type r.0.account_type kind then (r.0, amount r) ∷ others else others

abbrev pub debit_less_credit : TrialRow → ℤ
debit_less_credit (a, debit, credit) = debit -ℤ credit

abbrev pub credit_less_debit : TrialRow → ℤ
credit_less_debit (a, debit, credit) = credit -ℤ debit

-- The revenue and the expense of a period.
unfoldable pub profit_and_loss : Date → Date → Books → List (Account × ℤ) × List (Account × ℤ)
unfolding trial_balance
profit_and_loss start end b =
    let rows = trial_balance start end b in
    (rows_of revenue credit_less_debit rows, rows_of expense debit_less_credit rows)

abbrev pub amount_of : Account × ℤ → ℤ
amount_of (a, amount) = amount

abbrev pub sum_rows : List (Account × ℤ) → ℤ
sum_rows = sum_from amount_of (pos 0)

pub record BalanceSheet : Type 0 where
  pub assets : List (Account × ℤ)
  pub liabilities : List (Account × ℤ)
  pub equity : List (Account × ℤ)
  pub current_year_earnings : ℤ

-- `date(1970, 1, 1)`
abbrev pub inception : Date
inception = 19_700_101

unfoldable pub balance_sheet : Date → Books → BalanceSheet
unfolding trial_balance
balance_sheet as_of b =
    let cumulative = trial_balance inception as_of b in
    let earnings_rows : List TrialRow = elim (period_for_date as_of b) [
      | none ↦ []
      | some period ↦ trial_balance period.start_date as_of b
    ] in
    record {
      assets = rows_of asset debit_less_credit cumulative;
      liabilities = rows_of liability credit_less_debit cumulative;
      equity = rows_of AccountType.equity credit_less_debit cumulative;
      current_year_earnings =
          sum_rows (rows_of revenue credit_less_debit earnings_rows)
          -ℤ sum_rows (rows_of expense debit_less_credit earnings_rows);
    }
