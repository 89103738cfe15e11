-- ===== src/Accounting/Reports/Equation.antt =====
-- The trial balance balances, and the accounting equation holds over any window of dates.
use nexora_ai.Prelude.{
  ◌≡◌, refl, sym, ap, ◌∙◌, true, List, [], ◌∷◌, arith, All, All-map, is_some, is_empty,
  if◌then◌else◌, select_where, Option-cases, inl, inr,
}
use nexora_ai.Prelude.Int.{ℤ, ◌+ℤ◌, total, zero_+ℤ}
use nexora_ai.Prelude.Rows.{All-select}
use nexora_ai.Prelude.Groups.{Distinct, find, regroup, group, weighed}
use nexora_ai.Session.{Date}
use nexora_ai.Accounting.Model.{Account, JournalEntry, JournalEntryLine, Books}
use nexora_ai.Accounting.Invariant.{IsBooks, IsPosted, IsPlaced, account_id, entry_id}
use nexora_ai.Accounting.Reports.{
  in_window, line_in_window, TrialRow, lines_on, trial_rows, trial_balance,
}

module _ (f : JournalEntryLine → ℤ) where
  -- The rows of the trial balance sum to the groups, empty ones or not.
  abbrev on_account : List JournalEntryLine → Account → ℤ
  on_account ls a = total f (lines_on a ls)

  total-weighed_known :
      (accounts : List Account) (ls : List JournalEntryLine)
      → All (λ l. is_some (find account_id l.account_id accounts) ≡ true) ls
      → total (weighed account_id (λ l. l.account_id) (λ _. true) f accounts) ls ≡ total f ls
  total-weighed_known accounts [] known = refl
  total-weighed_known accounts (l ∷ ls) known =
      elim (Option-cases (find account_id l.account_id accounts)) [
        | inl e ↦ cc (known.0, ap (is_some {A = Account}) e)
        | inr (a, e) ↦ ground (arith, e, total-weighed_known accounts ls known.1)
      ]

  -- With every line's account in the chart nothing is lost by the grouping.
  total-on_account :
      (accounts : List Account) (ls : List JournalEntryLine)
      → Distinct account_id accounts
      → All (λ l. is_some (find account_id l.account_id accounts) ≡ true) ls
      → total (on_account ls) accounts ≡ total f ls
  total-on_account accounts ls d known =
      regroup account_id (λ l. l.account_id) (λ _. true) f accounts ls d
      ∙ total-weighed_known accounts ls known

  total-window :
      (start end : Date) (entries : List JournalEntry) (ls : List JournalEntryLine)
      → total f (select_where (line_in_window start end entries) ls)
        ≡ total (weighed entry_id (λ l. l.journal_entry_id) (in_window start end) f entries) ls
  total-window start end entries [] = refl
  total-window start end entries (l ∷ ls) = ground (
    arith,
    total-window start end entries ls,
    zero_+ℤ (total f (select_where (line_in_window start end entries) ls)),
  )

abbrev pub debit : JournalEntryLine → ℤ
debit l = l.debit

abbrev pub credit : JournalEntryLine → ℤ
credit l = l.credit

-- An entry weighs the same on both sides.
total-group_sides :
    (start end : Date) (ls : List JournalEntryLine) (entries : List JournalEntry)
    → All (IsPosted ls) entries
    → total (group entry_id (λ l. l.journal_entry_id) (in_window start end) debit ls) entries
      ≡ total (group entry_id (λ l. l.journal_entry_id) (in_window start end) credit ls) entries
total-group_sides start end ls [] h = refl
total-group_sides start end ls (e ∷ es) h =
    let x = h.0 in
    let same = x.debits ∙ x.equal ∙ sym x.credits in
    rw (total-group_sides start end ls es h.1, same) refl

-- In any window the debits of the lines are the credits of the lines.
window_sides :
    (start end : Date) (b : Books)
    → IsBooks b
    → let ls = select_where (line_in_window start end b.entries) b.lines in
      total debit ls ≡ total credit ls
window_sides start end b h =
    total-window debit start end b.entries b.lines
    ∙ sym (
        regroup entry_id (λ l. l.journal_entry_id) (in_window start end) debit b.entries b.lines
          h.entries_distinct)
    ∙ total-group_sides start end b.lines b.entries h.balanced
    ∙ regroup entry_id (λ l. l.journal_entry_id) (in_window start end) credit b.entries b.lines
        h.entries_distinct
    ∙ sym (total-window credit start end b.entries b.lines)

abbrev pub debit_column : TrialRow → ℤ
debit_column (a, d, c) = d

abbrev pub credit_column : TrialRow → ℤ
credit_column (a, d, c) = c

-- A row that GROUP BY leaves out would have held zeros.
row_columns :
    (a : Account) (xs : List JournalEntryLine) (others : List TrialRow)
    → let rows = if is_empty xs then others else (a, total debit xs, total credit xs) ∷ others in
      (total debit_column rows ≡ total debit xs +ℤ total debit_column others)
      × (total credit_column rows ≡ total credit xs +ℤ total credit_column others)
row_columns a [] others = (sym (zero_+ℤ _), sym (zero_+ℤ _))
row_columns a (x ∷ xs) others = (refl, refl)

columns :
    (ls : List JournalEntryLine) (accounts : List Account)
    → (total debit_column (trial_rows ls accounts) ≡ total (on_account debit ls) accounts)
      × (total credit_column (trial_rows ls accounts) ≡ total (on_account credit ls) accounts)
columns ls [] = (refl, refl)
columns ls (a ∷ rest) =
    let (dr, cr) = row_columns a (lines_on a ls) (trial_rows ls rest) in
    let (ds, cs) = columns ls rest in
    (dr ∙ ap (λ t. on_account debit ls a +ℤ t) ds, cr ∙ ap (λ t. on_account credit ls a +ℤ t) cs)

-- Whatever the window, the debit column of the trial balance and its credit column come to the
-- same figure, in books that keep the invariant.
pub trial_balance_balances :
    (start end : Date) (b : Books)
    → IsBooks b
    → total debit_column (trial_balance start end b)
      ≡ total credit_column (trial_balance start end b)
unfolding trial_balance
trial_balance_balances start end b h =
    let ls = select_where (line_in_window start end b.entries) b.lines in
    let known =
      All-select
        (λ (l : JournalEntryLine). is_some (find account_id l.account_id b.accounts) ≡ true)
        (line_in_window start end b.entries) b.lines
        (All-map (IsPlaced b.accounts b.entries) _ b.lines (λ l p. p.on_account) h.placed) in
    (columns ls b.accounts).0
    ∙ total-on_account debit b.accounts ls h.accounts_distinct known
    ∙ window_sides start end b h
    ∙ sym (total-on_account credit b.accounts ls h.accounts_distinct known)
    ∙ sym (columns ls b.accounts).1
