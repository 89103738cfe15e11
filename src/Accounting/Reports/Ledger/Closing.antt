-- ===== src/Accounting/Reports/Ledger/Closing.antt =====
-- The last running balance of the general ledger is what the trial balance shows for the account.
use mathlib.Core.Path.{ap₂}
use mathlib.Core.Option.{some-injective}
use nexora_ai.Prelude.{
  ◌≤◌, ◌≡◌, refl, sym, ap, ◌∙◌, subst, Bool, true, false, some, List, [], ◌∷◌, ◌==◌, arith,
  if◌then◌else◌, first, select_where, is_empty, any_of, sort_by, Bool-cases, inl, inr, ==→eq,
}
use nexora_ai.Prelude.Int.{ℤ, pos, ◌+ℤ◌, ◌-ℤ◌, total, int_laws, +ℤ_zero}
use nexora_ai.Prelude.Rows.{+ℤ_assoc, first-passes}
use nexora_ai.Prelude.Groups.{Distinct}
use nexora_ai.Session.{Uuid, Date, Env, Session, ok, bind_inv}
use nexora_ai.Session.Keeps.{Keeps-ok}
use nexora_ai.Accounting.Model.{AccountType, Account, JournalEntryLine, Books, account}
use nexora_ai.Accounting.Bootstrap.{bootstrap}
use nexora_ai.Accounting.Bootstrap.Kept.{Holds, bootstrap-Holds}
use nexora_ai.Accounting.Invariant.{IsBooks, account_id}
use nexora_ai.Accounting.Reports.{
  in_window, line_in_window, TrialRow, lines_on, trial_rows, trial_balance, debit_less_credit,
}
use nexora_ai.Accounting.Reports.Ledger.{
  Joined, joined_lines, net_movement, opening_balance, LedgerLine, running_from, date_of,
  ledger_lines, signed, signed_lines, read_ledger, general_ledger,
}
use nexora_ai.Accounting.Reports.Ledger.Sums.{total-sort_by, joined_split, joined_total}

-- What the report ends with: the last running balance, or the opening balance where no line is.
abbrev pub closing_of : ℤ → List LedgerLine → ℤ
closing_of opening [] = opening
closing_of opening (l ∷ ls) = closing_of l.running ls

closing_of-running :
    (opening : ℤ) (rows : List Joined)
    → closing_of opening (running_from opening rows) ≡ opening +ℤ total net_movement rows
closing_of-running opening [] = sym (+ℤ_zero opening)
closing_of-running opening ((e, l) ∷ rows) =
    closing_of-running (opening +ℤ (l.debit -ℤ l.credit)) rows
    ∙ sym (+ℤ_assoc opening (l.debit -ℤ l.credit) (total net_movement rows))

closing_of-signed :
    (kind : AccountType) (opening : ℤ) (ls : List LedgerLine)
    → closing_of (signed kind opening) (signed_lines kind ls) ≡ signed kind (closing_of opening ls)
closing_of-signed kind opening [] = refl
closing_of-signed kind opening (l ∷ ls) = closing_of-signed kind l.running ls

abbrev of_account : Uuid → TrialRow → Bool
of_account i r = i == r.0.id

-- What a trial balance shows for an account: its row, or zero where it has none.
abbrev pub shown : Uuid → List TrialRow → ℤ
shown i rows = total debit_less_credit (select_where (of_account i) rows)

module _ (i : Uuid) (x : Account) (others : List TrialRow) where
  abbrev with_row : List JournalEntryLine → List TrialRow
  with_row ys =
      if is_empty ys
      then others
      else (x, total (λ l. l.debit) ys, total (λ l. l.credit) ys) ∷ others

  shown_here :
      (ys : List JournalEntryLine)
      → (i == x.id) ≡ true
      → shown i (with_row ys)
        ≡ total (λ l. l.debit) ys -ℤ total (λ l. l.credit) ys +ℤ shown i others
  shown_here [] k = omega int_laws
  shown_here (y ∷ ys) k = rw k refl

  shown_not :
      (ys : List JournalEntryLine) → (i == x.id) ≡ false → shown i (with_row ys) ≡ shown i others
  shown_not [] k = refl
  shown_not (y ∷ ys) k = rw k refl

shown_none :
    (i : Uuid) (ls : List JournalEntryLine) (accounts : List Account)
    → any_of (λ a. i == a.id) accounts ≡ false
    → shown i (trial_rows ls accounts) ≡ pos 0
shown_none i ls [] n = refl
shown_none i ls (x ∷ xs) n =
    shown_not i x (trial_rows ls xs) (lines_on x ls) (ground arith)
    ∙ shown_none i ls xs (ground arith)

shown_lem :
    (i : Uuid) (ls : List JournalEntryLine) (accounts : List Account) (a : Account)
    → Distinct account_id accounts
    → first (λ x. i == x.id) accounts ≡ some a
    → shown i (trial_rows ls accounts)
      ≡ total (λ l. l.debit) (lines_on a ls) -ℤ total (λ l. l.credit) (lines_on a ls)
shown_lem i ls [] a d f = cc
shown_lem i ls (x ∷ xs) a d f = elim (Bool-cases (i == x.id)) [
  | inl k ↦
      let same : x ≡ a =
        some-injective _ _
          (subst (λ b. (if b then some x else first (λ y. i == y.id) xs) ≡ some a) k f) in
      let others =
        shown_none i ls xs
          (subst (λ j. any_of (λ y. j == y.id) xs ≡ false) (sym (==→eq i x.id k)) d.0) in
      shown_here i x (trial_rows ls xs) (lines_on x ls) k
      ∙ ap (λ z. total (λ l. l.debit) (lines_on x ls) -ℤ total (λ l. l.credit) (lines_on x ls) +ℤ z)
          others
      ∙ +ℤ_zero _
      ∙ ap
          (λ (y : Account).
            total (λ l. l.debit) (lines_on y ls) -ℤ total (λ l. l.credit) (lines_on y ls))
          same
  | inr k ↦
      shown_not i x (trial_rows ls xs) (lines_on x ls) k
      ∙ shown_lem i ls xs a d.1
          (subst (λ b. (if b then some x else first (λ y. i == y.id) xs) ≡ some a) k f)
]

closes_in :
    (i : Uuid) (start end : Date) (b : Books) (a : Account)
    → start ≤ end
    → Distinct account_id b.accounts
    → account i b ≡ some a
    → let opening = opening_balance i start b in
      closing_of
        (signed a.account_type opening)
        (signed_lines a.account_type (ledger_lines i start end opening b))
      ≡ signed a.account_type (shown i (trial_balance 0 end b))
unfolding account opening_balance ledger_lines trial_balance
closes_in i start end b a le d found =
    let opening = opening_balance i start b in
    let rows = joined_lines i (in_window start end) b.entries b.lines in
    let same : i ≡ a.id = ==→eq i a.id (first-passes (λ x. i == x.id) b.accounts a found) in
    closing_of-signed a.account_type opening (running_from opening (sort_by date_of rows))
    ∙ ap (signed a.account_type) (
        closing_of-running opening (sort_by date_of rows)
        ∙ ap (λ z. opening +ℤ z) (total-sort_by date_of net_movement rows)
        ∙ joined_split i start end le b.entries b.lines
        ∙ ap (λ j. total net_movement (joined_lines j (in_window 0 end) b.entries b.lines)) same
        ∙ joined_total a end b.entries b.lines
        ∙ sym (
            shown_lem i (select_where (line_in_window 0 end b.entries) b.lines) b.accounts a d
              found))

read_ledger_inv :
    (i : Uuid) (start end : Date) (s t : Session Books) (a : Account) (opening : ℤ)
    (lines : List LedgerLine)
    → read_ledger i start end s ≡ ok ((a, opening, lines), t)
    → (account i s.rows ≡ some a)
      × (opening ≡ signed a.account_type (opening_balance i start s.rows))
      × (lines
          ≡ signed_lines a.account_type
              (ledger_lines i start end (opening_balance i start s.rows) s.rows))
      × (t ≡ s)
unfolding read_ledger
read_ledger_inv i start end s t a opening lines e = ground arith

-- Two reports agree: where `general_ledger` returns over a window that does not end before it starts,
-- in books that keep the invariant, the last running balance, or the opening balance where no line
-- is, is what the trial balance of everything up to the end of the window shows for the account,
-- with the sign of the account's normal side.
pub general_ledger_closes :
    (env : Env) (i : Uuid) (start end : Date) (s t : Session Books) (a : Account) (opening : ℤ)
    (lines : List LedgerLine)
    → IsBooks s.rows
    → start ≤ end
    → general_ledger env i start end s ≡ ok ((a, opening, lines), t)
    → closing_of opening lines ≡ signed a.account_type (shown i (trial_balance 0 end t.rows))
unfolding general_ledger
general_ledger_closes env i start end s t a opening lines h le e =
    let (_, s1, e1, k) = bind_inv (bootstrap env) (λ _. read_ledger i start end) s e in
    let (found, first_one, listed, same) = read_ledger_inv i start end s1 t a opening lines k in
    let books = Keeps-ok {P = Holds []} s s1 tt (bootstrap-Holds [] env) (h, tt) e1 in
    ap₂ closing_of first_one listed
    ∙ closes_in i start end s1.rows a le books.0.accounts_distinct found
    ∙ ap (λ (x : Session Books). signed a.account_type (shown i (trial_balance 0 end x.rows)))
        (sym same)
