-- ===== src/Accounting/Reports/Sheet/Earnings.antt =====
-- The accounting equation with the figures that the balance sheet itself returns.
use mathlib.Core.Path.{ap₂}
use nexora_ai.Prelude.{
  ◌-◌, ◌≤◌, ◌<◌, ◌≡◌, ◌⊎◌, refl, sym, ap, ◌∙◌, Bool, true, false, none, some, List, [], ◌∷◌, ◌==◌,
  arith, All, first, is_empty, if◌then◌else◌, select_where, Bool-cases, Option-cases, inl, inr,
}
use nexora_ai.Prelude.Int.{ℤ, pos, ◌+ℤ◌, ◌-ℤ◌, total, int_laws, zero_+ℤ, pos_part, neg_part}
use nexora_ai.Prelude.Rows.{All-first, first-passes}
use nexora_ai.Session.{Date}
use nexora_ai.Accounting.Model.{
  AccountType, revenue, expense, same_type, Account, JournalEntry, JournalEntryLine, Books,
  contains_date, period_for_date,
}
use nexora_ai.Accounting.Invariant.{IsBooks}
use nexora_ai.Accounting.Reports.{
  in_window, line_in_window, TrialRow, lines_on, trial_rows, trial_balance, rows_of,
  debit_less_credit, credit_less_debit, sum_rows, profit_and_loss, inception, balance_sheet,
}
use nexora_ai.Accounting.Reports.Equation.{debit, credit}
use nexora_ai.Accounting.Reports.Sheet.{
  share, rows_of-cons, on, sum_rows-eq-total, balance_sheet_equation,
}

-- Two tests that share out what a third one takes.
abbrev Shared : Bool → Bool → Bool → Type 0
Shared x y z = ((x ≡ true) × (y ≡ false) × (z ≡ true)) ⊎ ((x ≡ false) × (y ≡ z))

-- A day of a window is before a date in it or on it and later.
in_window-Shared :
    (from start end : Date) (e : JournalEntry)
    → 0 < start
    → from ≤ start
    → start ≤ end
    → Shared (in_window from (start - 1) e) (in_window start end e) (in_window from end e)
in_window-Shared from start end e p h k = elim (Bool-cases (in_window from (start - 1) e)) [
  | inl m ↦ inl (m, ground arith, ground arith)
  | inr m ↦ inr (m, ground arith)
]

line_in_window-Shared :
    (from start end : Date) (entries : List JournalEntry) (l : JournalEntryLine)
    → 0 < start
    → from ≤ start
    → start ≤ end
    → Shared
        (line_in_window from (start - 1) entries l)
        (line_in_window start end entries l)
        (line_in_window from end entries l)
line_in_window-Shared from start end entries l p h k =
    elim (Option-cases (first (λ e. l.journal_entry_id == e.id) entries)) [
      | inl n ↦ rw (n, line_in_window) (inr (refl, refl))
      | inr (e, n) ↦ rw (n, line_in_window) (in_window-Shared from start end e p h k)
    ]

four_parts : (a b c d : ℤ) → (a +ℤ b) +ℤ (c +ℤ d) ≡ (a +ℤ c) +ℤ (b +ℤ d)
four_parts a b c d = omega int_laws

module _ (a : Account) (f : JournalEntryLine → ℤ) where
  -- What a line adds to the sum on an account.
  abbrev weight : Bool → JournalEntryLine → ℤ
  weight t l = if t then if a.id == l.account_id then f l else pos 0 else pos 0

  abbrev chosen : (JournalEntryLine → Bool) → List JournalEntryLine → ℤ
  chosen t ls = total f (lines_on a (select_where t ls))

  chosen-cons :
      (t : JournalEntryLine → Bool) (l : JournalEntryLine) (ls : List JournalEntryLine)
      → chosen t (l ∷ ls) ≡ weight (t l) l +ℤ chosen t ls
  chosen-cons t l ls = elim (Bool-cases (t l)) [
    | inl k ↦ elim (Bool-cases (a.id == l.account_id)) [
      | inl m ↦ rw (k, m) refl
      | inr m ↦ rw (k, m) (sym (zero_+ℤ _))
    ]
    | inr k ↦ rw k (sym (zero_+ℤ _))
  ]

  weight_sum :
      (x y z : Bool) (l : JournalEntryLine) → Shared x y z → weight x l +ℤ weight y l ≡ weight z l
  weight_sum x y z l (inl (p, q, r)) = rw (p, q, r) (omega int_laws)
  weight_sum x y z l (inr (p, q)) = rw (p, q) (zero_+ℤ _)

  module _ (x y z : JournalEntryLine → Bool)
      (shared : (l : JournalEntryLine) → Shared (x l) (y l) (z l)) where
    chosen-shared : (ls : List JournalEntryLine) → chosen x ls +ℤ chosen y ls ≡ chosen z ls
    chosen-shared [] = omega int_laws
    chosen-shared (l ∷ ls) =
        ap₂ (λ m n. m +ℤ n) (chosen-cons x l ls) (chosen-cons y l ls)
        ∙ four_parts (weight (x l) l) (chosen x ls) (weight (y l) l) (chosen y ls)
        ∙ ap₂ (λ m n. m +ℤ n) (weight_sum (x l) (y l) (z l) l (shared l)) (chosen-shared ls)
        ∙ sym (chosen-cons z l ls)

-- A column of the report that adds up over the two columns of the trial balance.
module _ (kind : AccountType) (amount : TrialRow → ℤ)
    (nothing : (a : Account) → amount (a, pos 0, pos 0) ≡ pos 0)
    (additive : (a : Account) (d c d' c' : ℤ)
      → amount (a, d, c) +ℤ amount (a, d', c') ≡ amount (a, d +ℤ d', c +ℤ c')) where
  -- A row that GROUP BY leaves out would have held nothing.
  row_share :
      (a : Account) (xs : List JournalEntryLine) (others : List TrialRow)
      → on kind amount
          (if is_empty xs then others else (a, total debit xs, total credit xs) ∷ others)
        ≡ share kind amount (a, total debit xs, total credit xs) +ℤ on kind amount others
  row_share a [] others = elim (Bool-cases (same_type a.account_type kind)) [
    | inl k ↦ rw (k, nothing a) (sym (zero_+ℤ _))
    | inr k ↦ rw k (sym (zero_+ℤ _))
  ]
  row_share a (x ∷ xs) others =
      rows_of-cons kind amount (a, total debit (x ∷ xs), total credit (x ∷ xs)) others

  share-additive :
      (a : Account) (d c d' c' : ℤ)
      → share kind amount (a, d, c) +ℤ share kind amount (a, d', c')
        ≡ share kind amount (a, d +ℤ d', c +ℤ c')
  share-additive a d c d' c' = elim (Bool-cases (same_type a.account_type kind)) [
    | inl k ↦ rw k (additive a d c d' c')
    | inr k ↦ rw k (omega int_laws)
  ]

  module _ (x y z : JournalEntryLine → Bool)
      (shared : (l : JournalEntryLine) → Shared (x l) (y l) (z l))
      (ls : List JournalEntryLine) where
    on-shared :
        (accounts : List Account)
        → on kind amount (trial_rows (select_where x ls) accounts)
            +ℤ on kind amount (trial_rows (select_where y ls) accounts)
          ≡ on kind amount (trial_rows (select_where z ls) accounts)
    on-shared [] = omega int_laws
    on-shared (a ∷ rest) =
        let row = λ (t : JournalEntryLine → Bool).
          row_share a (lines_on a (select_where t ls)) (trial_rows (select_where t ls) rest) in
        let here =
          share-additive a (chosen a debit x ls) (chosen a credit x ls) (chosen a debit y ls)
            (chosen a credit y ls)
          ∙ ap₂ (λ d c. share kind amount (a, d, c)) (chosen-shared a debit x y z shared ls)
              (chosen-shared a credit x y z shared ls) in
        ap₂ (λ m n. m +ℤ n) (row x) (row y)
        ∙ four_parts (share kind amount (a, chosen a debit x ls, chosen a credit x ls)) _
            (share kind amount (a, chosen a debit y ls, chosen a credit y ls)) _
        ∙ ap₂ (λ m n. m +ℤ n) here (on-shared rest)
        ∙ sym (row z)

-- The net income of the profit and loss report.
abbrev pub net_income : Date → Date → Books → ℤ
net_income start end b =
    let (income, cost) = profit_and_loss start end b in sum_rows income -ℤ sum_rows cost

two_nets :
    (v e v' e' v'' e'' : ℤ) → v +ℤ v' ≡ v'' → e +ℤ e' ≡ e'' → (v' -ℤ e') +ℤ (v -ℤ e) ≡ v'' -ℤ e''
two_nets v e v' e' v'' e'' x y =
    omega (int_laws, ap pos_part x, ap neg_part x, ap pos_part y, ap neg_part y)

net_income-split :
    (from start end : Date) (b : Books)
    → 0 < start
    → from ≤ start
    → start ≤ end
    → net_income start end b +ℤ net_income from (start - 1) b ≡ net_income from end b
unfolding profit_and_loss trial_balance
net_income-split from start end b p h k =
    let shared = λ (l : JournalEntryLine). line_in_window-Shared from start end b.entries l p h k in
    let before = line_in_window from (start - 1) b.entries in
    let since = line_in_window start end b.entries in
    let whole = line_in_window from end b.entries in
    let earned =
      on-shared revenue credit_less_debit (λ a. omega int_laws) (λ a d c d' c'. omega int_laws)
        before since whole shared b.lines b.accounts in
    let spent =
      on-shared expense debit_less_credit (λ a. omega int_laws) (λ a d c d' c'. omega int_laws)
        before since whole shared b.lines b.accounts in
    let rows = λ (t : JournalEntryLine → Bool). trial_rows (select_where t b.lines) b.accounts in
    rw
      (
        sum_rows-eq-total (rows_of revenue credit_less_debit (rows before)),
        sum_rows-eq-total (rows_of revenue credit_less_debit (rows since)),
        sum_rows-eq-total (rows_of revenue credit_less_debit (rows whole)),
        sum_rows-eq-total (rows_of expense debit_less_credit (rows before)),
        sum_rows-eq-total (rows_of expense debit_less_credit (rows since)),
        sum_rows-eq-total (rows_of expense debit_less_credit (rows whole)),
      )
      (two_nets _ _ _ _ _ _ earned spent)

-- The net income that the sheet of a day leaves out: that before the fiscal period of the day, and
-- all of it where no period has the day.
abbrev pub left_out : Date → Books → ℤ
left_out as_of b = elim (period_for_date as_of b) [
  | none ↦ net_income inception as_of b
  | some p ↦ net_income inception (p.start_date - 1) b
]

earnings_lem :
    (as_of : Date) (b : Books)
    → All (λ p. inception ≤ p.start_date) b.periods
    → (balance_sheet as_of b).current_year_earnings +ℤ left_out as_of b
      ≡ net_income inception as_of b
unfolding balance_sheet profit_and_loss period_for_date
earnings_lem as_of b later = elim (Option-cases (first (contains_date as_of) b.periods)) [
  | inl n ↦ rw (n, left_out) (omega int_laws)
  | inr (p, n) ↦
      let inside = first-passes (contains_date as_of) b.periods p n in
      let start =
        (All-first (λ q. inception ≤ q.start_date) (contains_date as_of) b.periods p later n).0 in
      let until : p.start_date ≤ as_of = ground arith in
      rw (n, left_out) (net_income-split inception p.start_date as_of b (omega arith) start until)
]

regrouped : (a l q e x y : ℤ) → a ≡ l +ℤ q +ℤ x → e +ℤ y ≡ x → a ≡ l +ℤ q +ℤ e +ℤ y
regrouped a l q e x y h k =
    omega (int_laws, ap pos_part h, ap neg_part h, ap pos_part k, ap neg_part k)

-- In books that keep the invariant and whose fiscal periods start no earlier than inception, the
-- assets of a balance sheet are its liabilities plus its equity plus its current year earnings plus
-- what it leaves out: the net income from inception to the day before the fiscal period of the
-- sheet's day or, where no period has that day, the net income from inception to it.
pub balance_sheet_earnings :
    (as_of : Date) (b : Books)
    → IsBooks b
    → All (λ p. inception ≤ p.start_date) b.periods
    → let sheet = balance_sheet as_of b in
      sum_rows sheet.assets
      ≡ sum_rows sheet.liabilities
        +ℤ sum_rows sheet.equity
        +ℤ sheet.current_year_earnings
        +ℤ left_out as_of b
balance_sheet_earnings as_of b h later =
    regrouped _ _ _ _ _ _ (balance_sheet_equation as_of b h) (earnings_lem as_of b later)
