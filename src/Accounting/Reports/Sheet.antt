-- ===== src/Accounting/Reports/Sheet.antt =====
-- The accounting equation, over the reports that the service returns.
pub mod Earnings
use nexora_ai.Prelude.{◌≡◌, refl, sym, ap, ◌∙◌, List, [], ◌∷◌, if◌then◌else◌, Bool-cases, inl, inr}
use nexora_ai.Prelude.Int.{
  ℤ, pos, ◌+ℤ◌, ◌-ℤ◌, total, sum_from-eq-total, int_laws, zero_+ℤ, pos_part, neg_part,
}
use nexora_ai.Session.{Date}
use nexora_ai.Accounting.Model.{
  AccountType, asset, liability, equity, revenue, expense, same_type, Account, Books,
}
use nexora_ai.Accounting.Invariant.{IsBooks}
use nexora_ai.Accounting.Reports.{
  TrialRow, trial_balance, rows_of, debit_less_credit, credit_less_debit, amount_of, sum_rows,
  profit_and_loss, inception, balance_sheet,
}
use nexora_ai.Accounting.Reports.Equation.{debit_column, credit_column, trial_balance_balances}

-- What one row adds to the report on `kind`.
abbrev pub share : AccountType → (TrialRow → ℤ) → TrialRow → ℤ
share kind amount r = if same_type r.0.account_type kind then amount r else pos 0

pub rows_of-cons :
    (kind : AccountType) (amount : TrialRow → ℤ) (r : TrialRow) (rs : List TrialRow)
    → total amount_of (rows_of kind amount (r ∷ rs))
      ≡ share kind amount r +ℤ total amount_of (rows_of kind amount rs)
rows_of-cons kind amount r rs = elim (Bool-cases (same_type r.0.account_type kind)) [
  | inl e ↦ rw e refl
  | inr e ↦ rw e (sym (zero_+ℤ _))
]

-- One row stands on exactly one of the five reports.
share_sides :
    (t : AccountType) (d c : ℤ)
    → let on = λ (k : AccountType) (x : ℤ). if same_type t k then x else pos 0 in
      on asset (d -ℤ c) +ℤ on expense (d -ℤ c) +ℤ c
      ≡ on liability (c -ℤ d) +ℤ on equity (c -ℤ d) +ℤ on revenue (c -ℤ d) +ℤ d
share_sides asset d c = omega int_laws
share_sides liability d c = omega int_laws
share_sides equity d c = omega int_laws
share_sides revenue d c = omega int_laws
share_sides expense d c = omega int_laws

abbrev pub on : AccountType → (TrialRow → ℤ) → List TrialRow → ℤ
on kind amount rows = total amount_of (rows_of kind amount rows)

interchange :
    (a e c l q v d a' e' c' l' q' v' d' : ℤ)
    → a +ℤ e +ℤ c ≡ l +ℤ q +ℤ v +ℤ d
    → a' +ℤ e' +ℤ c' ≡ l' +ℤ q' +ℤ v' +ℤ d'
    → (a +ℤ a') +ℤ (e +ℤ e') +ℤ (c +ℤ c') ≡ (l +ℤ l') +ℤ (q +ℤ q') +ℤ (v +ℤ v') +ℤ (d +ℤ d')
interchange a e c l q v d a' e' c' l' q' v' d' x y =
    omega (int_laws, ap pos_part x, ap neg_part x, ap pos_part y, ap neg_part y)

partition :
    (rows : List TrialRow)
    → on asset debit_less_credit rows
        +ℤ on expense debit_less_credit rows
        +ℤ total credit_column rows
      ≡ on liability credit_less_debit rows
        +ℤ on equity credit_less_debit rows
        +ℤ on revenue credit_less_debit rows
        +ℤ total debit_column rows
partition [] = omega int_laws
partition (r ∷ rs) =
    rw
      (
        rows_of-cons asset debit_less_credit r rs,
        rows_of-cons expense debit_less_credit r rs,
        rows_of-cons liability credit_less_debit r rs,
        rows_of-cons equity credit_less_debit r rs,
        rows_of-cons revenue credit_less_debit r rs,
      )
      (interchange _ _ _ _ _ _ _ _ _ _ _ _ _ _ (share_sides r.0.account_type r.1 r.2)
        (partition rs))

-- With equal columns, what stands on one side is what stands on the other.
cancel_columns :
    (a e c l q v d : ℤ) → a +ℤ e +ℤ c ≡ l +ℤ q +ℤ v +ℤ d → d ≡ c → a ≡ l +ℤ q +ℤ (v -ℤ e)
cancel_columns a e c l q v d x y =
    omega (int_laws, ap pos_part x, ap neg_part x, ap pos_part y, ap neg_part y)

pub sum_rows-eq-total : (rows : List (Account × ℤ)) → sum_rows rows ≡ total amount_of rows
sum_rows-eq-total rows = sum_from-eq-total amount_of (pos 0) rows ∙ zero_+ℤ _

-- In books that keep the invariant, the assets of a balance sheet are its liabilities plus its
-- equity plus the net income that the profit and loss report shows from inception to that day.
pub balance_sheet_equation :
    (as_of : Date) (b : Books)
    → IsBooks b
    → let sheet = balance_sheet as_of b in
      let (income, cost) = profit_and_loss inception as_of b in
      sum_rows sheet.assets
      ≡ sum_rows sheet.liabilities +ℤ sum_rows sheet.equity +ℤ (sum_rows income -ℤ sum_rows cost)
unfolding balance_sheet profit_and_loss
balance_sheet_equation as_of b h =
    let rows = trial_balance inception as_of b in
    rw
      (
        sum_rows-eq-total (rows_of asset debit_less_credit rows),
        sum_rows-eq-total (rows_of expense debit_less_credit rows),
        sum_rows-eq-total (rows_of liability credit_less_debit rows),
        sum_rows-eq-total (rows_of equity credit_less_debit rows),
        sum_rows-eq-total (rows_of revenue credit_less_debit rows),
      )
      (cancel_columns _ _ _ _ _ _ _ (partition rows) (trial_balance_balances inception as_of b h))
