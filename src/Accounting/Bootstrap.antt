-- ===== src/Accounting/Bootstrap.antt =====
-- `AccountingService._bootstrap`: the default chart, the general journal and the first period.
pub mod Kept
use nexora_ai.Prelude.{
  ℕ, ◌+◌, ◌-◌, ◌*◌, ◌%◌, String, Bool, true, false, ◌&&◌, ◌||◌, not, Option, none, some, List, [],
  ◌∷◌, ◌==◌, leb, ltb, str_eq, if◌then◌else◌, any_of, first, is_some,
}
use nexora_ai.Session.{
  Uuid, Date, date, year_of, month_of, Env, Session, Tx, ok, pure, gets, modify, new_id, ◌>>=◌,
  ◌>>◌,
}
use nexora_ai.Accounting.Model.{
  AccountType, asset, liability, equity, revenue, expense, Account, FiscalPeriod, opened, Books,
  insert_account, insert_period,
}

-- A row of `DEFAULT_ACCOUNTS`.
pub record DefaultAccount : Type 0 where
  pub code : String
  pub name : String
  pub kind : AccountType
  pub parent_code : Option String
  pub postable : Bool
  pub system_code : Option String

abbrev pub row :
    String → String → AccountType → Option String → Bool → Option String → DefaultAccount
row code name kind parent_code postable system_code = record {
  code = code;
  name = name;
  kind = kind;
  parent_code = parent_code;
  postable = postable;
  system_code = system_code;
}

unfoldable pub default_accounts : List DefaultAccount
default_accounts =
    row "1000" "Assets" asset none false none
    ∷ row "1100" "Current Assets" asset (some "1000") false none
    ∷ row "1110" "Cash on Hand" asset (some "1100") true (some "CASH")
    ∷ row "1120" "Bank Accounts" asset (some "1100") true (some "BANK")
    ∷ row "1130" "Accounts Receivable" asset (some "1100") true (some "AR_CONTROL")
    ∷ row "1140" "Inventory" asset (some "1100") true (some "INVENTORY")
    ∷ row "1150" "Input VAT Receivable" asset (some "1100") true (some "VAT_INPUT")
    ∷ row "1500" "Fixed Assets" asset (some "1000") false none
    ∷ row "2000" "Liabilities" liability none false none
    ∷ row "2100" "Accounts Payable" liability (some "2000") true (some "AP_CONTROL")
    ∷ row "2150" "Goods Received Not Invoiced" liability (some "2000") true (some "GRNI")
    ∷ row "2200" "Output VAT Payable" liability (some "2000") true (some "VAT_OUTPUT")
    ∷ row "2300" "Accrued Liabilities" liability (some "2000") true none
    ∷ row "3000" "Equity" equity none false none
    ∷ row "3100" "Owner's Capital" equity (some "3000") true none
    ∷ row "3200" "Retained Earnings" equity (some "3000") true (some "RETAINED_EARNINGS")
    ∷ row "4000" "Revenue" revenue none false none
    ∷ row "4100" "Sales Revenue" revenue (some "4000") true (some "SALES_REVENUE")
    ∷ row "4200" "Sales Returns & Allowances" revenue (some "4000") true (some "SALES_RETURNS")
    ∷ row "4300" "Sales Discounts" revenue (some "4000") true (some "SALES_DISCOUNTS")
    ∷ row "5000" "Expenses" expense none false none
    ∷ row "5100" "Cost of Goods Sold" expense (some "5000") true (some "COGS")
    ∷ row "5200" "Operating Expenses" expense (some "5000") true none
    ∷ row "5900" "Rounding Difference" expense (some "5000") true (some "ROUNDING")
    ∷ []

abbrev pub has_code : String → List Account → Bool
has_code code accounts = any_of (λ a. str_eq code a.code) accounts

abbrev or_empty : Option String → String
or_empty none = ""
or_empty (some s) = s

-- `parents.get(parent_code or "")`: the dictionary holds the identifiers of the rows by code.
abbrev parent_of : Option String → List Account → Option Uuid
parent_of parent_code accounts = elim (first (λ a. str_eq (or_empty parent_code) a.code) accounts) [
  | none ↦ none
  | some a ↦ some a.id
]

abbrev new_account : Uuid → DefaultAccount → List Account → Account
new_account i d accounts = record {
  id = i;
  code = d.code;
  name = d.name;
  account_type = d.kind;
  parent_id = parent_of d.parent_code accounts;
  is_postable = d.postable;
  is_system = is_some d.system_code;
  system_code = d.system_code;
  is_active = true;
}

-- One round of the loop over `DEFAULT_ACCOUNTS`; `existing` are the accounts before the loop.
unfoldable pub add_default : Env → List Account → DefaultAccount → Tx Books Unit
add_default env existing d = if has_code d.code existing then pure tt else (do
  i ← new_id env
  accounts ← gets (λ b. b.accounts)
  insert_account (new_account i d accounts))

unfoldable pub add_defaults : Env → List Account → List DefaultAccount → Tx Books Unit
add_defaults env existing [] s = ok (tt, s)
add_defaults env existing (d ∷ ds) s =
    (add_default env existing d >> add_defaults env existing ds) s

-- `calendar.monthrange(year, month)[1]`
unfoldable pub days_in_month : ℕ → ℕ → ℕ
days_in_month year month =
    if month == 2
    then (if year % 4 == 0 && (not (year % 100 == 0) || year % 400 == 0) then 29 else 28)
    else if month == 4 || month == 6 || month == 9 || month == 11
    then 30
    else 31

-- The first and the last day of the fiscal year of `today`.
unfoldable pub fiscal_year : ℕ → Date → Date × Date
unfolding date
fiscal_year month today =
    let year = if leb month (month_of today) then year_of today else year_of today - 1 in
    let end_month = if month - 1 == 0 then 12 else month - 1 in
    let end_year = if ltb 1 month then year + 1 else year in
    (date year month 1, date end_year end_month (days_in_month end_year end_month))

unfoldable pub add_journal : Env → Tx Books Unit
add_journal env = do
  journal ← new_id env
  modify (λ b. record b { journal = some journal })
  i ← new_id env
  month ← gets (λ b. b.fiscal_year_start_month)
  insert_period (record {
    id = i;
    start_date = (fiscal_year month env.today).0;
    end_date = (fiscal_year month env.today).1;
    status = opened;
  })

unfoldable pub bootstrap : Env → Tx Books Unit
unfolding default_accounts
bootstrap env = do
  existing ← gets (λ b. b.accounts)
  add_defaults env existing default_accounts
  journal ← gets (λ b. b.journal)
  if is_some journal then pure tt else add_journal env
