-- ===== src/Accounting/Tests.antt =====
-- The accounting theorems at a company that sells once and is posted to once.
use nexora_ai.Prelude.{List, ◌∷◌, All, arith, ◌+◌, ◌≡◌, refl, true, false, none, []}
use nexora_ai.Prelude.Int.{ℤ, neg, pos, total, ◌+ℤ◌, ◌-ℤ◌}
use nexora_ai.Session.{conflict, audit, date, Context, Env, Session, Result, ok, err}
use nexora_ai.Accounting.Model.{
  Account, asset, account, FiscalPeriod, opened, locked, entry, Books, JournalEntry, insert_account,
  insert_period, insert_entry, insert_line, insert_lines, lines_of, period_for_date, draft,
}
use nexora_ai.Accounting.Bootstrap.{
  bootstrap, add_defaults, add_default, add_journal, fiscal_year, days_in_month, default_accounts,
}
use nexora_ai.Numbering.{allocate, upsert, prefix_of}
use nexora_ai.Decimal.{to_amount, scale_up, to_money, round_half_up, half_up}
use nexora_ai.Accounting.PostingRules.{credit_sale}
use nexora_ai.Accounting.PostingRules.Balance.{RulesPost, rules-Posts}
use nexora_ai.Accounting.Invariant.{IsBooks}
use nexora_ai.Accounting.Post.{
  Posting, post, post_balanced, require_period, enter, resolve, system_accounts, enter_resolved,
  account_for, write_entry, finish_entry, check_journal_balanced,
}
use nexora_ai.Accounting.Post.Charted.{map_ids}
use nexora_ai.Accounting.Post.Invariant.{post-IsBooks}
use nexora_ai.Accounting.Post.Once.{IsPosting, post-IsPosting}
use nexora_ai.Accounting.Service.{reverse, post_reversal, link_reversal}
use nexora_ai.Accounting.Service.Reversal.{balance, reverse-balance}
use nexora_ai.Accounting.Service.Reversal.Again.{reverse_again}
use nexora_ai.Accounting.Service.Locked.{IsLockedAs, in_period}
use nexora_ai.Accounting.Requests.{
  Request, event_of, reversal_of, status_of, serve, serve-IsBooks, serve-Locked,
}
use nexora_ai.Accounting.Reports.{profit_and_loss, trial_balance, balance_sheet, sum_rows}
use nexora_ai.Accounting.Reports.Ledger.{
  LedgerLine, signed, opening_balance, ledger_lines, read_ledger, general_ledger,
}
use nexora_ai.Accounting.Reports.Ledger.Closing.{closing_of, shown, general_ledger_closes}
use nexora_ai.Accounting.Reports.Equation.{debit_column, credit_column, trial_balance_balances}
use nexora_ai.Accounting.Reports.Sheet.Earnings.{left_out, balance_sheet_earnings}

rules-Posts_example : RulesPost (pos 1_000) (pos 50) (pos 600) (pos 1_050) true
rules-Posts_example = rules-Posts (pos 1_000) (pos 50) (pos 600) (pos 1_050) true

abbrev no_books : Books
no_books = record {
  accounts = [];
  journal = none;
  periods = [];
  entries = [];
  lines = [];
  fiscal_year_start_month = 7;
}

abbrev start : Session Books
start = record { rows = no_books; sequences = []; audit_rows = []; drawn = 0 }

abbrev caller : Context
caller = record { membership_id = 7; permissions = []; branch_ids = none }

abbrev clock : Env
clock = record { uuid7 = λ n. n + 100; now = 0; today = 20_260_315 }

abbrev sale : Posting
sale = record {
  entry_date = 20_260_310;
  source_type = "invoice";
  source_id = 1;
  event_type = "sale";
  lines = credit_sale (pos 1_000_000_000_000) (pos 50_000_000_000);
  allow_closed = false;
  account_map = none;
}

abbrev outcome : {A : Type 0} → A → Result A → A
outcome a (ok b) = b
outcome a (err e) = a

abbrev blank : JournalEntry
blank = record {
  id = 0;
  entry_number = none;
  journal_id = 0;
  fiscal_period_id = 0;
  entry_date = 0;
  status = draft;
  source_type = "";
  source_id = 0;
  event_type = "";
  total_debit = pos 0;
  total_credit = pos 0;
  posted_at = 0;
  posted_by = 0;
  reversal_of = none;
  reversed_by = none;
}

posted_sale : JournalEntry × Session Books
unfolding post
posted_sale = outcome (blank, start) (post caller clock sale start)

posted_sale_lem : post caller clock sale start ≡ ok posted_sale
unfolding post posted_sale bootstrap add_defaults add_default insert_account add_journal
    insert_period fiscal_year days_in_month credit_sale ◌+ℤ◌ post_balanced period_for_date
    require_period enter resolve system_accounts enter_resolved default_accounts insert_entry
    insert_line insert_lines lines_of account_for write_entry finish_entry check_journal_balanced
    audit allocate upsert prefix_of to_money round_half_up half_up date
posted_sale_lem = refl

start-IsBooks : IsBooks no_books
start-IsBooks = record { accounts_distinct = tt; entries_distinct = tt; placed = tt; balanced = tt }

posted_sale-IsBooks : IsBooks posted_sale.1.rows
unfolding map_ids
posted_sale-IsBooks = post-IsBooks caller clock sale start (start-IsBooks, tt) posted_sale_lem

post-IsPosting_example : IsPosting caller sale no_books posted_sale.0 posted_sale.1.rows
post-IsPosting_example = post-IsPosting caller clock sale start posted_sale_lem

trial_balance_balances_example :
    total debit_column (trial_balance 20_260_301 20_260_331 posted_sale.1.rows)
    ≡ total credit_column (trial_balance 20_260_301 20_260_331 posted_sale.1.rows)
trial_balance_balances_example =
    trial_balance_balances 20_260_301 20_260_331 posted_sale.1.rows posted_sale-IsBooks

-- The sale falls in the fiscal year that began on 1 July 2025.
balance_sheet_earnings_example :
    let sheet = balance_sheet 20_260_331 posted_sale.1.rows in
    sum_rows sheet.assets
    ≡ sum_rows sheet.liabilities
      +ℤ sum_rows sheet.equity
      +ℤ sheet.current_year_earnings
      +ℤ left_out 20_260_331 posted_sale.1.rows
unfolding post posted_sale bootstrap add_defaults add_default insert_account add_journal
    insert_period fiscal_year days_in_month credit_sale ◌+ℤ◌ post_balanced period_for_date
    require_period enter resolve system_accounts enter_resolved default_accounts insert_entry
    insert_line insert_lines lines_of account_for write_entry finish_entry check_journal_balanced
    audit allocate upsert prefix_of to_money round_half_up half_up date
balance_sheet_earnings_example =
    balance_sheet_earnings 20_260_331 posted_sale.1.rows posted_sale-IsBooks (omega arith, tt)

-- In the next fiscal year the sale is no part of the earnings that the sheet shows.
abbrev next_year : FiscalPeriod
next_year = record { id = 4; start_date = 20_260_701; end_date = 20_270_630; status = opened }

left_out_year :
    left_out 20_260_815
      (record posted_sale.1.rows { periods = next_year ∷ posted_sale.1.rows.periods })
    ≡ pos 10_000
unfolding balance_sheet profit_and_loss trial_balance post posted_sale bootstrap add_defaults
    add_default insert_account add_journal insert_period fiscal_year days_in_month credit_sale ◌+ℤ◌
    ◌-ℤ◌ neg post_balanced period_for_date require_period enter resolve system_accounts
    enter_resolved default_accounts insert_entry insert_line insert_lines lines_of account_for
    write_entry finish_entry check_journal_balanced audit allocate upsert prefix_of to_money
    round_half_up half_up date
left_out_year = refl

abbrev no_account : Account
no_account = record {
  id = 0;
  code = "";
  name = "";
  account_type = asset;
  parent_id = none;
  is_postable = false;
  is_system = false;
  system_code = none;
  is_active = false;
}

-- The ledger of the receivables, account 104, in the month of the sale.
march : (Account × ℤ × List LedgerLine) × Session Books
unfolding general_ledger
march =
    outcome ((no_account, pos 0, []), start)
      (general_ledger clock 104 20_260_301 20_260_331 posted_sale.1)

march_lem : general_ledger clock 104 20_260_301 20_260_331 posted_sale.1 ≡ ok march
unfolding march general_ledger read_ledger ledger_lines opening_balance account post posted_sale
    bootstrap add_defaults add_default insert_account add_journal insert_period fiscal_year
    days_in_month credit_sale ◌+ℤ◌ ◌-ℤ◌ neg post_balanced period_for_date require_period enter
    resolve system_accounts enter_resolved default_accounts insert_entry insert_line insert_lines
    lines_of account_for write_entry finish_entry check_journal_balanced audit allocate upsert
    prefix_of to_money round_half_up half_up date
march_lem = refl

general_ledger_closes_example :
    closing_of march.0.1 march.0.2
    ≡ signed march.0.0.account_type (shown 104 (trial_balance 0 20_260_331 march.1.rows))
general_ledger_closes_example =
    general_ledger_closes clock 104 20_260_301 20_260_331 posted_sale.1 march.1 march.0.0 march.0.1
      march.0.2 posted_sale-IsBooks (omega arith) march_lem

-- The sale is reversed on the next day.
credited_sale : JournalEntry × Session Books
unfolding reverse
credited_sale =
    outcome (blank, start) (reverse caller clock posted_sale.0.id 20_260_311 posted_sale.1)

credited_sale_lem :
    reverse caller clock posted_sale.0.id 20_260_311 posted_sale.1 ≡ ok credited_sale
unfolding credited_sale reverse post_reversal link_reversal entry to_amount scale_up post
    posted_sale bootstrap add_defaults add_default insert_account add_journal insert_period
    fiscal_year days_in_month credit_sale ◌+ℤ◌ post_balanced period_for_date require_period enter
    resolve system_accounts enter_resolved default_accounts insert_entry insert_line insert_lines
    lines_of account_for write_entry finish_entry check_journal_balanced audit allocate upsert
    prefix_of to_money round_half_up half_up date
credited_sale_lem = refl

-- The account of receivables, 104.
reverse-balance_example :
    balance 104 credited_sale.1.rows.lines
      +ℤ balance 104 (lines_of posted_sale.0.id posted_sale.1.rows)
    ≡ balance 104 posted_sale.1.rows.lines
reverse-balance_example =
    reverse-balance caller clock posted_sale.0.id 20_260_311 posted_sale.1 credited_sale_lem 104

reverse_again_example :
    reverse caller clock posted_sale.0.id 20_260_312 credited_sale.1
    ≡ err (conflict "ENTRY_ALREADY_REVERSED")
reverse_again_example =
    reverse_again caller clock posted_sale.0.id 20_260_311 posted_sale.1 credited_sale_lem caller
      clock 20_260_312

posted_sale_id : posted_sale.0.id ≡ 126
unfolding post posted_sale bootstrap add_defaults add_default insert_account add_journal
    insert_period fiscal_year days_in_month credit_sale ◌+ℤ◌ post_balanced period_for_date
    require_period enter resolve system_accounts enter_resolved default_accounts insert_entry
    insert_line insert_lines lines_of account_for write_entry finish_entry check_journal_balanced
    audit allocate upsert prefix_of to_money round_half_up half_up date
posted_sale_id = refl

-- A sale and its reversal as requests.
abbrev day : List (Context × Env × Request)
day = (caller, clock, event_of sale) ∷ (caller, clock, reversal_of 126 20_260_311) ∷ []

serve-IsBooks_example : IsBooks (serve day start).rows
serve-IsBooks_example = serve-IsBooks day start start-IsBooks

abbrev last_year : FiscalPeriod
last_year = record { id = 3; start_date = 20_240_701; end_date = 20_250_630; status = locked }

abbrev after_audit : Session Books
after_audit = record start { rows = record no_books { periods = last_year ∷ [] } }

serve-Locked_example :
    All (IsLockedAs 3) (serve ((caller, clock, status_of 3 opened) ∷ day) after_audit).rows.periods
    × (in_period 3 (serve ((caller, clock, status_of 3 opened) ∷ day) after_audit).rows.entries
        ≡ in_period 3 after_audit.rows.entries)
serve-Locked_example =
    serve-Locked ((caller, clock, status_of 3 opened) ∷ day) after_audit 3 refl ((λ _. refl), tt)

-- The sale comes to a trial balance of 1.0500 on each side.
trial_total :
    total debit_column (trial_balance 20_260_301 20_260_331 posted_sale.1.rows) ≡ pos 10_500
unfolding trial_balance post posted_sale bootstrap add_defaults add_default insert_account
    add_journal insert_period fiscal_year days_in_month credit_sale ◌+ℤ◌ post_balanced
    period_for_date require_period enter resolve system_accounts enter_resolved default_accounts
    insert_entry insert_line insert_lines lines_of account_for write_entry finish_entry
    check_journal_balanced audit allocate upsert prefix_of to_money round_half_up half_up date
trial_total = refl
