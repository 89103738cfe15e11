-- ===== src/Accounting/Service.antt =====
-- What `AccountingService` does on request: accounts, periods, manual entries and reversals.
pub mod Columns
pub mod Kept
pub mod Locked
pub mod Reversal
use nexora_ai.Prelude.{
  ℕ, String, Bool, true, false, ◌&&◌, ◌||◌, not, Option, none, some, List, [], ◌∷◌, ◌++◌, ◌==◌, leb,
  ltb, str_eq, if◌then◌else◌, any_of, first, map, is_some, update_where, select_where,
}
use nexora_ai.Prelude.Int.{ℤ, pos, eq_ℤ, sum_from}
use nexora_ai.Decimal.{to_amount}
use nexora_ai.Session.{
  Uuid, Date, Context, Env, Failure, not_found, conflict, domain_validation, Tx, pure, raise_if,
  or_raise, gets, modify, new_id, audit, except_integrity, ◌>>=◌, ◌>>◌,
}
use nexora_ai.Accounting.Model.{
  AccountType, same_type, Account, PeriodStatus, opened, closed, locked, FiscalPeriod, JournalEntry,
  JournalEntryLine, Books, account, entry, lines_of, insert_account, insert_period,
}
use nexora_ai.Accounting.PostingRules.{Code, manual, rev, PostingLine}
use nexora_ai.Accounting.Bootstrap.{bootstrap}
use nexora_ai.Accounting.Post.{AccountMap, Posting, post, replace_entry}

pub record AccountCreate : Type 0 where
  pub code : String
  pub name : String
  pub account_type : AccountType
  pub parent_id : Option Uuid
  pub is_postable : Bool

abbrev pub new_account : Uuid → AccountCreate → Account
new_account i q = record {
  id = i;
  code = q.code;
  name = q.name;
  account_type = q.account_type;
  parent_id = q.parent_id;
  is_postable = q.is_postable;
  is_system = false;
  system_code = none;
  is_active = true;
}

-- `parent.is_postable = False`
abbrev pub close_parent : Uuid → Books → Books
close_parent i b = record b {
  accounts = update_where (λ a. i == a.id) (λ a. record a { is_postable = false }) b.accounts;
}

unfoldable pub use_parent : AccountType → Option Uuid → Tx Books Unit
use_parent t none = pure tt
use_parent t (some i) = do
  found ← gets (account i)
  parent ← or_raise found not_found
  raise_if (not (same_type parent.account_type t)) (domain_validation "ACCOUNT_TYPE_MISMATCH")
  modify (close_parent i)

-- `create_account`
unfoldable pub create_account : Env → AccountCreate → Tx Books Account
create_account env q = except_integrity (conflict "DUPLICATE_RESOURCE") (do
  bootstrap env
  use_parent q.account_type q.parent_id
  i ← new_id env
  insert_account (new_account i q)
  audit "account.created" "account" (some i)
  pure (new_account i q))

pub record PeriodCreate : Type 0 where
  pub start_date : Date
  pub end_date : Date

abbrev pub new_period : Uuid → PeriodCreate → FiscalPeriod
new_period i q = record {
  id = i;
  start_date = q.start_date;
  end_date = q.end_date;
  status = opened;
}

-- `create_period`
unfoldable pub create_period : Env → PeriodCreate → Tx Books FiscalPeriod
create_period env q = do
  raise_if (ltb q.end_date q.start_date) (domain_validation "INVALID_DATE_RANGE")
  except_integrity (conflict "PERIOD_OVERLAP") (do
    bootstrap env
    i ← new_id env
    insert_period (new_period i q)
    audit "accounting.period_created" "fiscal_period" (some i)
    pure (new_period i q))

-- `legal.get(period.status) == status`
abbrev pub is_legal : PeriodStatus → PeriodStatus → Bool
is_legal opened closed = true
is_legal closed locked = true
is_legal _ _ = false

abbrev pub set_status : Uuid → PeriodStatus → Books → Books
set_status i status b = record b {
  periods = update_where (λ p. i == p.id) (λ p. record p { status = status }) b.periods;
}

abbrev pub period : Uuid → Books → Option FiscalPeriod
period i b = first (λ p. i == p.id) b.periods

-- `change_period_status`
unfoldable pub change_period_status : Uuid → PeriodStatus → Tx Books Unit
change_period_status i status = do
  found ← gets (period i)
  p ← or_raise found not_found
  raise_if (not (is_legal p.status status)) (conflict "ILLEGAL_STATUS_TRANSITION")
  modify (set_status i status)
  audit "accounting.period_status_changed" "fiscal_period" (some i)

-- Amounts of four places.
pub record ManualLine : Type 0 where
  pub account_id : Uuid
  pub debit : ℤ
  pub credit : ℤ

pub record ManualEntryCreate : Type 0 where
  pub entry_date : Date
  pub lines : List ManualLine

-- `accounts`: those that the lines name.
abbrev pub named_accounts : List ManualLine → Books → List Account
named_accounts ls b = select_where (λ a. any_of (λ l. a.id == l.account_id) ls) b.accounts

-- `len(accounts) != len(account_ids)`, for accounts with different identifiers.
abbrev pub is_unknown : List ManualLine → Books → Bool
is_unknown ls b = any_of (λ l. not (is_some (account l.account_id b))) ls

abbrev pub symbolic : List ManualLine → List PostingLine
symbolic ls =
    map
      (λ l. record {
        code = manual l.account_id;
        debit = to_amount l.debit;
        credit = to_amount l.credit;
      })
      ls

abbrev pub manual_map : List Account → AccountMap
manual_map accounts = map (λ a. (manual a.id, a)) accounts

abbrev pub manual_posting : Uuid → ManualEntryCreate → List Account → Posting
manual_posting i q accounts = record {
  entry_date = q.entry_date;
  source_type = "manual";
  source_id = i;
  event_type = "manual";
  lines = symbolic q.lines;
  allow_closed = true;
  account_map = some (manual_map accounts);
}

abbrev pub is_unequal : List ManualLine → Bool
is_unequal ls =
    let debit = sum_from (λ l. l.debit) (pos 0) ls in
    not (eq_ℤ debit (sum_from (λ l. l.credit) (pos 0) ls)) || eq_ℤ debit (pos 0)

-- The accounts that the lines name are known, and the entry is posted to them.
unfoldable pub post_named : Context → Env → ManualEntryCreate → List Account → Tx Books JournalEntry
post_named c env q accounts = do
  unknown ← gets (is_unknown q.lines)
  raise_if unknown not_found
  raise_if (any_of (λ a. not a.is_postable || not a.is_active) accounts)
      (domain_validation "ACCOUNT_NOT_POSTABLE")
  raise_if (is_unequal q.lines) (domain_validation "UNBALANCED_JOURNAL")
  i ← new_id env
  post c env (manual_posting i q accounts)

-- `post_manual`
unfoldable pub post_manual : Context → Env → ManualEntryCreate → Tx Books JournalEntry
post_manual c env q = do
  bootstrap env
  accounts ← gets (named_accounts q.lines)
  post_named c env q accounts

-- The lines of the original, debit and credit exchanged.
abbrev pub exchanged : List JournalEntryLine → List PostingLine
exchanged ls =
    map
      (λ l. record {
        code = rev l.account_id;
        debit = to_amount l.credit;
        credit = to_amount l.debit;
      })
      ls

abbrev pub rev_map : List Account → AccountMap
rev_map accounts = map (λ a. (rev a.id, a)) accounts

abbrev pub reversal_posting : JournalEntry → Date → List JournalEntryLine → List Account → Posting
reversal_posting original reversal_date old_lines accounts = record {
  entry_date = reversal_date;
  source_type = "journal_entry";
  source_id = original.id;
  event_type = "reversal";
  lines = exchanged old_lines;
  allow_closed = true;
  account_map = some (rev_map accounts);
}

-- The two links, on the rows as they stand after `post`.
abbrev pub set_reversal_of : Uuid → Uuid → Books → Books
set_reversal_of i original b = record b {
  entries = update_where (λ e. i == e.id) (λ e. record e { reversal_of = some original }) b.entries;
}

abbrev pub set_reversed_by : Uuid → Uuid → Books → Books
set_reversed_by i reversal b = record b {
  entries = update_where (λ e. i == e.id) (λ e. record e { reversed_by = some reversal }) b.entries;
}

unfoldable pub link_reversal : Uuid → JournalEntry → Tx Books JournalEntry
link_reversal original reversal = do
  modify (set_reversal_of reversal.id original)
  modify (set_reversed_by original reversal.id)
  audit "accounting.entry_reversed" "journal_entry" (some original)
  pure (record reversal { reversal_of = some original })

-- The entry that `reverse` posts for an original that has not been reversed.
unfoldable pub post_reversal : Context → Env → JournalEntry → Date → Tx Books JournalEntry
post_reversal c env original reversal_date = do
  old_lines ← gets (lines_of original.id)
  accounts ← gets (λ b. b.accounts)
  reversal ← post c env (reversal_posting original reversal_date old_lines accounts)
  link_reversal original.id reversal

-- `reverse`
unfoldable pub reverse : Context → Env → Uuid → Date → Tx Books JournalEntry
reverse c env i reversal_date = do
  found ← gets (entry i)
  original ← or_raise found not_found
  raise_if (is_some original.reversed_by) (conflict "ENTRY_ALREADY_REVERSED")
  raise_if (ltb reversal_date original.entry_date) (domain_validation "INVALID_REVERSAL_DATE")
  post_reversal c env original reversal_date
