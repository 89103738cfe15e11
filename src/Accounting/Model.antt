-- ===== src/Accounting/Model.antt =====
-- The rows of `accounting/models.py` and the queries of `accounting/repository.py`, with the
-- constraints that the database puts on an insert. The rows are one tenant's: row-level security
-- hides the others.
use nexora_ai.Prelude.{
  ℕ, String, Bool, true, false, ◌&&◌, ◌||◌, not, Option, some, List, [], ◌∷◌, ◌++◌, ◌==◌, leb,
  str_eq, any_of, first, select_where,
}
use nexora_ai.Prelude.Int.{ℤ, pos, eq_ℤ, ltb_ℤ}
use nexora_ai.Session.{
  Uuid, Date, DocumentNumber, Tx, ok, integrity_error, raise_if, modify, gets, ◌>>=◌, ◌>>◌,
}

pub data AccountType : Type 0 where
  asset liability equity revenue expense : AccountType

abbrev pub same_type : AccountType → AccountType → Bool
same_type asset asset = true
same_type liability liability = true
same_type equity equity = true
same_type revenue revenue = true
same_type expense expense = true
same_type _ _ = false

pub data EntryStatus : Type 0 where
  draft posted : EntryStatus

abbrev pub is_posted : EntryStatus → Bool
is_posted draft = false
is_posted posted = true

pub data PeriodStatus : Type 0 where
  opened closed locked : PeriodStatus

pub record Account : Type 0 where
  pub id : Uuid
  pub code : String
  pub name : String
  pub account_type : AccountType
  pub parent_id : Option Uuid
  pub is_postable : Bool
  pub is_system : Bool
  pub system_code : Option String
  pub is_active : Bool

pub record FiscalPeriod : Type 0 where
  pub id : Uuid
  pub start_date : Date
  pub end_date : Date
  pub status : PeriodStatus

-- Amounts are in units of 10 ^ -4. A number `none` stands for the placeholder `PENDING-…`.
pub record JournalEntry : Type 0 where
  pub id : Uuid
  pub entry_number : Option DocumentNumber
  pub journal_id : Uuid
  pub fiscal_period_id : Uuid
  pub entry_date : Date
  pub status : EntryStatus
  pub source_type : String
  pub source_id : Uuid
  pub event_type : String
  pub total_debit : ℤ
  pub total_credit : ℤ
  pub posted_at : ℕ
  pub posted_by : Uuid
  pub reversal_of : Option Uuid
  pub reversed_by : Option Uuid

pub record JournalEntryLine : Type 0 where
  pub journal_entry_id : Uuid
  pub account_id : Uuid
  pub debit : ℤ
  pub credit : ℤ

-- `journal` is the identifier of the journal GENERAL; the last field is the tenant's.
pub record Books : Type 0 where
  pub accounts : List Account
  pub journal : Option Uuid
  pub periods : List FiscalPeriod
  pub entries : List JournalEntry
  pub lines : List JournalEntryLine
  pub fiscal_year_start_month : ℕ

-- `AccountingRepository`: the queries by key.
unfoldable pub account : Uuid → Books → Option Account
account i b = first (λ a. i == a.id) b.accounts

abbrev pub contains_date : Date → FiscalPeriod → Bool
contains_date d p = leb p.start_date d && leb d p.end_date

unfoldable pub period_for_date : Date → Books → Option FiscalPeriod
period_for_date d b = first (contains_date d) b.periods

unfoldable pub entry : Uuid → Books → Option JournalEntry
entry i b = first (λ e. i == e.id) b.entries

unfoldable pub lines_of : Uuid → Books → List JournalEntryLine
lines_of i b = select_where (λ l. i == l.journal_entry_id) b.lines

-- Unique keys: (tenant, code) and (tenant, system code), where a missing one equals nothing.
abbrev pub same_system_code : Option String → Option String → Bool
same_system_code (some s) (some t) = str_eq s t
same_system_code _ _ = false

unfoldable pub insert_account : Account → Tx Books Unit
insert_account a = do
  taken ← gets (λ b.
      any_of
        (λ x. a.id == x.id || str_eq a.code x.code || same_system_code a.system_code x.system_code)
        b.accounts)
  raise_if taken (integrity_error "accounts")
  modify (λ b. record b { accounts = b.accounts ++ a ∷ [] })

-- `ex_fiscal_periods_no_overlap`: closed ranges of dates exclude one another.
abbrev pub overlaps : FiscalPeriod → FiscalPeriod → Bool
overlaps p q = leb p.start_date q.end_date && leb q.start_date p.end_date

unfoldable pub insert_period : FiscalPeriod → Tx Books Unit
insert_period p = do
  taken ← gets (λ b. any_of (λ q. p.id == q.id || overlaps p q) b.periods)
  raise_if taken (integrity_error "fiscal_periods")
  raise_if (not (leb p.start_date p.end_date)) (integrity_error "valid_date_range")
  modify (λ b. record b { periods = b.periods ++ p ∷ [] })

-- The primary key, `UniqueConstraint("tenant_id", "source_type", "source_id", "event_type")` and
-- `totals_nonnegative`. That entry numbers are unique is left to the counter that they come from.
abbrev pub same_event : JournalEntry → JournalEntry → Bool
same_event e f =
    str_eq e.source_type f.source_type
    && (e.source_id == f.source_id)
    && str_eq e.event_type f.event_type

unfoldable pub insert_entry : JournalEntry → Tx Books Unit
insert_entry e = do
  taken ← gets (λ b. any_of (λ f. e.id == f.id || same_event e f) b.entries)
  raise_if taken (integrity_error "journal_entries")
  raise_if (ltb_ℤ e.total_debit (pos 0) || ltb_ℤ e.total_credit (pos 0))
      (integrity_error "totals_nonnegative")
  modify (λ b. record b { entries = b.entries ++ e ∷ [] })

-- The check constraint `exactly_one_side`.
abbrev pub exactly_one_side : JournalEntryLine → Bool
exactly_one_side l =
    (ltb_ℤ (pos 0) l.debit && eq_ℤ l.credit (pos 0))
    || (ltb_ℤ (pos 0) l.credit && eq_ℤ l.debit (pos 0))

unfoldable pub insert_line : JournalEntryLine → Tx Books Unit
insert_line l = do
  raise_if (not (exactly_one_side l)) (integrity_error "exactly_one_side")
  modify (λ b. record b { lines = b.lines ++ l ∷ [] })

unfoldable pub insert_lines : List JournalEntryLine → Tx Books Unit
unfolding insert_line
insert_lines [] s = ok (tt, s)
insert_lines (l ∷ ls) s = (insert_line l >> insert_lines ls) s
