-- ===== src/Accounting/Post.antt =====
-- `AccountingService.post`, which every module calls inside its own transaction.
pub mod Charted
pub mod Invariant
pub mod Kept
pub mod Once
pub mod Write
use nexora_ai.Prelude.{
  ℕ, String, Bool, true, false, ◌&&◌, ◌||◌, not, Option, none, some, List, [], ◌∷◌, ◌++◌, ◌==◌,
  str_eq, if◌then◌else◌, any_of, first, update_where, is_empty,
}
use nexora_ai.Prelude.Int.{ℤ, pos, eq_ℤ, sum_from}
use nexora_ai.Decimal.{to_money}
use nexora_ai.Session.{
  Uuid, Date, year_of, DocumentNumber, Context, Env, Session, Tx, ok, err, conflict,
  domain_validation, runtime_error, database_error, has_text, raise_if, or_raise, gets, modify,
  new_id, audit, pure, ◌>>=◌, ◌>>◌,
}
use nexora_ai.Numbering.{allocate}
use nexora_ai.Accounting.PostingRules.{Code, system, manual, rev, PostingLine}
use nexora_ai.Accounting.Bootstrap.{bootstrap}
use nexora_ai.Accounting.Model.{
  Account, PeriodStatus, opened, closed, locked, FiscalPeriod, JournalEntry, JournalEntryLine,
  draft, posted, Books, period_for_date, entry, lines_of, insert_entry, insert_lines,
}

abbrev pub same_code : Code → Code → Bool
same_code (system s) (system t) = str_eq s t
same_code (manual i) (manual j) = i == j
same_code (rev i) (rev j) = i == j
same_code _ _ = false

-- A dictionary of accounts by code.
abbrev pub AccountMap : Type 0
AccountMap = List (Code × Account)

unfoldable pub account_for : Code → AccountMap → Option Account
account_for c [] = none
account_for c ((d, a) ∷ rest) =
    let found = account_for c rest in if same_code c d then some a else found

-- `repository.system_accounts(required)`
unfoldable pub system_accounts : List PostingLine → List Account → AccountMap
system_accounts lines [] = []
system_accounts lines (a ∷ rest) =
    let others = system_accounts lines rest in
    elim a.system_code [
      | none ↦ others
      | some s ↦
          if any_of (λ l. same_code (system s) l.code) lines then (system s, a) ∷ others else others
    ]

-- The keyword arguments of `post`, without the description and the metadata.
pub record Posting : Type 0 where
  pub entry_date : Date
  pub source_type : String
  pub source_id : Uuid
  pub event_type : String
  pub lines : List PostingLine
  pub allow_closed : Bool
  pub account_map : Option AccountMap

-- `account_map or system_accounts(required)`: an empty dictionary is false.
abbrev pub chosen_accounts : Option AccountMap → AccountMap → AccountMap
chosen_accounts (some (e ∷ m)) system_map = e ∷ m
chosen_accounts _ system_map = system_map

-- Each line with its account, `none` where a required code is missing.
unfoldable pub resolve : AccountMap → List PostingLine → Option (List (PostingLine × Account))
unfolding account_for
resolve m [] = some []
resolve m (l ∷ ls) =
    let rest = resolve m ls in
    elim (account_for l.code m) [
      | none ↦ none
      | some a ↦ elim rest [ none ↦ none | some r ↦ some ((l, a) ∷ r) ]
    ]

abbrev pub stored_line : Uuid → PostingLine × Account → JournalEntryLine
stored_line i (l, a) = record {
  journal_entry_id = i;
  account_id = a.id;
  debit = to_money l.debit;
  credit = to_money l.credit;
}

abbrev pub stored_lines : Uuid → List (PostingLine × Account) → List JournalEntryLine
stored_lines i [] = []
stored_lines i (r ∷ rs) = stored_line i r ∷ stored_lines i rs

abbrev pub unusable : PostingLine × Account → Bool
unusable (l, a) = not a.is_postable || not a.is_active

-- The guards on the period that contains the posting date.
unfoldable pub require_period : Context → Bool → FiscalPeriod → Tx Books Unit
require_period c allow_closed p = elim p.status [
  | opened ↦ pure tt
  | closed ↦
      raise_if (not (allow_closed && has_text "accounting.post_closed" c.permissions))
        (conflict "PERIOD_CLOSED")
  | locked ↦ λ s. err (conflict "PERIOD_CLOSED")
]

-- The deferred trigger `nexora_check_journal_balanced` on an entry that is posted.
abbrev pub balanced_rows : JournalEntry → List JournalEntryLine → Bool
balanced_rows e ls =
    let d = sum_from (λ l. l.debit) (pos 0) ls in
    let c = sum_from (λ l. l.credit) (pos 0) ls in
    eq_ℤ d c && eq_ℤ d e.total_debit && eq_ℤ c e.total_credit && not (eq_ℤ d (pos 0))

unfoldable pub check_journal_balanced : JournalEntry → Tx Books Unit
check_journal_balanced e = do
  ls ← gets (lines_of e.id)
  raise_if (not (balanced_rows e ls)) (database_error "UNBALANCED_JOURNAL")

-- What is known of the entry before its number: `debit` and `credit` are the sums of the lines.
abbrev pub draft_entry : Context → Env → Posting → Uuid → Uuid → Uuid → ℤ → ℤ → JournalEntry
draft_entry c env p i journal period debit credit = record {
  id = i;
  entry_number = none;
  journal_id = journal;
  fiscal_period_id = period;
  entry_date = p.entry_date;
  status = draft;
  source_type = p.source_type;
  source_id = p.source_id;
  event_type = p.event_type;
  total_debit = to_money debit;
  total_credit = to_money credit;
  posted_at = env.now;
  posted_by = c.membership_id;
  reversal_of = none;
  reversed_by = none;
}

-- The draft as it leaves `post`: numbered and posted.
abbrev pub finished : JournalEntry → DocumentNumber → JournalEntry
finished e number = record e { entry_number = some number; status = posted }

abbrev pub replace_entry : JournalEntry → Books → Books
replace_entry e b = record b { entries = update_where (λ f. e.id == f.id) (λ _. e) b.entries }

-- The status and the audit event. The trigger runs at commit; nothing that a caller does after
-- `post` touches what it reads.
unfoldable pub finish_entry : JournalEntry → Tx Books JournalEntry
unfolding check_journal_balanced
finish_entry e = do
  modify (replace_entry e)
  audit "accounting.entry_posted" "journal_entry" (some e.id)
  check_journal_balanced e
  pure e

-- From the draft on: the entry, its lines, the number allocated last.
unfoldable pub write_entry : JournalEntry → List JournalEntryLine → Tx Books JournalEntry
write_entry e rows = do
  insert_entry e
  insert_lines rows
  number ← allocate "journal" (year_of e.entry_date)
  finish_entry (finished e number)

abbrev pub debit_sum : List PostingLine → ℤ
debit_sum lines = sum_from (λ l. l.debit) (pos 0) lines

abbrev pub credit_sum : List PostingLine → ℤ
credit_sum lines = sum_from (λ l. l.credit) (pos 0) lines

abbrev pub is_unbalanced : List PostingLine → Bool
is_unbalanced lines =
    is_empty lines
    || not (eq_ℤ (debit_sum lines) (credit_sum lines))
    || eq_ℤ (debit_sum lines) (pos 0)

-- The general journal and a new identifier for the entry.
unfoldable pub enter_resolved :
    Context → Env → Posting → FiscalPeriod → List (PostingLine × Account) → Tx Books JournalEntry
enter_resolved c env p period resolved = do
  general ← gets (λ b. b.journal)
  journal ← or_raise general (runtime_error "General journal is missing")
  i ← new_id env
  write_entry (draft_entry c env p i journal period.id (debit_sum p.lines) (credit_sum p.lines))
      (stored_lines i resolved)

-- The accounts of the lines, the journal and the entry, in a period that takes it.
unfoldable pub enter : Context → Env → Posting → FiscalPeriod → Tx Books JournalEntry
enter c env p period = do
  system_map ← gets (λ b. system_accounts p.lines b.accounts)
  resolved ←
      or_raise (resolve (chosen_accounts p.account_map system_map) p.lines)
        (runtime_error "Required system account is missing")
  raise_if (any_of unusable resolved) (domain_validation "ACCOUNT_NOT_POSTABLE")
  enter_resolved c env p period resolved

-- The period that contains the posting date.
unfoldable pub post_balanced : Context → Env → Posting → Tx Books JournalEntry
post_balanced c env p = do
  found ← gets (period_for_date p.entry_date)
  period ← or_raise found (conflict "PERIOD_CLOSED")
  require_period c p.allow_closed period
  enter c env p period

unfoldable pub post : Context → Env → Posting → Tx Books JournalEntry
post c env p = do
  bootstrap env
  raise_if (is_unbalanced p.lines) (domain_validation "UNBALANCED_JOURNAL")
  post_balanced c env p
