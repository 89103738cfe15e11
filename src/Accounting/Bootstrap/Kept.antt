-- ===== src/Accounting/Bootstrap/Kept.antt =====
-- `_bootstrap` keeps the invariant of the books, and never takes an account away.
use nexora_ai.Prelude.{
  ◌≡◌, refl, Bool, true, false, ◌||◌, ◌==◌, Option, List, [], ◌∷◌, ◌++◌, arith, All, any_of,
  is_some, str_eq,
}
use nexora_ai.Prelude.Groups.{Distinct-append, find, is_some-find_append}
use nexora_ai.Session.{Uuid, Env}
use nexora_ai.Session.Keeps.{Keeps, Keeps-modify, Keeps-guarded, Keeps-bind, keeps_rules}
use nexora_ai.Accounting.Model.{
  Account, FiscalPeriod, JournalEntry, JournalEntryLine, Books, same_system_code, insert_account,
  insert_period,
}
use nexora_ai.Accounting.Invariant.{IsBooks, IsPlaced, account_id}
use nexora_ai.Accounting.Bootstrap.{
  DefaultAccount, add_default, add_defaults, add_journal, bootstrap,
}

abbrev clashes : Account → Account → Bool
clashes a x = a.id == x.id || str_eq a.code x.code || same_system_code a.system_code x.system_code

new_key :
    (a : Account) (xs : List Account)
    → any_of (clashes a) xs ≡ false
    → any_of (λ x. a.id == x.id) xs ≡ false
new_key a [] h = refl
new_key a (x ∷ xs) h = ground (arith, new_key a xs)

abbrev pub HasAccounts : List Uuid → Books → Type 0
HasAccounts ids b = All (λ i. is_some (find account_id i b.accounts) ≡ true) ids

has_after :
    (a : Account) (xs : List Account) (ids : List Uuid)
    → All (λ i. is_some (find account_id i xs) ≡ true) ids
    → All (λ i. is_some (find account_id i (xs ++ a ∷ [])) ≡ true) ids
has_after a xs [] h = tt
has_after a xs (i ∷ ids) h =
    (is_some-find_append account_id i xs (a ∷ []) h.0, has_after a xs ids h.1)

abbrev with_account : Account → Books → Books
with_account a b = record b { accounts = b.accounts ++ a ∷ [] }

IsPlaced-after :
    (a : Account) (xs : List Account) (es : List JournalEntry) (ls : List JournalEntryLine)
    → All (IsPlaced xs es) ls
    → All (IsPlaced (xs ++ a ∷ []) es) ls
IsPlaced-after a xs es [] h = tt
IsPlaced-after a xs es (l ∷ ls) h = (
  record {
    on_account = is_some-find_append account_id l.account_id xs (a ∷ []) h.0.on_account;
    in_entry = h.0.in_entry;
    one_side = h.0.one_side;
  },
  IsPlaced-after a xs es ls h.1,
)

-- The books and the accounts that a caller holds.
abbrev pub Holds : List Uuid → Books → Type 0
Holds ids b = IsBooks b × HasAccounts ids b

-- Periods and the journal are no part of it.
pub same_books :
    (ids : List Uuid) (b : Books) (journal : Option Uuid) (periods : List FiscalPeriod)
    → Holds ids b
    → Holds ids (record b { journal = journal; periods = periods })
same_books ids b journal periods h = (
  record {
    accounts_distinct = h.0.accounts_distinct;
    entries_distinct = h.0.entries_distinct;
    placed = h.0.placed;
    balanced = h.0.balanced;
  },
  h.1,
)

-- What `_bootstrap` does to the rows is to insert accounts and a period, and to set the journal.
module _ {P : Books → Type 0} (accounts : (a : Account) → Keeps P (insert_account a))
    (periods : (p : FiscalPeriod) → Keeps P (insert_period p))
    (journals : (j : Option Uuid) (b : Books) → P b → P (record b { journal = j })) where
  add_default-Keeps :
      (env : Env) (existing : List Account) (d : DefaultAccount)
      → Keeps P (add_default env existing d)
  unfolding add_default
  add_default-Keeps env existing d = search (keeps_rules, accounts)

  add_defaults-Keeps :
      (env : Env) (existing : List Account) (ds : List DefaultAccount)
      → Keeps P (add_defaults env existing ds)
  unfolding add_defaults
  add_defaults-Keeps env existing [] = record { at = λ s h. h }
  add_defaults-Keeps env existing (d ∷ ds) =
      Keeps-bind (add_default env existing d) (λ _. add_defaults env existing ds)
        (add_default-Keeps env existing d) (λ _. add_defaults-Keeps env existing ds)

  add_journal-Keeps : (env : Env) → Keeps P (add_journal env)
  unfolding add_journal
  add_journal-Keeps env = search (keeps_rules, Keeps-modify, journals, periods) depth 9

  pub bootstrap-Keeps : (env : Env) → Keeps P (bootstrap env)
  unfolding bootstrap
  bootstrap-Keeps env = search (keeps_rules, add_defaults-Keeps, add_journal-Keeps)

module _ (ids : List Uuid) where
  pub insert_account-Holds : (a : Account) → Keeps (Holds ids) (insert_account a)
  unfolding insert_account
  insert_account-Holds a =
      Keeps-guarded (λ b. any_of (clashes a) b.accounts) _ (with_account a)
        λ b h fresh. (
          record {
            accounts_distinct =
                Distinct-append account_id a b.accounts h.0.accounts_distinct
                  (new_key a b.accounts fresh);
            entries_distinct = h.0.entries_distinct;
            placed = IsPlaced-after a b.accounts b.entries b.lines h.0.placed;
            balanced = h.0.balanced;
          },
          has_after a b.accounts ids h.1,
        )

  pub insert_period-Holds : (p : FiscalPeriod) → Keeps (Holds ids) (insert_period p)
  unfolding insert_period
  insert_period-Holds p = search (keeps_rules, Keeps-modify, same_books)

  pub bootstrap-Holds : (env : Env) → Keeps (Holds ids) (bootstrap env)
  bootstrap-Holds =
      bootstrap-Keeps insert_account-Holds insert_period-Holds λ j b. same_books ids b j b.periods
