-- ===== src/Accounting/Service/Columns.antt =====
-- Updates of columns that the invariant of the books does not read, and the dictionaries of
-- accounts that the service makes.
use nexora_ai.Prelude.{
  ◌≡◌, refl, ◌∙◌, Bool, true, false, some, List, [], ◌∷◌, ◌==◌, arith, All, map, is_some,
  update_where,
}
use nexora_ai.Prelude.Groups.{find}
use nexora_ai.Prelude.Rows.{All-update, Distinct-update, is_some-find_update}
use nexora_ai.Session.{Uuid}
use nexora_ai.Accounting.Model.{Account, JournalEntry, JournalEntryLine, Books}
use nexora_ai.Accounting.PostingRules.{Code}
use nexora_ai.Accounting.Bootstrap.Kept.{HasAccounts, Holds}
use nexora_ai.Accounting.Invariant.{IsPosted, IsPlaced, account_id, entry_id}
use nexora_ai.Accounting.Post.Charted.{map_ids}
use nexora_ai.Accounting.Service.{close_parent}

-- Columns that the invariant does not read.
IsPlaced-account :
    (t : Account → Bool) (f : Account → Account)
    → ((a : Account) → (f a).id ≡ a.id)
    → (xs : List Account) (es : List JournalEntry) (ls : List JournalEntryLine)
    → All (IsPlaced xs es) ls
    → All (IsPlaced (update_where t f xs) es) ls
IsPlaced-account t f same xs es [] h = tt
IsPlaced-account t f same xs es (l ∷ ls) h = (
  record {
    on_account = is_some-find_update account_id t f same l.account_id xs ∙ h.0.on_account;
    in_entry = h.0.in_entry;
    one_side = h.0.one_side;
  },
  IsPlaced-account t f same xs es ls h.1,
)

IsPlaced-entry :
    (t : JournalEntry → Bool) (f : JournalEntry → JournalEntry)
    → ((e : JournalEntry) → (f e).id ≡ e.id)
    → (xs : List Account) (es : List JournalEntry) (ls : List JournalEntryLine)
    → All (IsPlaced xs es) ls
    → All (IsPlaced xs (update_where t f es)) ls
IsPlaced-entry t f same xs es [] h = tt
IsPlaced-entry t f same xs es (l ∷ ls) h = (
  record {
    on_account = h.0.on_account;
    in_entry = is_some-find_update entry_id t f same l.journal_entry_id es ∙ h.0.in_entry;
    one_side = h.0.one_side;
  },
  IsPlaced-entry t f same xs es ls h.1,
)

HasAccounts-update :
    (t : Account → Bool) (f : Account → Account)
    → ((a : Account) → (f a).id ≡ a.id)
    → (xs : List Account) (ids : List Uuid) → All (λ i. is_some (find account_id i xs) ≡ true) ids
    → All (λ i. is_some (find account_id i (update_where t f xs)) ≡ true) ids
HasAccounts-update t f same xs [] h = tt
HasAccounts-update t f same xs (i ∷ ids) h =
    (is_some-find_update account_id t f same i xs ∙ h.0, HasAccounts-update t f same xs ids h.1)

pub close_parent-Holds :
    (ids : List Uuid) (i : Uuid) (b : Books) → Holds ids b → Holds ids (close_parent i b)
close_parent-Holds ids i b h =
    let f : Account → Account = λ a. record a { is_postable = false } in
    (
      record {
        accounts_distinct =
            Distinct-update account_id (λ a. i == a.id) f (λ a. refl) b.accounts
              h.0.accounts_distinct;
        entries_distinct = h.0.entries_distinct;
        placed =
            IsPlaced-account (λ a. i == a.id) f (λ a. refl) b.accounts b.entries b.lines h.0.placed;
        balanced = h.0.balanced;
      },
      HasAccounts-update (λ a. i == a.id) f (λ a. refl) b.accounts ids h.1,
    )

-- The entries may be changed in their links.
pub record Linked (f : JournalEntry → JournalEntry) : Type 0 where
  pub key : (e : JournalEntry) → (f e).id ≡ e.id
  pub entry : (ls : List JournalEntryLine) (e : JournalEntry) → IsPosted ls e → IsPosted ls (f e)

pub Linked-Holds :
    (ids : List Uuid) (t : JournalEntry → Bool) (f : JournalEntry → JournalEntry) (b : Books)
    → Linked f
    → Holds ids b
    → Holds ids (record b { entries = update_where t f b.entries })
Linked-Holds ids t f b k h = (
  record {
    accounts_distinct = h.0.accounts_distinct;
    entries_distinct = Distinct-update entry_id t f k.key b.entries h.0.entries_distinct;
    placed = IsPlaced-entry t f k.key b.accounts b.entries b.lines h.0.placed;
    balanced =
        All-update (IsPosted b.lines) (IsPosted b.lines) t f b.entries
          (λ e _ p. k.entry b.lines e p) (λ e _ p. p) h.0.balanced;
  },
  h.1,
)

pub reversal_of-Linked : (i : Uuid) → Linked (λ e. record e { reversal_of = some i })
reversal_of-Linked i = record {
  key = λ e. refl;
  entry = λ ls e p. record {
    status = p.status;
    debits = p.debits;
    credits = p.credits;
    equal = p.equal;
    nonzero = p.nonzero;
  };
}

pub reversed_by-Linked : (i : Uuid) → Linked (λ e. record e { reversed_by = some i })
reversed_by-Linked i = record {
  key = λ e. refl;
  entry = λ ls e p. record {
    status = p.status;
    debits = p.debits;
    credits = p.credits;
    equal = p.equal;
    nonzero = p.nonzero;
  };
}

-- Every account of a chart is found in it.
found_cons :
    (a : Account) (xs ys : List Account)
    → All (λ y. is_some (find account_id y.id xs) ≡ true) ys
    → All (λ y. is_some (find account_id y.id (a ∷ xs)) ≡ true) ys
found_cons a xs [] h = tt
found_cons a xs (y ∷ ys) h = (ground (arith, h.0), found_cons a xs ys h.1)

pub All-found : (xs : List Account) → All (λ y. is_some (find account_id y.id xs) ≡ true) xs
All-found [] = tt
All-found (x ∷ xs) = (ground arith, found_cons x xs xs (All-found xs))

pub HasAccounts-map :
    (code : Uuid → Code) (b : Books) (xs : List Account)
    → All (λ y. is_some (find account_id y.id b.accounts) ≡ true) xs
    → HasAccounts (map_ids (some (map (λ a. (code a.id, a)) xs))) b
unfolding map_ids
HasAccounts-map code b [] h = tt
HasAccounts-map code b (x ∷ xs) h = (h.0, HasAccounts-map code b xs h.1)
