-- ===== src/Accounting/Post/Kept.antt =====
-- An entry that `write_entry` writes keeps the invariant of the books.
use nexora_ai.Prelude.{
  ◌≡◌, ◌≢◌, refl, sym, ap, ◌∙◌, Bool, true, false, ◌&&◌, not, List, [], ◌∷◌, ◌++◌, ◌==◌, arith, All,
  All-append, any_of, is_some,
}
use nexora_ai.Prelude.Int.{
  ℤ, pos, eq_ℤ, eq_ℤ→eq, eq_ℤ_refl, total, sum_from, sum_from-eq-total, zero_+ℤ,
}
use nexora_ai.Prelude.Groups.{Distinct-append, find, is_some-find_append}
use nexora_ai.Session.{Uuid, DocumentNumber}
use nexora_ai.Accounting.Model.{
  Account, JournalEntry, JournalEntryLine, Books, exactly_one_side, lines_of,
}
use nexora_ai.Accounting.Invariant.{IsBooks, IsPosted, IsPlaced, account_id, entry_id, entry_lines}
use nexora_ai.Accounting.Post.{balanced_rows, finished}
use nexora_ai.Accounting.Post.Write.{is_taken, written}

-- The rows of a posting: on accounts of the chart, and of the entry.
abbrev pub IsRow : List Account → Uuid → JournalEntryLine → Type 0
IsRow accounts i l =
    (is_some (find account_id l.account_id accounts) ≡ true) × (l.journal_entry_id ≡ i)

new_key :
    (e : JournalEntry) (es : List JournalEntry)
    → any_of (is_taken e) es ≡ false
    → any_of (λ f. e.id == f.id) es ≡ false
new_key e [] h = refl
new_key e (f ∷ es) h = ground (arith, new_key e es)

is_some-find_last :
    (e : JournalEntry) (es : List JournalEntry) → is_some (find entry_id e.id (es ++ e ∷ [])) ≡ true
is_some-find_last e [] = ground arith
is_some-find_last e (f ∷ es) = ground (arith, is_some-find_last e es)

-- Another entry's lines are as they were.
entry_lines-append :
    (f : JournalEntry) (i : Uuid) (accounts : List Account) (ls rows : List JournalEntryLine)
    → (i == f.id) ≡ false
    → All (IsRow accounts i) rows
    → entry_lines (ls ++ rows) f ≡ entry_lines ls f
entry_lines-append f i accounts [] [] n h = refl
entry_lines-append f i accounts [] (r ∷ rows) n h =
    ground (arith, h.0.1, entry_lines-append f i accounts [] rows n h.1)
entry_lines-append f i accounts (l ∷ ls) rows n h =
    ground (arith, entry_lines-append f i accounts ls rows n h)

old-IsPosted :
    (e : JournalEntry) (accounts : List Account) (ls rows : List JournalEntryLine)
    (es : List JournalEntry)
    → any_of (λ f. e.id == f.id) es ≡ false
    → All (IsRow accounts e.id) rows
    → All (IsPosted ls) es
    → All (IsPosted (ls ++ rows)) es
old-IsPosted e accounts ls rows [] n h p = tt
old-IsPosted e accounts ls rows (f ∷ es) n h p =
    let other : (e.id == f.id) ≡ false = ground arith in
    let same = entry_lines-append f e.id accounts ls rows other h in
    (
      record {
        status = p.0.status;
        debits = ap (total (λ l. l.debit)) same ∙ p.0.debits;
        credits = ap (total (λ l. l.credit)) same ∙ p.0.credits;
        equal = p.0.equal;
        nonzero = p.0.nonzero;
      },
      old-IsPosted e accounts ls rows es (ground arith) h p.1,
    )

and_true : (a b : Bool) → (a && b) ≡ true → (a ≡ true) × (b ≡ true)
and_true true b h = (refl, h)
and_true false b h = cc

not-true : (a : Bool) → not a ≡ true → a ≡ false
not-true true h = cc
not-true false h = refl

nonzero_of_test : (d : ℤ) → eq_ℤ d (pos 0) ≡ false → d ≢ pos 0
nonzero_of_test d h e = cc (h, ap (λ x. eq_ℤ x (pos 0)) e, eq_ℤ_refl (pos 0))

-- The trigger's test is the invariant of a posted entry.
new-IsPosted :
    (e : JournalEntry) (number : DocumentNumber) (ls : List JournalEntryLine)
    → balanced_rows (finished e number) (entry_lines ls e) ≡ true
    → IsPosted ls (finished e number)
new-IsPosted e number ls h =
    let d = sum_from (λ (l : JournalEntryLine). l.debit) (pos 0) (entry_lines ls e) in
    let c = sum_from (λ (l : JournalEntryLine). l.credit) (pos 0) (entry_lines ls e) in
    let (abc, nz) = and_true _ _ h in
    let (ab, cu) = and_true _ _ abc in
    let (dc, dt) = and_true _ _ ab in
    let debit_sum : total (λ (l : JournalEntryLine). l.debit) (entry_lines ls e) ≡ d =
      sym (sum_from-eq-total (λ l. l.debit) (pos 0) (entry_lines ls e) ∙ zero_+ℤ _) in
    let credit_sum : total (λ (l : JournalEntryLine). l.credit) (entry_lines ls e) ≡ c =
      sym (sum_from-eq-total (λ l. l.credit) (pos 0) (entry_lines ls e) ∙ zero_+ℤ _) in
    let is_debit : d ≡ e.total_debit = eq_ℤ→eq _ _ dt in
    let is_credit : c ≡ e.total_credit = eq_ℤ→eq _ _ cu in
    record {
      status = refl;
      debits = debit_sum ∙ is_debit;
      credits = credit_sum ∙ is_credit;
      equal = sym is_debit ∙ eq_ℤ→eq _ _ dc ∙ is_credit;
      nonzero = λ z. nonzero_of_test d (not-true _ nz) (is_debit ∙ z);
    }

-- Lines that were placed stay placed, and the new rows are placed.
placed :
    (accounts : List Account) (e : JournalEntry) (es : List JournalEntry)
    (ls : List JournalEntryLine)
    → All (IsPlaced accounts es) ls
    → All (IsPlaced accounts (es ++ e ∷ [])) ls
placed accounts e es [] h = tt
placed accounts e es (l ∷ ls) h = (
  record {
    on_account = h.0.on_account;
    in_entry = is_some-find_append entry_id l.journal_entry_id es (e ∷ []) h.0.in_entry;
    one_side = h.0.one_side;
  },
  placed accounts e es ls h.1,
)

rows-IsPlaced :
    (accounts : List Account) (e : JournalEntry) (es : List JournalEntry)
    (ls : List JournalEntryLine)
    → All (IsRow accounts e.id) ls
    → All (λ l. exactly_one_side l ≡ true) ls
    → All (IsPlaced accounts (es ++ e ∷ [])) ls
rows-IsPlaced accounts e es [] h k = tt
rows-IsPlaced accounts e es (l ∷ ls) h k = (
  record { on_account = h.0.0; in_entry = rw h.0.1 (is_some-find_last e es); one_side = k.0 },
  rows-IsPlaced accounts e es ls h.1 k.1,
)

pub written-IsBooks :
    (e : JournalEntry) (number : DocumentNumber) (rows : List JournalEntryLine) (b : Books)
    → IsBooks b
    → All (IsRow b.accounts e.id) rows
    → any_of (is_taken e) b.entries ≡ false
    → All (λ l. exactly_one_side l ≡ true) rows
    → balanced_rows (finished e number) (lines_of e.id (written (finished e number) rows b)) ≡ true
    → IsBooks (written (finished e number) rows b)
unfolding lines_of
written-IsBooks e number rows b h on fresh sides balanced =
    let f = finished e number in
    let new = new_key e b.entries fresh in
    record {
      accounts_distinct = h.accounts_distinct;
      entries_distinct = Distinct-append entry_id f b.entries h.entries_distinct new;
      placed =
          All-append (IsPlaced b.accounts (b.entries ++ f ∷ [])) b.lines rows
            (placed b.accounts f b.entries b.lines h.placed)
            (rows-IsPlaced b.accounts f b.entries rows on sides);
      balanced =
          All-append (IsPosted (b.lines ++ rows)) b.entries (f ∷ [])
            (old-IsPosted e b.accounts b.lines rows b.entries new on h.balanced)
            (new-IsPosted e number (b.lines ++ rows) balanced, tt);
    }
